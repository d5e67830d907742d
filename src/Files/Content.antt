-- ===== src/Files/Content.antt =====
-- What `serveContent` of fs.go sends, from the range header that the preconditions left.
use oohttp.Base.{ℕ, Bool, true, false, List, [], ◌∷◌, ◌==◌, if◌then◌else◌, Bytes}
use oohttp.Base.Int.{pos, ltb_ℤ}
use oohttp.Files.Range.{
  HttpRange, RangeResult, ranges, invalid_range, no_overlap, parse_range, add_lengths,
  sum_ranges_size,
}

-- 200 with all of the content, 206 with one range or with parts, or 416, with the field
-- `Content-Range` if the ranges are beyond the content.
pub data Content : Type 0 where
  full : Content
  partial : HttpRange → Content
  multipart : List HttpRange → Content
  unsatisfiable : Bool → Content

abbrev pub by_count : List HttpRange → Content
by_count [] = full
by_count (r ∷ []) = partial r
by_count (r ∷ q ∷ rs) = multipart (r ∷ q ∷ rs)

-- The part of `serveContent` from `parseRange` to the choice of the content.
unfoldable pub content_of : RangeResult → ℕ → Content
unfolding add_lengths
content_of (ranges rs) size = if ltb_ℤ (pos size) (sum_ranges_size rs) then full else by_count rs
content_of no_overlap size = if size == 0 then full else unsatisfiable true
content_of invalid_range size = unsatisfiable false

unfoldable pub serve_content : Bytes → ℕ → Content
unfolding content_of parse_range
serve_content range size = content_of (parse_range range size) size

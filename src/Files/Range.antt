-- ===== src/Files/Range.antt =====
-- `httpRange`, `parseRange` and `sumRangesSize` of fs.go.
use mathlib.Core.Option
use oohttp.Base.{
  ℕ, ◌+◌, ◌-◌, Bool, true, false, ◌||◌, List, [], ◌∷◌, Option, none, some, ltb, leb, ◌==◌,
  if◌then◌else◌, Bytes, codes, is_empty, drop,
}
use oohttp.Base.Int.{ℤ, pos, ◌+ℤ◌, int64}
use oohttp.Base.Text.{trim, split_at, cut_at, has_prefix, parse_int}

-- Both fields are of type `int64`, and are not negative where `parseRange` makes them.
pub record HttpRange : Type 0 where
  pub start : ℕ
  pub length : ℕ

-- One element of the list: a range, one that begins past the end, an error, or nothing.
pub data Part : Type 0 where
  range : HttpRange → Part
  beyond : Part
  invalid : Part
  blank : Part

-- A suffix of `i` bytes.
abbrev pub suffix_part : Option ℤ → ℕ → Part
suffix_part (some (pos i)) size =
    let n = if ltb size i then size else i in range (record { start = size - n; length = n })
suffix_part _ size = invalid

-- The bytes from `start` to the one at the index that was parsed.
abbrev pub closed_part : ℕ → Option ℤ → ℕ → Part
closed_part start (some (pos i)) size =
    if ltb i start
    then invalid
    else let last = if leb size i then size - 1 else i in
      range (record { start = start; length = last - start + 1 })
closed_part start _ size = invalid

abbrev pub open_part : Option ℤ → Bytes → ℕ → Part
open_part (some (pos i)) end size =
    if leb size i
    then beyond
    else if is_empty end
    then range (record { start = i; length = size - i })
    else closed_part i (parse_int end) size
open_part _ end size = invalid

abbrev pub starts_with_minus : Bytes → Bool
starts_with_minus [] = false
starts_with_minus (c ∷ _) = c == b'-'

-- `start` and `end`, trimmed.
unfoldable pub bounds_part : Bytes → Bytes → ℕ → Part
unfolding parse_int
bounds_part start end size =
    if is_empty start
    then (if is_empty end || starts_with_minus end
        then invalid
        else suffix_part (parse_int end) size)
    else open_part (parse_int start) end size

abbrev pub cut_part : Option (Bytes × Bytes) → ℕ → Part
cut_part none size = invalid
cut_part (some (start, end)) size = bounds_part (trim start) (trim end) size

unfoldable pub parse_part : Bytes → ℕ → Part
unfolding bounds_part trim cut_at
parse_part ra size = if is_empty (trim ra) then blank else cut_part (cut_at b'-' (trim ra)) size

-- The ranges, and `noOverlap`; `none` is an error.
abbrev pub Ranges : Type 0
Ranges = Option (List HttpRange × Bool)

abbrev pub with_part : Part → Ranges → Ranges
with_part (range r) rest = Option.map (λ p. (r ∷ p.0, p.1)) rest
with_part beyond rest = Option.map (λ p. (p.0, true)) rest
with_part invalid rest = none
with_part blank rest = rest

-- The loop.
unfoldable pub parse_parts : List Bytes → ℕ → Ranges
unfolding parse_part
parse_parts [] size = some ([], false)
parse_parts (ra ∷ parts) size = with_part (parse_part ra size) (parse_parts parts size)

-- What `parseRange` returns; `no_overlap` is `errNoOverlap`.
pub data RangeResult : Type 0 where
  ranges : List HttpRange → RangeResult
  invalid_range : RangeResult
  no_overlap : RangeResult

abbrev pub range_result : Ranges → RangeResult
range_result none = invalid_range
range_result (some ([], true)) = no_overlap
range_result (some (rs, _)) = ranges rs

-- `parseRange`, of a size that is not negative.
unfoldable pub parse_range : Bytes → ℕ → RangeResult
unfolding parse_parts has_prefix split_at
parse_range s size =
    if is_empty s
    then ranges []
    else if has_prefix s (codes "bytes=")
    then range_result (parse_parts (split_at b',' (drop 6 s)) size)
    else invalid_range

-- The loop of `sumRangesSize`, from the sum so far; an `int64` wraps around.
unfoldable pub add_lengths : ℤ → List HttpRange → ℤ
add_lengths size [] = size
add_lengths size (r ∷ rs) = add_lengths (int64 (size +ℤ pos r.length)) rs

-- `sumRangesSize`
abbrev pub sum_ranges_size : List HttpRange → ℤ
sum_ranges_size rs = add_lengths (pos 0) rs

-- ===== src/Files/Within.antt =====
-- What `serveContent` sends for a range header lies within the file; the sum of the lengths, an
-- `int64`, does not wrap around where the header and the file are not too long.
use native.Mathlib.Nat.{le_trans, mul-le-mul_right}
use oohttp.Base.{
  ℕ, suc, ◌+◌, ◌*◌, ◌≤◌, ◌<◌, ◌≡◌, refl, true, false, List, [], ◌∷◌, none, some, ◌==◌, Bytes, codes,
  All, arith, Bool-cases, inl, inr, drop, length, is_empty,
}
use oohttp.Base.Int.{pos, ltb_ℤ, +ℤ-pos, int64-pos}
use oohttp.Base.Text.{split_at, onto_first, has_prefix}
use oohttp.Files.Content.{
  Content, by_count, content_of, full, multipart, partial, serve_content, unsatisfiable,
}
use oohttp.Files.InBounds.{InBounds, parse_range-InBounds}
use oohttp.Files.Range.{
  HttpRange, Part, RangeResult, Ranges, add_lengths, beyond, blank, invalid, invalid_range,
  no_overlap, parse_part, parse_parts, parse_range, range, range_result, ranges, sum_ranges_size,
  with_part,
}

-- The exact sum of the lengths.
abbrev pub total_length : List HttpRange → ℕ
total_length [] = 0
total_length (r ∷ rs) = r.length + total_length rs

-- The content that is sent lies within the file, and is not longer in all than the file.
abbrev pub IsWithin : ℕ → Content → Type 0
IsWithin size full = Unit
IsWithin size (partial r) = InBounds size r
IsWithin size (multipart rs) = All (InBounds size) rs × (total_length rs ≤ size)
IsWithin size (unsatisfiable b) = Unit

add_lengths-pos :
    (n : ℕ) (rs : List HttpRange)
    → n + total_length rs < 0x8000_0000_0000_0000
    → add_lengths (pos n) rs ≡ pos (n + total_length rs)
unfolding add_lengths
add_lengths-pos n [] h = ground arith
add_lengths-pos n (r ∷ rs) h =
    rw (+ℤ-pos n r.length, int64-pos (n + r.length) (omega arith))
      (ground (arith, add_lengths-pos (n + r.length) rs (omega arith)))

total_length-bound :
    (size : ℕ) (rs : List HttpRange) → All (InBounds size) rs → total_length rs ≤ length rs * size
total_length-bound size [] a = omega arith
total_length-bound size (r ∷ rs) (b, a) = omega (arith, total_length-bound size rs a)

length-onto_first : (c : ℕ) (xs : List Bytes) → length (onto_first c xs) ≤ suc (length xs)
length-onto_first c [] = omega arith
length-onto_first c (x ∷ xs) = omega arith

length-onto_first_cons :
    (c n : ℕ) (xs : List Bytes) → length xs ≤ suc n → length (onto_first c xs) ≤ suc n
length-onto_first_cons c n [] h = omega arith
length-onto_first_cons c n (x ∷ xs) h = h

length-split_at : (d : ℕ) (s : Bytes) → length (split_at d s) ≤ suc (length s)
unfolding split_at
length-split_at d [] = omega arith
length-split_at d (c ∷ s) = elim (Bool-cases (c == d)) [
  | inl e ↦ rw e (omega (arith, length-split_at d s))
  | inr e ↦ rw e (
      le_trans (length-onto_first_cons c (length s) (split_at d s) (length-split_at d s))
        (omega arith))
]

-- No more ranges than `n`, where there are any.
abbrev AtMost : ℕ → Ranges → Type 0
AtMost n none = Unit
AtMost n (some (rs, _)) = length rs ≤ n

with_part-AtMost : (p : Part) (o : Ranges) (n : ℕ) → AtMost n o → AtMost (suc n) (with_part p o)
with_part-AtMost (range r) none n h = tt
with_part-AtMost (range r) (some (rs, _)) n h = omega arith
with_part-AtMost beyond none n h = tt
with_part-AtMost beyond (some (rs, _)) n h = omega arith
with_part-AtMost invalid o n h = tt
with_part-AtMost blank none n h = tt
with_part-AtMost blank (some (rs, _)) n h = omega arith

parse_parts-AtMost :
    (parts : List Bytes) (size : ℕ) → AtMost (length parts) (parse_parts parts size)
unfolding parse_parts
parse_parts-AtMost [] size = omega arith
parse_parts-AtMost (ra ∷ parts) size =
    with_part-AtMost (parse_part ra size) (parse_parts parts size) (length parts)
      (parse_parts-AtMost parts size)

range_result-AtMost :
    (o : Ranges) (n : ℕ) (rs : List HttpRange)
    → AtMost n o
    → range_result o ≡ ranges rs
    → length rs ≤ n
range_result-AtMost none n ts a h = cc
range_result-AtMost (some ([], true)) n ts a h = cc
range_result-AtMost (some ([], false)) n ts a h = let e : [] ≡ ts = cc in rw (← e) a
range_result-AtMost (some (r ∷ rs, b)) n ts a h = let e : r ∷ rs ≡ ts = cc in rw (← e) a

drop_prefix :
    (s : Bytes) → has_prefix s (codes "bytes=") ≡ true → suc (length (drop 6 s)) ≤ length s
unfolding has_prefix
drop_prefix [] h = cc
drop_prefix (a ∷ []) h = ground arith
drop_prefix (a ∷ b ∷ []) h = ground arith
drop_prefix (a ∷ b ∷ c ∷ []) h = ground arith
drop_prefix (a ∷ b ∷ c ∷ d ∷ []) h = ground arith
drop_prefix (a ∷ b ∷ c ∷ d ∷ e ∷ []) h = ground arith
drop_prefix (a ∷ b ∷ c ∷ d ∷ e ∷ f ∷ s) h = omega arith

-- A header of `n` bytes has no more than `n` ranges.
parse_range-AtMost :
    (s : Bytes) (size : ℕ) (rs : List HttpRange)
    → parse_range s size ≡ ranges rs
    → length rs ≤ length s
unfolding parse_range
parse_range-AtMost s size rs h = elim (Bool-cases (is_empty s)) [
  | inl e ↦ let k : [] ≡ rs = cc (rw (parse_range, e) at h) in rw (← k) (omega arith)
  | inr e ↦ elim (Bool-cases (has_prefix s (codes "bytes="))) [
    | inr n ↦ cc (rw (parse_range, e, n) at h)
    | inl y ↦
        le_trans
          (range_result-AtMost (parse_parts (split_at b',' (drop 6 s)) size) _ rs
            (parse_parts-AtMost (split_at b',' (drop 6 s)) size) (rw (parse_range, e, y) at h))
          (le_trans (length-split_at b',' (drop 6 s)) (drop_prefix s y))
  ]
]

by_count-IsWithin :
    (rs : List HttpRange) (size : ℕ)
    → All (InBounds size) rs
    → total_length rs ≤ size
    → IsWithin size (by_count rs)
by_count-IsWithin [] size a h = tt
by_count-IsWithin (r ∷ []) size (a, _) h = a
by_count-IsWithin (r ∷ q ∷ rs) size a h = (a, h)

content_of-IsWithin :
    (o : RangeResult) (size : ℕ)
    → ((rs : List HttpRange)
        → o ≡ ranges rs
        → All (InBounds size) rs × (total_length rs < 0x8000_0000_0000_0000))
    → IsWithin size (content_of o size)
unfolding content_of
content_of-IsWithin (ranges rs) size a =
    let (inside, bound) = a rs refl in
    let exact : sum_ranges_size rs ≡ pos (0 + total_length rs) =
      add_lengths-pos 0 rs (omega arith) in
    elim (Bool-cases (ltb_ℤ (pos size) (sum_ranges_size rs))) [
      | inl e ↦ rw (content_of, e) tt
      | inr e ↦
          let le : total_length rs ≤ size = ground (arith, rw exact at e) in
          rw (content_of, e) (by_count-IsWithin rs size inside le)
    ]
content_of-IsWithin no_overlap size a = elim (Bool-cases (size == 0)) [
  | inl e ↦ rw (content_of, e) tt
  | inr e ↦ rw (content_of, e) tt
]
content_of-IsWithin invalid_range size a = tt

-- For a header `Range` whose length times the size of the content is below 2^63: each range that is
-- sent ends within the content, and is empty only at its end; the ranges of a multipart answer are
-- together no longer than the content.
pub serve_content-IsWithin :
    (range_req : Bytes) (size : ℕ)
    → length range_req * size < 0x8000_0000_0000_0000
    → IsWithin size (serve_content range_req size)
unfolding serve_content
serve_content-IsWithin range_req size h =
    content_of-IsWithin (parse_range range_req size) size λ rs e.
      let inside = parse_range-InBounds range_req size rs e in
      (
        inside,
        omega (
          arith,
          total_length-bound size rs inside,
          mul-le-mul_right size (parse_range-AtMost range_req size rs e),
        ),
      )

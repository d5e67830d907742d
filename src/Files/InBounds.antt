-- ===== src/Files/InBounds.antt =====
-- The ranges of a request lie within the content.
use oohttp.Base.{
  ℕ, ◌+◌, ◌≤◌, ◌<◌, ◌≡◌, refl, true, false, ◌||◌, List, [], ◌∷◌, Option, none, some, leb, Bytes,
  codes, is_empty, arith, All, inl, inr, Bool-cases,
}
use oohttp.Base.Int.{ℤ, pos, negsuc}
use oohttp.Base.Text.{trim, parse_int, cut_at, has_prefix, split_at}
use oohttp.Files.Range.{
  HttpRange, Part, range, beyond, invalid, blank, suffix_part, open_part, closed_part,
  starts_with_minus, bounds_part, parse_part, Ranges, with_part, parse_parts, ranges, range_result,
  parse_range, cut_part,
}
use oohttp.Base.{drop}

-- The range ends within `size` bytes, and is not empty unless it stands at the end.
abbrev pub InBounds : ℕ → HttpRange → Type 0
InBounds size r = (r.start + r.length ≤ size) × ((r.length ≡ 0) → r.start ≡ size)

suffix_part-InBounds :
    (o : Option ℤ) (size : ℕ) {r : HttpRange} → suffix_part o size ≡ range r → InBounds size r
suffix_part-InBounds none size h = cc
suffix_part-InBounds (some (pos i)) size h = ground arith
suffix_part-InBounds (some (negsuc i)) size h = cc

closed_part-InBounds :
    (i : ℕ) (o : Option ℤ) (size : ℕ) {r : HttpRange}
    → i < size
    → closed_part i o size ≡ range r
    → InBounds size r
closed_part-InBounds i none size lt h = cc
closed_part-InBounds i (some (pos j)) size lt h = ground arith
closed_part-InBounds i (some (negsuc j)) size lt h = cc

open_part-InBounds :
    (o : Option ℤ) (end : Bytes) (size : ℕ) {r : HttpRange}
    → open_part o end size ≡ range r
    → InBounds size r
open_part-InBounds none end size h = cc
open_part-InBounds (some (negsuc j)) end size h = cc
open_part-InBounds (some (pos i)) end size h = elim (Bool-cases (leb size i)) [
  | inl past ↦ cc (rw past at h)
  | inr before ↦ elim (Bool-cases (is_empty end)) [
    | inl e ↦ let k = rw (before, e) at h in ground arith
    | inr e ↦ closed_part-InBounds i (parse_int end) size (ground arith) (rw (before, e) at h)
  ]
]

bounds_part-InBounds :
    (start end : Bytes) (size : ℕ) {r : HttpRange}
    → bounds_part start end size ≡ range r
    → InBounds size r
unfolding bounds_part
bounds_part-InBounds start end size h = elim (Bool-cases (is_empty start)) [
  | inr e ↦ open_part-InBounds (parse_int start) end size (rw (bounds_part, e) at h)
  | inl e ↦ elim (Bool-cases (is_empty end || starts_with_minus end)) [
    | inl w ↦ cc (rw (bounds_part, e, w) at h)
    | inr w ↦ suffix_part-InBounds (parse_int end) size (rw (bounds_part, e, w) at h)
  ]
]

cut_part-InBounds :
    (o : Option (Bytes × Bytes)) (size : ℕ) {r : HttpRange}
    → cut_part o size ≡ range r
    → InBounds size r
cut_part-InBounds none size h = cc
cut_part-InBounds (some (s, t)) size h = bounds_part-InBounds (trim s) (trim t) size h

parse_part-InBounds :
    (ra : Bytes) (size : ℕ) {r : HttpRange} → parse_part ra size ≡ range r → InBounds size r
unfolding parse_part
parse_part-InBounds ra size h = elim (Bool-cases (is_empty (trim ra))) [
  | inl e ↦ cc (rw (parse_part, e) at h)
  | inr e ↦ cut_part-InBounds (cut_at b'-' (trim ra)) size (rw (parse_part, e) at h)
]

-- All the ranges of a loop that succeeds.
abbrev AllInBounds : ℕ → Ranges → Type 0
AllInBounds size none = Unit
AllInBounds size (some (rs, _)) = All (InBounds size) rs

with_part-AllInBounds :
    (p : Part) (o : Ranges) (size : ℕ)
    → ((r : HttpRange) → p ≡ range r → InBounds size r)
    → AllInBounds size o
    → AllInBounds size (with_part p o)
with_part-AllInBounds (range r) none size one rest = tt
with_part-AllInBounds (range r) (some (rs, _)) size one rest = (one r refl, rest)
with_part-AllInBounds beyond none size one rest = tt
with_part-AllInBounds beyond (some (rs, _)) size one rest = rest
with_part-AllInBounds invalid o size one rest = tt
with_part-AllInBounds blank o size one rest = rest

parse_parts-AllInBounds :
    (parts : List Bytes) (size : ℕ) → AllInBounds size (parse_parts parts size)
unfolding parse_parts
parse_parts-AllInBounds [] size = tt
parse_parts-AllInBounds (ra ∷ parts) size =
    with_part-AllInBounds (parse_part ra size) (parse_parts parts size) size
      (λ r h. parse_part-InBounds ra size h) (parse_parts-AllInBounds parts size)

range_result-InBounds :
    (o : Ranges) (size : ℕ) (rs : List HttpRange)
    → AllInBounds size o
    → range_result o ≡ ranges rs
    → All (InBounds size) rs
range_result-InBounds none size ts a h = cc
range_result-InBounds (some ([], true)) size ts a h = cc
range_result-InBounds (some ([], false)) size ts a h = let e : [] ≡ ts = cc in rw (← e) tt
range_result-InBounds (some (r ∷ rs, b)) size ts a h = let e : r ∷ rs ≡ ts = cc in rw (← e) a

-- Every range that `parseRange` returns ends within the content, and is empty only at its end.
pub parse_range-InBounds :
    (s : Bytes) (size : ℕ) (rs : List HttpRange)
    → parse_range s size ≡ ranges rs
    → All (InBounds size) rs
unfolding parse_range
parse_range-InBounds s size rs h = elim (Bool-cases (is_empty s)) [
  | inl e ↦ let k : [] ≡ rs = cc (rw (parse_range, e) at h) in rw (← k) tt
  | inr e ↦ elim (Bool-cases (has_prefix s (codes "bytes="))) [
    | inr n ↦ cc (rw (parse_range, e, n) at h)
    | inl y ↦
        range_result-InBounds (parse_parts (split_at b',' (drop 6 s)) size) size rs
          (parse_parts-AllInBounds (split_at b',' (drop 6 s)) size) (rw (parse_range, e, y) at h)
  ]
]

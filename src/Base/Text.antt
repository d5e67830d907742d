-- ===== src/Base/Text.antt =====
-- What the standard library does on strings: trimming, cutting, prefixes, letter case, numerals.
pub mod Trim
use Prim.Native.Nat.{ℕ, zero, suc, ◌+◌, ◌-◌, ◌*◌, ◌≤◌, ◌<◌}
use mathlib.Core.Path.{◌≡◌, refl}
use mathlib.Core.Bool.{Bool, true, false, not, ◌&&◌, ◌||◌}
use mathlib.Core.Option
use mathlib.Core.Option.{Option, none, some}
use mathlib.Core.List.{List, [], ◌∷◌, ◌++◌, map}
use native.Mathlib.Omega.{arith}
use oohttp.Base.Int.{ℤ, pos, negsuc}
use oohttp.Base.Lists.{length, take, drop}
use oohttp.Base.Strings.{Bytes, codes, equal, is_empty, index_byte}
use oohttp.Base.Tests.{ltb, leb, ◌==◌, if◌then◌else◌}

-- The spaces of `textproto.TrimString`.
abbrev pub is_space : ℕ → Bool
is_space c = c == b' ' || c == b'\t' || c == b'\n' || c == b'\r'

unfoldable pub trim_left : Bytes → Bytes
trim_left [] = []
trim_left (c ∷ s) = if is_space c then trim_left s else c ∷ s

abbrev pub keep_right : ℕ → Bytes → Bytes
keep_right c r = if is_empty r && is_space c then [] else c ∷ r

unfoldable pub trim_right : Bytes → Bytes
trim_right [] = []
trim_right (c ∷ s) = keep_right c (trim_right s)

-- `textproto.TrimString`
unfoldable pub trim : Bytes → Bytes
unfolding trim_left trim_right
trim s = trim_right (trim_left s)

abbrev pub onto_first : ℕ → List Bytes → List Bytes
onto_first c [] = (c ∷ []) ∷ []
onto_first c (x ∷ xs) = (c ∷ x) ∷ xs

-- `strings.Split` at a byte
unfoldable pub split_at : ℕ → Bytes → List Bytes
split_at d [] = [] ∷ []
split_at d (c ∷ s) = if c == d then [] ∷ split_at d s else onto_first c (split_at d s)

-- `strings.Cut` at a byte
unfoldable pub cut_at : ℕ → Bytes → Option (Bytes × Bytes)
cut_at d [] = none
cut_at d (c ∷ s) = if c == d then some ([], s) else Option.map (λ p. (c ∷ p.0, p.1)) (cut_at d s)

-- `strings.HasPrefix`
unfoldable pub has_prefix : Bytes → Bytes → Bool
has_prefix s [] = true
has_prefix [] (d ∷ p) = false
has_prefix (c ∷ s) (d ∷ p) = c == d && has_prefix s p

-- `strings.HasSuffix`
unfoldable pub has_suffix : Bytes → Bytes → Bool
unfolding equal
has_suffix s p = leb (length p) (length s) && equal (drop (length s - length p) s) p

-- `strings.TrimPrefix`
abbrev pub trim_prefix : Bytes → Bytes → Bytes
trim_prefix s p = if has_prefix s p then drop (length p) s else s

abbrev pub lower : ℕ → ℕ
lower c = if leb b'A' c && leb c b'Z' then c + 32 else c

-- Equal up to the case of ASCII letters.
unfoldable pub equal_fold : Bytes → Bytes → Bool
equal_fold [] [] = true
equal_fold [] (d ∷ t) = false
equal_fold (c ∷ s) [] = false
equal_fold (c ∷ s) (d ∷ t) = lower c == lower d && equal_fold s t

abbrev pub is_digit : ℕ → Bool
is_digit c = leb b'0' c && leb c b'9'

unfoldable pub digits_onto : ℕ → Bytes → Option ℕ
digits_onto n [] = some n
digits_onto n (c ∷ s) =
    let more = digits_onto (n * 10 + (c - b'0')) s in if is_digit c then more else none

-- The value of one decimal digit or more, however large.
unfoldable pub decimal : Bytes → Option ℕ
unfolding digits_onto
decimal [] = none
decimal (c ∷ s) = digits_onto 0 (c ∷ s)

abbrev pub below_limit : ℕ → Option ℕ → Option ℕ
below_limit l none = none
below_limit l (some n) = if ltb n l then some n else none

abbrev pub positive : Option ℕ → Option ℤ
positive o = Option.map pos (below_limit 0x8000_0000_0000_0000 o)

abbrev pub minus : ℕ → ℤ
minus zero = pos 0
minus (suc n) = negsuc n

abbrev pub negative : Option ℕ → Option ℤ
negative o = Option.map minus (below_limit 0x8000_0000_0000_0001 o)

-- `strconv.ParseInt(s, 10, 64)`; `none` is an error.
unfoldable pub parse_int : Bytes → Option ℤ
unfolding decimal
parse_int [] = none
parse_int (c ∷ s) =
    if c == b'-'
    then negative (decimal s)
    else if c == b'+'
    then positive (decimal s)
    else positive (decimal (c ∷ s))

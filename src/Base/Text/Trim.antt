-- ===== src/Base/Text/Trim.antt =====
-- Trimming twice is trimming once.
use mathlib.Core.Path.{◌≡◌, refl, ap, ◌∙◌}
use mathlib.Core.List.{[], ◌∷◌}
use native.Mathlib.Omega.{arith}
use oohttp.Base.Strings.{Bytes}
use oohttp.Base.Text.{keep_right, trim, trim_left, trim_right}

trim_right-keep_right :
    (c : _) (r : Bytes) → trim_right r ≡ r → trim_right (keep_right c r) ≡ keep_right c r
unfolding trim_right
trim_right-keep_right c [] h = ground arith
trim_right-keep_right c (d ∷ r) h = rw h refl

trim_right_twice : (s : Bytes) → trim_right (trim_right s) ≡ trim_right s
unfolding trim_right
trim_right_twice [] = refl
trim_right_twice (c ∷ s) = trim_right-keep_right c (trim_right s) (trim_right_twice s)

-- Without a space in front, there is none in front of the text that is trimmed on the right.
trim_left-trim_right : (s : Bytes) → trim_left (trim_right (trim_left s)) ≡ trim_right (trim_left s)
unfolding trim_left trim_right
trim_left-trim_right [] = refl
trim_left-trim_right (c ∷ s) = ground (arith, trim_left-trim_right s)

pub trim_twice : (s : Bytes) → trim (trim s) ≡ trim s
unfolding trim
trim_twice s = ap trim_right (trim_left-trim_right s) ∙ trim_right_twice (trim_left s)

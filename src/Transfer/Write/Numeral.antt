-- ===== src/Transfer/Write/Numeral.antt =====
-- A numeral that is written is read back.
use oohttp.Base.{
  ℕ, zero, suc, ◌+◌, ◌-◌, ◌*◌, ◌/◌, ◌%◌, ◌<◌, ◌≡◌, refl, ap, ◌∙◌, true, false, [], ◌∷◌, some, ltb,
  Bytes, is_empty, All, arith, Bool-cases, inl, inr,
}
use oohttp.Base.Int.{pos}
use oohttp.Base.Text.{decimal, digits_onto, is_digit, is_space, trim, trim_left, trim_right}
use oohttp.Transfer.Write.Fields.{digits_before, format_int}

abbrev IsNumeral : Bytes → Type 0
IsNumeral = All (λ c. is_digit c ≡ true)

digits_before-IsNumeral :
    (fuel n : ℕ) (s : Bytes) → IsNumeral s → IsNumeral (digits_before fuel n s)
unfolding digits_before
digits_before-IsNumeral zero n s h = h
digits_before-IsNumeral (suc fuel) n s h = elim (Bool-cases (ltb n 10)) [
  | inl e ↦ rw e (ground arith, h)
  | inr e ↦ rw e (digits_before-IsNumeral fuel (n / 10) ((b'0' + n % 10) ∷ s) (ground arith, h))
]

digits_onto-digit :
    (n d : ℕ) (s : Bytes) → d < 10 → digits_onto n ((b'0' + d) ∷ s) ≡ digits_onto (n * 10 + d) s
unfolding digits_onto
digits_onto-digit n d s h =
    let e : is_digit (b'0' + d) ≡ true = ground arith in
    let f : n * 10 + (b'0' + d - b'0') ≡ n * 10 + d = omega arith in rw (e, f) refl

digits_onto-digits_before :
    (fuel n : ℕ) (s : Bytes) → n < fuel → digits_onto 0 (digits_before fuel n s) ≡ digits_onto n s
unfolding digits_before
digits_onto-digits_before zero n s l = ground arith
digits_onto-digits_before (suc fuel) n s l = elim (Bool-cases (ltb n 10)) [
  | inl e ↦ rw e (digits_onto-digit 0 n s (ground arith) ∙ ap (λ m. digits_onto m s) (omega arith))
  | inr e ↦ rw e (
      digits_onto-digits_before fuel (n / 10) ((b'0' + n % 10) ∷ s) (ground arith)
      ∙ digits_onto-digit (n / 10) (n % 10) s (omega arith)
      ∙ ap (λ m. digits_onto m s) (omega arith))
]

nonempty : (fuel n : ℕ) (s : Bytes) → is_empty s ≡ false → is_empty (digits_before fuel n s) ≡ false
unfolding digits_before
nonempty zero n s h = h
nonempty (suc fuel) n s h = elim (Bool-cases (ltb n 10)) [
  | inl e ↦ rw e refl
  | inr e ↦ rw e (nonempty fuel (n / 10) ((b'0' + n % 10) ∷ s) refl)
]

decimal_nonempty : (s : Bytes) → is_empty s ≡ false → decimal s ≡ digits_onto 0 s
unfolding decimal
decimal_nonempty [] h = ground arith
decimal_nonempty (c ∷ s) h = refl

trim_right-IsNumeral : (s : Bytes) → IsNumeral s → trim_right s ≡ s
unfolding trim_right
trim_right-IsNumeral [] h = refl
trim_right-IsNumeral (c ∷ s) (d, h) =
    let e : is_space c ≡ false = ground arith in rw (trim_right-IsNumeral s h) (ground arith)

trim-IsNumeral : (s : Bytes) → IsNumeral s → trim s ≡ s
unfolding trim trim_left
trim-IsNumeral [] h = trim_right-IsNumeral [] h
trim-IsNumeral (c ∷ s) (d, h) =
    let e : is_space c ≡ false = ground arith in rw e (trim_right-IsNumeral (c ∷ s) (d, h))

first_digits : (n : ℕ) → is_empty (digits_before (suc n) n []) ≡ false
unfolding digits_before
first_digits n = elim (Bool-cases (ltb n 10)) [
  | inl e ↦ rw e refl
  | inr e ↦ rw e (nonempty n (n / 10) ((b'0' + n % 10) ∷ []) refl)
]

pub format_int-nonempty : (n : ℕ) → is_empty (format_int (pos n)) ≡ false
unfolding format_int
format_int-nonempty n = first_digits n

pub trim-format_int : (n : ℕ) → trim (format_int (pos n)) ≡ format_int (pos n)
unfolding format_int
trim-format_int n =
    trim-IsNumeral (digits_before (suc n) n []) (digits_before-IsNumeral (suc n) n [] tt)

pub decimal-format_int : (n : ℕ) → decimal (format_int (pos n)) ≡ some n
unfolding format_int digits_onto
decimal-format_int n =
    decimal_nonempty (digits_before (suc n) n []) (first_digits n)
    ∙ digits_onto-digits_before (suc n) n [] (omega arith)

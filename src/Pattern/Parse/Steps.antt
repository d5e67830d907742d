-- ===== src/Pattern/Parse/Steps.antt =====
-- The rounds of the loop of `parsePattern`, and the segments that it makes.
use oohttp.Base.{
  ℕ, zero, suc, ◌≤◌, ◌<◌, Bool, true, false, List, [], ◌∷◌, ◌≡◌, ◌≢◌, refl, ◌⊎◌, inl, inr, arith,
  if◌then◌else◌, Bytes, is_empty, drop, take, length,
}
use oohttp.Paths.{segment_end}
use oohttp.Pattern.Parse.{
  Segments, segments, bad, out_of_fuel, Step, wrong, stop, next, literal, trailing, has, parse_step,
  brace_step, named_step, parse_segments, is_valid_wildcard_name, push,
}
use oohttp.Pattern.Meaning.{IsMultiLast}
use oohttp.Pattern.{Segment, slash}

length-drop : {A : Type 0} (n : ℕ) (xs : List A) → length (drop n xs) ≤ length xs
length-drop zero xs = omega arith
length-drop (suc n) [] = omega arith
length-drop (suc n) (x ∷ xs) = ground (arith, length-drop n xs)

module _ (runes : Bytes → List ℕ) (is_letter is_digit is_token_rune : ℕ → Bool) where
  -- A literal, or a wildcard with a valid name that was not seen before.
  abbrev pub IsProper : List Bytes → Segment → Type 0
  IsProper seen x =
      ((x.wild ≡ false) × (x.multi ≡ false))
      ⊎ ((x.wild ≡ true)
          × (is_valid_wildcard_name runes is_letter is_digit is_token_rune x.s ≡ true)
          × (has x.s seen ≡ false))

  abbrev pub names_of : Segment → List Bytes → List Bytes
  names_of x seen = if x.wild then x.s ∷ seen else seen

  -- Segments as the documentation of patterns describes them: multi wildcards stand last, the names
  -- of wildcards are valid and differ, and a last slash is a multi wildcard with no name.
  abbrev pub IsWritten : List Bytes → List Segment → Type 0
  IsWritten seen [] = Unit
  IsWritten seen (x ∷ segs) =
      (x.multi ≡ true → segs ≡ [])
      × ((x ≡ trailing) ⊎ IsProper seen x)
      × IsWritten (names_of x seen) segs

  pub IsWritten-IsMultiLast :
      (segs : List Segment) (seen : List Bytes) → IsWritten seen segs → IsMultiLast segs
  IsWritten-IsMultiLast [] seen w = tt
  IsWritten-IsMultiLast (x ∷ segs) seen (last, _, w) =
      (last, IsWritten-IsMultiLast segs (names_of x seen) w)

  parse_step-next :
      (seg rest : Bytes) (seen names : List Bytes) (x : Segment)
      → parse_step runes is_letter is_digit is_token_rune seg rest seen ≡ next x names
      → (x.multi ≡ true → rest ≡ []) × IsProper seen x × (names ≡ names_of x seen)
  unfolding parse_step brace_step named_step
  parse_step-next seg rest seen names x h = ground arith

  pub parse_step-stop :
      (seg rest : Bytes) (seen : List Bytes) (x : Segment)
      → parse_step runes is_letter is_digit is_token_rune seg rest seen ≡ stop x
      → x ≡ literal slash
  unfolding parse_step brace_step named_step
  parse_step-stop seg rest seen x h = ground arith

  push-out_of_fuel :
      (x : Segment) (o : Segments)
      → push runes is_letter is_digit is_token_rune x o ≡ out_of_fuel
      → o ≡ out_of_fuel
  push-out_of_fuel x (segments xs) h = cc
  push-out_of_fuel x (bad off p) h = cc
  push-out_of_fuel x out_of_fuel h = refl

  -- Enough fuel is a round for every byte.
  pub parse_segments-ne-out_of_fuel :
      (fuel n : ℕ) (rest : Bytes) (seen : List Bytes)
      → length rest < fuel
      → parse_segments runes is_letter is_digit is_token_rune fuel n rest seen ≢ out_of_fuel
  unfolding parse_segments
  parse_segments-ne-out_of_fuel zero n rest seen h e = ground arith
  parse_segments-ne-out_of_fuel (suc fuel) n [] seen h e = cc
  parse_segments-ne-out_of_fuel (suc fuel) n (_ ∷ []) seen h e = cc
  parse_segments-ne-out_of_fuel (suc fuel) n (d ∷ c ∷ s) seen h e =
      go _ refl (λ names. parse_segments-ne-out_of_fuel fuel n left names small)
    where
      r : Bytes
      r = c ∷ s

      left : Bytes
      left = drop (segment_end r) r

      small : length left < fuel
      small = let l = length-drop (segment_end r) r in omega arith

      go :
          (o : Step)
          → parse_step runes is_letter is_digit is_token_rune (take (segment_end r) r) left seen ≡ o
          → ((names : List Bytes)
              → parse_segments runes is_letter is_digit is_token_rune fuel n left names
                ≢ out_of_fuel)
          → ⊥
      go (wrong p) eq ih = cc (rw (parse_segments, eq) at e)
      go (stop x) eq ih = cc (rw (parse_segments, eq) at e)
      go (next x names) eq ih = ih names (push-out_of_fuel x _ (rw (parse_segments, eq) at e))

  pub push-segments :
      (x : Segment) (o : Segments) (segs : List Segment)
      → push runes is_letter is_digit is_token_rune x o ≡ segments segs
      → (xs : List Segment) × (o ≡ segments xs) × (segs ≡ x ∷ xs)
  push-segments x (segments xs) segs h = (xs, refl, cc)
  push-segments x (bad off p) segs h = cc
  push-segments x out_of_fuel segs h = cc

  -- The segments that the loop makes are those that the documentation describes, and there is one if
  -- there is a path.
  pub parse_segments-IsWritten :
      (fuel n : ℕ) (rest : Bytes) (seen : List Bytes) (segs : List Segment)
      → parse_segments runes is_letter is_digit is_token_rune fuel n rest seen ≡ segments segs
      → IsWritten seen segs × (is_empty rest ≡ is_empty segs)
  unfolding parse_segments
  parse_segments-IsWritten zero n rest seen segs h = cc
  parse_segments-IsWritten (suc fuel) n [] seen segs h =
      let e : [] ≡ segs = cc in rw (← e) (tt, refl)
  parse_segments-IsWritten (suc fuel) n (_ ∷ []) seen segs h =
      let e : trailing ∷ [] ≡ segs = cc in rw (← e) (((λ m. refl), inl refl, tt), refl)
  parse_segments-IsWritten (suc fuel) n (d ∷ c ∷ s) seen segs h =
      go _ refl (λ names xs. parse_segments-IsWritten fuel n left names xs)
    where
      r : Bytes
      r = c ∷ s

      left : Bytes
      left = drop (segment_end r) r

      go :
          (o : Step)
          → parse_step runes is_letter is_digit is_token_rune (take (segment_end r) r) left seen ≡ o
          → ((names : List Bytes) (xs : List Segment)
              → parse_segments runes is_letter is_digit is_token_rune fuel n left names
                ≡ segments xs
              → IsWritten names xs × (is_empty left ≡ is_empty xs))
          → IsWritten seen segs × (false ≡ is_empty segs)
      go (wrong p) eq ih = cc (rw (parse_segments, eq) at h)
      go (stop x) eq ih =
          let e : x ∷ [] ≡ segs = cc (rw (parse_segments, eq) at h) in
          let x_is = parse_step-stop (take (segment_end r) r) left seen x eq in
          rw (← e, x_is) (((λ m. refl), inr (inl (refl, refl)), tt), refl)
      go (next x names) eq ih =
          let (multi_last, proper, names_is) =
            parse_step-next (take (segment_end r) r) left seen names x eq in
          let (xs, tail, e) = push-segments x _ segs (rw (parse_segments, eq) at h) in
          let (written, both) = ih names xs tail in
          rw e (((λ m. ground (arith, multi_last m)), inr proper, rw names_is at written), refl)

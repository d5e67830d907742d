-- ===== src/Pattern/Parse/Result.antt =====
-- What `parsePattern` returns for any string.
use oohttp.Base.{
  ℕ, zero, suc, ◌+◌, Bool, true, false, not, ◌&&◌, ◌||◌, List, [], ◌∷◌, ◌≡◌, ◌≢◌, refl, inl, inr,
  arith, none, some, Bytes, codes, equal, Bool-cases, Option-cases, is_empty, drop, take, length,
  index_byte,
}
use oohttp.Paths.Clean.{clean_path}
use oohttp.Pattern.Parse.Steps.{IsWritten, parse_segments-ne-out_of_fuel, parse_segments-IsWritten}
use oohttp.Pattern.Parse.{
  Segments, segments, bad, out_of_fuel, Parsed, parsed, failed, empty_pattern, stuck, parse_rest,
  parse_pattern, valid_method, with_segments, cut_space,
}
use oohttp.Pattern.{Segment, Pattern}

drop-index_byte : (s : Bytes) (c i : ℕ) → index_byte s c ≡ some i → is_empty (drop i s) ≡ false
unfolding index_byte
drop-index_byte [] c i h = cc
drop-index_byte (x ∷ s) c zero h = refl
drop-index_byte (x ∷ s) c (suc i) h = ground (arith, drop-index_byte s c i)

module _ (runes : Bytes → List ℕ) (is_letter is_digit is_token_rune : ℕ → Bool) where
  -- A pattern that parsing makes.
  pub record IsParsed (p : Pattern) : Type 0 where
    pub written : IsWritten runes is_letter is_digit is_token_rune [] p.segments
    pub some_segment : is_empty p.segments ≡ false
    pub method_ok :
        is_empty p.method || valid_method runes is_letter is_digit is_token_rune p.method ≡ true
    pub host_ok : index_byte p.host b'{' ≡ none

  abbrev pub ParseResult : Parsed → Type 0
  ParseResult (parsed p) = IsParsed p
  ParseResult (failed off problem) = Unit
  ParseResult empty_pattern = Unit
  ParseResult stuck = ⊥

  with_segments-ParseResult :
      (method host : Bytes) (o : Segments)
      → o ≢ out_of_fuel
      → is_empty method || valid_method runes is_letter is_digit is_token_rune method ≡ true
      → index_byte host b'{' ≡ none
      → ((segs : List Segment)
          → o ≡ segments segs
          → IsWritten runes is_letter is_digit is_token_rune [] segs × (is_empty segs ≡ false))
      → ParseResult (with_segments runes is_letter is_digit is_token_rune method host o)
  with_segments-ParseResult method host (segments segs) ne m h w =
      let (written, there) = w segs refl in
      record { written = written; some_segment = there; method_ok = m; host_ok = h }
  with_segments-ParseResult method host (bad off p) ne m h w = tt
  with_segments-ParseResult method host out_of_fuel ne m h w = ne refl

  parse_rest-ParseResult :
      (n off : ℕ) (method rest : Bytes)
      → is_empty method || valid_method runes is_letter is_digit is_token_rune method ≡ true
      → ParseResult (parse_rest runes is_letter is_digit is_token_rune n off method rest)
  unfolding parse_rest
  parse_rest-ParseResult n off method rest m = elim (Option-cases (index_byte rest b'/')) [
    | inl absent ↦ rw (parse_rest, absent) tt
    | inr (i, here) ↦ elim (Option-cases (index_byte (take i rest) b'{')) [
      | inr (j, brace) ↦ rw (parse_rest, here, brace) tt
      | inl plain ↦
          elim (Bool-cases (
            not (is_empty method)
            && not (equal method (codes "CONNECT"))
            && not (equal (drop i rest) (clean_path (drop i rest))))) [
              | inl not_clean ↦ rw (parse_rest, here, plain, not_clean) tt
              | inr clean ↦
                  rw (parse_rest, here, plain, clean)
                    (with_segments-ParseResult method (take i rest) _
                      (parse_segments-ne-out_of_fuel runes is_letter is_digit is_token_rune
                        (length (drop i rest) + 1) n (drop i rest) [] (omega arith))
                      m plain
                      (λ segs e.
                        let (written, both) =
                          parse_segments-IsWritten runes is_letter is_digit is_token_rune
                            (length (drop i rest) + 1) n (drop i rest) [] segs e in
                        (written, ground (arith, drop-index_byte rest b'/' i here))))
            ]
    ]
  ]

  -- Parsing any string ends, with an error or with a pattern that has a segment, whose multi wildcards
  -- stand last, whose wildcards have valid names that all differ, whose method is empty or valid, and
  -- whose host has no brace.
  pub parse_pattern-ParseResult :
      (s : Bytes) → ParseResult (parse_pattern runes is_letter is_digit is_token_rune s)
  unfolding parse_pattern
  parse_pattern-ParseResult s = elim (Option-cases (cut_space s)) [
    | inl one ↦ elim (Bool-cases (is_empty s)) [
      | inl nothing ↦ rw (parse_pattern, one, nothing) tt
      | inr something ↦
          rw (parse_pattern, one, something) (parse_rest-ParseResult (length s) 0 [] s refl)
    ]
    | inr ((method, rest), two) ↦
        elim (Bool-cases
          (is_empty method || valid_method runes is_letter is_digit is_token_rune method)) [
            | inl ok ↦
                let passes : not (is_empty method)
                      && not (valid_method runes is_letter is_digit is_token_rune method)
                    ≡ false =
                  ground arith in
                rw (parse_pattern, two, passes)
                  (parse_rest-ParseResult (length s) (length method + 1) method rest ok)
            | inr bad_method ↦
                let stops : not (is_empty method)
                      && not (valid_method runes is_letter is_digit is_token_rune method)
                    ≡ true =
                  ground arith in
                rw (parse_pattern, two, stops) tt
          ]
  ]

-- ===== src/Transfer/Framing/Size.antt =====
-- The length that `fixLength` gives a message, by what the RFC says of it.
use mathlib.Core.Path.{subst}
use oohttp.Base.{
  ℕ, ◌/◌, ◌≡◌, ◌≢◌, refl, sym, ◌⊎◌, inl, inr, Bool, true, false, List, [], ◌∷◌, Option, some, Bytes,
  codes, arith, equal-cases, if◌then◌else◌, ◌&&◌, ◌||◌, ◌==◌,
}
use oohttp.Base.Text.{trim}
use oohttp.Base.Int.{ℤ, pos, negsuc}
use oohttp.Headers.{Header, or_nil, values_of}
use oohttp.Transfer.Framing.{BodilessStatus, Declares, Faulty, IsBodiless, IsUndeclared, lengths}
use oohttp.Transfer.Framing.Lengths.{
  Coding, Joined, Kept, absent, joined, no_value, one_value, LengthParsed, kept, lengths_left,
  malformed, nothing, number, one_length-Joined, parse_content_length-LengthParsed, unequal,
}
use oohttp.Transfer.Length.{
  content_length_key, declared_length, fix_length, length_by_message, no_response_body_expected,
  parse_content_length,
}
use oohttp.Transfer.Read.{TransferReader}
use oohttp.Transfer.Result.{Result, fail, ok}

pub head-cases :
    (m : Bytes)
    → ((no_response_body_expected m ≡ true) × (m ≡ codes "HEAD"))
      ⊎ ((no_response_body_expected m ≡ false) × (m ≢ codes "HEAD"))
unfolding no_response_body_expected
head-cases m = equal-cases m (codes "HEAD")

-- A request is read as a response of status 200 would be.
abbrev pub IsUnified : TransferReader → Type 0
IsUnified t = t.is_response ≡ false → t.status_code ≡ 200

-- The length of a body that there may be.
pub data Size (t : TransferReader) (c : Bool) : ℤ → Type 0 where
  by_chunks : c ≡ true → Size t c (negsuc 0)
  given : (n : ℕ) → c ≡ false → Declares t n → Size t c (pos n)
  not_sent : c ≡ false → t.is_response ≡ false → IsUndeclared t → Size t c (pos 0)
  not_known : c ≡ false → t.is_response ≡ true → IsUndeclared t → Size t c (negsuc 0)

-- What `fixLength` returns.
pub data Measured (t : TransferReader) (c : Bool) : Result (Header × ℤ) → Type 0 where
  zero_sent :
      (h : Header)
      → IsBodiless t
      → Kept t c (values_of h content_length_key)
      → Measured t c (ok (h, pos 0))
  some_sent : (h : Header) (n : ℤ) → (IsBodiless t → ⊥) → Size t c n → Measured t c (ok (h, n))
  wrong : (e : _) → Faulty t e → Measured t c (fail e)

sized_of_parsed :
    (t : TransferReader) (h : Header) (r : Result ℤ)
    → (IsBodiless t → ⊥)
    → (IsUndeclared t → ⊥)
    → LengthParsed t false r
    → Measured t false (elim r [ fail e ↦ fail e | ok n ↦ ok (h, n) ])
sized_of_parsed t h _ b q (number n c d) = some_sent h (pos n) b (given n refl d)
sized_of_parsed t h _ b q (nothing (inl c)) = ground arith
sized_of_parsed t h _ b q (nothing (inr u)) = absurd (q u)
sized_of_parsed t h _ b q (malformed e f) = wrong e f

declared :
    (t : TransferReader) {v : Bytes} {vs : List Bytes}
    → lengths t ≡ some (v ∷ vs)
    → IsUndeclared t
    → ⊥
declared t e (inl q) = cc
declared t e (inr q) = ground arith

undeclared-Measured :
    (t : TransferReader) (h : Header) (is_response : Bool)
    → t.is_response ≡ is_response
    → (IsBodiless t → ⊥)
    → IsUndeclared t
    → Measured t false (declared_length false is_response h [])
unfolding declared_length
undeclared-Measured t h true q b u = some_sent _ (negsuc 0) b (not_known refl q u)
undeclared-Measured t h false q b u = some_sent _ (pos 0) b (not_sent refl q u)

declared_length-Measured :
    (t : TransferReader) (h : Header) (o : Option (List Bytes))
    → (IsBodiless t → ⊥)
    → Coding t false
    → Kept t false o
    → Measured t false (declared_length false t.is_response h (or_nil o))
unfolding declared_length
declared_length-Measured t h _ b u (absent e) = undeclared-Measured t h t.is_response refl b (inl e)
declared_length-Measured t h _ b u (no_value e) =
    undeclared-Measured t h t.is_response refl b (inr e)
declared_length-Measured t h _ b u (one_value v e) =
    sized_of_parsed t h (parse_content_length false (v ∷ [])) b (declared t e)
      (parse_content_length-LengthParsed t false (some (v ∷ [])) u (one_value v e))
declared_length-Measured t h _ b u (joined v vs e a) =
    sized_of_parsed t h (parse_content_length false (trim v ∷ [])) b (declared t e)
      (parse_content_length-LengthParsed t false (some (trim v ∷ [])) u (joined v vs e a))

-- Without a response that has no body, `fixLength` goes by the coding and the lengths.
length_by_rest :
    (t : TransferReader) (c : Bool) (h : Header)
    → (IsBodiless t → ⊥)
    → Coding t c
    → Kept t c (values_of h content_length_key)
    → Measured t c (
        if c
        then ok (h, negsuc 0)
        else declared_length false t.is_response h (or_nil (values_of h content_length_key)))
length_by_rest t true h b u k = some_sent h (negsuc 0) b (by_chunks refl)
length_by_rest t false h b u k = declared_length-Measured t h (values_of h content_length_key) b u k

-- The tests of `fixLength` on a message that may have no body.
abbrev pub status_test : TransferReader → Bool
status_test t = t.status_code / 100 == 1 || (t.status_code == 204 || t.status_code == 304)

status_test-cases :
    (t : TransferReader)
    → ((status_test t ≡ true) × BodilessStatus t.status_code)
      ⊎ ((status_test t ≡ false) × (BodilessStatus t.status_code → ⊥))
status_test-cases t = ground arith

pub body_rule-cases :
    (t : TransferReader)
    → IsUnified t
    → (((t.is_response && no_response_body_expected t.request_method) || status_test t ≡ true)
        × IsBodiless t)
      ⊎ (((t.is_response && no_response_body_expected t.request_method) || status_test t ≡ false)
          × (IsBodiless t → ⊥))
body_rule-cases t u = ground (arith, head-cases t.request_method, status_test-cases t)

one_test :
    {A : Type 0} (a b c : Bool) (x y : A)
    → (if a then x else if b then x else if c then x else y) ≡ (if a || (b || c) then x else y)
one_test true b c x y = refl
one_test false true c x y = refl
one_test false false true x y = refl
one_test false false false x y = refl

length_by_message-Measured :
    (t : TransferReader) (c : Bool) (h : Header)
    → IsUnified t
    → Coding t c
    → Kept t c (values_of h content_length_key)
    → Measured t c (length_by_message false t.is_response t.status_code t.request_method h c)
length_by_message-Measured t c h v u k =
    subst (Measured t c)
      (sym (
        one_test (t.is_response && no_response_body_expected t.request_method)
          (t.status_code / 100 == 1) (t.status_code == 204 || t.status_code == 304) (ok (h, pos 0))
          (if c
            then ok (h, negsuc 0)
            else declared_length false t.is_response h (or_nil (values_of h content_length_key)))))
      (elim (body_rule-cases t v) [
        | inl (q, b) ↦ rw q (zero_sent h b k)
        | inr (q, b) ↦ rw q (length_by_rest t c h b u k)
      ])

pub fix_length-Measured :
    (t : TransferReader) (c : Bool) (h : Header)
    → IsUnified t
    → Coding t c
    → values_of h content_length_key ≡ lengths_left c (lengths t)
    → Measured t c (fix_length false t.is_response t.status_code t.request_method h c)
unfolding fix_length
fix_length-Measured t c h v u e = after (one_length-Joined t c h u e)
  where
    after :
        {r : Result Header}
        → Joined t c r
        → Measured t c (elim r [
          | fail e ↦ fail e
          | ok h2 ↦ length_by_message false t.is_response t.status_code t.request_method h2 c
        ])
    after (kept h2 k) = length_by_message-Measured t c h2 v u k
    after (unequal e f) = wrong e f

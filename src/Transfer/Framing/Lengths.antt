-- ===== src/Transfer/Framing/Lengths.antt =====
-- The lengths that `fixLength` leaves in a header, and what `parseContentLength` makes of them.
use oohttp.Base.{
  ℕ, ◌≡◌, refl, sym, ◌⊎◌, inl, inr, Bool, true, false, List, [], ◌∷◌, Option, none, some, Bytes,
  All, codes, arith, equal, equal-cases, Bool-cases, Option-cases, ltb,
}
use oohttp.Base.Int.{ℤ, pos, negsuc}
use oohttp.Base.Text.{decimal, equal_fold, trim}
use oohttp.Base.Text.Trim.{trim_twice}
use oohttp.Headers.{Header, add, del, or_nil, values_of}
use oohttp.Headers.Lookup.{values_of-add-del, values_of-del, values_of-del_other}
use oohttp.Transfer.Framing.{
  Declares, Faulty, HasEncodings, IsChunked, IsUncoded, IsUndeclared, different_lengths, encodings,
  lengths, no_length, no_number, not_chunked, not_one_encoding,
}
use oohttp.Transfer.Length.{
  content_length_key, encoding_if_any, encoding_of, one_length, parse_content_length,
  length_or_error, parse_transfer_encoding, parse_trimmed, parse_uint, proto_at_least, same_lengths,
  transfer_encoding_key,
}
use oohttp.Transfer.Read.{TransferReader}
use oohttp.Transfer.Result.{Result, fail, ok}

abbrev pub Coding : TransferReader → Bool → Type 0
Coding t true = IsChunked t
Coding t false = IsUncoded t

-- What `Content-Length` holds after `parseTransferEncoding`.
abbrev pub lengths_left : Bool → Option (List Bytes) → Option (List Bytes)
lengths_left true o = none
lengths_left false o = o

pub data Decoded (t : TransferReader) : Result (Header × Bool) → Type 0 where
  decoded :
      (h : Header) (c : Bool)
      → Coding t c
      → values_of h content_length_key ≡ lengths_left c (lengths t)
      → Decoded t (ok (h, c))
  undecoded : (e : _) → Faulty t e → Decoded t (fail e)

has_encodings :
    (t : TransferReader) → proto_at_least t.proto_major t.proto_minor 1 1 ≡ true → HasEncodings t
has_encodings t h = ground arith

no_encodings :
    (t : TransferReader)
    → proto_at_least t.proto_major t.proto_minor 1 1 ≡ false
    → HasEncodings t
    → ⊥
no_encodings t h k = ground arith

keys_differ : equal transfer_encoding_key content_length_key ≡ false
unfolding equal
keys_differ = refl

encoding_of-Decoded :
    (t : TransferReader) (raw : List Bytes)
    → HasEncodings t
    → encodings t ≡ some raw
    → Decoded t (encoding_of (del t.header transfer_encoding_key) raw)
encoding_of-Decoded t [] v e = undecoded _ (not_one_encoding [] v e (omega arith))
encoding_of-Decoded t (a ∷ b ∷ l) v e = undecoded _ (not_one_encoding (a ∷ b ∷ l) v e (omega arith))
encoding_of-Decoded t (a ∷ []) v e = elim (Bool-cases (equal_fold a (codes "chunked"))) [
  | inl q ↦ rw q (
      decoded _ true (v, (a, e, q))
        (values_of-del (del t.header transfer_encoding_key) content_length_key))
  | inr q ↦ rw q (undecoded _ (not_chunked a v e q))
]

-- What comes out of `parseTransferEncoding`.
encoding_if_any-Decoded :
    (t : TransferReader) (o : Option (List Bytes))
    → encodings t ≡ o
    → Decoded t (encoding_if_any t.proto_major t.proto_minor t.header o)
encoding_if_any-Decoded t none e = decoded t.header false (inl e) refl
encoding_if_any-Decoded t (some raw) e =
    elim (Bool-cases (proto_at_least t.proto_major t.proto_minor 1 1)) [
      | inl q ↦ rw q (encoding_of-Decoded t raw (has_encodings t q) e)
      | inr q ↦ rw q (
          decoded (del t.header transfer_encoding_key) false (inr (no_encodings t q))
            (values_of-del_other t.header transfer_encoding_key content_length_key keys_differ))
    ]

pub parse_transfer_encoding-Decoded :
    (t : TransferReader) → Decoded t (parse_transfer_encoding t.proto_major t.proto_minor t.header)
unfolding parse_transfer_encoding
parse_transfer_encoding-Decoded t = encoding_if_any-Decoded t (encodings t) refl

-- What `Content-Length` holds after `fixLength` has made its values one.
pub data Kept (t : TransferReader) : Bool → Option (List Bytes) → Type 0 where
  overridden : Kept t true none
  absent : lengths t ≡ none → Kept t false none
  no_value : lengths t ≡ some [] → Kept t false (some [])
  one_value : (v : Bytes) → lengths t ≡ some (v ∷ []) → Kept t false (some (v ∷ []))
  joined :
      (v : Bytes) (vs : List Bytes)
      → lengths t ≡ some (v ∷ vs)
      → All (λ w. trim w ≡ trim v) vs
      → Kept t false (some (trim v ∷ []))

same_lengths-All :
    (first : Bytes) (vs : List Bytes)
    → ((same_lengths first vs ≡ true) × All (λ w. trim w ≡ first) vs)
      ⊎ ((same_lengths first vs ≡ false) × (All (λ w. trim w ≡ first) vs → ⊥))
unfolding same_lengths
same_lengths-All first [] = inl (refl, tt)
same_lengths-All first (v ∷ vs) = elim (equal-cases first (trim v)) [
  | inr (q, n) ↦ inr (ground arith, λ p. n (sym p.0))
  | inl (q, e) ↦ elim (same_lengths-All first vs) [
    | inl (r, a) ↦ inl (ground arith, (sym e, a))
    | inr (r, n) ↦ inr (ground arith, λ p. n p.1)
  ]
]

pub data Joined (t : TransferReader) (c : Bool) : Result Header → Type 0 where
  kept : (h : Header) → Kept t c (values_of h content_length_key) → Joined t c (ok h)
  unequal : (e : _) → Faulty t e → Joined t c (fail e)

one_length-many :
    (t : TransferReader) (h : Header) (v w : Bytes) (vs : List Bytes)
    → IsUncoded t
    → lengths t ≡ some (v ∷ w ∷ vs)
    → Joined t false (one_length h (v ∷ w ∷ vs))
one_length-many t h v w vs u e = elim (same_lengths-All (trim v) (w ∷ vs)) [
  | inl (q, a) ↦ rw q (
      kept (add (del h content_length_key) content_length_key (trim v))
        (rw (values_of-add-del h content_length_key (trim v)) (joined v (w ∷ vs) e a)))
  | inr (q, n) ↦ rw q (unequal _ (different_lengths v (w ∷ vs) u e n))
]

one_length-uncoded :
    (t : TransferReader) (h : Header) (o : Option (List Bytes))
    → values_of h content_length_key ≡ o
    → lengths t ≡ o
    → IsUncoded t
    → Joined t false (one_length h (or_nil o))
one_length-uncoded t h none e l u = kept h (rw e (absent l))
one_length-uncoded t h (some []) e l u = kept h (rw e (no_value l))
one_length-uncoded t h (some (v ∷ [])) e l u = kept h (rw e (one_value v l))
one_length-uncoded t h (some (v ∷ w ∷ vs)) e l u = one_length-many t h v w vs u l

pub one_length-Joined :
    (t : TransferReader) (c : Bool) (h : Header)
    → Coding t c
    → values_of h content_length_key ≡ lengths_left c (lengths t)
    → Joined t c (one_length h (or_nil (values_of h content_length_key)))
one_length-Joined t true h u e = rw e (kept h (rw e overridden))
one_length-Joined t false h u e =
    one_length-uncoded t h (values_of h content_length_key) refl (sym e) u

-- What `parseContentLength` makes of a header so left.
pub data LengthParsed (t : TransferReader) (c : Bool) : Result ℤ → Type 0 where
  number : (n : ℕ) → c ≡ false → Declares t n → LengthParsed t c (ok (pos n))
  nothing : (c ≡ true) ⊎ IsUndeclared t → LengthParsed t c (ok (negsuc 0))
  malformed : (e : _) → Faulty t e → LengthParsed t c (fail e)

length_or_error-LengthParsed :
    (t : TransferReader) (v : Bytes) (vs : List Bytes)
    → IsUncoded t
    → lengths t ≡ some (v ∷ vs)
    → All (λ w. trim w ≡ trim v) vs
    → LengthParsed t false (length_or_error (trim v) (parse_uint (trim v)))
unfolding parse_uint
length_or_error-LengthParsed t v vs u e a = elim (Option-cases (decimal (trim v))) [
  | inl q ↦ rw q (malformed _ (no_number v vs u e (λ n p. ground arith)))
  | inr (n, q) ↦ elim (Bool-cases (ltb n 0x8000_0000_0000_0000)) [
    | inl r ↦ rw (q, r) (number n refl (v, vs, e, a, (q, ground arith)))
    | inr r ↦ rw (q, r) (malformed _ (no_number v vs u e (λ m p. ground arith)))
  ]
]

-- The value as it is parsed, for the first of equal ones.
parse_trimmed-LengthParsed :
    (t : TransferReader) (v : Bytes) (vs : List Bytes)
    → IsUncoded t
    → lengths t ≡ some (v ∷ vs)
    → All (λ w. trim w ≡ trim v) vs
    → (s : Bytes) → trim v ≡ s
    → LengthParsed t false (parse_trimmed false s)
parse_trimmed-LengthParsed t v vs u e a [] q = malformed _ (no_length v vs u e q)
parse_trimmed-LengthParsed t v vs u e a (c ∷ s) q =
    rw (sym q) (length_or_error-LengthParsed t v vs u e a)

pub parse_content_length-LengthParsed :
    (t : TransferReader) (c : Bool) (o : Option (List Bytes))
    → Coding t c
    → Kept t c o
    → LengthParsed t c (parse_content_length false (or_nil o))
unfolding parse_content_length
parse_content_length-LengthParsed t _ _ u overridden = nothing (inl refl)
parse_content_length-LengthParsed t _ _ u (absent e) = nothing (inr (inl e))
parse_content_length-LengthParsed t _ _ u (no_value e) = nothing (inr (inr e))
parse_content_length-LengthParsed t _ _ u (one_value v e) =
    parse_trimmed-LengthParsed t v [] u e tt (trim v) refl
parse_content_length-LengthParsed t _ _ u (joined v vs e a) =
    rw (trim_twice v) (parse_trimmed-LengthParsed t v vs u e a (trim v) refl)

-- ===== src/Transfer/Framing.antt =====
-- How a message is framed, without the order in which transfer.go looks: rules 1 and 3 to 7 of RFC
-- 7230, section 3.3.3. A `Transfer-Encoding` before HTTP/1.1 does not count, and rule 2, by which a
-- successful response to CONNECT has no body, is left out, as the code has no case for it.
pub mod Lengths
pub mod Size
pub mod Rfc
pub mod Trailer
use oohttp.Base.{
  ℕ, suc, ◌≤◌, ◌<◌, ◌≡◌, ◌≢◌, ◌⊎◌, Bool, true, false, List, [], ◌∷◌, Option, none, some, Bytes, All,
  codes, is_empty, length,
}
use oohttp.Base.Text.{decimal, equal_fold, trim}
use oohttp.Headers.{values_of}
use oohttp.Transfer.Length.{content_length_key, transfer_encoding_key}
use oohttp.Transfer.Read.{
  Body, TransferReader, Transferred, chunks, is_framing_key, limited, no_body, to_eof,
}
use oohttp.Transfer.Result.{
  Result, TransferError, bad_length, bad_trailer_key, empty_length, fail, multiple_lengths, ok,
  too_many_encodings, unsupported_encoding,
}

-- A status whose responses have no body.
abbrev pub BodilessStatus : ℕ → Type 0
BodilessStatus status = ((100 ≤ status) × (status < 200)) ⊎ ((status ≡ 204) ⊎ (status ≡ 304))

abbrev pub IsBodiless : TransferReader → Type 0
IsBodiless t =
    (t.is_response ≡ true) × ((t.request_method ≡ codes "HEAD") ⊎ BodilessStatus t.status_code)

abbrev pub encodings : TransferReader → Option (List Bytes)
encodings t = values_of t.header transfer_encoding_key

abbrev pub lengths : TransferReader → Option (List Bytes)
lengths t = values_of t.header content_length_key

-- HTTP/1.1 or later.
abbrev pub HasEncodings : TransferReader → Type 0
HasEncodings t = (1 < t.proto_major) ⊎ ((t.proto_major ≡ 1) × (1 ≤ t.proto_minor))

abbrev pub IsChunked : TransferReader → Type 0
IsChunked t =
    HasEncodings t
    × ((v : Bytes) × (encodings t ≡ some (v ∷ [])) × (equal_fold v (codes "chunked") ≡ true))

abbrev pub IsUncoded : TransferReader → Type 0
IsUncoded t = (encodings t ≡ none) ⊎ (HasEncodings t → ⊥)

-- The text is a number below 2^63.
abbrev pub IsLength : Bytes → ℕ → Type 0
IsLength s n = (decimal s ≡ some n) × (n < 0x8000_0000_0000_0000)

-- All the lengths that the header gives are one text, the number `n`.
abbrev pub Declares : TransferReader → ℕ → Type 0
Declares t n =
    (v : Bytes) × (vs : List Bytes) × (lengths t ≡ some (v ∷ vs))
    × All (λ w. trim w ≡ trim v) vs
    × IsLength (trim v) n

abbrev pub IsUndeclared : TransferReader → Type 0
IsUndeclared t = (lengths t ≡ none) ⊎ (lengths t ≡ some [])

-- The body of a message, whose connection is closed after it or not.
pub data FramedBody (t : TransferReader) (close : Bool) : Body → Type 0 where
  bodiless : IsBodiless t → FramedBody t close no_body
  in_chunks : (IsBodiless t → ⊥) → IsChunked t → FramedBody t close (chunks close)
  empty : IsUncoded t → Declares t 0 → FramedBody t close no_body
  counted :
      (n : ℕ)
      → (IsBodiless t → ⊥)
      → IsUncoded t
      → Declares t (suc n)
      → FramedBody t close (limited (suc n) close)
  none_sent : t.is_response ≡ false → IsUncoded t → IsUndeclared t → FramedBody t close no_body
  until_close :
      t.is_response ≡ true
      → (IsBodiless t → ⊥)
      → IsUncoded t
      → IsUndeclared t
      → close ≡ true
      → FramedBody t close (to_eof true)

-- What is wrong with a message that is refused.
pub data Faulty (t : TransferReader) : TransferError → Type 0 where
  not_one_encoding :
      (raw : List Bytes)
      → HasEncodings t
      → encodings t ≡ some raw
      → length raw ≢ 1
      → Faulty t (too_many_encodings raw)
  not_chunked :
      (v : Bytes)
      → HasEncodings t
      → encodings t ≡ some (v ∷ [])
      → equal_fold v (codes "chunked") ≡ false
      → Faulty t (unsupported_encoding v)
  different_lengths :
      (v : Bytes) (vs : List Bytes)
      → IsUncoded t
      → lengths t ≡ some (v ∷ vs)
      → (All (λ w. trim w ≡ trim v) vs → ⊥)
      → Faulty t (multiple_lengths (v ∷ vs))
  no_length :
      (v : Bytes) (vs : List Bytes)
      → IsUncoded t
      → lengths t ≡ some (v ∷ vs)
      → trim v ≡ []
      → Faulty t empty_length
  no_number :
      (v : Bytes) (vs : List Bytes)
      → IsUncoded t
      → lengths t ≡ some (v ∷ vs)
      → ((n : ℕ) → IsLength (trim v) n → ⊥)
      → Faulty t (bad_length (trim v))
  framing_in_trailer :
      (k : Bytes) → IsChunked t → is_framing_key k ≡ true → Faulty t (bad_trailer_key k)

-- A message gets the body that these rules give it, or the error that says what is wrong with it.
pub data Framed (t : TransferReader) : Result Transferred → Type 0 where
  framed : (r : Transferred) → FramedBody t r.close r.body → Framed t (ok r)
  refused : (e : TransferError) → Faulty t e → Framed t (fail e)

-- ===== src/Transfer/Write/Agree.antt =====
-- What `transferWriter` says of a body, `readTransfer` reads.
use oohttp.Base.{
  ℕ, ◌<◌, ◌≡◌, refl, sym, ap, ◌∙◌, ◌⊎◌, inl, inr, Bool, true, false, List, [], ◌∷◌, Option, none,
  some, ltb, if◌then◌else◌, Bytes, codes, map, arith, Bool-cases,
}
use oohttp.Base.Int.{ℤ, pos}
use oohttp.Headers.{Header}
use oohttp.Transfer.Length.{
  content_length_key, parse_content_length, parse_uint, transfer_encoding_key,
}
use oohttp.Transfer.Read.{
  Body, Transferred, after_length, body_of_length, unify, chunks, no_body, read_transfer, request,
}
use oohttp.Transfer.Result.{Result, and_then, fail, ok}
use oohttp.Transfer.Write.{TransferWriter, chunked, is_positive}
use oohttp.Transfer.Write.Fields.{format_int, framing_fields, should_send_content_length}
use oohttp.Transfer.Write.Numeral.{decimal-format_int, format_int-nonempty, trim-format_int}

-- The header of these fields.
abbrev pub header_of : List (Bytes × Bytes) → Header
header_of fs = map (λ f. (f.0, f.1 ∷ [])) fs

abbrev pub body_read : Result Transferred → Option Body
body_read (fail e) = none
body_read (ok r) = some r.body

-- The body that a writer announces.
abbrev pub announced : TransferWriter → Body
announced t =
    if chunked t.transfer_encoding then chunks false else body_of_length t.content_length false

parse_content_length-format_int :
    (n : ℕ)
    → n < 0x8000_0000_0000_0000
    → parse_content_length false (format_int (pos n) ∷ []) ≡ ok (pos n)
unfolding parse_content_length parse_uint
parse_content_length-format_int n l =
    let e : ltb n 0x8000_0000_0000_0000 ≡ true = ground arith in
    rw (trim-format_int n, format_int-nonempty n, decimal-format_int n, e) refl

abbrev with_header : Header → Result ℤ → Result (Header × ℤ)
with_header h r = elim r [ fail e ↦ fail e | ok n ↦ ok (h, n) ]

-- Without chunks, no length is left out but 0.
unsent_length :
    (t : TransferWriter) (n : ℕ)
    → chunked t.transfer_encoding ≡ false
    → t.content_length ≡ pos n
    → should_send_content_length t ≡ false
    → n ≡ 0
unfolding should_send_content_length
unsent_length t n c e s = let p = ap is_positive e in ground arith

unsent_chunked :
    (t : TransferWriter) → chunked t.transfer_encoding ≡ true → should_send_content_length t ≡ false
unfolding should_send_content_length
unsent_chunked t c = rw c refl

chunked_fields :
    (t : TransferWriter)
    → chunked t.transfer_encoding ≡ true
    → framing_fields t ≡ (transfer_encoding_key, codes "chunked") ∷ []
unfolding framing_fields
chunked_fields t c = rw (unsent_chunked t c, c) refl

sent_fields :
    (t : TransferWriter) (n : ℕ)
    → should_send_content_length t ≡ true
    → t.content_length ≡ pos n
    → framing_fields t ≡ (content_length_key, format_int (pos n)) ∷ []
unfolding framing_fields
sent_fields t n s e = rw s (ap (λ k. (content_length_key, format_int k) ∷ []) e)

no_fields :
    (t : TransferWriter)
    → should_send_content_length t ≡ false
    → chunked t.transfer_encoding ≡ false
    → framing_fields t ≡ []
unfolding framing_fields
no_fields t s c = rw (s, c) refl

announced-chunked :
    (t : TransferWriter) → chunked t.transfer_encoding ≡ true → announced t ≡ chunks false
announced-chunked t c = rw (announced, c) refl

announced-length :
    (t : TransferWriter) (n : ℕ)
    → chunked t.transfer_encoding ≡ false
    → t.content_length ≡ pos n
    → announced t ≡ body_of_length (pos n) false
announced-length t n c e = rw (announced, c) (ap (λ k. body_of_length k false) e)

-- A body in chunks, or with a length that an `int64` holds.
abbrev pub IsSendable : TransferWriter → Type 0
IsSendable t =
    (chunked t.transfer_encoding ≡ true)
    ⊎ ((n : ℕ) × (t.content_length ≡ pos n) × (n < 0x8000_0000_0000_0000))

has_length :
    (t : TransferWriter)
    → IsSendable t
    → chunked t.transfer_encoding ≡ false
    → (n : ℕ) × (t.content_length ≡ pos n) × (n < 0x8000_0000_0000_0000)
has_length t (inl h) c = ground arith
has_length t (inr h) c = h

module _ (canonical : Bytes → Bytes) (contains_token : List Bytes → Bytes → Bool) (m : Bytes) where
  -- The request as it is read.
  abbrev pub reads : Header → Option Body
  reads h = body_read (read_transfer canonical false contains_token (request m h 1 1 false))

  reads-chunked :
      reads (header_of ((transfer_encoding_key, codes "chunked") ∷ [])) ≡ some (chunks false)
  unfolding read_transfer
  reads-chunked = refl

  reads-nothing : reads [] ≡ some no_body
  unfolding read_transfer
  reads-nothing = refl

  -- The request by what its length is parsed to.
  abbrev by_length : Bytes → Result ℤ → Option Body
  by_length s r =
      let h = header_of ((content_length_key, s) ∷ []) in
      body_read (
        and_then (with_header h r)
          (after_length canonical false (unify contains_token (request m h 1 1 false)) false))

  reads-by_length :
      (s : Bytes)
      → reads (header_of ((content_length_key, s) ∷ []))
        ≡ by_length s (parse_content_length false (s ∷ []))
  unfolding read_transfer unify parse_content_length
  reads-by_length s = refl

  by_length-pos :
      (s : Bytes) (n : ℕ) → by_length s (ok (pos n)) ≡ some (body_of_length (pos n) false)
  unfolding read_transfer unify
  by_length-pos s n = refl

  reads-length :
      (n : ℕ)
      → n < 0x8000_0000_0000_0000
      → reads (header_of ((content_length_key, format_int (pos n)) ∷ []))
        ≡ some (body_of_length (pos n) false)
  reads-length n l =
      reads-by_length (format_int (pos n))
      ∙ ap (by_length (format_int (pos n))) (parse_content_length-format_int n l)
      ∙ by_length-pos (format_int (pos n)) n

  reads-unchunked :
      (t : TransferWriter) (n : ℕ)
      → chunked t.transfer_encoding ≡ false
      → t.content_length ≡ pos n
      → n < 0x8000_0000_0000_0000
      → reads (header_of (framing_fields t)) ≡ some (body_of_length (pos n) false)
  reads-unchunked t n c e l = elim (Bool-cases (should_send_content_length t)) [
    | inl s ↦ ap (λ fs. reads (header_of fs)) (sent_fields t n s e) ∙ reads-length n l
    | inr s ↦
        ap (λ fs. reads (header_of fs)) (no_fields t s c)
        ∙ reads-nothing
        ∙ ap (λ k. some (body_of_length (pos k) false)) (sym (unsent_length t n c e s))
  ]

  -- A request whose body is in chunks, or has a length below 2^63, is read with the body that the
  -- fields of its writer announce: the chunks, as many bytes, or none where the length is 0.
  pub reads-framing_fields :
      (t : TransferWriter)
      → IsSendable t
      → reads (header_of (framing_fields t)) ≡ some (announced t)
  reads-framing_fields t h = elim (Bool-cases (chunked t.transfer_encoding)) [
    | inl c ↦
        ap (λ fs. reads (header_of fs)) (chunked_fields t c)
        ∙ reads-chunked
        ∙ ap some (sym (announced-chunked t c))
    | inr c ↦
        let p = has_length t h c in
        reads-unchunked t p.0 c p.1 p.2 ∙ ap some (sym (announced-length t p.0 c p.1))
  ]

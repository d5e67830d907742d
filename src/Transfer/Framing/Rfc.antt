-- ===== src/Transfer/Framing/Rfc.antt =====
-- `readTransfer` gives every message the body that Transfer/Framing gives it, or refuses it for a
-- fault it has.
use oohttp.Base.{
  ℕ, suc, zero, ◌≡◌, refl, ◌⊎◌, inl, inr, Bool, true, false, not, List, Option, Bytes, arith,
  Bool-cases, ◌&&◌, ◌||◌, ◌==◌,
}
use oohttp.Base.Int.{ℤ, pos, negsuc}
use oohttp.Headers.{Header, values_of}
use oohttp.Transfer.Framing.{
  BodilessStatus, Framed, IsBodiless, IsUncoded, IsUndeclared, FramedBody, bodiless, counted, empty,
  framed, framing_in_trailer, in_chunks, none_sent, refused, until_close,
}
use oohttp.Transfer.Framing.Lengths.{
  Coding, Decoded, Kept, LengthParsed, decoded, malformed, nothing, number,
  parse_content_length-LengthParsed, parse_transfer_encoding-Decoded, undecoded,
}
use oohttp.Transfer.Framing.Size.{
  IsUnified, Measured, Size, by_chunks, fix_length-Measured, given, head-cases, not_known, not_sent,
  some_sent, wrong, zero_sent,
}
use oohttp.Transfer.Framing.Trailer.{Trailed, fix_trailer-Trailed, key_error, trailed, untrailed}
use oohttp.Transfer.Length.{body_allowed_for_status, content_length_key, no_response_body_expected}
use oohttp.Transfer.Read.{
  Message, TransferReader, after_encoding, after_length, body_of, body_of_length, default_version,
  final_close, fix_trailer, read_transfer, read_unified, request, response, unify, with_trailer,
}
use oohttp.Transfer.Result.{Result, and_then, ok}

allowed-cases :
    (s : ℕ)
    → ((body_allowed_for_status s ≡ false) × BodilessStatus s)
      ⊎ ((body_allowed_for_status s ≡ true) × (BodilessStatus s → ⊥))
allowed-cases s = ground arith

-- The test of the switch for a body in chunks.
chunks_test-cases :
    (t : TransferReader)
    → (((t.is_response
            && (no_response_body_expected t.request_method
                || not (body_allowed_for_status t.status_code)))
          ≡ true)
        × IsBodiless t)
      ⊎ (((t.is_response
              && (no_response_body_expected t.request_method
                  || not (body_allowed_for_status t.status_code)))
            ≡ false)
          × (IsBodiless t → ⊥))
chunks_test-cases t = ground (arith, head-cases t.request_method, allowed-cases t.status_code)

bodiless-body :
    (t : TransferReader) (c close : Bool)
    → IsBodiless t
    → FramedBody t close (body_of t c (pos 0) close)
bodiless-body t false close b = bodiless b
bodiless-body t true close b = elim (chunks_test-cases t) [
  | inl (q, _) ↦ rw q (bodiless b)
  | inr (_, n) ↦ absurd (n b)
]

positive : (n : ℕ) → (suc n == 0) ≡ false
positive n = ground arith

closes :
    (t : TransferReader)
    → t.is_response ≡ true
    → (IsBodiless t → ⊥)
    → final_close t false (negsuc 0) ≡ true
closes t r b = ground (arith, allowed-cases t.status_code)

until_close-body :
    (t : TransferReader) (close : Bool)
    → close ≡ true
    → t.is_response ≡ true
    → (IsBodiless t → ⊥)
    → IsUncoded t
    → IsUndeclared t
    → FramedBody t close (body_of_length (negsuc 0) close)
until_close-body t true e r b u d = until_close r b u d refl
until_close-body t false e r b u d = cc

sized-body :
    (t : TransferReader) (c : Bool) (n : ℤ)
    → (IsBodiless t → ⊥)
    → Coding t c
    → Size t c n
    → FramedBody t (final_close t c n) (body_of t c n (final_close t c n))
sized-body t true n b u s = elim (chunks_test-cases t) [
  | inl (_, y) ↦ absurd (b y)
  | inr (q, _) ↦ rw q (in_chunks b u)
]
sized-body t false _ b u (by_chunks e) = ground arith
sized-body t false _ b u (given zero e d) = empty u d
sized-body t false _ b u (given (suc n) e d) = rw (positive n) (counted n b u d)
sized-body t false _ b u (not_sent e r d) = none_sent r u d
sized-body t false _ b u (not_known e r d) =
    until_close-body t (final_close t false (negsuc 0)) (closes t r b) r b u d

module _ (canonical : Bytes → Bytes) where
  with_trailer-Framed :
      (t : TransferReader) (c : Bool) (n m : ℤ)
      → Coding t c
      → FramedBody t (final_close t c n) (body_of t c n (final_close t c n))
      → {r : Result (Header × Option Header)} → Trailed c r
      → Framed t (and_then r λ q. ok (with_trailer canonical false t c n m q))
  with_trailer-Framed t c n m u b (trailed p) = framed _ b
  with_trailer-Framed t true n m u b (untrailed _ e (key_error k f)) =
      refused _ (framing_in_trailer k u f)
  with_trailer-Framed t false n m u b (untrailed _ e _) = ground arith

  -- What follows `fixLength`.
  parsed-Framed :
      (t : TransferReader) (c : Bool) (h : Header) (n : ℤ)
      → Coding t c
      → FramedBody t (final_close t c n) (body_of t c n (final_close t c n))
      → {r : Result ℤ} → LengthParsed t c r
      → Framed t (
          and_then r λ m.
            and_then (fix_trailer canonical h c) λ q. ok (with_trailer canonical false t c n m q))
  parsed-Framed t c h n u b (number m _ _) =
      with_trailer-Framed t c n _ u b (fix_trailer-Trailed canonical h c)
  parsed-Framed t c h n u b (nothing _) =
      with_trailer-Framed t c n _ u b (fix_trailer-Trailed canonical h c)
  parsed-Framed t c h n u b (malformed e f) = refused e f

  after_length-Framed :
      (t : TransferReader) (c : Bool) (h : Header) (n : ℤ)
      → Coding t c
      → FramedBody t (final_close t c n) (body_of t c n (final_close t c n))
      → ((t.is_response && no_response_body_expected t.request_method ≡ true)
          → Kept t c (values_of h content_length_key))
      → Framed t (after_length canonical false t c (h, n))
  after_length-Framed t c h n u b k =
      elim (Bool-cases (t.is_response && no_response_body_expected t.request_method)) [
        | inr q ↦ rw q (with_trailer-Framed t c n n u b (fix_trailer-Trailed canonical h c))
        | inl q ↦ rw q (
            parsed-Framed t c h n u b
              (parse_content_length-LengthParsed t c (values_of h content_length_key) u (k q)))
      ]

  not_head :
      (t : TransferReader)
      → (IsBodiless t → ⊥)
      → (t.is_response && no_response_body_expected t.request_method ≡ true)
      → ⊥
  not_head t b q = ground (arith, head-cases t.request_method)

  after_fix_length-Framed :
      (t : TransferReader) (c : Bool) {r : Result (Header × ℤ)}
      → Coding t c
      → Measured t c r
      → Framed t (and_then r (after_length canonical false t c))
  after_fix_length-Framed t c u (zero_sent h b k) =
      after_length-Framed t c h (pos 0) u (bodiless-body t c (final_close t c (pos 0)) b) (λ q. k)
  after_fix_length-Framed t c u (some_sent h n b s) =
      after_length-Framed t c h n u (sized-body t c n b u s) (λ q. absurd (not_head t b q))
  after_fix_length-Framed t c u (wrong e f) = refused e f

  after_parse-Framed :
      (t : TransferReader) {r : Result (Header × Bool)}
      → IsUnified t
      → Decoded t r
      → Framed t (and_then r (after_encoding canonical false t))
  after_parse-Framed t v (decoded h c u e) =
      after_fix_length-Framed t c u (fix_length-Measured t c h v u e)
  after_parse-Framed t v (undecoded e f) = refused e f

  read_unified-Framed :
      (t : TransferReader) → IsUnified t → Framed t (read_unified canonical false t)
  read_unified-Framed t v = after_parse-Framed t v (parse_transfer_encoding-Decoded t)

  unify-IsUnified :
      (contains_token : List Bytes → Bytes → Bool) (m : Message)
      → IsUnified (unify contains_token m)
  unfolding unify
  unify-IsUnified contains_token (request method h major minor close) e = refl
  unify-IsUnified contains_token (response status h major minor method) e = ground arith

  default_version-IsUnified : (t : TransferReader) → IsUnified t → IsUnified (default_version t)
  default_version-IsUnified t h = ground arith

  -- `readTransfer`, with `httplaxcontentlength` not set, gives every request and every response the
  -- body of rules 1 and 3 to 7 of RFC 7230, section 3.3.3 (none, chunks, the number of bytes that the
  -- equal lengths declare, or what comes until the connection closes), where a `Transfer-Encoding`
  -- before HTTP/1.1 does not count and a response to CONNECT is like any other, or it returns an error that names
  -- a fault of the message: encodings but one, an encoding but `chunked`, lengths that differ, a
  -- length that is empty or not below 2^63, or a trailer key that frames messages.
  pub read_transfer-Framed :
      (contains_token : List Bytes → Bytes → Bool) (m : Message)
      → Framed
          (default_version (unify contains_token m))
          (read_transfer canonical false contains_token m)
  unfolding read_transfer
  read_transfer-Framed contains_token m =
      read_unified-Framed (default_version (unify contains_token m))
        (default_version-IsUnified (unify contains_token m) (unify-IsUnified contains_token m))

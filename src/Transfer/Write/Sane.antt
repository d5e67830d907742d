-- ===== src/Transfer/Write/Sane.antt =====
-- The fields of a writer agree after `newTransferWriter`.
use oohttp.Base.{
  if_either, ◌≡◌, refl, Bool, true, false, not, ◌&&◌, Option, none, some, arith, if◌then◌else◌,
  Bool-cases, inl, inr,
}
use oohttp.Base.Int.{pos, negsuc}
use oohttp.Transfer.Write.{
  TransferWriter, Outgoing, chunked, head_length, is_zero_length, extract_request,
  new_request_writer, new_response_writer, extract_response, sanitize, with_length, with_trailers,
  without_encoding,
}

-- A body in chunks has no length, one that is not there has the length 0 except in the answer to
-- HEAD, and there is a trailer only after chunks.
abbrev pub IsSane : TransferWriter → Type 0
IsSane t =
    (chunked t.transfer_encoding ≡ true → t.content_length ≡ negsuc 0)
    × (chunked t.transfer_encoding ≡ false → t.trailer ≡ none)
    × (chunked t.transfer_encoding ≡ false
        → t.response_to_head ≡ false
        → t.has_body ≡ false
        → t.content_length ≡ pos 0)

-- The same without the trailer.
abbrev HasLength : TransferWriter → Type 0
HasLength t =
    (chunked t.transfer_encoding ≡ true → t.content_length ≡ negsuc 0)
    × (chunked t.transfer_encoding ≡ false
        → t.response_to_head ≡ false
        → t.has_body ≡ false
        → t.content_length ≡ pos 0)

with_trailers-IsSane : (t : TransferWriter) → HasLength t → IsSane (with_trailers t)
with_trailers-IsSane t h =
    if_either IsSane (not (chunked t.transfer_encoding)) _ _ (λ e. (h.0, (λ c. refl), h.1))
      (λ e. (h.0, (λ c. ground arith), h.1))

with_length-HasLength : (t : TransferWriter) → HasLength (with_length t)
with_length-HasLength t =
    if_either HasLength (chunked t.transfer_encoding) _ _ (λ e. ((λ c. refl), λ c. ground arith))
      (λ e.
        if_either HasLength (not t.has_body) _ _ (λ z. ((λ c. ground arith), λ c r b. refl))
          (λ z. ((λ c. ground arith), λ c r b. ground arith)))

head_length-HasLength : (t : TransferWriter) → t.response_to_head ≡ true → HasLength (head_length t)
head_length-HasLength t r =
    if_either HasLength (chunked t.transfer_encoding) _ _ (λ e. ((λ c. refl), λ c. ground arith))
      (λ e. ((λ c. ground arith), λ c q b. ground arith))

sanitize-IsSane : (b : Bool) (t : TransferWriter) → IsSane (sanitize b t)
unfolding sanitize
sanitize-IsSane b t =
    let x = head_length (record t { has_body = false }) in
    let y = with_length (without_encoding b t) in
    with_trailers-IsSane (if t.response_to_head then x else y) (
      if_either HasLength t.response_to_head x y
        (λ e. head_length-HasLength (record t { has_body = false }) e)
        (λ e. with_length-HasLength (without_encoding b t)))

-- A writer of a request, where it is made.
abbrev pub IsSaneIfAny : Option TransferWriter → Type 0
IsSaneIfAny none = Unit
IsSaneIfAny (some t) = IsSane t

new_request_writer-IsSane : (b : Bool) (r : Outgoing) → IsSaneIfAny (new_request_writer b r)
unfolding new_request_writer
new_request_writer-IsSane b r =
    elim (Bool-cases (not (is_zero_length r.content_length) && not r.has_body)) [
      | inl e ↦ rw (new_request_writer, e) tt
      | inr e ↦ rw (new_request_writer, e) (sanitize-IsSane true (extract_request b r))
    ]

-- The writers that `newTransferWriter` makes of requests and of responses agree with themselves:
-- where the body goes in chunks the length is unknown, where it does not there is no trailer, and
-- where there is then no body either, the length is 0, the answers to HEAD apart.
pub new_transfer_writer-IsSane :
    (b : Bool) (r : Outgoing)
    → IsSaneIfAny (new_request_writer b r) × IsSane (new_response_writer b r)
unfolding new_response_writer
new_transfer_writer-IsSane b r =
    (new_request_writer-IsSane b r, sanitize-IsSane b (extract_response r))

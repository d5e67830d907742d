-- ===== src/Transfer/Write.antt =====
-- transfer.go: `newTransferWriter`. A body is there or not; what is written of it,
-- and whether headers are flushed, is not here.
pub mod Fields
pub mod Numeral
pub mod Agree
pub mod Sane
mod Tests
use oohttp.Base.{
  ℕ, zero, suc, ◌+◌, ◌/◌, ◌%◌, Bool, true, false, not, ◌&&◌, ◌||◌, List, [], ◌∷◌, ◌++◌, Option,
  none, some, leb, ltb, ◌==◌, if◌then◌else◌, Bytes, codes, equal, is_empty, map,
}
use oohttp.Base.Int.{ℤ, pos, negsuc}
use oohttp.Headers.{Header, get, has_token}
use oohttp.Transfer.Length.{content_length_key, no_response_body_expected, transfer_encoding_key}
use oohttp.Transfer.Read.{is_framing_key, trailer_key}
use oohttp.Transfer.Result.{Result, bad_trailer_key, fail, ok}

-- `chunked`
unfoldable pub chunked : List Bytes → Bool
unfolding equal
chunked [] = false
chunked (v ∷ _) = equal v (codes "chunked")

-- `isIdentity`
unfoldable pub is_identity : List Bytes → Bool
unfolding equal
is_identity (v ∷ []) = equal v (codes "identity")
is_identity _ = false

-- `transferWriter`
pub record TransferWriter : Type 0 where
  pub method : Bytes
  pub has_body : Bool
  pub response_to_head : Bool
  pub content_length : ℤ
  pub close : Bool
  pub transfer_encoding : List Bytes
  pub header : Header
  pub trailer : Option Header
  pub is_response : Bool

abbrev pub is_negative : ℤ → Bool
is_negative (pos n) = false
is_negative (negsuc n) = true

abbrev pub is_positive : ℤ → Bool
is_positive (pos n) = ltb 0 n
is_positive (negsuc n) = false

abbrev pub is_zero_length : ℤ → Bool
is_zero_length (pos n) = n == 0
is_zero_length (negsuc n) = false

-- What `newTransferWriter` reads of a request or a response; `no_body` says whether a body that is
-- there is `NoBody`.
pub record Outgoing : Type 0 where
  pub method : Bytes
  pub has_body : Bool
  pub no_body : Bool
  pub content_length : ℤ
  pub close : Bool
  pub transfer_encoding : List Bytes
  pub header : Header
  pub trailer : Option Header

-- `outgoingLength`
abbrev pub outgoing_length_of : Outgoing → ℤ
outgoing_length_of r =
    if not r.has_body || r.no_body
    then pos 0
    else if not (is_zero_length r.content_length)
    then r.content_length
    else negsuc 0

-- `requestMethodUsuallyLacksBody`
unfoldable pub request_method_usually_lacks_body : Bytes → Bool
unfolding equal
request_method_usually_lacks_body m =
    equal m (codes "GET")
    || equal m (codes "HEAD")
    || equal m (codes "DELETE")
    || equal m (codes "OPTIONS")
    || equal m (codes "PROPFIND")
    || equal m (codes "SEARCH")

-- What `probeRequestBody` comes to: `found_empty` says that the body ended at its first byte.
abbrev pub probed : Bool → TransferWriter → TransferWriter
probed found_empty t =
    if found_empty then record t { has_body = false; content_length = pos 0 } else t

-- `shouldSendChunkedRequestBody`, with the writer it leaves.
unfoldable pub should_send_chunked_request_body : Bool → TransferWriter → Bool × TransferWriter
unfolding equal request_method_usually_lacks_body
should_send_chunked_request_body found_empty t =
    if not (is_negative t.content_length) || not t.has_body
    then (false, t)
    else if equal t.method (codes "CONNECT")
    then (false, t)
    else if request_method_usually_lacks_body t.method
    then ((probed found_empty t).has_body, probed found_empty t)
    else (true, t)

abbrev pub send_chunked : Bool × TransferWriter → TransferWriter
send_chunked (b, t) = if b then record t { transfer_encoding = codes "chunked" ∷ [] } else t

-- The fields of a request.
unfoldable pub extract_request : Bool → Outgoing → TransferWriter
unfolding should_send_chunked_request_body
extract_request found_empty r =
    let t : TransferWriter = record {
      method = if is_empty r.method then codes "GET" else r.method;
      has_body = r.has_body;
      response_to_head = false;
      content_length = outgoing_length_of r;
      close = r.close;
      transfer_encoding = r.transfer_encoding;
      header = r.header;
      trailer = r.trailer;
      is_response = false;
    } in
    if is_negative t.content_length && is_empty t.transfer_encoding
    then send_chunked (should_send_chunked_request_body found_empty t)
    else t

-- The fields of a response; `method` is that of the request, if there is one.
unfoldable pub extract_response : Outgoing → TransferWriter
unfolding no_response_body_expected
extract_response r = record {
  method = r.method;
  has_body = r.has_body;
  response_to_head = no_response_body_expected r.method;
  content_length = r.content_length;
  close = r.close;
  transfer_encoding = r.transfer_encoding;
  header = r.header;
  trailer = r.trailer;
  is_response = true;
}

abbrev pub without_encoding : Bool → TransferWriter → TransferWriter
without_encoding at_least_http11 t =
    if not at_least_http11 || not t.has_body then record t { transfer_encoding = [] } else t

abbrev pub with_length : TransferWriter → TransferWriter
with_length t =
    if chunked t.transfer_encoding
    then record t { content_length = negsuc 0 }
    else if not t.has_body
    then record t { content_length = pos 0 }
    else t

abbrev pub head_length : TransferWriter → TransferWriter
head_length t = if chunked t.transfer_encoding then record t { content_length = negsuc 0 } else t

abbrev pub with_trailers : TransferWriter → TransferWriter
with_trailers t = if not (chunked t.transfer_encoding) then record t { trailer = none } else t

-- The fields made to agree.
unfoldable pub sanitize : Bool → TransferWriter → TransferWriter
unfolding chunked
sanitize at_least_http11 t = with_trailers (
    if t.response_to_head
    then head_length (record t { has_body = false })
    else with_length (without_encoding at_least_http11 t))

-- `newTransferWriter` of a request; `none` is an error.
unfoldable pub new_request_writer : Bool → Outgoing → Option TransferWriter
unfolding extract_request sanitize
new_request_writer found_empty r =
    if not (is_zero_length r.content_length) && not r.has_body
    then none
    else some (sanitize true (extract_request found_empty r))

-- `newTransferWriter` of a response.
unfoldable pub new_response_writer : Bool → Outgoing → TransferWriter
unfolding extract_response sanitize
new_response_writer at_least_http11 r = sanitize at_least_http11 (extract_response r)

-- ===== src/Transfer/Read.antt =====
-- transfer.go: `readTransfer`, with the trailer's keys and the end of the connection.
use oohttp.Base.{
  ℕ, Bool, true, false, not, ◌&&◌, ◌||◌, List, [], ◌∷◌, Option, none, some, ltb, ◌==◌,
  if◌then◌else◌, Bytes, codes, equal, is_empty, index_byte, map,
}
use oohttp.Base.Int.{ℤ, pos, negsuc}
use oohttp.Base.Text.{split_at, trim}
use oohttp.Headers.{Header, del, or_nil, put, values_of}
use oohttp.Transfer.Length.{
  body_allowed_for_status, content_length_key, fix_length, no_response_body_expected,
  parse_content_length, parse_transfer_encoding, transfer_encoding_key,
}
use oohttp.Transfer.Result.{Result, TransferError, and_then, bad_trailer_key, fail, ok}

abbrev pub trailer_key : Bytes
trailer_key = codes "Trailer"

unfoldable pub drop_empty : List Bytes → List Bytes
drop_empty [] = []
drop_empty (v ∷ vs) = if is_empty v then drop_empty vs else v ∷ drop_empty vs

abbrev pub elements_of_trimmed : Bytes → List Bytes
elements_of_trimmed v = if is_empty v then [] else elim (index_byte v b',') [
  | none ↦ v ∷ []
  | some _ ↦ drop_empty (map trim (split_at b',' v))
]

-- The elements that `foreachHeaderElement` calls its function with.
unfoldable pub header_elements : Bytes → List Bytes
unfolding trim split_at index_byte drop_empty
header_elements v = elements_of_trimmed (trim v)

unfoldable pub is_framing_key : Bytes → Bool
unfolding equal
is_framing_key key =
    equal key transfer_encoding_key || equal key trailer_key || equal key content_length_key

-- `err` and `trailer` of `fixTrailer`.
pub record TrailerState : Type 0 where
  pub err : Option TransferError
  pub trailer : Header

abbrev pub is_none : Option TransferError → Bool
is_none none = true
is_none (some _) = false

-- What `fixTrailer` does with a key in canonical form.
abbrev pub trailer_step : TrailerState → Bytes → TrailerState
trailer_step s key =
    if is_framing_key key && is_none s.err
    then record s { err = some (bad_trailer_key key) }
    else record s { trailer = put s.trailer key [] }

unfoldable pub trailer_steps : (Bytes → Bytes) → TrailerState → List Bytes → TrailerState
unfolding is_framing_key put
trailer_steps canonical s [] = s
trailer_steps canonical s (k ∷ ks) = trailer_steps canonical (trailer_step s (canonical k)) ks

unfoldable pub trailer_values : (Bytes → Bytes) → TrailerState → List Bytes → TrailerState
unfolding header_elements trailer_steps
trailer_values canonical s [] = s
trailer_values canonical s (v ∷ vs) =
    trailer_values canonical (trailer_steps canonical s (header_elements v)) vs

abbrev pub trailer_of_state : Header → TrailerState → Result (Header × Option Header)
trailer_of_state h s = elim s.err [
  | some e ↦ fail e
  | none ↦ ok (h, (if is_empty s.trailer then none else some s.trailer))
]

-- `fixTrailer`; `canonical` is `CanonicalHeaderKey`.
unfoldable pub fix_trailer : (Bytes → Bytes) → Header → Bool → Result (Header × Option Header)
unfolding values_of del trailer_values
fix_trailer canonical h chunked = elim (values_of h trailer_key) [
  | none ↦ ok (h, none)
  | some vv ↦
      if not chunked
      then ok (h, none)
      else trailer_of_state (del h trailer_key)
          (trailer_values canonical (record { err = none; trailer = [] }) vv)
]

-- `shouldClose`, with the header it leaves; `contains_token` is
-- `httpguts.HeaderValuesContainsToken`.
unfoldable pub should_close : (List Bytes → Bytes → Bool) → ℕ → ℕ → Header → Bool → Bool × Header
unfolding values_of del
should_close contains_token major minor h remove_close_header =
    let conv = or_nil (values_of h (codes "Connection")) in
    let has_close = contains_token conv (codes "close") in
    if ltb major 1
    then (true, h)
    else if major == 1 && minor == 0
    then (has_close || not (contains_token conv (codes "keep-alive")), h)
    else (has_close, (if has_close && remove_close_header then del h (codes "Connection") else h))

-- What `readTransfer` takes from a request, or from a response and the request it answers.
pub data Message : Type 0 where
  request : (method : Bytes) (header : Header) (major minor : ℕ) (close : Bool) → Message
  response :
      (status : ℕ) (header : Header) (major minor : ℕ) (request_method : Option Bytes) → Message

-- `transferReader`, its inputs
pub record TransferReader : Type 0 where
  pub header : Header
  pub status_code : ℕ
  pub request_method : Bytes
  pub proto_major : ℕ
  pub proto_minor : ℕ
  pub close : Bool
  pub is_response : Bool

-- The reader of the body: none, the chunks, so many bytes, or all that comes.
pub data Body : Type 0 where
  no_body : Body
  chunks : Bool → Body
  limited : ℕ → Bool → Body
  to_eof : Bool → Body

-- What `readTransfer` leaves in the message.
pub record Transferred : Type 0 where
  pub header : Header
  pub body : Body
  pub content_length : ℤ
  pub chunked : Bool
  pub close : Bool
  pub trailer : Option Header

abbrev pub method_or_get : Option Bytes → Bytes
method_or_get none = codes "GET"
method_or_get (some m) = m

abbrev pub default_version : TransferReader → TransferReader
default_version t =
    if t.proto_major == 0 && t.proto_minor == 0
    then record t { proto_major = 1; proto_minor = 1 }
    else t

-- The switch that unifies the input.
unfoldable pub unify : (List Bytes → Bytes → Bool) → Message → TransferReader
unfolding should_close
unify contains_token (request method h major minor close) = record {
  header = h;
  status_code = 200;
  request_method = method;
  proto_major = major;
  proto_minor = minor;
  close = close;
  is_response = false;
}
unify contains_token (response status h major minor method) =
    let closed = should_close contains_token major minor h true in
    record {
      header = closed.1;
      status_code = status;
      request_method = method_or_get method;
      proto_major = major;
      proto_minor = minor;
      close = closed.0;
      is_response = true;
    }

-- The body by its length, without chunks.
abbrev pub body_of_length : ℤ → Bool → Body
body_of_length (pos n) close = if n == 0 then no_body else limited n close
body_of_length (negsuc n) close = if close then to_eof close else no_body

abbrev pub body_of : TransferReader → Bool → ℤ → Bool → Body
body_of t chunked real_length close =
    if chunked
    then if t.is_response
        && (no_response_body_expected t.request_method
            || not (body_allowed_for_status t.status_code))
      then no_body
      else chunks close
    else body_of_length real_length close

abbrev pub is_unknown : ℤ → Bool
is_unknown (pos n) = false
is_unknown (negsuc n) = n == 0

-- `t.Close` at the end
abbrev pub final_close : TransferReader → Bool → ℤ → Bool
final_close t chunked real_length =
    t.close
    || (t.is_response
        && is_unknown real_length
        && not chunked
        && body_allowed_for_status t.status_code)

abbrev pub content_length_of : Bool → TransferReader → Header → ℤ → Result ℤ
content_length_of lax t h real_length =
    if t.is_response && no_response_body_expected t.request_method
    then parse_content_length lax (or_nil (values_of h content_length_key))
    else ok real_length

module _ (canonical : Bytes → Bytes) (lax : Bool) where
  abbrev pub with_trailer : TransferReader → Bool → ℤ → ℤ → Header × Option Header → Transferred
  with_trailer t chunked real_length content_length p = record {
    header = p.0;
    body = body_of t chunked real_length (final_close t chunked real_length);
    content_length = content_length;
    chunked = chunked;
    close = final_close t chunked real_length;
    trailer = p.1;
  }

  abbrev pub after_length : TransferReader → Bool → Header × ℤ → Result Transferred
  after_length t chunked p =
      and_then (content_length_of lax t p.0 p.1)
        λ n. and_then (fix_trailer canonical p.0 chunked) λ q. ok (with_trailer t chunked p.1 n q)

  abbrev pub after_encoding : TransferReader → Header × Bool → Result Transferred
  after_encoding t p =
      and_then (fix_length lax t.is_response t.status_code t.request_method p.0 p.1)
        λ q. after_length t p.1 q

  abbrev pub read_unified : TransferReader → Result Transferred
  read_unified t =
      and_then (parse_transfer_encoding t.proto_major t.proto_minor t.header)
        λ p. after_encoding t p

  -- `readTransfer`
  unfoldable pub read_transfer : (List Bytes → Bytes → Bool) → Message → Result Transferred
  unfolding unify parse_transfer_encoding fix_length fix_trailer values_of parse_content_length
      no_response_body_expected
  read_transfer contains_token m = read_unified (default_version (unify contains_token m))

-- ===== src/Transfer/Length.antt =====
-- transfer.go: the length of a body, by the status, the method and the headers.
use oohttp.Base.{
  ℕ, ◌/◌, Bool, true, false, not, ◌&&◌, ◌||◌, List, [], ◌∷◌, Option, none, some, leb, ltb, ◌==◌,
  if◌then◌else◌, Bytes, codes, equal, is_empty,
}
use oohttp.Base.Int.{ℤ, pos, negsuc}
use oohttp.Base.Text.{below_limit, decimal, equal_fold, trim}
use oohttp.Headers.{Header, add, del, or_nil, values_of}
use oohttp.Transfer.Result.{
  Result, fail, ok, too_many_encodings, unsupported_encoding, multiple_lengths, empty_length,
  bad_length,
}

abbrev pub content_length_key : Bytes
content_length_key = codes "Content-Length"

abbrev pub transfer_encoding_key : Bytes
transfer_encoding_key = codes "Transfer-Encoding"

-- `noResponseBodyExpected`
unfoldable pub no_response_body_expected : Bytes → Bool
unfolding equal
no_response_body_expected request_method = equal request_method (codes "HEAD")

-- `bodyAllowedForStatus`
abbrev pub body_allowed_for_status : ℕ → Bool
body_allowed_for_status status =
    if leb 100 status && leb status 199
    then false
    else if status == 204
    then false
    else if status == 304
    then false
    else true

-- `protoAtLeast`
abbrev pub proto_at_least : ℕ → ℕ → ℕ → ℕ → Bool
proto_at_least major minor m n = ltb m major || (major == m && leb n minor)

-- `strconv.ParseUint(s, 10, 63)`
unfoldable pub parse_uint : Bytes → Option ℕ
unfolding decimal
parse_uint s = below_limit 0x8000_0000_0000_0000 (decimal s)

abbrev pub length_or_error : Bytes → Option ℕ → Result ℤ
length_or_error s none = fail (bad_length s)
length_or_error s (some n) = ok (pos n)

abbrev pub parse_trimmed : Bool → Bytes → Result ℤ
parse_trimmed lax s =
    if is_empty s
    then if lax then ok (negsuc 0) else fail empty_length
    else length_or_error s (parse_uint s)

-- `parseContentLength`, where `lax` says that `httplaxcontentlength` is 1.
unfoldable pub parse_content_length : Bool → List Bytes → Result ℤ
unfolding trim parse_uint
parse_content_length lax [] = ok (negsuc 0)
parse_content_length lax (v ∷ _) = parse_trimmed lax (trim v)

-- The header without its encodings, and whether the body is in chunks.
abbrev pub encoding_of : Header → List Bytes → Result (Header × Bool)
encoding_of h [] = fail (too_many_encodings [])
encoding_of h (v ∷ w ∷ vs) = fail (too_many_encodings (v ∷ w ∷ vs))
encoding_of h (v ∷ []) =
    if not (equal_fold v (codes "chunked"))
    then fail (unsupported_encoding v)
    else ok (del h content_length_key, true)

abbrev pub encoding_if_any : ℕ → ℕ → Header → Option (List Bytes) → Result (Header × Bool)
encoding_if_any major minor h none = ok (h, false)
encoding_if_any major minor h (some raw) =
    if not (proto_at_least major minor 1 1)
    then ok (del h transfer_encoding_key, false)
    else encoding_of (del h transfer_encoding_key) raw

-- `parseTransferEncoding`
unfoldable pub parse_transfer_encoding : ℕ → ℕ → Header → Result (Header × Bool)
unfolding values_of equal_fold del
parse_transfer_encoding major minor h =
    encoding_if_any major minor h (values_of h transfer_encoding_key)

-- Whether every other length is the first one.
unfoldable pub same_lengths : Bytes → List Bytes → Bool
unfolding trim equal
same_lengths first [] = true
same_lengths first (v ∷ vs) = equal first (trim v) && same_lengths first vs

-- The header with one length, where they are all the same.
abbrev pub one_length : Header → List Bytes → Result Header
one_length h [] = ok h
one_length h (v ∷ []) = ok h
one_length h (v ∷ w ∷ vs) =
    if same_lengths (trim v) (w ∷ vs)
    then ok (add (del h content_length_key) content_length_key (trim v))
    else fail (multiple_lengths (v ∷ w ∷ vs))

-- The end of `fixLength`, without chunks.
unfoldable pub declared_length : Bool → Bool → Header → List Bytes → Result (Header × ℤ)
unfolding del
declared_length lax is_response h [] =
    ok (del h content_length_key, (if not is_response then pos 0 else negsuc 0))
declared_length lax is_response h (v ∷ vs) = elim (parse_content_length lax (v ∷ vs)) [
  | fail e ↦ fail e
  | ok n ↦ ok (h, n)
]

-- `fixLength` after the lengths are one.
abbrev pub length_by_message : Bool → Bool → ℕ → Bytes → Header → Bool → Result (Header × ℤ)
length_by_message lax is_response status method h chunked =
    if is_response && no_response_body_expected method
    then ok (h, pos 0)
    else if status / 100 == 1
    then ok (h, pos 0)
    else if status == 204 || status == 304
    then ok (h, pos 0)
    else if chunked
    then ok (h, negsuc 0)
    else declared_length lax is_response h (or_nil (values_of h content_length_key))

-- `fixLength`
unfoldable pub fix_length : Bool → Bool → ℕ → Bytes → Header → Bool → Result (Header × ℤ)
unfolding values_of same_lengths declared_length no_response_body_expected add del
fix_length lax is_response status method h chunked =
    elim (one_length h (or_nil (values_of h content_length_key))) [
      | fail e ↦ fail e
      | ok h2 ↦ length_by_message lax is_response status method h2 chunked
    ]

-- ===== src/Transfer/Write/Fields.antt =====
-- transfer.go: `writeHeader`, which writes the fields that frame a message.
use oohttp.Base.{
  ℕ, zero, suc, ◌+◌, ◌/◌, ◌%◌, Bool, true, false, not, ◌&&◌, ◌||◌, List, [], ◌∷◌, ◌++◌, none, some,
  ltb, if◌then◌else◌, Bytes, codes, equal,
}
use oohttp.Base.Int.{ℤ, pos, negsuc}
use oohttp.Headers.{Header, get, has_token}
use oohttp.Transfer.Length.{content_length_key, transfer_encoding_key}
use oohttp.Transfer.Read.{is_framing_key, trailer_key}
use oohttp.Transfer.Result.{Result, bad_trailer_key, fail, ok}
use oohttp.Transfer.Write.{
  TransferWriter, chunked, is_identity, is_negative, is_positive, is_zero_length,
}

-- `shouldSendContentLength`
unfoldable pub should_send_content_length : TransferWriter → Bool
unfolding chunked is_identity equal
should_send_content_length t =
    if chunked t.transfer_encoding
    then false
    else if is_positive t.content_length
    then true
    else if is_negative t.content_length
    then false
    else if equal t.method (codes "POST")
        || equal t.method (codes "PUT")
        || equal t.method (codes "PATCH")
    then true
    else if is_zero_length t.content_length && is_identity t.transfer_encoding
    then not (equal t.method (codes "GET") || equal t.method (codes "HEAD"))
    else false

-- The digits of a number before others, with so many rounds.
unfoldable pub digits_before : ℕ → ℕ → Bytes → Bytes
digits_before zero n s = s
digits_before (suc fuel) n s =
    let more = digits_before fuel (n / 10) ((b'0' + n % 10) ∷ s) in
    if ltb n 10 then (b'0' + n) ∷ s else more

-- `strconv.FormatInt(n, 10)`
unfoldable pub format_int : ℤ → Bytes
unfolding digits_before
format_int (pos n) = digits_before (suc n) n []
format_int (negsuc n) = b'-' ∷ digits_before (suc (suc n)) (suc n) []

-- The fields that frame the message.
unfoldable pub framing_fields : TransferWriter → List (Bytes × Bytes)
unfolding should_send_content_length chunked format_int
framing_fields t =
    if should_send_content_length t
    then (content_length_key, format_int t.content_length) ∷ []
    else if chunked t.transfer_encoding
    then (transfer_encoding_key, codes "chunked") ∷ []
    else []

-- The field `Connection`.
abbrev pub close_fields : TransferWriter → List (Bytes × Bytes)
close_fields t =
    if t.close && not (has_token (get t.header (codes "Connection")) (codes "close"))
    then (codes "Connection", codes "close") ∷ []
    else []

abbrev pub key_before : Bytes → Result (List Bytes) → Result (List Bytes)
key_before k (fail e) = fail e
key_before k (ok ks) = ok (k ∷ ks)

-- The loop over the keys of the trailer; `canonical` is `CanonicalHeaderKey`.
unfoldable pub trailer_keys : (Bytes → Bytes) → Header → Result (List Bytes)
unfolding is_framing_key
trailer_keys canonical [] = ok []
trailer_keys canonical (p ∷ h) =
    let rest = trailer_keys canonical h in
    if is_framing_key (canonical p.0)
    then fail (bad_trailer_key (canonical p.0))
    else key_before (canonical p.0) rest

-- `strings.Join(keys, ",")`
unfoldable pub join_keys : List Bytes → Bytes
join_keys [] = []
join_keys (k ∷ []) = k
join_keys (k ∷ l ∷ ks) = k ++ (b',' ∷ join_keys (l ∷ ks))

abbrev pub trailer_fields : (List Bytes → List Bytes) → List Bytes → List (Bytes × Bytes)
trailer_fields sort [] = []
trailer_fields sort (k ∷ ks) = (trailer_key, join_keys (sort (k ∷ ks))) ∷ []

abbrev pub with_trailer_fields :
    (List Bytes → List Bytes)
    → List (Bytes × Bytes)
    → Result (List Bytes)
    → Result (List (Bytes × Bytes))
with_trailer_fields sort fs (fail e) = fail e
with_trailer_fields sort fs (ok ks) = ok (fs ++ trailer_fields sort ks)

-- `writeHeader`: the fields it writes, or its error; `sort` is `sort.Strings`.
unfoldable pub write_header :
    (Bytes → Bytes) → (List Bytes → List Bytes) → TransferWriter → Result (List (Bytes × Bytes))
unfolding framing_fields trailer_keys join_keys has_token get
write_header canonical sort t = elim t.trailer [
  | none ↦ ok (close_fields t ++ framing_fields t)
  | some h ↦
      with_trailer_fields sort (close_fields t ++ framing_fields t) (trailer_keys canonical h)
]

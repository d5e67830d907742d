-- ===== src/Transfer/Write/Tests.antt =====
-- Writers of requests, and the premises of their theorems.
use oohttp.Base.{
  Bool, true, false, ◌≡◌, refl, inr, List, [], ◌∷◌, Option, none, some, Bytes, codes, arith,
}
use oohttp.Base.Int.{pos}
use oohttp.Transfer.Result.{ok}
use oohttp.Transfer.Write.{Outgoing, TransferWriter, new_request_writer, new_response_writer}
use oohttp.Transfer.Write.Fields.{framing_fields, write_header}
use oohttp.Transfer.Write.Agree.{announced, header_of, reads, reads-framing_fields}
use oohttp.Transfer.Write.Sane.{IsSane, IsSaneIfAny, new_transfer_writer-IsSane}

abbrev never : List Bytes → Bytes → Bool
never vs t = false

-- A request to post twelve bytes.
abbrev twelve : TransferWriter
twelve = record {
  method = codes "POST";
  has_body = true;
  response_to_head = false;
  content_length = pos 12;
  close = true;
  transfer_encoding = [];
  header = [];
  trailer = none;
  is_response = false;
}

reads-framing_fields_example :
    reads (λ k. k) never (codes "POST") (header_of (framing_fields twelve))
    ≡ some (announced twelve)
reads-framing_fields_example =
    reads-framing_fields (λ k. k) never (codes "POST") twelve (inr (12, refl, omega arith))

twelve_fields :
    write_header (λ k. k) (λ ks. ks) twelve
    ≡ ok ((codes "Connection", codes "close") ∷ (codes "Content-Length", codes "12") ∷ [])
unfolding write_header
twelve_fields = refl

-- A body whose length is not known.
abbrev unknown : Outgoing
unknown = record {
  method = codes "POST";
  has_body = true;
  no_body = false;
  content_length = pos 0;
  close = false;
  transfer_encoding = [];
  header = [];
  trailer = none;
}

new_transfer_writer-IsSane_example :
    IsSaneIfAny (new_request_writer true unknown) × IsSane (new_response_writer true unknown)
new_transfer_writer-IsSane_example = new_transfer_writer-IsSane true unknown

abbrev encoding_of_writer : Option TransferWriter → List Bytes
encoding_of_writer none = []
encoding_of_writer (some t) = t.transfer_encoding

in_chunks : encoding_of_writer (new_request_writer false unknown) ≡ codes "chunked" ∷ []
unfolding new_request_writer
in_chunks = refl

-- ===== src/Transfer/Reader/Trailer.antt =====
-- transfer.go: `readTrailer`, and what a body reads from.
use oohttp.Base.{
  ℕ, zero, suc, Bool, true, false, not, [], ◌∷◌, Option, none, some, ltb, length, if◌then◌else◌,
  Bytes, equal,
}
use oohttp.Base.Text.{has_suffix}
use oohttp.Headers.{Header, put}

-- The errors of a read.
pub data ReadError : Type 0 where
  eof : ReadError
  unexpected_eof : ReadError
  body_read_after_close : ReadError
  trailer_eof : ReadError
  long_trailer : ReadError
  other_error : Bytes → ReadError

-- What a read gives: bytes, an error or nil, and the reader after it.
pub record ReadResult (X : Type 0) : Type 0 where
  pub bytes : Bytes
  pub err : Option ReadError
  pub left : X

-- What reading a header gives: the header and an error or nil.
pub record HeaderRead (S : Type 0) : Type 0 where
  pub header : Header
  pub err : Option ReadError
  pub left : S

-- What is read from, as `bufio` and `textproto` give it: reads, the next bytes with whether there are
-- fewer than asked for or the buffer is too small, bytes skipped, and a header.
pub record Wire (S : Type 0) : Type 0 where
  pub read : S → ℕ → ReadResult S
  pub buffer_size : ℕ
  pub peek : S → ℕ → Bytes × Option ReadError
  pub discard : S → ℕ → S
  pub read_mime_header : S → HeaderRead S

-- `rr.Trailer` after `readTrailer`, with its error.
pub record TrailerRead (S : Type 0) : Type 0 where
  pub trailer : Option Header
  pub err : Option ReadError
  pub left : S

-- The loop of `mergeSetHeader`.
unfoldable pub put_all : Header → Header → Header
unfolding put
put_all dst [] = dst
put_all dst (p ∷ src) = put_all (put dst p.0 p.1) src

-- `mergeSetHeader`
abbrev pub merge_set_header : Option Header → Header → Header
merge_set_header none src = src
merge_set_header (some dst) src = put_all dst src

abbrev pub single_crlf : Bytes
single_crlf = b'\r' ∷ b'\n' ∷ []

abbrev pub double_crlf : Bytes
double_crlf = b'\r' ∷ b'\n' ∷ b'\r' ∷ b'\n' ∷ []

abbrev pub is_error : Option ReadError → Bool
is_error none = false
is_error (some _) = true

abbrev pub trailer_error : ReadError → ReadError
trailer_error eof = trailer_eof
trailer_error e = e

module _ {S : Type 0} (wire : Wire S) where
  -- The loop of `seeUpcomingDoubleCRLF`, which ends where `Peek` is asked for more than the buffer.
  unfoldable pub see_rounds : ℕ → ℕ → S → Bool
  unfolding has_suffix
  see_rounds zero peek_size s = false
  see_rounds (suc fuel) peek_size s =
      let more = see_rounds fuel (suc peek_size) s in
      if has_suffix (wire.peek s peek_size).0 double_crlf
      then true
      else if is_error (wire.peek s peek_size).1
      then false
      else more

  -- `seeUpcomingDoubleCRLF`
  abbrev pub see_upcoming_double_crlf : S → Bool
  see_upcoming_double_crlf s = see_rounds wire.buffer_size 4 s

  abbrev pub failed_trailer : Option Header → ReadError → S → TrailerRead S
  failed_trailer trailer e s = record { trailer = trailer; err = some e; left = s }

  abbrev pub after_mime_header : Option Header → HeaderRead S → TrailerRead S
  after_mime_header trailer r = elim r.err [
    | some e ↦ failed_trailer trailer (trailer_error e) r.left
    | none ↦ record {
      trailer = some (merge_set_header trailer r.header);
      err = none;
      left = r.left;
    }
  ]

  -- `readTrailer`
  unfoldable pub read_trailer : Option Header → S → TrailerRead S
  unfolding equal see_rounds put_all
  read_trailer trailer s =
      if equal (wire.peek s 2).0 single_crlf
      then record { trailer = trailer; err = none; left = wire.discard s 2 }
      else if ltb (length (wire.peek s 2).0) 2
      then failed_trailer trailer trailer_eof s
      else elim (wire.peek s 2).1 [
        | some e ↦ failed_trailer trailer e s
        | none ↦
            if not (see_upcoming_double_crlf s)
            then failed_trailer trailer long_trailer s
            else after_mime_header trailer (wire.read_mime_header s)
      ]

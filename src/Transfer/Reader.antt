-- ===== src/Transfer/Reader.antt =====
-- transfer.go: `body`, the reader of a message's body, and its end.
pub mod Trailer
pub mod Close
pub mod Complete
pub mod Once
mod Tests
use oohttp.Headers.{Header}
use oohttp.Transfer.Reader.Trailer.{
  ReadError, ReadResult, TrailerRead, Wire, body_read_after_close, eof, read_trailer,
  unexpected_eof,
}
use oohttp.Base.{
  ℕ, zero, suc, ◌+◌, ◌-◌, min, Bool, true, false, not, ◌&&◌, ◌||◌, List, [], ◌∷◌, ◌++◌, Option,
  none, some, leb, ltb, length, ◌==◌, if◌then◌else◌, Bytes, is_empty,
}

abbrev pub is_eof : Option ReadError → Bool
is_eof (some eof) = true
is_eof _ = false

abbrev pub is_no_error : Option ReadError → Bool
is_no_error none = true
is_no_error (some _) = false

-- `src`: an `io.LimitedReader` of so many bytes, or another reader.
pub data Source : Type 0 where
  limited_reader : ℕ → Source
  other_reader : Source

-- `body`; `has_hdr` says that `hdr` is not nil, and `eof_calls` counts the calls of `onHitEOF`.
pub record BodyReader : Type 0 where
  pub src : Source
  pub has_hdr : Bool
  pub closing : Bool
  pub do_early_close : Bool
  pub saw_eof : Bool
  pub closed : Bool
  pub early_close : Bool
  pub has_on_hit_eof : Bool
  pub eof_calls : ℕ
  pub trailer : Option Header

abbrev pub bytes_left : Source → ℕ
bytes_left (limited_reader n) = n
bytes_left other_reader = 0

abbrev pub is_limited : Source → Bool
is_limited (limited_reader n) = true
is_limited other_reader = false

-- `onHitEOF`, where `sawEOF` is set.
abbrev pub hit_eof : BodyReader → BodyReader
hit_eof b = if b.saw_eof && b.has_on_hit_eof then record b { eof_calls = suc b.eof_calls } else b

abbrev pub prepend : Bytes → Option (Bytes × ReadError) → Option (Bytes × ReadError)
prepend bytes none = none
prepend bytes (some p) = some (bytes ++ p.0, p.1)

-- A read, and what follows it where it gives no error.
abbrev pub join_read :
    {X : Type 0} → ReadResult X → (X → Option (Bytes × ReadError)) → Option (Bytes × ReadError)
join_read r again = elim r.err [
  | some e ↦ some (r.bytes, e)
  | none ↦ prepend r.bytes (again r.left)
]

module _ {S : Type 0} (wire : Wire S) where
  -- `b.src.Read`, with what the limit is after it.
  unfoldable pub source_read : Source → S → ℕ → ReadResult (Source × S)
  source_read other_reader s k =
      let r = wire.read s k in
      record { bytes = r.bytes; err = r.err; left = (other_reader, r.left) }
  source_read (limited_reader zero) s k = record {
    bytes = [];
    err = some eof;
    left = (limited_reader zero, s);
  }
  source_read (limited_reader (suc n)) s k =
      let r = wire.read s (min k (suc n)) in
      record {
        bytes = r.bytes;
        err = r.err;
        left = (limited_reader (suc n - length r.bytes), r.left);
      }

  abbrev pub after_trailer : BodyReader → Bytes → TrailerRead S → ReadResult (BodyReader × S)
  after_trailer b bytes t = elim t.err [
    | none ↦ record {
      bytes = bytes;
      err = some eof;
      left = (record b { saw_eof = true; has_hdr = false; trailer = t.trailer }, t.left);
    }
    | some e ↦ record {
      bytes = bytes;
      err = some e;
      left = (record b { saw_eof = false; closed = true; has_hdr = false }, t.left);
    }
  ]

  -- At the end of the source: the trailer, or the test that the limit is reached.
  abbrev pub at_eof : BodyReader → Bytes → S → ReadResult (BodyReader × S)
  at_eof b bytes s =
      if b.has_hdr then after_trailer b bytes (read_trailer wire b.trailer s) else record {
        bytes = bytes;
        err = some (if is_limited b.src && ltb 0 (bytes_left b.src) then unexpected_eof else eof);
        left = (record b { saw_eof = true }, s);
      }

  -- After a read without an error, which may be known to be the last one.
  abbrev pub maybe_last : BodyReader → Bytes → S → ReadResult (BodyReader × S)
  maybe_last b bytes s =
      if not (is_empty bytes) && (is_limited b.src && bytes_left b.src == 0)
      then record { bytes = bytes; err = some eof; left = (record b { saw_eof = true }, s) }
      else record { bytes = bytes; err = none; left = (b, s) }

  abbrev pub by_error : BodyReader → Bytes → Option ReadError → S → ReadResult (BodyReader × S)
  by_error b bytes err s =
      if is_eof err
      then at_eof b bytes s
      else if is_no_error err
      then maybe_last b bytes s
      else record { bytes = bytes; err = err; left = (b, s) }

  abbrev pub after_source : BodyReader → ReadResult (Source × S) → ReadResult (BodyReader × S)
  after_source b r =
      let q = by_error (record b { src = r.left.0 }) r.bytes r.err r.left.1 in
      record q { left = (hit_eof q.left.0, q.left.1) }

  -- `readLocked`
  unfoldable pub read_locked : BodyReader → S → ℕ → ReadResult (BodyReader × S)
  unfolding source_read read_trailer
  read_locked b s k =
      if b.saw_eof
      then record { bytes = []; err = some eof; left = (b, s) }
      else after_source b (source_read b.src s k)

  -- `Read`
  unfoldable pub read : BodyReader → S → ℕ → ReadResult (BodyReader × S)
  unfolding read_locked
  read b s k =
      if b.closed
      then record { bytes = []; err = some body_read_after_close; left = (b, s) }
      else read_locked b s k

  -- `io.ReadAll` on a body, by reads of `k` bytes: what was read, and the error that ended it.
  unfoldable pub read_all : ℕ → BodyReader → S → ℕ → Option (Bytes × ReadError)
  unfolding read
  read_all zero b s k = none
  read_all (suc fuel) b s k = join_read (read b s k) (λ p. read_all fuel p.0 p.1 k)

-- ===== src/Transfer/Reader/Tests.antt =====
-- A body over a connection that is a list of bytes, and the premises of the theorems there.
use oohttp.Base.{
  ℕ, zero, suc, true, false, ◌≡◌, refl, [], ◌∷◌, none, some, Bytes, codes, take, drop, length-take,
  is_empty, if◌then◌else◌, arith,
}
use oohttp.Transfer.Reader.{BodyReader, limited_reader, read, read_all}
use oohttp.Transfer.Reader.Complete.{IsOpen, IsReader, IsWhole, read_all-IsWhole}
use oohttp.Transfer.Reader.Once.{IsAnnounced, Reaches-IsAnnounced, after_read, here}
use oohttp.Transfer.Reader.Trailer.{Wire, eof, unexpected_eof}

-- What is left to come.
abbrev wire : Wire Bytes
wire = record {
  read = λ s k. record {
    bytes = take k s;
    err = if is_empty s then some eof else none;
    left = drop k s;
  };
  buffer_size = 4096;
  peek = λ s k. (take k s, none);
  discard = λ s k. drop k s;
  read_mime_header = λ s. record { header = []; err = none; left = s };
}

abbrev open_body : ℕ → BodyReader
open_body n = record {
  src = limited_reader n;
  has_hdr = false;
  closing = false;
  do_early_close = false;
  saw_eof = false;
  closed = false;
  early_close = false;
  has_on_hit_eof = true;
  eof_calls = 0;
  trailer = none;
}

wire-IsReader : IsReader wire
wire-IsReader [] zero = (omega arith, λ p e. ground arith)
wire-IsReader [] (suc k) = (omega arith, λ p e. ground arith)
wire-IsReader (c ∷ s) zero = (omega arith, λ p e. ground arith)
wire-IsReader (c ∷ s) (suc k) = (omega (arith, length-take k s), λ p e. omega arith)

five-IsOpen : IsOpen 5 (open_body 5)
five-IsOpen = record { src = refl; no_hdr = refl; not_closed = refl; not_at_end = refl }

read_all-IsWhole_example : IsWhole 5 (read_all wire 6 (open_body 5) (codes "hello world") 4)
read_all-IsWhole_example =
    read_all-IsWhole wire 5 (open_body 5) (codes "hello world") 4 wire-IsReader (omega arith)
      five-IsOpen

read_bodies :
    (read_all wire 6 (open_body 5) (codes "hello world") 4 ≡ some (codes "hello", eof))
    × (read_all wire 6 (open_body 5) (codes "hel") 4 ≡ some (codes "hel", unexpected_eof))
unfolding read_all
read_bodies = (refl, refl)

abbrev read_once : BodyReader
read_once = (read wire (open_body 5) (codes "hello") 8).left.0

Reaches-IsAnnounced_example : IsAnnounced read_once
Reaches-IsAnnounced_example =
    Reaches-IsAnnounced wire (open_body 5) read_once refl refl
      (after_read (open_body 5) (codes "hello") 8 here)

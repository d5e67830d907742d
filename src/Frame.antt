-- ===== src/Frame.antt =====
-- h2_bundle.go: the header of HTTP/2 frames, as `http2Framer` writes and reads it.
pub mod RoundTrip
pub mod Check
pub mod Order
mod Tests
use oohttp.Base.{
  ℕ, ◌+◌, ◌-◌, ◌*◌, ◌/◌, ◌%◌, Bool, true, List, [], ◌∷◌, ◌++◌, Option, none, some, ltb, leb,
  if◌then◌else◌, Bytes, drop,
}
use oohttp.Base.{length as size}

pub record FrameHeader : Type 0 where
  pub valid : Bool
  pub type : ℕ
  pub flags : ℕ
  pub length : ℕ
  pub stream_id : ℕ

-- `http2frameHeaderLen`
abbrev pub frame_header_len : ℕ
frame_header_len = 9

-- `startWrite`: the buffer with the header, whose length is still zero.
unfoldable pub start_write : ℕ → ℕ → ℕ → Bytes
start_write ftype flags stream_id =
    0
    ∷ 0
    ∷ 0
    ∷ ftype % 0x100
    ∷ flags % 0x100
    ∷ stream_id / 0x100_0000 % 0x100
    ∷ stream_id / 0x1_0000 % 0x100
    ∷ stream_id / 0x100 % 0x100
    ∷ stream_id % 0x100
    ∷ []

-- `endWrite`: what it writes, or `http2ErrFrameTooLarge`.
unfoldable pub end_write : Bytes → Option Bytes
end_write wbuf =
    let n = size wbuf - frame_header_len in
    if leb 0x100_0000 n
    then none
    else some (n / 0x1_0000 % 0x100 ∷ n / 0x100 % 0x100 ∷ n % 0x100 ∷ drop 3 wbuf)

-- `http2readFrameHeader`: the header and what is left of the input, or the error of a short input.
unfoldable pub read_frame_header : Bytes → Option (FrameHeader × Bytes)
read_frame_header (l1 ∷ l2 ∷ l3 ∷ t ∷ f ∷ s1 ∷ s2 ∷ s3 ∷ s4 ∷ rest) = some (
  record {
    valid = true;
    type = t;
    flags = f;
    length = l1 * 0x1_0000 + l2 * 0x100 + l3;
    stream_id = (s1 * 0x100_0000 + s2 * 0x1_0000 + s3 * 0x100 + s4) % 0x8000_0000;
  },
  rest,
)
read_frame_header _ = none

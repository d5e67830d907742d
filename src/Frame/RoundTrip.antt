-- ===== src/Frame/RoundTrip.antt =====
-- A frame that was written is read with the header it was written with.
use oohttp.Base.{
  ℕ, ◌+◌, ◌-◌, ◌*◌, ◌/◌, ◌%◌, ◌<◌, ◌≤◌, ◌≡◌, true, ◌∷◌, ◌++◌, Option, none, some, leb,
  if◌then◌else◌, Bytes, arith, Bool-cases, inl, inr,
}
use oohttp.Base.{length as size}
use oohttp.Frame.{start_write, end_write, read_frame_header}

join_24 :
    (n : ℕ)
    → n < 0x100_0000
    → n / 0x1_0000 % 0x100 * 0x1_0000 + n / 0x100 % 0x100 * 0x100 + n % 0x100 ≡ n
join_24 n h = omega arith

join_32 :
    (n : ℕ)
    → n < 0x1_0000_0000
    → n / 0x100_0000 % 0x100 * 0x100_0000
        + n / 0x1_0000 % 0x100 * 0x1_0000
        + n / 0x100 % 0x100 * 0x100
        + n % 0x100
      ≡ n
join_32 n h = omega arith

-- What writing a frame with a payload does, before the bytes `rest` of later frames: a payload of
-- 2^24 bytes or more is refused; else reading a header from what was written gives the type, the
-- flags, the length of the payload and the stream without its highest bit, and leaves the payload.
pub data WriteResult (t f id : ℕ) (payload rest : Bytes) : Option Bytes → Type 0 where
  refused : 0x100_0000 ≤ size payload → WriteResult t f id payload rest none
  written :
      {w : Bytes}
      → size payload < 0x100_0000
      → read_frame_header (w ++ rest)
        ≡ some (
          record {
            valid = true;
            type = t;
            flags = f;
            length = size payload;
            stream_id = id % 0x8000_0000;
          },
          payload ++ rest,
        )
      → WriteResult t f id payload rest (some w)

end_write-start_write :
    (t f id : ℕ) (payload : Bytes)
    → end_write (start_write t f id ++ payload) ≡ (
        if leb 0x100_0000 (size payload)
        then none
        else some (
            size payload / 0x1_0000 % 0x100
            ∷ size payload / 0x100 % 0x100
            ∷ size payload % 0x100
            ∷ t % 0x100
            ∷ f % 0x100
            ∷ id / 0x100_0000 % 0x100
            ∷ id / 0x1_0000 % 0x100
            ∷ id / 0x100 % 0x100
            ∷ id % 0x100
            ∷ payload))
unfolding end_write start_write
end_write-start_write t f id payload =
    let nine : size (start_write t f id ++ payload) - 9 ≡ size payload = omega arith in rw nine

-- Writing a frame of a type and flags of a byte and a stream of 32 bits, and reading its header.
pub end_write-WriteResult :
    (t f id : ℕ) (payload rest : Bytes)
    → t < 0x100
    → f < 0x100
    → id < 0x1_0000_0000
    → WriteResult t f id payload rest (end_write (start_write t f id ++ payload))
unfolding read_frame_header
end_write-WriteResult t f id payload rest ht hf hid =
    elim (Bool-cases (leb 0x100_0000 (size payload))) [
      | inl large ↦ rw (end_write-start_write t f id payload, large) (refused (ground arith))
      | inr small ↦
          rw (end_write-start_write t f id payload, small)
            (written (ground arith) (
              let same : t % 0x100 ≡ t = omega arith in
              let same_f : f % 0x100 ≡ f = omega arith in
              let below : size payload < 0x100_0000 = ground arith in
              rw (same, same_f, join_24 (size payload) below, join_32 id hid)))
    ]

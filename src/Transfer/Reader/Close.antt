-- ===== src/Transfer/Reader/Close.antt =====
-- transfer.go: `Close` of a body, which reads what is left of it.
use oohttp.Base.{
  ℕ, zero, suc, ◌+◌, ◌-◌, min, true, not, ◌&&◌, Option, none, some, ltb, length, ◌==◌,
  if◌then◌else◌,
}
use oohttp.Transfer.Reader.{BodyReader, bytes_left, is_limited, read}
use oohttp.Transfer.Reader.Trailer.{ReadError, ReadResult, Wire, eof}

-- `maxPostHandlerReadBytes`
abbrev pub max_post_handler_read_bytes : ℕ
max_post_handler_read_bytes = 262144

-- What a copy comes to: the bytes copied, and an error, which is nil at the end of the body.
pub record Copied (S : Type 0) : Type 0 where
  pub count : ℕ
  pub err : Option ReadError
  pub body : BodyReader
  pub wire_left : S

-- What `Close` returns.
pub record Closed (S : Type 0) : Type 0 where
  pub err : Option ReadError
  pub body : BodyReader
  pub wire_left : S

abbrev pub no_eof : Option ReadError → Option ReadError
no_eof (some eof) = none
no_eof e = e

abbrev pub add_count : {S : Type 0} → ℕ → Option (Copied S) → Option (Copied S)
add_count n none = none
add_count n (some c) = some (record c { count = n + c.count })

-- A read, and what follows it where it gives no error.
abbrev pub join_copy :
    {S : Type 0}
    → ReadResult (BodyReader × S)
    → (ℕ → BodyReader × S → Option (Copied S))
    → Option (Copied S)
join_copy r again = elim r.err [
  | some e ↦ some (record {
    count = length r.bytes;
    err = no_eof (some e);
    body = r.left.0;
    wire_left = r.left.1;
  })
  | none ↦ add_count (length r.bytes) (again (length r.bytes) r.left)
]

module _ {S : Type 0} (wire : Wire S) where
  -- `io.CopyN(io.Discard, bodyLocked{b}, limit)`, up to `limit` bytes in reads of 8192, with so many
  -- rounds; `none` where they are too few.
  unfoldable pub copy_n : ℕ → ℕ → BodyReader → S → Option (Copied S)
  unfolding read
  copy_n zero limit b s = none
  copy_n (suc fuel) limit b s =
      let more =
        join_copy (read wire b s (min 8192 limit)) (λ n p. copy_n fuel (limit - n) p.0 p.1) in
      if limit == 0 then some (record { count = 0; err = none; body = b; wire_left = s }) else more

  -- `io.Copy(io.Discard, bodyLocked{b})`
  unfoldable pub copy_all : ℕ → BodyReader → S → Option (Copied S)
  unfolding read
  copy_all zero b s = none
  copy_all (suc fuel) b s = join_copy (read wire b s 8192) (λ n p. copy_all fuel p.0 p.1)

  abbrev pub closed_after : Option ReadError → BodyReader → S → Closed S
  closed_after err b s = record { err = err; body = record b { closed = true }; wire_left = s }

  abbrev pub after_copy_n : Option (Copied S) → Option (Closed S)
  after_copy_n none = none
  after_copy_n (some c) =
      if c.count == max_post_handler_read_bytes
      then some (closed_after c.err (record c.body { early_close = true }) c.wire_left)
      else some (closed_after c.err c.body c.wire_left)

  abbrev pub after_copy_all : Option (Copied S) → Option (Closed S)
  after_copy_all none = none
  after_copy_all (some c) = some (closed_after c.err c.body c.wire_left)

  -- `Close`
  unfoldable pub close : ℕ → BodyReader → S → Option (Closed S)
  unfolding copy_n copy_all
  close fuel b s =
      if b.closed
      then some (record { err = none; body = b; wire_left = s })
      else if b.saw_eof
      then some (closed_after none b s)
      else if not b.has_hdr && b.closing
      then some (closed_after none b s)
      else if b.do_early_close
      then if is_limited b.src && ltb max_post_handler_read_bytes (bytes_left b.src)
        then some (closed_after none (record b { early_close = true }) s)
        else after_copy_n (copy_n fuel max_post_handler_read_bytes b s)
      else after_copy_all (copy_all fuel b s)

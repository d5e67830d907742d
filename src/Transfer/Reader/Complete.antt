-- ===== src/Transfer/Reader/Complete.antt =====
-- A body of a declared length, read to its end.
use mathlib.Core.Path.{subst}
use oohttp.Base.{
  ℕ, zero, suc, ◌-◌, min, ◌≤◌, ◌<◌, ◌≡◌, refl, sym, ap, ◌∙◌, inl, inr, Bool, true, false, not, ◌&&◌,
  ◌++◌, Option, none, some, ltb, length, ◌==◌, if◌then◌else◌, Bytes, is_empty, arith, length-append,
  Bool-cases,
}
use oohttp.Transfer.Reader.{
  BodyReader, Source, after_source, at_eof, by_error, bytes_left, join_read, prepend, hit_eof,
  is_limited, limited_reader, maybe_last, read, read_all, read_locked, source_read,
}
use oohttp.Transfer.Reader.Trailer.{
  ReadError, ReadResult, Wire, body_read_after_close, eof, other_error, trailer_eof, long_trailer,
  unexpected_eof,
}

-- A reader as the package `io` asks it to be: it gives no more bytes than asked for, and does not
-- give no byte without an error where some are asked for.
abbrev pub IsReader : {S : Type 0} → Wire S → Type 0
IsReader {S} wire =
    (s : S) (k : ℕ)
    → (length (wire.read s k).bytes ≤ k)
      × (0 < k → (wire.read s k).err ≡ none → 0 < length (wire.read s k).bytes)

-- The body of a message with so many bytes left, open and not at its end.
pub record IsOpen (n : ℕ) (b : BodyReader) : Type 0 where
  pub src : b.src ≡ limited_reader n
  pub no_hdr : b.has_hdr ≡ false
  pub not_closed : b.closed ≡ false
  pub not_at_end : b.saw_eof ≡ false

-- What a read may give: bytes and an open body of the rest, or the last bytes and an error, which is
-- `EOF` only where no byte is missing.
pub data IsRead {S : Type 0} (n : ℕ) : ReadResult (BodyReader × S) → Type 0 where
  more :
      (bytes : Bytes) (b : BodyReader) (s : S)
      → 0 < length bytes
      → length bytes ≤ n
      → IsOpen (n - length bytes) b
      → IsRead n (record { bytes = bytes; err = none; left = (b, s) })
  last :
      (bytes : Bytes) (e : ReadError) (p : BodyReader × S)
      → length bytes ≤ n
      → (e ≡ eof → length bytes ≡ n)
      → IsRead n (record { bytes = bytes; err = some e; left = p })

if_false : {A : Type 0} (c : Bool) (x y : A) → c ≡ false → (if c then x else y) ≡ y
if_false true x y e = ground arith
if_false false x y e = refl

-- What `io.ReadAll` makes of a body with `n` bytes left.
abbrev pub IsWhole : ℕ → Option (Bytes × ReadError) → Type 0
IsWhole n r =
    (bytes : Bytes) × (e : ReadError) × (r ≡ some (bytes, e))
    × (length bytes ≤ n)
    × (e ≡ eof → length bytes ≡ n)

prepend-IsWhole :
    (n : ℕ) (bytes : Bytes) (r : Option (Bytes × ReadError))
    → length bytes ≤ n
    → IsWhole (n - length bytes) r
    → IsWhole n (prepend bytes r)
prepend-IsWhole n bytes none l (a, e, q, h, f) = ground arith
prepend-IsWhole n bytes (some p) l (a, e, q, h, f) = (
  bytes ++ a,
  e,
  ap (prepend bytes) q,
  omega (arith, length-append bytes a),
  λ z. omega (arith, length-append bytes a, f z),
)

module _ {S : Type 0} (wire : Wire S) where
  at_eof-IsRead :
      (n : ℕ) (b : BodyReader) (bytes : Bytes) (s : S)
      → length bytes ≤ n
      → IsOpen (n - length bytes) b
      → IsRead n (at_eof wire b bytes s)
  at_eof-IsRead n b bytes s l o =
      let left = ap bytes_left o.src in
      let lim = ap is_limited o.src in
      elim (Bool-cases (is_limited b.src && ltb 0 (bytes_left b.src))) [
        | inl e ↦ rw (o.no_hdr, e) (last bytes unexpected_eof _ l (λ q. ground arith))
        | inr e ↦ rw (o.no_hdr, e) (last bytes eof _ l (λ q. ground arith))
      ]

  maybe_last-IsRead :
      (n : ℕ) (b : BodyReader) (bytes : Bytes) (s : S)
      → length bytes ≤ n
      → 0 < length bytes
      → IsOpen (n - length bytes) b
      → IsRead n (maybe_last wire b bytes s)
  maybe_last-IsRead n b bytes s l pos o =
      let left = ap bytes_left o.src in
      elim (Bool-cases (not (is_empty bytes) && (is_limited b.src && bytes_left b.src == 0))) [
        | inl e ↦ rw e (last bytes eof _ l (λ q. ground arith))
        | inr e ↦ rw e (more bytes b s pos l o)
      ]

  by_error-IsRead :
      (n : ℕ) (b : BodyReader) (bytes : Bytes) (err : Option ReadError) (s : S)
      → length bytes ≤ n
      → (err ≡ none → 0 < length bytes)
      → IsOpen (n - length bytes) b
      → IsRead n (by_error wire b bytes err s)
  by_error-IsRead n b bytes none s l pos o = maybe_last-IsRead n b bytes s l (pos refl) o
  by_error-IsRead n b bytes (some eof) s l pos o = at_eof-IsRead n b bytes s l o
  by_error-IsRead n b bytes (some unexpected_eof) s l pos o = last bytes _ _ l (λ q. ground arith)
  by_error-IsRead n b bytes (some body_read_after_close) s l pos o =
      last bytes _ _ l (λ q. ground arith)
  by_error-IsRead n b bytes (some trailer_eof) s l pos o = last bytes _ _ l (λ q. ground arith)
  by_error-IsRead n b bytes (some long_trailer) s l pos o = last bytes _ _ l (λ q. ground arith)
  by_error-IsRead n b bytes (some (other_error x)) s l pos o = last bytes _ _ l (λ q. ground arith)

  hit_eof-open : (b : BodyReader) → b.saw_eof ≡ false → hit_eof b ≡ b
  hit_eof-open b e = elim (Bool-cases (b.saw_eof && b.has_on_hit_eof)) [
    | inl q ↦ ground arith
    | inr q ↦ rw q refl
  ]

  hit_eof-IsRead :
      (n : ℕ) (r : ReadResult (BodyReader × S))
      → IsRead n r
      → IsRead n (record r { left = (hit_eof r.left.0, r.left.1) })
  hit_eof-IsRead n _ (more bytes b s pos l o) =
      rw (hit_eof-open b o.not_at_end) (more bytes b s pos l o)
  hit_eof-IsRead n _ (last bytes e p l f) = last bytes e _ l f

  -- The source of an open body.
  abbrev IsSource : ℕ → ReadResult (Source × S) → Type 0
  IsSource n r =
      (r.left.0 ≡ limited_reader (n - length r.bytes))
      × (length r.bytes ≤ n)
      × (r.err ≡ none → 0 < length r.bytes)

  source_read-IsSource :
      (n : ℕ) (s : S) (k : ℕ)
      → IsReader wire
      → 0 < k
      → IsSource n (source_read wire (limited_reader n) s k)
  unfolding source_read
  source_read-IsSource zero s k w pos = (refl, omega arith, λ e. ground arith)
  source_read-IsSource (suc n) s k w pos =
      let r = w s (min k (suc n)) in (refl, omega (arith, r.0), r.1 (omega arith))

  after_source-IsRead :
      (n : ℕ) (b : BodyReader) (r : ReadResult (Source × S))
      → IsOpen n b
      → IsSource n r
      → IsRead n (after_source wire b r)
  after_source-IsRead n b r o h =
      hit_eof-IsRead n (by_error wire (record b { src = r.left.0 }) r.bytes r.err r.left.1) (
        by_error-IsRead n (record b { src = r.left.0 }) r.bytes r.err r.left.1 h.1 h.2
          (record {
            src = h.0;
            no_hdr = o.no_hdr;
            not_closed = o.not_closed;
            not_at_end = o.not_at_end;
          }))

  read-open :
      (b : BodyReader) (s : S) (k : ℕ)
      → b.closed ≡ false
      → b.saw_eof ≡ false
      → read wire b s k ≡ after_source wire b (source_read wire b.src s k)
  unfolding read read_locked
  read-open b s k c e = if_false b.closed _ _ c ∙ if_false b.saw_eof _ _ e

  read-IsRead :
      (n : ℕ) (b : BodyReader) (s : S) (k : ℕ)
      → IsReader wire
      → 0 < k
      → IsOpen n b
      → IsRead n (read wire b s k)
  read-IsRead n b s k w pos o = subst (IsRead n) (sym (read-open b s k o.not_closed o.not_at_end)) (
      after_source-IsRead n b (source_read wire b.src s k) o (
        subst (λ x. IsSource n (source_read wire x s k)) (sym o.src)
          (source_read-IsSource n s k w pos)))

  join_read-IsWhole :
      (n : ℕ) (r : ReadResult (BodyReader × S))
      (again : BodyReader × S → Option (Bytes × ReadError))
      → IsRead n r
      → ((m : ℕ) (b : BodyReader) (s : S) → m < n → IsOpen m b → IsWhole m (again (b, s)))
      → IsWhole n (join_read r again)
  join_read-IsWhole n _ again (last bytes e p l f) rec = (bytes, e, refl, l, f)
  join_read-IsWhole n _ again (more bytes b s pos l o) rec =
      prepend-IsWhole n bytes (again (b, s)) l (rec (n - length bytes) b s (omega arith) o)

  read_all-rounds :
      (fuel n : ℕ) (b : BodyReader) (s : S) (k : ℕ)
      → n < fuel
      → IsReader wire
      → 0 < k
      → IsOpen n b
      → IsWhole n (read_all wire fuel b s k)
  unfolding read_all
  read_all-rounds zero n b s k l w pos o = ground arith
  read_all-rounds (suc fuel) n b s k l w pos o =
      join_read-IsWhole n (read wire b s k) (λ p. read_all wire fuel p.0 p.1 k)
        (read-IsRead n b s k w pos o) (λ m c t h. read_all-rounds fuel m c t k (omega arith) w pos)

  -- From a reader that keeps to what the package `io` asks, reading all of a body with `n` bytes
  -- left ends within `n + 1` reads. It gives at most `n` bytes, and where the error that ends it is
  -- `EOF`, exactly `n`: a body that was cut short is never taken for a whole one.
  pub read_all-IsWhole :
      (n : ℕ) (b : BodyReader) (s : S) (k : ℕ)
      → IsReader wire
      → 0 < k
      → IsOpen n b
      → IsWhole n (read_all wire (suc n) b s k)
  read_all-IsWhole n b s k w pos o = read_all-rounds (suc n) n b s k (omega arith) w pos o

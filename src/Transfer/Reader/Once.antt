-- ===== src/Transfer/Reader/Once.antt =====
-- How often the end of a body is announced.
use mathlib.Core.Path.{subst}
use oohttp.Base.{
  ℕ, zero, suc, ◌+◌, ◌-◌, min, ◌≡◌, refl, inl, inr, Bool, true, false, not, ◌&&◌, [], Option, none,
  some, ◌==◌, if◌then◌else◌, Bytes, arith, Bool-cases, Option-cases, is_empty, ltb,
}
use oohttp.Transfer.Reader.{
  BodyReader, after_source, after_trailer, at_eof, by_error, bytes_left, hit_eof, is_eof,
  is_limited, is_no_error, read, read_locked, source_read,
}
use oohttp.Transfer.Reader.Close.{
  Closed, Copied, add_count, after_copy_all, after_copy_n, close, copy_all, copy_n, join_copy,
  max_post_handler_read_bytes,
}
use oohttp.Transfer.Reader.Trailer.{ReadError, ReadResult, TrailerRead, Wire, eof}

-- The end is announced once where a read has seen it, and not before.
abbrev pub IsAnnounced : BodyReader → Type 0
IsAnnounced b = b.eof_calls ≡ (if b.saw_eof && b.has_on_hit_eof then 1 else 0)

module _ {S : Type 0} (wire : Wire S) where
  -- A body none of whose reads has been at the end.
  abbrev IsQuiet : BodyReader → Type 0
  IsQuiet b = b.eof_calls ≡ 0

  hit_eof-IsAnnounced : (b : BodyReader) → IsQuiet b → IsAnnounced (hit_eof b)
  hit_eof-IsAnnounced b q = elim (Bool-cases (b.saw_eof && b.has_on_hit_eof)) [
    | inl e ↦ rw (e, q) (rw e refl)
    | inr e ↦ rw e (rw e q)
  ]

  after_trailer-IsQuiet :
      (b : BodyReader) (bytes : Bytes) (t : TrailerRead S)
      → IsQuiet b
      → IsQuiet (after_trailer wire b bytes t).left.0
  after_trailer-IsQuiet b bytes t q = elim (Option-cases t.err) [
    | inl e ↦ rw e q
    | inr (x, e) ↦ rw e q
  ]

  either :
      (c : Bool) (x y : ReadResult (BodyReader × S))
      → IsQuiet x.left.0
      → IsQuiet y.left.0
      → IsQuiet (if c then x else y).left.0
  either true x y p q = p
  either false x y p q = q

  at_eof-IsQuiet :
      (b : BodyReader) (bytes : Bytes) (s : S) → IsQuiet b → IsQuiet (at_eof wire b bytes s).left.0
  at_eof-IsQuiet b bytes s q = either b.has_hdr _ _ (after_trailer-IsQuiet b bytes _ q) q

  by_error-IsQuiet :
      (b : BodyReader) (bytes : Bytes) (err : Option ReadError) (s : S)
      → IsQuiet b
      → IsQuiet (by_error wire b bytes err s).left.0
  by_error-IsQuiet b bytes err s q = either (is_eof err) _ _ (at_eof-IsQuiet b bytes s q) (
      either (is_no_error err) _ _
        (either (not (is_empty bytes) && (is_limited b.src && bytes_left b.src == 0)) _ _ q q) q)

  quiet : (b : BodyReader) → b.saw_eof ≡ false → IsAnnounced b → IsQuiet b
  quiet b e a = ground arith

  read-IsAnnounced :
      (b : BodyReader) (s : S) (k : ℕ) → IsAnnounced b → IsAnnounced (read wire b s k).left.0
  unfolding read read_locked
  read-IsAnnounced b s k a = by_test b.closed _ _ a (choose_later b.saw_eof refl)
    where
      by_test :
          (c : Bool) (x y : ReadResult (BodyReader × S))
          → IsAnnounced x.left.0
          → IsAnnounced y.left.0
          → IsAnnounced (if c then x else y).left.0
      by_test true x y p q = p
      by_test false x y p q = q

      choose_later :
          (c : Bool)
          → b.saw_eof ≡ c
          → IsAnnounced
              (if c
                then record { bytes = []; err = some eof; left = (b, s) }
                else after_source wire b (source_read wire b.src s k)).left.0
      choose_later true e = a
      choose_later false e =
          hit_eof-IsAnnounced
            (by_error wire (record b { src = (source_read wire b.src s k).left.0 }) _ _ _).left.0
            (by_error-IsQuiet (record b { src = (source_read wire b.src s k).left.0 }) _ _ _
              (quiet b e a))

  -- What a copy leaves, where it ends.
  data IsCopied : Option (Copied S) → Type 0 where
    unended : IsCopied none
    copy_made : (c : Copied S) → IsAnnounced c.body → IsCopied (some c)

  add_count-IsCopied : (n : ℕ) (c : Option (Copied S)) → IsCopied c → IsCopied (add_count n c)
  add_count-IsCopied n _ unended = unended
  add_count-IsCopied n _ (copy_made c a) = copy_made (record c { count = n + c.count }) a

  -- What `Close` leaves, where it ends.
  data IsClosed : Option (Closed S) → Type 0 where
    unclosed : IsClosed none
    closed : (c : Closed S) → IsAnnounced c.body → IsClosed (some c)

  join_copy-IsCopied :
      (r : ReadResult (BodyReader × S)) (again : ℕ → BodyReader × S → Option (Copied S))
      → IsAnnounced r.left.0
      → ((n : ℕ) → IsCopied (again n r.left))
      → IsCopied (join_copy r again)
  join_copy-IsCopied r again a rec = elim (Option-cases r.err) [
    | inl e ↦ rw e (add_count-IsCopied _ _ (rec _))
    | inr (x, e) ↦ rw e (copy_made _ a)
  ]

  copy_all-IsCopied :
      (fuel : ℕ) (b : BodyReader) (s : S) → IsAnnounced b → IsCopied (copy_all wire fuel b s)
  unfolding copy_all
  copy_all-IsCopied zero b s a = unended
  copy_all-IsCopied (suc fuel) b s a =
      let r = read-IsAnnounced b s 8192 a in
      join_copy-IsCopied (read wire b s 8192) (λ n p. copy_all wire fuel p.0 p.1) r
        (λ n. copy_all-IsCopied fuel (read wire b s 8192).left.0 (read wire b s 8192).left.1 r)

  copy_n-IsCopied :
      (fuel limit : ℕ) (b : BodyReader) (s : S)
      → IsAnnounced b
      → IsCopied (copy_n wire fuel limit b s)
  unfolding copy_n
  copy_n-IsCopied zero limit b s a = unended
  copy_n-IsCopied (suc fuel) limit b s a =
      let r = read-IsAnnounced b s (min 8192 limit) a in
      copied_or (limit == 0) _ _ (copy_made _ a) (
        join_copy-IsCopied (read wire b s (min 8192 limit))
          (λ n p. copy_n wire fuel (limit - n) p.0 p.1) r
          (λ n.
            copy_n-IsCopied fuel (limit - n) (read wire b s (min 8192 limit)).left.0
              (read wire b s (min 8192 limit)).left.1 r))
    where
      copied_or :
          (c : Bool) (x y : Option (Copied S))
          → IsCopied x
          → IsCopied y
          → IsCopied (if c then x else y)
      copied_or true x y p q = p
      copied_or false x y p q = q

  closed_or :
      (c : Bool) (x y : Option (Closed S)) → IsClosed x → IsClosed y → IsClosed (if c then x else y)
  closed_or true x y p q = p
  closed_or false x y p q = q

  after_copy_all-IsClosed : (c : Option (Copied S)) → IsCopied c → IsClosed (after_copy_all wire c)
  after_copy_all-IsClosed _ unended = unclosed
  after_copy_all-IsClosed _ (copy_made c a) = closed _ a

  after_copy_n-IsClosed : (c : Option (Copied S)) → IsCopied c → IsClosed (after_copy_n wire c)
  after_copy_n-IsClosed _ unended = unclosed
  after_copy_n-IsClosed _ (copy_made c a) =
      closed_or (c.count == max_post_handler_read_bytes) _ _ (closed _ a) (closed _ a)

  close-IsClosed :
      (fuel : ℕ) (b : BodyReader) (s : S) → IsAnnounced b → IsClosed (close wire fuel b s)
  unfolding close
  close-IsClosed fuel b s a = closed_or b.closed _ _ (closed _ a) (
      closed_or b.saw_eof _ _ (closed _ a) (
        closed_or (not b.has_hdr && b.closing) _ _ (closed _ a) (
          closed_or b.do_early_close _ _
            (closed_or (is_limited b.src && ltb max_post_handler_read_bytes (bytes_left b.src)) _ _
              (closed _ a)
              (after_copy_n-IsClosed _ (copy_n-IsCopied fuel max_post_handler_read_bytes b s a)))
            (after_copy_all-IsClosed _ (copy_all-IsCopied fuel b s a)))))

  -- The bodies that reads and closes lead to from a body.
  pub data Reaches (start : BodyReader) : BodyReader → Type 0 where
    here : Reaches start start
    after_read :
        (b : BodyReader) (s : S) (k : ℕ) → Reaches start b → Reaches start (read wire b s k).left.0
    after_close :
        (b : BodyReader) (s : S) (fuel : ℕ) (c : Closed S)
        → Reaches start b
        → close wire fuel b s ≡ some c
        → Reaches start c.body

  closed-IsAnnounced :
      (r : Option (Closed S)) (c : Closed S) → IsClosed r → r ≡ some c → IsAnnounced c.body
  closed-IsAnnounced _ c unclosed e = ground arith
  closed-IsAnnounced _ c (closed d a) e = subst (λ x. IsAnnounced (body_of_closed d x)) e a
    where
      body_of_closed : Closed S → Option (Closed S) → BodyReader
      body_of_closed d none = d.body
      body_of_closed d (some c) = c.body

  -- Whatever sequence of reads and closes a body goes through, and whatever the connection gives to
  -- it, `onHitEOF` is called once where a read has seen the end, and not before.
  pub Reaches-IsAnnounced :
      (start b : BodyReader)
      → start.saw_eof ≡ false
      → start.eof_calls ≡ 0
      → Reaches start b
      → IsAnnounced b
  Reaches-IsAnnounced start _ e z here = rw (e, z) refl
  Reaches-IsAnnounced start _ e z (after_read b s k r) =
      read-IsAnnounced b s k (Reaches-IsAnnounced start b e z r)
  Reaches-IsAnnounced start _ e z (after_close b s fuel c r q) =
      closed-IsAnnounced (close wire fuel b s) c
        (close-IsClosed fuel b s (Reaches-IsAnnounced start b e z r)) q

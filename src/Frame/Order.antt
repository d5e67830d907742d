-- ===== src/Frame/Order.antt =====
-- `checkFrameOrder` makes sure that a HEADERS frame and its CONTINUATION frames come in one piece.
use mathlib.Core.Path.{subst, ap}
use oohttp.Base.{
  ℕ, ◌≡◌, ◌≢◌, refl, true, false, not, ◌&&◌, ◌||◌, List, [], ◌∷◌, Option, none, some, ◌==◌,
  if◌then◌else◌, arith, Bool-cases, inl, inr, ◌↔◌, All,
}
use oohttp.Frame.{FrameHeader}
use oohttp.Frame.Check.{
  is_headers, is_continuation, ends_headers, order_error, next_stream, check_frame_order,
  accepts_all, framer,
}

-- The order that RFC 7540 asks for. `none` stands between header blocks, and `some n` inside one of
-- stream `n`; the frames may end anywhere.
pub data Ordered : Option ℕ → List FrameHeader → Type 0 where
  done : {o : Option ℕ} → Ordered o []
  other :
      {f : FrameHeader} {fs : List FrameHeader}
      → is_headers f ≡ false
      → is_continuation f ≡ false
      → Ordered none fs
      → Ordered none (f ∷ fs)
  whole :
      {f : FrameHeader} {fs : List FrameHeader}
      → is_headers f ≡ true
      → ends_headers f ≡ true
      → Ordered none fs
      → Ordered none (f ∷ fs)
  opened :
      {f : FrameHeader} {fs : List FrameHeader}
      → is_headers f ≡ true
      → ends_headers f ≡ false
      → Ordered (some f.stream_id) fs
      → Ordered none (f ∷ fs)
  continued :
      {f : FrameHeader} {fs : List FrameHeader}
      → is_continuation f ≡ true
      → ends_headers f ≡ false
      → Ordered (some f.stream_id) fs
      → Ordered (some f.stream_id) (f ∷ fs)
  closed :
      {f : FrameHeader} {fs : List FrameHeader}
      → is_continuation f ≡ true
      → ends_headers f ≡ true
      → Ordered none fs
      → Ordered (some f.stream_id) (f ∷ fs)

abbrev pub stream_of : Option ℕ → ℕ
stream_of none = 0
stream_of (some n) = n

-- Header blocks are on a stream; the parsers of HEADERS and CONTINUATION refuse the stream 0.
abbrev pub IsOnStream : FrameHeader → Type 0
IsOnStream f = is_headers f || is_continuation f ≡ true → f.stream_id ≢ 0

accepts_step :
    (l : Option FrameHeader) (n : ℕ) (f : FrameHeader) (fs : List FrameHeader)
    → accepts_all (f ∷ fs) (framer l n) ≡ (
        if (n == 0 && not (is_continuation f))
          || (not (n == 0) && is_continuation f && f.stream_id == n)
        then accepts_all fs (framer (some f) (next_stream n f))
        else false)
unfolding accepts_all check_frame_order order_error
accepts_step l n f fs = ground arith

accepts_between :
    (l : Option FrameHeader) (f : FrameHeader) (fs : List FrameHeader)
    → accepts_all (f ∷ fs) (framer l 0) ≡ true
    → (is_continuation f ≡ false)
      × (accepts_all fs (
            framer
              (some f)
              (if is_headers f then (if ends_headers f then 0 else f.stream_id) else 0))
          ≡ true)
unfolding next_stream
accepts_between l f fs h = ground (arith, accepts_step l 0 f fs)

accepts_inside :
    (l : Option FrameHeader) (n : ℕ) (f : FrameHeader) (fs : List FrameHeader)
    → n ≢ 0
    → accepts_all (f ∷ fs) (framer l n) ≡ true
    → (is_continuation f ≡ true)
      × (f.stream_id ≡ n)
      × (accepts_all fs (framer (some f) (if ends_headers f then 0 else f.stream_id)) ≡ true)
unfolding next_stream
accepts_inside l n f fs ne h = ground (arith, accepts_step l n f fs)

accepts_all-Ordered :
    (fs : List FrameHeader) (l : Option FrameHeader) (o : Option ℕ)
    → o ≢ some 0
    → All IsOnStream fs
    → accepts_all fs (framer l (stream_of o)) ≡ true
    → Ordered o fs
accepts_all-Ordered [] l o ne on h = done
accepts_all-Ordered (f ∷ fs) l none ne (on, ons) h =
    let (not_cont, left) = accepts_between l f fs h in
    elim (Bool-cases (is_headers f)) [
      | inr no_headers ↦
          other no_headers not_cont
            (accepts_all-Ordered fs (some f) none ne ons (rw no_headers at left))
      | inl headers ↦ elim (Bool-cases (ends_headers f)) [
        | inl ends ↦
            whole headers ends
              (accepts_all-Ordered fs (some f) none ne ons (rw (headers, ends) at left))
        | inr goes ↦ opened headers goes (
            accepts_all-Ordered fs (some f) (some f.stream_id) (λ e. on (ground arith) (cc)) ons
              (rw (headers, goes) at left))
      ]
    ]
accepts_all-Ordered (f ∷ fs) l (some n) ne (on, ons) h =
    let (cont, same, left) = accepts_inside l n f fs (λ e. ne (ap some e)) h in
    elim (Bool-cases (ends_headers f)) [
      | inl ends ↦
          subst (λ k. Ordered (some k) (f ∷ fs)) same
            (closed cont ends
              (accepts_all-Ordered fs (some f) none (λ e. cc) ons (rw ends at left)))
      | inr goes ↦
          subst (λ k. Ordered (some k) (f ∷ fs)) same
            (continued cont goes (
              accepts_all-Ordered fs (some f) (some f.stream_id) (λ e. on (ground arith) (cc)) ons
                (rw goes at left)))
    ]

accepts_nil : (l : Option FrameHeader) (n : ℕ) → accepts_all [] (framer l n) ≡ true
unfolding accepts_all
accepts_nil l n = refl

Ordered-accepts_all :
    (fs : List FrameHeader) (l : Option FrameHeader) (o : Option ℕ)
    → All IsOnStream fs
    → Ordered o fs
    → accepts_all fs (framer l (stream_of o)) ≡ true
unfolding next_stream
Ordered-accepts_all [] l o on done = accepts_nil l (stream_of o)
Ordered-accepts_all (f ∷ fs) l _ (on, ons) (other a b w) =
    ground (arith, accepts_step l 0 f fs, Ordered-accepts_all fs (some f) none ons w)
Ordered-accepts_all (f ∷ fs) l _ (on, ons) (whole a b w) =
    ground (arith, accepts_step l 0 f fs, Ordered-accepts_all fs (some f) none ons w)
Ordered-accepts_all (f ∷ fs) l _ (on, ons) (opened a b w) =
    ground (arith, accepts_step l 0 f fs, Ordered-accepts_all fs (some f) (some f.stream_id) ons w)
Ordered-accepts_all (f ∷ fs) l _ (on, ons) (continued a b w) =
    let ne : f.stream_id ≢ 0 = on (ground arith) in
    ground (
      arith,
      accepts_step l f.stream_id f fs,
      ne,
      Ordered-accepts_all fs (some f) (some f.stream_id) ons w,
    )
Ordered-accepts_all (f ∷ fs) l _ (on, ons) (closed a b w) =
    let ne : f.stream_id ≢ 0 = on (ground arith) in
    ground (arith, accepts_step l f.stream_id f fs, ne, Ordered-accepts_all fs (some f) none ons w)

-- A `http2Framer` at its start that allows no illegal reads accepts a sequence of frames, whose header
-- frames are on a stream, exactly if it is in the order of RFC 7540: each HEADERS frame that does not
-- end its block is followed at once by CONTINUATION frames of its stream up to one that does, and no
-- other CONTINUATION frame occurs.
pub accepts_all_iff :
    (fs : List FrameHeader)
    → All IsOnStream fs
    → (accepts_all fs (framer none 0) ≡ true) ↔ Ordered none fs
accepts_all_iff fs on = (
  (λ h. accepts_all-Ordered fs none none (λ e. cc) on h),
  (λ w. Ordered-accepts_all fs none none on w),
)

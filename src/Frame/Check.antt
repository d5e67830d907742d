-- ===== src/Frame/Check.antt =====
-- `checkFrameOrder` of h2_bundle.go, on the part of a `http2Framer` that it uses.
use oohttp.Base.{
  ℕ, ◌/◌, ◌%◌, Bool, true, false, not, ◌||◌, List, [], ◌∷◌, Option, none, some, ◌==◌, if◌then◌else◌,
}
use oohttp.Frame.{FrameHeader}

-- The part of `http2Framer` that the check uses; `last_frame` is `none` for nil.
pub record Framer : Type 0 where
  pub last_frame : Option FrameHeader
  pub last_header_stream : ℕ
  pub allow_illegal_reads : Bool

-- The three errors, of the code PROTOCOL_ERROR all.
pub data OrderError : Type 0 where
  expected_continuation : OrderError
  wrong_stream : OrderError
  unexpected_continuation : OrderError

abbrev pub is_headers : FrameHeader → Bool
is_headers f = f.type == 1

abbrev pub is_continuation : FrameHeader → Bool
is_continuation f = f.type == 9

-- `Flags.Has(http2FlagHeadersEndHeaders)`, of the flag 0x4
abbrev pub ends_headers : FrameHeader → Bool
ends_headers f = f.flags / 4 % 2 == 1

-- The test of `checkFrameOrder`.
unfoldable pub order_error : ℕ → FrameHeader → Option OrderError
order_error stream f =
    if not (stream == 0)
    then (if not (is_continuation f)
        then some expected_continuation
        else if not (f.stream_id == stream)
        then some wrong_stream
        else none)
    else if is_continuation f
    then some unexpected_continuation
    else none

-- The switch at its end.
unfoldable pub next_stream : ℕ → FrameHeader → ℕ
next_stream stream f =
    if is_headers f || is_continuation f
    then (if ends_headers f then 0 else f.stream_id)
    else stream

abbrev pub after_check : Framer → FrameHeader → Option OrderError → Framer × Option OrderError
after_check fr f (some e) = (fr, some e)
after_check fr f none =
    (record fr { last_header_stream = next_stream fr.last_header_stream f }, none)

-- `checkFrameOrder`
unfoldable pub check_frame_order : Framer → FrameHeader → Framer × Option OrderError
unfolding order_error next_stream
check_frame_order fr f =
    let fr' = record fr { last_frame = some f } in
    if fr.allow_illegal_reads
    then (fr', none)
    else after_check fr' f (order_error fr.last_header_stream f)

abbrev pub accepts_rest : Framer × Option OrderError → (Framer → Bool) → Bool
accepts_rest (fr, none) k = k fr
accepts_rest (fr, some _) k = false

-- Frames read one after the other up to the first error: whether there is none.
unfoldable pub accepts_all : List FrameHeader → Framer → Bool
unfolding check_frame_order
accepts_all [] fr = true
accepts_all (f ∷ fs) fr = accepts_rest (check_frame_order fr f) (accepts_all fs)

-- A framer that allows no illegal reads.
abbrev pub framer : Option FrameHeader → ℕ → Framer
framer l n = record { last_frame = l; last_header_stream = n; allow_illegal_reads = false }

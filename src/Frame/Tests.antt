-- ===== src/Frame/Tests.antt =====
-- A DATA frame of three bytes on stream 5, and what follows it.
use oohttp.Base.{ℕ, All, List, ◌≡◌, ◌↔◌, refl, true, false, none, arith, codes, [], ◌∷◌, ◌++◌}
use oohttp.Frame.RoundTrip.{WriteResult, end_write-WriteResult}
use oohttp.Frame.Check.{accepts_all, framer}
use oohttp.Frame.Order.{IsOnStream, Ordered, accepts_all_iff}
use oohttp.Frame.{FrameHeader, start_write, end_write}

end_write-WriteResult_example :
    WriteResult 0 1 5 (codes "abc") (codes "rest") (end_write (start_write 0 1 5 ++ codes "abc"))
end_write-WriteResult_example =
    end_write-WriteResult 0 1 5 (codes "abc") (codes "rest") (omega arith) (omega arith)
      (omega arith)

abbrev frame : ℕ → ℕ → ℕ → FrameHeader
frame t f id = record { valid = true; type = t; flags = f; length = 0; stream_id = id }

-- HEADERS and CONTINUATION of stream 3, then DATA.
abbrev block : List FrameHeader
block = frame 1 0 3 ∷ frame 9 4 3 ∷ frame 0 0 3 ∷ []

block-AreOnStream : All IsOnStream block
block-AreOnStream = ((λ _ e. cc), ((λ _ e. cc), ((λ e. cc), tt)))

accepts_all_iff_example : (accepts_all block (framer none 0) ≡ true) ↔ Ordered none block
accepts_all_iff_example = accepts_all_iff block block-AreOnStream

runs :
    (accepts_all block (framer none 0) ≡ true)
    × (accepts_all (frame 1 0 3 ∷ frame 0 0 3 ∷ []) (framer none 0) ≡ false)
unfolding accepts_all
runs = (refl, refl)

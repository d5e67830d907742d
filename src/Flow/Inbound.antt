-- ===== src/Flow/Inbound.antt =====
-- Inbound windows: what was announced and what is still unsent always fit the largest window.
use oohttp.Base.{
  ap, ◌∙◌, ◌&&◌, ltb, if◌then◌else◌, ◌+◌, ◌-◌, ◌≤◌, ◌<◌, ◌≡◌, true, ◌↔◌, ◌⊎◌, inl, inr, none, some,
  arith, ℕ,
}
use oohttp.Base.Int.{ℤ, pos, negsuc, pos_part, neg_part, int32-pos, int64-pos, +ℤ-pos}
use oohttp.Flow.{Inflow, inflow_add, inflow_take}

-- A proper window: nothing is negative, and what was announced and what is unsent fit together.
pub record IsWindow (f : Inflow) : Type 0 where
  pub avail_pos : neg_part f.avail ≡ 0
  pub unsent_pos : neg_part f.unsent ≡ 0
  pub bound : pos_part f.avail + pos_part f.unsent ≤ 0x7fff_ffff

-- `add` of `n` bytes: nothing is lost, what it returns is what the window announced to the peer
-- grows by, and what stays unsent is small against the minimum and against the window.
pub record Added (f : Inflow) (n : ℕ) (f' : Inflow) (sent : ℤ) : Type 0 where
  pub window : IsWindow f'
  pub total : pos_part f'.avail + pos_part f'.unsent ≡ pos_part f.avail + pos_part f.unsent + n
  pub sent_pos : neg_part sent ≡ 0
  pub announced : pos_part f'.avail ≡ pos_part f.avail + pos_part sent
  pub small : pos_part f'.unsent < 4096
  pub smaller : pos_part f'.unsent ≤ pos_part f'.avail

-- `add` over the two numbers of a window.
inflow_add-pos :
    (a u n : ℕ)
    → a + u ≤ 0x7fff_ffff
    → n < 0x4000_0000_0000_0000
    → inflow_add (record { avail = pos a; unsent = pos u }) (pos n) ≡ (
        if ltb 0x7fff_ffff (u + n + a)
        then none
        else if ltb (u + n) 4096 && ltb (u + n) a
        then some (record { avail = pos a; unsent = pos (u + n) }, pos 0)
        else some (record { avail = pos (a + (u + n)); unsent = pos 0 }, pos (u + n)))
unfolding inflow_add
inflow_add-pos a u n h k = ground (
  arith,
  +ℤ-pos u n,
  +ℤ-pos (u + n) a,
  +ℤ-pos a (u + n),
  int64-pos (u + n),
  int64-pos (u + n + a),
  int32-pos (u + n),
  int32-pos (a + (u + n)),
)

IsWindow-pos :
    (f : Inflow)
    → IsWindow f
    → f ≡ record { avail = pos (pos_part f.avail); unsent = pos (pos_part f.unsent) }
IsWindow-pos f w = ground arith

-- If `add` of less than 2^62 bytes to a proper window does not panic, the window is proper again, no
-- byte is lost, what is returned is what the announced window grows by, and what stays unsent is
-- less than 4096 and no more than the announced window.
pub inflow_add-Added :
    (f f' : Inflow) (n : ℕ) (sent : ℤ)
    → IsWindow f
    → n < 0x4000_0000_0000_0000
    → inflow_add f (pos n) ≡ some (f', sent)
    → Added f n f' sent
inflow_add-Added f f' n sent w h e =
    let small = inflow_add-pos (pos_part f.avail) (pos_part f.unsent) n w.bound h in
    let read : inflow_add f (pos n) ≡ _ =
      ap (λ g. inflow_add g (pos n)) (IsWindow-pos f w) ∙ small in
    ground (arith, read)

inflow_add-none_pos :
    (f : Inflow) (n : ℕ)
    → IsWindow f
    → n < 0x4000_0000_0000_0000
    → (inflow_add f (pos n) ≡ none) ↔ (0x7fff_ffff < pos_part f.avail + pos_part f.unsent + n)
inflow_add-none_pos f n w h =
    let small = inflow_add-pos (pos_part f.avail) (pos_part f.unsent) n w.bound h in
    let read : inflow_add f (pos n) ≡ _ =
      ap (λ g. inflow_add g (pos n)) (IsWindow-pos f w) ∙ small in
    ground (arith, read)

inflow_add-none_negsuc : (f : Inflow) (k : ℕ) → inflow_add f (negsuc k) ≡ none
unfolding inflow_add
inflow_add-none_negsuc f k = ground arith

-- `add` of `n` to a proper window, where `n` is less than 2^62, panics exactly if `n` is negative or
-- the window with what is unsent would pass 2^31 - 1.
pub inflow_add-none :
    (f : Inflow) (n : ℤ)
    → IsWindow f
    → pos_part n < 0x4000_0000_0000_0000
    → (inflow_add f n ≡ none)
      ↔ ((0 < neg_part n) ⊎ (0x7fff_ffff < pos_part f.avail + pos_part f.unsent + pos_part n))
inflow_add-none f (pos n) w h = (
  λ e. inr ((inflow_add-none_pos f n w h).0 e),
  λ c. elim c [ inl l ↦ absurd (omega arith) | inr l ↦ (inflow_add-none_pos f n w h).1 l ],
)
inflow_add-none f (negsuc k) w h = (λ e. inl (omega arith), λ c. inflow_add-none_negsuc f k)

-- `take` of an `uint32` from a proper window succeeds exactly if the announced window has room, takes
-- then what it is asked for and nothing else, and leaves a proper window.
pub inflow_take_lem :
    (f : Inflow) (n : ℕ)
    → IsWindow f
    → n < 0x1_0000_0000
    → (((inflow_take f n).1 ≡ true) ↔ (n ≤ pos_part f.avail))
      × IsWindow (inflow_take f n).0
      × (pos_part (inflow_take f n).0.avail
          ≡ (if (inflow_take f n).1 then pos_part f.avail - n else pos_part f.avail))
      × ((inflow_take f n).0.unsent ≡ f.unsent)
unfolding inflow_take
inflow_take_lem f n w h = ground arith

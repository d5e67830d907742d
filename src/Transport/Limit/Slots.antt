-- ===== src/Transport/Limit/Slots.antt =====
-- The connections of a host, dialed or open, stay within the limit, and none is free while a
-- request waits.
use mathlib.Core.Path.{subst}
use oohttp.Base.{
  if_either, ℕ, suc, ◌-◌, ◌≤◌, ◌<◌, ◌≡◌, refl, sym, ◌⊎◌, inl, inr, Bool, true, false, List, [], ◌∷◌,
  ◌++◌, Option, none, some, ltb, ◌==◌, if◌then◌else◌, arith,
}
use oohttp.Transport.Fifo.{Holds, drop_stale, len-Holds, push_back-Holds}
use oohttp.Transport.Limit.{
  Limits, Queued, Released, after_hand_over, cleaned_queue, dec_conns_per_host, decremented,
  dialing, hand_over, handed, new_queue, queue_for_dial, store_queue, underflow, unlimited, update,
  waits,
}
use oohttp.Transport.Limit.Waits.{
  IsHandedOver, cleaned_queue-Holds, hand_over-IsHandedOver, update-holds, update_at,
}
use oohttp.Transport.Queue.{WantConnQueue, len}

-- A host without waits, or one whose slots are all taken.
abbrev pub IsBusy : {W : Type 0} → ℕ → ℕ → WantConnQueue W → Type 0
IsBusy {W} limit count q = Holds [] q ⊎ ((ws : List W) × Holds ws q × (count ≡ limit))

-- The counts are those of the connections there are, within the limit, and whoever waits waits for
-- a slot.
pub record IsSound {W : Type 0} (live : ℕ → ℕ) (t : Limits W) : Type 0 where
  pub counted : (k : ℕ) → t.conns_per_host k ≡ live k
  pub bounded : (k : ℕ) → live k ≤ t.max_conns_per_host
  pub busy : (k : ℕ) → IsBusy t.max_conns_per_host (live k) (t.conns_per_host_wait k)

pub some_wait :
    {W : Type 0} (count limit : ℕ) (q : WantConnQueue W)
    → 0 < len q
    → IsBusy limit count q
    → (ws : List W) × Holds ws q × (count ≡ limit)
some_wait count limit q l (inl h) = ground (arith, len-Holds [] q h)
some_wait count limit q l (inr b) = b

no_wait : {W : Type 0} (q : WantConnQueue W) → len q ≡ 0 → (ws : List W) × Holds ws q → Holds [] q
no_wait q l ([], h) = h
no_wait q l (w ∷ ws, h) = ground (arith, len-Holds (w ∷ ws) q h)

-- The slots after a request asks for a connection, and after one is given back.
abbrev pub live_after_queue : {W : Type 0} → (ℕ → ℕ) → ℕ → Queued W → ℕ → ℕ
live_after_queue live k (dialing t) = update live k (suc (live k))
live_after_queue live k (waits t) = live

abbrev pub limits_of : {W : Type 0} → Queued W → Limits W
limits_of (dialing t) = t
limits_of (waits t) = t

module _ {W : Type 0} (waiting : W → Bool) where
  -- Another count for one host.
  set_count-IsSound :
      (live : ℕ → ℕ) (t : Limits W) (k n : ℕ)
      → IsSound live t
      → n ≤ t.max_conns_per_host
      → IsBusy t.max_conns_per_host n (t.conns_per_host_wait k)
      → IsSound (update live k n) (record t { conns_per_host = update t.conns_per_host k n })
  set_count-IsSound live t k n h l b = record {
    counted = λ j. choose_both (j == k) (h.counted j);
    bounded = λ j.
        if_either (λ m. m ≤ t.max_conns_per_host) (j == k) n (live j) (λ e. l) (λ e. h.bounded j);
    busy =
        update-holds (λ j m. IsBusy t.max_conns_per_host m (t.conns_per_host_wait j)) live k n b
          h.busy;
  }
    where
      choose_both : (c : Bool) {a b : ℕ} → a ≡ b → (if c then n else a) ≡ (if c then n else b)
      choose_both true e = refl
      choose_both false e = e

  -- Another queue for one host.
  set_queue-IsSound :
      (live : ℕ → ℕ) (t : Limits W) (k : ℕ) (q : WantConnQueue W)
      → IsSound live t
      → IsBusy t.max_conns_per_host (live k) q
      → IsSound live (record t { conns_per_host_wait = update t.conns_per_host_wait k q })
  set_queue-IsSound live t k q h b = record {
    counted = h.counted;
    bounded = h.bounded;
    busy =
        update-holds (λ j r. IsBusy t.max_conns_per_host (live j) r) t.conns_per_host_wait k q b
          h.busy;
  }

  abbrev pub IsSoundQueued : (ℕ → ℕ) → ℕ → Queued W → Type 0
  IsSoundQueued live k r = IsSound (live_after_queue live k r) (limits_of r)

  waits_of :
      (limit count : ℕ) (q : WantConnQueue W) → IsBusy limit count q → (ws : List W) × Holds ws q
  waits_of limit count q (inl h) = ([], h)
  waits_of limit count q (inr (ws, h, e)) = (ws, h)

  -- The count that the code writes is the one of the slots.
  recount-IsSound :
      (live : ℕ → ℕ) (t : Limits W) (k : ℕ) (f : ℕ → ℕ)
      → IsSound live t
      → f (live k) ≤ t.max_conns_per_host
      → IsBusy t.max_conns_per_host (f (live k)) (t.conns_per_host_wait k)
      → IsSound
          (update live k (f (live k)))
          (record t { conns_per_host = update t.conns_per_host k (f (t.conns_per_host k)) })
  recount-IsSound live t k f h l b =
      subst
        (λ c.
          IsSound (update live k (f (live k)))
            (record t { conns_per_host = update t.conns_per_host k (f c) }))
        (sym (h.counted k)) (set_count-IsSound live t k (f (live k)) h l b)

  no_waits :
      (limit count other : ℕ) (q : WantConnQueue W)
      → count < limit
      → IsBusy limit count q
      → IsBusy limit other q
  no_waits limit count other q l (inl h) = inl h
  no_waits limit count other q l (inr (ws, h, e)) = ground arith

  pub queue_for_dial-IsSound :
      (live : ℕ → ℕ) (t : Limits W) (k : ℕ) (w : W)
      → 0 < t.max_conns_per_host
      → IsSound live t
      → IsSoundQueued live k (queue_for_dial waiting k w t)
  unfolding queue_for_dial
  queue_for_dial-IsSound live t k w pos h =
      let n = h.counted k in
      let m = h.bounded k in
      let u = waits_of t.max_conns_per_host (live k) (t.conns_per_host_wait k) (h.busy k) in
      if_either (IsSoundQueued live k) (t.max_conns_per_host == 0) _ _ (λ e. ground arith)
        (λ e.
          if_either (IsSoundQueued live k) (ltb (t.conns_per_host k) t.max_conns_per_host) _ _
            (λ l. recount-IsSound live t k suc h (ground arith) (
              no_waits t.max_conns_per_host (live k) (suc (live k)) (t.conns_per_host_wait k)
                (ground arith) (h.busy k)))
            (λ l. set_queue-IsSound live t k _ h (
              inr (
                drop_stale waiting u.0 ++ (w ∷ []),
                push_back-Holds (drop_stale waiting u.0)
                    (cleaned_queue waiting (t.conns_per_host_wait k)) w
                    (cleaned_queue-Holds waiting u.0 (t.conns_per_host_wait k) u.1),
                ground arith,
              ))))

  -- A slot that is given back goes to a wait, or is free.
  abbrev pub IsSoundReleased : (ℕ → ℕ) → ℕ → Released W → Type 0
  IsSoundReleased live k unlimited = ⊥
  IsSoundReleased live k underflow = ⊥
  IsSoundReleased live k (handed w t) = IsSound live t
  IsSoundReleased live k (decremented t) = IsSound (update live k (live k - 1)) t

  stored :
      (limit count : ℕ) (q : WantConnQueue W)
      → IsBusy limit count q
      → IsBusy limit count (if len q == 0 then new_queue else q)
  stored limit count q b =
      if_either (IsBusy limit count) (len q == 0) _ _
        (λ e. inl (record { same = refl; in_range = omega arith })) (λ e. b)

  after_hand_over-IsSound :
      (live : ℕ → ℕ) (t : Limits W) (k : ℕ) (r : Option W × WantConnQueue W)
      → IsSound live t
      → live k ≡ t.max_conns_per_host
      → IsHandedOver r
      → IsSoundReleased live k (after_hand_over waiting k t r)
  after_hand_over-IsSound live t k (some w, q) h e (ws, o, z) =
      set_queue-IsSound live t k _ h (stored t.max_conns_per_host (live k) q (inr (ws, o, e)))
  after_hand_over-IsSound live t k (none, q) h e (ws, o, z) =
      let o2 : Holds [] q = subst (λ x. Holds x q) (z refl) o in
      let t2 = store_queue waiting k q t in
      let h2 = set_queue-IsSound live t k _ h (stored t.max_conns_per_host (live k) q (inl o2)) in
      let r = if len q == 0 then new_queue else q in
      recount-IsSound live t2 k (λ n. n - 1) h2 (omega (arith, e))
        (subst (IsBusy t.max_conns_per_host (live k - 1))
          (sym (update_at t.conns_per_host_wait k r))
          (stored t.max_conns_per_host (live k - 1) q (inl o2)))

  pub dec_conns_per_host-IsSound :
      (live : ℕ → ℕ) (t : Limits W) (k : ℕ)
      → 0 < t.max_conns_per_host
      → IsSound live t
      → 0 < live k
      → IsSoundReleased live k (dec_conns_per_host waiting k t)
  unfolding dec_conns_per_host
  dec_conns_per_host-IsSound live t k pos h l =
      let n = h.counted k in
      let m = h.bounded k in
      let q = t.conns_per_host_wait k in
      let P = IsSoundReleased live k in
      if_either P (t.max_conns_per_host == 0) _ _ (λ e. ground arith)
        (λ e.
          if_either P (t.conns_per_host k == 0) _ _ (λ z. ground arith)
            (λ z.
              if_either P (ltb 0 (len q)) _ _
                (λ s.
                  let b = some_wait (live k) t.max_conns_per_host q (ground arith) (h.busy k) in
                  after_hand_over-IsSound live t k (hand_over waiting (suc (len q)) q) h b.2 (
                    hand_over-IsHandedOver waiting (suc (len q)) b.0 q
                      (omega (arith, len-Holds b.0 q b.1)) b.1))
                (λ s.
                  recount-IsSound live t k (λ n. n - 1) h (omega arith)
                    (inl (
                      no_wait q (ground arith)
                        (waits_of t.max_conns_per_host (live k) q (h.busy k)))))))

-- ===== src/Transport/Limit/Bound.antt =====
-- What a transport with a limit comes to, however requests ask for connections and give them back.
use oohttp.Base.{
  if_either, ℕ, suc, ◌-◌, ◌≤◌, ◌<◌, ◌≡◌, ◌≢◌, refl, ◌∙◌, Bool, Option, none, some, ◌==◌, ltb, arith,
  inl,
}
use mathlib.Core.Path.{subst}
use oohttp.Transport.Limit.{
  Limits, Queued, Released, after_hand_over, dec_conns_per_host, decremented, hand_over, handed,
  new_queue, queue_for_dial, underflow, unlimited, update,
}
use oohttp.Transport.Limit.Slots.{
  IsSound, IsSoundReleased, dec_conns_per_host-IsSound, limits_of, live_after_queue,
  queue_for_dial-IsSound, some_wait,
}
use oohttp.Transport.Queue.{WantConnQueue, len}

-- The states that a new transport comes to, with the slots that are taken for each host: requests
-- ask for connections, and connections that are closed or not made are given back.
pub data Comes {W : Type 0} (limit : ℕ) : (ℕ → ℕ) → Limits W → Type 0 where
  new :
      Comes limit
        (λ k. 0)
        (record {
          max_conns_per_host = limit;
          conns_per_host = λ k. 0;
          conns_per_host_wait = λ k. new_queue;
        })
  asked :
      (live : ℕ → ℕ) (t : Limits W) (waiting : W → Bool) (k : ℕ) (w : W)
      → Comes limit live t
      → Comes limit
          (live_after_queue live k (queue_for_dial waiting k w t))
          (limits_of (queue_for_dial waiting k w t))
  reused :
      (live : ℕ → ℕ) (t u : Limits W) (waiting : W → Bool) (k : ℕ) (w : W)
      → Comes limit live t
      → 0 < live k
      → dec_conns_per_host waiting k t ≡ handed w u
      → Comes limit live u
  freed :
      (live : ℕ → ℕ) (t u : Limits W) (waiting : W → Bool) (k : ℕ)
      → Comes limit live t
      → 0 < live k
      → dec_conns_per_host waiting k t ≡ decremented u
      → Comes limit (update live k (live k - 1)) u

module _ {W : Type 0} (waiting : W → Bool) where
  queue_for_dial-max :
      (t : Limits W) (k : ℕ) (w : W)
      → (limits_of (queue_for_dial waiting k w t)).max_conns_per_host ≡ t.max_conns_per_host
  unfolding queue_for_dial
  queue_for_dial-max t k w =
      let P : Queued W → Type 0 = λ r. (limits_of r).max_conns_per_host ≡ t.max_conns_per_host in
      if_either P (t.max_conns_per_host == 0) _ _ (λ e. refl)
        (λ e.
          if_either P (ltb (t.conns_per_host k) t.max_conns_per_host) _ _ (λ l. refl) (λ l. refl))

  -- The limit of a result is that of before.
  abbrev KeepsLimit : ℕ → Released W → Type 0
  KeepsLimit limit unlimited = Unit
  KeepsLimit limit underflow = Unit
  KeepsLimit limit (handed w t) = t.max_conns_per_host ≡ limit
  KeepsLimit limit (decremented t) = t.max_conns_per_host ≡ limit

  after_hand_over-KeepsLimit :
      (k : ℕ) (t : Limits W) (r : Option W × WantConnQueue W)
      → KeepsLimit t.max_conns_per_host (after_hand_over waiting k t r)
  after_hand_over-KeepsLimit k t (some w, q) = refl
  after_hand_over-KeepsLimit k t (none, q) = refl

  dec_conns_per_host-KeepsLimit :
      (t : Limits W) (k : ℕ) → KeepsLimit t.max_conns_per_host (dec_conns_per_host waiting k t)
  unfolding dec_conns_per_host
  dec_conns_per_host-KeepsLimit t k =
      let P = KeepsLimit t.max_conns_per_host in
      let q = t.conns_per_host_wait k in
      if_either P (t.max_conns_per_host == 0) _ _ (λ e. tt)
        (λ e.
          if_either P (t.conns_per_host k == 0) _ _ (λ z. tt)
            (λ z.
              if_either P (ltb 0 (len q)) _ _
                (λ s. after_hand_over-KeepsLimit k t (hand_over waiting (suc (len q)) q))
                (λ s. refl)))

-- The invariant, with the limit.
abbrev IsLimited : {W : Type 0} → ℕ → (ℕ → ℕ) → Limits W → Type 0
IsLimited limit live t = (t.max_conns_per_host ≡ limit) × IsSound live t

Comes-IsLimited :
    {W : Type 0} (limit : ℕ) (live : ℕ → ℕ) (t : Limits W)
    → 0 < limit
    → Comes limit live t
    → IsLimited limit live t
Comes-IsLimited limit _ _ pos new = (
  refl,
  record {
    counted = λ k. refl;
    bounded = λ k. omega arith;
    busy = λ k. inl (record { same = refl; in_range = omega arith });
  },
)
Comes-IsLimited limit _ _ pos (asked live t waiting k w c) =
    let h = Comes-IsLimited limit live t pos c in
    (
      queue_for_dial-max waiting t k w ∙ h.0,
      queue_for_dial-IsSound waiting live t k w (omega (arith, h.0)) h.1,
    )
Comes-IsLimited limit _ _ pos (reused live t u waiting k w c l e) =
    let h = Comes-IsLimited limit live t pos c in
    let s = dec_conns_per_host-IsSound waiting live t k (omega (arith, h.0)) h.1 l in
    (
      subst (KeepsLimit waiting t.max_conns_per_host) e (dec_conns_per_host-KeepsLimit waiting t k)
          ∙ h.0,
      subst (IsSoundReleased waiting live k) e s,
    )
Comes-IsLimited limit _ _ pos (freed live t u waiting k c l e) =
    let h = Comes-IsLimited limit live t pos c in
    let s = dec_conns_per_host-IsSound waiting live t k (omega (arith, h.0)) h.1 l in
    (
      subst (KeepsLimit waiting t.max_conns_per_host) e (dec_conns_per_host-KeepsLimit waiting t k)
          ∙ h.0,
      subst (IsSoundReleased waiting live k) e s,
    )

-- The slots of a host stay within the limit, a slot that is taken can be given back without a
-- panic, and requests wait for a host only while its slots are all taken.
abbrev pub IsKept : {W : Type 0} → ℕ → (ℕ → ℕ) → Limits W → Type 0
IsKept {W} limit live t =
    (k : ℕ)
    → (live k ≤ limit)
      × ((waiting : W → Bool) → 0 < live k → dec_conns_per_host waiting k t ≢ underflow)
      × (0 < len (t.conns_per_host_wait k) → live k ≡ limit)

no_underflow :
    {W : Type 0} (waiting : W → Bool) (live : ℕ → ℕ) (k : ℕ) (r : Released W)
    → IsSoundReleased waiting live k r
    → r ≢ underflow
no_underflow waiting live k unlimited s e = absurd s
no_underflow waiting live k underflow s e = absurd s
no_underflow waiting live k (handed w t) s e = ground arith
no_underflow waiting live k (decremented t) s e = ground arith

-- With a `MaxConnsPerHost` of one or more, whatever sequence of calls of `queueForDial` and, for
-- connections that are held, `decConnsPerHost` a transport goes through, for every host: no more
-- connections are held than the limit, the panic of `decConnsPerHost` does not occur, and requests
-- wait only while as many connections are held as the limit allows.
pub Comes-IsKept :
    {W : Type 0} (limit : ℕ) (live : ℕ → ℕ) (t : Limits W)
    → 0 < limit
    → Comes limit live t
    → IsKept limit live t
Comes-IsKept limit live t pos c k =
    let h = Comes-IsLimited limit live t pos c in
    (
      omega (arith, h.1.bounded k, h.0),
      (λ waiting l.
          no_underflow waiting live k (dec_conns_per_host waiting k t)
            (dec_conns_per_host-IsSound waiting live t k (omega (arith, h.0)) h.1 l)),
      λ l.
          (some_wait (live k) t.max_conns_per_host (t.conns_per_host_wait k) l (h.1.busy k)).2
          ∙ h.0,
    )

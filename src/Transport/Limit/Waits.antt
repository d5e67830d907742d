-- ===== src/Transport/Limit/Waits.antt =====
-- Maps with one value changed, and the queue of the waits for a host.
use mathlib.Core.Path.{subst}
use oohttp.Base.{
  if_either, ℕ, zero, suc, ◌<◌, ◌≡◌, refl, inl, inr, Bool, true, List, [], ◌∷◌, Option, none,
  length, ◌==◌, arith, Bool-cases,
}
use oohttp.Transport.Fifo.{Holds, clean_front-IsCleaned, drop_stale, len-Holds, pop_front-IsPopped}
use oohttp.Transport.Limit.{cleaned_queue, hand_over, is_waiting, update}
use oohttp.Transport.Queue.{WantConnQueue, len, pop_front}

-- What the loop over the queue leaves: a queue, which is empty where no wait gets the connection.
abbrev pub IsHandedOver : {W : Type 0} → Option W × WantConnQueue W → Type 0
IsHandedOver {W} r = (ws : List W) × Holds ws r.1 × (r.0 ≡ none → ws ≡ [])

pub update-holds :
    {A : Type 0} (P : ℕ → A → Type 0) (m : ℕ → A) (k : ℕ) (a : A)
    → P k a
    → ((j : ℕ) → P j (m j))
    → (j : ℕ) → P j (update m k a j)
update-holds P m k a p h j = elim (Bool-cases (j == k)) [
  | inl e ↦ let q : k ≡ j = ground arith in rw e (subst (λ i. P i a) q p)
  | inr e ↦ rw e (h j)
]

pub update_at : {A : Type 0} (m : ℕ → A) (k : ℕ) (a : A) → update m k a k ≡ a
update_at m k a = let e : (k == k) ≡ true = ground arith in rw e refl

module _ {W : Type 0} (waiting : W → Bool) where
  pub hand_over-IsHandedOver :
      (fuel : ℕ) (ws : List W) (q : WantConnQueue W)
      → length ws < fuel
      → Holds ws q
      → IsHandedOver (hand_over waiting fuel q)
  unfolding hand_over
  hand_over-IsHandedOver zero ws q l h = ground arith
  hand_over-IsHandedOver (suc fuel) [] q l h =
      if_either IsHandedOver (len q == 0) _ _ (λ e. ([], h, λ e. refl))
        (λ e. ground (arith, len-Holds [] q h))
  hand_over-IsHandedOver (suc fuel) (w ∷ ws) q l h =
      let p = pop_front-IsPopped (w ∷ ws) q h in
      if_either IsHandedOver (len q == 0) _ _ (λ e. ground (arith, len-Holds (w ∷ ws) q h))
        (λ e.
          if_either IsHandedOver (is_waiting waiting (pop_front q).0) _ _
            (λ z. (ws, p.1, λ y. ground arith))
            (λ z. hand_over-IsHandedOver fuel ws (pop_front q).1 (omega arith) p.1))

  pub cleaned_queue-Holds :
      (ws : List W) (q : WantConnQueue W)
      → Holds ws q
      → Holds (drop_stale waiting ws) (cleaned_queue waiting q)
  cleaned_queue-Holds ws q h =
      let k = clean_front-IsCleaned waiting ws q h in rw (cleaned_queue, k.result) k.holds

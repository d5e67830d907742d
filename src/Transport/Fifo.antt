-- ===== src/Transport/Fifo.antt =====
-- The queue in two stages against the queue that is one list.
use oohttp.Base.{
  ℕ, zero, suc, ◌≤◌, ◌<◌, ◌≡◌, refl, sym, ap, ◌∙◌, Bool, true, false, not, ◌||◌, List, [], ◌∷◌,
  ◌++◌, Option, none, some, leb, ltb, length, if◌then◌else◌, drop, map, arith, length-append,
  length-drop, Bool-cases, inl, inr,
}
use oohttp.Transport.Queue.{
  WantConnQueue, clean_front, clean_rounds, clear_at, elem_at, len, no_elements, peek_front,
  pop_front, push_back, swap_stages, take_head,
}

or_true : (b : Bool) → (b || true) ≡ true
or_true true = refl
or_true false = refl

module _ {A : Type 0} where
  -- What the queue holds, in order.
  abbrev pub items : WantConnQueue A → List (Option A)
  items q = drop q.head_pos q.head ++ q.tail

  -- A queue that holds these waits.
  pub record Holds (ws : List A) (q : WantConnQueue A) : Type 0 where
    pub same : items q ≡ map some ws
    pub in_range : q.head_pos ≤ length q.head

  append_assoc : (a b c : List (Option A)) → (a ++ b) ++ c ≡ a ++ (b ++ c)
  append_assoc [] b c = refl
  append_assoc (x ∷ a) b c = ap (◌∷◌ x) (append_assoc a b c)

  map-append : (ws : List A) (w : A) → map some ws ++ (some w ∷ []) ≡ map some (ws ++ (w ∷ []))
  map-append [] w = refl
  map-append (v ∷ ws) w = ap (◌∷◌ (some v)) (map-append ws w)

  pub push_back-Holds :
      (ws : List A) (q : WantConnQueue A) (w : A)
      → Holds ws q
      → Holds (ws ++ (w ∷ [])) (push_back q w)
  unfolding push_back
  push_back-Holds ws q w h = record {
    same =
        sym (append_assoc (drop q.head_pos q.head) q.tail (some w ∷ []))
        ∙ ap (λ l. l ++ (some w ∷ [])) h.same
        ∙ map-append ws w;
    in_range = h.in_range;
  }

  drop-clear_at : (i : ℕ) (h : List (Option A)) → drop (suc i) (clear_at i h) ≡ drop (suc i) h
  unfolding clear_at
  drop-clear_at zero [] = refl
  drop-clear_at (suc i) [] = refl
  drop-clear_at zero (w ∷ h) = refl
  drop-clear_at (suc i) (w ∷ h) = drop-clear_at i h

  length-clear_at : (i : ℕ) (h : List (Option A)) → length (clear_at i h) ≡ length h
  unfolding clear_at
  length-clear_at zero [] = refl
  length-clear_at (suc i) [] = refl
  length-clear_at zero (w ∷ h) = refl
  length-clear_at (suc i) (w ∷ h) = ap suc (length-clear_at i h)

  drop-elem_at :
      (i : ℕ) (h : List (Option A)) → i < length h → drop i h ≡ elem_at h i ∷ drop (suc i) h
  drop-elem_at i [] l = ground arith
  drop-elem_at zero (w ∷ h) l = refl
  drop-elem_at (suc i) (w ∷ h) l = drop-elem_at i h (omega arith)

  abbrev pub first : List A → Option A
  first [] = none
  first (w ∷ ws) = some w

  abbrev pub rest : List A → List A
  rest [] = []
  rest (w ∷ ws) = ws

  drop_all : (i : ℕ) (h : List (Option A)) → length h ≤ i → drop i h ≡ []
  drop_all zero [] l = refl
  drop_all (suc i) [] l = refl
  drop_all zero (w ∷ h) l = ground arith
  drop_all (suc i) (w ∷ h) l = drop_all i h (omega arith)

  append_nil : (h : List (Option A)) → h ++ [] ≡ h
  append_nil [] = refl
  append_nil (w ∷ h) = ap (◌∷◌ w) (append_nil h)

  -- The head, and what `popFront` leaves, where the first stage has an element.
  take_head-items :
      (q : WantConnQueue A)
      → q.head_pos < length q.head
      → (take_head q).0 ∷ items (take_head q).1 ≡ items q
  take_head-items q l =
      ap (λ d. elem_at q.head q.head_pos ∷ (d ++ q.tail)) (drop-clear_at q.head_pos q.head)
      ∙ ap (λ d. d ++ q.tail) (sym (drop-elem_at q.head_pos q.head l))

  -- The first of the waits, and the queue of the others.
  abbrev pub IsPopped : List A → Option A × WantConnQueue A → Type 0
  IsPopped ws r = (r.0 ≡ first ws) × Holds (rest ws) r.1

  split_items :
      (ws : List A) (r : Option A × WantConnQueue A)
      → r.0 ∷ items r.1 ≡ map some ws
      → r.1.head_pos ≤ length r.1.head
      → IsPopped ws r
  split_items [] r e l = ground arith
  split_items (w ∷ ws) r e l = (ground arith, record { same = ground arith; in_range = l })

  take_head-IsPopped :
      (ws : List A) (q : WantConnQueue A)
      → Holds ws q
      → q.head_pos < length q.head
      → IsPopped ws (take_head q)
  take_head-IsPopped ws q h l =
      split_items ws (take_head q) (take_head-items q l ∙ h.same)
        (omega (arith, length-clear_at q.head_pos q.head))

  tail_only :
      (ws : List A) (q : WantConnQueue A)
      → Holds ws q
      → length q.head ≤ q.head_pos
      → q.tail ≡ map some ws
  tail_only ws q h l = ap (λ d. d ++ q.tail) (sym (drop_all q.head_pos q.head l)) ∙ h.same

  swap_stages-Holds :
      (ws : List A) (q : WantConnQueue A) → q.tail ≡ map some ws → Holds ws (swap_stages q)
  swap_stages-Holds ws q e = record { same = append_nil q.tail ∙ e; in_range = omega arith }

  length-map : (ws : List A) → length (map some ws) ≡ length ws
  length-map [] = refl
  length-map (w ∷ ws) = ap suc (length-map ws)

  swapped :
      (ws : List A) (q : WantConnQueue A)
      → Holds ws q
      → q.tail ≡ map some ws
      → IsPopped ws (if no_elements q.tail then (none, q) else take_head (swap_stages q))
  swapped [] q h e = rw (ap no_elements e) (refl, h)
  swapped (w ∷ ws) q h e = rw (ap no_elements e) (
      take_head-IsPopped (w ∷ ws) (swap_stages q) (swap_stages-Holds (w ∷ ws) q e)
        (omega (arith, ap length e)))

  pub pop_front-IsPopped :
      (ws : List A) (q : WantConnQueue A) → Holds ws q → IsPopped ws (pop_front q)
  unfolding pop_front
  pop_front-IsPopped ws q h = elim (Bool-cases (leb (length q.head) q.head_pos)) [
    | inl e ↦ rw e (swapped ws q h (tail_only ws q h (ground arith)))
    | inr e ↦ rw e (take_head-IsPopped ws q h (ground arith))
  ]

  peek_front-first : (ws : List A) (q : WantConnQueue A) → Holds ws q → peek_front q ≡ first ws
  unfolding peek_front
  peek_front-first ws q h = elim (Bool-cases (ltb q.head_pos (length q.head))) [
    | inl e ↦ rw e ((take_head-IsPopped ws q h (ground arith)).0)
    | inr e ↦ rw e (first_of_tail ws q (tail_only ws q h (ground arith)))
  ]
    where
      first_of_tail :
          (ws : List A) (q : WantConnQueue A) → q.tail ≡ map some ws → elem_at q.tail 0 ≡ first ws
      first_of_tail [] q e = ap (λ t. elem_at t 0) e
      first_of_tail (w ∷ ws) q e = ap (λ t. elem_at t 0) e

  pub len-Holds : (ws : List A) (q : WantConnQueue A) → Holds ws q → len q ≡ length ws
  unfolding len
  len-Holds ws q h = omega (
    arith,
    ap length h.same,
    length-map ws,
    length-append (drop q.head_pos q.head) q.tail,
    length-drop q.head_pos q.head,
    h.in_range,
  )

  -- Without the waits at the front that wait no longer.
  abbrev pub drop_stale : (A → Bool) → List A → List A
  drop_stale waiting [] = []
  drop_stale waiting (w ∷ ws) = if waiting w then w ∷ ws else drop_stale waiting ws

  abbrev pub stale_first : (A → Bool) → List A → Bool
  stale_first waiting [] = false
  stale_first waiting (w ∷ ws) = not (waiting w)

  -- The queue after `cleanFront`, and what it returns.
  pub record IsCleaned (after : List A) (cleaned : Bool) (r : Option (Bool × WantConnQueue A))
      : Type 0 where
    pub left : WantConnQueue A
    pub result : r ≡ some (cleaned, left)
    pub holds : Holds after left

  clean_rounds-IsCleaned :
      (waiting : A → Bool) (fuel : ℕ) (c : Bool) (ws : List A) (q : WantConnQueue A)
      → length ws < fuel
      → Holds ws q
      → IsCleaned
          (drop_stale waiting ws)
          (c || stale_first waiting ws)
          (clean_rounds waiting fuel c q)
  unfolding clean_rounds
  clean_rounds-IsCleaned waiting zero c ws q l h = ground arith
  clean_rounds-IsCleaned waiting (suc fuel) c [] q l h =
      rw (peek_front-first [] q h) (record { left = q; result = ground arith; holds = h })
  clean_rounds-IsCleaned waiting (suc fuel) c (w ∷ ws) q l h = elim (Bool-cases (waiting w)) [
    | inl e ↦
        rw (peek_front-first (w ∷ ws) q h, e)
          (record { left = q; result = ground arith; holds = h })
    | inr e ↦
        rw (peek_front-first (w ∷ ws) q h, e, or_true c)
          (clean_rounds-IsCleaned waiting fuel true ws (pop_front q).1 (omega arith)
            (pop_front-IsPopped (w ∷ ws) q h).1)
  ]

  pub clean_front-IsCleaned :
      (waiting : A → Bool) (ws : List A) (q : WantConnQueue A)
      → Holds ws q
      → IsCleaned (drop_stale waiting ws) (stale_first waiting ws) (clean_front waiting q)
  unfolding clean_front
  clean_front-IsCleaned waiting ws q h =
      clean_rounds-IsCleaned waiting (suc (len q)) false ws q (omega (arith, len-Holds ws q h)) h

-- ===== src/Transport/Queue.antt =====
-- transport.go: `wantConnQueue`, a queue in two stages.
use oohttp.Base.{
  ℕ, zero, suc, ◌+◌, ◌-◌, Bool, true, false, not, List, [], ◌∷◌, ◌++◌, Option, none, some, leb, ltb,
  length, if◌then◌else◌, get_elem?,
}

module _ {A : Type 0} where
  -- `w[i] = nil`, where `i` is in range.
  unfoldable pub clear_at : ℕ → List (Option A) → List (Option A)
  clear_at i [] = []
  clear_at zero (w ∷ ws) = none ∷ ws
  clear_at (suc i) (w ∷ ws) = w ∷ clear_at i ws

  -- `ws[i]`; nil stands for out of range, which the callers rule out.
  abbrev pub elem_at : List (Option A) → ℕ → Option A
  elem_at ws i = elim (get_elem? ws i) [ none ↦ none | some w ↦ w ]

-- `wantConnQueue`, whose elements are pointers: nil or some wait.
pub record WantConnQueue (A : Type 0) : Type 0 where
  pub head : List (Option A)
  pub head_pos : ℕ
  pub tail : List (Option A)

module _ {A : Type 0} where
  -- `len`
  unfoldable pub len : WantConnQueue A → ℕ
  len q = length q.head - q.head_pos + length q.tail

  -- `pushBack`
  unfoldable pub push_back : WantConnQueue A → A → WantConnQueue A
  push_back q w = record q { tail = q.tail ++ (some w ∷ []) }

  -- The end of `popFront`: the element at `headPos`, which becomes nil.
  abbrev pub take_head : WantConnQueue A → Option A × WantConnQueue A
  take_head q = (
    elem_at q.head q.head_pos,
    record q { head = clear_at q.head_pos q.head; head_pos = suc q.head_pos },
  )

  -- The tail as the new head.
  abbrev pub swap_stages : WantConnQueue A → WantConnQueue A
  swap_stages q = record { head = q.tail; head_pos = 0; tail = [] }

  abbrev pub no_elements : List (Option A) → Bool
  no_elements [] = true
  no_elements (_ ∷ _) = false

  -- `popFront`
  unfoldable pub pop_front : WantConnQueue A → Option A × WantConnQueue A
  unfolding clear_at
  pop_front q =
      if leb (length q.head) q.head_pos
      then if no_elements q.tail then (none, q) else take_head (swap_stages q)
      else take_head q

  -- `peekFront`
  unfoldable pub peek_front : WantConnQueue A → Option A
  peek_front q =
      if ltb q.head_pos (length q.head) then elem_at q.head q.head_pos else elem_at q.tail 0

  module _ (waiting : A → Bool) where
    abbrev pub is_stale : Option A → Bool
    is_stale none = false
    is_stale (some w) = not (waiting w)

    -- The loop of `cleanFront`, so many rounds; `none` where they do not end it.
    unfoldable pub clean_rounds : ℕ → Bool → WantConnQueue A → Option (Bool × WantConnQueue A)
    unfolding peek_front pop_front
    clean_rounds zero cleaned q = none
    clean_rounds (suc fuel) cleaned q =
        let rest = clean_rounds fuel true (pop_front q).1 in
        if is_stale (peek_front q) then rest else some (cleaned, q)

    -- `cleanFront`
    unfoldable pub clean_front : WantConnQueue A → Option (Bool × WantConnQueue A)
    unfolding clean_rounds len
    clean_front q = clean_rounds (suc (len q)) false q

-- ===== src/Index/Known.antt =====
-- The index hands out only patterns that were added to it.
use oohttp.Base.{
  ℕ, ◌+◌, ◌-◌, ◌&&◌, List, [], ◌∷◌, ◌≡◌, refl, ◌⊎◌, inl, inr, Option, none, some, ◌==◌,
  if◌then◌else◌, Bytes, equal, Bool-cases, In, In-concat_cases, length,
}
use oohttp.Index.{
  Slot, Index, slot_at, append_at, index_key, index_from, add_to_index, Choice, consider, is_below,
  choose, no_choice, ends_in_dollar, apply, apply_all, apply_slots, or_next,
  possibly_conflicting_patterns,
}
use oohttp.Pattern.{Segment, Pattern, ends_in_multi, slash}

abbrev pub InSlots : Pattern → List Slot → Type 0
InSlots x [] = ⊥
InSlots x (s ∷ slots) = In x s.pats ⊎ InSlots x slots

abbrev pub InIndex : Pattern → Index → Type 0
InIndex x idx = In x idx.multis ⊎ InSlots x idx.segments

slot_at-InSlots :
    (slots : List Slot) (i : ℕ) (t : Bytes) (x : Pattern)
    → In x (slot_at slots i t)
    → InSlots x slots
unfolding slot_at
slot_at-InSlots [] i t x h = h
slot_at-InSlots (s ∷ slots) i t x h = elim (Bool-cases (s.pos == i && equal s.s t)) [
  | inl here ↦ inl (rw here at h)
  | inr later ↦ inr (slot_at-InSlots slots i t x (rw later at h))
]

append_at-InSlots :
    (slots : List Slot) (i : ℕ) (t : Bytes) (p x : Pattern)
    → InSlots x (append_at slots i t p)
    → InSlots x slots ⊎ (x ≡ p)
unfolding append_at
append_at-InSlots [] i t p x (inl (inl e)) = inr e
append_at-InSlots [] i t p x (inl (inr h)) = absurd h
append_at-InSlots [] i t p x (inr h) = absurd h
append_at-InSlots (s ∷ slots) i t p x h = elim (Bool-cases (s.pos == i && equal s.s t)) [
  | inl here ↦ elim (rw here at h) [
    | inl now ↦ elim (In-concat_cases x s.pats p now) [ inl k ↦ inl (inl k) | inr e ↦ inr e ]
    | inr later ↦ inl (inr later)
  ]
  | inr other ↦ elim (rw other at h) [
    | inl now ↦ inl (inl now)
    | inr later ↦ elim (append_at-InSlots slots i t p x later) [
      | inl k ↦ inl (inr k)
      | inr e ↦ inr e
    ]
  ]
]

index_from-InSlots :
    (pos : ℕ) (segs : List Segment) (p : Pattern) (slots : List Slot) (x : Pattern)
    → InSlots x (index_from pos segs p slots)
    → InSlots x slots ⊎ (x ≡ p)
unfolding index_from
index_from-InSlots pos [] p slots x h = inl h
index_from-InSlots pos (s ∷ segs) p slots x h =
    elim (index_from-InSlots (pos + 1) segs p (append_at slots pos (index_key s) p) x h) [
      | inl k ↦ append_at-InSlots slots pos (index_key s) p x k
      | inr e ↦ inr e
    ]

pub add_to_index-InIndex :
    (idx : Index) (p x : Pattern) → InIndex x (add_to_index idx p) → InIndex x idx ⊎ (x ≡ p)
unfolding add_to_index
add_to_index-InIndex idx p x h = elim (Bool-cases (ends_in_multi p.segments)) [
  | inl m ↦ elim (rw m at h) [
    | inl k ↦ elim (In-concat_cases x idx.multis p k) [ inl j ↦ inl (inl j) | inr e ↦ inr e ]
    | inr k ↦ inl (inr k)
  ]
  | inr o ↦ elim (rw o at h) [
    | inl k ↦ inl (inl k)
    | inr k ↦ elim (index_from-InSlots 0 p.segments p idx.segments x k) [
      | inl j ↦ inl (inr j)
      | inr e ↦ inr e
    ]
  ]
]

-- The lists chosen come from the slots.
abbrev IsChosen : Index → Choice → Type 0
IsChosen idx c =
    ((x : Pattern) → In x c.lmin → InSlots x idx.segments)
    × ((x : Pattern) → In x c.wmin → InSlots x idx.segments)

choose-IsChosen :
    (idx : Index) (i : ℕ) (segs : List Segment) (c : Choice)
    → IsChosen idx c
    → IsChosen idx (choose idx i segs c)
unfolding choose
choose-IsChosen idx i [] c h = h
choose-IsChosen idx i (s ∷ segs) c h = elim (Bool-cases s.multi) [
  | inl m ↦ rw m h
  | inr o ↦ rw o (choose-IsChosen idx (i + 1) segs _ (step_kept))
]
  where
    ls : List Pattern
    ls = slot_at idx.segments i s.s

    ws : List Pattern
    ws = slot_at idx.segments i []

    considered : IsChosen idx (consider ls ws c)
    considered = elim (Bool-cases (is_below (length ls + length ws) c.least)) [
      | inl b ↦ rw b (
        λ x k. slot_at-InSlots idx.segments i s.s x k,
        λ x k. slot_at-InSlots idx.segments i [] x k,
      )
      | inr b ↦ rw b h
    ]

    step_kept : IsChosen idx (if s.wild then c else consider ls ws c)
    step_kept = elim (Bool-cases s.wild) [ inl w ↦ rw w h | inr v ↦ rw v considered ]

module _ {E : Type 0} (f : Pattern → Option E) (e : E) where
  or_next-some : (a b : Option E) → or_next f a b ≡ some e → (a ≡ some e) ⊎ (b ≡ some e)
  or_next-some none b h = inr h
  or_next-some (some x) b h = inl h

  apply-some : (ps : List Pattern) → apply f ps ≡ some e → (x : Pattern) × In x ps × (f x ≡ some e)
  unfolding apply
  apply-some [] h = cc
  apply-some (p ∷ ps) h = elim (or_next-some (f p) (apply f ps) h) [
    | inl k ↦ (p, inl refl, k)
    | inr k ↦ let (x, i, j) = apply-some ps k in (x, inr i, j)
  ]

  apply_all-some :
      (slots : List Slot)
      → apply_all f slots ≡ some e
      → (x : Pattern) × InSlots x slots × (f x ≡ some e)
  unfolding apply_all
  apply_all-some [] h = cc
  apply_all-some (s ∷ slots) h = elim (or_next-some (apply f s.pats) (apply_all f slots) h) [
    | inl k ↦ let (x, i, j) = apply-some s.pats k in (x, inl i, j)
    | inr k ↦ let (x, i, j) = apply_all-some slots k in (x, inr i, j)
  ]

  apply_slots-some :
      (idx : Index) (segs : List Segment)
      → apply_slots f idx segs ≡ some e
      → (x : Pattern) × InSlots x idx.segments × (f x ≡ some e)
  apply_slots-some idx segs h = elim (Bool-cases (ends_in_dollar segs)) [
    | inl d ↦
        let (x, i, j) =
          apply-some (slot_at idx.segments (length segs - 1) slash) (rw (d, apply_slots) at h) in
        (x, slot_at-InSlots idx.segments (length segs - 1) slash x i, j)
    | inr o ↦ elim (Bool-cases c.has_lit) [
      | inl l ↦ elim (or_next-some (apply f c.lmin) (apply f c.wmin) (rw (o, l) at h)) [
        | inl k ↦ let (x, i, j) = apply-some c.lmin k in (x, chosen.0 x i, j)
        | inr k ↦ let (x, i, j) = apply-some c.wmin k in (x, chosen.1 x i, j)
      ]
      | inr a ↦ apply_all-some idx.segments (rw (o, a) at h)
    ]
  ]
    where
      c : Choice
      c = choose idx 0 segs no_choice

      chosen : IsChosen idx c
      chosen = choose-IsChosen idx 0 segs no_choice (λ x k. absurd k, λ x k. absurd k)

  -- An error `e` that is returned is one that `f` reports of a pattern of the index.
  pub possibly_conflicting_patterns-some :
      (idx : Index) (pat : Pattern)
      → possibly_conflicting_patterns f idx pat ≡ some e
      → (x : Pattern) × InIndex x idx × (f x ≡ some e)
  unfolding possibly_conflicting_patterns
  possibly_conflicting_patterns-some idx pat h =
      elim (or_next-some (apply f idx.multis) (apply_slots f idx pat.segments) h) [
        | inl k ↦ let (x, i, j) = apply-some idx.multis k in (x, inl i, j)
        | inr k ↦ let (x, i, j) = apply_slots-some idx pat.segments k in (x, inr i, j)
      ]

-- ===== src/Index/Slots.antt =====
-- The slots of the index hold every pattern that was added, at each of its positions.
use oohttp.Base.{
  ℕ, zero, suc, ◌+◌, true, false, ◌&&◌, List, [], ◌∷◌, ◌++◌, ◌≡◌, refl, ◌⊎◌, inl, inr, some, arith,
  ◌==◌, if◌then◌else◌, Bytes, equal, equal_iff, Bool-cases, In, In-append_left, In-concat,
  get_elem?,
}
use oohttp.Index.{Slot, Index, slot_at, append_at, index_key, index_from, add_to_index}
use oohttp.Pattern.{Segment, Pattern, ends_in_multi}

slot_at-append_at :
    (slots : List Slot) (i j : ℕ) (s t : Bytes) (p : Pattern)
    → slot_at (append_at slots i s p) j t
      ≡ (if i == j && equal s t then slot_at slots j t ++ (p ∷ []) else slot_at slots j t)
unfolding slot_at append_at
slot_at-append_at [] i j s t p = ground (arith, equal_iff s t)
slot_at-append_at (x ∷ xs) i j s t p =
    ground (arith, equal_iff s t, equal_iff x.s s, equal_iff x.s t, slot_at-append_at xs i j s t p)

append_at-keeps :
    (slots : List Slot) (i j : ℕ) (s t : Bytes) (p q : Pattern)
    → In q (slot_at slots j t)
    → In q (slot_at (append_at slots i s p) j t)
append_at-keeps slots i j s t p q h = elim (Bool-cases (i == j && equal s t)) [
  | inl same ↦
      rw (slot_at-append_at slots i j s t p, same) (In-append_left q (slot_at slots j t) (p ∷ []) h)
  | inr other ↦ rw (slot_at-append_at slots i j s t p, other) h
]

append_at-adds :
    (slots : List Slot) (i j : ℕ) (s t : Bytes) (p : Pattern)
    → i ≡ j
    → s ≡ t
    → In p (slot_at (append_at slots i s p) j t)
append_at-adds slots i j s t p e f =
    let same : i == j && equal s t ≡ true = ground (arith, equal_iff s t) in
    rw (slot_at-append_at slots i j s t p, same) (In-concat (slot_at slots j t) p)

pub index_from-keeps :
    (pos : ℕ) (segs : List Segment) (p q : Pattern) (slots : List Slot) (j : ℕ) (t : Bytes)
    → In q (slot_at slots j t)
    → In q (slot_at (index_from pos segs p slots) j t)
unfolding index_from
index_from-keeps pos [] p q slots j t h = h
index_from-keeps pos (x ∷ segs) p q slots j t h =
    index_from-keeps (pos + 1) segs p q (append_at slots pos (index_key x) p) j t
      (append_at-keeps slots pos j (index_key x) t p q h)

pub index_from-adds :
    (pos : ℕ) (segs : List Segment) (p : Pattern) (slots : List Slot) (i j : ℕ) (x : Segment)
    → get_elem? segs i ≡ some x
    → pos + i ≡ j
    → In p (slot_at (index_from pos segs p slots) j (index_key x))
unfolding index_from
index_from-adds pos [] p slots i j x h e = cc
index_from-adds pos (y ∷ segs) p slots zero j x h e =
    index_from-keeps (pos + 1) segs p p (append_at slots pos (index_key y) p) j (index_key x)
      (append_at-adds slots pos j (index_key y) (index_key x) p (omega arith) (ground arith))
index_from-adds pos (y ∷ segs) p slots (suc i) j x h e =
    index_from-adds (pos + 1) segs p (append_at slots pos (index_key y) p) i j x h (omega arith)

-- A pattern that was added: among the multi patterns, or at each of its positions.
abbrev pub IsIndexed : Index → Pattern → Type 0
IsIndexed idx p =
    ((ends_in_multi p.segments ≡ true) × In p idx.multis)
    ⊎ ((ends_in_multi p.segments ≡ false)
        × ((i : ℕ) (x : Segment)
            → get_elem? p.segments i ≡ some x
            → In p (slot_at idx.segments i (index_key x))))

pub add_to_index-IsIndexed_self : (idx : Index) (p : Pattern) → IsIndexed (add_to_index idx p) p
unfolding add_to_index
add_to_index-IsIndexed_self idx p = elim (Bool-cases (ends_in_multi p.segments)) [
  | inl m ↦ rw m (inl (refl, In-concat idx.multis p))
  | inr o ↦
      rw o (inr (refl, λ i x h. index_from-adds 0 p.segments p idx.segments i i x h (omega arith)))
]

pub add_to_index-IsIndexed :
    (idx : Index) (p q : Pattern) → IsIndexed idx q → IsIndexed (add_to_index idx p) q
unfolding add_to_index
add_to_index-IsIndexed idx p q (inl (m, h)) = elim (Bool-cases (ends_in_multi p.segments)) [
  | inl n ↦ rw n (inl (m, In-append_left q idx.multis (p ∷ []) h))
  | inr o ↦ rw o (inl (m, h))
]
add_to_index-IsIndexed idx p q (inr (m, h)) = elim (Bool-cases (ends_in_multi p.segments)) [
  | inl n ↦ rw n (inr (m, h))
  | inr o ↦
      rw o
        (inr (m, λ i x g. index_from-keeps 0 p.segments p q idx.segments i (index_key x) (h i x g)))
]

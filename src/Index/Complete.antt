-- ===== src/Index/Complete.antt =====
-- `possiblyConflictingPatterns` leaves out no indexed pattern that conflicts.
use mathlib.Core.Path.{subst}
use native.Mathlib.Nat.{add-zero, zero-add}
use oohttp.Base.{
  ℕ, zero, suc, ◌+◌, ◌-◌, Bool, true, false, ◌&&◌, List, [], ◌∷◌, ◌≡◌, ◌≢◌, refl, ◌⊎◌, inl, inr,
  Option, none, some, arith, ◌==◌, if◌then◌else◌, Bytes, equal, equal_iff, Bool-cases, In,
  get_elem?, length,
}
use oohttp.Index.Slots.{IsIndexed}
use oohttp.Index.{
  Slot, Index, slot_at, index_key, Choice, consider, is_below, choose, no_choice, ends_in_dollar,
  apply, apply_all, apply_slots, or_next, possibly_conflicting_patterns,
}
use oohttp.Pattern.Meaning.{IsMultiLast}
use oohttp.Pattern.{
  Segment, Pattern, Relationship, equivalent, disjoint, last_segment, ends_in_multi, slash,
  compare_segments, compare_loop, compare_rest, compare_paths, combine_relationships, is_disjoint,
}

-- What stands at the position of a literal `x`, in a pattern that is not disjoint: an equal
-- literal, or a wildcard if the literal is no trailing slash.
abbrev pub Agrees : Segment → Segment → Type 0
Agrees x y = (index_key y ≡ x.s) ⊎ ((index_key y ≡ []) × (equal x.s slash ≡ false))

compare_segments-Agrees :
    (x y : Segment)
    → x.multi ≡ false
    → x.wild ≡ false
    → y.multi ≡ false
    → compare_segments x y ≢ disjoint
    → Agrees x y
unfolding compare_segments
compare_segments-Agrees x y m w n d = ground (arith, equal_iff x.s y.s, equal_iff x.s slash)

combine-disjoint : (r : Relationship) → combine_relationships r disjoint ≡ disjoint
unfolding combine_relationships
combine-disjoint r = ground arith

no_multi_head :
    (y : Segment) (ys : List Segment)
    → IsMultiLast (y ∷ ys)
    → ends_in_multi (y ∷ ys) ≡ false
    → (y.multi ≡ false) × (ends_in_multi ys ≡ false)
unfolding ends_in_multi last_segment
no_multi_head y [] w h = (h, refl)
no_multi_head y (z ∷ zs) w h = ground arith

disjoint-step :
    (r s c : Relationship)
    → s ≡ disjoint
    → (if is_disjoint (combine_relationships r s) then combine_relationships r s else c) ≡ disjoint
disjoint-step r s c h = rw (h, combine-disjoint r)

disjoint-later : (r c : Relationship) → c ≡ disjoint → (if is_disjoint r then r else c) ≡ disjoint
disjoint-later r c h = ground arith

compare_loop-Agrees :
    (m1 : Bool) (r : Relationship) (xs ys : List Segment) (i : ℕ) (x : Segment)
    → IsMultiLast ys
    → ends_in_multi ys ≡ false
    → compare_loop m1 false r xs ys ≢ disjoint
    → get_elem? xs i ≡ some x
    → x.multi ≡ false
    → x.wild ≡ false
    → (y : Segment) × (get_elem? ys i ≡ some y) × Agrees x y
unfolding compare_loop
compare_loop-Agrees m1 r [] ys i x w n d g m l = cc
compare_loop-Agrees m1 r (z ∷ xs) [] i x w n d g m l =
    absurd (d (unfold compare_rest in ground arith))
compare_loop-Agrees m1 r (z ∷ xs) (y ∷ ys) zero x w n d g m l = (
  y,
  refl,
  compare_segments-Agrees x y m l (no_multi_head y ys w n).0
      (λ q. let same : z ≡ x = cc in d (disjoint-step r (compare_segments z y) _ (rw same q))),
)
compare_loop-Agrees m1 r (z ∷ xs) (y ∷ ys) (suc i) x w n d g m l =
    compare_loop-Agrees m1 (combine_relationships r (compare_segments z y)) xs ys i x w.1
      (no_multi_head y ys w n).1
      (λ q. d (disjoint-later (combine_relationships r (compare_segments z y)) _ q)) g m l

compare_paths-Agrees :
    (xs ys : List Segment) (i : ℕ) (x : Segment)
    → IsMultiLast ys
    → ends_in_multi ys ≡ false
    → compare_paths xs ys ≢ disjoint
    → get_elem? xs i ≡ some x
    → x.multi ≡ false
    → x.wild ≡ false
    → (y : Segment) × (get_elem? ys i ≡ some y) × Agrees x y
unfolding compare_paths
compare_paths-Agrees xs ys i x w n d g m l =
    compare_loop-Agrees (ends_in_multi xs) equivalent xs ys i x w n (λ q. d (ground (arith, q))) g m
      l

module _ {E : Type 0} (f : Pattern → Option E) (p : Pattern) (fails : f p ≢ none) where
  apply-finds : (ps : List Pattern) → In p ps → apply f ps ≢ none
  unfolding apply
  apply-finds [] h e = h
  apply-finds (q ∷ ps) (inl s) e = fails (rw s (ground arith))
  apply-finds (q ∷ ps) (inr h) e = apply-finds ps h (ground arith)

  apply_all-finds :
      (slots : List Slot) (i : ℕ) (t : Bytes) → In p (slot_at slots i t) → apply_all f slots ≢ none
  unfolding apply_all slot_at
  apply_all-finds [] i t h e = h
  apply_all-finds (s ∷ slots) i t h e = elim (Bool-cases (s.pos == i && equal s.s t)) [
    | inl here ↦ apply-finds s.pats (rw here at h) (ground arith)
    | inr later ↦ apply_all-finds slots i t (rw later at h) (ground arith)
  ]

-- If a literal was seen, the pattern is in one of the lists chosen.
abbrev Covers : Pattern → Choice → Type 0
Covers p c = (c.has_lit ≡ false → c.least ≡ none) × (c.has_lit ≡ true → In p c.lmin ⊎ In p c.wmin)

consider-Covers :
    (p : Pattern) (ls ws : List Pattern) (c : Choice)
    → In p ls ⊎ In p ws
    → Covers p c
    → Covers p (consider ls ws c)
consider-Covers p ls ws c h (fresh, seen) =
    elim (Bool-cases (is_below (length ls + length ws) c.least)) [
      | inl b ↦ rw b (λ e. cc, λ _. h)
      | inr b ↦ rw b (λ e. cc, λ _. seen (ground arith))
    ]

choose-Covers :
    (idx : Index) (p : Pattern) (pos : ℕ) (xs : List Segment) (c : Choice)
    → ((i : ℕ) (x : Segment)
        → get_elem? xs i ≡ some x
        → x.multi ≡ false
        → x.wild ≡ false
        → In p (slot_at idx.segments (pos + i) x.s) ⊎ In p (slot_at idx.segments (pos + i) []))
    → Covers p c
    → Covers p (choose idx pos xs c)
unfolding choose
choose-Covers idx p pos [] c h k = k
choose-Covers idx p pos (x ∷ xs) c h k = elim (Bool-cases x.multi) [
  | inl m ↦ rw m k
  | inr o ↦
      let here : x.wild ≡ false
          → In p (slot_at idx.segments pos x.s) ⊎ In p (slot_at idx.segments pos []) =
        λ v.
          subst (λ i. In p (slot_at idx.segments i x.s) ⊎ In p (slot_at idx.segments i []))
            (add-zero pos) (h 0 x refl o v) in
      rw o (
        choose-Covers idx p (pos + 1) xs _
          (λ i y g m w.
            subst (λ j. In p (slot_at idx.segments j y.s) ⊎ In p (slot_at idx.segments j []))
              (later i) (h (suc i) y g m w))
          (elim (Bool-cases x.wild) [
            | inl w ↦ rw w k
            | inr v ↦ rw v (consider-Covers p _ _ c (here v) k)
          ]))
]
  where
    later : (i : ℕ) → pos + suc i ≡ pos + 1 + i
    later i = omega arith

get_last :
    (segs : List Segment) (x : Segment)
    → last_segment segs ≡ some x
    → get_elem? segs (length segs - 1) ≡ some x
unfolding last_segment
get_last [] x h = cc
get_last (y ∷ []) x h = h
get_last (y ∷ z ∷ segs) x h =
    let e : length (y ∷ z ∷ segs) - 1 ≡ suc (length (z ∷ segs) - 1) = omega arith in
    rw e (get_last (z ∷ segs) x h)

first_of_list : (segs : List Segment) → segs ≢ [] → (x : Segment) × (get_elem? segs 0 ≡ some x)
first_of_list [] ne = absurd (ne refl)
first_of_list (x ∷ segs) ne = (x, refl)

or_next-none :
    {E : Type 0} (f : Pattern → Option E) (a b : Option E)
    → or_next f a b ≡ none
    → (a ≡ none) × (b ≡ none)
or_next-none f a b h = ground arith

-- The index reaches `p` from each literal of `segs`.
abbrev Reaches : Index → List Segment → Pattern → Type 0
Reaches idx segs p =
    (i : ℕ) (x : Segment)
    → get_elem? segs i ≡ some x
    → x.multi ≡ false
    → x.wild ≡ false
    → In p (slot_at idx.segments i x.s)
      ⊎ (In p (slot_at idx.segments i []) × (equal x.s slash ≡ false))

IsIndexed-Reaches :
    (idx : Index) (segs : List Segment) (p : Pattern)
    → IsMultiLast p.segments
    → ends_in_multi p.segments ≡ false
    → ((i : ℕ) (x : Segment)
        → get_elem? p.segments i ≡ some x
        → In p (slot_at idx.segments i (index_key x)))
    → compare_paths segs p.segments ≢ disjoint
    → Reaches idx segs p
IsIndexed-Reaches idx segs p w m h d i x g n l =
    let (y, gy, agrees) = compare_paths-Agrees segs p.segments i x w m d g n l in
    elim agrees [
      | inl e ↦ inl (subst (λ k. In p (slot_at idx.segments i k)) e (h i y gy))
      | inr (e, s) ↦ inr (subst (λ k. In p (slot_at idx.segments i k)) e (h i y gy), s)
    ]

dollar_reached :
    (idx : Index) (segs : List Segment) (p : Pattern) (last : Segment)
    → last_segment segs ≡ some last
    → (equal last.s slash ≡ true → (last.wild ≡ false) × (last.multi ≡ false))
    → ends_in_dollar segs ≡ true
    → Reaches idx segs p
    → In p (slot_at idx.segments (length segs - 1) slash)
dollar_reached idx segs p last l named dol r =
    let is_slash : equal last.s slash ≡ true = rw (l, ends_in_dollar) at dol in
    let (literal, single) = named is_slash in
    elim (r (length segs - 1) last (get_last segs last l) single literal) [
      | inl h ↦
          subst (λ k. In p (slot_at idx.segments (length segs - 1) k))
            ((equal_iff last.s slash).0 is_slash) h
      | inr (h, other) ↦ cc
    ]

-- The part of the search behind the multi patterns.
slots-ne-none :
    {E : Type 0} (f : Pattern → Option E) (idx : Index) (segs : List Segment) (p : Pattern)
    → f p ≢ none
    → p.segments ≢ []
    → ((i : ℕ) (x : Segment)
        → get_elem? p.segments i ≡ some x
        → In p (slot_at idx.segments i (index_key x)))
    → Reaches idx segs p
    → (if (choose idx 0 segs no_choice).has_lit
        then or_next f
            (apply f (choose idx 0 segs no_choice).lmin)
            (apply f (choose idx 0 segs no_choice).wmin)
        else apply_all f idx.segments)
      ≢ none
slots-ne-none f idx segs p fails ne h r e =
    elim (Bool-cases (choose idx 0 segs no_choice).has_lit) [
      | inl lit ↦
          let (a, b) = or_next-none f _ _ (rw lit at e) in
          elim (covers.1 lit) [
            | inl i ↦ apply-finds f p fails (choose idx 0 segs no_choice).lmin i a
            | inr i ↦ apply-finds f p fails (choose idx 0 segs no_choice).wmin i b
          ]
      | inr all ↦
          let (x, g) = first_of_list p.segments ne in
          apply_all-finds f p fails idx.segments 0 (index_key x) (h 0 x g) (rw all at e)
    ]
  where
    covers : Covers p (choose idx 0 segs no_choice)
    covers =
        choose-Covers idx p 0 segs no_choice
          (λ i x g m w. rw zero-add (elim (r i x g m w) [ inl a ↦ inl a | inr (a, _) ↦ inr a ]))
          (λ _. refl, λ q. cc)

-- If `f` reports an error of an indexed pattern whose path is not disjoint from the new one's, then
-- an error is reported. The new pattern has a last segment, which is no wildcard named "/"; the
-- indexed one has a segment, and its multi wildcards stand last.
pub possibly_conflicting_patterns-ne-none :
    {E : Type 0} (f : Pattern → Option E) (idx : Index) (pat p : Pattern) (last : Segment)
    → last_segment pat.segments ≡ some last
    → (equal last.s slash ≡ true → (last.wild ≡ false) × (last.multi ≡ false))
    → p.segments ≢ []
    → IsMultiLast p.segments
    → IsIndexed idx p
    → compare_paths pat.segments p.segments ≢ disjoint
    → f p ≢ none
    → possibly_conflicting_patterns f idx pat ≢ none
unfolding possibly_conflicting_patterns
possibly_conflicting_patterns-ne-none f idx pat p last l named ne w (inl (m, h)) d fails e =
    apply-finds f p fails idx.multis h (ground arith)
possibly_conflicting_patterns-ne-none f idx pat p last l named ne w (inr (m, h)) d fails e =
    let r = IsIndexed-Reaches idx pat.segments p w m h d in
    let (_, e') = or_next-none f (apply f idx.multis) (apply_slots f idx pat.segments) e in
    elim (Bool-cases (ends_in_dollar pat.segments)) [
      | inl dol ↦
          apply-finds f p fails _ (dollar_reached idx pat.segments p last l named dol r)
            (rw dol at e')
      | inr other ↦ slots-ne-none f idx pat.segments p fails ne h r (rw other at e')
    ]

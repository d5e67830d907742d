-- ===== src/Index.antt =====
-- routing_index.go: the index that narrows down the patterns which may conflict with a new one.
pub mod Slots
pub mod Complete
pub mod Known
mod Tests
use oohttp.Base.{
  ℕ, ◌+◌, ◌-◌, Bool, true, false, ◌&&◌, List, [], ◌∷◌, ◌++◌, Option, none, some, ltb, ◌==◌,
  if◌then◌else◌, Bytes, equal, length,
}
use oohttp.Pattern.{Segment, Pattern, last_segment, ends_in_multi, slash}

-- A pair of the map `segments`: a `routingIndexKey` and the patterns under it.
pub record Slot : Type 0 where
  pub pos : ℕ
  pub s : Bytes
  pub pats : List Pattern

pub record Index : Type 0 where
  pub segments : List Slot
  pub multis : List Pattern

abbrev pub empty_index : Index
empty_index = record { segments = []; multis = [] }

-- `idx.segments[key]`, which is nil for a key that is not there.
unfoldable pub slot_at : List Slot → ℕ → Bytes → List Pattern
slot_at [] pos s = []
slot_at (x ∷ xs) pos s = if x.pos == pos && equal x.s s then x.pats else slot_at xs pos s

-- `idx.segments[key] = append(idx.segments[key], pat)`
unfoldable pub append_at : List Slot → ℕ → Bytes → Pattern → List Slot
append_at [] pos s p = record { pos = pos; s = s; pats = p ∷ [] } ∷ []
append_at (x ∷ xs) pos s p =
    if x.pos == pos && equal x.s s
    then record x { pats = x.pats ++ (p ∷ []) } ∷ xs
    else x ∷ append_at xs pos s p

-- The key's text: the literal, or empty for a wildcard.
abbrev pub index_key : Segment → Bytes
index_key seg = if seg.wild then [] else seg.s

-- The loop of `addPattern`, from a position on.
unfoldable pub index_from : ℕ → List Segment → Pattern → List Slot → List Slot
unfolding append_at
index_from pos [] p slots = slots
index_from pos (seg ∷ segs) p slots =
    index_from (pos + 1) segs p (append_at slots pos (index_key seg) p)

-- `addPattern`, of a pattern that has a segment.
unfoldable pub add_to_index : Index → Pattern → Index
unfolding index_from ends_in_multi
add_to_index idx p =
    if ends_in_multi p.segments
    then record idx { multis = idx.multis ++ (p ∷ []) }
    else record idx { segments = index_from 0 p.segments p idx.segments }

-- The loop that picks the position with the fewest patterns. `least` is `min`; `none` stands for
-- its first value `math.MaxInt`, which no sum of two lengths of slices reaches.
pub record Choice : Type 0 where
  pub lmin : List Pattern
  pub wmin : List Pattern
  pub least : Option ℕ
  pub has_lit : Bool

abbrev pub is_below : ℕ → Option ℕ → Bool
is_below n none = true
is_below n (some m) = ltb n m

abbrev pub consider : List Pattern → List Pattern → Choice → Choice
consider lpats wpats c =
    let sum = length lpats + length wpats in
    if is_below sum c.least
    then record { lmin = lpats; wmin = wpats; least = some sum; has_lit = true }
    else record c { has_lit = true }

unfoldable pub choose : Index → ℕ → List Segment → Choice → Choice
unfolding slot_at
choose idx i [] c = c
choose idx i (seg ∷ segs) c =
    let step =
      if seg.wild
      then c
      else consider (slot_at idx.segments i seg.s) (slot_at idx.segments i []) c in
    if seg.multi then c else choose idx (i + 1) segs step

abbrev pub no_choice : Choice
no_choice = record { lmin = []; wmin = []; least = none; has_lit = false }

-- `pat.lastSegment().s == "/"`
abbrev pub ends_in_dollar : List Segment → Bool
ends_in_dollar segs = elim (last_segment segs) [ none ↦ false | some x ↦ equal x.s slash ]

module _ {E : Type 0} (f : Pattern → Option E) where
  -- The first error, and `next` if there is none.
  abbrev pub or_next : Option E → Option E → Option E
  or_next none next = next
  or_next (some e) next = some e

  -- `apply`
  unfoldable pub apply : List Pattern → Option E
  apply [] = none
  apply (p ∷ ps) = or_next (f p) (apply ps)

  -- `for _, pats := range idx.segments { apply(pats) }`
  unfoldable pub apply_all : List Slot → Option E
  unfolding apply
  apply_all [] = none
  apply_all (x ∷ xs) = or_next (apply x.pats) (apply_all xs)

  -- What follows `apply(idx.multis)`.
  abbrev pub apply_slots : Index → List Segment → Option E
  apply_slots idx segs =
      let c = choose idx 0 segs no_choice in
      if ends_in_dollar segs
      then apply (slot_at idx.segments (length segs - 1) slash)
      else if c.has_lit
      then or_next (apply c.lmin) (apply c.wmin)
      else apply_all idx.segments

  unfoldable pub possibly_conflicting_patterns : Index → Pattern → Option E
  unfolding apply apply_all choose last_segment
  possibly_conflicting_patterns idx pat = or_next (apply idx.multis) (apply_slots idx pat.segments)

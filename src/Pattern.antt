-- ===== src/Pattern.antt =====
-- pattern.go: the patterns of a `ServeMux` and the relationship between two of them.
pub mod Relation
pub mod Meaning
pub mod Compare
pub mod Methods
pub mod Built
pub mod Apart
pub mod Only
pub mod Means
pub mod Conflict
pub mod Parse
mod Tests
use oohttp.Base.{
  ℕ, Bool, true, false, not, ◌&&◌, ◌||◌, List, [], ◌∷◌, Option, none, some, ltb, ◌==◌,
  if◌then◌else◌, Bytes, codes, equal, length,
}

-- A pattern piece; the fields are those of `segment`.
pub record Segment : Type 0 where
  pub s : Bytes
  pub wild : Bool
  pub multi : Bool

-- `str` and `loc` only serve messages and are left out.
pub record Pattern : Type 0 where
  pub method : Bytes
  pub host : Bytes
  pub segments : List Segment

-- `lastSegment`; `none` is the index panic on a pattern with no segment.
unfoldable pub last_segment : List Segment → Option Segment
last_segment [] = none
last_segment (x ∷ []) = some x
last_segment (x ∷ y ∷ segs) = last_segment (y ∷ segs)

pub data Relationship : Type 0 where
  equivalent more_general more_specific disjoint overlaps : Relationship

unfoldable pub inverse_relationship : Relationship → Relationship
inverse_relationship more_specific = more_general
inverse_relationship more_general = more_specific
inverse_relationship r = r

abbrev pub is_disjoint : Relationship → Bool
is_disjoint disjoint = true
is_disjoint _ = false

-- `combineRelationships`: the cases of the two switches, in their order.
unfoldable pub combine_relationships : Relationship → Relationship → Relationship
combine_relationships equivalent r = r
combine_relationships disjoint r = disjoint
combine_relationships overlaps disjoint = disjoint
combine_relationships overlaps r = overlaps
combine_relationships more_general equivalent = more_general
combine_relationships more_general more_specific = overlaps
combine_relationships more_general r = r
combine_relationships more_specific equivalent = more_specific
combine_relationships more_specific more_general = overlaps
combine_relationships more_specific r = r

abbrev pub slash : Bytes
slash = codes "/"

unfoldable pub compare_segments : Segment → Segment → Relationship
compare_segments s1 s2 =
    if s1.multi && s2.multi
    then equivalent
    else if s1.multi
    then more_general
    else if s2.multi
    then more_specific
    else if s1.wild && s2.wild
    then equivalent
    else if s1.wild
    then (if equal s2.s slash then disjoint else more_general)
    else if s2.wild
    then (if equal s1.s slash then disjoint else more_specific)
    else if equal s1.s s2.s
    then equivalent
    else disjoint

abbrev pub get : Bytes
get = codes "GET"

abbrev pub head : Bytes
head = codes "HEAD"

unfoldable pub compare_methods : Bytes → Bytes → Relationship
compare_methods m1 m2 =
    if equal m1 m2
    then equivalent
    else if equal m1 []
    then more_general
    else if equal m2 []
    then more_specific
    else if equal m1 get && equal m2 head
    then more_general
    else if equal m2 get && equal m1 head
    then more_specific
    else disjoint

-- `p.lastSegment().multi`
unfoldable pub ends_in_multi : List Segment → Bool
unfolding last_segment
ends_in_multi segs = elim (last_segment segs) [ none ↦ false | some x ↦ x.multi ]

-- What stands behind the loop of `comparePaths`: `segs1` and `segs2` are what the loop left, and
-- the flags are the `multi` of the last segments of the whole patterns.
unfoldable pub compare_rest :
    Bool → Bool → Relationship → List Segment → List Segment → Relationship
compare_rest multi1 multi2 rel segs1 segs2 =
    if length segs1 == 0 && length segs2 == 0
    then rel
    else if ltb (length segs1) (length segs2) && multi1
    then combine_relationships rel more_general
    else if ltb (length segs2) (length segs1) && multi2
    then combine_relationships rel more_specific
    else disjoint

-- The loop of `comparePaths`, which returns at once on `disjoint`.
unfoldable pub compare_loop :
    Bool → Bool → Relationship → List Segment → List Segment → Relationship
unfolding compare_rest
compare_loop multi1 multi2 rel (x ∷ xs) (y ∷ ys) =
    let rel' = combine_relationships rel (compare_segments x y) in
    let next = compare_loop multi1 multi2 rel' xs ys in if is_disjoint rel' then rel' else next
compare_loop multi1 multi2 rel segs1 segs2 = compare_rest multi1 multi2 rel segs1 segs2

unfoldable pub compare_paths : List Segment → List Segment → Relationship
unfolding ends_in_multi
compare_paths segs1 segs2 =
    let multi1 = ends_in_multi segs1 in
    let multi2 = ends_in_multi segs2 in
    if not (length segs1 == length segs2) && not multi1 && not multi2
    then disjoint
    else compare_loop multi1 multi2 equivalent segs1 segs2

unfoldable pub compare_paths_and_methods : Pattern → Pattern → Relationship
compare_paths_and_methods p1 p2 =
    let mrel = compare_methods p1.method p2.method in
    if is_disjoint mrel
    then disjoint
    else combine_relationships mrel (compare_paths p1.segments p2.segments)

abbrev pub is_conflict : Relationship → Bool
is_conflict equivalent = true
is_conflict overlaps = true
is_conflict _ = false

unfoldable pub conflicts_with : Pattern → Pattern → Bool
conflicts_with p1 p2 =
    if not (equal p1.host p2.host) then false else is_conflict (compare_paths_and_methods p1 p2)

-- ===== src/Pattern/Relation.antt =====
-- The algebra of `combineRelationships` and `inverseRelationship`, and the symmetry of the
-- comparisons.
use oohttp.Base.{Bool, List, [], ◌∷◌, ◌≡◌, arith, equal_iff, Bytes, if◌then◌else◌}
use oohttp.Pattern.{
  Relationship, equivalent, more_general, more_specific, disjoint, inverse_relationship,
  combine_relationships, Segment, Pattern, is_disjoint, is_conflict, compare_rest, compare_loop,
  compare_paths, compare_paths_and_methods, conflicts_with, ends_in_multi, compare_segments,
  compare_methods, get, head,
}

pub inverse_involutive : (r : Relationship) → inverse_relationship (inverse_relationship r) ≡ r
unfolding inverse_relationship
inverse_involutive r = ground arith

pub combine_comm : (r s : Relationship) → combine_relationships r s ≡ combine_relationships s r
unfolding combine_relationships
combine_comm r s = ground arith

pub inverse-combine :
    (r s : Relationship)
    → inverse_relationship (combine_relationships r s)
      ≡ combine_relationships (inverse_relationship r) (inverse_relationship s)
unfolding combine_relationships inverse_relationship
inverse-combine r s = ground arith

pub compare_segments-inverse :
    (x y : Segment) → compare_segments y x ≡ inverse_relationship (compare_segments x y)
unfolding compare_segments inverse_relationship
compare_segments-inverse x y = ground (arith, equal_iff x.s y.s, equal_iff y.s x.s)

pub compare_methods-inverse :
    (a b : Bytes) → compare_methods b a ≡ inverse_relationship (compare_methods a b)
unfolding compare_methods inverse_relationship
compare_methods-inverse a b = ground (
  arith,
  equal_iff a b,
  equal_iff b a,
  equal_iff a get,
  equal_iff a head,
  equal_iff b get,
  equal_iff b head,
  equal_iff a [],
  equal_iff b [],
)

compare_rest-inverse :
    (m1 m2 : Bool) (r : Relationship) (xs ys : List Segment)
    → compare_rest m2 m1 (inverse_relationship r) ys xs
      ≡ inverse_relationship (compare_rest m1 m2 r xs ys)
unfolding compare_rest inverse_relationship
compare_rest-inverse m1 m2 r xs ys =
    ground (arith, inverse-combine r more_general, inverse-combine r more_specific)

is_disjoint-inverse :
    (r s : Relationship)
    → (if is_disjoint (inverse_relationship r)
        then inverse_relationship r
        else inverse_relationship s)
      ≡ inverse_relationship (if is_disjoint r then r else s)
unfolding inverse_relationship
is_disjoint-inverse r s = ground arith

compare_loop-inverse :
    (m1 m2 : Bool) (r : Relationship) (xs ys : List Segment)
    → compare_loop m2 m1 (inverse_relationship r) ys xs
      ≡ inverse_relationship (compare_loop m1 m2 r xs ys)
unfolding compare_loop
compare_loop-inverse m1 m2 r [] [] = compare_rest-inverse m1 m2 r [] []
compare_loop-inverse m1 m2 r [] (y ∷ ys) = compare_rest-inverse m1 m2 r [] (y ∷ ys)
compare_loop-inverse m1 m2 r (x ∷ xs) [] = compare_rest-inverse m1 m2 r (x ∷ xs) []
compare_loop-inverse m1 m2 r (x ∷ xs) (y ∷ ys) =
    rw (compare_segments-inverse x y, ← inverse-combine r (compare_segments x y))
      (rw (compare_loop-inverse m1 m2 (combine_relationships r (compare_segments x y)) xs ys)
        (is_disjoint-inverse (combine_relationships r (compare_segments x y)) _))

pub compare_paths-inverse :
    (xs ys : List Segment) → compare_paths ys xs ≡ inverse_relationship (compare_paths xs ys)
unfolding compare_paths inverse_relationship
compare_paths-inverse xs ys =
    ground (arith, compare_loop-inverse (ends_in_multi xs) (ends_in_multi ys) equivalent xs ys)

is_disjoint-inverse-left :
    (r s : Relationship)
    → (if is_disjoint (inverse_relationship r) then disjoint else inverse_relationship s)
      ≡ inverse_relationship (if is_disjoint r then disjoint else s)
unfolding inverse_relationship
is_disjoint-inverse-left r s = ground arith

is_conflict-inverse : (r : Relationship) → is_conflict (inverse_relationship r) ≡ is_conflict r
unfolding inverse_relationship
is_conflict-inverse r = ground arith

-- Exchanging two patterns inverts their relationship, over methods and paths together.
pub compare_paths_and_methods-inverse :
    (p q : Pattern)
    → compare_paths_and_methods q p ≡ inverse_relationship (compare_paths_and_methods p q)
unfolding compare_paths_and_methods
compare_paths_and_methods-inverse p q =
    rw
      (
        compare_methods-inverse p.method q.method,
        compare_paths-inverse p.segments q.segments,
        ← inverse-combine (compare_methods p.method q.method) (compare_paths p.segments q.segments),
      )
      (is_disjoint-inverse-left (compare_methods p.method q.method) _)

-- Whether two patterns conflict does not depend on their order.
pub conflicts_with_comm : (p q : Pattern) → conflicts_with p q ≡ conflicts_with q p
unfolding conflicts_with
conflicts_with_comm p q = ground (
  arith,
  equal_iff p.host q.host,
  equal_iff q.host p.host,
  is_conflict-inverse (compare_paths_and_methods p q),
  compare_paths_and_methods-inverse p q,
)

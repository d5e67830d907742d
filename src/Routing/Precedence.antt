-- ===== src/Routing/Precedence.antt =====
-- The order in which `matchPath` tries its children agrees with `comparePaths`.
use mathlib.Core.Path.{subst}
use oohttp.Base.{Bool, true, List, [], ◌∷◌, ◌≡◌, ◌≢◌, arith, Bytes, equal_iff, ◌⊎◌, inl, inr, All}
use oohttp.Paths.{first_segment}
use oohttp.Pattern.Meaning.{path_matches, IsMultiLast}
use oohttp.Pattern.{
  Segment, slash, Relationship, equivalent, more_general, more_specific, disjoint, overlaps,
  combine_relationships, compare_segments, compare_loop, compare_rest, compare_paths, ends_in_multi,
}
use oohttp.Routing.Insert.{keys_of}
use oohttp.Routing.Multi.{IsPlainSegment}
use oohttp.Routing.Search.{leb_keys}
use oohttp.Routing.{star}

-- A relationship from which no further segment leads to `moreGeneral`.
abbrev IsFirm : Relationship → Type 0
IsFirm more_specific = Unit
IsFirm overlaps = Unit
IsFirm disjoint = Unit
IsFirm _ = ⊥

combine-IsFirm : (r s : Relationship) → IsFirm r → IsFirm (combine_relationships r s)
unfolding combine_relationships
combine-IsFirm r s h = ground arith

compare_rest-IsFirm :
    (m1 m2 : Bool) (r : Relationship) (xs ys : List Segment)
    → IsFirm r
    → IsFirm (compare_rest m1 m2 r xs ys)
unfolding compare_rest
compare_rest-IsFirm m1 m2 r xs ys h =
    ground (arith, combine-IsFirm r more_general, combine-IsFirm r more_specific)

compare_loop-IsFirm :
    (m1 m2 : Bool) (r : Relationship) (xs ys : List Segment)
    → IsFirm r
    → IsFirm (compare_loop m1 m2 r xs ys)
unfolding compare_loop
compare_loop-IsFirm m1 m2 r [] ys h = compare_rest-IsFirm m1 m2 r [] ys h
compare_loop-IsFirm m1 m2 r (x ∷ xs) [] h = compare_rest-IsFirm m1 m2 r (x ∷ xs) [] h
compare_loop-IsFirm m1 m2 r (x ∷ xs) (y ∷ ys) h =
    let next = combine-IsFirm r (compare_segments x y) h in
    ground
      (arith, compare_loop-IsFirm m1 m2 (combine_relationships r (compare_segments x y)) xs ys next)

-- The first segments of two patterns that match the path, of which the first is tried no later.
first_key :
    (x y : Segment) (xs ys : List Segment) (path : Bytes)
    → IsPlainSegment x
    → IsPlainSegment y
    → path_matches (x ∷ xs) path ≡ true
    → path_matches (y ∷ ys) path ≡ true
    → leb_keys (keys_of (x ∷ xs)) (keys_of (y ∷ ys)) ≡ true
    → (compare_segments x y ≡ more_specific)
      ⊎ ((compare_segments x y ≡ equivalent) × (x.multi ≡ true) × (y.multi ≡ true))
      ⊎ ((compare_segments x y ≡ equivalent)
          × (path_matches xs (first_segment path).1 ≡ true)
          × (path_matches ys (first_segment path).1 ≡ true)
          × (leb_keys (keys_of xs) (keys_of ys) ≡ true))
unfolding path_matches compare_segments
first_key x y xs ys path a b h k le = ground (
  arith,
  a,
  b,
  equal_iff star star,
  equal_iff [] star,
  equal_iff x.s y.s,
  equal_iff x.s slash,
  equal_iff y.s slash,
  equal_iff x.s (first_segment path).0,
  equal_iff y.s (first_segment path).0,
  equal_iff (first_segment path).0 slash,
)

compare_loop-ne-more_general :
    (m1 m2 : Bool) (xs ys : List Segment) (path : Bytes)
    → All IsPlainSegment xs
    → All IsPlainSegment ys
    → IsMultiLast xs
    → IsMultiLast ys
    → path_matches xs path ≡ true
    → path_matches ys path ≡ true
    → leb_keys (keys_of xs) (keys_of ys) ≡ true
    → compare_loop m1 m2 equivalent xs ys ≢ more_general
unfolding compare_loop path_matches combine_relationships compare_rest
compare_loop-ne-more_general m1 m2 [] [] path p q w v h k le e = ground arith
compare_loop-ne-more_general m1 m2 [] (y ∷ ys) path p q w v h k le e = ground arith
compare_loop-ne-more_general m1 m2 (x ∷ xs) [] path p q w v h k le e = ground arith
compare_loop-ne-more_general m1 m2 (x ∷ xs) (y ∷ ys) path (a, p) (b, q) (lx, w) (ly, v) h k le e =
    elim (first_key x y xs ys path a b h k le) [
      | inl specific ↦
          let firm = compare_loop-IsFirm m1 m2 more_specific xs ys tt in
          subst IsFirm (rw specific at e) firm
      | inr (inl (same, mx, my)) ↦ cc (rw (same, lx mx, ly my) at e)
      | inr (inr (same, hx, hy, later)) ↦
          compare_loop-ne-more_general m1 m2 xs ys (first_segment path).1 p q w v hx hy later
            (rw same at e)
    ]

-- Of two patterns that match a path, the one that is tried first is not the more general one.
pub compare_paths-ne-more_general :
    (xs ys : List Segment) (path : Bytes)
    → All IsPlainSegment xs
    → All IsPlainSegment ys
    → IsMultiLast xs
    → IsMultiLast ys
    → path_matches xs path ≡ true
    → path_matches ys path ≡ true
    → leb_keys (keys_of xs) (keys_of ys) ≡ true
    → compare_paths xs ys ≢ more_general
unfolding compare_paths
compare_paths-ne-more_general xs ys path p q w v h k le = ground (
  arith,
  compare_loop-ne-more_general (ends_in_multi xs) (ends_in_multi ys) xs ys path p q w v h k le,
)

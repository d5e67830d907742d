-- ===== src/Pattern/Only.antt =====
-- `comparePaths`: where the first path is more general, or the two overlap, a request path shows it.
use oohttp.Base.{
  Bool, true, false, List, [], ◌∷◌, ◌≡◌, refl, ◌∙◌, ◌⊎◌, inl, inr, arith, Bytes, Bool-cases, All,
}
use oohttp.Pattern.Apart.{
  OnlyPath, SharedPath, compare_loop-shared, first_more, first_more-combine, first_more-is_disjoint,
  first_more-stop, is_disjoint-combine, multi-only, segment-only, segment-shared,
}
use oohttp.Pattern.Built.{HasText, IsWritable, accepts, path_matches-under, under}
use oohttp.Pattern.Compare.{ends_in_multi-cons, ends_in_multi-nil}
use oohttp.Pattern.Meaning.{IsMultiLast}
use oohttp.Pattern.{
  Relationship, Segment, combine_relationships, compare_loop, compare_paths, compare_rest,
  compare_segments, ends_in_multi, equivalent, is_disjoint,
}

-- Two multi wildcards leave the relationship as it is.
both_multi :
    (m1 m2 : Bool) (r : Relationship) (x y : Segment)
    → x.multi ≡ true
    → y.multi ≡ true
    → first_more (compare_loop m1 m2 r (x ∷ []) (y ∷ [])) ≡ true
    → first_more r ≡ true
unfolding compare_loop compare_rest compare_segments combine_relationships
both_multi m1 m2 r x y m k h = ground arith

-- The second pattern is at its multi wildcard, and the first is not.
second_multi :
    (m1 m2 : Bool) (r : Relationship) (x y : Segment) (xs : List Segment)
    → x.multi ≡ false
    → y.multi ≡ true
    → first_more (compare_loop m1 m2 r (x ∷ xs) (y ∷ [])) ≡ true
    → first_more r ≡ true
unfolding compare_loop compare_rest compare_segments combine_relationships
second_multi m1 m2 r x y [] m k h = ground arith
second_multi m1 m2 r x y (z ∷ zs) m k h = ground arith

-- A path under a text that the first segment alone accepts, and one that both accept.
under-only :
    (x y : Segment) (xs ys : List Segment) {s : Bytes} (w : IsWritable s)
    → x.multi ≡ false
    → y.multi ≡ false
    → accepts x s ≡ true
    → accepts y s ≡ false
    → SharedPath xs ys
    → OnlyPath (x ∷ xs) (y ∷ ys)
under-only x y xs ys w m k a b (path, r, c, d) = (
  under w path,
  refl,
  path_matches-under x xs w path m r ∙ rw (a, c) refl,
  path_matches-under y ys w path k r ∙ rw b refl,
)

under-shared :
    (x y : Segment) (xs ys : List Segment) {s : Bytes} (w : IsWritable s)
    → x.multi ≡ false
    → y.multi ≡ false
    → accepts x s ≡ true
    → accepts y s ≡ true
    → OnlyPath xs ys
    → OnlyPath (x ∷ xs) (y ∷ ys)
under-shared x y xs ys w m k a b (path, r, c, d) = (
  under w path,
  refl,
  path_matches-under x xs w path m r ∙ rw (a, c) refl,
  path_matches-under y ys w path k r ∙ rw (b, d) refl,
)

module _ (m1 m2 : Bool) where
  compare_loop-only :
      (r : Relationship) (xs ys : List Segment)
      → IsMultiLast xs
      → IsMultiLast ys
      → All HasText xs
      → All HasText ys
      → m1 ≡ ends_in_multi xs
      → m2 ≡ ends_in_multi ys
      → first_more (compare_loop m1 m2 r xs ys) ≡ true
      → (first_more r ≡ true) ⊎ OnlyPath xs ys
  unfolding compare_loop compare_rest
  compare_loop-only r [] [] w v t u e f h = inl (ground arith)
  compare_loop-only r [] (y ∷ ys) w v t u e f h = absurd (ground (arith, ends_in_multi-nil))
  compare_loop-only r (x ∷ xs) [] w v t u e f h = absurd (ground (arith, ends_in_multi-nil))
  compare_loop-only r (x ∷ xs) (y ∷ ys) (lx, w) (ly, v) (tx, t) (uy, u) e f h =
      elim (Bool-cases x.multi) [
        | inl mx ↦ elim (Bool-cases y.multi) [
          | inl my ↦ inl (both_multi m1 m2 r x y mx my (rw (lx mx, ly my) at h))
          | inr ny ↦ inr (rw (lx mx) (multi-only x y ys mx ny))
        ]
        | inr nx ↦ elim (Bool-cases y.multi) [
          | inl my ↦ inl (second_multi m1 m2 r x y xs nx my (rw (ly my) at h))
          | inr ny ↦
              let rel = combine_relationships r (compare_segments x y) in
              let (here, later) = first_more-stop rel (compare_loop m1 m2 rel xs ys) h in
              let at_xs = e ∙ ends_in_multi-cons x xs nx in
              let at_ys = f ∙ ends_in_multi-cons y ys ny in
              elim (compare_loop-only rel xs ys w v t u at_xs at_ys later) [
                | inr path ↦
                    let apart = (is_disjoint-combine r (compare_segments x y) here).1 in
                    let (s, q, a, b) = segment-shared x y tx uy apart nx ny in
                    inr (under-shared x y xs ys q nx ny a b path)
                | inl more ↦ elim (first_more-combine r (compare_segments x y) more) [
                  | inl k ↦ inl k
                  | inr k ↦
                      let (s, q, a, b) = segment-only x y k nx ny in
                      let rest =
                        compare_loop-shared m1 m2 rel xs ys w v t u at_xs at_ys
                          (first_more-is_disjoint (compare_loop m1 m2 rel xs ys) later) in
                      inr (under-only x y xs ys q nx ny a b rest)
                ]
              ]
        ]
      ]

-- A path pattern whose multi wildcard stands last, and whose literals each stand for a text that a
-- path can hold.
pub record IsProper (xs : List Segment) : Type 0 where
  pub multi_last : IsMultiLast xs
  pub texts : All HasText xs

pub compare_paths-shared :
    (xs ys : List Segment)
    → IsProper xs
    → IsProper ys
    → is_disjoint (compare_paths xs ys) ≡ false
    → SharedPath xs ys
unfolding compare_paths
compare_paths-shared xs ys w v h =
    compare_loop-shared (ends_in_multi xs) (ends_in_multi ys) equivalent xs ys w.multi_last
      v.multi_last w.texts v.texts refl refl (ground arith)

pub compare_paths-only :
    (xs ys : List Segment)
    → IsProper xs
    → IsProper ys
    → first_more (compare_paths xs ys) ≡ true
    → OnlyPath xs ys
unfolding compare_paths
compare_paths-only xs ys w v h =
    elim (compare_loop-only (ends_in_multi xs) (ends_in_multi ys) equivalent xs ys w.multi_last
      v.multi_last w.texts v.texts refl refl (ground arith)) [ inl e ↦ cc | inr path ↦ path ]

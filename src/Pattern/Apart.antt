-- ===== src/Pattern/Apart.antt =====
-- `comparePaths` and paths that show what it answers: one that both patterns match, and one that the
-- first matches and the second does not.
use oohttp.Base.{
  Bool, true, false, ◌&&◌, List, [], ◌∷◌, ◌≡◌, refl, ◌∙◌, ◌⊎◌, inl, inr, arith, Bytes, codes, equal,
  equal_iff, equal_refl, if◌then◌else◌, Bool-cases, All,
}
use oohttp.Pattern.Built.{
  HasText, IsRooted, IsWritable, a-IsWritable, accepts, b-IsWritable, own_path, path_matches-under,
  under,
}
use oohttp.Pattern.Compare.{ends_in_multi-cons, ends_in_multi-nil, path_matches-multi}
use oohttp.Pattern.Meaning.{path_matches, IsMultiLast}
use oohttp.Pattern.{
  Relationship, Segment, combine_relationships, compare_loop, compare_rest, compare_segments,
  ends_in_multi, is_disjoint, more_general, overlaps,
}

-- The relationship says that the first pattern matches what the second does not.
abbrev pub first_more : Relationship → Bool
first_more more_general = true
first_more overlaps = true
first_more _ = false

pub first_more-combine :
    (r s : Relationship)
    → first_more (combine_relationships r s) ≡ true
    → (first_more r ≡ true) ⊎ (first_more s ≡ true)
unfolding combine_relationships
first_more-combine r s h = ground arith

pub is_disjoint-combine :
    (r s : Relationship)
    → is_disjoint (combine_relationships r s) ≡ false
    → (is_disjoint r ≡ false) × (is_disjoint s ≡ false)
unfolding combine_relationships
is_disjoint-combine r s h = ground arith

pub first_more-is_disjoint : (r : Relationship) → first_more r ≡ true → is_disjoint r ≡ false
first_more-is_disjoint r h = ground arith

pub is_disjoint-stop :
    (r c : Relationship)
    → is_disjoint (if is_disjoint r then r else c) ≡ false
    → (is_disjoint r ≡ false) × (is_disjoint c ≡ false)
is_disjoint-stop r c h = ground arith

pub first_more-stop :
    (r c : Relationship)
    → first_more (if is_disjoint r then r else c) ≡ true
    → (is_disjoint r ≡ false) × (first_more c ≡ true)
first_more-stop r c h = ground arith

-- A text that both segments accept.
pub segment-shared :
    (x y : Segment)
    → HasText x
    → HasText y
    → is_disjoint (compare_segments x y) ≡ false
    → x.multi ≡ false
    → y.multi ≡ false
    → (s : Bytes) × IsWritable s × (accepts x s ≡ true) × (accepts y s ≡ true)
unfolding compare_segments equal
segment-shared x y t u h m k = elim (Bool-cases x.wild) [
  | inl v ↦ elim (Bool-cases y.wild) [
    | inl w ↦ (codes "a", a-IsWritable, rw v refl, rw w refl)
    | inr w ↦ (y.s, u w, ground arith, rw w (equal_refl y.s))
  ]
  | inr v ↦ elim (Bool-cases y.wild) [
    | inl w ↦ (x.s, t v, rw v (equal_refl x.s), ground arith)
    | inr w ↦ (x.s, t v, rw v (equal_refl x.s), ground (arith, equal_iff x.s y.s, equal_refl x.s))
  ]
]

-- A text that the first segment alone accepts.
pub segment-only :
    (x y : Segment)
    → first_more (compare_segments x y) ≡ true
    → x.multi ≡ false
    → y.multi ≡ false
    → (s : Bytes) × IsWritable s × (accepts x s ≡ true) × (accepts y s ≡ false)
unfolding compare_segments equal
segment-only x y h m k = elim (Bool-cases (equal y.s (codes "a"))) [
  | inr e ↦ (codes "a", a-IsWritable, ground arith, ground arith)
  | inl e ↦
      let is_a = (equal_iff y.s (codes "a")).0 e in
      let not_b : equal y.s (codes "b") ≡ false = rw is_a refl in
      (codes "b", b-IsWritable, ground arith, ground arith)
]

-- A path that both patterns match.
abbrev pub SharedPath : List Segment → List Segment → Type 0
SharedPath xs ys =
    (path : Bytes) × IsRooted path × (path_matches xs path ≡ true) × (path_matches ys path ≡ true)

-- A path that the first pattern alone matches.
abbrev pub OnlyPath : List Segment → List Segment → Type 0
OnlyPath xs ys =
    (path : Bytes) × IsRooted path × (path_matches xs path ≡ true) × (path_matches ys path ≡ false)

-- A multi wildcard matches what any other pattern does.
multi-shared :
    (x y : Segment) (ys : List Segment)
    → x.multi ≡ true
    → IsMultiLast (y ∷ ys)
    → All HasText (y ∷ ys)
    → SharedPath (x ∷ []) (y ∷ ys)
multi-shared x y ys m v u =
    let (path, r, k, e) = own_path (y ∷ ys) v u in
    (path, r, path_matches-multi x [] path m ∙ rw e refl, k)

and_false : (b : Bool) → b && false ≡ false
and_false b = ground arith

-- A multi wildcard matches paths that are longer or shorter than another pattern.
pub multi-only :
    (x y : Segment) (ys : List Segment)
    → x.multi ≡ true
    → y.multi ≡ false
    → OnlyPath (x ∷ []) (y ∷ ys)
unfolding path_matches
multi-only x y [] m k =
    let path = under a-IsWritable (codes "/a") in
    (
      path,
      refl,
      path_matches-multi x [] path m,
      path_matches-under y [] a-IsWritable (codes "/a") k refl ∙ and_false (accepts y (codes "a")),
    )
multi-only x y (z ∷ zs) m k =
    let path = under a-IsWritable [] in
    (
      path,
      refl,
      path_matches-multi x [] path m,
      path_matches-under y (z ∷ zs) a-IsWritable [] k tt ∙ and_false (accepts y (codes "a")),
    )

module _ (m1 m2 : Bool) where
  pub compare_loop-shared :
      (r : Relationship) (xs ys : List Segment)
      → IsMultiLast xs
      → IsMultiLast ys
      → All HasText xs
      → All HasText ys
      → m1 ≡ ends_in_multi xs
      → m2 ≡ ends_in_multi ys
      → is_disjoint (compare_loop m1 m2 r xs ys) ≡ false
      → SharedPath xs ys
  unfolding compare_loop compare_rest path_matches
  compare_loop-shared r [] [] w v t u e f h = ([], tt, refl, refl)
  compare_loop-shared r [] (y ∷ ys) w v t u e f h = absurd (ground (arith, ends_in_multi-nil))
  compare_loop-shared r (x ∷ xs) [] w v t u e f h = absurd (ground (arith, ends_in_multi-nil))
  compare_loop-shared r (x ∷ xs) (y ∷ ys) (lx, w) (ly, v) (tx, t) (uy, u) e f h =
      elim (Bool-cases x.multi) [
        | inl mx ↦ rw (lx mx) (multi-shared x y ys mx (ly, v) (uy, u))
        | inr nx ↦ elim (Bool-cases y.multi) [
          | inl my ↦
              let (path, k, a, b) = multi-shared y x xs my (lx, w) (tx, t) in
              rw (ly my) (path, k, b, a)
          | inr ny ↦
              let rel = combine_relationships r (compare_segments x y) in
              let (here, later) = is_disjoint-stop rel (compare_loop m1 m2 rel xs ys) h in
              let apart = (is_disjoint-combine r (compare_segments x y) here).1 in
              let (s, q, a, b) = segment-shared x y tx uy apart nx ny in
              let (path, k, c, d) =
                compare_loop-shared rel xs ys w v t u (e ∙ ends_in_multi-cons x xs nx)
                  (f ∙ ends_in_multi-cons y ys ny) later in
              (
                under q path,
                refl,
                path_matches-under x xs q path nx k ∙ rw (a, c) refl,
                path_matches-under y ys q path ny k ∙ rw (b, d) refl,
              )
        ]
      ]

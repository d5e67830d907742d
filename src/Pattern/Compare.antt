-- ===== src/Pattern/Compare.antt =====
-- `comparePaths` tells the truth about the paths that the two patterns match.
use oohttp.Base.{
  Bool, true, false, not, ◌&&◌, List, [], ◌∷◌, ◌≡◌, refl, ◌∙◌, inl, inr, arith, Bytes, equal,
  equal_iff, is_empty, if◌then◌else◌, length, Bool-cases,
}
use oohttp.Paths.{first_segment}
use oohttp.Pattern.Meaning.{path_matches, IsMultiLast}
use oohttp.Pattern.{
  Relationship, equivalent, more_general, more_specific, disjoint, overlaps, combine_relationships,
  Segment, compare_segments, compare_loop, compare_rest, compare_paths, last_segment, slash,
  ends_in_multi, is_disjoint,
}

-- What a relationship between two patterns says of any request, which the first matches if `b1`, and
-- the second if `b2`. What requests there are is said in Pattern/Means.
abbrev pub Tells : Relationship → Bool → Bool → Type 0
Tells equivalent b1 b2 = b1 ≡ b2
Tells more_general b1 b2 = b2 ≡ true → b1 ≡ true
Tells more_specific b1 b2 = b1 ≡ true → b2 ≡ true
Tells disjoint b1 b2 = b1 && b2 ≡ false
Tells overlaps b1 b2 = Unit

-- The relationships of two parts of a pattern combine, where each part has to match.
pub Tells-combine :
    (r s : Relationship) (a1 a2 b1 b2 : Bool)
    → Tells r a1 a2
    → Tells s b1 b2
    → Tells (combine_relationships r s) (a1 && b1) (a2 && b2)
unfolding combine_relationships
Tells-combine r s a1 a2 b1 b2 h k = ground arith

-- The test that `path_matches` makes at a segment which is no multi wildcard.
abbrev pub fits : Segment → Bytes → Bool
fits x path =
    not (is_empty path)
    && (if x.wild
        then not (equal (first_segment path).0 slash)
        else equal x.s (first_segment path).0)

pub path_matches-fits :
    (x : Segment) (segs : List Segment) (path : Bytes)
    → x.multi ≡ false
    → path_matches (x ∷ segs) path ≡ fits x path && path_matches segs (first_segment path).1
unfolding path_matches
path_matches-fits x segs path h = ground arith

pub path_matches-multi :
    (x : Segment) (segs : List Segment) (path : Bytes)
    → x.multi ≡ true
    → path_matches (x ∷ segs) path ≡ not (is_empty path)
unfolding path_matches
path_matches-multi x segs path h = ground arith

path_matches-not_empty :
    (x : Segment) (segs : List Segment) (path : Bytes)
    → is_empty path ≡ true
    → path_matches (x ∷ segs) path ≡ false
unfolding path_matches
path_matches-not_empty x segs path h = ground arith

compare_segments-Tells :
    (x y : Segment) (path : Bytes)
    → x.multi ≡ false
    → y.multi ≡ false
    → Tells (compare_segments x y) (fits x path) (fits y path)
unfolding compare_segments
compare_segments-Tells x y path h k = ground (
  arith,
  equal_iff x.s y.s,
  equal_iff x.s slash,
  equal_iff y.s slash,
  equal_iff (first_segment path).0 slash,
  equal_iff x.s (first_segment path).0,
  equal_iff y.s (first_segment path).0,
)

pub ends_in_multi-cons :
    (x : Segment) (segs : List Segment)
    → x.multi ≡ false
    → ends_in_multi (x ∷ segs) ≡ ends_in_multi segs
unfolding ends_in_multi last_segment
ends_in_multi-cons x [] h = h
ends_in_multi-cons x (y ∷ segs) h = refl

ends_in_multi-single : (x : Segment) → ends_in_multi (x ∷ []) ≡ x.multi
unfolding ends_in_multi last_segment
ends_in_multi-single x = refl

and_assoc : (a b c : Bool) → (a && b) && c ≡ a && (b && c)
and_assoc a b c = ground arith

-- The first pattern is at its multi wildcard.
compare_loop-multi :
    (m1 m2 : Bool) (r : Relationship) (x y : Segment) (ys : List Segment) (path : Bytes)
    (a1 a2 : Bool)
    → x.multi ≡ true
    → m1 ≡ true
    → (y.multi ≡ true → ys ≡ [])
    → Tells r a1 a2
    → Tells
        (compare_loop m1 m2 r (x ∷ []) (y ∷ ys))
        (a1 && path_matches (x ∷ []) path)
        (a2 && path_matches (y ∷ ys) path)
unfolding compare_loop compare_segments combine_relationships
compare_loop-multi m1 m2 r x y [] path a1 a2 h e last t = ground (
  arith,
  path_matches-multi x [] path,
  path_matches-multi y [] path,
  path_matches-not_empty y [] path,
)
compare_loop-multi m1 m2 r x y (z ∷ zs) path a1 a2 h e last t =
    ground (arith, path_matches-multi x [] path, path_matches-not_empty y (z ∷ zs) path)

-- The second pattern is at its multi wildcard, and the first is not.
compare_loop-multi₂ :
    (m1 m2 : Bool) (r : Relationship) (x y : Segment) (xs : List Segment) (path : Bytes)
    (a1 a2 : Bool)
    → x.multi ≡ false
    → y.multi ≡ true
    → m2 ≡ true
    → Tells r a1 a2
    → Tells
        (compare_loop m1 m2 r (x ∷ xs) (y ∷ []))
        (a1 && path_matches (x ∷ xs) path)
        (a2 && path_matches (y ∷ []) path)
unfolding compare_loop compare_segments combine_relationships
compare_loop-multi₂ m1 m2 r x y [] path a1 a2 h k e t =
    ground (arith, path_matches-multi y [] path, path_matches-not_empty x [] path)
compare_loop-multi₂ m1 m2 r x y (z ∷ zs) path a1 a2 h k e t =
    ground (arith, path_matches-multi y [] path, path_matches-not_empty x (z ∷ zs) path)

Tells-stop :
    (r c : Relationship) (a1 a2 b1 b2 : Bool)
    → Tells r a1 a2
    → Tells c (a1 && b1) (a2 && b2)
    → Tells (if is_disjoint r then r else c) (a1 && b1) (a2 && b2)
Tells-stop r c a1 a2 b1 b2 h k = ground arith

-- A step over two segments of which none is a multi wildcard; `c` is what the loop returns.
Tells-step :
    (r s c : Relationship) (a1 a2 t1 t2 b1 b2 : Bool)
    → Tells r a1 a2
    → Tells s t1 t2
    → (Tells (combine_relationships r s) (a1 && t1) (a2 && t2)
        → Tells c ((a1 && t1) && b1) ((a2 && t2) && b2))
    → Tells
        (if is_disjoint (combine_relationships r s) then combine_relationships r s else c)
        (a1 && (t1 && b1))
        (a2 && (t2 && b2))
Tells-step r s c a1 a2 t1 t2 b1 b2 h k next =
    let here = Tells-combine r s a1 a2 t1 t2 h k in
    rw (← and_assoc a1 t1 b1, ← and_assoc a2 t2 b2)
      (Tells-stop (combine_relationships r s) c (a1 && t1) (a2 && t2) b1 b2 here (next here))

pub ends_in_multi-nil : ends_in_multi [] ≡ false
unfolding ends_in_multi last_segment
ends_in_multi-nil = refl

pub ends_in_multi-last :
    (x : Segment) (xs : List Segment) → x.multi ≡ true → xs ≡ [] → ends_in_multi (x ∷ xs) ≡ true
ends_in_multi-last x xs h e = rw e (ends_in_multi-single x ∙ h)

module _ (m1 m2 : Bool) where
  compare_loop-Tells :
      (r : Relationship) (xs ys : List Segment) (path : Bytes) (a1 a2 : Bool)
      → IsMultiLast xs
      → IsMultiLast ys
      → m1 ≡ ends_in_multi xs
      → m2 ≡ ends_in_multi ys
      → Tells r a1 a2
      → Tells (compare_loop m1 m2 r xs ys) (a1 && path_matches xs path) (a2 && path_matches ys path)
  unfolding compare_loop compare_rest path_matches
  compare_loop-Tells r [] [] path a1 a2 w v e f t = ground arith
  compare_loop-Tells r [] (y ∷ ys) path a1 a2 w v e f t =
      ground (arith, ends_in_multi-nil, path_matches-not_empty y ys path)
  compare_loop-Tells r (x ∷ xs) [] path a1 a2 w v e f t =
      ground (arith, ends_in_multi-nil, path_matches-not_empty x xs path)
  compare_loop-Tells r (x ∷ xs) (y ∷ ys) path a1 a2 (lx, w) (ly, v) e f t =
      elim (Bool-cases x.multi) [
        | inl mx ↦ rw (lx mx) (
            compare_loop-multi m1 m2 r x y ys path a1 a2 mx (e ∙ ends_in_multi-last x xs mx (lx mx))
              ly t)
        | inr nx ↦ elim (Bool-cases y.multi) [
          | inl my ↦ rw (ly my) (
              compare_loop-multi₂ m1 m2 r x y xs path a1 a2 nx my
                (f ∙ ends_in_multi-last y ys my (ly my)) t)
          | inr ny ↦
              rw (path_matches-fits x xs path nx, path_matches-fits y ys path ny)
                (Tells-step r (compare_segments x y) _ a1 a2 (fits x path) (fits y path) _ _ t
                  (compare_segments-Tells x y path nx ny)
                  (compare_loop-Tells (combine_relationships r (compare_segments x y)) xs ys
                    (first_segment path).1 (a1 && fits x path) (a2 && fits y path) w v
                    (e ∙ ends_in_multi-cons x xs nx) (f ∙ ends_in_multi-cons y ys ny)))
        ]
      ]

-- Two patterns with no multi wildcard that match one path have as many segments.
length-eq_of_matches :
    (xs ys : List Segment) (path : Bytes)
    → IsMultiLast xs
    → IsMultiLast ys
    → ends_in_multi xs ≡ false
    → ends_in_multi ys ≡ false
    → path_matches xs path ≡ true
    → path_matches ys path ≡ true
    → length xs ≡ length ys
length-eq_of_matches [] [] path w v e f h k = refl
length-eq_of_matches [] (y ∷ ys) path w v e f h k = unfold path_matches in ground arith
length-eq_of_matches (x ∷ xs) [] path w v e f h k = unfold path_matches in ground arith
length-eq_of_matches (x ∷ xs) (y ∷ ys) path (lx, w) (ly, v) e f h k = ground (
  arith,
  ends_in_multi-last x xs,
  ends_in_multi-last y ys,
  ends_in_multi-cons x xs,
  ends_in_multi-cons y ys,
  path_matches-fits x xs path,
  path_matches-fits y ys path,
  length-eq_of_matches xs ys (first_segment path).1 w v,
)

-- Whatever `comparePaths` answers is true of every request path: equivalent patterns match the same
-- paths, a more general one matches all that the other does, and disjoint ones have no path in
-- common. The multi wildcards stand last.
pub compare_paths-Tells :
    (xs ys : List Segment) (path : Bytes)
    → IsMultiLast xs
    → IsMultiLast ys
    → Tells (compare_paths xs ys) (path_matches xs path) (path_matches ys path)
unfolding compare_paths
compare_paths-Tells xs ys path w v = ground (
  arith,
  compare_loop-Tells (ends_in_multi xs) (ends_in_multi ys) equivalent xs ys path true true w v refl
      refl refl,
  length-eq_of_matches xs ys path w v,
)

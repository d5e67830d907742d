-- ===== src/Routing/Multi.antt =====
-- `addSegments` keeps the nodes of multi wildcards leaves, so that `matchPath` does not panic.
use mathlib.Core.Path.{subst}
use oohttp.Base.{
  true, false, List, [], ◌∷◌, ◌≡◌, refl, Option, none, some, Bytes, equal, equal_iff, Bool-cases,
  inl, inr, is_empty, All,
}
use oohttp.Pattern.{Segment, last_segment}
use oohttp.Routing.Best.{node_at, IsMultiLeaf, HasMultiLeaves}
use oohttp.Routing.Fields.{Changes, at_child-Changes}
use oohttp.Routing.Insert.{find_child-fresh, is_nil-added_child, set-Adds}
use oohttp.Routing.{
  Leaf, Tree, nil, node, fresh, star, is_nil, find_child, added_child, at_child, set, add_segments,
}

-- A literal is not empty, and is not the text by which the tree names multi wildcards.
abbrev pub IsPlainSegment : Segment → Type 0
IsPlainSegment x =
    x.multi ≡ false → x.wild ≡ false → (equal x.s star ≡ false) × (is_empty x.s ≡ false)

node_at-nil : (ks : List Bytes) → node_at nil ks ≡ nil
unfolding find_child
node_at-nil [] = refl
node_at-nil (k ∷ ks) = node_at-nil ks

node_at_is_nil : (n : Tree) → ((k : Bytes) → find_child n k ≡ nil) → HasMultiLeaves n
unfolding find_child
node_at_is_nil n h [] g = cc (h star)
node_at_is_nil n h (k ∷ ks) g =
    let e : node_at (find_child n k) ks ≡ nil = rw (h k) (node_at-nil ks) in
    cc (subst (λ t. is_nil (find_child t star) ≡ false) e g)

pub nil-HasMultiLeaves : HasMultiLeaves nil
unfolding find_child
nil-HasMultiLeaves = node_at_is_nil nil (λ k. refl)

pub fresh-HasMultiLeaves : HasMultiLeaves fresh
fresh-HasMultiLeaves = node_at_is_nil fresh find_child-fresh

added_child-HasMultiLeaves :
    (n : Tree) (k : Bytes) → HasMultiLeaves n → HasMultiLeaves (added_child n k)
unfolding added_child
added_child-HasMultiLeaves n k w = elim (Bool-cases (is_nil (find_child n k))) [
  | inl absent ↦ rw absent fresh-HasMultiLeaves
  | inr there ↦ rw there (λ ks. w (k ∷ ks))
]

Changes-HasMultiLeaves :
    {n n' : Tree} {k : Bytes} {step : Tree → Option Tree} (c : Changes n k step n')
    → HasMultiLeaves n
    → HasMultiLeaves c.changed
    → (equal k star ≡ true → IsMultiLeaf c.changed)
    → HasMultiLeaves n'
Changes-HasMultiLeaves {n} {n'} {k} c w v m [] = elim (Bool-cases (equal k star)) [
  | inl same ↦ rw (c.field star, same) (λ _. m same)
  | inr other ↦ rw (c.field star, other) (w [])
]
Changes-HasMultiLeaves {n} {n'} {k} c w v m (j ∷ ks) = elim (Bool-cases (equal k j)) [
  | inl same ↦ rw (c.field j, same) (v ks)
  | inr other ↦ rw (c.field j, other) (w (j ∷ ks))
]

set-HasMultiLeaves :
    (n : Tree) (l : Leaf) {n' : Tree} → set l n ≡ some n' → HasMultiLeaves n → HasMultiLeaves n'
unfolding set find_child
set-HasMultiLeaves nil l e w = cc
set-HasMultiLeaves (node (some _) cs d) l e w = cc
set-HasMultiLeaves (node none cs d) l e w =
    subst HasMultiLeaves (cc) (same (node none cs d) (node (some l) cs d) (λ k. refl) w)
  where
    same :
        (n n' : Tree)
        → ((k : Bytes) → find_child n' k ≡ find_child n k)
        → HasMultiLeaves n
        → HasMultiLeaves n'
    same n n' h w [] = rw (h star) (w [])
    same n n' h w (k ∷ ks) = rw (h k) (w (k ∷ ks))

pub at_child-HasMultiLeaves :
    (n : Tree) (k : Bytes) (step : Tree → Option Tree) {n' : Tree}
    → is_nil n ≡ false
    → HasMultiLeaves n
    → ((c c' : Tree) → is_nil c ≡ false → HasMultiLeaves c → step c ≡ some c' → HasMultiLeaves c')
    → ((c c' : Tree) → equal k star ≡ true → step c ≡ some c' → IsMultiLeaf c')
    → at_child n k step ≡ some n'
    → HasMultiLeaves n'
at_child-HasMultiLeaves n k step h w keep leaf e =
    let c = at_child-Changes n k step h e in
    Changes-HasMultiLeaves c w
      (keep (added_child n k) c.changed (is_nil-added_child n k) (added_child-HasMultiLeaves n k w)
        c.steps)
      (λ s. leaf (added_child n k) c.changed s c.steps)

pub add_segments-HasMultiLeaves :
    (segs : List Segment) (l : Leaf) (x : Segment) (n : Tree) {n' : Tree}
    → last_segment l.pattern.segments ≡ some x
    → All IsPlainSegment segs
    → is_nil n ≡ false
    → HasMultiLeaves n
    → add_segments segs l n ≡ some n'
    → HasMultiLeaves n'
unfolding add_segments
add_segments-HasMultiLeaves [] l x n y p h w e = set-HasMultiLeaves n l e w
add_segments-HasMultiLeaves (s ∷ segs) l x n y (p, ps) h w e = elim (Bool-cases s.multi) [
  | inl m ↦ elim (Bool-cases (is_empty segs)) [
    | inl last ↦
        at_child-HasMultiLeaves n star (set l) h w (λ c c' _ v q. set-HasMultiLeaves c l q v)
          (λ c c' _ q. record {
            leaf = l;
            leaf_is = (set-Adds c l q).1 [];
            segment = x;
            segment_is = y;
          })
          (rw (m, last) at e)
    | inr more ↦ cc (rw (m, more) at e)
  ]
  | inr o ↦ elim (Bool-cases s.wild) [
    | inl v ↦
        at_child-HasMultiLeaves n [] (add_segments segs l) h w
          (λ c c' g u q. add_segments-HasMultiLeaves segs l x c y ps g u q)
          (λ c c' r q. cc ((equal_iff [] star).0 r)) (rw (o, v) at e)
    | inr u ↦
        at_child-HasMultiLeaves n s.s (add_segments segs l) h w
          (λ c c' g v q. add_segments-HasMultiLeaves segs l x c y ps g v q)
          (λ c c' r q. cc (r, (p o u).0)) (rw (o, u) at e)
  ]
]

-- ===== src/Routing/Insert.antt =====
-- A tree read as a table: the leaf that stands at a list of keys, and what `addSegments` does to
-- that table.
use mathlib.Core.Path.{subst}
use oohttp.Base.{
  Bool, true, false, ◌&&◌, List, [], ◌∷◌, ◌≡◌, refl, ◌∙◌, sym, arith, Option, none, some,
  if◌then◌else◌, Bytes, equal, equal_iff, Bool-cases, inl, inr, is_empty,
}
use oohttp.Pattern.{Segment}
use oohttp.Routing.Fields.{Changes, at_child-Changes}
use oohttp.Routing.{
  Leaf, Tree, nil, node, fresh, star, leaf_of, is_nil, find, find_child, added_child, at_child, set,
  add_segments,
}

-- The key under which a segment's child stands.
abbrev pub key_of : Segment → Bytes
key_of x = if x.multi then star else if x.wild then [] else x.s

abbrev pub keys_of : List Segment → List Bytes
keys_of [] = []
keys_of (x ∷ segs) = key_of x ∷ keys_of segs

abbrev pub leaf_at : Tree → List Bytes → Option Leaf
leaf_at n [] = leaf_of n
leaf_at n (k ∷ ks) = leaf_at (find_child n k) ks

abbrev pub same_keys : List Bytes → List Bytes → Bool
same_keys [] [] = true
same_keys (x ∷ xs) (y ∷ ys) = equal x y && same_keys xs ys
same_keys _ _ = false

pub leaf_at-nil : (ks : List Bytes) → leaf_at nil ks ≡ none
unfolding find_child
leaf_at-nil [] = refl
leaf_at-nil (k ∷ ks) = leaf_at-nil ks

pub find_child-fresh : (k : Bytes) → find_child fresh k ≡ nil
unfolding find_child find
find_child-fresh k = ground arith

pub leaf_at-fresh : (ks : List Bytes) → leaf_at fresh ks ≡ none
leaf_at-fresh [] = refl
leaf_at-fresh (k ∷ ks) = rw (find_child-fresh k) (leaf_at-nil ks)

pub leaf_at-added_child :
    (n : Tree) (k : Bytes) (ks : List Bytes)
    → leaf_at (added_child n k) ks ≡ leaf_at (find_child n k) ks
unfolding added_child
leaf_at-added_child n k ks = go (find_child n k)
  where
    go : (t : Tree) → leaf_at (if is_nil t then fresh else t) ks ≡ leaf_at t ks
    go nil = leaf_at-fresh ks ∙ sym (leaf_at-nil ks)
    go (node l cs e) = refl

pub is_nil-added_child : (n : Tree) (k : Bytes) → is_nil (added_child n k) ≡ false
unfolding added_child
is_nil-added_child n k = ground arith

-- The table of `n'` is that of `n` with the leaf `l` at `keys`.
abbrev pub Adds : Tree → List Bytes → Leaf → Tree → Type 0
Adds n keys l n' =
    (is_nil n' ≡ false)
    × ((ks : List Bytes) → leaf_at n' ks ≡ (if same_keys keys ks then some l else leaf_at n ks))

pub is_empty-eq : (segs : List Segment) → is_empty segs ≡ true → segs ≡ []
is_empty-eq segs h = ground arith

pub set-Adds : (n : Tree) (l : Leaf) {n' : Tree} → set l n ≡ some n' → Adds n [] l n'
unfolding set find_child
set-Adds nil l e = cc
set-Adds (node (some _) cs d) l e = cc
set-Adds (node none cs d) l e = subst (λ t. Adds (node none cs d) [] l t) (cc) (refl, same)
  where
    same :
        (ks : List Bytes)
        → leaf_at (node (some l) cs d) ks
          ≡ (if same_keys [] ks then some l else leaf_at (node none cs d) ks)
    same [] = refl
    same (k ∷ ks) = refl

Changes-leaf_at :
    (n : Tree) (k : Bytes) (keys : List Bytes) (l : Leaf) (step : Tree → Option Tree) {n' : Tree}
    (c : Changes n k step n')
    → ((ks : List Bytes)
        → leaf_at c.changed ks
          ≡ (if same_keys keys ks then some l else leaf_at (added_child n k) ks))
    → (ks : List Bytes) → leaf_at n' ks ≡ (if same_keys (k ∷ keys) ks then some l else leaf_at n ks)
Changes-leaf_at n k keys l step c below [] = c.leaf
Changes-leaf_at n k keys l step c below (j ∷ ks) = elim (Bool-cases (equal k j)) [
  | inl same ↦
      let eq : j ≡ k = sym ((equal_iff k j).0 same) in
      rw (c.field j, same, below ks, leaf_at-added_child n k ks, eq)
  | inr other ↦ rw (c.field j, other)
]

pub at_child-Adds :
    (n : Tree) (k key : Bytes) (keys : List Bytes) (l : Leaf) (step : Tree → Option Tree)
    {n' : Tree}
    → k ≡ key
    → is_nil n ≡ false
    → ((c c' : Tree) → is_nil c ≡ false → step c ≡ some c' → Adds c keys l c')
    → at_child n k step ≡ some n'
    → Adds n (key ∷ keys) l n'
at_child-Adds n k key keys l step {n'} eq h under e =
    let c = at_child-Changes n k step h e in
    let below = under (added_child n k) c.changed (is_nil-added_child n k) c.steps in
    subst (λ j. Adds n (j ∷ keys) l n') eq (c.not_nil, Changes-leaf_at n k keys l step c below.1)

-- What `addSegments` does to the table when it does not panic.
pub add_segments-Adds :
    (segs : List Segment) (l : Leaf) (n : Tree) {n' : Tree}
    → is_nil n ≡ false
    → add_segments segs l n ≡ some n'
    → Adds n (keys_of segs) l n'
unfolding add_segments
add_segments-Adds [] l n h e = set-Adds n l e
add_segments-Adds (x ∷ segs) l n h e = elim (Bool-cases x.multi) [
  | inl m ↦ elim (Bool-cases (is_empty segs)) [
    | inl last ↦
        at_child-Adds n star (key_of x) (keys_of segs) l (set l) (ground arith) h
          (λ c c' _ s. rw (is_empty-eq segs last) (set-Adds c l s)) (rw (m, last) at e)
    | inr more ↦ cc (rw (m, more) at e)
  ]
  | inr o ↦ elim (Bool-cases x.wild) [
    | inl w ↦
        at_child-Adds n [] (key_of x) (keys_of segs) l (add_segments segs l) (ground arith) h
          (λ c c' g. add_segments-Adds segs l c g) (rw (o, w) at e)
    | inr v ↦
        at_child-Adds n x.s (key_of x) (keys_of segs) l (add_segments segs l) (ground arith) h
          (λ c c' g. add_segments-Adds segs l c g) (rw (o, v) at e)
  ]
]

-- ===== src/Routing/Fields.antt =====
-- Writing a child of a node changes that child and nothing else.
use mathlib.Core.Path.{subst}
use oohttp.Base.{
  false, ◌≡◌, refl, inl, inr, arith, Option, some, if◌then◌else◌, Bytes, equal, equal_iff,
  Option-cases,
}
use oohttp.Routing.{
  Tree, nil, node, Children, empty, child, fresh, find, add, put, find_child, add_child,
  added_child, put_child, at_child, is_nil, leaf_of,
}

find-put :
    (cs : Children) (k j : Bytes) (c : Tree)
    → is_nil (find cs k) ≡ false
    → find (put cs k c) j ≡ (if equal k j then c else find cs j)
unfolding find put
find-put empty k j c h = ground arith
find-put (child i d cs) k j c h =
    ground (arith, equal_iff i k, equal_iff i j, equal_iff k j, find-put cs k j c)

find-add_ne :
    (cs : Children) (k j : Bytes) (b : Tree) → equal k j ≡ false → find (add cs k b) j ≡ find cs j
unfolding find add
find-add_ne empty k j b h = ground arith
find-add_ne (child i d cs) k j b h = ground (arith, find-add_ne cs k j b h)

find-put-add :
    (cs : Children) (k j : Bytes) (b c : Tree)
    → find (put (add cs k b) k c) j ≡ (if equal k j then c else find cs j)
unfolding find put add
find-put-add empty k j b c = ground (arith, equal_iff k k)
find-put-add (child i d cs) k j b c = ground (
  arith,
  equal_iff i k,
  equal_iff i j,
  equal_iff k j,
  find-put-add cs k j b c,
  find-add_ne cs k j b,
)

-- A node, whose child with the key is made if it is missing and then written.
pub find_child-put_child :
    (n : Tree) (k j : Bytes) (c : Tree)
    → is_nil n ≡ false
    → find_child (put_child (add_child n k) k c) j ≡ (if equal k j then c else find_child n j)
unfolding find_child put_child add_child
find_child-put_child nil k j c h = ground arith
find_child-put_child (node l cs e) k j c h =
    ground (arith, equal_iff k j, find-put cs k j c, find-put-add cs k j fresh c)

pub leaf_of-put_child :
    (n : Tree) (k : Bytes) (c : Tree) → leaf_of (put_child (add_child n k) k c) ≡ leaf_of n
unfolding put_child add_child
leaf_of-put_child nil k c = refl
leaf_of-put_child (node l cs e) k c = ground arith

-- What a call of `at_child` does: it takes one step on the child, which is a fresh node if there was
-- none, and changes nothing else.
pub record Changes (n : Tree) (k : Bytes) (step : Tree → Option Tree) (n' : Tree) : Type 0 where
  pub changed : Tree
  pub steps : step (added_child n k) ≡ some changed
  pub leaf : leaf_of n' ≡ leaf_of n
  pub field : (j : Bytes) → find_child n' j ≡ (if equal k j then changed else find_child n j)
  pub not_nil : is_nil n' ≡ false

is_nil-put_child :
    (n : Tree) (k : Bytes) (c : Tree)
    → is_nil n ≡ false
    → is_nil (put_child (add_child n k) k c) ≡ false
unfolding put_child add_child
is_nil-put_child n k c h = ground arith

pub at_child-Changes :
    (n : Tree) (k : Bytes) (step : Tree → Option Tree) {n' : Tree}
    → is_nil n ≡ false
    → at_child n k step ≡ some n'
    → Changes n k step n'
unfolding at_child
at_child-Changes n k step {n'} h e = elim (Option-cases (step (added_child n k))) [
  | inl stuck ↦ cc (rw stuck at e)
  | inr (c, done) ↦
      let same : put_child (add_child n k) k c ≡ n' = cc (rw done at e) in
      subst (λ t. Changes n k step t) same
        (record {
          changed = c;
          steps = done;
          leaf = leaf_of-put_child n k c;
          field = λ j. find_child-put_child n k j c h;
          not_nil = is_nil-put_child n k c h;
        })
]

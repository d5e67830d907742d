-- ===== src/Routing/Addition.antt =====
-- `addPattern` as an operation on the table of leaves, on every branch.
use oohttp.Base.{ℕ, false, List, ◌≡◌, inl, inr, Option, none, some, Bytes, Option-cases}
use oohttp.Pattern.Meaning.{IsMultiLast}
use oohttp.Pattern.{Pattern}
use oohttp.Routing.Insert.{leaf_at, Adds}
use oohttp.Routing.Table.{route_keys, add_pattern-Adds}
use oohttp.Routing.Total.{add_pattern-Succeeds}
use oohttp.Routing.{Leaf, Tree, is_nil, add_pattern}

-- A leaf that stands at the keys is a panic, else the table of the new tree is the old one with the
-- leaf `l` at the keys.
pub data AddResult (root : Tree) (keys : List Bytes) (l : Leaf) : Option Tree → Type 0 where
  refused : (x : Leaf) → leaf_at root keys ≡ some x → AddResult root keys l none
  added : {root' : Tree} → Adds root keys l root' → AddResult root keys l (some root')

-- Adding a pattern whose multi wildcards stand last to a root that is not nil panics only if a leaf
-- stands already at the pattern's host, method and segments; else it writes the leaf there, and the
-- leaf at any other keys is the one before.
pub add_pattern-AddResult :
    (p : Pattern) (h : ℕ) (root : Tree)
    → is_nil root ≡ false
    → IsMultiLast p.segments
    → AddResult root (route_keys p) (record { pattern = p; handler = h }) (add_pattern p h root)
add_pattern-AddResult p h root g w = elim (Option-cases (add_pattern p h root)) [
  | inr (_, e) ↦ rw e (added (add_pattern-Adds p h root g e))
  | inl stops ↦ elim (Option-cases (leaf_at root (route_keys p))) [
    | inr (x, stands) ↦ rw stops (refused x stands)
    | inl free ↦ let (_, e) = add_pattern-Succeeds p h root w free in cc
  ]
]

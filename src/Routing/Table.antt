-- ===== src/Routing/Table.antt =====
-- `addPattern` on a tree read as a table, and the keys of a pattern against its meaning.
use oohttp.Base.{
  ℕ, true, false, List, [], ◌∷◌, ◌≡◌, refl, arith, Option, some, Bytes, equal, equal_iff,
  Bool-cases, inl, inr, All,
}
use oohttp.Paths.{first_segment}
use oohttp.Pattern.Meaning.{path_matches, IsMultiLast}
use oohttp.Pattern.{Segment, Pattern, last_segment, slash}
use oohttp.Routing.Best.{HasMultiLeaves}
use oohttp.Routing.Fields.{at_child-Changes}
use oohttp.Routing.Insert.{
  keys_of, Adds, at_child-Adds, add_segments-Adds, is_nil-added_child, find_child-fresh,
}
use oohttp.Routing.Multi.{
  IsPlainSegment, add_segments-HasMultiLeaves, fresh-HasMultiLeaves, nil-HasMultiLeaves,
}
use oohttp.Routing.Search.{key_matches}
use oohttp.Routing.{
  Tree, fresh, star, is_nil, find_child, added_child, at_child, add_segments, add_pattern,
}

-- The keys of a pattern's leaf.
abbrev pub route_keys : Pattern → List Bytes
route_keys p = p.host ∷ p.method ∷ keys_of p.segments

-- What `parsePattern` makes, and no literal that the tree takes for a wildcard.
pub record IsRoutable (p : Pattern) : Type 0 where
  pub last : Segment
  pub last_is : last_segment p.segments ≡ some last
  pub multi_last : IsMultiLast p.segments
  pub plain : All IsPlainSegment p.segments
  pub dollar : equal last.s slash ≡ true → (last.wild ≡ false) × (last.multi ≡ false)

pub key_matches-path_matches :
    (segs : List Segment) (path : Bytes)
    → IsMultiLast segs
    → All IsPlainSegment segs
    → key_matches (keys_of segs) path ≡ path_matches segs path
unfolding path_matches
key_matches-path_matches [] path w p = refl
key_matches-path_matches (x ∷ segs) path (last, w) (plain, p) = ground (
  arith,
  last,
  plain,
  equal_iff star star,
  equal_iff [] star,
  key_matches-path_matches segs (first_segment path).1 w p,
)

pub add_pattern-Adds :
    (p : Pattern) (h : ℕ) (root : Tree) {root' : Tree}
    → is_nil root ≡ false
    → add_pattern p h root ≡ some root'
    → Adds root (route_keys p) (record { pattern = p; handler = h }) root'
unfolding add_pattern
add_pattern-Adds p h root g e =
    at_child-Adds root p.host p.host (p.method ∷ keys_of p.segments) _ _ refl g
      (λ c c' i.
        at_child-Adds c p.method p.method (keys_of p.segments) _ _ refl i
          (λ d d' j. add_segments-Adds p.segments _ d j))
      e

-- All the subtrees of paths have leaves for their multi wildcards.
abbrev pub IsSound : Tree → Type 0
IsSound root = (host method : Bytes) → HasMultiLeaves (find_child (find_child root host) method)

added_child-cases :
    (P : Tree → Type 0) (n : Tree) (k : Bytes) → P (find_child n k) → P fresh → P (added_child n k)
unfolding added_child
added_child-cases P n k v z = elim (Bool-cases (is_nil (find_child n k))) [
  | inl absent ↦ rw absent z
  | inr there ↦ rw there v
]

-- A property of all the children of a node, which a fresh node has and the step keeps.
at_child-children :
    (P : Tree → Type 0) (n : Tree) (k : Bytes) (step : Tree → Option Tree) {n' : Tree}
    → is_nil n ≡ false
    → P fresh
    → ((c c' : Tree) → is_nil c ≡ false → P c → step c ≡ some c' → P c')
    → ((j : Bytes) → P (find_child n j))
    → at_child n k step ≡ some n'
    → (j : Bytes) → P (find_child n' j)
at_child-children P n k step h z keep w e j =
    let c = at_child-Changes n k step h e in
    elim (Bool-cases (equal k j)) [
      | inl same ↦
          rw (c.field j, same)
            (keep (added_child n k) c.changed (is_nil-added_child n k) (start (w k)) c.steps)
      | inr other ↦ rw (c.field j, other) (w j)
    ]
  where
    start : P (find_child n k) → P (added_child n k)
    start v = added_child-cases P n k v z

pub add_pattern-IsSound :
    (p : Pattern) (h : ℕ) (root : Tree) {root' : Tree}
    → IsRoutable p
    → is_nil root ≡ false
    → IsSound root
    → add_pattern p h root ≡ some root'
    → IsSound root'
unfolding add_pattern
add_pattern-IsSound p h root r g w e =
    at_child-children (λ t. (m : Bytes) → HasMultiLeaves (find_child t m)) root p.host
      (λ n. at_child n p.method (add_segments p.segments (record { pattern = p; handler = h }))) g
      (λ m. rw (find_child-fresh m) nil-HasMultiLeaves)
      (λ c c' i v q.
        at_child-children HasMultiLeaves c p.method
          (add_segments p.segments (record { pattern = p; handler = h })) i fresh-HasMultiLeaves
          (λ d d' j u t.
            add_segments-HasMultiLeaves p.segments (record { pattern = p; handler = h }) r.last d
              r.last_is r.plain j u t)
          v q)
      w e

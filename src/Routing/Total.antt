-- ===== src/Routing/Total.antt =====
-- `addPattern` panics only where a leaf stands already, and two patterns with the same keys conflict.
use oohttp.Base.{
  ℕ, Bool, true, false, List, [], ◌∷◌, ◌≡◌, refl, ◌∙◌, arith, Option, none, some, Bytes, equal_iff,
  Bool-cases, inl, inr, All, length,
}
use oohttp.Pattern.Meaning.{IsMultiLast}
use oohttp.Pattern.{
  Segment, Pattern, equivalent, combine_relationships, compare_segments, compare_loop, compare_rest,
  ends_in_multi, compare_paths, compare_methods, compare_paths_and_methods, conflicts_with,
}
use oohttp.Routing.Insert.{leaf_at, keys_of, key_of, leaf_at-added_child, is_nil-added_child}
use oohttp.Routing.Multi.{IsPlainSegment}
use oohttp.Routing.Table.{route_keys, IsRoutable}
use oohttp.Routing.{
  Leaf, Tree, nil, node, star, leaf_of, is_nil, add_child, put_child, added_child, at_child, set,
  add_segments, add_pattern,
}

-- The step succeeds on the tree.
abbrev Succeeds : Option Tree → Type 0
Succeeds o = (t : Tree) × (o ≡ some t)

at_child-Succeeds :
    (n : Tree) (k : Bytes) (step : Tree → Option Tree)
    → Succeeds (step (added_child n k))
    → Succeeds (at_child n k step)
unfolding at_child
at_child-Succeeds n k step (t, e) = (put_child (add_child n k) k t, rw e)

set-Succeeds : (l : Leaf) (n : Tree) → is_nil n ≡ false → leaf_of n ≡ none → Succeeds (set l n)
unfolding set
set-Succeeds l nil h e = cc
set-Succeeds l (node none cs d) h e = (_, refl)
set-Succeeds l (node (some _) cs d) h e = cc

add_segments-Succeeds :
    (segs : List Segment) (l : Leaf) (n : Tree)
    → IsMultiLast segs
    → is_nil n ≡ false
    → leaf_at n (keys_of segs) ≡ none
    → Succeeds (add_segments segs l n)
unfolding add_segments
add_segments-Succeeds [] l n w h e = set-Succeeds l n h e
add_segments-Succeeds (x ∷ segs) l n (last, w) h e = elim (Bool-cases x.multi) [
  | inl m ↦
      let none_left : segs ≡ [] = last m in
      rw (m, none_left)
        (at_child-Succeeds n star (set l) (
          set-Succeeds l (added_child n star) (is_nil-added_child n star)
            (leaf_at-added_child n star [] ∙ rw (none_left, m, key_of) at e)))
  | inr o ↦ elim (Bool-cases x.wild) [
    | inl v ↦
        rw (o, v)
          (at_child-Succeeds n [] (add_segments segs l) (
            add_segments-Succeeds segs l (added_child n []) w (is_nil-added_child n [])
              (leaf_at-added_child n [] (keys_of segs) ∙ rw (o, v) at e)))
    | inr u ↦
        rw (o, u)
          (at_child-Succeeds n x.s (add_segments segs l) (
            add_segments-Succeeds segs l (added_child n x.s) w (is_nil-added_child n x.s)
              (leaf_at-added_child n x.s (keys_of segs) ∙ rw (o, u) at e)))
  ]
]

pub add_pattern-Succeeds :
    (p : Pattern) (h : ℕ) (root : Tree)
    → IsMultiLast p.segments
    → leaf_at root (route_keys p) ≡ none
    → Succeeds (add_pattern p h root)
unfolding add_pattern
add_pattern-Succeeds p h root w e =
    let c = added_child root p.host in
    let l : Leaf = record { pattern = p; handler = h } in
    at_child-Succeeds root p.host (λ n. at_child n p.method (add_segments p.segments l))
      (at_child-Succeeds c p.method (add_segments p.segments l) (
        add_segments-Succeeds p.segments l (added_child c p.method) w
          (is_nil-added_child c p.method)
          (leaf_at-added_child c p.method (keys_of p.segments)
            ∙ leaf_at-added_child root p.host (p.method ∷ keys_of p.segments)
            ∙ e)))

compare_segments-same_key :
    (x y : Segment)
    → IsPlainSegment x
    → IsPlainSegment y
    → key_of x ≡ key_of y
    → compare_segments x y ≡ equivalent
unfolding compare_segments
compare_segments-same_key x y a b h =
    ground (arith, a, b, equal_iff x.s y.s, equal_iff x.s star, equal_iff y.s star)

compare_loop-same_keys :
    (m1 m2 : Bool) (xs ys : List Segment)
    → All IsPlainSegment xs
    → All IsPlainSegment ys
    → keys_of xs ≡ keys_of ys
    → (compare_loop m1 m2 equivalent xs ys ≡ equivalent) × (length xs ≡ length ys)
unfolding compare_loop compare_rest combine_relationships
compare_loop-same_keys m1 m2 [] [] p q h = (refl, refl)
compare_loop-same_keys m1 m2 [] (y ∷ ys) p q h = cc
compare_loop-same_keys m1 m2 (x ∷ xs) [] p q h = cc
compare_loop-same_keys m1 m2 (x ∷ xs) (y ∷ ys) (a, p) (b, q) h =
    ground (arith, compare_segments-same_key x y a b, compare_loop-same_keys m1 m2 xs ys p q)

-- Patterns that would share a leaf conflict.
pub conflicts_with-same_keys :
    (p q : Pattern)
    → IsRoutable p
    → IsRoutable q
    → route_keys p ≡ route_keys q
    → conflicts_with p q ≡ true
unfolding conflicts_with compare_paths_and_methods compare_paths compare_methods
    combine_relationships
conflicts_with-same_keys p q r s h = ground (
  arith,
  equal_iff p.host q.host,
  equal_iff p.method q.method,
  compare_loop-same_keys (ends_in_multi p.segments) (ends_in_multi q.segments) p.segments q.segments
      r.plain s.plain,
)

-- ===== src/Routing.antt =====
-- routing_tree.go: the decision tree that matches requests to patterns.
pub mod Matching
pub mod Fields
pub mod Insert
pub mod Search
pub mod Best
pub mod Multi
pub mod Table
pub mod Precedence
pub mod Total
pub mod Addition
pub mod Requests
pub mod Wildcards
mod Tests
use mathlib.Core.Option
use oohttp.Base.{
  ℕ, Bool, true, false, List, [], ◌∷◌, Option, none, some, if◌then◌else◌, Bytes, codes, equal,
  is_empty,
}
use oohttp.Pattern.{Segment, Pattern}

-- A leaf's pattern, and its handler by a number. `set` fills both fields at once, so the model has
-- one field that is there or not.
pub record Leaf : Type 0 where
  pub pattern : Pattern
  pub handler : ℕ

-- `*routingNode`, with its nil pointer, and the pairs of its `mapping` in the order of insertion.
mutual
  pub data Tree : Type 0 where
    nil : Tree
    node : Option Leaf → Children → Tree → Tree

  pub data Children : Type 0 where
    empty : Children
    child : Bytes → Tree → Children → Children

-- `&routingNode{}`
abbrev pub fresh : Tree
fresh = node none empty nil

abbrev pub star : Bytes
star = codes "*"

abbrev pub is_nil : Tree → Bool
is_nil nil = true
is_nil (node _ _ _) = false

-- The field `pattern` of a node, with its handler.
abbrev pub leaf_of : Tree → Option Leaf
leaf_of nil = none
leaf_of (node l _ _) = l

-- `mapping.find`; the zero value is nil.
unfoldable pub find : Children → Bytes → Tree
find empty key = nil
find (child k c cs) key = if equal k key then c else find cs key

-- `mapping.add`, of a key that is not there.
unfoldable pub add : Children → Bytes → Tree → Children
add empty key c = child key c empty
add (child k d cs) key c = child k d (add cs key c)

-- A write through the pointer that `find` returns.
unfoldable pub put : Children → Bytes → Tree → Children
put empty key c = empty
put (child k d cs) key c = if equal k key then child k c cs else child k d (put cs key c)

-- `findChild`, which is called on nodes that are not nil.
unfoldable pub find_child : Tree → Bytes → Tree
find_child nil key = nil
find_child (node l cs e) key = if is_empty key then e else find cs key

-- The receiver after `addChild`.
unfoldable pub add_child : Tree → Bytes → Tree
unfolding find_child find add
add_child nil key = nil
add_child (node l cs e) key =
    if is_empty key
    then node l cs (if is_nil e then fresh else e)
    else if is_nil (find_child (node l cs e) key)
    then node l (add cs key fresh) e
    else node l cs e

-- The pointer that `addChild` returns.
unfoldable pub added_child : Tree → Bytes → Tree
unfolding find_child
added_child n key = if is_nil (find_child n key) then fresh else find_child n key

-- The receiver after its child with the key was changed in place.
unfoldable pub put_child : Tree → Bytes → Tree → Tree
unfolding put
put_child nil key c = nil
put_child (node l cs e) key c = if is_empty key then node l cs c else node l (put cs key c) e

-- `n.addChild(key)` and then `step` on the child.
unfoldable pub at_child : Tree → Bytes → (Tree → Option Tree) → Option Tree
unfolding add_child added_child put_child
at_child n key step = Option.map (put_child (add_child n key) key) (step (added_child n key))

-- `set`; `none` is the panic.
unfoldable pub set : Leaf → Tree → Option Tree
set l nil = none
set l (node none cs e) = some (node (some l) cs e)
set l (node (some _) cs e) = none

-- `addSegments`; `none` is a panic.
unfoldable pub add_segments : List Segment → Leaf → Tree → Option Tree
unfolding at_child set
add_segments [] l n = set l n
add_segments (seg ∷ segs) l n =
    if seg.multi
    then (if is_empty segs then at_child n star (set l) else none)
    else if seg.wild
    then at_child n [] (add_segments segs l)
    else at_child n seg.s (add_segments segs l)

-- `addPattern`
unfoldable pub add_pattern : Pattern → ℕ → Tree → Option Tree
unfolding add_segments
add_pattern p h root =
    at_child root p.host
      (λ n. at_child n p.method (add_segments p.segments (record { pattern = p; handler = h })))

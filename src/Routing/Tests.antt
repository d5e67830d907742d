-- ===== src/Routing/Tests.antt =====
-- A small tree with the patterns "/a/{x}" and "/{rest...}", and the index of one pattern.
use oohttp.Base.{true, false, List, [], ◌∷◌, ◌≡◌, refl, none, some, codes, equal}
use oohttp.Paths.{first_segment}
use oohttp.Pattern.{Segment, last_segment}
use oohttp.Pattern.Meaning.{IsMultiLast}
use oohttp.Routing.Addition.{AddResult, add_pattern-AddResult}
use oohttp.Routing.Table.{route_keys}
use oohttp.Routing.Best.{HasMultiLeaves, match_path-Outcome}
use oohttp.Routing.Matching.{missed, found, match_path}
use oohttp.Routing.Multi.{fresh-HasMultiLeaves, add_segments-HasMultiLeaves}
use oohttp.Routing.Search.{IsPlain, done, more, Outcome}
use oohttp.Routing.Wildcards.{match_path-lone_star}
use oohttp.Routing.{
  Leaf, Tree, nil, node, empty, fresh, child, star, add_segments, add_pattern, find, find_child,
  leaf_of,
}

abbrev item : List Segment
item =
    record { s = codes "a"; wild = false; multi = false }
    ∷ record { s = codes "x"; wild = true; multi = false }
    ∷ []

abbrev all_rest : List Segment
all_rest = record { s = codes "rest"; wild = true; multi = true } ∷ []

abbrev item_leaf : Leaf
item_leaf = record { pattern = record { method = []; host = []; segments = item }; handler = 1 }

abbrev rest_leaf : Leaf
rest_leaf = record { pattern = record { method = []; host = []; segments = all_rest }; handler = 2 }

-- The tree of "/{rest...}".
abbrev rest_tree : Tree
rest_tree = node none (child star (node (some rest_leaf) empty nil) empty) nil

rest_tree_is : add_segments all_rest rest_leaf fresh ≡ some rest_tree
unfolding add_segments equal
rest_tree_is = refl

rest_tree-HasMultiLeaves : HasMultiLeaves rest_tree
unfolding last_segment
rest_tree-HasMultiLeaves =
    add_segments-HasMultiLeaves all_rest rest_leaf
      (record { s = codes "rest"; wild = true; multi = true }) fresh refl (λ e f. cc, tt) refl
      fresh-HasMultiLeaves rest_tree_is

rest_tree-IsMultiLast : IsMultiLast all_rest
rest_tree-IsMultiLast = (λ e. refl, tt)

-- The root with the pattern of `rest_leaf` for any host and any method.
abbrev root : Tree
root = node none empty (node none empty rest_tree)

add_pattern-AddResult_example :
    AddResult root
      (route_keys rest_leaf.pattern)
      (record { pattern = rest_leaf.pattern; handler = 3 })
      (add_pattern rest_leaf.pattern 3 root)
add_pattern-AddResult_example =
    add_pattern-AddResult rest_leaf.pattern 3 root refl rest_tree-IsMultiLast

item_path : IsPlain (codes "/a/b")
unfolding first_segment equal
item_path = more refl refl refl (more refl refl refl done)

match_path-Outcome_example :
    Outcome rest_tree (codes "/a/b") [] (match_path rest_tree (codes "/a/b") [])
match_path-Outcome_example = match_path-Outcome rest_tree [] rest_tree-HasMultiLeaves item_path

found_rest : match_path rest_tree (codes "/a/b") [] ≡ found rest_leaf (codes "a/b" ∷ [])
unfolding match_path
found_rest = refl

star_path : first_segment (codes "/*") ≡ (star, [])
unfolding first_segment
star_path = refl

star_leaf : (leaf_of (find_child rest_tree star)) ≡ some rest_leaf
unfolding find_child find equal
star_leaf = refl

match_path-lone_star_example : match_path rest_tree (codes "/*") [] ≡ found rest_leaf []
match_path-lone_star_example =
    match_path-lone_star rest_tree (codes "/*") rest_leaf [] refl refl star_path star_leaf

-- An escaped slash unescapes to the tree's mark for a trailing slash, so "/{x}" does not match it.
escaped_slash :
    match_path (node none empty (node (some item_leaf) empty nil)) (codes "/%2F") [] ≡ missed
unfolding match_path first_segment find_child find equal
escaped_slash = refl

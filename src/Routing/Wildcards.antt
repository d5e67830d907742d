-- ===== src/Routing/Wildcards.antt =====
-- A kind of request path on which `matchPath` departs from the documented meaning of wildcards: the
-- text "*" is also the tree's key for multi wildcards.
use oohttp.Base.{false, List, [], ◌≡◌, ap, ◌∙◌, arith, none, some, Bytes, is_empty}
use oohttp.Paths.{first_segment}
use oohttp.Routing.Matching.{found, match_path}
use oohttp.Routing.Search.{match_path-attempts}
use oohttp.Routing.{Leaf, Tree, nil, node, find_child, is_nil, star, leaf_of}

match_path-end :
    (n : Tree) (l : Leaf) (ms : List Bytes) → leaf_of n ≡ some l → match_path n [] ms ≡ found l ms
unfolding match_path
match_path-end nil l ms h = cc
match_path-end (node none cs e) l ms h = cc
match_path-end (node (some x) cs e) l ms h = ground arith

-- At a node with a leaf for a multi wildcard, a last path segment "*" reaches that leaf as if it were
-- a literal, so that the wildcard's value is not recorded, whatever its name.
pub match_path-lone_star :
    (n : Tree) (path : Bytes) (l : Leaf) (ms : List Bytes)
    → is_nil n ≡ false
    → is_empty path ≡ false
    → first_segment path ≡ (star, [])
    → leaf_of (find_child n star) ≡ some l
    → match_path n path ms ≡ found l ms
match_path-lone_star n path l ms h e f s =
    let seg_is : (first_segment path).0 ≡ star = ap (λ (p : Bytes × Bytes). p.0) f in
    let rest_is : (first_segment path).1 ≡ [] = ap (λ (p : Bytes × Bytes). p.1) f in
    match_path-attempts n path ms h e (rw seg_is)
    ∙ rw (seg_is, rest_is, match_path-end (find_child n star) l ms s)

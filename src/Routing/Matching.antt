-- ===== src/Routing/Matching.antt =====
-- routing_tree.go: `match`, `matchMethodAndPath`, `matchPath`, and `matchingMethods`.
use oohttp.Base.{
  Bool, true, false, ◌||◌, List, [], ◌∷◌, ◌++◌, Option, none, some, if◌then◌else◌, Bytes, equal,
  is_empty, drop,
}
use oohttp.Paths.{first_segment, path_unescape}
use oohttp.Pattern.{last_segment, slash, get, head}
use oohttp.Routing.{Leaf, Tree, nil, node, Children, empty, child, find, find_child, is_nil, star}

-- The result of a match: no node, a leaf with the values of the wildcards, or a panic.
pub data Match : Type 0 where
  missed : Match
  found : Leaf → List Bytes → Match
  panicked : Match

-- `if n, m := first; n != nil { return n, m }`, and then `next`.
abbrev pub or_else : Match → Match → Match
or_else missed next = next
or_else (found l ms) next = found l ms
or_else panicked next = panicked

-- The end of the path: a leaf matches, an interior node does not.
abbrev pub match_end : Option Leaf → List Bytes → Match
match_end none ms = missed
match_end (some l) ms = found l ms

-- The multi wildcard takes the whole path. A nameless one records no match; a node with no pattern
-- here is a nil dereference.
unfoldable pub match_multi : Tree → Bytes → List Bytes → Match
unfolding path_unescape last_segment
match_multi nil path ms = missed
match_multi (node none cs e) path ms = panicked
match_multi (node (some l) cs e) path ms = elim (last_segment l.pattern.segments) [
  | none ↦ panicked
  | some seg ↦ found l (if is_empty seg.s then ms else ms ++ (path_unescape (drop 1 path) ∷ []))
]

unfoldable mutual
  unfolding first_segment match_multi find equal

  -- `matchPath`
  pub match_path : Tree → Bytes → List Bytes → Match
  match_path nil path ms = missed
  match_path (node l cs e) path ms =
      let seg = (first_segment path).0 in
      let rest = (first_segment path).1 in
      let unnamed = match_path e rest ms in
      let literal = if is_empty seg then unnamed else match_in cs seg rest ms in
      let taken = match_path e rest (ms ++ (seg ∷ [])) in
      let single = if equal seg slash then missed else taken in
      let more = or_else literal (or_else single (match_multi (find cs star) path ms)) in
      if is_empty path then match_end l ms else more

  -- `n.findChild(seg).matchPath(rest, matches)`, on the pairs of `n.children`.
  pub match_in : Children → Bytes → Bytes → List Bytes → Match
  match_in empty seg rest ms = missed
  match_in (child k c cs) seg rest ms =
      let here = match_path c rest ms in
      let later = match_in cs seg rest ms in if equal k seg then here else later

-- `matchMethodAndPath`
unfoldable pub match_method_and_path : Tree → Bytes → Bytes → Match
unfolding find_child match_path
match_method_and_path n method path =
    if is_nil n
    then missed
    else or_else (match_path (find_child n method) path []) (
        or_else (if equal method head then match_path (find_child n get) path [] else missed)
          (match_path (find_child n []) path []))

-- `routingNode.match`
unfoldable pub match : Tree → Bytes → Bytes → Bytes → Match
unfolding match_method_and_path
match root host method path =
    or_else
      (if is_empty host then missed else match_method_and_path (find_child root host) method path)
      (match_method_and_path (find_child root []) method path)

abbrev pub contains : Bytes → List Bytes → Bool
contains m [] = false
contains m (x ∷ xs) = equal x m || contains m xs

abbrev pub is_found : Match → Bool
is_found (found _ _) = true
is_found _ = false

-- The loop of `matchingMethodsPath`; the set of methods is a list.
unfoldable pub matching_in : Children → Bytes → List Bytes → List Bytes
unfolding match_path
matching_in empty path set = set
matching_in (child method c cs) path set =
    matching_in cs path (if is_found (match_path c path []) then method ∷ set else set)

-- `matchingMethodsPath`
unfoldable pub matching_methods_path : Tree → Bytes → List Bytes → List Bytes
unfolding matching_in
matching_methods_path nil path set = set
matching_methods_path (node l cs e) path set = matching_in cs path set

-- `matchingMethods`
unfoldable pub matching_methods : Tree → Bytes → Bytes → List Bytes → List Bytes
unfolding matching_methods_path
matching_methods root host path set =
    let with_host =
      if is_empty host then set else matching_methods_path (find_child root host) path set in
    let all = matching_methods_path (find_child root []) path with_host in
    if contains get all then head ∷ all else all

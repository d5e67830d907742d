-- ===== src/Routing/Search.antt =====
-- `matchPath` on a tree read as a table: it finds the first leaf, in the order literal, single
-- wildcard, multi wildcard, whose keys match the path.
use oohttp.Base.{
  ℕ, Bool, true, false, not, ◌&&◌, ◌||◌, List, [], ◌∷◌, ◌++◌, ◌≡◌, refl, arith, none, some,
  if◌then◌else◌, Bytes, equal, Bool-cases, inl, inr, is_empty, ltb, ◌==◌, drop,
}
use oohttp.Paths.{first_segment, path_unescape}
use oohttp.Pattern.{last_segment, slash}
use oohttp.Routing.Insert.{leaf_at}
use oohttp.Routing.Matching.{
  Match, missed, found, panicked, or_else, match_multi, match_path, match_in,
}
use oohttp.Routing.{Leaf, Tree, nil, node, Children, empty, child, find, find_child, is_nil, star}

-- No segment of the path is empty or a lone star. A cleaned path has no empty segment.
pub data IsPlain : Bytes → Type 0 where
  done : IsPlain []
  more :
      {path : Bytes}
      → is_empty path ≡ false
      → is_empty (first_segment path).0 ≡ false
      → equal (first_segment path).0 star ≡ false
      → IsPlain (first_segment path).1
      → IsPlain path

-- The keys of a pattern match a path.
abbrev pub key_matches : List Bytes → Bytes → Bool
key_matches [] path = is_empty path
key_matches (k ∷ ks) path =
    not (is_empty path)
    && (if equal k star
        then is_empty ks
        else (if is_empty k
            then not (equal (first_segment path).0 slash)
            else equal k (first_segment path).0)
          && key_matches ks (first_segment path).1)

-- The order of the attempts at one segment: literal, single wildcard, multi wildcard.
abbrev pub rank : Bytes → ℕ
rank k = if equal k star then 2 else if is_empty k then 1 else 0

abbrev pub leb_keys : List Bytes → List Bytes → Bool
leb_keys [] js = true
leb_keys (k ∷ ks) [] = false
leb_keys (k ∷ ks) (j ∷ js) = ltb (rank k) (rank j) || (rank k == rank j && leb_keys ks js)

-- What a multi wildcard records of the path that is left.
unfoldable pub rest_values : Leaf → Bytes → List Bytes
rest_values l path = elim (last_segment l.pattern.segments) [
  | none ↦ []
  | some x ↦ if is_empty x.s then [] else path_unescape (drop 1 path) ∷ []
]

-- The values of the wildcards, read off the keys and the path.
abbrev pub values : Leaf → List Bytes → Bytes → List Bytes
values l [] path = []
values l (k ∷ ks) path =
    if equal k star
    then rest_values l path
    else if is_empty k
    then (first_segment path).0 ∷ values l ks (first_segment path).1
    else values l ks (first_segment path).1

-- The leaf `l` is the first one of `n` whose keys match the path.
pub record Best (n : Tree) (path : Bytes) (l : Leaf) (taken : List Bytes) : Type 0 where
  pub keys : List Bytes
  pub stored : leaf_at n keys ≡ some l
  pub fits : key_matches keys path ≡ true
  pub first :
      (js : List Bytes) (x : Leaf)
      → leaf_at n js ≡ some x
      → key_matches js path ≡ true
      → leb_keys keys js ≡ true
  pub taken_is : taken ≡ values l keys path

abbrev pub Unmatched : Tree → Bytes → Type 0
Unmatched n path =
    (js : List Bytes) (x : Leaf) → leaf_at n js ≡ some x → key_matches js path ≡ false

-- A match started with the values `ms`.
abbrev pub Outcome : Tree → Bytes → List Bytes → Match → Type 0
Outcome n path ms missed = Unmatched n path
Outcome n path ms (found l vs) = (taken : List Bytes) × (vs ≡ ms ++ taken) × Best n path l taken
Outcome n path ms panicked = ⊥

match_in-find :
    (cs : Children) (seg rest : Bytes) (ms : List Bytes)
    → match_in cs seg rest ms ≡ match_path (find cs seg) rest ms
unfolding match_path find
match_in-find empty seg rest ms = refl
match_in-find (child k c cs) seg rest ms = elim (Bool-cases (equal k seg)) [
  | inl same ↦ rw same
  | inr other ↦ rw other (match_in-find cs seg rest ms)
]

abbrev pub attempts : Tree → Bytes → List Bytes → Match
attempts n path ms =
    or_else (match_path (find_child n (first_segment path).0) (first_segment path).1 ms) (
      or_else
        (if equal (first_segment path).0 slash
          then missed
          else match_path (find_child n []) (first_segment path).1
              (ms ++ ((first_segment path).0 ∷ [])))
        (match_multi (find_child n star) path ms))

pub match_path-attempts :
    (n : Tree) (path : Bytes) (ms : List Bytes)
    → is_nil n ≡ false
    → is_empty path ≡ false
    → is_empty (first_segment path).0 ≡ false
    → match_path n path ms ≡ attempts n path ms
unfolding find_child
match_path-attempts nil path ms h e f = ground arith
match_path-attempts (node l cs d) path ms h e f =
    unfold match_path in
    rw (e, f, match_in-find cs (first_segment path).0 (first_segment path).1 ms)

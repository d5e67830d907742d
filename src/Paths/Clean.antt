-- ===== src/Paths/Clean.antt =====
-- `cleanPath` of server.go, with what `path.Clean` of the standard library does on a rooted path.
use oohttp.Base.{
  ℕ, ◌+◌, Bool, false, not, ◌&&◌, ◌||◌, List, [], ◌∷◌, ◌++◌, ◌==◌, if◌then◌else◌, Bytes, codes,
  equal, is_empty, length, take,
}

-- The pieces between the slashes.
unfoldable pub split : Bytes → List Bytes
split [] = [] ∷ []
split (c ∷ s) = if c == b'/' then [] ∷ split s else onto c (split s)
  where
    onto : ℕ → List Bytes → List Bytes
    onto c [] = (c ∷ []) ∷ []
    onto c (x ∷ xs) = (c ∷ x) ∷ xs

abbrev pub pop : List Bytes → List Bytes
pop [] = []
pop (y ∷ ys) = ys

-- The elements that stay, the last one first, after one more.
unfoldable pub clean_step : List Bytes → Bytes → List Bytes
unfolding equal
clean_step stack x =
    if is_empty x || equal x (codes ".")
    then stack
    else if equal x (codes "..")
    then pop stack
    else x ∷ stack

unfoldable pub clean_onto : List Bytes → List Bytes → List Bytes
unfolding clean_step
clean_onto stack [] = stack
clean_onto stack (x ∷ xs) = clean_onto (clean_step stack x) xs

-- The elements with a slash in front of each.
unfoldable pub join_onto : Bytes → List Bytes → Bytes
join_onto s [] = s
join_onto s (x ∷ xs) = join_onto (b'/' ∷ (x ++ s)) xs

-- `path.Clean` of a path that starts with a slash.
unfoldable pub path_clean : Bytes → Bytes
unfolding split clean_onto join_onto
path_clean p =
    let np = join_onto [] (clean_onto [] (split p)) in if is_empty np then codes "/" else np

abbrev pub last_is_slash : Bytes → Bool
last_is_slash [] = false
last_is_slash (c ∷ s) = if is_empty s then c == b'/' else last_is_slash s

abbrev pub rooted : Bytes → Bytes
rooted [] = codes "/"
rooted (c ∷ s) = if c == b'/' then c ∷ s else b'/' ∷ c ∷ s

-- `cleanPath`
unfoldable pub clean_path : Bytes → Bytes
unfolding path_clean equal
clean_path s =
    let p = rooted s in
    let np = path_clean p in
    if is_empty s
    then codes "/"
    else if last_is_slash p && not (equal np (codes "/"))
    then (if length p == length np + 1 && equal (take (length np) p) np then p else np ++ codes "/")
    else np

-- ===== src/Routing/Best.antt =====
-- `matchPath` finds the first matching leaf, at every node of a tree whose multi wildcards are
-- leaves.
use oohttp.Base.{
  true, false, List, [], ◌∷◌, ◌++◌, ◌≡◌, refl, ◌∙◌, sym, arith, none, some, Bytes, equal, equal_iff,
  Bool-cases, inl, inr, is_empty, ◌⊎◌,
}
use mathlib.Core.List.{append_assoc, append-nil}
use mathlib.Core.Path.{subst}
use oohttp.Paths.{first_segment}
use oohttp.Pattern.{last_segment, slash, Segment}
use oohttp.Routing.Insert.{leaf_at, leaf_at-nil}
use oohttp.Routing.Matching.{Match, missed, found, panicked, or_else, match_multi, match_path}
use oohttp.Routing.Search.{
  IsPlain, done, more, key_matches, leb_keys, rest_values, Best, Unmatched, Outcome,
  match_path-attempts,
}
use oohttp.Routing.{Leaf, Tree, nil, node, find_child, is_nil, star, leaf_of}

-- The node that stands at a list of keys.
abbrev pub node_at : Tree → List Bytes → Tree
node_at n [] = n
node_at n (k ∷ ks) = node_at (find_child n k) ks

-- A node under the key of the multi wildcard is a leaf, of a pattern with a segment.
pub record IsMultiLeaf (c : Tree) : Type 0 where
  pub leaf : Leaf
  pub leaf_is : leaf_of c ≡ some leaf
  pub segment : Segment
  pub segment_is : last_segment leaf.pattern.segments ≡ some segment

-- So it is all over the tree.
abbrev pub HasMultiLeaves : Tree → Type 0
HasMultiLeaves n =
    (ks : List Bytes)
    → is_nil (find_child (node_at n ks) star) ≡ false
    → IsMultiLeaf (find_child (node_at n ks) star)

match_multi-cases :
    (c : Tree) (path : Bytes) (ms : List Bytes)
    → (is_nil c ≡ false → IsMultiLeaf c)
    → (leaf_of c ≡ none) × (match_multi c path ms ≡ missed)
      ⊎ ((l : Leaf) × (leaf_of c ≡ some l)
          × (match_multi c path ms ≡ found l (ms ++ rest_values l path)))
unfolding match_multi rest_values
match_multi-cases nil path ms w = inl (refl, refl)
match_multi-cases (node none cs d) path ms w = let m = w refl in cc m.leaf_is
match_multi-cases (node (some l) cs d) path ms w =
    let m = w refl in inr (l, refl, ground (arith, m.leaf_is, m.segment_is, append-nil ms))

nil-ne-star : equal [] star ≡ false
nil-ne-star = ground (arith, equal_iff [] star)

module _ (n : Tree) (path : Bytes) (e : is_empty path ≡ false)
    (f : is_empty (first_segment path).0 ≡ false)
    (g : equal (first_segment path).0 star ≡ false) where
  literal-Best :
      {l : Leaf} {taken : List Bytes}
      → Best (find_child n (first_segment path).0) (first_segment path).1 l taken
      → Best n path l taken
  literal-Best {l} {taken} b = record {
    keys = (first_segment path).0 ∷ b.keys;
    stored = b.stored;
    fits = ground (arith, b.fits, equal_iff (first_segment path).0 (first_segment path).0);
    first = first;
    taken_is = ground (arith, b.taken_is);
  }
    where
      first :
          (js : List Bytes) (x : Leaf)
          → leaf_at n js ≡ some x
          → key_matches js path ≡ true
          → leb_keys ((first_segment path).0 ∷ b.keys) js ≡ true
      first [] x h k = ground arith
      first (j ∷ js) x h k = ground (arith, equal_iff j (first_segment path).0, b.first js x)

  single-Best :
      {l : Leaf} {taken : List Bytes}
      → equal (first_segment path).0 slash ≡ false
      → Unmatched (find_child n (first_segment path).0) (first_segment path).1
      → Best (find_child n []) (first_segment path).1 l taken
      → Best n path l ((first_segment path).0 ∷ taken)
  single-Best {l} {taken} s u b = record {
    keys = [] ∷ b.keys;
    stored = b.stored;
    fits = ground (arith, b.fits, nil-ne-star);
    first = first;
    taken_is = ground (arith, b.taken_is, nil-ne-star);
  }
    where
      first :
          (js : List Bytes) (x : Leaf)
          → leaf_at n js ≡ some x
          → key_matches js path ≡ true
          → leb_keys ([] ∷ b.keys) js ≡ true
      first [] x h k = ground arith
      first ([] ∷ js) x h k = ground (arith, nil-ne-star, b.first js x)
      first ((c ∷ cs) ∷ js) x h k =
          ground (arith, nil-ne-star, equal_iff (c ∷ cs) (first_segment path).0, u js x)

  multi-Best :
      {l : Leaf}
      → leaf_of (find_child n star) ≡ some l
      → Unmatched (find_child n (first_segment path).0) (first_segment path).1
      → ((js : List Bytes) (x : Leaf)
          → equal (first_segment path).0 slash ≡ false
          → leaf_at (find_child n []) js ≡ some x
          → key_matches js (first_segment path).1 ≡ false)
      → Best n path l (rest_values l path)
  multi-Best {l} s u v = record {
    keys = star ∷ [];
    stored = s;
    fits = ground (arith, equal_iff star star);
    first = first;
    taken_is = ground (arith, equal_iff star star);
  }
    where
      first :
          (js : List Bytes) (x : Leaf)
          → leaf_at n js ≡ some x
          → key_matches js path ≡ true
          → leb_keys (star ∷ []) js ≡ true
      first [] x h k = ground arith
      first ([] ∷ js) x h k = ground (arith, nil-ne-star, v js x)
      first ((c ∷ cs) ∷ js) x h k =
          ground (arith, equal_iff star star, equal_iff (c ∷ cs) (first_segment path).0, u js x)

  none-Unmatched :
      leaf_of (find_child n star) ≡ none
      → Unmatched (find_child n (first_segment path).0) (first_segment path).1
      → ((js : List Bytes) (x : Leaf)
          → equal (first_segment path).0 slash ≡ false
          → leaf_at (find_child n []) js ≡ some x
          → key_matches js (first_segment path).1 ≡ false)
      → Unmatched n path
  none-Unmatched s u v [] x h = ground arith
  none-Unmatched s u v ([] ∷ js) x h = ground (arith, nil-ne-star, v js x)
  none-Unmatched s u v ((c ∷ cs) ∷ []) x h =
      ground (arith, equal_iff (c ∷ cs) (first_segment path).0, equal_iff (c ∷ cs) star, u [] x)
  none-Unmatched s u v ((c ∷ cs) ∷ j ∷ js) x h =
      ground
        (arith, equal_iff (c ∷ cs) (first_segment path).0, equal_iff (c ∷ cs) star, u (j ∷ js) x)

  -- The three attempts, made with the values `ms`.
  attempts-Outcome :
      (ms : List Bytes) (literal single multi : Match)
      → Outcome (find_child n (first_segment path).0) (first_segment path).1 ms literal
      → (equal (first_segment path).0 slash ≡ true → single ≡ missed)
      → (equal (first_segment path).0 slash ≡ false
          → Outcome
              (find_child n [])
              (first_segment path).1
              (ms ++ ((first_segment path).0 ∷ []))
              single)
      → multi ≡ match_multi (find_child n star) path ms
      → (is_nil (find_child n star) ≡ false → IsMultiLeaf (find_child n star))
      → Outcome n path ms (or_else literal (or_else single multi))
  attempts-Outcome ms (found l vs) single multi (taken, v, b) t o m w = (taken, v, literal-Best b)
  attempts-Outcome ms missed (found l vs) multi u t o m w =
      elim (Bool-cases (equal (first_segment path).0 slash)) [
        | inl y ↦ cc (t y)
        | inr x ↦
            let (taken, v, b) = o x in
            (
              (first_segment path).0 ∷ taken,
              v ∙ append_assoc ms ((first_segment path).0 ∷ []) taken,
              single-Best x u b,
            )
      ]
  attempts-Outcome ms missed panicked multi u t o m w =
      elim (Bool-cases (equal (first_segment path).0 slash)) [
        | inl y ↦ cc (t y)
        | inr x ↦ absurd (o x)
      ]
  attempts-Outcome ms missed missed multi u t o m w =
      elim (match_multi-cases (find_child n star) path ms w) [
        | inl (s, r) ↦
            subst (Outcome n path ms) (sym (m ∙ r)) (none-Unmatched s u (λ js x y. o y js x))
        | inr (l, s, r) ↦
            subst (Outcome n path ms) (sym (m ∙ r))
              (rest_values l path, refl, multi-Best s u (λ js x y. o y js x))
      ]
  attempts-Outcome ms panicked single multi u t o m w = u

HasMultiLeaves-child : (n : Tree) (k : Bytes) → HasMultiLeaves n → HasMultiLeaves (find_child n k)
HasMultiLeaves-child n k w ks = w (k ∷ ks)

pub is_nil-eq : (n : Tree) → is_nil n ≡ true → nil ≡ n
is_nil-eq n h = ground arith

Outcome-nil : (path : Bytes) (ms : List Bytes) → Outcome nil path ms (match_path nil path ms)
unfolding match_path
Outcome-nil path ms js x h = cc (sym h ∙ leaf_at-nil js)

Outcome-end : (n : Tree) (ms : List Bytes) → Outcome n [] ms (match_path n [] ms)
unfolding match_path
Outcome-end nil ms = Outcome-nil [] ms
Outcome-end (node none cs e) ms = λ js x h. end_unmatched js h
  where
    end_unmatched :
        (js : List Bytes) {x : Leaf}
        → leaf_at (node none cs e) js ≡ some x
        → key_matches js [] ≡ false
    end_unmatched [] h = cc
    end_unmatched (j ∷ js) h = refl
Outcome-end (node (some l) cs e) ms = (
  [],
  sym (append-nil ms),
  record { keys = []; stored = refl; fits = refl; first = λ js x h k. refl; taken_is = refl },
)

-- On a path without empty or "*" segments, in a tree whose nodes of multi wildcards are leaves, the match does not panic;
-- what it finds is the first leaf that matches, with the values of its wildcards, and if it finds
-- none no leaf matches.
pub match_path-Outcome :
    {path : Bytes} (n : Tree) (ms : List Bytes)
    → HasMultiLeaves n
    → IsPlain path
    → Outcome n path ms (match_path n path ms)
match_path-Outcome n ms w done = Outcome-end n ms
match_path-Outcome {path} n ms w (more e f g p) = elim (Bool-cases (is_nil n)) [
  | inl absent ↦
      subst (λ t. Outcome t path ms (match_path t path ms)) (is_nil-eq n absent)
        (Outcome-nil path ms)
  | inr there ↦ rw (match_path-attempts n path ms there e f) (
      attempts-Outcome n path e f g ms _ _ _
        (match_path-Outcome (find_child n (first_segment path).0) ms
          (HasMultiLeaves-child n (first_segment path).0 w) p)
        (λ y. rw y)
        (λ x. rw x (
          match_path-Outcome (find_child n []) (ms ++ ((first_segment path).0 ∷ []))
            (HasMultiLeaves-child n [] w) p))
        refl (w []))
]

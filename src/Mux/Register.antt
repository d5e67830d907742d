-- ===== src/Mux/Register.antt =====
-- `registerErr` keeps the invariant of a `ServeMux`, and decides whether a pattern conflicts.
use mathlib.Core.Path.{subst}
use oohttp.Base.{
  ℕ, true, false, List, [], ◌∷◌, ◌++◌, ◌≡◌, refl, ◌∙◌, sym, ap, ◌⊎◌, inl, inr, arith, none, some,
  if◌then◌else◌, Bytes, Bool-cases, Option-cases, In, In-append_left, In-concat, In-concat_cases,
}
use oohttp.Index.Known.{InIndex, add_to_index-InIndex, possibly_conflicting_patterns-some}
use oohttp.Index.Slots.{IsIndexed, add_to_index-IsIndexed, add_to_index-IsIndexed_self}
use oohttp.Index.{add_to_index, possibly_conflicting_patterns}
use oohttp.Mux.Invariant.{
  IsServing, no_conflict, free_leaf, same_keys-eq, same_keys_refl, map-concat,
}
use oohttp.Mux.{
  ServeMux, new_serve_mux, Registered, registered, conflict, panicked, conflict_error, add_to_mux,
  register_pattern,
}
use oohttp.Pattern.Relation.{conflicts_with_comm}
use oohttp.Pattern.{Pattern, conflicts_with}
use oohttp.Routing.Insert.{leaf_at, same_keys, leaf_at-fresh, find_child-fresh}
use oohttp.Routing.Multi.{nil-HasMultiLeaves}
use oohttp.Routing.Best.{HasMultiLeaves}
use oohttp.Routing.Table.{route_keys, IsRoutable, add_pattern-Adds, add_pattern-IsSound}
use oohttp.Routing.Total.{add_pattern-Succeeds, conflicts_with-same_keys}
use oohttp.Routing.{Leaf, Tree, nil, find_child, add_pattern}

module _ (mux : ServeMux) (routes : List Leaf) (p : Pattern) (h : ℕ) (s : IsServing mux routes)
    (r : IsRoutable p) (c : (l : Leaf) → In l routes → conflicts_with p l.pattern ≡ false)
    (tree : Tree) (e : add_pattern p h mux.tree ≡ some tree) where
  abbrev new_leaf : Leaf
  new_leaf = record { pattern = p; handler = h }

  new_table :
      (ks : List Bytes)
      → leaf_at tree ks
        ≡ (if same_keys (route_keys p) ks then some new_leaf else leaf_at mux.tree ks)
  new_table = (add_pattern-Adds p h mux.tree s.not_nil e).1

  other_keys : (x : Leaf) → In x routes → same_keys (route_keys p) (route_keys x.pattern) ≡ false
  other_keys x i = elim (Bool-cases (same_keys (route_keys p) (route_keys x.pattern))) [
    | inl same ↦ cc (
      c x i,
      conflicts_with-same_keys p x.pattern r (s.routable x i)
          (same_keys-eq (route_keys p) (route_keys x.pattern) same),
    )
    | inr other ↦ other
  ]

  new_stored :
      (x : Leaf) → In x (routes ++ new_leaf ∷ []) → leaf_at tree (route_keys x.pattern) ≡ some x
  new_stored x i = elim (In-concat_cases x routes new_leaf i) [
    | inl old ↦ rw (new_table (route_keys x.pattern), other_keys x old) (s.stored x old)
    | inr same ↦
        subst (λ y. leaf_at tree (route_keys y.pattern) ≡ some y) (sym same)
          (rw (new_table (route_keys p), same_keys_refl (route_keys p)))
  ]

  new_only :
      (ks : List Bytes) (x : Leaf)
      → leaf_at tree ks ≡ some x
      → In x (routes ++ new_leaf ∷ []) × (ks ≡ route_keys x.pattern)
  new_only ks x i = elim (Bool-cases (same_keys (route_keys p) ks)) [
    | inl same ↦
        let x_is : new_leaf ≡ x = cc (rw (new_table ks, same) at i) in
        subst (λ y. In y (routes ++ new_leaf ∷ []) × (ks ≡ route_keys y.pattern)) x_is
          (In-concat routes new_leaf, sym (same_keys-eq (route_keys p) ks same))
    | inr other ↦
        let (old, k) = s.only ks x (rw (new_table ks, other) at i) in
        (In-append_left x routes (new_leaf ∷ []) old, k)
  ]

  new_apart :
      (x y : Leaf)
      → In x (routes ++ new_leaf ∷ [])
      → In y (routes ++ new_leaf ∷ [])
      → (x ≡ y) ⊎ (conflicts_with x.pattern y.pattern ≡ false)
  new_apart x y i j = elim (In-concat_cases x routes new_leaf i) [
    | inl old ↦ elim (In-concat_cases y routes new_leaf j) [
      | inl old' ↦ s.apart x y old old'
      | inr same' ↦ inr (cc (c x old, conflicts_with_comm p x.pattern))
    ]
    | inr same ↦ elim (In-concat_cases y routes new_leaf j) [
      | inl old' ↦ inr (cc (c y old'))
      | inr same' ↦ inl (cc)
    ]
  ]

  new_cases :
      (P : Leaf → Type 0)
      → ((x : Leaf) → In x routes → P x)
      → P new_leaf
      → (x : Leaf) → In x (routes ++ new_leaf ∷ [])
      → P x
  new_cases P old new x i = elim (In-concat_cases x routes new_leaf i) [
    | inl j ↦ old x j
    | inr same ↦ subst P (sym same) new
  ]

  new_known :
      (q : Pattern)
      → InIndex q (add_to_index mux.index p)
      → (x : Leaf) × In x (routes ++ new_leaf ∷ []) × (x.pattern ≡ q)
  new_known q i = elim (add_to_index-InIndex mux.index p q i) [
    | inl old ↦
        let (x, j, same) = s.known q old in (x, In-append_left x routes (new_leaf ∷ []) j, same)
    | inr same ↦ (new_leaf, In-concat routes new_leaf, sym same)
  ]

  add_to_mux-IsServing :
      IsServing
        (record {
          tree = tree;
          index = add_to_index mux.index p;
          patterns = mux.patterns ++ (p ∷ []);
        })
        (routes ++ new_leaf ∷ [])
  add_to_mux-IsServing = record {
    patterns =
        ap (λ ps. ps ++ p ∷ []) s.patterns ∙ sym (map-concat (λ l. l.pattern) routes new_leaf);
    not_nil = (add_pattern-Adds p h mux.tree s.not_nil e).0;
    stored = new_stored;
    only = new_only;
    sound = add_pattern-IsSound p h mux.tree r s.not_nil s.sound e;
    indexed =
        new_cases (λ x. IsIndexed (add_to_index mux.index p) x.pattern)
          (λ x i. add_to_index-IsIndexed mux.index p x.pattern (s.indexed x i))
          (add_to_index-IsIndexed_self mux.index p);
    known = new_known;
    routable = new_cases (λ x. IsRoutable x.pattern) s.routable r;
    apart = new_apart;
  }

-- What `registerErr` returns for a pattern: the new state if the pattern conflicts with no registered
-- one, an error that names a registered pattern with which it conflicts, and never a panic.
abbrev pub RegisterResult : ServeMux → List Leaf → Leaf → Registered → Type 0
RegisterResult mux routes l (registered mux') =
    IsServing mux' (routes ++ l ∷ [])
    × ((x : Leaf) → In x routes → conflicts_with l.pattern x.pattern ≡ false)
RegisterResult mux routes l (conflict q) =
    (x : Leaf) × In x routes × (x.pattern ≡ q) × (conflicts_with l.pattern q ≡ true)
RegisterResult mux routes l panicked = ⊥

conflict_error-some :
    (p x q : Pattern) → conflict_error p x ≡ some q → (x ≡ q) × (conflicts_with p x ≡ true)
conflict_error-some p x q h = elim (Bool-cases (conflicts_with p x)) [
  | inl bad ↦ (cc (rw bad at h), bad)
  | inr good ↦ cc (rw good at h)
]

register_pattern-clear :
    (p : Pattern) (h : ℕ) (mux : ServeMux)
    → possibly_conflicting_patterns (conflict_error p) mux.index p ≡ none
    → register_pattern p h mux ≡ add_to_mux p mux (add_pattern p h mux.tree)
unfolding register_pattern
register_pattern-clear p h mux e = ground arith

register_pattern-conflict :
    (p : Pattern) (h : ℕ) (mux : ServeMux) (q : Pattern)
    → possibly_conflicting_patterns (conflict_error p) mux.index p ≡ some q
    → register_pattern p h mux ≡ conflict q
unfolding register_pattern
register_pattern-conflict p h mux q e = ground arith

-- Registering a routable pattern (it has a segment, its multi wildcard stands last, no literal of it
-- is empty or "*", and it ends in no wildcard named "/") at a mux that serves its registered patterns, routable all, never panics: it
-- succeeds exactly when no registered pattern conflicts, and then the state serves the registered
-- patterns and the new one; otherwise the error names a registered pattern that conflicts.
pub register_pattern-RegisterResult :
    (mux : ServeMux) (routes : List Leaf) (p : Pattern) (h : ℕ)
    → IsServing mux routes
    → IsRoutable p
    → RegisterResult mux routes (record { pattern = p; handler = h }) (register_pattern p h mux)
register_pattern-RegisterResult mux routes p h s r =
    elim (Option-cases (possibly_conflicting_patterns (conflict_error p) mux.index p)) [
      | inl clear ↦
          let c = no_conflict mux routes p s r clear in
          let (tree, added) =
            add_pattern-Succeeds p h mux.tree r.multi_last (free_leaf mux routes p s r c) in
          rw (register_pattern-clear p h mux clear, added)
            (add_to_mux-IsServing mux routes p h s r c tree added, c)
      | inr (q, found) ↦
          let (x, i, reported) =
            possibly_conflicting_patterns-some (conflict_error p) q mux.index p found in
          let (same, bad) = conflict_error-some p x q reported in
          let (l, j, l_is) = s.known x i in
          rw (register_pattern-conflict p h mux q found) (l, j, l_is ∙ same, rw same at bad)
    ]

find_child-nil : (k : Bytes) → find_child nil k ≡ nil
unfolding find_child
find_child-nil k = refl

-- The state of `NewServeMux`.
pub new_serve_mux-IsServing : IsServing new_serve_mux []
new_serve_mux-IsServing = record {
  patterns = refl;
  not_nil = refl;
  stored = λ l i. absurd i;
  only = λ ks l e. cc (leaf_at-fresh ks);
  sound = λ host method.
      rw (find_child-fresh host)
        (subst HasMultiLeaves (sym (find_child-nil method)) nil-HasMultiLeaves);
  indexed = λ l i. absurd i;
  known = λ q i. elim i [ inl a ↦ absurd a | inr a ↦ absurd a ];
  routable = λ l i. absurd i;
  apart = λ l x i j. absurd i;
}

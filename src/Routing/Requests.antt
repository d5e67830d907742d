-- ===== src/Routing/Requests.antt =====
-- `matchMethodAndPath`: the method of the request, then GET for HEAD, then no method.
use oohttp.Base.{
  true, false, List, [], ◌∷◌, ◌≡◌, ◌≢◌, sym, ◌⊎◌, inl, inr, arith, some, Bytes, equal, equal_iff,
  equal-cases, Bool-cases,
}
use mathlib.Core.Path.{subst}
use oohttp.Pattern.Methods.{method_matches}
use oohttp.Pattern.{compare_methods, more_specific, get, head}
use oohttp.Routing.Best.{HasMultiLeaves, match_path-Outcome, is_nil-eq}
use oohttp.Routing.Insert.{leaf_at, leaf_at-nil}
use oohttp.Routing.Matching.{Match, missed, found, panicked, or_else, match_method_and_path}
use oohttp.Routing.Search.{IsPlain, key_matches, leb_keys, values, Best, Unmatched, Outcome}
use oohttp.Routing.{Leaf, Tree, find_child, is_nil}

-- The leaf that a match below a host's node finds: no other leaf that matches the request comes
-- before it.
pub record BestBelow (n : Tree) (method path : Bytes) (l : Leaf) (vs : List Bytes) : Type 0 where
  pub m : Bytes
  pub keys : List Bytes
  pub stored : leaf_at n (m ∷ keys) ≡ some l
  pub serves_method : method_matches m method ≡ true
  pub serves_path : key_matches keys path ≡ true
  pub vs_is : vs ≡ values l keys path
  pub first :
      (m' : Bytes) (js : List Bytes) (x : Leaf)
      → leaf_at n (m' ∷ js) ≡ some x
      → method_matches m' method ≡ true
      → key_matches js path ≡ true
      → ((m ≡ m') × (leb_keys keys js ≡ true)) ⊎ (compare_methods m m' ≡ more_specific)

abbrev pub UnmatchedBelow : Tree → Bytes → Bytes → Type 0
UnmatchedBelow n method path =
    (m : Bytes) (js : List Bytes) (x : Leaf)
    → leaf_at n (m ∷ js) ≡ some x
    → method_matches m method ≡ true
    → key_matches js path ≡ false

abbrev pub OutcomeBelow : Tree → Bytes → Bytes → Match → Type 0
OutcomeBelow n method path missed = UnmatchedBelow n method path
OutcomeBelow n method path (found l vs) = BestBelow n method path l vs
OutcomeBelow n method path panicked = ⊥

method_matches-cases :
    (m method : Bytes)
    → method_matches m method ≡ true
    → (m ≡ method) ⊎ ((m ≡ get) × (method ≡ head)) ⊎ ((m ≡ []) × (method ≢ []))
unfolding method_matches
method_matches-cases m method h = ground (
  arith,
  equal_iff m [],
  equal_iff m method,
  equal_iff m get,
  equal_iff method head,
  equal_iff method [],
)

compare_methods-no_method : (m : Bytes) → m ≢ [] → compare_methods m [] ≡ more_specific
unfolding compare_methods
compare_methods-no_method m h = ground (arith, equal_iff m [], equal_iff [] [])

compare_methods-head-get : compare_methods head get ≡ more_specific
unfolding compare_methods
compare_methods-head-get = ground (
  arith,
  equal_iff head get,
  equal_iff head [],
  equal_iff get [],
  equal_iff get get,
  equal_iff head head,
)

get-ne-nil : get ≢ []
get-ne-nil e = cc

module _ (n : Tree) (method path : Bytes) where
  exact_found :
      {l : Leaf} {taken : List Bytes}
      → Best (find_child n method) path l taken
      → BestBelow n method path l taken
  exact_found b = record {
    m = method;
    keys = b.keys;
    stored = b.stored;
    serves_method = unfold method_matches in ground (arith, equal_iff method method);
    serves_path = b.fits;
    vs_is = b.taken_is;
    first = λ m' js x h s k. elim (method_matches-cases m' method s) [
      | inl same ↦ inl (sym same, b.first js x (subst (λ t. leaf_at n (t ∷ js) ≡ some x) same h) k)
      | inr (inl (g, d)) ↦ inr (rw (g, d) compare_methods-head-get)
      | inr (inr (e, ne)) ↦ inr (rw e (compare_methods-no_method method ne))
    ];
  }

  get_found :
      {l : Leaf} {taken : List Bytes}
      → method ≡ head
      → Unmatched (find_child n method) path
      → Best (find_child n get) path l taken
      → BestBelow n method path l taken
  get_found is_head u b = record {
    m = get;
    keys = b.keys;
    stored = b.stored;
    serves_method =
        unfold method_matches in ground (arith, equal_iff get get, equal_iff method head);
    serves_path = b.fits;
    vs_is = b.taken_is;
    first = λ m' js x h s k. elim (method_matches-cases m' method s) [
      | inl same ↦ cc (u js x (subst (λ t. leaf_at n (t ∷ js) ≡ some x) same h))
      | inr (inl (g, d)) ↦
          inl (sym g, b.first js x (subst (λ t. leaf_at n (t ∷ js) ≡ some x) g h) k)
      | inr (inr (e, ne)) ↦ inr (rw e (compare_methods-no_method get get-ne-nil))
    ];
  }

  any_found :
      {l : Leaf} {taken : List Bytes}
      → Unmatched (find_child n method) path
      → (method ≡ head → Unmatched (find_child n get) path)
      → Best (find_child n []) path l taken
      → BestBelow n method path l taken
  any_found u v b = record {
    m = [];
    keys = b.keys;
    stored = b.stored;
    serves_method = unfold method_matches in ground (arith, equal_iff [] []);
    serves_path = b.fits;
    vs_is = b.taken_is;
    first = λ m' js x h s k. elim (method_matches-cases m' method s) [
      | inl same ↦ cc (u js x (subst (λ t. leaf_at n (t ∷ js) ≡ some x) same h))
      | inr (inl (g, d)) ↦ cc (v d js x (subst (λ t. leaf_at n (t ∷ js) ≡ some x) g h))
      | inr (inr (e, ne)) ↦
          inl (sym e, b.first js x (subst (λ t. leaf_at n (t ∷ js) ≡ some x) e h) k)
    ];
  }

  none_found :
      Unmatched (find_child n method) path
      → (method ≡ head → Unmatched (find_child n get) path)
      → Unmatched (find_child n []) path
      → UnmatchedBelow n method path
  none_found u v w m js x h s = elim (method_matches-cases m method s) [
    | inl same ↦ u js x (subst (λ t. leaf_at n (t ∷ js) ≡ some x) same h)
    | inr (inl (g, d)) ↦ v d js x (subst (λ t. leaf_at n (t ∷ js) ≡ some x) g h)
    | inr (inr (e, ne)) ↦ w js x (subst (λ t. leaf_at n (t ∷ js) ≡ some x) e h)
  ]

  attempts-OutcomeBelow :
      (exact with_get any : Match)
      → Outcome (find_child n method) path [] exact
      → (method ≢ head → with_get ≡ missed)
      → (method ≡ head → Outcome (find_child n get) path [] with_get)
      → Outcome (find_child n []) path [] any
      → OutcomeBelow n method path (or_else exact (or_else with_get any))
  attempts-OutcomeBelow (found l vs) with_get any (t, e, b) no_head at_head w =
      subst (λ us. BestBelow n method path l us) (sym e) (exact_found b)
  attempts-OutcomeBelow panicked with_get any u no_head at_head w = u
  attempts-OutcomeBelow missed (found l vs) any u no_head at_head w =
      elim (equal-cases method head) [
        | inl (_, is_head) ↦
            let (t, e, b) = at_head is_head in
            subst (λ us. BestBelow n method path l us) (sym e) (get_found is_head u b)
        | inr (_, other) ↦ cc (no_head other)
      ]
  attempts-OutcomeBelow missed panicked any u no_head at_head w = elim (equal-cases method head) [
    | inl (_, is_head) ↦ absurd (at_head is_head)
    | inr (_, other) ↦ cc (no_head other)
  ]
  attempts-OutcomeBelow missed missed (found l vs) u no_head at_head (t, e, b) =
      subst (λ us. BestBelow n method path l us) (sym e) (any_found u at_head b)
  attempts-OutcomeBelow missed missed panicked u no_head at_head w = w
  attempts-OutcomeBelow missed missed missed u no_head at_head w = none_found u at_head w

-- Below a host's node, on a plain path.
pub match_method_and_path-OutcomeBelow :
    (n : Tree) (method path : Bytes)
    → ((m : Bytes) → HasMultiLeaves (find_child n m))
    → IsPlain path
    → OutcomeBelow n method path (match_method_and_path n method path)
unfolding match_method_and_path
match_method_and_path-OutcomeBelow n method path w p = elim (Bool-cases (is_nil n)) [
  | inl absent ↦ rw absent (λ m js x h s.
      cc (
        subst (λ t. leaf_at t (m ∷ js) ≡ some x) (sym (is_nil-eq n absent)) h,
        leaf_at-nil (m ∷ js),
      ))
  | inr there ↦ rw there (
      attempts-OutcomeBelow n method path _ _ _
        (match_path-Outcome (find_child n method) [] (w method) p) (λ other. rw (equal-head other))
        (λ is_head. rw (equal-is_head is_head) (match_path-Outcome (find_child n get) [] (w get) p))
        (match_path-Outcome (find_child n []) [] (w []) p))
]
  where
    equal-head : method ≢ head → equal method head ≡ false
    equal-head ne = ground (arith, equal_iff method head)

    equal-is_head : method ≡ head → equal method head ≡ true
    equal-is_head e = (equal_iff method head).1 e

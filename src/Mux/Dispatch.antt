-- ===== src/Mux/Dispatch.antt =====
-- A `ServeMux` finds the most specific registered pattern that accepts a request.
use mathlib.Core.Path.{subst}
use oohttp.Base.{
  Bool, true, false, ◌&&◌, ◌||◌, List, [], ◌∷◌, ◌≡◌, ◌≢◌, ◌∙◌, sym, ◌⊎◌, inl, inr, arith, some,
  Bytes, equal, equal_iff, equal-cases, Bool-cases, In, is_empty,
}
use oohttp.Mux.Invariant.{IsServing}
use oohttp.Mux.Specific.{and_left, and_right, first_is_more_specific}
use oohttp.Mux.{ServeMux}
use oohttp.Pattern.Meaning.{path_matches}
use oohttp.Pattern.Methods.{method_matches, serves}
use oohttp.Pattern.{Pattern, more_specific, compare_methods, compare_paths_and_methods}
use oohttp.Routing.Insert.{keys_of, leaf_at}
use oohttp.Routing.Matching.{Match, missed, found, panicked, or_else, match}
use oohttp.Routing.Requests.{
  BestBelow, UnmatchedBelow, OutcomeBelow, match_method_and_path-OutcomeBelow,
}
use oohttp.Routing.Search.{IsPlain, key_matches, leb_keys, values}
use oohttp.Routing.Table.{key_matches-path_matches}
use oohttp.Routing.{Leaf, find_child}

-- A pattern with no host accepts every host.
abbrev pub host_matches : Pattern → Bytes → Bool
host_matches p host = equal p.host [] || equal p.host host

abbrev pub accepts : Pattern → Bytes → Bytes → Bytes → Bool
accepts p host method path = host_matches p host && serves p method path

-- The two rules of precedence: a host wins over no host, and for the same host the more specific
-- method and path.
abbrev pub Beats : Pattern → Pattern → Type 0
Beats p q =
    ((p.host ≢ []) × (q.host ≡ []))
    ⊎ ((p.host ≡ q.host) × (compare_paths_and_methods p q ≡ more_specific))

-- What `match` returns on the registered patterns.
abbrev pub MatchResult : List Leaf → Bytes → Bytes → Bytes → Match → Type 0
MatchResult routes host method path missed =
    (x : Leaf) → In x routes → accepts x.pattern host method path ≡ false
MatchResult routes host method path (found l vs) =
    In l routes
    × (accepts l.pattern host method path ≡ true)
    × (vs ≡ values l (keys_of l.pattern.segments) path)
    × ((x : Leaf)
        → In x routes
        → accepts x.pattern host method path ≡ true
        → (l ≡ x) ⊎ Beats l.pattern x.pattern)
MatchResult routes host method path panicked = ⊥

same_host :
    (l x : Leaf) {key : Bytes}
    → l.pattern.host ≡ key
    → x.pattern.host ≡ key
    → (l ≡ x) ⊎ (compare_paths_and_methods l.pattern x.pattern ≡ more_specific)
    → (l ≡ x) ⊎ Beats l.pattern x.pattern
same_host l x e f (inl h) = inl h
same_host l x e f (inr h) = inr (inr (e ∙ sym f, h))

module _ (mux : ServeMux) (routes : List Leaf) (s : IsServing mux routes)
    (host method path : Bytes) where
  -- The routes of one host, among which the match below that host's node chooses.
  abbrev BestOf : Bytes → Leaf → List Bytes → Type 0
  BestOf key l vs =
      In l routes
      × (l.pattern.host ≡ key)
      × (serves l.pattern method path ≡ true)
      × (vs ≡ values l (keys_of l.pattern.segments) path)
      × ((x : Leaf)
          → In x routes
          → x.pattern.host ≡ key
          → serves x.pattern method path ≡ true
          → (l ≡ x) ⊎ (compare_paths_and_methods l.pattern x.pattern ≡ more_specific))

  key_matches-stored :
      (x : Leaf)
      → In x routes
      → key_matches (keys_of x.pattern.segments) path ≡ path_matches x.pattern.segments path
  key_matches-stored x i =
      let r = s.routable x i in
      key_matches-path_matches x.pattern.segments path r.multi_last r.plain

  stored_below :
      (key : Bytes) (x : Leaf)
      → In x routes
      → x.pattern.host ≡ key
      → leaf_at (find_child mux.tree key) (x.pattern.method ∷ keys_of x.pattern.segments) ≡ some x
  stored_below key x i e =
      subst
        (λ k.
          leaf_at (find_child mux.tree k) (x.pattern.method ∷ keys_of x.pattern.segments) ≡ some x)
        e (s.stored x i)

  first_of :
      (key : Bytes) (l x : Leaf) (m : Bytes) (ks : List Bytes)
      → m ≡ l.pattern.method
      → ks ≡ keys_of l.pattern.segments
      → In x routes
      → serves x.pattern method path ≡ true
      → (method_matches x.pattern.method method ≡ true
          → key_matches (keys_of x.pattern.segments) path ≡ true
          → ((m ≡ x.pattern.method) × (leb_keys ks (keys_of x.pattern.segments) ≡ true))
            ⊎ (compare_methods m x.pattern.method ≡ more_specific))
      → ((l.pattern.method ≡ x.pattern.method)
          × (leb_keys (keys_of l.pattern.segments) (keys_of x.pattern.segments) ≡ true))
        ⊎ (compare_methods l.pattern.method x.pattern.method ≡ more_specific)
  first_of key l x m ks e f j k first =
      rw (← e, ← f) (first (and_left _ _ k) (rw (key_matches-stored x j) (and_right _ _ k)))

  BestBelow-BestOf :
      (key : Bytes) (l : Leaf) (vs : List Bytes)
      → BestBelow (find_child mux.tree key) method path l vs
      → BestOf key l vs
  BestBelow-BestOf key l vs b =
      let (i, same) = s.only (key ∷ b.m ∷ b.keys) l b.stored in
      let host_is : key ≡ l.pattern.host = cc same in
      let method_is : b.m ≡ l.pattern.method = cc same in
      let keys_are : b.keys ≡ keys_of l.pattern.segments = cc same in
      let l_serves : serves l.pattern method path ≡ true =
        ground
          (arith, method_is, keys_are, b.serves_method, b.serves_path, key_matches-stored l i) in
      (
        i,
        sym host_is,
        l_serves,
        subst (λ ks. vs ≡ values l ks path) keys_are b.vs_is,
        λ x j e k. elim (s.apart l x i j) [
          | inl equal ↦ inl equal
          | inr apart ↦ inr (
              first_is_more_specific l.pattern x.pattern method path (s.routable l i)
                (s.routable x j) (sym host_is ∙ sym e) apart l_serves k
                (first_of key l x b.m b.keys method_is keys_are j k (
                  b.first x.pattern.method (keys_of x.pattern.segments) x
                    (stored_below key x j e))))
        ],
      )

  UnmatchedBelow-none :
      (key : Bytes)
      → UnmatchedBelow (find_child mux.tree key) method path
      → (x : Leaf) → In x routes
      → x.pattern.host ≡ key
      → serves x.pattern method path ≡ false
  UnmatchedBelow-none key u x i e = ground (
    arith,
    key_matches-stored x i,
    u x.pattern.method (keys_of x.pattern.segments) x (stored_below key x i e),
  )

  host_cases :
      (x : Leaf)
      → accepts x.pattern host method path ≡ true
      → ((x.pattern.host ≡ host) ⊎ ((x.pattern.host ≡ []) × (host ≢ [])))
        × (serves x.pattern method path ≡ true)
  host_cases x h =
      ground (arith, equal_iff x.pattern.host [], equal_iff x.pattern.host host, equal_iff host [])

  accepts_of :
      (x : Leaf)
      → (x.pattern.host ≡ host) ⊎ (x.pattern.host ≡ [])
      → serves x.pattern method path ≡ true
      → accepts x.pattern host method path ≡ true
  accepts_of x e h = ground (arith, equal_iff x.pattern.host [], equal_iff x.pattern.host host)

  refuses_of :
      (x : Leaf)
      → (x.pattern.host ≡ host → host ≢ [] → serves x.pattern method path ≡ false)
      → (x.pattern.host ≡ [] → serves x.pattern method path ≡ false)
      → accepts x.pattern host method path ≡ false
  refuses_of x a b =
      ground
        (arith, a, b, equal_iff x.pattern.host [], equal_iff x.pattern.host host, equal_iff host [])

  -- The routes with no host, where none of those with the request's host matches.
  any-MatchResult :
      (r : Match)
      → ((x : Leaf)
          → In x routes
          → x.pattern.host ≡ host
          → host ≢ []
          → serves x.pattern method path ≡ false)
      → OutcomeBelow (find_child mux.tree []) method path r
      → MatchResult routes host method path r
  any-MatchResult missed none_at k =
      λ x i. refuses_of x (none_at x i) (UnmatchedBelow-none [] k x i)
  any-MatchResult panicked none_at k = k
  any-MatchResult (found l vs) none_at k =
      let (i, host_is, l_serves, vs_is, best) = BestBelow-BestOf [] l vs k in
      (
        i,
        accepts_of l (inr host_is) l_serves,
        vs_is,
        λ x j a.
            let (hosts, x_serves) = host_cases x a in
            elim hosts [
              | inl e ↦ elim (equal-cases host []) [
                | inl (_, no_host) ↦
                    same_host l x host_is (e ∙ no_host) (best x j (e ∙ no_host) x_serves)
                | inr (_, ne) ↦ cc (none_at x j e ne)
              ]
              | inr (e, _) ↦ same_host l x host_is e (best x j e x_serves)
            ],
      )

  host-MatchResult :
      (r next : Match)
      → host ≢ []
      → OutcomeBelow (find_child mux.tree host) method path r
      → OutcomeBelow (find_child mux.tree []) method path next
      → MatchResult routes host method path (or_else r next)
  host-MatchResult missed next ne h k =
      any-MatchResult next (λ x i e _. UnmatchedBelow-none host h x i e) k
  host-MatchResult panicked next ne h k = h
  host-MatchResult (found l vs) next ne h k =
      let (i, host_is, l_serves, vs_is, best) = BestBelow-BestOf host l vs h in
      (
        i,
        accepts_of l (inl host_is) l_serves,
        vs_is,
        λ x j a.
            let (hosts, x_serves) = host_cases x a in
            elim hosts [
              | inl e ↦ same_host l x host_is e (best x j e x_serves)
              | inr (e, _) ↦ inr (inl (λ z. ne (sym host_is ∙ z), e))
            ],
      )

-- In a mux that serves the registered patterns, which are routable (each has a segment, its multi
-- wildcard last, no empty or "*" literal, and no wildcard named "/" at its end), on a path
-- without empty or "*" segments, whatever the host and the method of the request: the leaf found
-- is of a registered pattern that accepts the request, with the values of its wildcards, and
-- beats every other registered pattern that accepts; if none is found, none accepts; and there is
-- no panic.
pub match-MatchResult :
    (mux : ServeMux) (routes : List Leaf) (host method path : Bytes)
    → IsServing mux routes
    → IsPlain path
    → MatchResult routes host method path (match mux.tree host method path)
unfolding match
match-MatchResult mux routes host method path s p =
    let at_any =
      match_method_and_path-OutcomeBelow (find_child mux.tree []) method path (s.sound []) p in
    elim (Bool-cases (is_empty host)) [
      | inl no_host ↦ rw no_host (
          any-MatchResult mux routes s host method path _ (λ x i e ne. absurd (ne (ground arith)))
            at_any)
      | inr with_host ↦ rw with_host (
          host-MatchResult mux routes s host method path _ _ (ground arith)
            (match_method_and_path-OutcomeBelow (find_child mux.tree host) method path
              (s.sound host) p)
            at_any)
    ]

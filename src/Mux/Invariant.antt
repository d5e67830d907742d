-- ===== src/Mux/Invariant.antt =====
-- What a `ServeMux` holds after any registrations: the tree is the table of the registered
-- patterns, the index holds them all, and no two of them conflict.
use oohttp.Base.{
  true, false, List, [], ◌∷◌, ◌++◌, map, ◌≡◌, ◌≢◌, refl, ap, ◌⊎◌, inl, inr, arith, none, some,
  Bytes, equal_iff, Bool-cases, Option-cases, In,
}
use oohttp.Index.Complete.{possibly_conflicting_patterns-ne-none}
use oohttp.Index.Known.{InIndex}
use oohttp.Index.Slots.{IsIndexed}
use oohttp.Index.{possibly_conflicting_patterns}
use oohttp.Mux.{ServeMux, conflict_error}
use oohttp.Pattern.{
  Pattern, Relationship, disjoint, combine_relationships, conflicts_with, compare_paths,
  compare_methods, compare_paths_and_methods, last_segment,
}
use oohttp.Routing.Insert.{leaf_at, same_keys}
use oohttp.Routing.Table.{route_keys, IsRoutable, IsSound}
use oohttp.Routing.Total.{conflicts_with-same_keys}
use oohttp.Routing.{Leaf, is_nil}

pub record IsServing (mux : ServeMux) (routes : List Leaf) : Type 0 where
  pub patterns : mux.patterns ≡ map (λ (l : Leaf). l.pattern) routes
  pub not_nil : is_nil mux.tree ≡ false
  pub stored : (l : Leaf) → In l routes → leaf_at mux.tree (route_keys l.pattern) ≡ some l
  pub only :
      (ks : List Bytes) (l : Leaf)
      → leaf_at mux.tree ks ≡ some l
      → In l routes × (ks ≡ route_keys l.pattern)
  pub sound : IsSound mux.tree
  pub indexed : (l : Leaf) → In l routes → IsIndexed mux.index l.pattern
  pub known : (q : Pattern) → InIndex q mux.index → (l : Leaf) × In l routes × (l.pattern ≡ q)
  pub routable : (l : Leaf) → In l routes → IsRoutable l.pattern
  pub apart :
      (l x : Leaf)
      → In l routes
      → In x routes
      → (l ≡ x) ⊎ (conflicts_with l.pattern x.pattern ≡ false)

combine-disjoint_right : (r : Relationship) → combine_relationships r disjoint ≡ disjoint
unfolding combine_relationships
combine-disjoint_right r = ground arith

conflicts_with-not_disjoint :
    (p q : Pattern) → conflicts_with p q ≡ true → compare_paths p.segments q.segments ≢ disjoint
unfolding conflicts_with compare_paths_and_methods
conflicts_with-not_disjoint p q h e =
    ground (arith, combine-disjoint_right (compare_methods p.method q.method))

IsRoutable-ne-nil : (p : Pattern) → IsRoutable p → p.segments ≢ []
unfolding last_segment
IsRoutable-ne-nil p r e = cc (rw e at r.last_is)

-- The check of `registerErr` finds a conflict if there is one.
pub no_conflict :
    (mux : ServeMux) (routes : List Leaf) (p : Pattern)
    → IsServing mux routes
    → IsRoutable p
    → possibly_conflicting_patterns (conflict_error p) mux.index p ≡ none
    → (l : Leaf) → In l routes
    → conflicts_with p l.pattern ≡ false
no_conflict mux routes p s r e l h = elim (Bool-cases (conflicts_with p l.pattern)) [
  | inl bad ↦
      let q = s.routable l h in
      absurd (
        possibly_conflicting_patterns-ne-none (conflict_error p) mux.index p l.pattern r.last
          r.last_is r.dollar (IsRoutable-ne-nil l.pattern q) q.multi_last (s.indexed l h)
          (conflicts_with-not_disjoint p l.pattern bad) (λ n. cc (rw bad at n)) e)
  | inr good ↦ good
]

-- So the leaf of the new pattern is free.
pub free_leaf :
    (mux : ServeMux) (routes : List Leaf) (p : Pattern)
    → IsServing mux routes
    → IsRoutable p
    → ((l : Leaf) → In l routes → conflicts_with p l.pattern ≡ false)
    → leaf_at mux.tree (route_keys p) ≡ none
free_leaf mux routes p s r c = elim (Option-cases (leaf_at mux.tree (route_keys p))) [
  | inl free ↦ free
  | inr (l, taken) ↦
      let (h, same) = s.only (route_keys p) l taken in
      cc (c l h, conflicts_with-same_keys p l.pattern r (s.routable l h) same)
]

pub same_keys-eq : (xs ys : List Bytes) → (same_keys xs ys ≡ true) → xs ≡ ys
same_keys-eq [] [] h = refl
same_keys-eq [] (y ∷ ys) h = cc
same_keys-eq (x ∷ xs) [] h = cc
same_keys-eq (x ∷ xs) (y ∷ ys) h = ground (arith, equal_iff x y, same_keys-eq xs ys)

pub same_keys_refl : (xs : List Bytes) → same_keys xs xs ≡ true
same_keys_refl [] = refl
same_keys_refl (x ∷ xs) = ground (arith, equal_iff x x, same_keys_refl xs)

pub map-concat :
    (f : Leaf → Pattern) (ls : List Leaf) (l : Leaf) → map f (ls ++ l ∷ []) ≡ map f ls ++ f l ∷ []
map-concat f [] l = refl
map-concat f (x ∷ ls) l = ap (◌∷◌ (f x)) (map-concat f ls l)

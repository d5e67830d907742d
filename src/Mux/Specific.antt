-- ===== src/Mux/Specific.antt =====
-- Of two patterns that serve a request and do not conflict, the one that the tree tries first is the
-- more specific one.
use mathlib.Core.Path.{subst}
use oohttp.Base.{Bool, true, false, ◌&&◌, ◌≡◌, ◌≢◌, ◌⊎◌, inl, inr, arith, Bytes, equal_iff}
use oohttp.Pattern.Compare.{Tells}
use oohttp.Pattern.Meaning.{path_matches}
use oohttp.Pattern.Methods.{serves, compare_paths_and_methods-Tells}
use oohttp.Pattern.{
  Pattern, Relationship, more_general, more_specific, disjoint, combine_relationships,
  compare_methods, compare_paths, compare_paths_and_methods, conflicts_with, is_conflict,
}
use oohttp.Routing.Insert.{keys_of}
use oohttp.Routing.Precedence.{compare_paths-ne-more_general}
use oohttp.Routing.Search.{leb_keys}
use oohttp.Routing.Table.{IsRoutable}

combine-more_specific : (r : Relationship) → combine_relationships more_specific r ≢ more_general
unfolding combine_relationships
combine-more_specific r e = ground arith

compare_methods_refl :
    (a : Bytes) (r : Relationship) → combine_relationships (compare_methods a a) r ≡ r
unfolding compare_methods combine_relationships
compare_methods_refl a r = ground (arith, equal_iff a a)

more_specific_of :
    (r : Relationship) → is_conflict r ≡ false → r ≢ disjoint → r ≢ more_general → r ≡ more_specific
more_specific_of r a b c = ground arith

not_disjoint :
    (p q : Pattern) (method path : Bytes)
    → IsRoutable p
    → IsRoutable q
    → serves p method path ≡ true
    → serves q method path ≡ true
    → compare_paths_and_methods p q ≢ disjoint
not_disjoint p q method path r s h k e =
    let t = compare_paths_and_methods-Tells p q method path r.multi_last s.multi_last in
    let u : Tells disjoint (serves p method path) (serves q method path) =
      subst (λ rel. Tells rel (serves p method path) (serves q method path)) e t in
    both_true (serves p method path) (serves q method path) h k u
  where
    both_true : (a b : Bool) → a ≡ true → b ≡ true → a && b ≢ false
    both_true a b g i j = ground arith

first_ne_more_general :
    (p q : Pattern) (path : Bytes)
    → IsRoutable p
    → IsRoutable q
    → path_matches p.segments path ≡ true
    → path_matches q.segments path ≡ true
    → ((p.method ≡ q.method) × (leb_keys (keys_of p.segments) (keys_of q.segments) ≡ true))
      ⊎ (compare_methods p.method q.method ≡ more_specific)
    → compare_paths_and_methods p q ≢ more_general
unfolding compare_paths_and_methods
first_ne_more_general p q path r s h k (inl (same, le)) e = ground (
  arith,
  compare_methods_refl p.method (compare_paths p.segments q.segments),
  compare_paths-ne-more_general p.segments q.segments path r.plain s.plain r.multi_last s.multi_last
      h k le,
)
first_ne_more_general p q path r s h k (inr specific) e =
    ground (arith, combine-more_specific (compare_paths p.segments q.segments))

pub and_right : (a b : Bool) → a && b ≡ true → b ≡ true
and_right a b h = ground arith

pub and_left : (a b : Bool) → a && b ≡ true → a ≡ true
and_left a b h = ground arith

-- Of two patterns that serve the request and do not conflict, the one that comes first.
pub first_is_more_specific :
    (p q : Pattern) (method path : Bytes)
    → IsRoutable p
    → IsRoutable q
    → p.host ≡ q.host
    → conflicts_with p q ≡ false
    → serves p method path ≡ true
    → serves q method path ≡ true
    → ((p.method ≡ q.method) × (leb_keys (keys_of p.segments) (keys_of q.segments) ≡ true))
      ⊎ (compare_methods p.method q.method ≡ more_specific)
    → compare_paths_and_methods p q ≡ more_specific
first_is_more_specific p q method path r s same c h k first =
    more_specific_of (compare_paths_and_methods p q)
      (unfold conflicts_with in ground (arith, equal_iff p.host q.host))
      (not_disjoint p q method path r s h k)
      (first_ne_more_general p q path r s (and_right _ _ h) (and_right _ _ k) first)

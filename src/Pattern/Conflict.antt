-- ===== src/Pattern/Conflict.antt =====
-- `conflictsWith` against its documentation: two patterns for one host conflict if both match some
-- request and neither wins by being more specific.
use oohttp.Base.{true, ◌≡◌, ◌⊎◌, ◌↔◌, inl, inr, refl, arith, equal-cases}
use oohttp.Pattern.Means.{Means, Only, Shared, Within, compare_paths_and_methods-Means}
use oohttp.Pattern.Only.{IsProper}
use oohttp.Pattern.{
  Pattern, Relationship, compare_paths_and_methods, conflicts_with, disjoint, equivalent,
  is_conflict, more_general, more_specific, overlaps,
}

-- Both match the same requests, or each one that the other does not.
abbrev pub NoneWins : Pattern → Pattern → Type 0
NoneWins p q = (Within p q × Within q p) ⊎ (Only p q × Only q p)

Only-Within : (p q : Pattern) → Only p q → Within p q → ⊥
Only-Within p q (m, path, a, b) w = let c = w m path a in cc

Shared-disjoint : (p q : Pattern) → Shared p q → Means disjoint p q → ⊥
Shared-disjoint p q (m, path, a, b) d = let e = d m path in ground arith

is_conflict-NoneWins :
    (r : Relationship) (p q : Pattern)
    → Means r p q
    → (is_conflict r ≡ true) ↔ (Shared p q × NoneWins p q)
is_conflict-NoneWins equivalent p q (s, a, b) = (λ e. (s, inl (a, b)), λ c. refl)
is_conflict-NoneWins more_general p q (s, a, b) = (
  λ e. cc,
  λ (_, c). elim c [
    | inl d ↦ absurd (Only-Within p q b d.0)
    | inr d ↦ absurd (Only-Within q p d.1 a)
  ],
)
is_conflict-NoneWins more_specific p q (s, a, b) = (
  λ e. cc,
  λ (_, c). elim c [
    | inl d ↦ absurd (Only-Within q p b d.1)
    | inr d ↦ absurd (Only-Within p q d.0 a)
  ],
)
is_conflict-NoneWins disjoint p q d = (λ e. cc, λ c. absurd (Shared-disjoint p q c.0 d))
is_conflict-NoneWins overlaps p q (s, a, b) = (λ e. (s, inr (a, b)), λ c. refl)

-- Two patterns whose multi wildcards stand last and whose literals each stand for a text with no slash
-- that is not empty conflict exactly if they are for the same host, there is a request that both
-- match, and none wins: they match the same requests, or each matches one that the other does not.
pub conflicts_with_iff :
    (p q : Pattern)
    → IsProper p.segments
    → IsProper q.segments
    → (conflicts_with p q ≡ true) ↔ ((p.host ≡ q.host) × Shared p q × NoneWins p q)
unfolding conflicts_with
conflicts_with_iff p q w v =
    let here =
      is_conflict-NoneWins (compare_paths_and_methods p q) p q
        (compare_paths_and_methods-Means p q w v) in
    elim (equal-cases p.host q.host) [
      | inl (e, same) ↦ (
        λ h. let c = here.0 (rw (conflicts_with, e) at h) in (same, c.0, c.1),
        λ (_, shared, none_wins). rw (conflicts_with, e) (here.1 (shared, none_wins)),
      )
      | inr (e, differ) ↦
          (λ h. cc (rw (conflicts_with, e) at h), λ (same, _, _). absurd (differ same))
    ]

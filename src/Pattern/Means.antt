-- ===== src/Pattern/Means.antt =====
-- What each relationship between two patterns means, as pattern.go documents it, in terms of the
-- requests that the patterns match; `comparePathsAndMethods` computes what holds.
use oohttp.Base.{
  Bool, true, false, ap, refl, ◌&&◌, [], ◌≡◌, ◌∙◌, inl, inr, arith, Bytes, codes, Bool-cases, equal,
  equal_iff, equal_refl,
}
use oohttp.Pattern.Apart.{
  first_more, first_more-combine, first_more-is_disjoint, is_disjoint-combine,
}
use oohttp.Pattern.Compare.{Tells}
use oohttp.Pattern.Methods.{compare_paths_and_methods-Tells, method_matches, serves}
use oohttp.Pattern.Only.{IsProper, compare_paths-only, compare_paths-shared}
use oohttp.Pattern.Relation.{compare_paths_and_methods-inverse}
use oohttp.Pattern.{
  Pattern, Relationship, compare_methods, compare_paths, compare_paths_and_methods, disjoint,
  equivalent, get, head, inverse_relationship, is_disjoint, more_general, more_specific, overlaps,
}

-- There is a request that both patterns match.
abbrev pub Shared : Pattern → Pattern → Type 0
Shared p q =
    (method : Bytes) × (path : Bytes) × (serves p method path ≡ true)
    × (serves q method path ≡ true)

-- There is a request that the first pattern matches and the second does not.
abbrev pub Only : Pattern → Pattern → Type 0
Only p q =
    (method : Bytes) × (path : Bytes) × (serves p method path ≡ true)
    × (serves q method path ≡ false)

-- The second pattern matches every request that the first does.
abbrev pub Within : Pattern → Pattern → Type 0
Within p q = (method path : Bytes) → serves p method path ≡ true → serves q method path ≡ true

-- The comments of the constants: both match the same requests; the first matches everything the
-- second does and more; the second what the first does and more; there is no request that both
-- match; there is one, but neither is more specific.
abbrev pub Means : Relationship → Pattern → Pattern → Type 0
Means equivalent p q = Shared p q × Within p q × Within q p
Means more_general p q = Shared p q × Within q p × Only p q
Means more_specific p q = Shared p q × Within p q × Only q p
Means disjoint p q = (method path : Bytes) → serves p method path && serves q method path ≡ false
Means overlaps p q = Shared p q × Only p q × Only q p

-- A method that both methods match.
compare_methods-shared :
    (a b : Bytes)
    → is_disjoint (compare_methods a b) ≡ false
    → (m : Bytes) × (method_matches a m ≡ true) × (method_matches b m ≡ true)
unfolding compare_methods method_matches equal
compare_methods-shared a b h = elim (Bool-cases (equal a [])) [
  | inl e ↦ (b, ground arith, ground (arith, equal_refl b))
  | inr n ↦ elim (Bool-cases (equal a get && equal b head)) [
    | inl g ↦ (head, ground (arith, equal_iff b head), ground (arith, equal_iff b head))
    | inr g ↦ (
      a,
      ground (arith, equal_refl a),
      ground (arith, equal_iff a b, equal_iff b a, equal_refl a),
    )
  ]
]

-- A method that the first method alone matches.
compare_methods-only :
    (a b : Bytes)
    → first_more (compare_methods a b) ≡ true
    → (m : Bytes) × (method_matches a m ≡ true) × (method_matches b m ≡ false)
unfolding compare_methods method_matches equal
compare_methods-only a b h = elim (Bool-cases (equal a [])) [
  | inr n ↦
      let is_head : b ≡ head = ground (arith, equal_iff b head) in
      (get, ground (arith, equal_iff a get), rw is_head refl)
  | inl e ↦ elim (Bool-cases (equal b (codes "PUT"))) [
    | inl p ↦
        let is_put : b ≡ codes "PUT" = (equal_iff b (codes "PUT")).0 p in
        (get, ground arith, rw is_put refl)
    | inr p ↦ (codes "PUT", ground arith, ground (arith, equal_iff a b, equal_iff a []))
  ]
]

compare_paths_and_methods-Shared :
    (p q : Pattern)
    → IsProper p.segments
    → IsProper q.segments
    → is_disjoint (compare_paths_and_methods p q) ≡ false
    → Shared p q
unfolding compare_paths_and_methods
compare_paths_and_methods-Shared p q w v h =
    elim (Bool-cases (is_disjoint (compare_methods p.method q.method))) [
      | inl d ↦ cc (rw d at h)
      | inr n ↦
          let paths =
            is_disjoint-combine (compare_methods p.method q.method)
              (compare_paths p.segments q.segments) (rw n at h) in
          let (m, a, b) = compare_methods-shared p.method q.method n in
          let (path, _, c, d) = compare_paths-shared p.segments q.segments w v paths.1 in
          (m, path, rw (a, c) refl, rw (b, d) refl)
    ]

compare_paths_and_methods-Only :
    (p q : Pattern)
    → IsProper p.segments
    → IsProper q.segments
    → first_more (compare_paths_and_methods p q) ≡ true
    → Only p q
unfolding compare_paths_and_methods
compare_paths_and_methods-Only p q w v h =
    let mrel = compare_methods p.method q.method in
    let prel = compare_paths p.segments q.segments in
    elim (Bool-cases (is_disjoint mrel)) [
      | inl d ↦ cc (rw d at h)
      | inr n ↦
          let k = rw n at h in
          let paths = is_disjoint-combine mrel prel (first_more-is_disjoint _ k) in
          elim (first_more-combine mrel prel k) [
            | inl e ↦
                let (m, a, b) = compare_methods-only p.method q.method e in
                let (path, _, c, d) = compare_paths-shared p.segments q.segments w v paths.1 in
                (m, path, rw (a, c) refl, rw b refl)
            | inr e ↦
                let (m, a, b) = compare_methods-shared p.method q.method n in
                let (path, _, c, d) = compare_paths-only p.segments q.segments w v e in
                (m, path, rw (a, c) refl, rw (b, d) refl)
          ]
    ]

Within-equal : (b1 b2 : Bool) → b1 ≡ b2 → (b1 ≡ true → b2 ≡ true) × (b2 ≡ true → b1 ≡ true)
Within-equal b1 b2 e = (λ h. cc, λ h. cc)

Means-all :
    (r : Relationship) (p q : Pattern)
    → ((method path : Bytes) → Tells r (serves p method path) (serves q method path))
    → (is_disjoint r ≡ false → Shared p q)
    → (first_more r ≡ true → Only p q)
    → (first_more (inverse_relationship r) ≡ true → Only q p)
    → Means r p q
unfolding inverse_relationship
Means-all equivalent p q t s a b = (
  s refl,
  λ m path. (Within-equal (serves p m path) (serves q m path) (t m path)).0,
  λ m path. (Within-equal (serves p m path) (serves q m path) (t m path)).1,
)
Means-all more_general p q t s a b = (s refl, t, a refl)
Means-all more_specific p q t s a b = (s refl, t, b refl)
Means-all disjoint p q t s a b = t
Means-all overlaps p q t s a b = (s refl, a refl, b refl)

-- Of two patterns whose multi wildcards stand last and whose literals each stand for a text with no
-- slash that is not empty, `comparePathsAndMethods` computes the relationship that holds: equivalent patterns match the same
-- requests, a more general one matches all that the other does and one more at least, disjoint ones
-- share no request, and of patterns that overlap both match some request and each one that the other
-- does not.
pub compare_paths_and_methods-Means :
    (p q : Pattern)
    → IsProper p.segments
    → IsProper q.segments
    → Means (compare_paths_and_methods p q) p q
compare_paths_and_methods-Means p q w v =
    Means-all (compare_paths_and_methods p q) p q
      (λ m path. compare_paths_and_methods-Tells p q m path w.multi_last v.multi_last)
      (compare_paths_and_methods-Shared p q w v) (compare_paths_and_methods-Only p q w v)
      (λ h.
        compare_paths_and_methods-Only q p v w
          (ap first_more (compare_paths_and_methods-inverse p q) ∙ h))

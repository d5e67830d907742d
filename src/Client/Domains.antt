-- ===== src/Client/Domains.antt =====
-- `isDomainOrSubdomain` against what a subdomain is.
use oohttp.Base.{
  ℕ, suc, ◌-◌, ◌<◌, ◌≡◌, refl, sym, ap, ◌∙◌, ◌⊎◌, inl, inr, ◌↔◌, true, false, [], ◌∷◌, ◌++◌, some,
  length, Bytes, equal, equal_iff, equal-cases, equal_refl, arith, drop, take, get_elem?,
  take-append-drop, drop-get_elem?, get_elem?-append, length-append, Option-cases,
}
use oohttp.Base.Text.{has_suffix}
use oohttp.Client.Policy.{byte_before, contains_byte, is_domain_or_subdomain}

-- The host is the domain, or a name in it, which has neither a port nor a zone.
abbrev pub IsUnder : Bytes → Bytes → Type 0
IsUnder sub parent =
    (sub ≡ parent)
    ⊎ ((contains_byte sub b':' ≡ false)
        × (contains_byte sub b'%' ≡ false)
        × ((name : Bytes) × (sub ≡ name ++ b'.' ∷ parent)))

-- A byte `c` before the last `n`.
byte_before-get_elem? :
    (s : Bytes) (n c : ℕ)
    → byte_before s n c ≡ true
    → (n < length s) × (get_elem? s (length s - n - 1) ≡ some c)
byte_before-get_elem? s n c h = elim (Option-cases (get_elem? s (length s - n - 1))) [
  | inl e ↦ ground arith
  | inr (b, e) ↦ ground arith
]

pub suffix-splits :
    (s p : Bytes)
    → has_suffix s p ≡ true
    → byte_before s (length p) b'.' ≡ true
    → (name : Bytes) × (s ≡ name ++ b'.' ∷ p)
unfolding has_suffix
suffix-splits s p h k =
    let b = byte_before-get_elem? s (length p) b'.' k in
    let e : equal (drop (length s - length p) s) p ≡ true = ground arith in
    let i : suc (length s - length p - 1) ≡ length s - length p = omega (arith, b.0) in
    let at_dot = drop-get_elem? (length s - length p - 1) s b'.' b.1 in
    (
      take (length s - length p - 1) s,
      sym (take-append-drop (length s - length p - 1) s)
          ∙ ap (λ d. take (length s - length p - 1) s ++ d)
              (at_dot
                ∙ ap (λ j. b'.' ∷ drop j s) i
                ∙ ap (◌∷◌ b'.') ((equal_iff (drop (length s - length p) s) p).0 e)),
    )

drop_past : (name p : Bytes) (c : ℕ) → drop (suc (length name)) (name ++ c ∷ p) ≡ p
drop_past [] p c = refl
drop_past (d ∷ name) p c = drop_past name p c

pub splits-suffix :
    (name p : Bytes)
    → (has_suffix (name ++ b'.' ∷ p) p ≡ true)
      × (byte_before (name ++ b'.' ∷ p) (length p) b'.' ≡ true)
unfolding has_suffix
splits-suffix name p =
    let n = length-append name (b'.' ∷ p) in
    let i : length (name ++ b'.' ∷ p) - length p ≡ suc (length name) = omega (arith, n) in
    let j : length (name ++ b'.' ∷ p) - length p - 1 ≡ length name = omega (arith, n) in
    let d = drop_past name p b'.' in
    let g = get_elem?-append name p b'.' in
    let r = equal_refl p in (rw (i, d, r) (ground arith), rw (j, g) (ground arith))

-- `isDomainOrSubdomain` answers true for the domain itself and for the names in it that end in a
-- dot and the domain and hold no colon or percent sign, and for no other host.
pub is_domain_or_subdomain-IsUnder :
    (sub parent : Bytes) → (is_domain_or_subdomain sub parent ≡ true) ↔ IsUnder sub parent
unfolding is_domain_or_subdomain
is_domain_or_subdomain-IsUnder sub parent = (forth, back)
  where
    forth : is_domain_or_subdomain sub parent ≡ true → IsUnder sub parent
    forth h = elim (equal-cases sub parent) [
      | inl (_, e) ↦ inl e
      | inr (e, _) ↦
          inr (ground arith, ground arith, suffix-splits sub parent (ground arith) (ground arith))
    ]

    back : IsUnder sub parent → is_domain_or_subdomain sub parent ≡ true
    back (inl e) = ground (arith, equal_iff sub parent)
    back (inr (a, b, (name, e))) =
        let p = splits-suffix name parent in
        let f : has_suffix sub parent ≡ true = rw e p.0 in
        let g : byte_before sub (length parent) b'.' ≡ true = rw e p.1 in ground arith

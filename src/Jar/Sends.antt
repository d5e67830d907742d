-- ===== src/Jar/Sends.antt =====
-- The cookies that go to a URL, as RFC 6265 says which.
use oohttp.Base.{
  ◌-◌, ◌≡◌, refl, sym, ap, ◌∙◌, ◌⊎◌, inl, inr, ◌↔◌, Bool, true, false, not, ◌&&◌, ◌||◌, none, some,
  ltb, length, ◌==◌, if◌then◌else◌, [], ◌∷◌, ◌++◌, Bytes, equal, equal-cases, equal_iff, is_empty,
  get_elem?, length-append, arith, Bool-cases,
}
use oohttp.Base.Text.{has_prefix, has_suffix}
use oohttp.Client.Domains.{splits-suffix, suffix-splits}
use oohttp.Jar.{Entry, domain_match, has_dot_suffix, path_match, should_send, slash_at}

-- The host is the cookie's, or a name in its domain where the cookie is not for one host only.
abbrev pub InDomain : Entry → Bytes → Type 0
InDomain e host =
    (e.domain ≡ host)
    ⊎ ((e.host_only ≡ false) × ((name : Bytes) × (host ≡ name ++ b'.' ∷ e.domain)))

-- The path is the cookie's, or begins with it up to a slash.
abbrev pub InPath : Entry → Bytes → Type 0
InPath e path =
    (path ≡ e.path)
    ⊎ ((rest : Bytes) × (path ≡ e.path ++ rest)
        × ((slash_at e.path (length e.path - 1) ≡ true) ⊎ (slash_at rest 0 ≡ true)))

has_dot_suffix-splits :
    (s p : Bytes) → has_dot_suffix s p ≡ true → (name : Bytes) × (s ≡ name ++ b'.' ∷ p)
unfolding has_dot_suffix has_suffix
has_dot_suffix-splits s p h = suffix-splits s p (ground arith) (ground arith)

splits-has_dot_suffix : (name p : Bytes) → has_dot_suffix (name ++ b'.' ∷ p) p ≡ true
unfolding has_dot_suffix has_suffix
splits-has_dot_suffix name p =
    let h = splits-suffix name p in
    let n = length-append name (b'.' ∷ p) in
    let l : ltb (length p) (length (name ++ b'.' ∷ p)) ≡ true = ground arith in ground arith

domain_match-InDomain : (e : Entry) (host : Bytes) → (domain_match e host ≡ true) ↔ InDomain e host
unfolding domain_match
domain_match-InDomain e host = (forth, back)
  where
    forth : domain_match e host ≡ true → InDomain e host
    forth h = elim (equal-cases e.domain host) [
      | inl (_, q) ↦ inl q
      | inr (q, _) ↦ inr (ground arith, has_dot_suffix-splits host e.domain (ground arith))
    ]

    back : InDomain e host → domain_match e host ≡ true
    back (inl q) = ground (arith, equal_iff e.domain host)
    back (inr (o, (name, q))) =
        let s : has_dot_suffix host e.domain ≡ true = rw q (splits-has_dot_suffix name e.domain) in
        ground arith

has_prefix-splits : (s p : Bytes) → has_prefix s p ≡ true → (rest : Bytes) × (s ≡ p ++ rest)
unfolding has_prefix
has_prefix-splits s [] h = (s, refl)
has_prefix-splits [] (d ∷ p) h = ground arith
has_prefix-splits (c ∷ s) (d ∷ p) h =
    let r = has_prefix-splits s p (ground arith) in
    let q : c ≡ d = ground arith in (r.0, λ i. q i ∷ r.1 i)

splits-has_prefix : (p rest : Bytes) → has_prefix (p ++ rest) p ≡ true
unfolding has_prefix
splits-has_prefix [] rest = refl
splits-has_prefix (c ∷ p) rest = ground (arith, splits-has_prefix p rest)

get_elem?-past : (p rest : Bytes) → get_elem? (p ++ rest) (length p) ≡ get_elem? rest 0
get_elem?-past [] rest = refl
get_elem?-past (c ∷ p) rest = get_elem?-past p rest

slash_at-past : (p rest : Bytes) → slash_at (p ++ rest) (length p) ≡ slash_at rest 0
slash_at-past p rest =
    ap (λ o. elim o [ none ↦ false | some b ↦ b == b'/' ]) (get_elem?-past p rest)

with_rest : {A : Type 0} {x y : Bool} → x ≡ y → A ⊎ (y ≡ true) → A ⊎ (x ≡ true)
with_rest z (inl a) = inl a
with_rest z (inr b) = inr (z ∙ b)

last_test :
    (a b c d : Bool)
    → a ≡ false
    → c ≡ false
    → (if a then true else if b then (if c then true else d) else false) ≡ true
    → d ≡ true
last_test a b c d p q h = ground arith

any_test :
    (a b c d : Bool)
    → b ≡ true
    → (c ≡ true) ⊎ (d ≡ true)
    → (if a then true else if b then (if c then true else d) else false) ≡ true
any_test a b c d p q = ground arith

all_three : {a b c : Bool} → a ≡ true → b ≡ true → c ≡ true → (a && b && c) ≡ true
all_three p q r = rw (p, q, r) refl

path_match-InPath : (e : Entry) (path : Bytes) → (path_match e path ≡ true) ↔ InPath e path
unfolding path_match
path_match-InPath e path = (forth, back)
  where
    forth : path_match e path ≡ true → InPath e path
    forth h = elim (equal-cases path e.path) [
      | inl (_, q) ↦ inl q
      | inr (q, _) ↦
          let r = has_prefix-splits path e.path (ground arith) in
          let z : slash_at path (length e.path) ≡ slash_at r.0 0 =
            ap (λ x. slash_at x (length e.path)) r.1 ∙ slash_at-past e.path r.0 in
          elim (Bool-cases (slash_at e.path (length e.path - 1))) [
            | inl s ↦ inr (r.0, r.1, inl s)
            | inr s ↦ inr (
              r.0,
              r.1,
              inr (
                  sym z
                  ∙ last_test (equal path e.path) (has_prefix path e.path)
                      (slash_at e.path (length e.path - 1)) (slash_at path (length e.path)) q s h),
            )
          ]
    ]

    back : InPath e path → path_match e path ≡ true
    back (inl q) = ground (arith, equal_iff path e.path)
    back (inr (rest, q, s)) =
        let p : has_prefix path e.path ≡ true = rw q (splits-has_prefix e.path rest) in
        let z : slash_at path (length e.path) ≡ slash_at rest 0 =
          ap (λ x. slash_at x (length e.path)) q ∙ slash_at-past e.path rest in
        any_test (equal path e.path) (has_prefix path e.path) (slash_at e.path (length e.path - 1))
          (slash_at path (length e.path)) p (with_rest z s)

-- A cookie whose path is not empty goes to a URL exactly if the host is the cookie's, or a name in its domain where it is
-- not for one host only, the path is the cookie's, or begins with it up to a slash, and the scheme
-- is `https` or the cookie not `Secure`.
pub should_send-IsSent :
    (e : Entry) (https : Bool) (host path : Bytes)
    → is_empty e.path ≡ false
    → (should_send e https host path ≡ true)
      ↔ (InDomain e host × InPath e path × ((https ≡ true) ⊎ (e.secure ≡ false)))
unfolding should_send
should_send-IsSent e https host path n =
    let d = domain_match-InDomain e host in
    let p = path_match-InPath e path in
    let s : (https || not e.secure ≡ true) ↔ ((https ≡ true) ⊎ (e.secure ≡ false)) = ground arith in
    (
      (λ h. (d.0 (ground arith), p.0 (ground arith), s.0 (ground arith))),
      (λ h. all_three (d.1 h.0) (p.1 h.1) (s.1 h.2)),
    )

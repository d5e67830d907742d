-- ===== src/Client/Hops.antt =====
-- What the loop of `Client.do` sends: how many requests, and with which headers.
use oohttp.Base.{
  ℕ, zero, suc, ◌+◌, ◌≤◌, ◌<◌, ◌≡◌, refl, ◌∙◌, ◌⊎◌, inl, inr, Bool, true, false, not, List, [], ◌∷◌,
  ◌++◌, Option, none, some, length, if◌then◌else◌, Bytes, codes, equal, equal-cases, arith,
  Bool-cases, Option-cases, length-append, is_empty,
}
use oohttp.Client.Domains.{IsUnder, is_domain_or_subdomain-IsUnder}
use oohttp.Client.Policy.{
  Behavior, Request, Response, copy_headers, redirect_behavior, is_sensitive, should_copy_header,
  is_domain_or_subdomain,
}
use oohttp.Client.Redirect.{
  Client, DoResult, Progress, Verdict, after_verdict, after_response, allow, client_do, copied,
  default_check_redirect, do_rounds, finish, follow, go_on, hop, next_body, next_header, refuse,
  send_round, use_last_response, with_referer,
}
use oohttp.Headers.{Header, put, get, values_of}
use oohttp.Headers.Lookup.{values_of-put_other}

-- The loop came to a result, and sent ten requests at most.
abbrev pub Ended : {U : Type 0} → List (Request U) × Option DoResult → Type 0
Ended p = (r : DoResult) × (p.1 ≡ some r) × (length p.0 ≤ 10)

-- What holds of the next request, where a round comes to one.
pub data IsHop {U : Type 0} (P : Request U → Type 0) : Progress U → Type 0 where
  ends : (r : DoResult) → IsHop P (finish r)
  goes : (next : Request U) → P next → IsHop P (hop next)

with_referer-other :
    (ref : Bytes) (h : Header) (k : Bytes)
    → equal (codes "Referer") k ≡ false
    → values_of (with_referer ref h) k ≡ values_of h k
with_referer-other [] h k e = refl
with_referer-other (b ∷ ref) h k e = values_of-put_other h (codes "Referer") k ((b ∷ ref) ∷ []) e

module _ {U : Type 0} (c : Client U) where
  -- A credential reaches a host only from the domain it lies in.
  abbrev pub Guarded : Request U → Request U → Type 0
  Guarded prev next =
      (k : Bytes)
      → is_sensitive (c.canonical k) ≡ true
      → equal (codes "Referer") k ≡ false
      → (values_of next.header k ≡ none)
        ⊎ IsUnder (c.api.ascii_host next.url) (c.api.ascii_host prev.url)

  copy_headers-sensitive :
      (u v : U) (from h : Header) (k : Bytes)
      → should_copy_header c.api c.canonical k u v ≡ false
      → values_of (copy_headers c.api c.canonical u v from h) k ≡ values_of h k
  unfolding copy_headers
  copy_headers-sensitive u v [] h k e = refl
  copy_headers-sensitive u v (p ∷ from) h k e = elim (equal-cases p.0 k) [
    | inl (_, q) ↦ rw (q, e) (copy_headers-sensitive u v from h k e)
    | inr (q, _) ↦ elim (Bool-cases (should_copy_header c.api c.canonical p.0 u v)) [
      | inl s ↦
          rw s (
            copy_headers-sensitive u v from (put h p.0 p.1) k e ∙ values_of-put_other h p.0 k p.1 q)
      | inr s ↦ rw s (copy_headers-sensitive u v from h k e)
    ]
  ]

  not_copied :
      (u v : U) (k : Bytes)
      → is_sensitive (c.canonical k) ≡ true
      → is_domain_or_subdomain (c.api.ascii_host v) (c.api.ascii_host u) ≡ false
      → should_copy_header c.api c.canonical k u v ≡ false
  unfolding should_copy_header
  not_copied u v k s e = ground arith

  next_header-Guarded :
      (ireq prev : Request U) (u : U) (k : Bytes)
      → is_sensitive (c.canonical k) ≡ true
      → equal (codes "Referer") k ≡ false
      → (values_of (next_header c ireq prev u) k ≡ none)
        ⊎ IsUnder (c.api.ascii_host u) (c.api.ascii_host prev.url)
  unfolding values_of
  next_header-Guarded ireq prev u k s r =
      elim (Bool-cases (is_domain_or_subdomain (c.api.ascii_host u) (c.api.ascii_host prev.url))) [
        | inl e ↦
            inr (
              (is_domain_or_subdomain-IsUnder (c.api.ascii_host u) (c.api.ascii_host prev.url)).0 e)
        | inr e ↦ inl (
            with_referer-other _ (copied c ireq prev u) k r
            ∙ copy_headers-sensitive prev.url u ireq.header [] k (not_copied prev.url u k s e))
      ]

  -- The next request after `prev`, where `via` is sent and the check is the default one.
  abbrev pub Follows : Request U → List (Request U) → Request U → Type 0
  Follows prev via next = (default_check_redirect next via ≡ allow) × Guarded prev next

  after_verdict-Follows :
      (resp : Response) (prev : Request U) (via : List (Request U)) (next : Request U) (v : Verdict)
      → default_check_redirect next via ≡ v
      → Guarded prev next
      → IsHop (Follows prev via) (after_verdict c resp next v)
  after_verdict-Follows resp prev via next allow e g = goes next (e, g)
  after_verdict-Follows resp prev via next use_last_response e g = ends _
  after_verdict-Follows resp prev via next (refuse x) e g = ends _

  follow-Follows :
      (ireq prev : Request U) (via : List (Request U)) (resp : Response) (b : Behavior)
      (loc : Bytes) (u : Option U)
      → c.check_redirect ≡ none
      → IsHop (Follows prev via) (follow c ireq prev via resp b loc u)
  follow-Follows ireq prev via resp b loc none n = ends _
  follow-Follows ireq prev via resp b loc (some u) n =
      elim (Option-cases (next_body c ireq b.include_body)) [
        | inl e ↦ rw (follow, e) (ends _)
        | inr (p, e) ↦
            rw (follow, e, n)
              (after_verdict-Follows resp prev via _ _ refl (next_header-Guarded ireq prev u))
      ]

  after_response-Follows :
      (ireq prev : Request U) (via : List (Request U)) (resp : Response)
      → c.check_redirect ≡ none
      → IsHop (Follows prev via) (after_response c ireq prev via resp)
  after_response-Follows ireq prev via resp n =
      either (not (redirect_behavior prev.method resp ireq).should_redirect) _ _ (ends _) (
        either (is_empty (get resp.header (codes "Location"))) _ _ (ends _) (
          follow-Follows ireq prev via resp (redirect_behavior prev.method resp ireq)
            (get resp.header (codes "Location"))
            (c.api.parse prev.url (get resp.header (codes "Location"))) n))
    where
      either :
          (b : Bool) (x y : Progress U)
          → IsHop (Follows prev via) x
          → IsHop (Follows prev via) y
          → IsHop (Follows prev via) (if b then x else y)
      either true x y p q = p
      either false x y p q = q

  send_round-Follows :
      (ireq : Request U) (reqs : List (Request U)) (req : Request U)
      → c.check_redirect ≡ none
      → IsHop (Follows req (reqs ++ (req ∷ []))) (send_round c ireq reqs req)
  unfolding send_round
  send_round-Follows ireq reqs req n = elim (Option-cases (c.send (reqs ++ (req ∷ [])))) [
    | inl e ↦ rw (send_round, e) (ends _)
    | inr (r, e) ↦ rw (send_round, e) (after_response-Follows ireq req (reqs ++ (req ∷ [])) r n)
  ]

  -- The default check lets no eleventh request through.
  allowed_below_ten :
      (req : Request U) (via : List (Request U))
      → default_check_redirect req via ≡ allow
      → length via < 10
  allowed_below_ten req via e = ground arith

  -- Each request that was sent after another is guarded by it.
  abbrev pub AllGuarded : List (Request U) → Type 0
  AllGuarded [] = Unit
  AllGuarded (r ∷ []) = Unit
  AllGuarded (r ∷ (s ∷ rs)) = Guarded r s × AllGuarded (s ∷ rs)

  go_on-ends :
      (reqs : List (Request U)) (req : Request U)
      (again : Request U → List (Request U) × Option DoResult) (x : Progress U)
      → length reqs < 10
      → IsHop (Follows req (reqs ++ (req ∷ []))) x
      → ((next : Request U) → length (reqs ++ (req ∷ [])) < 10 → Ended (again next))
      → Ended (go_on (reqs ++ (req ∷ [])) again x)
  go_on-ends reqs req again _ l (ends r) rec =
      (r, refl, omega (arith, length-append reqs (req ∷ [])))
  go_on-ends reqs req again _ l (goes next f) rec =
      rec next (allowed_below_ten next (reqs ++ (req ∷ [])) f.0)

  do_rounds-ends :
      (fuel : ℕ) (ireq : Request U) (reqs : List (Request U)) (req : Request U)
      → c.check_redirect ≡ none
      → length reqs < 10
      → 10 ≤ fuel + length reqs
      → Ended (do_rounds c fuel ireq reqs req)
  unfolding do_rounds
  do_rounds-ends zero ireq reqs req n l h = ground arith
  do_rounds-ends (suc fuel) ireq reqs req n l h =
      go_on-ends reqs req _ (send_round c ireq reqs req) l (send_round-Follows ireq reqs req n)
        (λ next k.
          do_rounds-ends fuel ireq (reqs ++ (req ∷ [])) next n k
            (omega (arith, length-append reqs (req ∷ []))))

  -- Without a `CheckRedirect` of its own, a client ends the loop of `do` with a result, whatever the
  -- servers answer, within ten rounds: it sends ten requests at most.
  pub client_do-ends :
      (fuel : ℕ) (req : Request U)
      → c.check_redirect ≡ none
      → 10 ≤ fuel
      → Ended (client_do c fuel req)
  unfolding client_do
  client_do-ends fuel req n h = do_rounds-ends fuel req [] req n (omega arith) (omega arith)

-- ===== src/Client/Tests.antt =====
-- Redirects between three hosts, and the premises of the theorems on the client there.
use oohttp.Base.{
  true, false, ◌≡◌, refl, ◌↔◌, List, [], ◌∷◌, Option, none, some, Bytes, codes, length, map, arith,
}
use oohttp.Base.Int.{pos}
use oohttp.Client.Domains.{IsUnder, is_domain_or_subdomain-IsUnder}
use oohttp.Client.Hops.{Ended, client_do-ends}
use oohttp.Client.Policy.{Request, Response, UrlApi, is_domain_or_subdomain}
use oohttp.Client.Redirect.{Client, client_do}
use oohttp.Headers.{values_of}

is_domain_or_subdomain-IsUnder_example :
    (is_domain_or_subdomain (codes "sub.foo.com") (codes "foo.com") ≡ true)
    ↔ IsUnder (codes "sub.foo.com") (codes "foo.com")
is_domain_or_subdomain-IsUnder_example =
    is_domain_or_subdomain-IsUnder (codes "sub.foo.com") (codes "foo.com")

domains :
    (is_domain_or_subdomain (codes "sub.foo.com") (codes "foo.com") ≡ true)
    × (is_domain_or_subdomain (codes "evilfoo.com") (codes "foo.com") ≡ false)
    × (is_domain_or_subdomain (codes "::1%.foo.com") (codes "foo.com") ≡ false)
unfolding is_domain_or_subdomain
domains = (refl, refl, refl)

-- A URL by its host alone.
abbrev hosts : UrlApi Bytes
hosts = record {
  scheme = λ u. codes "https";
  host = λ u. u;
  ascii_host = λ u. u;
  text = λ u. u;
  user = λ u. none;
  parse = λ u loc. some loc;
  is_relative = λ loc. false;
}

abbrev moved : Bytes → Response
moved loc = record { status_code = 302; header = (codes "Location", loc ∷ []) ∷ [] }

-- The first server redirects to another domain, and that one to a host in its own.
abbrev answers : List (Request Bytes) → Option Response
answers [] = none
answers (_ ∷ []) = some (moved (codes "bar.com"))
answers (_ ∷ _ ∷ []) = some (moved (codes "a.bar.com"))
answers (_ ∷ _ ∷ _ ∷ _) = some (record { status_code = 200; header = [] })

-- Every server redirects to one place.
abbrev circle : List (Request Bytes) → Option Response
circle reqs = some (moved (codes "foo.com"))

abbrev client : (List (Request Bytes) → Option Response) → Client Bytes
client send = record { api = hosts; canonical = λ k. k; send = send; check_redirect = none }

abbrev with_password : Request Bytes
with_password = record {
  method = codes "GET";
  url = codes "foo.com";
  header = (codes "Authorization", codes "secret" ∷ []) ∷ [];
  host = [];
  body = none;
  content_length = pos 0;
  get_body = none;
}

client_do-ends_example : Ended (client_do (client circle) 10 with_password)
client_do-ends_example = client_do-ends (client circle) 10 with_password refl (omega arith)

ten_requests : length (client_do (client circle) 12 with_password).0 ≡ 10
unfolding client_do
ten_requests = refl

-- The password is kept from the second host, and sent to the third.
passwords :
    map
      (λ r. values_of r.header (codes "Authorization"))
      (client_do (client answers) 10 with_password).0
    ≡ some (codes "secret" ∷ []) ∷ none ∷ some (codes "secret" ∷ []) ∷ []
unfolding client_do values_of
passwords = refl

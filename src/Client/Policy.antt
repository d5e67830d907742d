-- ===== src/Client/Policy.antt =====
-- client.go: what a redirect keeps of a request: method, body, headers and referer.
use oohttp.Base.{
  ℕ, ◌-◌, Bool, true, false, not, ◌&&◌, ◌||◌, [], ◌∷◌, ◌++◌, Option, none, some, leb, length, ◌==◌,
  if◌then◌else◌, Bytes, codes, equal, is_empty, index_byte, drop, get_elem?,
}
use oohttp.Base.Int.{ℤ, pos, negsuc}
use oohttp.Base.Text.{has_prefix, has_suffix}
use oohttp.Headers.{Header, put}

-- What `net/url` and `idnaASCIIFromURL` tell of a URL.
pub record UrlApi (U : Type 0) : Type 0 where
  pub scheme : U → Bytes
  pub host : U → Bytes
  pub ascii_host : U → Bytes
  pub text : U → Bytes
  pub user : U → Option Bytes
  pub parse : U → Bytes → Option U
  pub is_relative : Bytes → Bool

-- The parts of `Request` that redirects look at; `get_body` gives an error, or a body.
pub record Request (U : Type 0) : Type 0 where
  pub method : Bytes
  pub url : U
  pub header : Header
  pub host : Bytes
  pub body : Option Bytes
  pub content_length : ℤ
  pub get_body : Option (Option Bytes)

pub record Response : Type 0 where
  pub status_code : ℕ
  pub header : Header

abbrev pub equal_zero : ℤ → Bool
equal_zero (pos n) = n == 0
equal_zero (negsuc n) = false

-- `outgoingLength`, where no body stands for `NoBody` too.
abbrev pub outgoing_length : {U : Type 0} → Request U → ℤ
outgoing_length r = elim r.body [
  | none ↦ pos 0
  | some _ ↦ if not (equal_zero r.content_length) then r.content_length else negsuc 0
]

-- What `redirectBehavior` returns.
pub record Behavior : Type 0 where
  pub redirect_method : Bytes
  pub should_redirect : Bool
  pub include_body : Bool

abbrev pub is_nil_func : Option (Option Bytes) → Bool
is_nil_func none = true
is_nil_func (some _) = false

-- `redirectBehavior`
unfoldable pub redirect_behavior : {U : Type 0} → Bytes → Response → Request U → Behavior
unfolding equal
redirect_behavior req_method resp ireq =
    if resp.status_code == 301 || (resp.status_code == 302 || resp.status_code == 303)
    then record {
      redirect_method =
          if not (equal req_method (codes "GET")) && not (equal req_method (codes "HEAD"))
          then codes "GET"
          else req_method;
      should_redirect = true;
      include_body = false;
    }
    else if resp.status_code == 307 || resp.status_code == 308
    then record {
      redirect_method = req_method;
      should_redirect = not (is_nil_func ireq.get_body && not (equal_zero (outgoing_length ireq)));
      include_body = true;
    }
    else record { redirect_method = []; should_redirect = false; include_body = false }

abbrev pub contains_byte : Bytes → ℕ → Bool
contains_byte s c = elim (index_byte s c) [ none ↦ false | some _ ↦ true ]

-- `s[len(s)-n-1] == c`; out of range, which the tests before it rule out, there is no byte.
abbrev pub byte_before : Bytes → ℕ → ℕ → Bool
byte_before s n c =
    if leb (length s) n
    then false
    else elim (get_elem? s (length s - n - 1)) [ none ↦ false | some b ↦ b == c ]

-- `isDomainOrSubdomain`
unfoldable pub is_domain_or_subdomain : Bytes → Bytes → Bool
unfolding equal index_byte has_suffix
is_domain_or_subdomain sub parent =
    if equal sub parent
    then true
    else if contains_byte sub b':' || contains_byte sub b'%'
    then false
    else if not (has_suffix sub parent)
    then false
    else byte_before sub (length parent) b'.'

-- The keys whose values are credentials.
unfoldable pub is_sensitive : Bytes → Bool
unfolding equal
is_sensitive key =
    equal key (codes "Authorization")
    || equal key (codes "Www-Authenticate")
    || equal key (codes "Cookie")
    || equal key (codes "Cookie2")

-- `strings.Replace(s, old, "", 1)`
unfoldable pub remove_first : Bytes → Bytes → Bytes
unfolding has_prefix
remove_first old [] = []
remove_first old (c ∷ s) =
    let rest = remove_first old s in
    if has_prefix (c ∷ s) old then drop (length old) (c ∷ s) else c ∷ rest

module _ {U : Type 0} (api : UrlApi U) where
  -- `shouldCopyHeaderOnRedirect`; `canonical` is `CanonicalHeaderKey`.
  unfoldable pub should_copy_header : (Bytes → Bytes) → Bytes → U → U → Bool
  unfolding is_sensitive is_domain_or_subdomain
  should_copy_header canonical key initial dest =
      if is_sensitive (canonical key)
      then is_domain_or_subdomain (api.ascii_host dest) (api.ascii_host initial)
      else true

  -- `refererForURL`
  unfoldable pub referer_for_url : U → U → Bytes → Bytes
  unfolding equal remove_first
  referer_for_url last_req new_req explicit_ref =
      if equal (api.scheme last_req) (codes "https") && equal (api.scheme new_req) (codes "http")
      then []
      else if not (is_empty explicit_ref)
      then explicit_ref
      else elim (api.user last_req) [
        | none ↦ api.text last_req
        | some u ↦ remove_first (u ++ codes "@") (api.text last_req)
      ]

  -- The loop over the headers of the first request, in `makeHeadersCopier` without a cookie jar.
  unfoldable pub copy_headers : (Bytes → Bytes) → U → U → Header → Header → Header
  unfolding should_copy_header put
  copy_headers canonical initial dest [] h = h
  copy_headers canonical initial dest (p ∷ from) h =
      copy_headers canonical initial dest from
        (if should_copy_header canonical p.0 initial dest then put h p.0 p.1 else h)

-- ===== src/Client/Redirect.antt =====
-- client.go: the loop of `Client.do`, without a cookie jar and a deadline.
use oohttp.Base.{
  ℕ, zero, suc, Bool, not, ◌&&◌, List, [], ◌∷◌, ◌++◌, Option, none, some, leb, length,
  if◌then◌else◌, Bytes, codes, equal, is_empty,
}
use oohttp.Base.Int.{ℤ, pos}
use oohttp.Client.Policy.{
  Behavior, Request, Response, UrlApi, copy_headers, redirect_behavior, referer_for_url,
}
use oohttp.Headers.{Header, get, set}

-- The error that `CheckRedirect` returns: nil, `ErrUseLastResponse`, or another one.
pub data Verdict : Type 0 where
  allow : Verdict
  use_last_response : Verdict
  refuse : Bytes → Verdict

-- `defaultCheckRedirect`
abbrev pub default_check_redirect : {U : Type 0} → Request U → List (Request U) → Verdict
default_check_redirect req via =
    if leb 10 (length via) then refuse (codes "stopped after 10 redirects") else allow

-- The errors of `do`.
pub data DoError : Type 0 where
  send_failed : DoError
  bad_location : Bytes → DoError
  no_body_again : DoError

-- What `do` returns: a response, an error, or the last response and the error of `CheckRedirect`.
pub data DoResult : Type 0 where
  done : Response → DoResult
  failed : DoError → DoResult
  refused : Response → Bytes → DoResult

-- What a round of the loop comes to.
pub data Progress (U : Type 0) : Type 0 where
  finish : DoResult → Progress U
  hop : Request U → Progress U

-- The fields of `http.Client` that the loop reads, and what stands behind it: the round trip, by the
-- requests made up to this one, and the standard library. `CheckRedirect` may change the request
-- that it is given, which is what is sent then; of changes to the earlier requests nothing is read.
pub record Client (U : Type 0) : Type 0 where
  pub api : UrlApi U
  pub canonical : Bytes → Bytes
  pub send : List (Request U) → Option Response
  pub check_redirect : Option (Request U → List (Request U) → Verdict × Request U)

-- `Referer` is set where there is one.
abbrev pub with_referer : Bytes → Header → Header
with_referer ref h = if is_empty ref then h else set h (codes "Referer") ref

-- The rounds that come after one.
abbrev pub go_on :
    {U : Type 0}
    → List (Request U)
    → (Request U → List (Request U) × Option DoResult)
    → Progress U
    → List (Request U) × Option DoResult
go_on sent again (finish r) = (sent, some r)
go_on sent again (hop next) = again next

module _ {U : Type 0} (c : Client U) where
  -- `checkRedirect`, with the request as it leaves it.
  abbrev pub check : Request U → List (Request U) → Verdict × Request U
  check req via = elim c.check_redirect [
    | none ↦ (default_check_redirect req via, req)
    | some f ↦ f req via
  ]

  -- The `Host` of the next request.
  abbrev pub next_host : Request U → Bytes → Bytes
  next_host req loc =
      if not (is_empty req.host)
        && not (equal req.host (c.api.host req.url))
        && c.api.is_relative loc
      then req.host
      else []

  -- The body of the next request, or an error of `GetBody`.
  abbrev pub next_body : Request U → Bool → Option (Option Bytes × ℤ)
  next_body ireq include_body =
      if include_body
      then elim ireq.get_body [
        | none ↦ some (none, pos 0)
        | some (some b) ↦ some (some b, ireq.content_length)
        | some none ↦ none
      ]
      else some (none, pos 0)

  abbrev pub copied : Request U → Request U → U → Header
  copied ireq preq u = copy_headers c.api c.canonical preq.url u ireq.header []

  abbrev pub next_header : Request U → Request U → U → Header
  next_header ireq preq u =
      with_referer (referer_for_url c.api preq.url u (get (copied ireq preq u) (codes "Referer")))
        (copied ireq preq u)

  abbrev pub after_verdict : Response → Request U → Verdict → Progress U
  after_verdict resp next allow = hop next
  after_verdict resp next use_last_response = finish (done resp)
  after_verdict resp next (refuse e) = finish (refused resp e)

  -- The next request, once its URL is known; `via` is what was sent.
  abbrev pub follow :
      Request U → Request U → List (Request U) → Response → Behavior → Bytes → Option U → Progress U
  follow ireq req via resp b loc none = finish (failed (bad_location loc))
  follow ireq req via resp b loc (some u) = elim (next_body ireq b.include_body) [
    | none ↦ finish (failed no_body_again)
    | some p ↦
        let next : Request U = record {
          method = b.redirect_method;
          url = u;
          header = next_header ireq req u;
          host = next_host req loc;
          body = p.0;
          content_length = p.1;
          get_body = none;
        } in
        let checked = check next via in after_verdict resp checked.1 checked.0
  ]

  -- After the response to `req`, the last of `via`.
  abbrev pub after_response : Request U → Request U → List (Request U) → Response → Progress U
  after_response ireq req via resp =
      let b = redirect_behavior req.method resp ireq in
      let loc = get resp.header (codes "Location") in
      if not b.should_redirect
      then finish (done resp)
      else if is_empty loc
      then finish (done resp)
      else follow ireq req via resp b loc (c.api.parse req.url loc)

  -- A round of the loop, from the call of `send`.
  unfoldable pub send_round : Request U → List (Request U) → Request U → Progress U
  unfolding redirect_behavior get equal copy_headers referer_for_url
  send_round ireq reqs req = elim (c.send (reqs ++ (req ∷ []))) [
    | none ↦ finish (failed send_failed)
    | some resp ↦ after_response ireq req (reqs ++ (req ∷ [])) resp
  ]

  -- What was sent, with the result; `none` where so many rounds do not end the loop.
  unfoldable pub do_rounds :
      ℕ → Request U → List (Request U) → Request U → List (Request U) × Option DoResult
  unfolding send_round
  do_rounds zero ireq reqs req = (reqs, none)
  do_rounds (suc fuel) ireq reqs req =
      go_on (reqs ++ (req ∷ [])) (λ next. do_rounds fuel ireq (reqs ++ (req ∷ [])) next)
        (send_round ireq reqs req)

  -- `do`
  unfoldable pub client_do : ℕ → Request U → List (Request U) × Option DoResult
  unfolding do_rounds
  client_do fuel req = do_rounds fuel req [] req

-- ===== src/Transfer/Tests.antt =====
-- Messages as `readTransfer` reads them.
use oohttp.Base.{
  Bool, true, false, ◌≡◌, refl, List, [], ◌∷◌, Option, none, some, Bytes, codes, equal,
}
use oohttp.Headers.{Header}
use oohttp.Transfer.Framing.{Framed}
use oohttp.Transfer.Framing.Rfc.{read_transfer-Framed}
use oohttp.Transfer.Read.{
  Body, Message, Transferred, chunks, default_version, limited, no_body, read_transfer, request,
  response, to_eof, unify,
}
use oohttp.Transfer.Result.{Result, fail, ok}

-- One value that is the token itself.
abbrev is_token : List Bytes → Bytes → Bool
is_token [] t = false
is_token (v ∷ _) t = equal v t

abbrev field : Bytes → Bytes → Header → Header
field k v h = (k, v ∷ []) ∷ h

abbrev post : Header → Message
post h = request (codes "POST") h 1 1 false

-- A request with a length and chunks.
abbrev smuggled : Header
smuggled =
    field (codes "Content-Length") (codes "5")
      (field (codes "Transfer-Encoding") (codes "Chunked") [])

read_transfer-Framed_example :
    Framed
      (default_version (unify is_token (post smuggled)))
      (read_transfer (λ k. k) false is_token (post smuggled))
read_transfer-Framed_example = read_transfer-Framed (λ k. k) is_token (post smuggled)

abbrev body_of_result : Result Transferred → Option (Body × Header)
body_of_result (fail e) = none
body_of_result (ok r) = some (r.body, r.header)

abbrev read_message : Message → Option (Body × Header)
read_message m = body_of_result (read_transfer (λ k. k) false is_token m)

abbrev two_lengths : Bytes → Header
two_lengths v = (codes "Content-Length", codes "5" ∷ v ∷ []) ∷ []

bodies :
    (read_message (post smuggled) ≡ some (chunks false, []))
    × (read_message (post (two_lengths (codes " 5")))
        ≡ some (limited 5 false, (codes "Content-Length", codes "5" ∷ []) ∷ []))
    × (read_message (post (two_lengths (codes "6"))) ≡ none)
    × (read_message (post []) ≡ some (no_body, []))
    × (read_message (response 200 [] 1 1 none) ≡ some (to_eof true, []))
    × (read_message (response 304 (two_lengths (codes "5")) 1 1 none)
        ≡ some (no_body, (codes "Content-Length", codes "5" ∷ []) ∷ []))
unfolding read_transfer equal
bodies = (refl, refl, refl, refl, refl, refl)

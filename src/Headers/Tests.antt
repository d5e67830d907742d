-- ===== src/Headers/Tests.antt =====
-- Runs of the code of `header.go`, and the premises of the theorems at inputs.
use oohttp.Base.{refl, ◌≡◌, ◌↔◌, true, false, codes}
use oohttp.Headers.{has_token}
use oohttp.Headers.Tokens.{has_token-TokenIn, TokenIn}

has_token-TokenIn_example :
    (has_token (codes "keep-alive, Close") (codes "close") ≡ true)
    ↔ TokenIn true (codes "keep-alive, Close") (codes "close")
has_token-TokenIn_example =
    has_token-TokenIn (codes "keep-alive, Close") (codes "close") refl
      (refl, (refl, (refl, (refl, (refl, tt)))))

finds_close : has_token (codes "keep-alive, Close") (codes "close") ≡ true
unfolding has_token
finds_close = refl

no_part_of_a_word : has_token (codes "enclosed") (codes "close") ≡ false
unfolding has_token
no_part_of_a_word = refl

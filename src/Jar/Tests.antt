-- ===== src/Jar/Tests.antt =====
-- A cookie of a domain, and the theorem on where it goes.
use oohttp.Base.{true, false, ◌≡◌, refl, ◌↔◌, ◌⊎◌, codes}
use oohttp.Jar.{Entry, should_send}
use oohttp.Jar.Sends.{InDomain, InPath, should_send-IsSent}

abbrev cookie : Entry
cookie = record { domain = codes "foo.com"; path = codes "/any"; secure = true; host_only = false }

should_send-IsSent_example :
    (should_send cookie true (codes "www.foo.com") (codes "/any/path") ≡ true) ↔ (
      InDomain cookie (codes "www.foo.com")
      × InPath cookie (codes "/any/path")
      × ((true ≡ true) ⊎ (cookie.secure ≡ false)))
should_send-IsSent_example =
    should_send-IsSent cookie true (codes "www.foo.com") (codes "/any/path") refl

sent :
    (should_send cookie true (codes "www.foo.com") (codes "/any/path") ≡ true)
    × (should_send cookie true (codes "www.foo.com") (codes "/anything") ≡ false)
    × (should_send cookie true (codes "evilfoo.com") (codes "/any") ≡ false)
    × (should_send cookie false (codes "foo.com") (codes "/any") ≡ false)
unfolding should_send
sent = (refl, refl, refl, refl)

-- ===== src/Jar.antt =====
-- cookiejar/jar.go: which cookies go to a URL. How the jar keeps them is not here.
pub mod Sends
mod Tests
use oohttp.Base.{
  ℕ, ◌-◌, Bool, true, false, not, ◌&&◌, ◌||◌, Option, none, some, ltb, length, ◌==◌, if◌then◌else◌,
  [], ◌∷◌, Bytes, drop, equal, get_elem?,
}
use oohttp.Base.Text.{has_prefix}
use oohttp.Client.Policy.{byte_before}

-- The fields of `entry` that decide.
pub record Entry : Type 0 where
  pub domain : Bytes
  pub path : Bytes
  pub secure : Bool
  pub host_only : Bool

-- `hasDotSuffix`
unfoldable pub has_dot_suffix : Bytes → Bytes → Bool
unfolding equal
has_dot_suffix s suffix =
    ltb (length suffix) (length s)
    && byte_before s (length suffix) b'.'
    && equal (drop (length s - length suffix) s) suffix

-- `domainMatch`
unfoldable pub domain_match : Entry → Bytes → Bool
unfolding equal has_dot_suffix
domain_match e host =
    if equal e.domain host then true else not e.host_only && has_dot_suffix host e.domain

-- `s[i] == '/'`; out of range, which the tests before it rule out, there is no byte.
abbrev pub slash_at : Bytes → ℕ → Bool
slash_at s i = elim (get_elem? s i) [ none ↦ false | some b ↦ b == b'/' ]

-- `pathMatch`, of an entry whose path is not empty.
unfoldable pub path_match : Entry → Bytes → Bool
unfolding equal has_prefix
path_match e request_path =
    if equal request_path e.path
    then true
    else if has_prefix request_path e.path
    then if slash_at e.path (length e.path - 1) then true else slash_at request_path (length e.path)
    else false

-- `shouldSend`
unfoldable pub should_send : Entry → Bool → Bytes → Bytes → Bool
unfolding domain_match path_match
should_send e https host path = domain_match e host && path_match e path && (https || not e.secure)

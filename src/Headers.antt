-- ===== src/Headers.antt =====
-- header.go: header maps, and `hasToken`.
pub mod Tokens
pub mod Lookup
mod Tests
use oohttp.Base.{
  ℕ, zero, suc, ◌+◌, ◌-◌, ◌/◌, ◌%◌, Bool, true, false, not, ◌&&◌, ◌||◌, List, [], ◌∷◌, ◌++◌, Option,
  none, some, leb, ◌==◌, if◌then◌else◌, Bytes, codes, equal, is_empty, take, drop, length,
}
use oohttp.Base.Text.{equal_fold, is_digit}

-- A header map by its pairs, whose keys are in canonical form.
abbrev pub Header : Type 0
Header = List (Bytes × List Bytes)

-- `h[key]`, with whether it is there.
unfoldable pub values_of : Header → Bytes → Option (List Bytes)
unfolding equal
values_of [] key = none
values_of (p ∷ h) key = if equal p.0 key then some p.1 else values_of h key

abbrev pub first_or_empty : Option (List Bytes) → Bytes
first_or_empty none = []
first_or_empty (some []) = []
first_or_empty (some (v ∷ _)) = v

-- `get`, and `Get` of a canonical key
unfoldable pub get : Header → Bytes → Bytes
unfolding values_of
get h key = first_or_empty (values_of h key)

abbrev pub or_nil : Option (List Bytes) → List Bytes
or_nil none = []
or_nil (some vs) = vs

-- `has`
abbrev pub has : Header → Bytes → Bool
has h key = elim (values_of h key) [ none ↦ false | some _ ↦ true ]

-- `Del` of a canonical key, and `delete`
unfoldable pub del : Header → Bytes → Header
unfolding equal
del [] key = []
del (p ∷ h) key = if equal p.0 key then del h key else p ∷ del h key

-- `h[key] = vs`
unfoldable pub put : Header → Bytes → List Bytes → Header
unfolding equal
put [] key vs = (key, vs) ∷ []
put (p ∷ h) key vs = if equal p.0 key then (key, vs) ∷ h else p ∷ put h key vs

-- `Set`
abbrev pub set : Header → Bytes → Bytes → Header
set h key v = put h key (v ∷ [])

-- `Add`
unfoldable pub add : Header → Bytes → Bytes → Header
unfolding put values_of
add h key v = put h key (or_nil (values_of h key) ++ (v ∷ []))

-- `isTokenBoundary`
abbrev pub is_token_boundary : ℕ → Bool
is_token_boundary b = b == b' ' || b == b',' || b == b'\t'

-- `b | 0x20`
abbrev pub or_0x20 : ℕ → ℕ
or_0x20 b = if b / 32 % 2 == 0 then b + 32 else b

-- The test of the first byte in the loop of `hasToken`.
abbrev pub first_fits : Bytes → Bytes → Bool
first_fits (b ∷ _) (t ∷ _) = b == t || or_0x20 b == t
first_fits _ _ = false

abbrev pub ends_well : Bytes → Bool
ends_well [] = true
ends_well (b ∷ _) = is_token_boundary b

-- The tests of the loop at a position that a boundary precedes or not.
unfoldable pub token_here : Bool → Bytes → Bytes → Bool
unfolding equal_fold
token_here after_boundary rest token =
    leb (length token) (length rest)
    && first_fits rest token
    && after_boundary
    && ends_well (drop (length token) rest)
    && equal_fold (take (length token) rest) token

-- The loop over the positions.
unfoldable pub token_from : Bool → Bytes → Bytes → Bool
unfolding token_here
token_from after_boundary [] token = false
token_from after_boundary (b ∷ s) token =
    token_here after_boundary (b ∷ s) token || token_from (is_token_boundary b) s token

-- `hasToken`
unfoldable pub has_token : Bytes → Bytes → Bool
unfolding token_from equal
has_token v token =
    if not (leb (length token) (length v)) || is_empty token
    then false
    else if equal v token
    then true
    else token_from true v token

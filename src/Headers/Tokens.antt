-- ===== src/Headers/Tokens.antt =====
-- `hasToken` against what its comment says: the token appears with boundaries round it, in any case.
use oohttp.Base.{
  ℕ, ◌≤◌, ◌≡◌, refl, sym, ap, ◌↔◌, Bool, true, false, [], ◌∷◌, ◌++◌, Bytes, equal-cases, is_empty,
  take, drop, length, length-append, take-append-drop, take-append, drop-append, arith, All,
  Bool-cases, inl, inr,
}
use oohttp.Base.Text.{equal_fold, lower}
use oohttp.Headers.{is_token_boundary, first_fits, ends_well, token_here, token_from, has_token}

-- Whether a boundary stands before what follows `a`; `b` says so where `a` is empty.
abbrev pub boundary_after : Bool → Bytes → Bool
boundary_after b [] = b
boundary_after b (c ∷ a) = boundary_after (is_token_boundary c) a

-- The token stands in `v`, up to the case of letters, after the start or a boundary, and before the
-- end or a boundary.
pub data TokenIn (start : Bool) (v token : Bytes) : Type 0 where
  stands :
      (a w b : Bytes)
      → v ≡ a ++ (w ++ b)
      → equal_fold w token ≡ true
      → boundary_after start a ≡ true
      → ends_well b ≡ true
      → TokenIn start v token

equal_fold-length : (w t : Bytes) → equal_fold w t ≡ true → length w ≡ length t
unfolding equal_fold
equal_fold-length [] [] h = refl
equal_fold-length [] (d ∷ t) h = cc
equal_fold-length (c ∷ w) [] h = cc
equal_fold-length (c ∷ w) (d ∷ t) h = ground (arith, equal_fold-length w t)

-- A token in lower case.
abbrev pub IsLower : Bytes → Type 0
IsLower = All (λ c. lower c ≡ c)

-- The test of the first byte lets every match pass.
first_fits_lem :
    (w t b : Bytes)
    → is_empty t ≡ false
    → IsLower t
    → equal_fold w t ≡ true
    → first_fits (w ++ b) t ≡ true
unfolding equal_fold
first_fits_lem w [] b e low h = cc
first_fits_lem [] (d ∷ t) b e low h = cc
first_fits_lem (c ∷ w) (d ∷ t) b e (low, _) h = ground arith

token_here-stands : (start : Bool) (v t : Bytes) → token_here start v t ≡ true → TokenIn start v t
unfolding token_here
token_here-stands start v t h =
    let p : (equal_fold (take (length t) v) t ≡ true)
        × (start ≡ true)
        × (ends_well (drop (length t) v) ≡ true) =
      ground arith in
    stands [] (take (length t) v) (drop (length t) v) (sym (take-append-drop (length t) v)) p.0 p.1
      p.2

later :
    (start : Bool) (c : ℕ) (s t : Bytes)
    → TokenIn (is_token_boundary c) s t
    → TokenIn start (c ∷ s) t
later start c s t (stands a w b e f l r) = stands (c ∷ a) w b (ap (◌∷◌ c) e) f l r

token_from-TokenIn : (start : Bool) (v t : Bytes) → token_from start v t ≡ true → TokenIn start v t
unfolding token_from
token_from-TokenIn start [] t h = cc
token_from-TokenIn start (c ∷ s) t h = elim (Bool-cases (token_here start (c ∷ s) t)) [
  | inl e ↦ token_here-stands start (c ∷ s) t e
  | inr e ↦ later start c s t (token_from-TokenIn (is_token_boundary c) s t (ground arith))
]

-- A token that stands at a position is found there.
token_here_lem :
    (w t b : Bytes)
    → is_empty t ≡ false
    → IsLower t
    → equal_fold w t ≡ true
    → ends_well b ≡ true
    → token_here true (w ++ b) t ≡ true
unfolding token_here
token_here_lem w t b e low h r =
    let n = equal_fold-length w t h in
    let f = first_fits_lem w t b e low h in
    let k = length-append w b in
    let d = drop-append w b in
    let k2 = take-append w b in rw (sym n, d, k2, f, h, r, k) (ground arith)

token_here-from :
    (start : Bool) (v t : Bytes)
    → is_empty v ≡ false
    → token_here start v t ≡ true
    → token_from start v t ≡ true
unfolding token_from
token_here-from start [] t e h = cc
token_here-from start (c ∷ s) t e h = ground arith

-- The loop comes to the position behind `a`.
token_from-append :
    (start : Bool) (a v t : Bytes)
    → is_empty v ≡ false
    → token_here (boundary_after start a) v t ≡ true
    → token_from start (a ++ v) t ≡ true
unfolding token_from
token_from-append start [] v t e h = token_here-from start v t e h
token_from-append start (c ∷ a) v t e h =
    let i = token_from-append (is_token_boundary c) a v t e h in ground arith

nonempty : (w t b : Bytes) → is_empty t ≡ false → equal_fold w t ≡ true → is_empty (w ++ b) ≡ false
unfolding equal_fold
nonempty w [] b e h = cc
nonempty [] (d ∷ t) b e h = cc
nonempty (c ∷ w) (d ∷ t) b e h = refl

TokenIn-found :
    (start : Bool) (v t : Bytes)
    → is_empty t ≡ false
    → IsLower t
    → TokenIn start v t
    → (token_from start v t ≡ true) × (length t ≤ length v)
TokenIn-found start v t e low (stands a w b p f l r) =
    let n = equal_fold-length w t f in
    let k = length-append a (w ++ b) in
    let k2 = length-append w b in
    let h = token_here_lem w t b e low f r in
    (rw p (token_from-append start a (w ++ b) t (nonempty w t b e f) (rw l h)), rw p (omega arith))

equal_fold_refl : (s : Bytes) → equal_fold s s ≡ true
unfolding equal_fold
equal_fold_refl [] = refl
equal_fold_refl (c ∷ s) = ground (arith, equal_fold_refl s)

++_nil : (s : Bytes) → s ≡ s ++ []
++_nil [] = refl
++_nil (c ∷ s) = ap (◌∷◌ c) (++_nil s)

whole : {v t : Bytes} → v ≡ t → TokenIn true v t
whole {v} e = stands [] v [] (++_nil v) (rw (sym e) (equal_fold_refl v)) refl refl

-- For a token in lower case that is not empty, `hasToken` answers true for the values in which the
-- token stands, up to the case of letters, between boundaries (a space, a comma, a tab, or an end
-- of the value), and for no other.
pub has_token-TokenIn :
    (v t : Bytes) → is_empty t ≡ false → IsLower t → (has_token v t ≡ true) ↔ TokenIn true v t
unfolding has_token
has_token-TokenIn v t e low = (forth, back)
  where
    forth : has_token v t ≡ true → TokenIn true v t
    forth h = elim (equal-cases v t) [
      | inl (_, q) ↦ whole q
      | inr (q, _) ↦ token_from-TokenIn true v t (ground arith)
    ]

    back : TokenIn true v t → has_token v t ≡ true
    back h = let k = TokenIn-found true v t e low h in ground arith

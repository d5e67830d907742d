-- ===== src/Pattern/Parse/Texts.antt =====
-- The literals that `parsePattern` reads can be written in a path.
use oohttp.Base.{ℕ, Bool, false, List, ◌≡◌, Bytes, is_empty, All}
use oohttp.Pattern.Built.{HasText}
use oohttp.Pattern.Parse.{Parsed, empty_pattern, failed, parsed, segments, stuck}
use oohttp.Pattern.{Pattern, Segment}

-- A literal that is not empty can be written in a path.
abbrev HasOwnText : Segment → Type 0
HasOwnText x = is_empty x.s ≡ false → HasText x

module _ (runes : Bytes → List ℕ) (is_letter is_digit is_token_rune : ℕ → Bool) where
  -- What a pattern that is parsed comes from.
  abbrev Written : Parsed → Type 0
  Written (parsed p) = All HasOwnText p.segments
  Written (failed off problem) = Unit
  Written empty_pattern = Unit
  Written stuck = Unit

  -- No literal is empty.
  abbrev pub HasNoEmptyLiteral : List Segment → Type 0
  HasNoEmptyLiteral segs = All (λ (x : Segment). x.wild ≡ false → is_empty x.s ≡ false) segs

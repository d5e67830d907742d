-- ===== src/Files/Etag.antt =====
-- Entity tags in fs.go: `scanETag`, the two comparisons, and the loops over a list of tags.
use mathlib.Core.Option
use oohttp.Base.{
  ℕ, zero, suc, ◌+◌, Bool, true, false, ◌&&◌, ◌||◌, [], ◌∷◌, ◌++◌, Option, none, some, leb, ◌==◌,
  if◌then◌else◌, Bytes, codes, equal, drop, length,
}
use oohttp.Base.Text.{trim, has_prefix, trim_prefix}

-- `case c == 0x21 || c >= 0x23 && c <= 0x7E || c >= 0x80`
abbrev pub is_etag_char : ℕ → Bool
is_etag_char c = c == 0x21 || (leb 0x23 c && leb c 0x7e) || leb 0x80 c

-- The loop of `scanETag`: the characters up to the closing quote, with it, and what follows.
unfoldable pub scan_chars : Bytes → Option (Bytes × Bytes)
scan_chars [] = none
scan_chars (c ∷ s) =
    let rest = Option.map (λ p. (c ∷ p.0, p.1)) (scan_chars s) in
    if is_etag_char c then rest else if c == b'"' then some (c ∷ [], s) else none

abbrev pub scan_quoted : Bytes → Option (Bytes × Bytes)
scan_quoted [] = none
scan_quoted (c ∷ s) = if c == b'"' then Option.map (λ p. (c ∷ p.0, p.1)) (scan_chars s) else none

-- `scanETag`; `none` stands for two empty strings.
unfoldable pub scan_etag : Bytes → Option (Bytes × Bytes)
unfolding scan_chars trim has_prefix
scan_etag s =
    let t = trim s in
    if has_prefix t (codes "W/")
    then Option.map (λ p. (codes "W/" ++ p.0, p.1)) (scan_quoted (drop 2 t))
    else scan_quoted t

abbrev pub is_quoted : Bytes → Bool
is_quoted [] = false
is_quoted (c ∷ s) = c == b'"'

-- `etagStrongMatch`
unfoldable pub etag_strong_match : Bytes → Bytes → Bool
unfolding equal
etag_strong_match a b = equal a b && is_quoted a

-- `etagWeakMatch`
unfoldable pub etag_weak_match : Bytes → Bytes → Bool
unfolding equal has_prefix
etag_weak_match a b = equal (trim_prefix a (codes "W/")) (trim_prefix b (codes "W/"))

-- A round of the loops of `checkIfMatch` and `checkIfNoneMatch`, on a trimmed string that is not
-- empty: an answer, or what is left.
pub data Round : Type 0 where
  answer : Bool → Round
  again : Bytes → Round

abbrev pub tag_round : (Bytes → Bool) → Option (Bytes × Bytes) → Round
tag_round matches none = answer false
tag_round matches (some (etag, remain)) = if matches etag then answer true else again remain

unfoldable pub round : (Bytes → Bool) → Bytes → Round
unfolding scan_etag
round matches [] = answer false
round matches (c ∷ s) =
    if c == b','
    then again s
    else if c == b'*'
    then answer true
    else tag_round matches (scan_etag (c ∷ s))

-- The loops: whether a `*` or a tag that matches is found before the end or an error.
unfoldable pub any_tag : ℕ → (Bytes → Bool) → Bytes → Bool
unfolding round trim
any_tag zero matches s = false
any_tag (suc fuel) matches s = elim (round matches (trim s)) [
  | answer b ↦ b
  | again rest ↦ any_tag fuel matches rest
]

-- Each round but the last takes a byte.
abbrev pub has_tag : (Bytes → Bool) → Bytes → Bool
has_tag matches s = any_tag (length s + 1) matches s

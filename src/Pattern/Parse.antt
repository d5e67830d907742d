-- ===== src/Pattern/Parse.antt =====
-- `parsePattern` of pattern.go, with `validMethod` and `isNotToken`.
pub mod Steps
pub mod Result
pub mod Texts
mod Tests
use oohttp.Base.{
  ℕ, zero, suc, ◌+◌, ◌-◌, Bool, true, false, not, ◌&&◌, ◌||◌, List, [], ◌∷◌, ◌++◌, Option, none,
  some, ◌==◌, if◌then◌else◌, Bytes, codes, equal, index_byte, is_empty, length, take, drop,
}
use oohttp.Paths.Clean.{clean_path, last_is_slash}
use oohttp.Paths.{path_unescape, segment_end}
use oohttp.Pattern.{Segment, Pattern, slash}

-- The errors, without their texts.
pub data Problem : Type 0 where
  invalid_method : Problem
  missing_slash : Problem
  host_brace : Problem
  unclean : Problem
  bad_start : Problem
  bad_end : Problem
  dollar_not_end : Problem
  multi_not_end : Problem
  empty_wildcard : Problem
  bad_name : Problem
  duplicate_name : Problem

-- The segments, an error at an offset, or no end within the fuel.
pub data Segments : Type 0 where
  segments : List Segment → Segments
  bad : ℕ → Problem → Segments
  out_of_fuel : Segments

-- What `parsePattern` returns; an empty pattern is an error with no offset.
pub data Parsed : Type 0 where
  parsed : Pattern → Parsed
  failed : ℕ → Problem → Parsed
  empty_pattern : Parsed
  stuck : Parsed

-- What one round of the loop does: an error, a last segment, or a segment and the names seen.
pub data Step : Type 0 where
  wrong : Problem → Step
  stop : Segment → Step
  next : Segment → List Bytes → Step

abbrev pub literal : Bytes → Segment
literal s = record { s = s; wild = false; multi = false }

-- `segment{wild: true, multi: true}`
abbrev pub trailing : Segment
trailing = record { s = []; wild = true; multi = true }

abbrev pub wildcard : Bytes → Bool → Segment
wildcard s m = record { s = s; wild = true; multi = m }

-- `strings.Cut(s, " ")`
unfoldable pub cut_space : Bytes → Option (Bytes × Bytes)
unfolding index_byte
cut_space s = elim (index_byte s b' ') [ none ↦ none | some i ↦ some (take i s, drop (i + 1) s) ]

-- `strings.CutSuffix(name, "...")`
unfoldable pub cut_dots : Bytes → Bytes × Bool
unfolding equal
cut_dots name =
    let n = length name - 3 in
    if equal (drop n name) (codes "...") then (take n name, true) else (name, false)

unfoldable pub has : Bytes → List Bytes → Bool
unfolding equal
has name [] = false
has name (x ∷ xs) = equal x name || has name xs

abbrev pub ends_in_brace : Bytes → Bool
ends_in_brace [] = false
ends_in_brace (c ∷ s) = if is_empty s then c == b'}' else ends_in_brace s

-- The runes of a string, the classes of runes in the standard library, and the tokens of HTTP.
module _ (runes : Bytes → List ℕ) (is_letter is_digit is_token_rune : ℕ → Bool) where
  unfoldable pub is_name_tail : List ℕ → Bool
  is_name_tail [] = true
  is_name_tail (c ∷ cs) = (is_letter c || c == b'_' || is_digit c) && is_name_tail cs

  abbrev pub is_name : List ℕ → Bool
  is_name [] = true
  is_name (c ∷ cs) = (is_letter c || c == b'_') && is_name_tail cs

  -- `isValidWildcardName`
  unfoldable pub is_valid_wildcard_name : Bytes → Bool
  unfolding is_name_tail
  is_valid_wildcard_name s = not (is_empty s) && is_name (runes s)

  unfoldable pub are_tokens : List ℕ → Bool
  are_tokens [] = true
  are_tokens (c ∷ cs) = is_token_rune c && are_tokens cs

  -- `validMethod`
  unfoldable pub valid_method : Bytes → Bool
  unfolding are_tokens
  valid_method method = not (is_empty method) && are_tokens (runes method)

  -- A wildcard with a name, after `CutSuffix`.
  unfoldable pub named_step : Bytes → Bool → Bytes → List Bytes → Step
  unfolding is_valid_wildcard_name has
  named_step name multi rest seen =
      if multi && not (is_empty rest)
      then wrong multi_not_end
      else if is_empty name
      then wrong empty_wildcard
      else if not (is_valid_wildcard_name name)
      then wrong bad_name
      else if has name seen
      then wrong duplicate_name
      else next (wildcard name multi) (name ∷ seen)

  -- A segment with a brace at `i`.
  unfoldable pub brace_step : ℕ → Bytes → Bytes → List Bytes → Step
  unfolding named_step cut_dots equal
  brace_step i seg rest seen =
      let name = take (length seg - 2) (drop 1 seg) in
      if not (i == 0)
      then wrong bad_start
      else if not (ends_in_brace seg)
      then wrong bad_end
      else if equal name (codes "$")
      then (if is_empty rest then stop (literal slash) else wrong dollar_not_end)
      else named_step (cut_dots name).0 (cut_dots name).1 rest seen

  unfoldable pub parse_step : Bytes → Bytes → List Bytes → Step
  unfolding brace_step index_byte path_unescape
  parse_step seg rest seen = elim (index_byte seg b'{') [
    | none ↦ next (literal (path_unescape seg)) seen
    | some i ↦ brace_step i seg rest seen
  ]

  abbrev pub push : Segment → Segments → Segments
  push x (segments xs) = segments (x ∷ xs)
  push x (bad off p) = bad off p
  push x out_of_fuel = out_of_fuel

  -- The loop, of a pattern of `n` bytes; every round takes a byte of `rest` at least.
  unfoldable pub parse_segments : ℕ → ℕ → Bytes → List Bytes → Segments
  unfolding parse_step segment_end
  parse_segments zero n rest seen = out_of_fuel
  parse_segments (suc fuel) n [] seen = segments []
  parse_segments (suc fuel) n (_ ∷ []) seen = segments (trailing ∷ [])
  parse_segments (suc fuel) n (_ ∷ c ∷ s) seen =
      let r = c ∷ s in
      let i = segment_end r in
      elim (parse_step (take i r) (drop i r) seen) [
        | wrong p ↦ bad (n - length r) p
        | stop x ↦ segments (x ∷ [])
        | next x names ↦ push x (parse_segments fuel n (drop i r) names)
      ]

  abbrev pub with_segments : Bytes → Bytes → Segments → Parsed
  with_segments method host (segments segs) =
      parsed (record { method = method; host = host; segments = segs })
  with_segments method host (bad off p) = failed off p
  with_segments method host out_of_fuel = stuck

  abbrev pub first_part : Option (Bytes × Bytes) → Bytes
  first_part none = []
  first_part (some (m, r)) = m

  -- `parsePattern` once the method is split off, where `off` bytes come before `rest`.
  unfoldable pub parse_rest : ℕ → ℕ → Bytes → Bytes → Parsed
  unfolding parse_segments equal clean_path
  parse_rest n off method rest = elim (index_byte rest b'/') [
    | none ↦ failed off missing_slash
    | some i ↦ elim (index_byte (take i rest) b'{') [
      | some j ↦ failed (off + j) host_brace
      | none ↦
          let path = drop i rest in
          if not (is_empty method)
            && not (equal method (codes "CONNECT"))
            && not (equal path (clean_path path))
          then failed (off + i) unclean
          else with_segments method (take i rest) (parse_segments (length path + 1) n path [])
    ]
  ]

  -- `parsePattern`
  unfoldable pub parse_pattern : Bytes → Parsed
  unfolding parse_rest cut_space valid_method
  parse_pattern s = elim (cut_space s) [
    | none ↦ if is_empty s then empty_pattern else parse_rest (length s) 0 [] s
    | some (method, rest) ↦
        if not (is_empty method) && not (valid_method method)
        then failed 0 invalid_method
        else parse_rest (length s) (length method + 1) method rest
  ]

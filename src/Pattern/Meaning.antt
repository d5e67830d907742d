-- ===== src/Pattern/Meaning.antt =====
-- What the path part of a pattern means: which request paths it matches, segment by segment.
-- This is the documented meaning of the `segment` fields, with no tree and no comparison.
use oohttp.Base.{
  Bool, true, not, ◌&&◌, ◌||◌, List, [], ◌∷◌, ◌≡◌, Bytes, equal, is_empty, if◌then◌else◌,
}
use oohttp.Paths.{first_segment}
use oohttp.Pattern.{Segment, slash}

-- A literal matches an equal first segment, a single wildcard any that is not a trailing slash,
-- and a multi wildcard all that is left.
unfoldable pub path_matches : List Segment → Bytes → Bool
path_matches [] path = is_empty path
path_matches (x ∷ segs) path =
    let (seg, rest) = first_segment path in
    not (is_empty path)
    && (x.multi
        || ((if x.wild then not (equal seg slash) else equal x.s seg) && path_matches segs rest))

-- A multi wildcard stands last, as `parsePattern` makes sure.
abbrev pub IsMultiLast : List Segment → Type 0
IsMultiLast [] = Unit
IsMultiLast (x ∷ segs) = (x.multi ≡ true → segs ≡ []) × IsMultiLast segs

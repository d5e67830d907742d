-- ===== src/Pattern/Built.antt =====
-- Request paths that are built from segments, for patterns to match.
use oohttp.Base.{
  Bool, true, false, not, ◌&&◌, List, [], ◌∷◌, ◌++◌, ◌≡◌, refl, ◌∙◌, ap, inl, inr, arith, none,
  ◌==◌, Bytes, codes, equal, equal_refl, index_byte, is_empty, if◌then◌else◌, length, take-append,
  drop-append, Bool-cases, Option-cases, All,
}
use oohttp.Paths.{first_segment, path_unescape, segment_end}
use oohttp.Pattern.{Segment, slash}
use oohttp.Pattern.Compare.{path_matches-fits, path_matches-multi}
use oohttp.Pattern.Meaning.{path_matches, IsMultiLast}

-- Some text without a slash, and not empty, stands for the segment in a path.
abbrev pub IsWritable : Bytes → Type 0
IsWritable s =
    (raw : Bytes) × (is_empty raw ≡ false) × (index_byte raw b'/' ≡ none) × (path_unescape raw ≡ s)

-- A literal can stand in a path; `parsePattern` reads it from such a text.
abbrev pub HasText : Segment → Type 0
HasText x = x.wild ≡ false → IsWritable x.s

pub a-IsWritable : IsWritable (codes "a")
unfolding path_unescape index_byte
a-IsWritable = (codes "a", refl, refl, refl)

pub b-IsWritable : IsWritable (codes "b")
unfolding path_unescape index_byte
b-IsWritable = (codes "b", refl, refl, refl)

pub slash-IsWritable : IsWritable slash
unfolding path_unescape index_byte
slash-IsWritable = (codes "%2F", refl, refl, refl)

-- What stands behind a segment: nothing, or a slash.
abbrev pub IsRooted : Bytes → Type 0
IsRooted [] = Unit
IsRooted (c ∷ s) = c ≡ b'/'

-- The path with a segment before it.
abbrev pub under : {s : Bytes} → IsWritable s → Bytes → Bytes
under w path = b'/' ∷ (w.0 ++ path)

append-nil_right : (s : Bytes) → s ++ [] ≡ s
append-nil_right [] = refl
append-nil_right (c ∷ s) = ap (◌∷◌ c) (append-nil_right s)

segment_end-raw :
    (raw path : Bytes)
    → index_byte raw b'/' ≡ none
    → IsRooted path
    → segment_end (raw ++ path) ≡ length raw
unfolding segment_end index_byte
segment_end-raw [] [] h r = refl
segment_end-raw [] (c ∷ path) h r = rw r refl
segment_end-raw (d ∷ raw) path h r = elim (Bool-cases (d == b'/')) [
  | inl e ↦ ground arith
  | inr e ↦ elim (Option-cases (index_byte raw b'/')) [
    | inr (i, k) ↦ ground arith
    | inl k ↦ elim (Option-cases (index_byte (raw ++ path) b'/')) [
      | inl n ↦ ground (arith, segment_end-raw raw path k r)
      | inr (i, n) ↦ ground (arith, segment_end-raw raw path k r)
    ]
  ]
]

not_slash : (raw path : Bytes) → is_empty raw ≡ false → equal (b'/' ∷ (raw ++ path)) slash ≡ false
unfolding equal
not_slash [] path h = cc
not_slash (c ∷ raw) path h = refl

pub first_segment-under :
    {s : Bytes} (w : IsWritable s) (path : Bytes)
    → IsRooted path
    → first_segment (under w path) ≡ (s, path)
unfolding first_segment
first_segment-under (raw, some_text, no_slash, is) path r =
    rw
      (
        not_slash raw path some_text,
        segment_end-raw raw path no_slash r,
        take-append raw path,
        drop-append raw path,
        is,
      )
      refl

-- The segment has the text.
abbrev pub accepts : Segment → Bytes → Bool
accepts x s = if x.wild then not (equal s slash) else equal x.s s

pub path_matches-under :
    (x : Segment) (segs : List Segment) {s : Bytes} (w : IsWritable s) (path : Bytes)
    → x.multi ≡ false
    → IsRooted path
    → path_matches (x ∷ segs) (under w path) ≡ accepts x s && path_matches segs path
path_matches-under x segs w path h r =
    path_matches-fits x segs (under w path) h ∙ rw (first_segment-under w path r) refl

-- A text that a segment accepts.
own_text : (x : Segment) → HasText x → (s : Bytes) × IsWritable s × (accepts x s ≡ true)
unfolding equal
own_text x h = elim (Bool-cases x.wild) [
  | inl w ↦ (codes "a", a-IsWritable, rw w refl)
  | inr n ↦ (x.s, h n, rw n (equal_refl x.s))
]

-- A path that a pattern matches.
pub own_path :
    (segs : List Segment)
    → IsMultiLast segs
    → All HasText segs
    → (path : Bytes) × IsRooted path
      × (path_matches segs path ≡ true)
      × (is_empty path ≡ is_empty segs)
unfolding path_matches
own_path [] m t = ([], tt, refl, refl)
own_path (x ∷ segs) (l, m) (h, t) = elim (Bool-cases x.multi) [
  | inl y ↦ (codes "/", refl, path_matches-multi x segs (codes "/") y, refl)
  | inr n ↦
      let (s, w, a) = own_text x h in
      let (path, r, k, _) = own_path segs m t in
      (under w path, refl, path_matches-under x segs w path n r ∙ rw (a, k) refl, refl)
]

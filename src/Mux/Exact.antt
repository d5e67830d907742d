-- ===== src/Mux/Exact.antt =====
-- `exactMatch` of server.go: whether a multi wildcard, if there is one, matched no more than a slash.
use oohttp.Base.{
  ℕ, suc, ◌<◌, Bool, true, false, not, ◌&&◌, List, [], ◌∷◌, ◌≡◌, refl, inl, inr, arith, Option,
  none, some, if◌then◌else◌, Bytes, equal, Bool-cases, is_empty, drop, length, ◌==◌, index_byte,
}
use oohttp.Paths.{first_segment, segment_end}
use oohttp.Pattern.Meaning.{path_matches, IsMultiLast}
use oohttp.Pattern.{Segment, ends_in_multi, last_segment, slash}
use oohttp.Routing.{Leaf}

-- `strings.Count(path, "/")`
unfoldable pub count_slashes : Bytes → ℕ
count_slashes [] = 0
count_slashes (c ∷ s) = if c == b'/' then suc (count_slashes s) else count_slashes s

-- `path[len(path)-1] == '/'` of a path that is not empty.
unfoldable pub ends_in_slash : Bytes → Bool
ends_in_slash [] = false
ends_in_slash (c ∷ s) = if is_empty s then c == b'/' else ends_in_slash s

-- `exactMatch`; `none` is a nil node.
unfoldable pub exact_match : Option Leaf → Bytes → Bool
unfolding ends_in_multi count_slashes ends_in_slash
exact_match none path = false
exact_match (some l) path =
    if not (ends_in_multi l.pattern.segments)
    then true
    else if not (is_empty path) && not (ends_in_slash path)
    then false
    else length l.pattern.segments == count_slashes path

-- What a multi wildcard matches of a path that the segments match, with its first slash.
unfoldable pub multi_part : List Segment → Bytes → Bytes
multi_part [] path = []
multi_part (x ∷ segs) path = if x.multi then path else multi_part segs (first_segment path).1

-- A path that is empty or starts with a slash.
abbrev pub IsRooted : Bytes → Type 0
IsRooted [] = Unit
IsRooted (c ∷ _) = c ≡ b'/'

segment_end-cons :
    (c : ℕ) (s : Bytes) → segment_end (c ∷ s) ≡ (if c == b'/' then 0 else suc (segment_end s))
unfolding segment_end index_byte
segment_end-cons c s = ground arith

abbrev after : Bytes → Bytes
after p = drop (segment_end p) p

after-cons : (c : ℕ) (s : Bytes) → after (c ∷ s) ≡ (if c == b'/' then c ∷ s else after s)
after-cons c s = ground (arith, segment_end-cons c s)

after-IsRooted : (p : Bytes) → IsRooted (after p)
unfolding segment_end index_byte
after-IsRooted [] = tt
after-IsRooted (c ∷ s) = ground (arith, after-cons c s, after-IsRooted s)

count_slashes-after : (p : Bytes) → count_slashes (after p) ≡ count_slashes p
unfolding count_slashes segment_end index_byte
count_slashes-after [] = refl
count_slashes-after (c ∷ s) = ground (arith, after-cons c s, count_slashes-after s)

ends_in_slash-after :
    (p : Bytes) → is_empty (after p) ≡ false → ends_in_slash (after p) ≡ ends_in_slash p
unfolding ends_in_slash segment_end index_byte
ends_in_slash-after [] h = cc
ends_in_slash-after (c ∷ s) h = ground (arith, after-cons c s, ends_in_slash-after s)

first_segment-rest :
    (p : Bytes) → (first_segment (b'/' ∷ p)).1 ≡ (if is_empty p then [] else after p)
unfolding first_segment equal
first_segment-rest [] = refl
first_segment-rest (c ∷ s) = ground arith

rest-IsRooted : (p : Bytes) → IsRooted (first_segment (b'/' ∷ p)).1
rest-IsRooted [] = rw (first_segment-rest []) tt
rest-IsRooted (c ∷ s) = rw (first_segment-rest (c ∷ s)) (after-IsRooted (c ∷ s))

count_slashes-rest :
    (p : Bytes) → count_slashes (b'/' ∷ p) ≡ suc (count_slashes (first_segment (b'/' ∷ p)).1)
unfolding count_slashes
count_slashes-rest [] = rw (first_segment-rest [])
count_slashes-rest (c ∷ s) = rw (first_segment-rest (c ∷ s), count_slashes-after (c ∷ s))

ends_in_slash-rest :
    (p : Bytes)
    → is_empty (first_segment (b'/' ∷ p)).1 ≡ false
    → ends_in_slash (first_segment (b'/' ∷ p)).1 ≡ ends_in_slash (b'/' ∷ p)
unfolding ends_in_slash
ends_in_slash-rest [] h = cc (rw (first_segment-rest []) at h)
ends_in_slash-rest (c ∷ s) h =
    rw (first_segment-rest (c ∷ s))
      (ends_in_slash-after (c ∷ s) (rw (first_segment-rest (c ∷ s)) at h))

ends_in_slash-counted : (p : Bytes) → ends_in_slash p ≡ true → 0 < count_slashes p
unfolding ends_in_slash count_slashes
ends_in_slash-counted [] h = cc
ends_in_slash-counted (c ∷ s) h = ground (arith, ends_in_slash-counted s)

exact_alone :
    (p : Bytes)
    → ends_in_slash (b'/' ∷ p) && (1 == count_slashes (b'/' ∷ p)) ≡ equal (b'/' ∷ p) slash
unfolding equal ends_in_slash count_slashes
exact_alone [] = refl
exact_alone (c ∷ s) = ground (arith, ends_in_slash-counted (c ∷ s))

ends_in_multi-tail :
    (x : Segment) (segs : List Segment)
    → x.multi ≡ false
    → ends_in_multi (x ∷ segs) ≡ true
    → ends_in_multi segs ≡ true
unfolding ends_in_multi last_segment
ends_in_multi-tail x [] e m = cc
ends_in_multi-tail x (y ∷ segs) e m = m

path_matches-tail :
    (x : Segment) (segs : List Segment) (path : Bytes)
    → x.multi ≡ false
    → path_matches (x ∷ segs) path ≡ true
    → path_matches segs (first_segment path).1 ≡ true
unfolding path_matches
path_matches-tail x segs path e h = ground arith

matched_ne_nil :
    (segs : List Segment) (path : Bytes)
    → path_matches segs path ≡ true
    → ends_in_multi segs ≡ true
    → is_empty path ≡ false
unfolding path_matches ends_in_multi last_segment
matched_ne_nil [] path h m = cc
matched_ne_nil (x ∷ segs) path h m = ground arith

-- The last test of `exactMatch` where a multi wildcard stands last.
exact_multi :
    (segs : List Segment) (path : Bytes)
    → IsMultiLast segs
    → IsRooted path
    → path_matches segs path ≡ true
    → ends_in_multi segs ≡ true
    → ends_in_slash path && (length segs == count_slashes path) ≡ equal (multi_part segs path) slash
unfolding multi_part ends_in_multi last_segment
exact_multi [] path w r h m = cc
exact_multi (x ∷ segs) [] w r h m = cc (matched_ne_nil (x ∷ segs) [] h m)
exact_multi (x ∷ segs) (c ∷ p) (last, w) r h m = elim (Bool-cases x.multi) [
  | inl multi ↦ rw (multi, last multi, r) (exact_alone p)
  | inr other ↦
      let inner = path_matches-tail x segs (c ∷ p) other h in
      let tail = ends_in_multi-tail x segs other m in
      let more = matched_ne_nil segs (first_segment (c ∷ p)).1 inner tail in
      rw (r, other)
        (rw (← ends_in_slash-rest p (rw r at more), count_slashes-rest p)
          (ground (
            arith,
            exact_multi segs (first_segment (b'/' ∷ p)).1 w (rest-IsRooted p) (rw r at inner) tail,
          )))
]

-- For a path that starts with a slash and that a pattern matches, whose multi wildcards stand last,
-- `exactMatch` is true exactly if the pattern ends in no multi wildcard or that wildcard matched no
-- more than the trailing slash.
pub exact_match_lem :
    (l : Leaf) (path : Bytes)
    → IsMultiLast l.pattern.segments
    → IsRooted path
    → path_matches l.pattern.segments path ≡ true
    → exact_match (some l) path ≡ (
        if ends_in_multi l.pattern.segments
        then equal (multi_part l.pattern.segments path) slash
        else true)
unfolding exact_match
exact_match_lem l path w r h = elim (Bool-cases (ends_in_multi l.pattern.segments)) [
  | inr plain ↦ rw plain
  | inl multi ↦ ground (
    arith,
    exact_multi l.pattern.segments path w r h multi,
    matched_ne_nil l.pattern.segments path h multi,
  )
]

-- ===== src/Paths.antt =====
-- Request paths: `pathUnescape` (pattern.go) and `firstSegment` (routing_tree.go).
pub mod Clean
use mathlib.Core.Option
use oohttp.Base.{
  ℕ, ◌+◌, ◌-◌, ◌*◌, Bool, ◌&&◌, ◌||◌, [], ◌∷◌, Option, none, some, leb, ◌==◌, if◌then◌else◌, Bytes,
  codes, equal, index_byte, length, take, drop,
}

is_hex : ℕ → Bool
is_hex c = (leb b'0' c && leb c b'9') || (leb b'a' c && leb c b'f') || (leb b'A' c && leb c b'F')

unhex : ℕ → ℕ
unhex c =
    if leb b'0' c && leb c b'9'
    then c - b'0'
    else if leb b'a' c && leb c b'f'
    then c - b'a' + 10
    else c - b'A' + 10

-- `url.PathUnescape` of the standard library; `none` is its error.
unfoldable pub url_path_unescape : Bytes → Option Bytes
unfolding is_hex unhex
url_path_unescape [] = some []
url_path_unescape (c ∷ []) = if c == b'%' then none else some (c ∷ [])
url_path_unescape (c ∷ h ∷ []) =
    let rest = url_path_unescape (h ∷ []) in if c == b'%' then none else Option.map (◌∷◌ c) rest
url_path_unescape (c ∷ h ∷ l ∷ s) =
    let escaped = url_path_unescape s in
    let rest = url_path_unescape (h ∷ l ∷ s) in
    if c == b'%'
    then (if is_hex h && is_hex l then Option.map (◌∷◌ (unhex h * 16 + unhex l)) escaped else none)
    else Option.map (◌∷◌ c) rest

unfoldable pub path_unescape : Bytes → Bytes
unfolding url_path_unescape
path_unescape path = elim (url_path_unescape path) [ none ↦ path | some u ↦ u ]

-- `if i < 0 { i = len(path) }`
unfoldable pub segment_end : Bytes → ℕ
unfolding index_byte
segment_end path = elim (index_byte path b'/') [ none ↦ length path | some i ↦ i ]

unfoldable pub first_segment : Bytes → Bytes × Bytes
unfolding path_unescape segment_end equal
first_segment path =
    if equal path (codes "/")
    then (codes "/", [])
    else let path' = drop 1 path in
      let i = segment_end path' in (path_unescape (take i path'), drop i path')

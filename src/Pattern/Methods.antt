-- ===== src/Pattern/Methods.antt =====
-- Whole patterns: the method and the path of a request together.
use oohttp.Base.{
  Bool, true, ◌&&◌, ◌||◌, [], ◌≡◌, inl, inr, arith, Bytes, Bool-cases, equal, equal_iff,
}
use oohttp.Pattern.Compare.{Tells, Tells-combine, compare_paths-Tells}
use oohttp.Pattern.Meaning.{path_matches, IsMultiLast}
use oohttp.Pattern.{
  Pattern, Relationship, disjoint, is_disjoint, compare_methods, compare_paths,
  compare_paths_and_methods, get, head,
}

-- The documented meaning of a pattern's method: none matches any method, GET also HEAD.
unfoldable pub method_matches : Bytes → Bytes → Bool
method_matches m r = equal m [] || equal m r || (equal m get && equal r head)

-- A pattern matches a request's method and path.
abbrev pub serves : Pattern → Bytes → Bytes → Bool
serves p method path = method_matches p.method method && path_matches p.segments path

compare_methods-Tells :
    (a b r : Bytes) → Tells (compare_methods a b) (method_matches a r) (method_matches b r)
unfolding compare_methods method_matches
compare_methods-Tells a b r = ground (
  arith,
  equal_iff a b,
  equal_iff a [],
  equal_iff b [],
  equal_iff a r,
  equal_iff b r,
  equal_iff a get,
  equal_iff b get,
  equal_iff r head,
  equal_iff a head,
  equal_iff b head,
)

Tells-disjoint :
    (r : Relationship) (a1 a2 b1 b2 : Bool)
    → is_disjoint r ≡ true
    → Tells r a1 a2
    → Tells disjoint (a1 && b1) (a2 && b2)
Tells-disjoint r a1 a2 b1 b2 h t = ground arith

-- Whatever `comparePathsAndMethods` answers of two patterns is true of every request method and
-- path. The multi wildcards stand last.
pub compare_paths_and_methods-Tells :
    (p1 p2 : Pattern) (method path : Bytes)
    → IsMultiLast p1.segments
    → IsMultiLast p2.segments
    → Tells (compare_paths_and_methods p1 p2) (serves p1 method path) (serves p2 method path)
unfolding compare_paths_and_methods
compare_paths_and_methods-Tells p1 p2 method path w v =
    let mrel = compare_methods p1.method p2.method in
    let methods = compare_methods-Tells p1.method p2.method method in
    let paths = compare_paths-Tells p1.segments p2.segments path w v in
    elim (Bool-cases (is_disjoint mrel)) [
      | inl d ↦ rw d (Tells-disjoint mrel _ _ _ _ d methods)
      | inr n ↦
          rw n (Tells-combine mrel (compare_paths p1.segments p2.segments) _ _ _ _ methods paths)
    ]

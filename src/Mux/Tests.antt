-- ===== src/Mux/Tests.antt =====
-- A `ServeMux` with three patterns, "GET /a/{x}", "/a/" and "/a/{$}", and requests to it.
use oohttp.Base.{
  Bool, List, leb, ◌&&◌, some, if◌then◌else◌, ℕ, true, false, [], ◌∷◌, ◌≡◌, refl, Bytes, codes,
  equal,
}
use oohttp.Mux.Exact.{exact_match, exact_match_lem, multi_part}
use oohttp.Pattern.Meaning.{path_matches}
use oohttp.Mux.Dispatch.{MatchResult, match-MatchResult}
use oohttp.Mux.Invariant.{IsServing}
use oohttp.Mux.Register.{RegisterResult, register_pattern-RegisterResult, new_serve_mux-IsServing}
use oohttp.Mux.{ServeMux, new_serve_mux, Registered, registered, register_pattern}
use oohttp.Paths.{first_segment}
use oohttp.Index.{possibly_conflicting_patterns}
use oohttp.Pattern.{
  ends_in_multi, Segment, Pattern, slash, last_segment, conflicts_with, compare_paths_and_methods,
  compare_methods, combine_relationships, compare_paths, compare_loop, compare_segments,
}
use oohttp.Routing.Matching.{found, missed, match}
use oohttp.Routing.Search.{IsPlain, done, more}
use oohttp.Routing.Table.{IsRoutable}
use oohttp.Routing.{Leaf}

-- What a test by evaluation has to see through.
computing : ℕ
unfolding register_pattern possibly_conflicting_patterns conflicts_with compare_paths_and_methods
    compare_methods combine_relationships compare_paths compare_loop compare_segments match equal
computing = 0

abbrev lit : Bytes → Segment
lit s = record { s = s; wild = false; multi = false }

abbrev single : Bytes → Segment
single s = record { s = s; wild = true; multi = false }

abbrev rest : Bytes → Segment
rest s = record { s = s; wild = true; multi = true }

abbrev get_item : Pattern
get_item = record {
  method = codes "GET";
  host = [];
  segments = lit (codes "a") ∷ single (codes "x") ∷ [];
}

abbrev all_items : Pattern
all_items = record { method = []; host = []; segments = lit (codes "a") ∷ rest [] ∷ [] }

abbrev index_page : Pattern
index_page = record { method = []; host = []; segments = lit (codes "a") ∷ lit slash ∷ [] }

abbrev state : Registered → ServeMux
state (registered mux) = mux
state _ = new_serve_mux

abbrev mux1 : ServeMux
mux1 = state (register_pattern get_item 1 new_serve_mux)

abbrev mux2 : ServeMux
mux2 = state (register_pattern all_items 2 mux1)

abbrev mux3 : ServeMux
mux3 = state (register_pattern index_page 3 mux2)

abbrev leaf1 : Leaf
leaf1 = record { pattern = get_item; handler = 1 }

abbrev leaf2 : Leaf
leaf2 = record { pattern = all_items; handler = 2 }

abbrev leaf3 : Leaf
leaf3 = record { pattern = index_page; handler = 3 }

get_item-IsRoutable : IsRoutable get_item
unfolding last_segment equal
get_item-IsRoutable = record {
  last = single (codes "x");
  last_is = refl;
  multi_last = (λ e. cc, (λ e. cc, tt));
  plain = (λ e f. (refl, refl), (λ e f. cc, tt));
  dollar = λ e. cc;
}

all_items-IsRoutable : IsRoutable all_items
unfolding last_segment equal
all_items-IsRoutable = record {
  last = rest [];
  last_is = refl;
  multi_last = (λ e. cc, (λ e. refl, tt));
  plain = (λ e f. (refl, refl), (λ e f. cc, tt));
  dollar = λ e. cc;
}

index_page-IsRoutable : IsRoutable index_page
unfolding last_segment equal
index_page-IsRoutable = record {
  last = lit slash;
  last_is = refl;
  multi_last = (λ e. cc, (λ e. cc, tt));
  plain = (λ e f. (refl, refl), (λ e f. (refl, refl), tt));
  dollar = λ e. (refl, refl);
}

mux1-IsServing : IsServing mux1 (leaf1 ∷ [])
unfolding computing
mux1-IsServing =
    (register_pattern-RegisterResult new_serve_mux [] get_item 1 new_serve_mux-IsServing
      get_item-IsRoutable).0

mux2-IsServing : IsServing mux2 (leaf1 ∷ leaf2 ∷ [])
unfolding computing
mux2-IsServing =
    (register_pattern-RegisterResult mux1 (leaf1 ∷ []) all_items 2 mux1-IsServing
      all_items-IsRoutable).0

mux3-IsServing : IsServing mux3 (leaf1 ∷ leaf2 ∷ leaf3 ∷ [])
unfolding computing
mux3-IsServing =
    (register_pattern-RegisterResult mux2 (leaf1 ∷ leaf2 ∷ []) index_page 3 mux2-IsServing
      index_page-IsRoutable).0

register_pattern-RegisterResult_example :
    RegisterResult mux1 (leaf1 ∷ []) leaf2 (register_pattern all_items 2 mux1)
register_pattern-RegisterResult_example =
    register_pattern-RegisterResult mux1 (leaf1 ∷ []) all_items 2 mux1-IsServing
      all_items-IsRoutable

item_path : IsPlain (codes "/a/b")
unfolding first_segment equal
item_path = more refl refl refl (more refl refl refl done)

match-MatchResult_example :
    MatchResult
      (leaf1 ∷ leaf2 ∷ leaf3 ∷ [])
      (codes "h")
      (codes "HEAD")
      (codes "/a/b")
      (match mux3.tree (codes "h") (codes "HEAD") (codes "/a/b"))
match-MatchResult_example =
    match-MatchResult mux3 (leaf1 ∷ leaf2 ∷ leaf3 ∷ []) (codes "h") (codes "HEAD") (codes "/a/b")
      mux3-IsServing item_path

requests :
    (match mux3.tree (codes "h") (codes "HEAD") (codes "/a/b") ≡ found leaf1 (codes "b" ∷ []))
    × (match mux3.tree (codes "h") (codes "PUT") (codes "/a/b") ≡ found leaf2 [])
    × (match mux3.tree (codes "h") (codes "PUT") (codes "/b") ≡ missed)
unfolding computing
requests = (refl, refl, refl)

matched : path_matches all_items.segments (codes "/a/b") ≡ true
unfolding path_matches equal first_segment
matched = refl

exact_match_lem_example : exact_match (some leaf2) (codes "/a/b") ≡ (
    if ends_in_multi all_items.segments
    then equal (multi_part all_items.segments (codes "/a/b")) slash
    else true)
exact_match_lem_example =
    exact_match_lem leaf2 (codes "/a/b") (λ e. cc, (λ e. refl, tt)) refl matched

exact_runs :
    (exact_match (some leaf2) (codes "/a/b") ≡ false)
    × (exact_match (some leaf2) (codes "/a/") ≡ true)
    × (exact_match (some leaf1) (codes "/a/b") ≡ true)
unfolding exact_match last_segment
exact_runs = (refl, refl, refl)

abbrev runes : Bytes → List ℕ
runes s = s

abbrev is_letter : ℕ → Bool
is_letter c = leb b'a' c && leb c b'z'

abbrev no_rune : ℕ → Bool
no_rune c = false

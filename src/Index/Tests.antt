-- ===== src/Index/Tests.antt =====
-- The index of "GET /a/{x}" and "/a/{$}", searched with the pattern "POST /a/{$}".
use oohttp.Base.{true, false, List, [], ◌∷◌, ◌≡◌, ◌≢◌, refl, Option, none, some, codes, equal}
use oohttp.Index.Complete.{possibly_conflicting_patterns-ne-none}
use oohttp.Index.Slots.{IsIndexed, add_to_index-IsIndexed_self}
use oohttp.Index.{
  Index, empty_index, index_from, add_to_index, possibly_conflicting_patterns, choose, slot_at,
  append_at,
}
use oohttp.Pattern.Meaning.{IsMultiLast}
use oohttp.Pattern.{
  Segment, Pattern, slash, last_segment, compare_paths, compare_loop, compare_segments,
  combine_relationships, disjoint,
}

abbrev item : List Segment
item =
    record { s = codes "a"; wild = false; multi = false }
    ∷ record { s = codes "x"; wild = true; multi = false }
    ∷ []

abbrev dollar : List Segment
dollar =
    record { s = codes "a"; wild = false; multi = false }
    ∷ record { s = slash; wild = false; multi = false }
    ∷ []

abbrev get_item : Pattern
get_item = record { method = codes "GET"; host = []; segments = item }

abbrev page : Pattern
page = record { method = []; host = []; segments = dollar }

abbrev post_page : Pattern
post_page = record { method = codes "POST"; host = []; segments = dollar }

abbrev index : Index
index = add_to_index (add_to_index empty_index get_item) page

-- An error for every pattern with no method.
abbrev no_method : Pattern → Option Pattern
no_method p = elim p.method [ [] ↦ some p | _ ↦ none ]

page-IsIndexed : IsIndexed index page
page-IsIndexed = add_to_index-IsIndexed_self (add_to_index empty_index get_item) page

dollar-IsMultiLast : IsMultiLast dollar
dollar-IsMultiLast = (λ e. cc, (λ e. cc, tt))

last_is : last_segment dollar ≡ some (record { s = slash; wild = false; multi = false })
unfolding last_segment
last_is = refl

not_disjoint : compare_paths dollar dollar ≢ disjoint
unfolding compare_paths compare_loop compare_segments combine_relationships equal
not_disjoint e = cc

possibly_conflicting_patterns-ne-none_example :
    possibly_conflicting_patterns no_method index post_page ≢ none
possibly_conflicting_patterns-ne-none_example =
    possibly_conflicting_patterns-ne-none no_method index post_page page
      (record { s = slash; wild = false; multi = false }) last_is (λ e. (refl, refl)) (λ e. cc)
      dollar-IsMultiLast page-IsIndexed not_disjoint (λ e. cc)

finds_page : possibly_conflicting_patterns no_method index post_page ≡ some page
unfolding possibly_conflicting_patterns add_to_index index_from append_at slot_at last_segment equal
    choose
finds_page = refl

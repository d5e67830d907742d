-- ===== src/Pattern/Tests.antt =====
-- The comparisons at the patterns "/a/{x}" and "/a/", and at two methods.
use oohttp.Base.{true, false, List, [], ◌∷◌, ◌≡◌, ◌↔◌, refl, codes, equal}
use oohttp.Pattern.Built.{a-IsWritable}
use oohttp.Pattern.Meaning.{IsMultiLast}
use oohttp.Pattern.Means.{Means, Shared, compare_paths_and_methods-Means}
use oohttp.Pattern.Conflict.{NoneWins, conflicts_with_iff}
use oohttp.Pattern.Only.{IsProper}
use oohttp.Pattern.Relation.{compare_paths_and_methods-inverse, conflicts_with_comm}
use oohttp.Pattern.{
  Segment, Pattern, inverse_relationship, compare_paths, compare_paths_and_methods, conflicts_with,
  compare_methods, compare_loop, compare_segments, combine_relationships, overlaps,
}

abbrev item : List Segment
item =
    record { s = codes "a"; wild = false; multi = false }
    ∷ record { s = codes "x"; wild = true; multi = false }
    ∷ []

abbrev below : List Segment
below =
    record { s = codes "a"; wild = false; multi = false }
    ∷ record { s = []; wild = true; multi = true }
    ∷ []

abbrev get_below : Pattern
get_below = record { method = codes "GET"; host = []; segments = below }

abbrev any_item : Pattern
any_item = record { method = []; host = []; segments = item }

item-IsMultiLast : IsMultiLast item
item-IsMultiLast = (λ e. cc, (λ e. cc, tt))

below-IsMultiLast : IsMultiLast below
below-IsMultiLast = (λ e. cc, (λ e. refl, tt))

item-IsProper : IsProper item
item-IsProper = record { multi_last = item-IsMultiLast; texts = (λ e. a-IsWritable, (λ e. cc, tt)) }

below-IsProper : IsProper below
below-IsProper = record {
  multi_last = below-IsMultiLast;
  texts = (λ e. a-IsWritable, (λ e. cc, tt));
}

-- "GET /a/{...}" and "/a/{x}" overlap.
related : compare_paths_and_methods get_below any_item ≡ overlaps
unfolding compare_paths_and_methods compare_methods compare_paths compare_loop compare_segments
    combine_relationships equal
related = refl

compare_paths_and_methods-Means_example :
    Means (compare_paths_and_methods get_below any_item) get_below any_item
compare_paths_and_methods-Means_example =
    compare_paths_and_methods-Means get_below any_item below-IsProper item-IsProper

conflicts_with_iff_example :
    (conflicts_with get_below any_item ≡ true)
    ↔ ((get_below.host ≡ any_item.host) × Shared get_below any_item × NoneWins get_below any_item)
conflicts_with_iff_example = conflicts_with_iff get_below any_item below-IsProper item-IsProper

compare_paths_and_methods-inverse_example :
    compare_paths_and_methods any_item get_below
    ≡ inverse_relationship (compare_paths_and_methods get_below any_item)
compare_paths_and_methods-inverse_example = compare_paths_and_methods-inverse get_below any_item

conflicts_with_comm_example : conflicts_with get_below any_item ≡ conflicts_with any_item get_below
conflicts_with_comm_example = conflicts_with_comm get_below any_item

-- ===== src/Files/Tests.antt =====
-- Range headers, entity tags and preconditions at concrete requests.
use oohttp.Base.{
  arith, true, false, List, [], ◌∷◌, ◌≡◌, refl, inl, inr, Option, All, Bytes, codes, equal,
}
use oohttp.Base.Int.{pos, int64, ◌+ℤ◌}
use oohttp.Files.Conditions.{
  Time, Conditional, check_preconditions, not_modified, precondition_failed, proceed,
}
use oohttp.Files.Content.{full, partial, multipart, unsatisfiable, serve_content}
use oohttp.Files.Within.{IsWithin, serve_content-IsWithin}
use oohttp.Files.Etag.{any_tag, has_tag, etag_weak_match}
use oohttp.Files.Precedence.{with_dates, check_preconditions-with_dates}
use oohttp.Files.Tags.{Tag, IsTag, tags_text, any, has_tag-tags_text}

serve_content-IsWithin_example : IsWithin 10 (serve_content (codes "bytes=0-3,-2") 10)
serve_content-IsWithin_example = serve_content-IsWithin (codes "bytes=0-3,-2") 10 (omega arith)

-- The sum of two ranges of 2^62 bytes wraps around, and both are sent.
sent_twice :
    serve_content (codes "bytes=0-,0-") 0x4000_0000_0000_0000
    ≡ multipart (
        record { start = 0; length = 0x4000_0000_0000_0000 }
        ∷ record { start = 0; length = 0x4000_0000_0000_0000 }
        ∷ [])
unfolding serve_content equal int64 ◌+ℤ◌
sent_twice = refl

served :
    (serve_content (codes "bytes=2-30") 10 ≡ partial (record { start = 2; length = 8 }))
    × (serve_content (codes "bytes=0-3, -2") 10
        ≡ multipart (record { start = 0; length = 4 } ∷ record { start = 8; length = 2 } ∷ []))
    × (serve_content (codes "bytes=10-") 10 ≡ unsatisfiable true)
    × (serve_content (codes "bytes=4-3") 10 ≡ unsatisfiable false)
    × (serve_content (codes "bytes=0-8,1-9") 10 ≡ full)
    × (serve_content (codes "bytes=0-") 0 ≡ full)
unfolding serve_content equal int64 ◌+ℤ◌
served = (refl, refl, refl, refl, refl, refl)

abbrev two_tags : List Tag
two_tags = (false, codes "a") ∷ (true, codes "b") ∷ []

two_tags-AreTags : All IsTag two_tags
two_tags-AreTags = ((refl, tt), ((refl, tt), tt))

has_tag-tags_text_example :
    has_tag (λ t. etag_weak_match t (codes "\"b\"")) (tags_text two_tags)
    ≡ any (λ t. etag_weak_match t (codes "\"b\"")) two_tags
has_tag-tags_text_example =
    has_tag-tags_text (λ t. etag_weak_match t (codes "\"b\"")) two_tags two_tags-AreTags

abbrev get_b : Conditional
get_b = record {
  method = codes "GET";
  if_match = [];
  if_unmodified_since = [];
  if_none_match = codes "\"a\", W/\"b\"";
  if_modified_since = codes "never";
  if_range = [];
  range = [];
  etag = codes "\"b\"";
}

abbrev no_time : Bytes → Option Time
no_time s = Option.none

abbrev noon : Time
noon = record { sec = pos 63000000000; nsec = 5 }

check_preconditions-with_dates_example :
    check_preconditions no_time (with_dates [] (codes "today") get_b) noon
    ≡ check_preconditions no_time get_b noon
check_preconditions-with_dates_example =
    check_preconditions-with_dates no_time [] (codes "today") get_b noon (inr refl) (inl refl)

answers :
    (check_preconditions no_time get_b noon ≡ not_modified)
    × (check_preconditions no_time (record get_b { method = codes "PUT" }) noon
        ≡ precondition_failed)
    × (check_preconditions no_time
          (record get_b { etag = codes "\"c\""; range = codes "bytes=0-" })
          noon
        ≡ proceed (codes "bytes=0-"))
unfolding check_preconditions any_tag etag_weak_match equal
answers = (refl, refl, refl)

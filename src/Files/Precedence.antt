-- ===== src/Files/Precedence.antt =====
-- Which preconditions count, as RFC 7232 orders them.
use oohttp.Base.{◌≡◌, refl, false, Option, Bytes, is_empty, arith, inl, inr, ◌⊎◌}
use oohttp.Files.Conditions.{
  Time, Conditional, CondResult, cond_none, cond_true, cond_false, check_if_match,
  check_if_none_match, check_preconditions, unless_failed, after_match, after_none_match,
  keep_range, check_if_modified_since, check_if_unmodified_since,
}

-- The request with other dates.
abbrev pub with_dates : Bytes → Bytes → Conditional → Conditional
with_dates u m r = record r { if_unmodified_since = u; if_modified_since = m }

module _ (parse_time : Bytes → Option Time) where
  after_match-with_dates :
      (u m : Bytes) (r : Conditional) (modtime : Time)
      → ◌⊎◌ (is_empty r.if_match ≡ false) (u ≡ r.if_unmodified_since)
      → after_match parse_time (with_dates u m r) modtime ≡ after_match parse_time r modtime
  unfolding check_if_match check_if_unmodified_since
  after_match-with_dates u m r modtime (inr e) = rw e
  after_match-with_dates u m r modtime (inl there) = ground arith

  none_match-with_dates :
      (u m : Bytes) (r : Conditional) (modtime : Time) (c : CondResult)
      → check_if_none_match r ≡ c
      → ◌⊎◌ (is_empty r.if_none_match ≡ false) (m ≡ r.if_modified_since)
      → after_none_match parse_time (with_dates u m r) modtime c
        ≡ after_none_match parse_time r modtime c
  unfolding check_if_none_match keep_range check_if_modified_since
  none_match-with_dates u m r modtime cond_false e h = refl
  none_match-with_dates u m r modtime cond_true e h = refl
  none_match-with_dates u m r modtime cond_none e (inr same) = rw same
  none_match-with_dates u m r modtime cond_none e (inl there) = ground arith

  -- `If-Unmodified-Since` counts only without `If-Match`, and `If-Modified-Since` only without
  -- `If-None-Match`: another date changes nothing where the entity tags are given.
  pub check_preconditions-with_dates :
      (u m : Bytes) (r : Conditional) (modtime : Time)
      → ◌⊎◌ (is_empty r.if_match ≡ false) (u ≡ r.if_unmodified_since)
      → ◌⊎◌ (is_empty r.if_none_match ≡ false) (m ≡ r.if_modified_since)
      → check_preconditions parse_time (with_dates u m r) modtime
        ≡ check_preconditions parse_time r modtime
  unfolding check_preconditions
  check_preconditions-with_dates u m r modtime h k i =
      unless_failed parse_time (after_match-with_dates u m r modtime h i)
        (none_match-with_dates u m r modtime (check_if_none_match r) refl k i)

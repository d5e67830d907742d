-- ===== src/Files/Conditions.antt =====
-- The preconditions of fs.go, in the order of `checkPreconditions`.
use oohttp.Base.{
  ℕ, Bool, not, ◌&&◌, ◌||◌, [], Option, none, some, leb, ◌==◌, if◌then◌else◌, Bytes, codes, equal,
  is_empty,
}
use oohttp.Base.Int.{ℤ, pos, ltb_ℤ, equal_ℤ}
use oohttp.Files.Etag.{has_tag, scan_etag, etag_strong_match, etag_weak_match}

-- A `time.Time`: seconds since the year 1, and nanoseconds within the second.
pub record Time : Type 0 where
  pub sec : ℤ
  pub nsec : ℕ

-- The Unix epoch, in seconds since the year 1.
abbrev pub unix_epoch : ℤ
unix_epoch = pos 62135596800

abbrev pub is_zero : Time → Bool
is_zero t = equal_ℤ t.sec (pos 0) && t.nsec == 0

-- `isZeroTime`
unfoldable pub is_zero_time : Time → Bool
is_zero_time t = is_zero t || (equal_ℤ t.sec unix_epoch && t.nsec == 0)

-- `t.Truncate(time.Second)`
abbrev pub truncate : Time → Time
truncate t = record t { nsec = 0 }

-- `t.Compare(u) <= 0`
unfoldable pub not_after : Time → Time → Bool
not_after t u = ltb_ℤ t.sec u.sec || (equal_ℤ t.sec u.sec && leb t.nsec u.nsec)

-- `condResult`
pub data CondResult : Type 0 where
  cond_none : CondResult
  cond_true : CondResult
  cond_false : CondResult

-- What the checks read: the method, the header fields of the request, which are empty if they are
-- absent, and the field `Etag` of the response.
pub record Conditional : Type 0 where
  pub method : Bytes
  pub if_match : Bytes
  pub if_unmodified_since : Bytes
  pub if_none_match : Bytes
  pub if_modified_since : Bytes
  pub if_range : Bytes
  pub range : Bytes
  pub etag : Bytes

abbrev pub is_get_or_head : Bytes → Bool
is_get_or_head m = equal m (codes "GET") || equal m (codes "HEAD")

-- `checkIfMatch`
unfoldable pub check_if_match : Conditional → CondResult
check_if_match r =
    if is_empty r.if_match
    then cond_none
    else if has_tag (λ t. etag_strong_match t r.etag) r.if_match
    then cond_true
    else cond_false

-- `checkIfNoneMatch`
unfoldable pub check_if_none_match : Conditional → CondResult
check_if_none_match r =
    if is_empty r.if_none_match
    then cond_none
    else if has_tag (λ t. etag_weak_match t r.etag) r.if_none_match
    then cond_false
    else cond_true

-- The comparison of a date of the request, where `early` is the answer if the content is not newer.
abbrev pub compare_date : CondResult → CondResult → Time → Option Time → CondResult
compare_date early late modtime none = cond_none
compare_date early late modtime (some t) = if not_after (truncate modtime) t then early else late

abbrev pub range_date : Time → Option Time → CondResult
range_date modtime none = cond_false
range_date modtime (some t) = if equal_ℤ t.sec modtime.sec then cond_true else cond_false

abbrev pub range_etag : Conditional → Option (Bytes × Bytes) → CondResult → CondResult
range_etag r none other = other
range_etag r (some (etag, _)) other =
    if etag_strong_match etag r.etag then cond_true else cond_false

-- What `checkPreconditions` does: it answers 304 or 412, or goes on with a header `Range`.
pub data CondOutcome : Type 0 where
  not_modified : CondOutcome
  precondition_failed : CondOutcome
  proceed : Bytes → CondOutcome

-- `ParseTime` of header.go, by its formats.
module _ (parse_time : Bytes → Option Time) where
  -- `checkIfUnmodifiedSince`
  unfoldable pub check_if_unmodified_since : Conditional → Time → CondResult
  unfolding is_zero_time not_after
  check_if_unmodified_since r modtime =
      if is_empty r.if_unmodified_since || is_zero_time modtime
      then cond_none
      else compare_date cond_true cond_false modtime (parse_time r.if_unmodified_since)

  -- `checkIfModifiedSince`
  unfoldable pub check_if_modified_since : Conditional → Time → CondResult
  unfolding is_zero_time not_after equal
  check_if_modified_since r modtime =
      if not (is_get_or_head r.method)
      then cond_none
      else if is_empty r.if_modified_since || is_zero_time modtime
      then cond_none
      else compare_date cond_false cond_true modtime (parse_time r.if_modified_since)

  -- `checkIfRange`
  unfoldable pub check_if_range : Conditional → Time → CondResult
  unfolding scan_etag etag_strong_match equal
  check_if_range r modtime =
      if not (is_get_or_head r.method)
      then cond_none
      else if is_empty r.if_range
      then cond_none
      else range_etag r (scan_etag r.if_range)
          (if is_zero modtime then cond_false else range_date modtime (parse_time r.if_range))

  -- The range header, once no precondition stopped the request.
  unfoldable pub keep_range : Conditional → Time → Bytes
  unfolding check_if_range
  keep_range r modtime =
      if is_empty r.range
      then []
      else elim (check_if_range r modtime) [ cond_false ↦ [] | _ ↦ r.range ]

  abbrev pub after_match : Conditional → Time → CondResult
  after_match r modtime = elim (check_if_match r) [
    | cond_none ↦ check_if_unmodified_since r modtime
    | c ↦ c
  ]

  abbrev pub after_none_match : Conditional → Time → CondResult → CondOutcome
  after_none_match r modtime cond_false =
      if is_get_or_head r.method then not_modified else precondition_failed
  after_none_match r modtime cond_true = proceed (keep_range r modtime)
  after_none_match r modtime cond_none = elim (check_if_modified_since r modtime) [
    | cond_false ↦ not_modified
    | _ ↦ proceed (keep_range r modtime)
  ]

  abbrev pub unless_failed : CondResult → CondOutcome → CondOutcome
  unless_failed cond_false o = precondition_failed
  unless_failed cond_true o = o
  unless_failed cond_none o = o

  -- `checkPreconditions`
  unfoldable pub check_preconditions : Conditional → Time → CondOutcome
  unfolding check_if_match check_if_none_match check_if_unmodified_since check_if_modified_since
      keep_range
  check_preconditions r modtime =
      unless_failed (after_match r modtime) (after_none_match r modtime (check_if_none_match r))

-- ===== src/Kernel/Intervals.antt =====
-- packages/hris-kernel/src/orgmetra_hris_kernel/intervals.py, over dates and datetimes.
--
-- A date is its proleptic ordinal. A datetime has its zone, and its ticks are microseconds: of the
-- UTC instant where the zone gives an offset, of the wall clock where it does not.
pub mod Laws
mod Tests
use orgmetra.Base.{
  ℕ, Bool, true, false, not, ◌&&◌, ◌||◌, Option, none, some, ltb, leb, if◌then◌else◌, Result, ok,
  err, ◌>>=◌, ◌>>◌, guard,
}
use orgmetra.Kernel.Errors.{Error, interval_error, type_error}

-- `naive`: tzinfo is None. `unresolved`: there is a tzinfo, and utcoffset() is None.
pub data Zone : Type 0 where
  naive unresolved offset : Zone

pub record Datetime : Type 0 where
  pub ticks : ℕ
  pub zone : Zone

-- `value.tzinfo is None`
abbrev pub is_naive : Datetime → Bool
is_naive t = elim (t.zone) [ naive ↦ true | unresolved ↦ false | offset ↦ false ]

-- `value.utcoffset() is not None`
abbrev pub has_offset : Datetime → Bool
has_offset t = elim (t.zone) [ naive ↦ false | unresolved ↦ false | offset ↦ true ]

-- Python orders two datetimes with an offset by instant and two without by wall clock, and raises
-- a TypeError on one of each.
abbrev pub comparable : Datetime → Datetime → Bool
comparable a b = has_offset a && has_offset b || not (has_offset a) && not (has_offset b)

unfoldable pub lt_datetime : Datetime → Datetime → Result Error Bool
lt_datetime a b = if comparable a b then ok (ltb a.ticks b.ticks) else err type_error

unfoldable pub le_datetime : Datetime → Datetime → Result Error Bool
le_datetime a b = if comparable a b then ok (leb a.ticks b.ticks) else err type_error

abbrev pub unordered : Error
unordered = interval_error "Interval end must be strictly later than start."

abbrev pub not_aware : Error
not_aware = interval_error "Recorded timestamps must be timezone-aware."

-- `_require_ordered`, over the order `end <= start` of the two kinds of bound.
unfoldable pub require_ordered :
    {T : Type 0} → (T → T → Result Error Bool) → T → Option T → Result Error (Unit {0})
require_ordered le start none = ok tt
require_ordered le start (some end) = do reversed ← le end start; guard (not reversed) unordered

pub record DateInterval : Type 0 where
  pub start : ℕ
  pub end : Option ℕ

-- `DateInterval(start, end)` with its `__post_init__`.
unfoldable pub date_interval : ℕ → Option ℕ → Result Error DateInterval
unfolding require_ordered
date_interval start end = do
  require_ordered (λ a b. ok (leb a b)) start end
  ok (record { start = start; end = end })

abbrev pub before_end : ℕ → Option ℕ → Bool
before_end day none = true
before_end day (some end) = ltb day end

-- `self.end is not None and self.end <= start`
abbrev pub ends_by : Option ℕ → ℕ → Bool
ends_by none start = false
ends_by (some end) start = leb end start

-- `DateInterval.contains`
unfoldable pub contains : DateInterval → ℕ → Bool
contains self day = if ltb day self.start then false else before_end day self.end

-- `DateInterval.overlaps`
unfoldable pub overlaps : DateInterval → DateInterval → Bool
overlaps self other =
    if ends_by self.end other.start
    then false
    else if ends_by other.end self.start
    then false
    else true

pub record RecordedInterval : Type 0 where
  pub start : Datetime
  pub end : Option Datetime

abbrev pub end_is_naive : Option Datetime → Bool
end_is_naive none = false
end_is_naive (some end) = is_naive end

-- `RecordedInterval(start, end)` with its `__post_init__`.
unfoldable pub recorded_interval : Datetime → Option Datetime → Result Error RecordedInterval
unfolding require_ordered le_datetime
recorded_interval start end = do
  guard (not (is_naive start || end_is_naive end)) not_aware
  require_ordered le_datetime start end
  ok (record { start = start; end = end })

abbrev pub instant_before_end : Datetime → Option Datetime → Result Error Bool
instant_before_end instant none = ok true
instant_before_end instant (some end) = lt_datetime instant end

-- `RecordedInterval.contains`
unfoldable pub recorded_contains : RecordedInterval → Datetime → Result Error Bool
unfolding lt_datetime
recorded_contains self instant = do
  guard (not (is_naive instant)) not_aware
  early ← lt_datetime instant self.start
  if early then ok false else instant_before_end instant self.end

abbrev pub recorded_ends_by : Option Datetime → Datetime → Result Error Bool
recorded_ends_by none start = ok false
recorded_ends_by (some end) start = le_datetime end start

-- `RecordedInterval.overlaps`
unfoldable pub recorded_overlaps : RecordedInterval → RecordedInterval → Result Error Bool
unfolding le_datetime
recorded_overlaps self other = do
  over ← recorded_ends_by self.end other.start
  if over then ok false else (do begun ← recorded_ends_by other.end self.start; ok (not begun))

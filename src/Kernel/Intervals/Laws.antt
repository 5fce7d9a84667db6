-- ===== src/Kernel/Intervals/Laws.antt =====
-- The two kinds of interval as sets of days and of instants.
use orgmetra.Base.{
  ℕ, ◌≤◌, ◌<◌, ◌≡◌, ◌↔◌, ◌⊎◌, inl, inr, Bool, true, Option, none, some, arith, leb, if◌then◌else◌,
  ltb, ◌&&◌, ok, err,
}
use orgmetra.Kernel.Errors.{type_error}
use orgmetra.Kernel.Intervals.{
  Datetime, naive, unresolved, offset, DateInterval, RecordedInterval, date_interval, contains,
  overlaps, recorded_interval, recorded_contains, recorded_overlaps, is_naive, end_is_naive,
  not_aware, unordered,
}

-- The day lies before an exclusive end, if there is one.
abbrev pub EndsAfter : ℕ → Option ℕ → Type 0
EndsAfter day none = Unit
EndsAfter day (some end) = day < end

-- The half-open period as a set of days.
abbrev pub Covers : DateInterval → ℕ → Type 0
Covers d day = (d.start ≤ day) × EndsAfter day d.end

-- The period has at least one day.
abbrev pub IsOrdered : DateInterval → Type 0
IsOrdered d = EndsAfter d.start d.end

pub contains_iff : (d : DateInterval) (day : ℕ) → (contains d day ≡ true) ↔ Covers d day
unfolding contains
contains_iff d day = ground arith

-- The constructor accepts exactly the periods with at least one day, and keeps their bounds.
pub date_interval_iff :
    (start : ℕ) (end : Option ℕ) (d : DateInterval)
    → (date_interval start end ≡ ok d) ↔ (EndsAfter start end × (d.start ≡ start) × (d.end ≡ end))
unfolding date_interval
date_interval_iff start none d = (λ h. (tt, ground arith, ground arith), λ h. ground arith)
date_interval_iff start (some end) d = ground arith

date_interval_rejects :
    (start end : ℕ) → end ≤ start → date_interval start (some end) ≡ err unordered
unfolding date_interval
date_interval_rejects start end h = ground arith

pub overlaps_of_common :
    (a b : DateInterval) (day : ℕ) → Covers a day → Covers b day → overlaps a b ≡ true
unfolding overlaps
overlaps_of_common a b day ha hb = ground arith

-- A day that two overlapping periods share: the later of the two starts.
abbrev pub later_start : DateInterval → DateInterval → ℕ
later_start a b = if leb a.start b.start then b.start else a.start

pub overlaps-common :
    (a b : DateInterval)
    → IsOrdered a
    → IsOrdered b
    → overlaps a b ≡ true
    → Covers a (later_start a b) × Covers b (later_start a b)
unfolding overlaps
overlaps-common a b ha hb h = ground arith

-- Two periods that have a day each overlap exactly when some day lies in both.
pub overlaps_iff :
    (a b : DateInterval)
    → IsOrdered a
    → IsOrdered b
    → (overlaps a b ≡ true) ↔ ((day : ℕ) × Covers a day × Covers b day)
overlaps_iff a b ha hb = (
  λ h. let (ca, cb) = overlaps-common a b ha hb h in (later_start a b, ca, cb),
  λ h. overlaps_of_common a b h.0 h.1 h.2,
)

pub overlaps_comm : (a b : DateInterval) → overlaps a b ≡ overlaps b a
unfolding overlaps
overlaps_comm a b = ground arith

-- The instant has a UTC offset, and so have the bounds of a recorded interval.
abbrev pub IsAware : Datetime → Type 0
IsAware t = t.zone ≡ offset

abbrev pub EndIsAware : Option Datetime → Type 0
EndIsAware none = Unit
EndIsAware (some end) = IsAware end

pub record IsAwareInterval (r : RecordedInterval) : Type 0 where
  pub at_start : IsAware r.start
  pub at_end : EndIsAware r.end

abbrev pub EndsAfterInstant : Datetime → Option Datetime → Type 0
EndsAfterInstant t none = Unit
EndsAfterInstant t (some end) = t.ticks < end.ticks

-- The half-open recorded period as a set of instants.
abbrev pub Knows : RecordedInterval → Datetime → Type 0
Knows r t = (r.start.ticks ≤ t.ticks) × EndsAfterInstant t r.end

-- `Knows` as a test.
abbrev pub knows_at_end : Datetime → Option Datetime → Bool
knows_at_end t none = true
knows_at_end t (some end) = ltb t.ticks end.ticks

unfoldable pub knows : RecordedInterval → Datetime → Bool
knows r t = leb r.start.ticks t.ticks && knows_at_end t r.end

pub knows_iff : (r : RecordedInterval) (t : Datetime) → (knows r t ≡ true) ↔ Knows r t
unfolding knows
knows_iff r t = ground arith

-- With offsets everywhere the query returns, and is the test of membership.
pub recorded_contains-eq-knows :
    (r : RecordedInterval) (t : Datetime)
    → IsAwareInterval r
    → IsAware t
    → recorded_contains r t ≡ ok (knows r t)
unfolding recorded_contains knows
recorded_contains-eq-knows r t hr ht = ground arith

-- An aware instant lies in an aware recorded interval exactly when it is not before the start and
-- before the end, if there is one.
pub recorded_contains_iff :
    (r : RecordedInterval) (t : Datetime)
    → IsAwareInterval r
    → IsAware t
    → (recorded_contains r t ≡ ok true) ↔ Knows r t
unfolding recorded_contains
recorded_contains_iff r t hr ht = ground arith

pub recorded_contains-naive :
    (r : RecordedInterval) (t : Datetime) → t.zone ≡ naive → recorded_contains r t ≡ err not_aware
unfolding recorded_contains
recorded_contains-naive r t h = ground arith

-- An order between an instant with an offset and one without is a TypeError.
pub recorded_contains-unresolved :
    (r : RecordedInterval) (t : Datetime)
    → IsAware r.start
    → t.zone ≡ unresolved
    → recorded_contains r t ≡ err type_error
unfolding recorded_contains
recorded_contains-unresolved r t hr h = ground arith

-- The constructor rejects a naive bound before it looks at the order.
pub recorded_interval-naive :
    (start : Datetime) (end : Option Datetime)
    → (is_naive start ≡ true) ⊎ (end_is_naive end ≡ true)
    → recorded_interval start end ≡ err not_aware
unfolding recorded_interval
recorded_interval-naive start end (inl h) = ground arith
recorded_interval-naive start end (inr h) = ground arith

pub recorded_interval_iff :
    (start : Datetime) (end : Option Datetime) (r : RecordedInterval)
    → IsAware start
    → EndIsAware end
    → (recorded_interval start end ≡ ok r)
      ↔ (EndsAfterInstant start end × (r.start ≡ start) × (r.end ≡ end))
unfolding recorded_interval
recorded_interval_iff start none r hs he =
    (λ h. (tt, ground arith, ground arith), λ h. ground arith)
recorded_interval_iff start (some end) r hs he = ground arith

abbrev pub IsOrderedInterval : RecordedInterval → Type 0
IsOrderedInterval r = EndsAfterInstant r.start r.end

abbrev pub later_instant : RecordedInterval → RecordedInterval → Datetime
later_instant a b = if leb a.start.ticks b.start.ticks then b.start else a.start

-- Two aware recorded intervals that hold an instant each overlap exactly when some instant lies in
-- both.
pub recorded_overlaps_iff :
    (a b : RecordedInterval)
    → IsAwareInterval a
    → IsAwareInterval b
    → IsOrderedInterval a
    → IsOrderedInterval b
    → (recorded_overlaps a b ≡ ok true) ↔ ((t : Datetime) × Knows a t × Knows b t)
unfolding recorded_overlaps
recorded_overlaps_iff a b ha hb oa ob =
    (λ h. (later_instant a b, ground arith, ground arith), λ (t, ka, kb). ground arith)

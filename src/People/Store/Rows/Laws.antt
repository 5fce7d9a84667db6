-- ===== src/People/Store/Rows/Laws.antt =====
-- Rows and facts: a fact of the store is read back from its row.
use orgmetra.Base.{ℕ, ◌≡◌, ◌≢◌, refl, true, Option, none, some, [], ◌∷◌, ok, arith}
use orgmetra.Base.Uuid.{max_uuid}
use orgmetra.Kernel.Intervals.{
  Datetime, DateInterval, RecordedInterval, has_offset, date_interval, recorded_interval,
}
use orgmetra.Kernel.Facts.{EmploymentVersion, PositionVersion, AssignmentFact}
use orgmetra.Kernel.Values.{Cell, uuid, text, day, stamp, decimal, nothing}
use orgmetra.People.Errors.{ServiceError}
use orgmetra.People.Store.{Row}
use orgmetra.People.Store.Rows.{
  assignment_from_row, position_version_from_row, cell_optional_day, optional_datetime,
  employment_version_from_row, operational_uuid, aware_datetime,
}

abbrev pub day_cell : Option ℕ → Cell
day_cell none = nothing
day_cell (some d) = day d

abbrev pub stamp_cell : Option Datetime → Cell
stamp_cell none = nothing
stamp_cell (some t) = stamp t

-- The columns of a version and of an assignment, in the order of the queries.
abbrev pub employment_row : EmploymentVersion → Row
employment_row v =
    uuid v.employment_record_id
    ∷ uuid v.employment_record_version_id
    ∷ uuid v.person_record_id
    ∷ text v.employment_status_code
    ∷ text v.employment_concurrency_code
    ∷ day v.effective.start
    ∷ day_cell v.effective.end
    ∷ stamp v.recorded.start
    ∷ stamp_cell v.recorded.end
    ∷ []

abbrev pub position_row : PositionVersion → Row
position_row v =
    uuid v.position_record_id
    ∷ uuid v.position_record_version_id
    ∷ text v.position_status_code
    ∷ day v.effective.start
    ∷ day_cell v.effective.end
    ∷ stamp v.recorded.start
    ∷ stamp_cell v.recorded.end
    ∷ []

abbrev pub assignment_row : AssignmentFact → Row
assignment_row v =
    uuid v.assignment_record_id
    ∷ uuid v.employment_record_id
    ∷ uuid v.person_record_id
    ∷ uuid v.position_record_id
    ∷ decimal v.allocation_ratio
    ∷ day v.effective.start
    ∷ day_cell v.effective.end
    ∷ stamp v.recorded.start
    ∷ stamp_cell v.recorded.end
    ∷ []

-- An operational identifier.
pub record IsOperational (n : ℕ) : Type 0 where
  pub not_nil : n ≢ 0
  pub not_max : n ≢ max_uuid

-- Intervals that the kernel accepts, with aware instants.
pub record IsStorable (effective : DateInterval) (recorded : RecordedInterval) : Type 0 where
  pub days : date_interval effective.start effective.end ≡ ok effective
  pub instants : recorded_interval recorded.start recorded.end ≡ ok recorded
  pub aware_start : has_offset recorded.start ≡ true
  pub aware_end : (t : Datetime) → recorded.end ≡ some t → has_offset t ≡ true

pub operational-read :
    (e : ServiceError) (n : ℕ) → IsOperational n → operational_uuid e (uuid n) ≡ ok n
unfolding operational_uuid
operational-read e n o = ground (arith, o.not_nil, o.not_max)

module _ (effective : DateInterval) (recorded : RecordedInterval)
    (storable : IsStorable effective recorded) where
  start-read : (e : ServiceError) → aware_datetime e (stamp recorded.start) ≡ ok recorded.start
  unfolding aware_datetime
  start-read e = rw storable.aware_start refl

  day_read : (e : ServiceError) (d : Option ℕ) → cell_optional_day e (day_cell d) ≡ ok d
  day_read e none = refl
  day_read e (some d) = refl

  end-read_of :
      (e : ServiceError) (t : Option Datetime)
      → ((u : Datetime) → t ≡ some u → has_offset u ≡ true)
      → optional_datetime e (stamp_cell t) ≡ ok t
  unfolding aware_datetime
  end-read_of e none aware = refl
  end-read_of e (some u) aware = rw (aware u refl) refl

  end-read : (e : ServiceError) → optional_datetime e (stamp_cell recorded.end) ≡ ok recorded.end
  end-read e = end-read_of e recorded.end storable.aware_end

-- A version or an assignment that the store can hold.
pub record IsStorableEmployment (v : EmploymentVersion) : Type 0 where
  pub employment : IsOperational v.employment_record_id
  pub version : IsOperational v.employment_record_version_id
  pub person : IsOperational v.person_record_id
  pub intervals : IsStorable v.effective v.recorded

pub record IsStorablePosition (v : PositionVersion) : Type 0 where
  pub position : IsOperational v.position_record_id
  pub version : IsOperational v.position_record_version_id
  pub intervals : IsStorable v.effective v.recorded

pub record IsStorableAssignment (v : AssignmentFact) : Type 0 where
  pub assignment : IsOperational v.assignment_record_id
  pub employment : IsOperational v.employment_record_id
  pub person : IsOperational v.person_record_id
  pub position : IsOperational v.position_record_id
  pub intervals : IsStorable v.effective v.recorded

-- An employment version, a position version and an assignment with operational identifiers and
-- aware intervals that the kernel accepts are read back as they are from the rows of their columns.
pub facts-read_back :
    (v : EmploymentVersion) (p : PositionVersion) (a : AssignmentFact)
    → IsStorableEmployment v
    → IsStorablePosition p
    → IsStorableAssignment a
    → (employment_version_from_row v.tenant_record_id (employment_row v) ≡ ok v)
      × (position_version_from_row p.tenant_record_id (position_row p) ≡ ok p)
      × (assignment_from_row a.tenant_record_id (assignment_row a) ≡ ok a)
unfolding employment_version_from_row position_version_from_row assignment_from_row
facts-read_back v p a sv sp sa = (
  (let s = sv.intervals in
      rw
        (
          operational-read _ _ sv.employment,
          operational-read _ _ sv.version,
          operational-read _ _ sv.person,
          day_read v.effective v.recorded s _ v.effective.end,
          start-read v.effective v.recorded s _,
          end-read v.effective v.recorded s _,
          s.days,
          s.instants,
        )
        refl),
  (let s = sp.intervals in
      rw
        (
          operational-read _ _ sp.position,
          operational-read _ _ sp.version,
          day_read p.effective p.recorded s _ p.effective.end,
          start-read p.effective p.recorded s _,
          end-read p.effective p.recorded s _,
          s.days,
          s.instants,
        )
        refl),
  (let s = sa.intervals in
      rw
        (
          operational-read _ _ sa.assignment,
          operational-read _ _ sa.employment,
          operational-read _ _ sa.person,
          operational-read _ _ sa.position,
          day_read a.effective a.recorded s _ a.effective.end,
          start-read a.effective a.recorded s _,
          end-read a.effective a.recorded s _,
          s.days,
          s.instants,
        )
        refl),
)

-- ===== src/Kernel/Correction/Laws.antt =====
-- Closing a recorded interval: what it changes, what it refuses, and that it happens once.
use orgmetra.Kernel.Intervals.{recorded_contains, le_datetime, recorded_interval}
use orgmetra.Kernel.Intervals.Laws.{IsAware, knows}
use orgmetra.Base.{
  ◌<◌, ◌≤◌, ◌↔◌, Option, not, guard, ltb, >>=-eq-ok, ap, ◌&&◌, Option-cases, ◌≡◌, inl, inr, none,
  some, arith, ok, err,
}
use orgmetra.Kernel.Correction.{
  RecordedInterval, Datetime, Closable, already_closed, closes_early, close_recorded_interval,
}

abbrev pub closed_at : RecordedInterval → Datetime → RecordedInterval
closed_at r recorded_to = record { start = r.start; end = some recorded_to }

module _ {ℓ} {A : Type ℓ} ⦃c : Closable A⦄ (fact : A) (r : RecordedInterval)
    (recorded_to : Datetime) where
  -- A fact that is open is closed exactly at a later instant, and its recorded interval alone is
  -- replaced.
  pub close_iff :
      (closed : A)
      → c.recorded? fact ≡ some r
      → r.end ≡ none
      → IsAware r.start
      → IsAware recorded_to
      → (close_recorded_interval fact recorded_to ≡ ok closed) ↔ (
          (r.start.ticks < recorded_to.ticks)
          × (closed ≡ c.with_recorded fact (closed_at r recorded_to)))
  unfolding close_recorded_interval recorded_interval le_datetime
  close_iff closed has unclosed aware aware' =
      (λ h. (ground arith, ground arith), λ (later, same). ground arith)

  pub close-early :
      c.recorded? fact ≡ some r
      → r.end ≡ none
      → IsAware r.start
      → IsAware recorded_to
      → recorded_to.ticks ≤ r.start.ticks
      → close_recorded_interval fact recorded_to ≡ err closes_early
  unfolding close_recorded_interval recorded_interval le_datetime
  close-early has unclosed aware aware' h = ground arith

recorded_interval-end :
    (start : Datetime) (end : Option Datetime) (r : RecordedInterval)
    → recorded_interval start end ≡ ok r
    → r.end ≡ end
unfolding recorded_interval
recorded_interval-end start none r h = ground arith
recorded_interval-end start (some end) r h = ground arith

module _ {ℓ} {A : Type ℓ} ⦃c : Closable A⦄ (fact : A) (recorded_to : Datetime) where
  close_inversion :
      (closed : A)
      → close_recorded_interval fact recorded_to ≡ ok closed
      → (r : RecordedInterval) × (closed ≡ c.with_recorded fact r) × (r.end ≡ some recorded_to)
  unfolding close_recorded_interval
  close_inversion closed h = elim (Option-cases (c.recorded? fact)) [
    | inl e ↦ absurd (ground arith)
    | inr (r, e) ↦ elim (Option-cases (r.end)) [
      | inr (end, e') ↦ absurd (ground arith)
      | inl e' ↦
          let (early, _, h1) =
            >>=-eq-ok (le_datetime recorded_to r.start) _
              (rw (e, e', close_recorded_interval) at h) in
          let (_, _, h2) = >>=-eq-ok (guard (not early) closes_early) _ h1 in
          let (r', made, h3) = >>=-eq-ok (recorded_interval r.start (some recorded_to)) _ h2 in
          (r', cc, recorded_interval-end r.start (some recorded_to) r' made)
    ]
  ]

  -- A fact that was closed cannot be closed again, at any instant.
  pub close-close :
      (closed : A) (again : Datetime)
      → close_recorded_interval fact recorded_to ≡ ok closed
      → close_recorded_interval closed again ≡ err already_closed
  unfolding close_recorded_interval
  close-close closed again h =
      let (r, same, ended) = close_inversion closed h in
      ground (arith, ap c.recorded? same, c.recorded-with fact r)

-- After a closing the fact has a recorded interval that holds exactly the instants before the
-- closing at which the fact was known: a query at an earlier cutoff answers as it did.
pub close-recorded_contains {ℓ} :
    {A : Type ℓ} ⦃c : Closable A⦄ (fact closed : A) (r : RecordedInterval)
    (recorded_to t : Datetime)
    → c.recorded? fact ≡ some r
    → IsAware r.start
    → IsAware recorded_to
    → IsAware t
    → close_recorded_interval fact recorded_to ≡ ok closed
    → (r' : RecordedInterval) × (c.recorded? closed ≡ some r')
      × (recorded_contains r' t ≡ ok (knows r t && ltb t.ticks recorded_to.ticks))
unfolding close_recorded_interval knows recorded_contains
close-recorded_contains ⦃c⦄ fact closed r recorded_to t has aware aware' aware'' h =
    elim (Option-cases (r.end)) [
      | inr (end, e) ↦ absurd (ground arith)
      | inl e ↦
          let (later, same) = (close_iff fact r recorded_to closed has e aware aware').0 h in
          (
            closed_at r recorded_to,
            rw same (c.recorded-with fact (closed_at r recorded_to)),
            ground arith,
          )
    ]

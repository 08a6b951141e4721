-- ===== src/Engine/Schedule.antt =====
-- The next due time of a claimed job (`reschedule` in `run_due`).
use pixel_status_nx.Prelude.{
  ℕ, ◌+◌, ◌*◌, ◌/◌, ◌≤◌, ◌<◌, ◌≡◌, refl, ap, arith, pos, pos_part, neg_part, ◌-ℤ◌, ◌/ℤ◌, ◌≤ℤ◌, ◌<ℤ◌,
  -ℤ_parts, -ℤ_nonneg, pos_add, pos_mul,
}
use pixel_status_nx.Time.{TimePoint, ticks_per_ms, add_duration, to_ms, add_duration_parts}
use pixel_status_nx.Engine.{Job, reschedule}

-- How many intervals a job that is overdue by a number of ticks is moved.
abbrev pub periods : ℕ → ℕ → ℕ
periods overdue interval = overdue / ticks_per_ms / interval + 1

-- The periods reach past a time, and no more than one interval past it.
past_periods :
    (q interval : ℕ)
    → 0 < interval
    → (q < interval * (q / interval + 1)) × (interval * (q / interval + 1) ≤ q + interval)
past_periods q interval h = grind arith

module _ {D R : Type 0} (now : TimePoint) (job : Job D R) (interval : ℕ)
    (interval_is : job.definition.interval ≡ pos interval) (due : job.next_due ≤ℤ now) where
  -- The overdue time in ticks.
  abbrev overdue : ℕ
  overdue = pos_part (now -ℤ job.next_due)

  next_due-reschedule :
      (reschedule now job).next_due
      ≡ add_duration job.next_due (pos (interval * periods overdue interval))
  unfolding reschedule to_ms ◌/ℤ◌
  next_due-reschedule =
      rw (interval_is, -ℤ_nonneg now job.next_due due) (rw (pos_add, pos_mul) refl)

  -- A claimed job that is due, with a positive interval, falls due again after now and at most one
  -- interval after it, a whole number of intervals after its old due time.
  pub reschedule_after :
      0 < interval
      → (now <ℤ (reschedule now job).next_due)
        × ((reschedule now job).next_due ≤ℤ add_duration now (pos interval))
        × ((k : ℕ) × ((reschedule now job).next_due
              ≡ add_duration job.next_due (pos (interval * k))))
  reschedule_after h =
      let moved = add_duration_parts job.next_due (interval * periods overdue interval) in
      let later = add_duration_parts now interval in
      let parts = -ℤ_parts now job.next_due in
      let whole = ap neg_part (-ℤ_nonneg now job.next_due due) in
      let past = past_periods (overdue / ticks_per_ms) interval h in
      rw next_due-reschedule (
        omega (arith, moved, parts, whole, past.0),
        omega (arith, moved, later, parts, whole, past.1),
        (periods overdue interval, refl),
      )

-- ===== src/Engine.antt =====
-- src/core/monitor_engine.cpp and include/pixelstatus/monitor_engine.hpp. A runner is a value of a
-- type R and a function that runs it; a `Job*` is the job's index, since jobs are only appended.
pub mod Run
pub mod Schedule
pub mod Registry
pub mod Flags
pub mod Pump
pub mod Claimed
pub mod Places
pub mod Published
use pixel_status_nx.Prelude.{
  ℕ, zero, suc, ◌+◌, Bool, true, false, not, ◌&&◌, ◌||◌, Option, none, some, List, [], ◌∷◌, ◌++◌,
  map, Text, str, text_eq, text_lt, ℤ, pos, ◌-ℤ◌, ◌+ℤ◌, ◌*ℤ◌, ◌/ℤ◌, ltb_ℤ, leb_ℤ, eqb_ℤ, leb, ◌==◌,
  if◌then◌else◌, length, get_elem?, take, any_of, min,
}
use pixel_status_nx.Floating.{Floating}
use pixel_status_nx.Time.{Duration, TimePoint, zero_ms, add_duration, to_ms}
use pixel_status_nx.Validation.{is_valid_identifier, maximum_identifier_bytes}
use pixel_status_nx.State.{Store, MonitorState, monostate, upsert, is_empty}
use pixel_status_nx.Monitor.{
  MonitorResult, RunOutcome, returned, threw, threw_unknown, no_error, internal, monitor_error_name,
}
use pixel_status_nx.Evaluator.{EvaluationPolicy, validate, evaluate}

abbrev pub maximum_monitor_count : ℕ
maximum_monitor_count = 256

pub record MonitorDefinition (D : Type 0) : Type 0 where
  pub id : Text
  pub interval : Duration
  pub ttl : Option Duration
  pub evaluation : EvaluationPolicy D

pub record Job (D R : Type 0) : Type 0 where
  pub definition : MonitorDefinition D
  pub runner : R
  pub next_due : TimePoint
  pub in_flight : Bool

pub record Engine (D R : Type 0) : Type 0 where
  pub states : Store D
  pub jobs : List (Job D R)

pub record RegistrationResult : Type 0 where
  pub success : Bool
  pub error : Text

pub record PumpReport : Type 0 where
  pub due : ℕ
  pub executed : ℕ
  pub state_updates : ℕ
  pub transport_failures : ℕ
  pub runner_exceptions : ℕ

-- A change of the element at an index.
unfoldable pub update_at {ℓ} : {A : Type ℓ} → List A → ℕ → (A → A) → List A
update_at [] i f = []
update_at (x ∷ xs) zero f = f x ∷ xs
update_at (x ∷ xs) (suc i) f = x ∷ update_at xs i f

module _ {D R : Type 0} where
  unfoldable pub has_id : Text → Job D R → Bool
  has_id id job = text_eq job.definition.id id

  unfoldable pub is_due : TimePoint → Job D R → Bool
  is_due now job = not job.in_flight && leb_ℤ job.next_due now

  -- The jobs that are due, with their indices.
  unfoldable pub collect_due : TimePoint → ℕ → List (Job D R) → List (ℕ × Job D R)
  unfolding is_due
  collect_due now index [] = []
  collect_due now index (job ∷ rest) =
      let later = collect_due now (index + 1) rest in
      if is_due now job then (index, job) ∷ later else later

  -- The order of the due list.
  unfoldable pub runs_before : Job D R → Job D R → Bool
  runs_before left right =
      if not (eqb_ℤ left.next_due right.next_due)
      then ltb_ℤ left.next_due right.next_due
      else text_lt left.definition.id right.definition.id

  unfoldable pub insert_due : ℕ × Job D R → List (ℕ × Job D R) → List (ℕ × Job D R)
  unfolding runs_before
  insert_due e [] = e ∷ []
  insert_due e (f ∷ rest) = if runs_before f.1 e.1 then f ∷ insert_due e rest else e ∷ f ∷ rest

  -- `std::sort` of the due list.
  unfoldable pub sort_due : List (ℕ × Job D R) → List (ℕ × Job D R)
  unfolding insert_due
  sort_due [] = []
  sort_due (e ∷ rest) = insert_due e (sort_due rest)

  -- The next due time, past the periods that were missed.
  unfoldable pub reschedule : TimePoint → Job D R → Job D R
  reschedule now job =
      let overdue = to_ms (now -ℤ job.next_due) in
      let periods = overdue /ℤ job.definition.interval +ℤ pos 1 in
      record job {
        next_due = add_duration job.next_due (job.definition.interval *ℤ periods);
        in_flight = true;
      }

  unfoldable pub claim_all : TimePoint → List ℕ → List (Job D R) → List (Job D R)
  unfolding reschedule update_at
  claim_all now [] jobs = jobs
  claim_all now (index ∷ rest) jobs = claim_all now rest (update_at jobs index (reschedule now))

  -- The first block of `run_due`, under the lock: the number of due jobs and the claimed indices.
  unfoldable pub claim : TimePoint → ℕ → Engine D R → Engine D R × ℕ × List ℕ
  unfolding collect_due sort_due claim_all
  claim now maximum_runs engine =
      let due = sort_due (collect_due now 0 engine.jobs) in
      let taken = map (λ e. e.0) (take (min maximum_runs (length due)) due) in
      (record engine { jobs = claim_all now taken engine.jobs }, length due, taken)

  unfoldable pub release : Job D R → Job D R
  release job = record job { in_flight = false }

  -- The handler that rethrows: it releases the claimed jobs from an index on.
  unfoldable pub release_all : List ℕ → List (Job D R) → List (Job D R)
  unfolding release update_at
  release_all [] jobs = jobs
  release_all (index ∷ rest) jobs = release_all rest (update_at jobs index release)

  unfoldable pub due_of : Text → List (Job D R) → Option TimePoint
  unfolding has_id
  due_of id [] = none
  due_of id (job ∷ rest) = if has_id id job then some job.next_due else due_of id rest

  unfoldable pub next_due : Engine D R → Text → Option TimePoint
  unfolding due_of
  next_due engine id = due_of id engine.jobs

  unfoldable pub engine_size : Engine D R → ℕ
  engine_size engine = length engine.jobs

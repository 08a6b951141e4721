-- ===== src/Engine/Run.antt =====
-- `MonitorEngine::add` and `MonitorEngine::run_due` (src/core/monitor_engine.cpp). The call of a runner
-- is a parameter: it takes the runner's state and the time, and returns what happened and the new
-- state.
use pixel_status_nx.Prelude.{
  ℕ, zero, suc, ◌+◌, Bool, true, false, not, ◌&&◌, Option, none, some, List, [], ◌∷◌, ◌++◌, Text,
  str, leb_ℤ, leb, if◌then◌else◌, length, get_elem?, any_of,
}
use pixel_status_nx.Floating.{Floating}
use pixel_status_nx.Time.{Duration, TimePoint, zero_ms}
use pixel_status_nx.Validation.{is_valid_identifier, maximum_identifier_bytes}
use pixel_status_nx.State.{Store, MonitorState, monostate, upsert, is_empty}
use pixel_status_nx.Monitor.{
  MonitorResult, RunOutcome, returned, threw, threw_unknown, internal, monitor_error_name,
}
use pixel_status_nx.Evaluator.{validate, evaluate}
use pixel_status_nx.Engine.{
  MonitorDefinition, Job, Engine, RegistrationResult, PumpReport, maximum_monitor_count, update_at,
  has_id, claim, release, release_all,
}

abbrev refused : Text → RegistrationResult
refused error = record { success = false; error = error }

abbrev pub nonpositive : Option Duration → Bool
nonpositive none = false
nonpositive (some ttl) = leb_ℤ ttl zero_ms

-- `MonitorResult{}` with an internal error.
abbrev failed_result : {D : Type 0} → Text → MonitorResult D
failed_result detail = record {
  transport_success = false;
  value = monostate;
  latency = zero_ms;
  error = internal;
  detail = detail;
  observed_at = none;
}

-- `std::optional::value_or`.
abbrev pub value_or : Option TimePoint → TimePoint → TimePoint
value_or none other = other
value_or (some t) other = t

-- The report once the due jobs are counted.
abbrev pub fresh_report : ℕ → PumpReport
fresh_report due = record {
  due = due;
  executed = 0;
  state_updates = 0;
  transport_failures = 0;
  runner_exceptions = 0;
}

-- How a call of `run_due` ends.
pub data PumpOutcome : Type 0 where
  finished : PumpReport → PumpOutcome
  rethrown : PumpOutcome

module _ {D : Type 0} where
  unfoldable pub result_of : RunOutcome D → MonitorResult D
  result_of (returned result) = result
  result_of (threw what) = failed_result (str "Monitor runner exception: " ++ what)
  result_of threw_unknown = failed_result (str "Monitor runner exception: unknown error")

  -- Whether the call threw: 1 or 0.
  unfoldable pub exceptions : RunOutcome D → ℕ
  exceptions (returned result) = 0
  exceptions _ = 1

  -- A failure with no detail gets the name of its error.
  unfoldable pub describe : MonitorResult D → MonitorResult D
  describe result =
      if not result.transport_success && is_empty result.detail
      then record result { detail = monitor_error_name result.error }
      else result

module _ (fl : Floating) where
  -- The state that a result is published as.
  unfoldable pub published :
      MonitorDefinition fl.Double → MonitorResult fl.Double → TimePoint → MonitorState fl.Double
  published definition result now = record {
    id = definition.id;
    status = (evaluate fl result definition.evaluation).status;
    value = result.value;
    message = result.detail;
    observed_at = value_or result.observed_at now;
    updated_at = value_or result.observed_at now;
    ttl = definition.ttl;
  }

module _ (fl : Floating) {R : Type 0} where
  unfoldable pub registration_error :
      MonitorDefinition fl.Double → Option R → List (Job fl.Double R) → Option Text
  registration_error definition runner jobs =
      if not (is_valid_identifier definition.id maximum_identifier_bytes)
      then some (str "monitor id is invalid")
      else if leb_ℤ definition.interval zero_ms
      then some (str "monitor interval must be greater than zero")
      else if nonpositive definition.ttl
      then some (str "monitor TTL must be greater than zero")
      else elim runner [
        | none ↦ some (str "monitor runner is required")
        | some _ ↦ elim (validate fl definition.evaluation) [
          | some error ↦ some error
          | none ↦
              if leb maximum_monitor_count (length jobs)
              then some (str "monitor limit reached")
              else if any_of (has_id definition.id) jobs
              then some (str "monitor id is already registered")
              else none
        ]
      ]

  unfoldable pub append_job :
      MonitorDefinition fl.Double
      → Option R
      → TimePoint
      → List (Job fl.Double R)
      → List (Job fl.Double R)
  append_job definition none first_due jobs = jobs
  append_job definition (some runner) first_due jobs =
      jobs
      ++ record {
        definition = definition;
        runner = runner;
        next_due = first_due;
        in_flight = false;
      }
        ∷ []

  unfoldable pub add :
      Engine fl.Double R
      → MonitorDefinition fl.Double
      → Option R
      → TimePoint
      → Engine fl.Double R × RegistrationResult
  unfolding registration_error append_job
  add engine definition runner first_due = elim (registration_error definition runner engine.jobs) [
    | some error ↦ (engine, refused error)
    | none ↦ (
      record engine { jobs = append_job definition runner first_due engine.jobs },
      record { success = true; error = [] },
    )
  ]

  module _ (run : R → TimePoint → RunOutcome fl.Double × R) where
    -- The first `try` of an iteration: the runner is called.
    unfoldable pub call_runner :
        TimePoint → Job fl.Double R → MonitorResult fl.Double × ℕ × Job fl.Double R
    call_runner now job =
        let (outcome, runner) = run job.runner now in
        (describe (result_of outcome), exceptions outcome, record job { runner = runner })

    -- One iteration of the loop for a job: what it adds to the store and to the report.
    unfoldable pub publish :
        TimePoint
        → Job fl.Double R
        → Store fl.Double × PumpReport
        → (Store fl.Double × PumpReport) × Job fl.Double R
    unfolding call_runner
    publish now job (states, report) =
        let (result, thrown, job') = call_runner now job in
        let (states', updated) = upsert states (published fl job.definition result now) in
        (
          (
            states',
            record report {
              executed = report.executed + 1;
              state_updates = if updated then report.state_updates + 1 else report.state_updates;
              transport_failures =
                  if result.transport_success
                  then report.transport_failures
                  else report.transport_failures + 1;
              runner_exceptions = report.runner_exceptions + thrown;
            },
          ),
          job',
        )

    -- An iteration at an index: the job is run and released.
    unfoldable pub execute :
        TimePoint → ℕ → Engine fl.Double R × PumpReport → Engine fl.Double R × PumpReport
    execute now index (engine, report) = elim (get_elem? engine.jobs index) [
      | none ↦ (engine, report)
      | some job ↦
          let (after, job') = publish now job (engine.states, report) in
          (
            record engine {
              states = after.0;
              jobs = update_at engine.jobs index (λ _. release job');
            },
            after.1,
          )
    ]

    -- The runner of a job has been called, and nothing has been published.
    unfoldable pub called : TimePoint → ℕ → List (Job fl.Double R) → List (Job fl.Double R)
    unfolding call_runner
    called now index jobs = update_at jobs index (λ job. (call_runner now job).2)

    -- The loop over the claimed jobs. The first argument is the iteration whose second `try` block
    -- throws, if any: the handler then releases the rest, and `run_due` rethrows.
    unfoldable pub execute_all :
        Option ℕ
        → TimePoint
        → List ℕ
        → Engine fl.Double R × PumpReport
        → Engine fl.Double R × PumpOutcome
    execute_all throws now [] (engine, report) = (engine, finished report)
    execute_all none now (index ∷ rest) s = execute_all none now rest (execute now index s)
    execute_all (some (suc k)) now (index ∷ rest) s =
        execute_all (some k) now rest (execute now index s)
    execute_all (some zero) now (index ∷ rest) (engine, report) = (
      record engine { jobs = release_all (index ∷ rest) (called now index engine.jobs) },
      rethrown,
    )

    unfoldable pub run_due :
        Option ℕ → TimePoint → ℕ → Engine fl.Double R → Engine fl.Double R × PumpOutcome
    run_due throws now maximum_runs engine =
        let (claimed, due, taken) = claim now maximum_runs engine in
        execute_all throws now taken (claimed, fresh_report due)

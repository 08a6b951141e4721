-- ===== src/Engine/Published.antt =====
-- What `run_due` (src/core/monitor_engine.cpp) leaves in the store.
use pixel_status_nx.Prelude.{ℕ, ◌≡◌, true, Option, none, some, List, get_elem?}
use pixel_status_nx.Floating.{Floating}
use pixel_status_nx.Time.{TimePoint}
use pixel_status_nx.State.{Store, MonitorState, find}
use pixel_status_nx.Monitor.{RunOutcome}
use pixel_status_nx.Evaluator.{evaluate}
use pixel_status_nx.Engine.{Job, Engine, is_due}
use pixel_status_nx.Engine.Run.{published, call_runner}

module _ (fl : Floating) {R : Type 0} (run : R → TimePoint → RunOutcome fl.Double × R)
    (now : TimePoint) where
  -- What a job leaves in the store.
  abbrev state_for : Job fl.Double R → MonitorState fl.Double
  state_for job = published fl job.definition (call_runner fl run now job).0 now

  -- The job at an index, and its state in the store.
  abbrev Left : List (Job fl.Double R) → Store fl.Double → ℕ → Type 0
  Left jobs states i =
      (job : Job fl.Double R) × (get_elem? jobs i ≡ some job)
      × (find states job.definition.id ≡ some (state_for job))

  -- The time that a runner has observed, or else the time of the call.
  abbrev pub observed_or : Option TimePoint → TimePoint
  observed_or none = now
  observed_or (some t) = t

  -- The state in the store that a run of a job leaves: what its runner reported, under the job's
  -- identifier and with its TTL, and with the status that its policy gives.
  pub record IsPublication (job : Job fl.Double R) (s : MonitorState fl.Double) : Type 0 where
    pub same_id : s.id ≡ job.definition.id
    pub same_ttl : s.ttl ≡ job.definition.ttl
    pub reported_value : s.value ≡ (call_runner fl run now job).0.value
    pub reported_detail : s.message ≡ (call_runner fl run now job).0.detail
    pub evaluated :
        s.status ≡ (evaluate fl (call_runner fl run now job).0 job.definition.evaluation).status
    pub one_time : s.updated_at ≡ s.observed_at
    pub observed : s.observed_at ≡ observed_or (call_runner fl run now job).0.observed_at

  -- A due job, whose publication its identifier finds.
  abbrev pub Publishes : List (Job fl.Double R) → Store fl.Double → ℕ → Type 0
  Publishes jobs states i =
      (job : Job fl.Double R) × (get_elem? jobs i ≡ some job)
      × (is_due now job ≡ true)
      × ((s : MonitorState fl.Double) × (find states job.definition.id ≡ some s)
          × IsPublication job s)

  module _ (maximum_runs : ℕ) (engine : Engine fl.Double R) where
    abbrev Due : ℕ → Type 0
    Due i = (job : Job fl.Double R) × (get_elem? engine.jobs i ≡ some job) × (is_due now job ≡ true)

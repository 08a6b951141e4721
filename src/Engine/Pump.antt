-- ===== src/Engine/Pump.antt =====
-- The report of `run_due`: what it counts is what it has done.
use pixel_status_nx.Prelude.{
  ℕ, zero, suc, ◌+◌, ◌≤◌, ◌<◌, ◌≡◌, ◌≢◌, refl, ap, subst, ◌∙◌, ◌⊎◌, inl, inr, true, false, Option,
  none, some, List, [], ◌∷◌, map, arith, Option-cases, length, length-map, length-take, get_elem?,
  take, min, All,
}
use mathlib.Core.Option.{some-injective}
use pixel_status_nx.Floating.{Floating}
use pixel_status_nx.Time.{TimePoint, Duration}
use pixel_status_nx.Validation.{is_valid_identifier}
use pixel_status_nx.State.{Store, upsert, is_empty, negative_ttl}
use pixel_status_nx.Monitor.{MonitorResult, RunOutcome, returned, threw, threw_unknown}
use pixel_status_nx.Evaluator.{evaluate}
use pixel_status_nx.Evaluator.Validity.{IsName, evaluate-IsName}
use pixel_status_nx.Engine.{
  MonitorDefinition, Job, Engine, PumpReport, collect_due, insert_due, sort_due, claim, release,
}
use pixel_status_nx.Engine.Run.{
  finished, fresh_report, nonpositive, published, call_runner, publish, execute, execute_all,
  run_due, result_of, exceptions, describe,
}
use pixel_status_nx.Engine.Registry.{
  definitions, definitions-replace, definitions-claim, IsDefinition, IsRegistry,
}
use pixel_status_nx.Engine.Flags.{claim-All}

name-nonempty : (name : List ℕ) → IsName name → is_empty name ≡ false
unfolding is_valid_identifier
name-nonempty [] h = ground arith
name-nonempty (c ∷ rest) h = refl

ttl-nonnegative : (ttl : Option Duration) → nonpositive ttl ≡ false → negative_ttl ttl ≡ false
ttl-nonnegative none h = refl
ttl-nonnegative (some ttl) h = ground arith

pub get_elem?-lt {ℓ} :
    {A : Type ℓ} (xs : List A) (k : ℕ) (x : A) → get_elem? xs k ≡ some x → k < length xs
get_elem?-lt [] k x h = cc
get_elem?-lt (y ∷ xs) zero x h = omega arith
get_elem?-lt (y ∷ xs) (suc k) x h = omega (arith, get_elem?-lt xs k x h)

pub in_bounds {ℓ} : {A : Type ℓ} (xs : List A) (k : ℕ) → k < length xs → get_elem? xs k ≢ none
in_bounds [] k h = elim h [ ]
in_bounds (x ∷ xs) zero h = λ e. cc
in_bounds (x ∷ xs) (suc k) h = in_bounds xs k (omega arith)

pub All-get {ℓ κ μ} :
    {A : Type ℓ} {B : Type μ} (P : B → Type κ) (f : A → B) (xs : List A) (k : ℕ) (x : A)
    → All P (map f xs)
    → get_elem? xs k ≡ some x
    → P (f x)
All-get P f [] k x all h = cc
All-get P f (y ∷ xs) zero x all h = subst (λ y. P (f y)) (some-injective y x h) all.0
All-get P f (y ∷ xs) (suc k) x all h = All-get P f xs k x all.1 h

length-insert_due :
    {D R : Type 0} (e : ℕ × Job D R) (es : List (ℕ × Job D R))
    → length (insert_due e es) ≡ suc (length es)
unfolding insert_due
length-insert_due e [] = refl
length-insert_due e (f ∷ es) = ground (arith, length-insert_due e es)

length-sort_due : {D R : Type 0} (es : List (ℕ × Job D R)) → length (sort_due es) ≡ length es
unfolding sort_due
length-sort_due [] = refl
length-sort_due (e ∷ es) = omega (arith, length-insert_due e (sort_due es), length-sort_due es)

module _ {D R : Type 0} (now : TimePoint) (maximum_runs : ℕ) (engine : Engine D R) where
  -- How many jobs are due, and how many of them a call claims.
  pub claim-length :
      let c = claim now maximum_runs engine in
      (c.1 ≡ length (collect_due now 0 engine.jobs)) × (length c.2 ≡ min maximum_runs c.1)
  unfolding claim
  claim-length =
      let due = sort_due (collect_due now 0 engine.jobs) in
      (
        length-sort_due (collect_due now 0 engine.jobs),
        omega (
          arith,
          length-map (take (min maximum_runs (length due)) due) (λ (e : ℕ × Job D R). e.0),
          length-take (min maximum_runs (length due)) due,
        ),
      )

  pub claimed-lt : All (λ i. i < length (definitions engine.jobs)) (claim now maximum_runs engine).2
  claimed-lt =
      claim-All (λ i. i < length (definitions engine.jobs)) now maximum_runs engine
        λ k job at due. omega (
          arith,
          get_elem?-lt engine.jobs k job at,
          length-map engine.jobs (λ (j : Job D R). j.definition),
        )

module _ (fl : Floating) where
  -- The state that is published for a valid monitor definition is accepted by the store, whatever
  -- the result of the runner.
  pub upsert-published :
      (d : MonitorDefinition fl.Double) (result : MonitorResult fl.Double) (now : TimePoint)
      (states : Store fl.Double)
      → IsDefinition fl d
      → (upsert states (published fl d result now)).1 ≡ true
  unfolding upsert published
  upsert-published d result now states v = ground (
    arith,
    name-nonempty d.id v.id_name,
    name-nonempty (evaluate fl result d.evaluation).status
        (evaluate-IsName fl result d.evaluation v.policy_holds),
    ttl-nonnegative d.ttl v.ttl_positive,
  )

  outcome-le :
      (outcome : RunOutcome fl.Double)
      → (exceptions outcome ≤ 1)
        × ((exceptions outcome ≡ 0) ⊎ ((describe (result_of outcome)).transport_success ≡ false))
  unfolding exceptions describe result_of
  outcome-le (returned result) = (omega arith, inl refl)
  outcome-le (threw what) = (omega arith, inr (ground arith))
  outcome-le threw_unknown = (omega arith, inr (ground arith))

  -- What a report counts after a number of iterations.
  pub record Counts (before after : PumpReport) (n : ℕ) : Type 0 where
    pub same_due : after.due ≡ before.due
    pub executed : after.executed ≡ before.executed + n
    pub updated : after.state_updates ≡ before.state_updates + n
    pub failures :
        after.runner_exceptions + before.transport_failures
        ≤ after.transport_failures + before.runner_exceptions
    pub failures_bounded : after.transport_failures ≤ before.transport_failures + n

  module _ {R : Type 0} (run : R → TimePoint → RunOutcome fl.Double × R) where
    -- A runner that throws counts as a failed transport.
    thrown-le :
        (now : TimePoint) (job : Job fl.Double R)
        → let c = call_runner fl run now job in
          (c.1 ≤ 1) × ((c.1 ≡ 0) ⊎ (c.0.transport_success ≡ false))
    unfolding call_runner describe result_of exceptions
    thrown-le now job = outcome-le (run job.runner now).0

    publish-Counts :
        (now : TimePoint) (job : Job fl.Double R) (states : Store fl.Double) (report : PumpReport)
        → IsDefinition fl job.definition
        → Counts report (publish fl run now job (states, report)).0.1 1
    unfolding publish
    publish-Counts now job states report v = ground (
      arith,
      thrown-le now job,
      upsert-published job.definition (call_runner fl run now job).0 now states v,
    )

    Counts-step : {a b c : PumpReport} {n : ℕ} → Counts a b 1 → Counts b c n → Counts a c (suc n)
    Counts-step p q = omega arith

    definition-publish :
        (now : TimePoint) (job : Job fl.Double R) (s : Store fl.Double × PumpReport)
        → (release (publish fl run now job s).1).definition ≡ job.definition
    unfolding publish call_runner release
    definition-publish now job s = refl

    -- The engine keeps its definitions, and the report counts one iteration.
    pub execute_lem :
        (now : TimePoint) (i : ℕ) (engine : Engine fl.Double R) (report : PumpReport)
        → i < length engine.jobs
        → All (IsDefinition fl) (definitions engine.jobs)
        → let after = execute fl run now i (engine, report) in
          (definitions after.0.jobs ≡ definitions engine.jobs) × Counts report after.1 1
    unfolding execute
    execute_lem now i engine report h all = elim (Option-cases (get_elem? engine.jobs i)) [
      | inl e ↦ absurd (in_bounds engine.jobs i h e)
      | inr (job, e) ↦
          rw (e, execute)
            (
              definitions-replace engine.jobs i job _ e
                  (definition-publish now job (engine.states, report)),
              publish-Counts now job engine.states report (
                  All-get (IsDefinition fl) (λ (j : Job fl.Double R). j.definition) engine.jobs i
                    job all e),
            )
    ]

    execute_all_lem :
        (ds : List (MonitorDefinition fl.Double))
        → All (IsDefinition fl) ds
        → (now : TimePoint) (taken : List ℕ) (engine : Engine fl.Double R) (report : PumpReport)
        → All (λ i. i < length ds) taken
        → definitions engine.jobs ≡ ds
        → (after : PumpReport) × ((execute_all fl run none now taken (engine, report)).1
            ≡ finished after)
          × (definitions (execute_all fl run none now taken (engine, report)).0.jobs ≡ ds)
          × Counts report after (length taken)
    unfolding execute_all
    execute_all_lem ds all now [] engine report within e = (report, refl, e, omega arith)
    execute_all_lem ds all now (i ∷ taken) engine report within e =
        let s = execute fl run now i (engine, report) in
        let (kept, counted) =
          execute_lem now i engine report
            (omega (
              arith,
              within.0,
              ap length e,
              length-map engine.jobs (λ (j : Job fl.Double R). j.definition),
            ))
            (rw e all) in
        let (after, ends, kept', counted') =
          execute_all_lem ds all now taken s.0 s.1 within.1 (kept ∙ e) in
        (after, ends, kept', Counts-step counted counted')

    -- On a valid registry a call of run_due whose loop does not throw returns a report: it counts
    -- the due jobs, runs as many of them as the limit allows, publishes the state of every job it
    -- runs, counts at least one failed transport for each exception, and no more failures than
    -- runs; the registered definitions stay.
    pub run_due_counts :
        (now : TimePoint) (maximum_runs : ℕ) (engine : Engine fl.Double R)
        → IsRegistry fl (definitions engine.jobs)
        → let after = run_due fl run none now maximum_runs engine in
          (r : PumpReport) × (after.1 ≡ finished r)
          × (r.due ≡ length (collect_due now 0 engine.jobs))
          × (r.executed ≡ min maximum_runs r.due)
          × (r.state_updates ≡ r.executed)
          × (r.runner_exceptions ≤ r.transport_failures)
          × (r.transport_failures ≤ r.executed)
          × (definitions after.0.jobs ≡ definitions engine.jobs)
    unfolding run_due
    run_due_counts now maximum_runs engine v =
        let c = claim now maximum_runs engine in
        let (r, ends, kept, counts) =
          execute_all_lem (definitions engine.jobs) v.registered now c.2 c.0 (fresh_report c.1)
            (claimed-lt now maximum_runs engine) (definitions-claim now maximum_runs engine) in
        let sizes = claim-length now maximum_runs engine in
        (
          r,
          ends,
          omega (arith, counts.same_due, sizes.0),
          omega (arith, counts.executed, counts.same_due, sizes.1),
          omega (arith, counts.updated, counts.executed),
          omega (arith, counts.failures),
          omega (arith, counts.failures_bounded, counts.executed),
          kept,
        )

-- ===== src/Registration/Accepted.antt =====
-- The loader (src/core/config.cpp) composed with the loop of `main` in src/simulator/main.cpp.
use pixel_status_nx.Prelude.{
  ◌+◌, ◌≤◌, ◌<◌, ◌≡◌, refl, sym, ap, subst, ◌∙◌, inl, inr, true, false, Option, none, some, List,
  [], ◌∷◌, ◌++◌, map, Text, arith, length, length-append, All, any_of, Option-cases, is_some,
}
use mathlib.Core.List.{append-nil, append_assoc}
use pixel_status_nx.Floating.{Floating}
use pixel_status_nx.Time.{TimePoint}
use pixel_status_nx.State.{Store}
use pixel_status_nx.Json.{JsonLibrary}
use pixel_status_nx.Config.{AppConfig}
use pixel_status_nx.Config.Monitors.{MonitorSourceConfig, PullMonitorConfig}
use pixel_status_nx.Engine.{Job, Engine, maximum_monitor_count, has_id}
use pixel_status_nx.Engine.Run.{registration_error, append_job, add}
use pixel_status_nx.Engine.Registry.{
  definitions, definitions-append, IsRegistry, add-IsRegistry, text_eq_sym, any_of-append,
}
use pixel_status_nx.Registration.{definition_of, register, register_all}
use pixel_status_nx.Loader.Fields.{has_name}
use pixel_status_nx.Loader.File.{ConfigFile, load_config_file}
use pixel_status_nx.Loader.Fresh.{Fresh}
use pixel_status_nx.Loader.Acceptable.{IsAcceptable}
use pixel_status_nx.Loader.Outcome.{load_config_file-AreAcceptable}

module _ (fl : Floating) {R : Type 0} where
  registration_accepted :
      (m : PullMonitorConfig fl.Double) (runner : R) (jobs : List (Job fl.Double R))
      → IsAcceptable fl m
      → length jobs < maximum_monitor_count
      → any_of (has_id m.id) jobs ≡ false
      → registration_error fl (definition_of m) (some runner) jobs ≡ none
  unfolding registration_error
  registration_accepted m runner jobs ok room new =
      rw (ok.id_name, ok.interval_positive, ok.ttl_positive, ok.policy_valid, new) (ground arith)

  -- The identifiers of the jobs are among the names.
  abbrev Known : List Text → List (Job fl.Double R) → Type 0
  Known names jobs = (name : Text) → has_name name names ≡ false → any_of (has_id name) jobs ≡ false

  Known-append :
      (names : List Text) (jobs : List (Job fl.Double R)) (job : Job fl.Double R)
      → Known names jobs
      → Known (job.definition.id ∷ names) (jobs ++ job ∷ [])
  unfolding has_id
  Known-append names jobs job known name new =
      any_of-append (has_id name) jobs (job ∷ [])
      ∙ ground (arith, known name, text_eq_sym job.definition.id name)

  module _ (create : MonitorSourceConfig fl.Double → Option R) (started_at : TimePoint) where
    -- A job for a monitor.
    abbrev job_of : PullMonitorConfig fl.Double → R → Job fl.Double R
    job_of m runner = record {
      definition = definition_of m;
      runner = runner;
      next_due = started_at;
      in_flight = false;
    }

    register-accepted :
        (m : PullMonitorConfig fl.Double) (runner : R) (engine : Engine fl.Double R)
        → create m.source ≡ some runner
        → registration_error fl (definition_of m) (some runner) engine.jobs ≡ none
        → register fl create started_at m engine
          ≡ some (record engine { jobs = engine.jobs ++ job_of m runner ∷ [] })
    unfolding register append_job
    register-accepted m runner engine e ok = rw (e, register) (unfold add in rw (ok, add) refl)

    add-accepted :
        (m : PullMonitorConfig fl.Double) (runner : R) (engine : Engine fl.Double R)
        → registration_error fl (definition_of m) (some runner) engine.jobs ≡ none
        → (add fl engine (definition_of m) (some runner) started_at).0.jobs
          ≡ engine.jobs ++ job_of m runner ∷ []
    unfolding add append_job
    add-accepted m runner engine ok = rw (ok, add) refl

    -- An engine to which the monitors were added.
    pub record Registers (ms : List (PullMonitorConfig fl.Double))
        (before after : Engine fl.Double R) : Type 0 where
      pub given : register_all fl create started_at ms before ≡ some after
      pub added : definitions after.jobs ≡ definitions before.jobs ++ map definition_of ms
      pub same_states : after.states ≡ before.states
      pub registry : IsRegistry fl (definitions after.jobs)

    abbrev pub HasRunner : PullMonitorConfig fl.Double → Type 0
    HasRunner m = is_some (create m.source) ≡ true

    register_all-Registers :
        (ms : List (PullMonitorConfig fl.Double)) (names : List Text) (engine : Engine fl.Double R)
        → All (IsAcceptable fl) ms
        → Fresh (λ m. m.id) names ms
        → Known names engine.jobs
        → length engine.jobs + length ms ≤ maximum_monitor_count
        → All HasRunner ms
        → IsRegistry fl (definitions engine.jobs)
        → (after : Engine fl.Double R) × Registers ms engine after
    unfolding register_all
    register_all-Registers [] names engine ok new known room runners valid = (
      engine,
      record { given = refl; added = sym (append-nil _); same_states = refl; registry = valid },
    )
    register_all-Registers (m ∷ rest) names engine ok new known room runners valid =
        elim (Option-cases (create m.source)) [
          | inl e ↦ absurd (cc (rw e at runners.0))
          | inr (runner, e) ↦
              let accepted =
                registration_accepted m runner engine.jobs ok.0 (omega (arith, room))
                  (known m.id new.0) in
              let next = record engine { jobs = engine.jobs ++ job_of m runner ∷ [] } in
              let (after, k) =
                register_all-Registers rest (m.id ∷ names) next ok.1 new.1
                  (Known-append names engine.jobs (job_of m runner) known)
                  (omega (arith, room, length-append engine.jobs (job_of m runner ∷ []))) runners.1
                  (subst (λ jobs. IsRegistry fl (definitions jobs))
                    (add-accepted m runner engine accepted)
                    (add-IsRegistry fl engine (definition_of m) (some runner) started_at valid)) in
              (
                after,
                record {
                  given = rw (register-accepted m runner engine e accepted, register_all) k.given;
                  added =
                      k.added
                      ∙ ap (λ ds. ds ++ map definition_of rest)
                          (definitions-append fl engine.jobs (job_of m runner))
                      ∙ append_assoc (definitions engine.jobs) (definition_of m ∷ [])
                          (map definition_of rest);
                  same_states = k.same_states;
                  registry = k.registry;
                },
              )
        ]

-- Where a runner is created for each of its monitors, the monitors of a configuration that the loader
-- returns are all registered: the engine then has exactly their definitions, in their order, which
-- form a valid registry, and the store is the same.
pub register_all-loaded :
    (fl : Floating) (json : JsonLibrary fl.Double) {R : Type 0}
    (create : MonitorSourceConfig fl.Double → Option R) (started_at : TimePoint) (path : Text)
    (file : ConfigFile) (states : Store fl.Double) {c : AppConfig fl.Double}
    → (load_config_file fl json path file).config ≡ some c
    → All (HasRunner fl create started_at) c.monitors
    → (engine : Engine fl.Double R) × (register_all fl create started_at c.monitors
          (record { states = states; jobs = [] })
        ≡ some engine)
      × (definitions engine.jobs ≡ map definition_of c.monitors)
      × (engine.states ≡ states)
      × IsRegistry fl (definitions engine.jobs)
register_all-loaded fl json create started_at path file states {c} h runners =
    let ok = load_config_file-AreAcceptable fl json path file h in
    let (engine, k) =
      register_all-Registers fl create started_at c.monitors []
        (record { states = states; jobs = [] }) ok.acceptable ok.distinct (λ name new. refl)
        (omega (arith, ok.bounded)) runners
        (record { registered = tt; distinct = tt; bounded = omega arith }) in
    (engine, k.given, k.added, k.same_states, k.registry)

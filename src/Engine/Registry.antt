-- ===== src/Engine/Registry.antt =====
-- The registered monitors: what `add` admits, and what `run_due` keeps and publishes.
use pixel_status_nx.Prelude.{
  ℕ, zero, suc, ◌≤◌, ◌<◌, ◌≡◌, refl, sym, ap, ◌∙◌, inl, inr, Bool, false, ◌||◌, Option, none, some,
  List, [], ◌∷◌, ◌++◌, map, Text, text_eq, text_eq_iff, arith, Option-cases, leb_ℤ, length,
  length-append, length-map, get_elem?, any_of, All,
}
use mathlib.Core.Option.{some-injective}
use pixel_status_nx.Floating.{Floating}
use pixel_status_nx.Time.{TimePoint, zero_ms}
use pixel_status_nx.Evaluator.Validity.{IsName, IsPolicy, validate-IsPolicy}
use pixel_status_nx.Engine.{
  MonitorDefinition, Job, Engine, maximum_monitor_count, update_at, has_id, reschedule, claim_all,
  claim, release, release_all,
}
use pixel_status_nx.Engine.Run.{nonpositive, registration_error, append_job, add}

module _ {D R : Type 0} where
  abbrev pub definitions : List (Job D R) → List (MonitorDefinition D)
  definitions = map (λ job. job.definition)

  pub definitions-update_at :
      (jobs : List (Job D R)) (i : ℕ) (f : Job D R → Job D R)
      → ((job : Job D R) → (f job).definition ≡ job.definition)
      → definitions (update_at jobs i f) ≡ definitions jobs
  unfolding update_at
  definitions-update_at [] i f h = refl
  definitions-update_at (job ∷ jobs) zero f h = ap (λ d. d ∷ definitions jobs) (h job)
  definitions-update_at (job ∷ jobs) (suc i) f h =
      ap (◌∷◌ job.definition) (definitions-update_at jobs i f h)

  -- The job at an index is replaced by one of the same definition.
  pub definitions-replace :
      (jobs : List (Job D R)) (i : ℕ) (job job' : Job D R)
      → get_elem? jobs i ≡ some job
      → job'.definition ≡ job.definition
      → definitions (update_at jobs i (λ _. job')) ≡ definitions jobs
  unfolding update_at
  definitions-replace [] i job job' e h = refl
  definitions-replace (j ∷ jobs) zero job job' e h =
      ap (λ d. d ∷ definitions jobs)
        (h ∙ ap (λ (j : Job D R). j.definition) (sym (some-injective j job e)))
  definitions-replace (j ∷ jobs) (suc i) job job' e h =
      ap (◌∷◌ j.definition) (definitions-replace jobs i job job' e h)

  definitions-claim_all :
      (now : TimePoint) (taken : List ℕ) (jobs : List (Job D R))
      → definitions (claim_all now taken jobs) ≡ definitions jobs
  unfolding claim_all
  definitions-claim_all now [] jobs = refl
  definitions-claim_all now (i ∷ taken) jobs =
      definitions-claim_all now taken (update_at jobs i (reschedule now))
      ∙ definitions-update_at jobs i (reschedule now) (λ job. unfold reschedule in refl)

  pub definitions-claim :
      (now : TimePoint) (maximum_runs : ℕ) (engine : Engine D R)
      → definitions (claim now maximum_runs engine).0.jobs ≡ definitions engine.jobs
  unfolding claim
  definitions-claim now maximum_runs engine =
      definitions-claim_all now (claim now maximum_runs engine).2 engine.jobs

  definitions-release_all :
      (taken : List ℕ) (jobs : List (Job D R))
      → definitions (release_all taken jobs) ≡ definitions jobs
  unfolding release_all
  definitions-release_all [] jobs = refl
  definitions-release_all (i ∷ taken) jobs =
      definitions-release_all taken (update_at jobs i release)
      ∙ definitions-update_at jobs i release (λ job. unfold release in refl)

-- No two definitions have one identifier.
abbrev pub same_id : {D : Type 0} → Text → MonitorDefinition D → Bool
same_id id d = text_eq d.id id

abbrev pub Distinct : {D : Type 0} → List (MonitorDefinition D) → Type 0
Distinct [] = Unit
Distinct (d ∷ rest) = (any_of (same_id d.id) rest ≡ false) × Distinct rest

pub text_eq_sym : (x y : Text) → text_eq x y ≡ text_eq y x
text_eq_sym x y = ground (arith, text_eq_iff x y, text_eq_iff y x)

pub any_of-append {ℓ} :
    {A : Type ℓ} (p : A → Bool) (xs ys : List A) → any_of p (xs ++ ys) ≡ any_of p xs || any_of p ys
any_of-append p [] ys = refl
any_of-append p (x ∷ xs) ys = ground (arith, any_of-append p xs ys)

Distinct-append :
    {D : Type 0} (ds : List (MonitorDefinition D)) (d : MonitorDefinition D)
    → Distinct ds
    → any_of (same_id d.id) ds ≡ false
    → Distinct (ds ++ d ∷ [])
Distinct-append [] d h new = (refl, tt)
Distinct-append (e ∷ ds) d h new = (
  ground (arith, any_of-append (same_id e.id) ds (d ∷ []), text_eq_sym e.id d.id),
  Distinct-append ds d h.1 (ground arith),
)

All-append {ℓ κ} :
    {A : Type ℓ} (P : A → Type κ) (xs : List A) (y : A) → All P xs → P y → All P (xs ++ y ∷ [])
All-append P [] y h k = (k, tt)
All-append P (x ∷ xs) y h k = (h.0, All-append P xs y h.1 k)

module _ (fl : Floating) where
  pub record IsDefinition (d : MonitorDefinition fl.Double) : Type 0 where
    pub id_name : IsName d.id
    pub interval_positive : leb_ℤ d.interval zero_ms ≡ false
    pub ttl_positive : nonpositive d.ttl ≡ false
    pub policy_holds : IsPolicy fl d.evaluation

  -- What an engine's jobs are at any time.
  pub record IsRegistry (ds : List (MonitorDefinition fl.Double)) : Type 0 where
    pub registered : All IsDefinition ds
    pub distinct : Distinct ds
    pub bounded : length ds ≤ maximum_monitor_count

  Admitted : {R : Type 0} → MonitorDefinition fl.Double → Option R → List (Job fl.Double R) → Type 0
  Admitted d runner jobs =
      IsDefinition d × (length jobs < maximum_monitor_count) × (any_of (has_id d.id) jobs ≡ false)

  registration_error-Admitted :
      {R : Type 0} (d : MonitorDefinition fl.Double) (runner : Option R)
      (jobs : List (Job fl.Double R))
      → registration_error fl d runner jobs ≡ none
      → Admitted d runner jobs
  unfolding registration_error Admitted
  registration_error-Admitted d none jobs h = ground arith
  registration_error-Admitted d (some r) jobs h = (
    record {
      id_name = ground arith;
      interval_positive = ground arith;
      ttl_positive = ground arith;
      policy_holds = validate-IsPolicy fl d.evaluation (ground arith);
    },
    ground arith,
    ground arith,
  )

  any_of-definitions :
      {R : Type 0} (id : Text) (jobs : List (Job fl.Double R))
      → any_of (has_id id) jobs ≡ any_of (same_id id) (definitions jobs)
  unfolding has_id
  any_of-definitions id [] = refl
  any_of-definitions id (job ∷ jobs) = ground (arith, any_of-definitions id jobs)

  pub definitions-append :
      {R : Type 0} (jobs : List (Job fl.Double R)) (job : Job fl.Double R)
      → definitions (jobs ++ job ∷ []) ≡ definitions jobs ++ job.definition ∷ []
  definitions-append [] job = refl
  definitions-append (j ∷ jobs) job = ap (◌∷◌ j.definition) (definitions-append jobs job)

  append_job-IsRegistry :
      {R : Type 0} (d : MonitorDefinition fl.Double) (runner : Option R) (first_due : TimePoint)
      (jobs : List (Job fl.Double R))
      → Admitted d runner jobs
      → IsRegistry (definitions jobs)
      → IsRegistry (definitions (append_job fl d runner first_due jobs))
  unfolding append_job Admitted
  append_job-IsRegistry d none first_due jobs a v = v
  append_job-IsRegistry d (some r) first_due jobs a v =
      let ds = definitions jobs in
      rw definitions-append (record {
        registered = All-append IsDefinition ds d v.registered a.0;
        distinct = Distinct-append ds d v.distinct (sym (any_of-definitions d.id jobs) ∙ a.2);
        bounded = omega (
          arith,
          length-append ds (d ∷ []),
          length-map jobs (λ (job : Job fl.Double _). job.definition),
        );
      })

  -- A registration, accepted or refused, keeps the registry valid: every definition is valid, the
  -- identifiers are distinct, and there are at most 256.
  pub add-IsRegistry :
      {R : Type 0} (engine : Engine fl.Double R) (d : MonitorDefinition fl.Double)
      (runner : Option R) (first_due : TimePoint)
      → IsRegistry (definitions engine.jobs)
      → IsRegistry (definitions (add fl engine d runner first_due).0.jobs)
  unfolding add
  add-IsRegistry engine d runner first_due v =
      elim (Option-cases (registration_error fl d runner engine.jobs)) [
        | inl e ↦
            rw (e, add)
              (append_job-IsRegistry d runner first_due engine.jobs
                (registration_error-Admitted d runner engine.jobs e) v)
        | inr (message, e) ↦ rw (e, add) v
      ]

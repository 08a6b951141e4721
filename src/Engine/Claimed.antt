-- ===== src/Engine/Claimed.antt =====
-- The jobs that a call of `run_due` claims (src/core/monitor_engine.cpp): no index twice, and each with
-- its runner and its definition.
use pixel_status_nx.Prelude.{
  ℕ, zero, suc, ◌+◌, ◌≡◌, refl, ap, ◌∙◌, inl, inr, false, some, List, [], ◌∷◌, map, arith,
  Bool-cases, ◌==◌, get_elem?, take, All,
}
use mathlib.Core.Option.{some-injective}
use pixel_status_nx.Time.{TimePoint}
use pixel_status_nx.Engine.{
  Job, Engine, update_at, is_due, collect_due, runs_before, insert_due, sort_due, reschedule,
  claim_all, claim,
}
use pixel_status_nx.Engine.Flags.{collect_due-All, insert_due-All, sort_due-All}

-- A list in which no number stands twice.
abbrev pub AllApart : ℕ → List ℕ → Type 0
AllApart i = All (λ j. (j == i) ≡ false)

abbrev pub NoRepeat : List ℕ → Type 0
NoRepeat [] = Unit
NoRepeat (i ∷ rest) = AllApart i rest × NoRepeat rest

module _ {D R : Type 0} where
  -- The same for the indices of a due list.
  abbrev Apart : List (ℕ × Job D R) → Type 0
  Apart [] = Unit
  Apart (e ∷ rest) = All (λ f. (f.0 == e.0) ≡ false) rest × Apart rest

  collect_due-Apart :
      (now : TimePoint) (index : ℕ) (jobs : List (Job D R)) → Apart (collect_due now index jobs)
  unfolding collect_due
  collect_due-Apart now index [] = tt
  collect_due-Apart now index (job ∷ jobs) = elim (Bool-cases (is_due now job)) [
    | inl e ↦
        rw (e, collect_due)
          (
            collect_due-All (λ k. (k == index) ≡ false) now (index + 1) jobs
                (λ k job' at due. later index k),
            collect_due-Apart now (index + 1) jobs,
          )
    | inr e ↦ rw (e, collect_due) (collect_due-Apart now (index + 1) jobs)
  ]
    where
      later : (index k : ℕ) → (index + 1 + k) == index ≡ false
      later index k = ground arith

  insert_due-Apart :
      (e : ℕ × Job D R) (es : List (ℕ × Job D R))
      → All (λ f. (f.0 == e.0) ≡ false) es
      → Apart es
      → Apart (insert_due e es)
  unfolding insert_due
  insert_due-Apart e [] h apart = (tt, tt)
  insert_due-Apart e (f ∷ es) h apart = elim (Bool-cases (runs_before f.1 e.1)) [
    | inl b ↦
        rw (b, insert_due)
          (
            insert_due-All (λ k. (k == f.0) ≡ false) e es (swap f.0 e.0 h.0) apart.0,
            insert_due-Apart e es h.1 apart.1,
          )
    | inr b ↦ rw (b, insert_due) (h, apart)
  ]
    where
      swap : (a b : ℕ) → (a == b) ≡ false → (b == a) ≡ false
      swap a b h = ground arith

  sort_due-Apart : (es : List (ℕ × Job D R)) → Apart es → Apart (sort_due es)
  unfolding sort_due
  sort_due-Apart [] apart = tt
  sort_due-Apart (e ∷ es) apart =
      insert_due-Apart e (sort_due es) (sort_due-All (λ k. (k == e.0) ≡ false) es apart.0)
        (sort_due-Apart es apart.1)

  taken-AllApart :
      (i n : ℕ) (es : List (ℕ × Job D R))
      → All (λ f. (f.0 == i) ≡ false) es
      → AllApart i (map (λ e. e.0) (take n es))
  taken-AllApart i zero es all = tt
  taken-AllApart i (suc n) [] all = tt
  taken-AllApart i (suc n) (e ∷ es) all = (all.0, taken-AllApart i n es all.1)

  taken-NoRepeat :
      (n : ℕ) (es : List (ℕ × Job D R)) → Apart es → NoRepeat (map (λ e. e.0) (take n es))
  taken-NoRepeat zero es apart = tt
  taken-NoRepeat (suc n) [] apart = tt
  taken-NoRepeat (suc n) (e ∷ es) apart =
      (taken-AllApart e.0 n es apart.0, taken-NoRepeat n es apart.1)

  pub claim-NoRepeat :
      (now : TimePoint) (maximum_runs : ℕ) (engine : Engine D R)
      → NoRepeat (claim now maximum_runs engine).2
  unfolding claim
  claim-NoRepeat now maximum_runs engine =
      taken-NoRepeat _ _ (sort_due-Apart _ (collect_due-Apart now 0 engine.jobs))

  -- A job with the same definition and the same runner.
  pub record SameWork (job job' : Job D R) : Type 0 where
    pub same_definition : job'.definition ≡ job.definition
    pub same_runner : job'.runner ≡ job.runner

  reschedule_at :
      (now : TimePoint) (j i : ℕ) (jobs : List (Job D R)) {job : Job D R}
      → get_elem? jobs i ≡ some job
      → (job' : Job D R) × (get_elem? (update_at jobs j (reschedule now)) i ≡ some job')
        × SameWork job job'
  unfolding update_at reschedule
  reschedule_at now j i [] h = cc h
  reschedule_at now zero zero (x ∷ jobs) {job} h = (
    reschedule now x,
    refl,
    record {
      same_definition = ap (λ (j : Job D R). j.definition) (some-injective _ _ h);
      same_runner = ap (λ (j : Job D R). j.runner) (some-injective _ _ h);
    },
  )
  reschedule_at now zero (suc i) (x ∷ jobs) {job} h =
      (job, h, record { same_definition = refl; same_runner = refl })
  reschedule_at now (suc j) zero (x ∷ jobs) {job} h =
      (job, h, record { same_definition = refl; same_runner = refl })
  reschedule_at now (suc j) (suc i) (x ∷ jobs) h = reschedule_at now j i jobs h

  claim_all_at :
      (now : TimePoint) (taken : List ℕ) (i : ℕ) (jobs : List (Job D R)) {job : Job D R}
      → get_elem? jobs i ≡ some job
      → (job' : Job D R) × (get_elem? (claim_all now taken jobs) i ≡ some job') × SameWork job job'
  unfolding claim_all
  claim_all_at now [] i jobs {job} h =
      (job, h, record { same_definition = refl; same_runner = refl })
  claim_all_at now (j ∷ taken) i jobs h =
      let (job', at, same) = reschedule_at now j i jobs h in
      let (job'', at', same') = claim_all_at now taken i (update_at jobs j (reschedule now)) at in
      (
        job'',
        at',
        record {
          same_definition = same'.same_definition ∙ same.same_definition;
          same_runner = same'.same_runner ∙ same.same_runner;
        },
      )

  pub claim_at :
      (now : TimePoint) (maximum_runs : ℕ) (engine : Engine D R) (i : ℕ) {job : Job D R}
      → get_elem? engine.jobs i ≡ some job
      → (job' : Job D R) × (get_elem? (claim now maximum_runs engine).0.jobs i ≡ some job')
        × SameWork job job'
  unfolding claim
  claim_at now maximum_runs engine i h =
      claim_all_at now (claim now maximum_runs engine).2 i engine.jobs h

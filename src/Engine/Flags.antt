-- ===== src/Engine/Flags.antt =====
-- The `in_flight` flags of the jobs through `claim`, the loop and the handler of `run_due`.
use pixel_status_nx.Prelude.{
  ℕ, zero, suc, ◌+◌, ◌≡◌, refl, sym, ap, ◌∙◌, subst, inl, inr, Bool, true, false, Option, none,
  some, List, [], ◌∷◌, map, arith, Bool-cases, Option-cases, ◌==◌, ==_iff, if◌then◌else◌, get_elem?,
  take, any_of, All,
}
use pixel_status_nx.Floating.{Floating}
use pixel_status_nx.Time.{TimePoint}
use pixel_status_nx.Monitor.{RunOutcome}
use pixel_status_nx.Engine.{
  Job, Engine, PumpReport, update_at, is_due, collect_due, runs_before, insert_due, sort_due,
  reschedule, claim_all, claim, release, release_all,
}
use pixel_status_nx.Engine.Run.{fresh_report, called, call_runner, execute, execute_all, run_due}

abbrev pub member : ℕ → List ℕ → Bool
member i = any_of (λ j. i == j)

-- A flag, set where the job is there.
abbrev put : Option Bool → Bool → Option Bool
put none b = none
put (some a) b = some b

All-member : (P : ℕ → Type 0) (i : ℕ) (taken : List ℕ) → All P taken → member i taken ≡ true → P i
All-member P i [] all h = absurd (ground arith)
All-member P i (j ∷ taken) all h = elim (Bool-cases (i == j)) [
  | inl e ↦ subst P (sym ((==_iff i j).0 e)) all.0
  | inr e ↦ All-member P i taken all.1 (rw e at h)
]

-- A flag that was clear, set and cleared, is clear.
restored :
    (taken : Bool) (before claimed : Option Bool)
    → claimed ≡ (if taken then some true else before)
    → (taken ≡ true → before ≡ some false)
    → (if taken then put claimed false else claimed) ≡ before
restored true before claimed h k = rw (h, k refl) refl
restored false before claimed h k = h

module _ {D R : Type 0} where
  -- The flag of the job at an index.
  unfoldable pub flag : List (Job D R) → ℕ → Option Bool
  flag jobs i = elim (get_elem? jobs i) [ none ↦ none | some job ↦ some job.in_flight ]

  flag-update_at :
      (jobs : List (Job D R)) (j i : ℕ) (f : Job D R → Job D R) (b : Bool)
      → ((job : Job D R) → (f job).in_flight ≡ b)
      → flag (update_at jobs j f) i ≡ (if i == j then put (flag jobs i) b else flag jobs i)
  unfolding flag update_at
  flag-update_at [] j i f b h = ground arith
  flag-update_at (job ∷ jobs) zero zero f b h = ground (arith, h job)
  flag-update_at (job ∷ jobs) zero (suc i) f b h = ground arith
  flag-update_at (job ∷ jobs) (suc j) zero f b h = ground arith
  flag-update_at (job ∷ jobs) (suc j) (suc i) f b h = ground (arith, flag-update_at jobs j i f b h)

  -- A change that keeps the flag.
  flag-update_at_keep :
      (jobs : List (Job D R)) (j i : ℕ) (f : Job D R → Job D R)
      → ((job : Job D R) → (f job).in_flight ≡ job.in_flight)
      → flag (update_at jobs j f) i ≡ flag jobs i
  unfolding flag update_at
  flag-update_at_keep [] j i f h = refl
  flag-update_at_keep (job ∷ jobs) zero zero f h = ap some (h job)
  flag-update_at_keep (job ∷ jobs) zero (suc i) f h = refl
  flag-update_at_keep (job ∷ jobs) (suc j) zero f h = refl
  flag-update_at_keep (job ∷ jobs) (suc j) (suc i) f h = flag-update_at_keep jobs j i f h

  flag-claim_all :
      (now : TimePoint) (taken : List ℕ) (jobs : List (Job D R)) (i : ℕ)
      → flag (claim_all now taken jobs) i
        ≡ (if member i taken then put (flag jobs i) true else flag jobs i)
  unfolding claim_all
  flag-claim_all now [] jobs i = refl
  flag-claim_all now (j ∷ taken) jobs i = ground (
    arith,
    flag-claim_all now taken (update_at jobs j (reschedule now)) i,
    flag-update_at jobs j i (reschedule now) true (λ job. unfold reschedule in refl),
  )

  flag-release_all :
      (taken : List ℕ) (jobs : List (Job D R)) (i : ℕ)
      → flag (release_all taken jobs) i
        ≡ (if member i taken then put (flag jobs i) false else flag jobs i)
  unfolding release_all
  flag-release_all [] jobs i = refl
  flag-release_all (j ∷ taken) jobs i = ground (
    arith,
    flag-release_all taken (update_at jobs j release) i,
    flag-update_at jobs j i release false (λ job. unfold release in refl),
  )

  -- What holds of each index whose job is due holds of each entry of the due list.
  pub collect_due-All :
      (P : ℕ → Type 0) (now : TimePoint) (index : ℕ) (jobs : List (Job D R))
      → ((k : ℕ) (job : Job D R)
          → get_elem? jobs k ≡ some job
          → is_due now job ≡ true
          → P (index + k))
      → All (λ e. P e.0) (collect_due now index jobs)
  unfolding collect_due
  collect_due-All P now index [] h = tt
  collect_due-All P now index (job ∷ jobs) h =
      let later : All (λ e. P e.0) (collect_due now (index + 1) jobs) =
        collect_due-All P now (index + 1) jobs
          (λ k job' at due. subst P (omega arith) (h (suc k) job' at due)) in
      elim (Bool-cases (is_due now job)) [
        | inl e ↦ rw (e, collect_due) (subst P (omega arith) (h 0 job refl e), later)
        | inr e ↦ rw (e, collect_due) later
      ]

  pub insert_due-All :
      (P : ℕ → Type 0) (e : ℕ × Job D R) (es : List (ℕ × Job D R))
      → P e.0
      → All (λ e. P e.0) es
      → All (λ e. P e.0) (insert_due e es)
  unfolding insert_due
  insert_due-All P e [] h all = (h, tt)
  insert_due-All P e (f ∷ es) h all =
      let later = insert_due-All P e es h all.1 in
      elim (Bool-cases (runs_before f.1 e.1)) [
        | inl b ↦ rw (b, insert_due) (all.0, later)
        | inr b ↦ rw (b, insert_due) (h, (all.0, all.1))
      ]

  pub sort_due-All :
      (P : ℕ → Type 0) (es : List (ℕ × Job D R))
      → All (λ e. P e.0) es
      → All (λ e. P e.0) (sort_due es)
  unfolding sort_due
  sort_due-All P [] all = tt
  sort_due-All P (e ∷ es) all = insert_due-All P e (sort_due es) all.0 (sort_due-All P es all.1)

  map-take-All :
      (P : ℕ → Type 0) (n : ℕ) (es : List (ℕ × Job D R))
      → All (λ e. P e.0) es
      → All P (map (λ e. e.0) (take n es))
  map-take-All P zero es all = tt
  map-take-All P (suc n) [] all = tt
  map-take-All P (suc n) (e ∷ es) all = (all.0, map-take-All P n es all.1)

  -- What holds of each index whose job is due holds of the indices that a call claims.
  pub claim-All :
      (P : ℕ → Type 0) (now : TimePoint) (maximum_runs : ℕ) (engine : Engine D R)
      → ((k : ℕ) (job : Job D R) → get_elem? engine.jobs k ≡ some job → is_due now job ≡ true → P k)
      → All P (claim now maximum_runs engine).2
  unfolding claim
  claim-All P now maximum_runs engine h = map-take-All P _ _ (
      sort_due-All P _ (
        collect_due-All P now 0 engine.jobs
          (λ k job at due. subst P (omega arith) (h k job at due))))

  due-flag :
      (now : TimePoint) (jobs : List (Job D R)) (k : ℕ) (job : Job D R)
      → get_elem? jobs k ≡ some job
      → is_due now job ≡ true
      → flag jobs k ≡ some false
  unfolding flag is_due
  due-flag now jobs k job at due = ground arith

  -- No call claims a job that is in flight.
  pub claim_idle :
      (now : TimePoint) (maximum_runs : ℕ) (engine : Engine D R)
      → All (λ i. flag engine.jobs i ≡ some false) (claim now maximum_runs engine).2
  claim_idle now maximum_runs engine =
      claim-All (λ i. flag engine.jobs i ≡ some false) now maximum_runs engine
        (due-flag now engine.jobs)

  jobs-claim :
      (now : TimePoint) (maximum_runs : ℕ) (engine : Engine D R)
      → (claim now maximum_runs engine).0.jobs
        ≡ claim_all now (claim now maximum_runs engine).2 engine.jobs
  unfolding claim
  jobs-claim now maximum_runs engine = refl

  -- After a claim exactly the claimed jobs have got the flag, and they had not had it.
  pub flag-claim :
      (now : TimePoint) (maximum_runs : ℕ) (engine : Engine D R) (i : ℕ)
      → let c = claim now maximum_runs engine in
        (flag c.0.jobs i ≡ (if member i c.2 then some true else flag engine.jobs i))
        × (member i c.2 ≡ true → flag engine.jobs i ≡ some false)
  flag-claim now maximum_runs engine i =
      let idle =
        All-member (λ i. flag engine.jobs i ≡ some false) i _
          (claim_idle now maximum_runs engine) in
      (
        rw (jobs-claim now maximum_runs engine) (
            ground
              (arith, flag-claim_all now (claim now maximum_runs engine).2 engine.jobs i, idle)),
        idle,
      )

module _ (fl : Floating) {R : Type 0} (run : R → TimePoint → RunOutcome fl.Double × R) where
  flag-execute :
      (now : TimePoint) (j : ℕ) (s : Engine fl.Double R × PumpReport) (i : ℕ)
      → flag (execute fl run now j s).0.jobs i
        ≡ (if i == j then put (flag s.0.jobs i) false else flag s.0.jobs i)
  unfolding execute
  flag-execute now j (engine, report) i = elim (Option-cases (get_elem? engine.jobs j)) [
    | inl e ↦ rw (e, execute) (missing e)
    | inr (job, e) ↦
        rw (e, execute) (flag-update_at engine.jobs j i _ false (λ _. unfold release in refl))
  ]
    where
      missing :
          get_elem? engine.jobs j ≡ none
          → flag engine.jobs i
            ≡ (if i == j then put (flag engine.jobs i) false else flag engine.jobs i)
      missing e = elim (Bool-cases (i == j)) [
        | inl p ↦ rw (p, (==_iff i j).0 p) (unfold flag in rw (e, flag))
        | inr p ↦ rw p refl
      ]

  flag-called :
      (now : TimePoint) (j : ℕ) (jobs : List (Job fl.Double R)) (i : ℕ)
      → flag (called fl run now j jobs) i ≡ flag jobs i
  unfolding called
  flag-called now j jobs i =
      flag-update_at_keep jobs j i (λ job. (call_runner fl run now job).2)
        (λ job. unfold call_runner in refl)

  flag-execute_all :
      (throws : Option ℕ) (now : TimePoint) (taken : List ℕ) (s : Engine fl.Double R × PumpReport)
      (i : ℕ)
      → flag (execute_all fl run throws now taken s).0.jobs i
        ≡ (if member i taken then put (flag s.0.jobs i) false else flag s.0.jobs i)
  unfolding execute_all
  flag-execute_all throws now [] s i = refl
  flag-execute_all none now (j ∷ taken) s i =
      ground
        (arith, flag-execute_all none now taken (execute fl run now j s) i, flag-execute now j s i)
  flag-execute_all (some (suc k)) now (j ∷ taken) s i = ground (
    arith,
    flag-execute_all (some k) now taken (execute fl run now j s) i,
    flag-execute now j s i,
  )
  flag-execute_all (some zero) now (j ∷ taken) (engine, report) i =
      flag-release_all (j ∷ taken) (called fl run now j engine.jobs) i
      ∙ rw (flag-called now j engine.jobs i) refl

  -- A call of run_due, also one whose loop throws at any iteration, ends with the in-flight flag
  -- of every job as it was before.
  pub flag-run_due :
      (throws : Option ℕ) (now : TimePoint) (maximum_runs : ℕ) (engine : Engine fl.Double R) (i : ℕ)
      → flag (run_due fl run throws now maximum_runs engine).0.jobs i ≡ flag engine.jobs i
  unfolding run_due
  flag-run_due throws now maximum_runs engine i =
      let c = claim now maximum_runs engine in
      flag-execute_all throws now c.2 (c.0, fresh_report c.1) i
      ∙ restored (member i c.2) (flag engine.jobs i) (flag c.0.jobs i)
          (flag-claim now maximum_runs engine i).0 (flag-claim now maximum_runs engine i).1

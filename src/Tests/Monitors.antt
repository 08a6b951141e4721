-- ===== src/Tests/Monitors.antt =====
-- The theorems on the store, the evaluator and the engine at concrete inputs.
use pixel_status_nx.Prelude.{
  ℕ, ◌≡◌, refl, ◌⊎◌, true, false, not, ◌&&◌, none, some, [], str, text_eq, ℤ, pos, ◌<ℤ◌, ◌≤ℤ◌, ◌*◌,
  arith, if◌then◌else◌, length, All,
}
use pixel_status_nx.Time.{add_duration}
use pixel_status_nx.Validation.{is_valid_identifier}
use pixel_status_nx.State.{
  ResolvedState, resolve, find, find_entry, is_over, stale, upsert, snapshot, store_size,
}
use pixel_status_nx.State.Laws.{acceptable, shown_since, find-upsert, resolve-upsert}
use pixel_status_nx.State.Snapshot.{
  IsStore, empty-IsStore, upsert-IsStore, IsAscending, snapshot-IsAscending,
}
use pixel_status_nx.Evaluator.{
  validate, validate_rules, condition_error, validate_condition, evaluate,
}
use pixel_status_nx.Evaluator.Validity.{
  IsName, IsPolicy, IsAnswer, validate-IsPolicy, evaluate-IsName, evaluate_first,
}
use pixel_status_nx.Engine.{reschedule}
use pixel_status_nx.Engine.Run.{run_due, published}
use pixel_status_nx.Engine.Schedule.{reschedule_after}
use pixel_status_nx.Engine.Registry.{definitions, IsDefinition, IsRegistry, add-IsRegistry}
use pixel_status_nx.Engine.Flags.{flag, flag-run_due}
use pixel_status_nx.Engine.Pump.{upsert-published}
use pixel_status_nx.Tests.Samples.{
  integers, door, healthy, door_state, one_state, policy, result, probe, runner, no_jobs, one_job,
  due_job,
}

find-upsert_example :
    ((upsert one_state door_state).1 ≡ acceptable door_state)
    × (find (upsert one_state door_state).0 door ≡ (
        if acceptable door_state && text_eq door door
        then some door_state
        else find one_state door))
find-upsert_example = find-upsert one_state door_state door

resolve-upsert_example :
    (r : ResolvedState ℤ) × (resolve (upsert one_state door_state).0 door (pos 7) ≡ some r)
    × (r.state ≡ door_state)
    × (r.freshness_expired ≡ is_over (pos 0) (some (pos 5000)) (pos 7))
    × (r.effective_status ≡ (if is_over (pos 0) (some (pos 5000)) (pos 7) then stale else healthy))
    × (r.status_entered_at
        ≡ shown_since door_state
            (elim (find_entry door one_state) [
              | none ↦ pos 0
              | some old ↦
                  if text_eq old.state.status healthy
                    && not (is_over old.state.updated_at old.state.ttl (pos 0))
                  then old.status_entered_at
                  else pos 0
            ])
            (pos 7))
unfolding str
resolve-upsert_example = resolve-upsert one_state door_state (pos 7) refl

one_state-IsStore : IsStore one_state
one_state-IsStore = upsert-IsStore [] door_state empty-IsStore

upsert-IsStore_example : IsStore (upsert one_state door_state).0
upsert-IsStore_example = upsert-IsStore one_state door_state one_state-IsStore

snapshot-IsAscending_example :
    IsAscending (snapshot one_state (pos 7))
    × (length (snapshot one_state (pos 7)) ≡ store_size one_state)
    × All (λ r. resolve one_state r.state.id (pos 7) ≡ some r) (snapshot one_state (pos 7))
snapshot-IsAscending_example = snapshot-IsAscending one_state (pos 7) one_state-IsStore

policy_valid : validate integers policy ≡ none
unfolding validate validate_rules condition_error validate_condition is_valid_identifier str
policy_valid = refl

validate-IsPolicy_example : IsPolicy integers policy
validate-IsPolicy_example = validate-IsPolicy integers policy policy_valid

evaluate-IsName_example : IsName (evaluate integers result policy).status
evaluate-IsName_example =
    evaluate-IsName integers result policy (validate-IsPolicy integers policy policy_valid)

evaluate_first_example :
    let outcome = evaluate integers result policy in
    ((result.transport_success ≡ true)
      × (outcome.transport_failure ≡ false)
      × IsAnswer integers result.value policy.no_match_status 0 policy.rules outcome)
    ⊎ ((result.transport_success ≡ false)
        × (outcome.transport_failure ≡ true)
        × (outcome.status ≡ policy.transport_failure_status)
        × (outcome.matched_rule ≡ none))
evaluate_first_example = evaluate_first integers result policy

empty-IsRegistry : IsRegistry integers (definitions no_jobs.jobs)
empty-IsRegistry = record { registered = tt; distinct = tt; bounded = omega arith }

add-IsRegistry_example : IsRegistry integers (definitions one_job.jobs)
add-IsRegistry_example = add-IsRegistry integers no_jobs probe (some tt) (pos 0) empty-IsRegistry

flag-run_due_example :
    flag (run_due integers runner (some 0) (pos 5) 4 one_job).0.jobs 0 ≡ flag one_job.jobs 0
flag-run_due_example = flag-run_due integers runner (some 0) (pos 5) 4 one_job 0

probe-IsDefinition : IsDefinition integers probe
unfolding is_valid_identifier str
probe-IsDefinition = record {
  id_name = refl;
  interval_positive = refl;
  ttl_positive = refl;
  policy_holds = validate-IsPolicy integers policy policy_valid;
}

upsert-published_example : (upsert one_state (published integers probe result (pos 5))).1 ≡ true
upsert-published_example =
    upsert-published integers probe result (pos 5) one_state probe-IsDefinition

reschedule_after_example :
    (pos 5 <ℤ (reschedule (pos 5) due_job).next_due)
    × ((reschedule (pos 5) due_job).next_due ≤ℤ add_duration (pos 5) (pos 1000))
    × ((k : ℕ) × ((reschedule (pos 5) due_job).next_due ≡ add_duration (pos 0) (pos (1000 * k))))
reschedule_after_example = reschedule_after (pos 5) due_job 1000 refl (omega arith) (omega arith)

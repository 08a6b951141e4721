-- ===== src/Evaluator/Validity.antt =====
-- Validated policies (`Evaluator::validate`), and the statuses that they lead to.
use pixel_status_nx.Prelude.{
  ℕ, zero, suc, ◌+◌, ◌≡◌, refl, ap, ◌∙◌, ◌⊎◌, inl, inr, Bool, true, false, not, ◌||◌, Option, none,
  some, List, [], ◌∷◌, Text, arith, Bool-cases, length, get_elem?, is_some, All,
}
use pixel_status_nx.Floating.{Floating}
use pixel_status_nx.State.{StateValue}
use pixel_status_nx.Validation.{is_valid_identifier, maximum_identifier_bytes}
use pixel_status_nx.Monitor.{MonitorResult}
use pixel_status_nx.Evaluator.{
  EvaluationCondition, EvaluationRule, EvaluationPolicy, EvaluationOutcome, condition_error,
  validate_rules, validate, rule_fires, evaluate_rules, evaluate,
}
use pixel_status_nx.Evaluator.Operands.{HasCondition, when-HasCondition}

abbrev pub IsName : Text → Type 0
IsName name = is_valid_identifier name maximum_identifier_bytes ≡ true

-- Only the last rule may be unconditional.
abbrev pub OtherwiseLast : {D : Type 0} → List (EvaluationRule D) → Type 0
OtherwiseLast [] = Unit
OtherwiseLast (rule ∷ []) = Unit
OtherwiseLast (rule ∷ next ∷ rest) = (is_some rule.when ≡ true) × OtherwiseLast (next ∷ rest)

last_rule :
    {D : Type 0} (rule : EvaluationRule D) (rest : List (EvaluationRule D)) (index total : ℕ)
    → index + length (rule ∷ rest) ≡ total
    → (is_some rule.when ≡ true) ⊎ (index + 1 ≡ total)
    → OtherwiseLast rest
    → OtherwiseLast (rule ∷ rest)
last_rule rule [] index total e last ordered = tt
last_rule rule (next ∷ rest) index total e (inl h) ordered = (h, ordered)
last_rule rule (next ∷ rest) index total e (inr h) ordered = absurd (omega arith)

module _ (fl : Floating) where
  -- A rule whose status is a name, and whose condition has the operands of its operation.
  pub record IsRule (rule : EvaluationRule fl.Double) : Type 0 where
    pub status_name : IsName rule.status
    pub operands : HasCondition fl rule.when

  pub record IsPolicy (policy : EvaluationPolicy fl.Double) : Type 0 where
    pub failure_name : IsName policy.transport_failure_status
    pub no_match_name : IsName policy.no_match_status
    pub rules_hold : All IsRule policy.rules
    pub otherwise_last : OtherwiseLast policy.rules

  condition_error-none :
      (when : Option (EvaluationCondition fl.Double))
      → is_some when ≡ false
      → condition_error fl when ≡ none
  unfolding condition_error
  condition_error-none none h = refl
  condition_error-none (some c) h = cc

  -- What one round of the loop has checked when the loop finds no error.
  validate_rules_step :
      (total index : ℕ) (found : Bool) (rule : EvaluationRule fl.Double)
      (rest : List (EvaluationRule fl.Double))
      → validate_rules fl total index found (rule ∷ rest) ≡ none
      → IsName rule.status
        × (condition_error fl rule.when ≡ none)
        × ((is_some rule.when ≡ true) ⊎ (index + 1 ≡ total))
        × (validate_rules fl total (index + 1) (found || not (is_some rule.when)) rest ≡ none)
  unfolding validate_rules
  validate_rules_step total index found rule rest h = (
    ground arith,
    ground (arith, condition_error-none rule.when),
    ground arith,
    ground (arith, condition_error-none rule.when),
  )

  validate_rules_sound :
      (total index : ℕ) (found : Bool) (rules : List (EvaluationRule fl.Double))
      → index + length rules ≡ total
      → validate_rules fl total index found rules ≡ none
      → All IsRule rules × OtherwiseLast rules
  validate_rules_sound total index found [] e h = (tt, tt)
  validate_rules_sound total index found (rule ∷ rest) e h =
      let (name, operands, last, later) = validate_rules_step total index found rule rest h in
      let (rules_hold, ordered) =
        validate_rules_sound total (index + 1) (found || not (is_some rule.when)) rest (omega arith)
          later in
      (
        (
          record { status_name = name; operands = when-HasCondition fl rule.when operands },
          rules_hold,
        ),
        last_rule rule rest index total e last ordered,
      )

  -- A policy that validate accepts has names as its statuses, conditions with the operands of
  -- their operations, and no unconditional rule but the last.
  pub validate-IsPolicy :
      (policy : EvaluationPolicy fl.Double) → validate fl policy ≡ none → IsPolicy policy
  unfolding validate
  validate-IsPolicy policy h =
      let (rules_hold, ordered) =
        validate_rules_sound (length policy.rules) 0 false policy.rules (omega arith)
          (ground arith) in
      record {
        failure_name = ground arith;
        no_match_name = ground arith;
        rules_hold = rules_hold;
        otherwise_last = ordered;
      }

  evaluate_rules-IsName :
      (actual : StateValue fl.Double) (no_match : Text) (index : ℕ)
      (rules : List (EvaluationRule fl.Double))
      → IsName no_match
      → All IsRule rules
      → IsName (evaluate_rules fl actual no_match index rules).status
  unfolding evaluate_rules
  evaluate_rules-IsName actual no_match index [] h all = h
  evaluate_rules-IsName actual no_match index (rule ∷ rest) h all =
      elim (Bool-cases (rule_fires fl actual rule)) [
        | inl e ↦ rw (e, evaluate_rules) (all.0).status_name
        | inr e ↦
            rw (e, evaluate_rules) (evaluate_rules-IsName actual no_match (index + 1) rest h all.1)
      ]

  -- The status that a valid policy gives to any result is a name.
  pub evaluate-IsName :
      (result : MonitorResult fl.Double) (policy : EvaluationPolicy fl.Double)
      → IsPolicy policy
      → IsName (evaluate fl result policy).status
  unfolding evaluate
  evaluate-IsName result policy v = elim (Bool-cases result.transport_success) [
    | inl e ↦
        rw (e, evaluate)
          (evaluate_rules-IsName result.value policy.no_match_status 0 policy.rules v.no_match_name
            v.rules_hold)
    | inr e ↦ rw (e, evaluate) v.failure_name
  ]

  -- The rules that stand before an index, as long as there are any, do not fire.
  abbrev pub NoneBefore : StateValue fl.Double → ℕ → List (EvaluationRule fl.Double) → Type 0
  NoneBefore actual zero rules = Unit
  NoneBefore actual (suc k) [] = Unit
  NoneBefore actual (suc k) (rule ∷ rest) =
      (rule_fires fl actual rule ≡ false) × NoneBefore actual k rest

  -- The rule at a position, if its status and its position are those of an outcome.
  abbrev pub IsAnswer :
      StateValue fl.Double → Text → ℕ → List (EvaluationRule fl.Double) → EvaluationOutcome → Type 0
  IsAnswer actual no_match index rules outcome =
      ((k : ℕ) × (rule : EvaluationRule fl.Double) × (get_elem? rules k ≡ some rule)
        × (rule_fires fl actual rule ≡ true)
        × NoneBefore actual k rules
        × (outcome.status ≡ rule.status)
        × (outcome.matched_rule ≡ some (index + k)))
      ⊎ (NoneBefore actual (length rules) rules
          × (outcome.status ≡ no_match)
          × (outcome.matched_rule ≡ none))

  evaluate_rules-IsAnswer :
      (actual : StateValue fl.Double) (no_match : Text) (index : ℕ)
      (rules : List (EvaluationRule fl.Double))
      → IsAnswer actual no_match index rules (evaluate_rules fl actual no_match index rules)
  unfolding evaluate_rules
  evaluate_rules-IsAnswer actual no_match index [] = inr (tt, refl, refl)
  evaluate_rules-IsAnswer actual no_match index (rule ∷ rest) =
      let later = evaluate_rules-IsAnswer actual no_match (index + 1) rest in
      elim (Bool-cases (rule_fires fl actual rule)) [
        | inl e ↦ rw (e, evaluate_rules) (inl (0, rule, refl, e, tt, refl, ap some (omega arith)))
        | inr e ↦
            rw (e, evaluate_rules)
              (elim later [
                | inl (k, found, at, fires, before, status, matched) ↦
                    inl (
                      suc k,
                      found,
                      at,
                      fires,
                      (e, before),
                      status,
                      matched ∙ ap some (omega arith),
                    )
                | inr (before, status, matched) ↦ inr ((refl, before), status, matched)
              ])
      ]

  transported :
      (actual : StateValue fl.Double) (no_match : Text) (index : ℕ)
      (rules : List (EvaluationRule fl.Double))
      → (evaluate_rules fl actual no_match index rules).transport_failure ≡ false
  unfolding evaluate_rules
  transported actual no_match index [] = refl
  transported actual no_match index (rule ∷ rest) =
      ground (arith, transported actual no_match (index + 1) rest)

  -- A result that came through is answered by the first rule that fires, with its index, or by the
  -- no-match status if none fires; a failed transport is answered by its own status.
  pub evaluate_first :
      (result : MonitorResult fl.Double) (policy : EvaluationPolicy fl.Double)
      → let outcome = evaluate fl result policy in
        ((result.transport_success ≡ true)
          × (outcome.transport_failure ≡ false)
          × IsAnswer result.value policy.no_match_status 0 policy.rules outcome)
        ⊎ ((result.transport_success ≡ false)
            × (outcome.transport_failure ≡ true)
            × (outcome.status ≡ policy.transport_failure_status)
            × (outcome.matched_rule ≡ none))
  unfolding evaluate
  evaluate_first result policy = elim (Bool-cases result.transport_success) [
    | inl e ↦ rw (e, evaluate) (inl (refl, transported _ _ 0 _, evaluate_rules-IsAnswer _ _ 0 _))
    | inr e ↦ rw (e, evaluate) (inr (refl, refl, refl, refl))
  ]

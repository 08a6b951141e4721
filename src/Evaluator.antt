-- ===== src/Evaluator.antt =====
-- src/core/evaluator.cpp and include/pixelstatus/evaluator.hpp.
pub mod Operands
pub mod Validity
use pixel_status_nx.Prelude.{
  ℕ, ◌+◌, Bool, true, false, not, ◌&&◌, ◌||◌, Option, none, some, List, [], ◌∷◌, ◌++◌, Text, str,
  text_eq, to_string, eqb_ℤ, ◌==◌, if◌then◌else◌, is_some, length,
}
use pixel_status_nx.Floating.{Floating}
use pixel_status_nx.Search.{has_infix}
use pixel_status_nx.State.{StateValue, monostate, boolean, integer, real, string}
use pixel_status_nx.Validation.{is_valid_identifier, maximum_identifier_bytes}
use pixel_status_nx.Monitor.{MonitorResult}

pub data ComparisonOperation : Type 0 where
  exists not_exists equals not_equals contains not_contains : ComparisonOperation
  greater_than greater_or_equal less_than less_or_equal between : ComparisonOperation

pub record EvaluationCondition (D : Type 0) : Type 0 where
  pub operation : ComparisonOperation
  pub expected : StateValue D
  pub upper_bound : Option (StateValue D)

-- A rule with no condition is the `otherwise` rule.
pub record EvaluationRule (D : Type 0) : Type 0 where
  pub when : Option (EvaluationCondition D)
  pub status : Text

pub record EvaluationPolicy (D : Type 0) : Type 0 where
  pub transport_failure_status : Text
  pub no_match_status : Text
  pub rules : List (EvaluationRule D)

pub record EvaluationOutcome : Type 0 where
  pub status : Text
  pub transport_failure : Bool
  pub matched_rule : Option ℕ

module _ (fl : Floating) where
  unfoldable pub number_value : StateValue fl.Double → Option fl.LongDouble
  number_value (integer n) = some (fl.long_of_int n)
  number_value (real d) = if fl.is_finite d then some (fl.long_of_double d) else none
  number_value _ = none

  unfoldable pub is_number : StateValue fl.Double → Bool
  unfolding number_value
  is_number value = is_some (number_value value)

  -- `operator==` of the variant.
  unfoldable pub variant_equal : StateValue fl.Double → StateValue fl.Double → Bool
  variant_equal monostate monostate = true
  variant_equal (boolean true) (boolean b) = b
  variant_equal (boolean false) (boolean b) = not b
  variant_equal (integer m) (integer n) = eqb_ℤ m n
  variant_equal (real d) (real e) = fl.equal d e
  variant_equal (string s) (string t) = text_eq s t
  variant_equal _ _ = false

  -- A comparison of two numbers, false where one of them is missing.
  abbrev pub both :
      (fl.LongDouble → fl.LongDouble → Bool) → Option fl.LongDouble → Option fl.LongDouble → Bool
  both test (some a) (some b) = test a b
  both test _ _ = false

  unfoldable pub values_equal : StateValue fl.Double → StateValue fl.Double → Bool
  unfolding number_value variant_equal
  values_equal actual expected =
      if is_some (number_value actual) && is_some (number_value expected)
      then both fl.long_equal (number_value actual) (number_value expected)
      else variant_equal actual expected

  abbrev pub is_missing : StateValue fl.Double → Bool
  is_missing monostate = true
  is_missing _ = false

  -- The two `contains` cases: both values are texts, and the search has this result.
  unfoldable pub search_result : StateValue fl.Double → StateValue fl.Double → Bool → Bool
  search_result (string s) (string t) wanted = if has_infix s t then wanted else not wanted
  search_result _ _ wanted = false

  -- The bounds of `between`.
  abbrev pub within : Option fl.LongDouble → Option fl.LongDouble → Option fl.LongDouble → Bool
  within (some a) (some lower) (some upper) = fl.long_less_eq lower a && fl.long_less_eq a upper
  within _ _ _ = false

  unfoldable pub upper_number : Option (StateValue fl.Double) → Option fl.LongDouble
  unfolding number_value
  upper_number none = none
  upper_number (some upper) = number_value upper

  matches : ComparisonOperation → StateValue fl.Double → EvaluationCondition fl.Double → Bool
  unfolding number_value values_equal search_result upper_number
  matches exists actual c = not (is_missing actual)
  matches not_exists actual c = is_missing actual
  matches equals actual c = values_equal actual c.expected
  matches not_equals actual c = not (values_equal actual c.expected)
  matches contains actual c = search_result actual c.expected true
  matches not_contains actual c = search_result actual c.expected false
  matches greater_than actual c =
      both (λ a b. fl.long_less b a) (number_value actual) (number_value c.expected)
  matches greater_or_equal actual c =
      both (λ a b. fl.long_less_eq b a) (number_value actual) (number_value c.expected)
  matches less_than actual c = both fl.long_less (number_value actual) (number_value c.expected)
  matches less_or_equal actual c =
      both fl.long_less_eq (number_value actual) (number_value c.expected)
  matches between actual c =
      within (number_value actual) (number_value c.expected) (upper_number c.upper_bound)

  unfoldable pub condition_matches : StateValue fl.Double → EvaluationCondition fl.Double → Bool
  unfolding matches
  condition_matches actual condition = matches condition.operation actual condition

  abbrev pub is_text : StateValue fl.Double → Bool
  is_text (string s) = true
  is_text _ = false

  abbrev no_operands : EvaluationCondition fl.Double → Option Text
  no_operands c =
      if not (is_missing c.expected) || is_some c.upper_bound
      then some (str "exists comparisons do not accept operands")
      else none

  abbrev one_operand : EvaluationCondition fl.Double → Option Text
  one_operand c =
      if is_some c.upper_bound then some (str "equality comparisons accept one operand") else none

  abbrev one_text : EvaluationCondition fl.Double → Option Text
  one_text c =
      if not (is_text c.expected) || is_some c.upper_bound
      then some (str "contains comparisons require one string operand")
      else none

  abbrev one_number : EvaluationCondition fl.Double → Option Text
  one_number c =
      if not (is_number c.expected) || is_some c.upper_bound
      then some (str "ordered comparisons require one numeric operand")
      else none

  abbrev two_numbers : EvaluationCondition fl.Double → Option Text
  two_numbers c =
      if not (is_number c.expected) || not (is_some (upper_number c.upper_bound))
      then some (str "between requires numeric lower and upper bounds")
      else (if both (λ lower upper. fl.long_less upper lower) (number_value c.expected)
            (upper_number c.upper_bound)
          then some (str "between lower bound must not exceed its upper bound")
          else none)

  unfoldable pub check_operands : ComparisonOperation → EvaluationCondition fl.Double → Option Text
  unfolding is_number upper_number number_value
  check_operands exists c = no_operands c
  check_operands not_exists c = no_operands c
  check_operands equals c = one_operand c
  check_operands not_equals c = one_operand c
  check_operands contains c = one_text c
  check_operands not_contains c = one_text c
  check_operands between c = two_numbers c
  check_operands _ c = one_number c

  unfoldable pub validate_condition : EvaluationCondition fl.Double → Option Text
  unfolding check_operands
  validate_condition condition = check_operands condition.operation condition

  unfoldable pub condition_error : Option (EvaluationCondition fl.Double) → Option Text
  condition_error none = none
  condition_error (some condition) = validate_condition condition

  -- The loop over the rules that are left, at an index of `total` rules.
  unfoldable pub validate_rules : ℕ → ℕ → Bool → List (EvaluationRule fl.Double) → Option Text
  unfolding condition_error
  validate_rules total index found_otherwise [] = none
  validate_rules total index found_otherwise (rule ∷ rest) =
      let later =
        validate_rules total (index + 1) (found_otherwise || not (is_some rule.when)) rest in
      if not (is_valid_identifier rule.status maximum_identifier_bytes)
      then some (str "evaluation rule " ++ to_string index ++ str " has an invalid status")
      else if not (is_some rule.when)
      then (if found_otherwise || not (index + 1 == total)
          then some (str "otherwise must be the final and only unconditional rule")
          else later)
      else elim (condition_error rule.when) [
        | some error ↦ some (str "evaluation rule " ++ to_string index ++ str ": " ++ error)
        | none ↦ later
      ]

  unfoldable pub validate : EvaluationPolicy fl.Double → Option Text
  validate policy =
      if not (is_valid_identifier policy.transport_failure_status maximum_identifier_bytes)
      then some (str "transport failure status is invalid")
      else if not (is_valid_identifier policy.no_match_status maximum_identifier_bytes)
      then some (str "no-match status is invalid")
      else validate_rules (length policy.rules) 0 false policy.rules

  -- Whether a rule fires on a value.
  unfoldable pub rule_fires : StateValue fl.Double → EvaluationRule fl.Double → Bool
  rule_fires actual rule = elim rule.when [
    | none ↦ true
    | some condition ↦ condition_matches actual condition
  ]

  -- The loop of `evaluate`, from an index.
  unfoldable pub evaluate_rules :
      StateValue fl.Double → Text → ℕ → List (EvaluationRule fl.Double) → EvaluationOutcome
  evaluate_rules actual no_match index [] = record {
    status = no_match;
    transport_failure = false;
    matched_rule = none;
  }
  evaluate_rules actual no_match index (rule ∷ rest) =
      let later = evaluate_rules actual no_match (index + 1) rest in
      if rule_fires actual rule
      then record { status = rule.status; transport_failure = false; matched_rule = some index }
      else later

  unfoldable pub evaluate : MonitorResult fl.Double → EvaluationPolicy fl.Double → EvaluationOutcome
  evaluate result policy =
      if not result.transport_success
      then record {
        status = policy.transport_failure_status;
        transport_failure = true;
        matched_rule = none;
      }
      else evaluate_rules result.value policy.no_match_status 0 policy.rules

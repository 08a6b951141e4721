-- ===== src/Loader/Policies.antt =====
-- The evaluation policies of monitors (`scalar_state_value`, `parse_evaluation_condition` and
-- `parse_evaluation_policy` of src/core/config.cpp).
use pixel_status_nx.Prelude.{
  ℕ, ◌+◌, Bool, true, false, ◌&&◌, Option, none, some, List, [], ◌∷◌, ◌++◌, Text, str, pos, ltb,
  leb, if◌then◌else◌, length, is_some,
}
use pixel_status_nx.FromChars.{int64_max}
use pixel_status_nx.Floating.{Floating}
use pixel_status_nx.State.{StateValue, monostate, boolean, integer, real, string}
use pixel_status_nx.Appearance.{TimelineAppearance}
use pixel_status_nx.Evaluator.{
  ComparisonOperation, exists, not_exists, equals, not_equals, contains, not_contains, greater_than,
  greater_or_equal, less_than, less_or_equal, between, EvaluationCondition, EvaluationRule,
  EvaluationPolicy, validate,
}
use pixel_status_nx.Config.{find_text}
use pixel_status_nx.Json.{
  JsonView, JsonLibrary, null_view, boolean_view, unsigned_view, integer_view, float_view,
  string_view,
}
use pixel_status_nx.Loader.{
  Load, succeed, refuse, attempt, or_refuse, ◌>>=◌, ◌>>◌, ◌⊗◌, value_or, guard, check,
}
use pixel_status_nx.Loader.Limits.{maximum_monitor_rules}
use pixel_status_nx.Loader.Fields.{
  field_path, element_path, is_name, only_field, array_of, object_of, is_true,
  reject_unknown_fields, field_as, required_identifier, optional_identifier,
}

abbrev pub Statuses : Type 0
Statuses = List (Text × TimelineAppearance)

unfoldable pub comparison_operation : Text → Option ComparisonOperation
comparison_operation name =
    if is_name name "exists"
    then some exists
    else if is_name name "not_exists"
    then some not_exists
    else if is_name name "equals"
    then some equals
    else if is_name name "not_equals"
    then some not_equals
    else if is_name name "contains"
    then some contains
    else if is_name name "not_contains"
    then some not_contains
    else if is_name name "greater_than"
    then some greater_than
    else if is_name name "greater_or_equal"
    then some greater_or_equal
    else if is_name name "less_than"
    then some less_than
    else if is_name name "less_or_equal"
    then some less_or_equal
    else if is_name name "between"
    then some between
    else none

unfoldable pub status_is_defined : Text → Statuses → Bool
status_is_defined status statuses = is_some (find_text status statuses)

module _ (fl : Floating) (json : JsonLibrary fl.Double) where
  open json use {Json, view}

  unfoldable pub scalar_state_value : JsonView fl.Double Json → Text → Load (StateValue fl.Double)
  unfolding succeed refuse
  scalar_state_value null_view path = succeed monostate
  scalar_state_value (boolean_view b) path = succeed (boolean b)
  scalar_state_value (unsigned_view n) path =
      if ltb int64_max n
      then refuse (path ++ str " integer is out of range")
      else succeed (integer (pos n))
  scalar_state_value (integer_view n) path = succeed (integer n)
  scalar_state_value (float_view d) path =
      if fl.is_finite d then succeed (real d) else refuse (path ++ str " number must be finite")
  scalar_state_value (string_view text) path = succeed (string text)
  scalar_state_value _ path = refuse (path ++ str " must be a scalar JSON value")

  abbrev condition_of :
      ComparisonOperation
      → StateValue fl.Double
      → Option (StateValue fl.Double)
      → EvaluationCondition fl.Double
  condition_of operation expected upper = record {
    operation = operation;
    expected = expected;
    upper_bound = upper;
  }

  -- The two elements of the bounds.
  abbrev two_elements : Option (List Json) → Option (Json × Json)
  two_elements (some (lower ∷ upper ∷ [])) = some (lower, upper)
  two_elements _ = none

  unfoldable pub parse_bounds : Json → Text → Load (EvaluationCondition fl.Double)
  unfolding or_refuse scalar_state_value succeed
  parse_bounds value path = do
    (lower_field, upper_field) ←
        or_refuse (two_elements (array_of fl json (view value)))
          (path ++ str " must contain two numeric bounds")
    (lower, upper) ←
        scalar_state_value (view lower_field) (element_path path 0)
        ⊗ scalar_state_value (view upper_field) (element_path path 1)
    succeed (condition_of between lower (some upper))

  unfoldable pub parse_presence :
      ComparisonOperation → Json → Text → Load (EvaluationCondition fl.Double)
  unfolding guard succeed ◌>>◌
  parse_presence operation value path = do
    guard (is_true fl json (view value)) (path ++ str " must be true")
    succeed (condition_of operation monostate none)

  unfoldable pub parse_operand :
      ComparisonOperation → Json → Text → Load (EvaluationCondition fl.Double)
  unfolding parse_bounds parse_presence scalar_state_value succeed
  parse_operand exists value path = parse_presence exists value path
  parse_operand not_exists value path = parse_presence not_exists value path
  parse_operand between value path = parse_bounds value path
  parse_operand operation value path = do
    operand ← scalar_state_value (view value) path
    succeed (condition_of operation operand none)

  -- The object that stands alone under `value`.
  abbrev comparison_of : Option (Text × Json) → Option (Text × Json)
  comparison_of none = none
  comparison_of (some (name, value)) =
      if is_name name "value" then only_field (object_of fl json (view value)) else none

  unfoldable pub parse_evaluation_condition : Json → Text → Load (EvaluationCondition fl.Double)
  unfolding comparison_operation or_refuse parse_operand
  parse_evaluation_condition when path = do
    (name, operand) ←
        or_refuse (comparison_of (only_field (object_of fl json (view when))))
          (path ++ str " must contain exactly one value comparison")
    operation ←
        or_refuse (comparison_operation name)
          (field_path path "value" ++ str " contains an unknown comparison")
    parse_operand operation operand (field_path path "value" ++ b'.' ∷ name)

  unfoldable pub parse_when : List (Text × Json) → Json → Text → Load (EvaluationRule fl.Double)
  unfolding reject_unknown_fields required_identifier parse_evaluation_condition succeed ◌>>◌
  parse_when rule when path = do
    reject_unknown_fields fl json rule ("when" ∷ "status" ∷ []) path
    (status, condition) ←
        required_identifier fl json rule "status" path
        ⊗ parse_evaluation_condition when (field_path path "when")
    succeed (record { when = some condition; status = status })

  unfoldable pub parse_otherwise :
      List (Text × Json) → Json → Text → Load (EvaluationRule fl.Double)
  unfolding reject_unknown_fields required_identifier or_refuse succeed ◌>>◌
  parse_otherwise rule otherwise path = do
    reject_unknown_fields fl json rule ("otherwise" ∷ []) path
    fields ←
        or_refuse (object_of fl json (view otherwise))
          (field_path path "otherwise" ++ str " must be an object")
    reject_unknown_fields fl json fields ("status" ∷ []) (field_path path "otherwise")
    status ← required_identifier fl json fields "status" (field_path path "otherwise")
    succeed (record { when = none; status = status })

  -- One round of the loop over the rules: the rule that is pushed, or none after an error.
  unfoldable pub parse_rule : Json → Text → Load (EvaluationRule fl.Double)
  unfolding parse_when parse_otherwise or_refuse refuse
  parse_rule value path = do
    rule ← or_refuse (object_of fl json (view value)) (path ++ str " must be an object")
    elim (find_text (str "when") rule) [
      | some when ↦ parse_when rule when path
      | none ↦ elim (find_text (str "otherwise") rule) [
        | some otherwise ↦ parse_otherwise rule otherwise path
        | none ↦ refuse (path ++ str " must define when or otherwise")
      ]
    ]

  unfoldable pub parse_rules : Text → ℕ → List Json → Load (List (EvaluationRule fl.Double))
  unfolding parse_rule attempt succeed
  parse_rules path index [] = succeed []
  parse_rules path index (value ∷ rest) = do
    rule ← attempt (parse_rule value (element_path path index))
    rules ← parse_rules path (index + 1) rest
    succeed (elim rule [ none ↦ rules | some r ↦ r ∷ rules ])

  -- The loop over the statuses of the rules, which returns nothing.
  unfoldable pub check_rules :
      Statuses → Text → ℕ → List (EvaluationRule fl.Double) → Load (Unit {0})
  unfolding status_is_defined check succeed
  check_rules statuses path index [] = succeed tt
  check_rules statuses path index (rule ∷ rest) = do
    known ←
        check (status_is_defined rule.status statuses)
          (element_path path index ++ str " refers to an undefined status")
    check_rules statuses path (index + 1) rest

  abbrev pub is_accepted : Option Text → Bool
  is_accepted none = true
  is_accepted (some error) = false

  abbrev error_text : Option Text → Text
  error_text none = []
  error_text (some error) = error

  unfoldable pub parse_evaluation_policy :
      List (Text × Json) → Text → Statuses → Load (EvaluationPolicy fl.Double)
  unfolding optional_identifier attempt or_refuse guard parse_rules validate status_is_defined check
      check_rules succeed ◌>>◌
  parse_evaluation_policy monitor path statuses =
      let evaluate_path = field_path path "evaluate" in
      let message = evaluate_path ++ str " must contain between 1 and 32 rules" in
      do
        failure ← attempt (optional_identifier fl json monitor "transport_failure_status" path)
        no_match ← attempt (optional_identifier fl json monitor "no_match_status" path)
        evaluate ← or_refuse (field_as fl json (array_of fl json) monitor "evaluate") message
        guard (leb 1 (length evaluate) && leb (length evaluate) maximum_monitor_rules) message
        rules ← parse_rules evaluate_path 0 evaluate
        policy ← succeed (record {
          transport_failure_status = value_or (str "communication_failure") failure;
          no_match_status = value_or (str "unknown") no_match;
          rules = rules;
        })
        guard (is_accepted (validate fl policy))
            (evaluate_path ++ str ": " ++ error_text (validate fl policy))
        known_failure ←
            check (status_is_defined policy.transport_failure_status statuses)
              (field_path path "transport_failure_status" ++ str " is not defined in statuses")
        known_no_match ←
            check (status_is_defined policy.no_match_status statuses)
              (field_path path "no_match_status" ++ str " is not defined in statuses")
        check_rules statuses evaluate_path 0 policy.rules
        succeed policy

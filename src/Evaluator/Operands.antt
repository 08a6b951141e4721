-- ===== src/Evaluator/Operands.antt =====
-- The operands that the operations of a validated condition have (`validate_condition` of
-- src/core/evaluator.cpp).
use pixel_status_nx.Prelude.{
  ◌≡◌, refl, true, false, not, ◌||◌, Option, none, some, Text, arith, is_some, if◌then◌else◌,
}
use pixel_status_nx.Floating.{Floating}
use pixel_status_nx.State.{StateValue, monostate, boolean, integer, real, string}
use pixel_status_nx.Evaluator.{
  ComparisonOperation, exists, not_exists, equals, not_equals, contains, not_contains, greater_than,
  greater_or_equal, less_than, less_or_equal, between, number_value, is_number, is_missing, is_text,
  upper_number, both, check_operands, validate_condition, EvaluationCondition, condition_error,
}

module _ (fl : Floating) where
  -- An integer, or a finite double.
  abbrev pub IsNumber : StateValue fl.Double → Type 0
  IsNumber (integer n) = Unit
  IsNumber (real d) = fl.is_finite d ≡ true
  IsNumber _ = ⊥

  -- Two numbers of which the second is not less than the first.
  abbrev pub InOrder : StateValue fl.Double → StateValue fl.Double → Type 0
  InOrder lower upper =
      (a : fl.LongDouble) × (b : fl.LongDouble) × (number_value fl lower ≡ some a)
      × (number_value fl upper ≡ some b)
      × (fl.long_less b a ≡ false)

  -- The operands of an operation: none for the presence of a value, a text for a search, a number for
  -- an order, and two numbers in order for an interval.
  abbrev pub HasOperands :
      ComparisonOperation → StateValue fl.Double → Option (StateValue fl.Double) → Type 0
  HasOperands exists expected upper = (expected ≡ monostate) × (upper ≡ none)
  HasOperands not_exists expected upper = (expected ≡ monostate) × (upper ≡ none)
  HasOperands equals expected upper = upper ≡ none
  HasOperands not_equals expected upper = upper ≡ none
  HasOperands contains expected upper = ((s : Text) × (expected ≡ string s)) × (upper ≡ none)
  HasOperands not_contains expected upper = ((s : Text) × (expected ≡ string s)) × (upper ≡ none)
  HasOperands between expected upper =
      (limit : StateValue fl.Double) × (upper ≡ some limit)
      × IsNumber expected
      × IsNumber limit
      × InOrder expected limit
  HasOperands _ expected upper = IsNumber expected × (upper ≡ none)

  abbrev pub HasCondition : Option (EvaluationCondition fl.Double) → Type 0
  HasCondition none = Unit
  HasCondition (some c) = HasOperands c.operation c.expected c.upper_bound

  numeric-IsNumber : (v : StateValue fl.Double) → is_number fl v ≡ true → IsNumber v
  unfolding is_number number_value
  numeric-IsNumber (integer n) h = tt
  numeric-IsNumber (real d) h = ground arith
  numeric-IsNumber monostate h = cc h
  numeric-IsNumber (boolean b) h = cc h
  numeric-IsNumber (string s) h = cc h

  missing-monostate : (v : StateValue fl.Double) → is_missing fl v ≡ true → v ≡ monostate
  missing-monostate monostate h = refl
  missing-monostate (boolean b) h = cc h
  missing-monostate (integer n) h = cc h
  missing-monostate (real d) h = cc h
  missing-monostate (string s) h = cc h

  text-string : (v : StateValue fl.Double) → is_text fl v ≡ true → (s : Text) × (v ≡ string s)
  text-string (string s) h = (s, refl)
  text-string monostate h = cc h
  text-string (boolean b) h = cc h
  text-string (integer n) h = cc h
  text-string (real d) h = cc h

  not_some : {A : Type 0} (o : Option A) → is_some o ≡ false → o ≡ none
  not_some none h = refl
  not_some (some a) h = cc h

  both_in_order :
      (a b : Option fl.LongDouble) (missing crossed : Text)
      → (if not (is_some a) || not (is_some b)
          then some missing
          else (if both fl (λ lower upper. fl.long_less upper lower) a b
              then some crossed
              else none))
        ≡ none
      → (x : fl.LongDouble) × (y : fl.LongDouble) × (a ≡ some x)
        × (b ≡ some y)
        × (fl.long_less y x ≡ false)
  both_in_order (some x) (some y) missing crossed h = (x, y, refl, refl, ground arith)
  both_in_order none b missing crossed h = cc h
  both_in_order (some x) none missing crossed h = cc h

  read-IsNumber :
      (v : StateValue fl.Double) {x : fl.LongDouble} → number_value fl v ≡ some x → IsNumber v
  unfolding is_number
  read-IsNumber v h = numeric-IsNumber v (rw h refl)

  upper_number-some :
      (o : Option (StateValue fl.Double)) {y : fl.LongDouble}
      → upper_number fl o ≡ some y
      → (limit : StateValue fl.Double) × (o ≡ some limit) × (number_value fl limit ≡ some y)
  unfolding upper_number
  upper_number-some none h = cc h
  upper_number-some (some limit) h = (limit, refl, h)

  interval-HasOperands :
      (c : EvaluationCondition fl.Double)
      → check_operands fl between c ≡ none
      → HasOperands between c.expected c.upper_bound
  unfolding check_operands
  interval-HasOperands c h =
      let (x, y, first, second, ordered) =
        both_in_order (number_value fl c.expected) (upper_number fl c.upper_bound) _ _ h in
      let (limit, given, read) = upper_number-some c.upper_bound second in
      (
        limit,
        given,
        read-IsNumber c.expected first,
        read-IsNumber limit read,
        (x, y, first, read, ordered),
      )

  condition-HasOperands :
      (operation : ComparisonOperation) (c : EvaluationCondition fl.Double)
      → check_operands fl operation c ≡ none
      → HasOperands operation c.expected c.upper_bound
  unfolding check_operands
  condition-HasOperands exists c h =
      (missing-monostate c.expected (ground arith), not_some c.upper_bound (ground arith))
  condition-HasOperands not_exists c h =
      (missing-monostate c.expected (ground arith), not_some c.upper_bound (ground arith))
  condition-HasOperands equals c h = not_some c.upper_bound (ground arith)
  condition-HasOperands not_equals c h = not_some c.upper_bound (ground arith)
  condition-HasOperands contains c h =
      (text-string c.expected (ground arith), not_some c.upper_bound (ground arith))
  condition-HasOperands not_contains c h =
      (text-string c.expected (ground arith), not_some c.upper_bound (ground arith))
  condition-HasOperands greater_than c h =
      (numeric-IsNumber c.expected (ground arith), not_some c.upper_bound (ground arith))
  condition-HasOperands greater_or_equal c h =
      (numeric-IsNumber c.expected (ground arith), not_some c.upper_bound (ground arith))
  condition-HasOperands less_than c h =
      (numeric-IsNumber c.expected (ground arith), not_some c.upper_bound (ground arith))
  condition-HasOperands less_or_equal c h =
      (numeric-IsNumber c.expected (ground arith), not_some c.upper_bound (ground arith))
  condition-HasOperands between c h = interval-HasOperands c h

  pub when-HasCondition :
      (when : Option (EvaluationCondition fl.Double))
      → condition_error fl when ≡ none
      → HasCondition when
  unfolding condition_error validate_condition
  when-HasCondition none h = tt
  when-HasCondition (some c) h = condition-HasOperands c.operation c h

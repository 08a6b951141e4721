-- ===== src/Loader/Fields.antt =====
-- The fields of a JSON object, with the checks of src/core/config.cpp. The JSON library is a
-- parameter; an object is the list of its fields.
use pixel_status_nx.Prelude.{
  ℕ, ◌-◌, Bool, false, not, ◌&&◌, ◌||◌, Option, none, some, List, [], ◌∷◌, ◌++◌, Text, String, str,
  text_eq, to_string, ℤ, pos, pos_part, ltb_ℤ, leb_ℤ, ltb, leb, ◌==◌, if◌then◌else◌, length, take,
  get_or, any_of,
}
use pixel_status_nx.FromChars.{parse_int64}
use pixel_status_nx.Floating.{Floating}
use pixel_status_nx.Time.{Duration, zero_ms}
use pixel_status_nx.Color.{Rgb, parse_rgb_hex}
use pixel_status_nx.State.{is_empty}
use pixel_status_nx.Validation.{is_valid_identifier, maximum_identifier_bytes}
use pixel_status_nx.Config.{find_text}
use pixel_status_nx.Json.{
  JsonView, JsonLibrary, boolean_view, unsigned_view, integer_view, float_view, string_view,
  array_view, object_view,
}
use pixel_status_nx.Loader.{Load, report, succeed, refuse, stop, or_refuse, ◌>>=◌, ◌>>◌, guard}
use pixel_status_nx.Loader.Limits.{maximum_appearance_duration}
use pixel_status_nx.Loader.Durations.{parse_duration, count_text}

-- The path of a field, and of an element.
abbrev pub field_path : Text → String → Text
field_path path key = path ++ b'.' ∷ str key

abbrev pub element_path : Text → ℕ → Text
element_path path index = path ++ b'[' ∷ to_string index ++ b']' ∷ []

-- `field == "…"`, and a list of literals.
abbrev pub is_name : Text → String → Bool
is_name text name = text_eq text (str name)

unfoldable pub is_allowed : List String → Text → Bool
is_allowed allowed key = any_of (is_name key) allowed

-- Whether a set of names holds a name.
abbrev pub has_name : Text → List Text → Bool
has_name name names = any_of (text_eq name) names

-- The field of an object with one field.
abbrev pub only_field : {A : Type 0} → Option (List (Text × A)) → Option (Text × A)
only_field (some (field ∷ [])) = some field
only_field _ = none

abbrev pub identifier_rule : Text
identifier_rule = str " must contain 1-64 letters, digits, dots, underscores, or hyphens"

abbrev pub is_identifier : Text → Bool
is_identifier text = is_valid_identifier text maximum_identifier_bytes

module _ (fl : Floating) (json : JsonLibrary fl.Double) where
  open json use {Json, view}

  -- What `get` returns where the value is of that kind.
  abbrev pub string_of : JsonView fl.Double Json → Option Text
  string_of (string_view text) = some text
  string_of _ = none

  abbrev pub array_of : JsonView fl.Double Json → Option (List Json)
  array_of (array_view items) = some items
  array_of _ = none

  abbrev pub object_of : JsonView fl.Double Json → Option (List (Text × Json))
  object_of (object_view fields) = some fields
  object_of _ = none

  abbrev pub boolean_of : JsonView fl.Double Json → Option Bool
  boolean_of (boolean_view b) = some b
  boolean_of _ = none

  -- `is_boolean` and `get<bool>`.
  abbrev pub is_true : JsonView fl.Double Json → Bool
  is_true (boolean_view b) = b
  is_true _ = false

  unfoldable pub reject_unknown_fields : List (Text × Json) → List String → Text → Load (Unit {0})
  unfolding is_allowed report succeed ◌>>◌
  reject_unknown_fields [] allowed path = succeed tt
  reject_unknown_fields ((key, value) ∷ rest) allowed path =
      let later = reject_unknown_fields rest allowed path in
      if is_allowed allowed key
      then later
      else (report (path ++ str " contains unknown field: " ++ key) >> later)

  -- A field as what its view is read as.
  abbrev pub field_as :
      {A : Type 0} → (JsonView fl.Double Json → Option A) → List (Text × Json) → String → Option A
  field_as read object key = elim (find_text (str key) object) [
    | none ↦ none
    | some value ↦ read (view value)
  ]

  unfoldable pub required_string : List (Text × Json) → String → Text → Load Text
  unfolding or_refuse guard succeed ◌>>◌
  required_string object key path = do
    value ←
        or_refuse (field_as string_of object key) (field_path path key ++ str " must be a string")
    guard (not (is_empty value)) (field_path path key ++ str " must not be empty")
    succeed value

  unfoldable pub required_identifier : List (Text × Json) → String → Text → Load Text
  unfolding required_string guard succeed ◌>>◌
  required_identifier object key path = do
    value ← required_string object key path
    guard (is_identifier value) (field_path path key ++ identifier_rule)
    succeed value

  unfoldable pub optional_identifier : List (Text × Json) → String → Text → Load Text
  unfolding required_identifier or_refuse guard succeed stop ◌>>◌
  optional_identifier object key path = elim (find_text (str key) object) [
    | none ↦ stop
    | some value ↦
        (let message = field_path path key ++ identifier_rule in
          do
            text ← or_refuse (string_of (view value)) message
            guard (is_identifier text) message
            succeed text)
  ]

  -- `is_number` and `get<double>`.
  abbrev pub number_of : JsonView fl.Double Json → Option fl.Double
  number_of (unsigned_view n) = some (fl.of_int (pos n))
  number_of (integer_view n) = some (fl.of_int n)
  number_of (float_view d) = some d
  number_of _ = none

  unfoldable pub size_in_range : ℕ → ℕ → ℕ → Text → Load ℕ
  unfolding succeed refuse
  size_in_range minimum maximum value path =
      if ltb value minimum || ltb maximum value
      then refuse
          (path ++ str " must be between " ++ to_string minimum ++ str " and " ++ to_string maximum)
      else succeed value

  -- The size that a view holds.
  unfoldable pub size_value : ℕ → ℕ → JsonView fl.Double Json → Text → Load ℕ
  unfolding size_in_range refuse
  size_value minimum maximum (unsigned_view n) path = size_in_range minimum maximum n path
  size_value minimum maximum (integer_view n) path =
      if ltb_ℤ n (pos 0)
      then refuse (path ++ str " must not be negative")
      else size_in_range minimum maximum (pos_part n) path
  size_value minimum maximum _ path = refuse (path ++ str " must be an integer")

  unfoldable pub bounded_size : List (Text × Json) → String → Text → ℕ → ℕ → Load ℕ
  unfolding size_value refuse
  bounded_size object key path minimum maximum = elim (find_text (str key) object) [
    | none ↦ refuse (field_path path key ++ str " must be an integer")
    | some value ↦ size_value minimum maximum (view value) (field_path path key)
  ]

  unfoldable pub color_value : Json → Text → Load Rgb
  unfolding or_refuse
  color_value value path = do
    text ← or_refuse (string_of (view value)) (path ++ str " must be an RGB string such as #00FF00")
    or_refuse (parse_rgb_hex text) (path ++ str " must use #RRGGBB format")

  unfoldable pub duration_value : Json → Text → Load Duration
  unfolding or_refuse guard succeed ◌>>◌
  duration_value value path =
      let message = path ++ str " must be greater than zero and no more than 24h" in
      do
        text ← or_refuse (string_of (view value)) (path ++ str " must be a duration string")
        duration ← or_refuse (parse_duration text) message
        guard (ltb_ℤ zero_ms duration && leb_ℤ duration maximum_appearance_duration) message
        succeed duration

  unfoldable pub bounded_duration_value : Json → Text → Duration → Duration → Load Duration
  unfolding or_refuse guard succeed ◌>>◌
  bounded_duration_value value path minimum maximum =
      let message =
        path
        ++ str " must be between "
        ++ count_text minimum
        ++ str "ms and "
        ++ count_text maximum
        ++ str "ms" in
      do
        text ← or_refuse (string_of (view value)) (path ++ str " must be a duration string")
        duration ← or_refuse (parse_duration text) message
        guard (leb_ℤ minimum duration && leb_ℤ duration maximum) message
        succeed duration

  -- The number that a percentage is given as.
  unfoldable pub percent_of : JsonView fl.Double Json → Option ℤ
  unfolding parse_int64
  percent_of (unsigned_view n) = if leb n 100 then some (pos n) else none
  percent_of (integer_view n) = some n
  percent_of (string_view text) =
      if ltb 1 (length text) && get_or text (length text - 1) 0 == b'%'
      then parse_int64 (take (length text - 1) text)
      else none
  percent_of _ = none

  unfoldable pub percentage_value : List (Text × Json) → String → fl.Double → Text → Load fl.Double
  unfolding percent_of or_refuse guard succeed ◌>>◌
  percentage_value object key default_value path = elim (find_text (str key) object) [
    | none ↦ succeed default_value
    | some value ↦
        (let message = field_path path key ++ str " must be a percentage from 0 to 100" in
          do
            percent ← or_refuse (percent_of (view value)) message
            guard (leb_ℤ (pos 0) percent && leb_ℤ percent (pos 100)) message
            succeed (fl.div (fl.of_int percent) (fl.of_int (pos 100))))
  ]

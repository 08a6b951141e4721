-- ===== src/Loader/File.antt =====
-- A configuration file (`load_config_file` of src/core/config.cpp). The file is a parameter; the
-- handler of exceptions, which no conversion here throws to, is not modelled.
use pixel_status_nx.Prelude.{
  ℕ, ◌+◌, ◌-◌, ◌/◌, ◌%◌, ◌^◌, Bool, true, not, ◌&&◌, Option, none, some, List, [], ◌∷◌, ◌++◌, Text,
  String, str, ℤ, pos, negsuc, pos_part, sub_ℕ, ltb_ℤ, eqb_ℤ, leb, ltb, if◌then◌else◌, is_some,
  length,
}
use pixel_status_nx.Floating.{Floating}
use pixel_status_nx.Color.{black}
use pixel_status_nx.Appearance.{TimelineAppearance}
use pixel_status_nx.Config.{DisplayConfig, IndicatorConfig, CardConfig, AppConfig, find_text}
use pixel_status_nx.Config.Monitors.{PullMonitorConfig}
use pixel_status_nx.Json.{JsonView, JsonLibrary, unsigned_view, integer_view}
use pixel_status_nx.Loader.{
  Load, loaded, result_of, succeed, refuse, attempt, or_refuse, ◌>>=◌, ◌>>◌, value_or, pushed,
  guard, check,
}
use pixel_status_nx.Loader.Limits.{
  maximum_config_bytes, maximum_dimension, maximum_pixels, maximum_indicators, maximum_cards,
  maximum_statuses, maximum_monitors,
}
use pixel_status_nx.Loader.Fields.{
  element_path, is_identifier, identifier_rule, array_of, object_of, field_as,
  reject_unknown_fields, bounded_size,
}
use pixel_status_nx.Loader.Appearances.{parse_appearance}
use pixel_status_nx.Loader.Policies.{Statuses}
use pixel_status_nx.Loader.Monitors.{parse_pull_monitor}
use pixel_status_nx.Loader.Widgets.{parse_indicator_config, color_field}
use pixel_status_nx.Loader.Rounds.{accept_card, total_after}
use pixel_status_nx.Loader.Cards.{parse_items, parse_card, with_id}

pub record ConfigLoadResult (D : Type 0) : Type 0 where
  pub config : Option (AppConfig D)
  pub errors : List Text

-- What the streams tell about a file: whether it opens, the result of `tellg`, and what `read`
-- delivers.
pub data ConfigFile : Type 0 where
  unopened : ConfigFile
  opened : ℤ → Option Text → ConfigFile

-- `static_cast<int>` of an integer.
unfoldable pub to_int32 : ℤ → ℤ
to_int32 n = signed (low_bits n)
  where
    low_bits : ℤ → ℕ
    low_bits (pos m) = m % 2 ^ 32
    low_bits (negsuc m) = 2 ^ 32 - 1 - m % 2 ^ 32

    signed : ℕ → ℤ
    signed m = if ltb m (2 ^ 31) then pos m else sub_ℕ m (2 ^ 32)

module _ (fl : Floating) (json : JsonLibrary fl.Double) where
  open json use {Json, view, parse}

  -- `is_number_integer` and `get`.
  abbrev integer_of : JsonView fl.Double Json → Option ℤ
  integer_of (unsigned_view n) = some (pos n)
  integer_of (integer_view n) = some n
  integer_of _ = none

  unfoldable pub load_schema : List (Text × Json) → Load ℤ
  unfolding to_int32 or_refuse check succeed
  load_schema root = do
    number ←
        or_refuse (field_as fl json integer_of root "schema_version")
          (str "schema_version must be the integer 1")
    supported ← check (eqb_ℤ (to_int32 number) (pos 1)) (str "Only schema_version 1 is supported")
    succeed (to_int32 number)

  -- Whether the display has no more pixels than allowed, where both dimensions were read.
  abbrev pixels_allowed : Option ℕ → Option ℕ → Bool
  pixels_allowed (some width) (some height) = leb width (maximum_pixels / height)
  pixels_allowed _ _ = true

  -- `DisplayConfig{}`.
  abbrev pub default_display : DisplayConfig
  default_display = record { width = 16; height = 16; background = black }

  unfoldable pub load_display : List (Text × Json) → Load DisplayConfig
  unfolding or_refuse reject_unknown_fields bounded_size color_field attempt check succeed ◌>>◌
  load_display root = do
    display ←
        or_refuse (field_as fl json (object_of fl json) root "display")
          (str "display must be an object")
    reject_unknown_fields fl json display ("width" ∷ "height" ∷ "background" ∷ []) (str "display")
    width ← attempt (bounded_size fl json display "width" (str "display") 1 maximum_dimension)
    height ← attempt (bounded_size fl json display "height" (str "display") 1 maximum_dimension)
    few ← check (pixels_allowed width height) (str "display contains too many pixels")
    background ← attempt (color_field fl json display "background" black (str "display"))
    succeed (record {
      width = value_or 16 width;
      height = value_or 16 height;
      background = value_or black background;
    })

  -- One round of the loop over the statuses.
  unfoldable pub load_status : Text → Json → Load (Text × TimelineAppearance)
  unfolding or_refuse parse_appearance guard succeed ◌>>◌
  load_status name value =
      let path = str "statuses." ++ name in
      do
        guard (is_identifier name) (path ++ str " name" ++ identifier_rule)
        status ← or_refuse (object_of fl json (view value)) (path ++ str " must be an object")
        appearance ← parse_appearance fl json status path
        succeed (name, appearance)

  unfoldable pub load_status_list :
      List (Text × Json) → Load (List (Option (Text × TimelineAppearance)))
  unfolding load_status attempt succeed
  load_status_list [] = succeed []
  load_status_list ((name, value) ∷ rest) = do
    status ← attempt (load_status name value)
    later ← load_status_list rest
    succeed (status ∷ later)

  unfoldable pub load_statuses : List (Text × Json) → Load Statuses
  unfolding or_refuse guard load_status_list check pushed succeed ◌>>◌
  load_statuses root = do
    fields ←
        or_refuse (field_as fl json (object_of fl json) root "statuses")
          (str "statuses must be a non-empty object")
    guard (leb 1 (length fields)) (str "statuses must be a non-empty object")
    guard (leb (length fields) maximum_statuses) (str "statuses exceeds the limit of 256 entries")
    statuses ← load_status_list fields
    unknown ←
        check (is_some (find_text (str "unknown") fields)) (str "statuses.unknown is required")
    stale ← check (is_some (find_text (str "stale") fields)) (str "statuses.stale is required")
    succeed (pushed statuses)

  abbrev monitors_message : Text
  monitors_message = str "monitors must be an array with no more than 256 entries"

  unfoldable pub load_monitors :
      List (Text × Json) → Statuses → Load (List (PullMonitorConfig fl.Double))
  unfolding or_refuse guard parse_items parse_pull_monitor pushed succeed ◌>>◌
  load_monitors root statuses = elim (find_text (str "monitors") root) [
    | none ↦ succeed []
    | some value ↦ (do
      items ← or_refuse (array_of fl json (view value)) monitors_message
      guard (leb (length items) maximum_monitors) monitors_message
      monitors ←
          parse_items fl json (λ (m : PullMonitorConfig fl.Double). m.id)
            (str " duplicates an earlier monitor")
            (λ item path. parse_pull_monitor fl json item path statuses) (str "monitors") [] 0 items
      succeed (pushed monitors))
  ]

  unfoldable pub load_indicators : Json → DisplayConfig → Load (List IndicatorConfig)
  unfolding or_refuse guard parse_items parse_indicator_config pushed succeed ◌>>◌
  load_indicators value display = do
    items ← or_refuse (array_of fl json (view value)) (str "indicators must be a non-empty array")
    guard (leb 1 (length items)) (str "indicators must be a non-empty array")
    guard (leb (length items) maximum_indicators)
        (str "indicators exceeds the limit of 1024 entries")
    indicators ←
        parse_items fl json (λ (i : IndicatorConfig). i.id) (str " duplicates an earlier indicator")
          (λ item path. parse_indicator_config fl json item path display) (str "indicators") [] 0
          items
    succeed (pushed indicators)

  -- The loop over the cards.
  unfoldable pub load_card_list :
      Statuses
      → DisplayConfig
      → List Text
      → ℕ
      → ℕ
      → List Json
      → Load (List (Option (CardConfig fl.Double)))
  unfolding parse_card accept_card total_after attempt succeed
  load_card_list statuses display ids total index [] = succeed []
  load_card_list statuses display ids total index (value ∷ rest) =
      let path = element_path (str "cards") index in
      let parsed = parse_card fl json value path display in
      do
        card ← attempt (accept_card statuses ids total path parsed)
        later ←
            load_card_list statuses display (with_id (λ c. c.id) (result_of parsed) ids)
              (total_after ids total (result_of parsed)) (index + 1) rest
        succeed (card ∷ later)

  abbrev cards_message : Text
  cards_message = str "cards must be an array with between 1 and 32 entries"

  unfoldable pub load_cards : Json → Statuses → DisplayConfig → Load (List (CardConfig fl.Double))
  unfolding or_refuse guard load_card_list pushed succeed ◌>>◌
  load_cards value statuses display = do
    items ← or_refuse (array_of fl json (view value)) cards_message
    guard (leb 1 (length items) && leb (length items) maximum_cards) cards_message
    cards ← load_card_list statuses display [] 0 0 items
    succeed (pushed cards)

  -- The indicators and the cards, of which a configuration defines one.
  unfoldable pub load_content :
      Option Json
      → Option Json
      → Statuses
      → DisplayConfig
      → Load (List IndicatorConfig × List (CardConfig fl.Double))
  unfolding load_indicators load_cards refuse succeed
  load_content (some indicators) none statuses display = do
    i ← load_indicators indicators display
    succeed (i, [])
  load_content none (some cards) statuses display = do
    c ← load_cards cards statuses display
    succeed ([], c)
  load_content _ _ statuses display =
      refuse (str "configuration must define exactly one of indicators or cards")

  abbrev root_fields : List String
  root_fields = "schema_version" ∷ "display" ∷ "statuses" ∷ "monitors" ∷ "indicators" ∷ "cards" ∷ []

  -- The block of `load_config_file` that reads the root object: it goes on after each error.
  unfoldable pub load_root : List (Text × Json) → Load (AppConfig fl.Double)
  unfolding reject_unknown_fields load_schema load_display load_statuses load_monitors load_content
      attempt succeed ◌>>◌
  load_root root = do
    reject_unknown_fields fl json root root_fields (str "configuration")
    schema ← attempt (load_schema root)
    display ← attempt (load_display root)
    statuses ← attempt (load_statuses root)
    monitors ← attempt (load_monitors root (value_or [] statuses))
    content ← attempt (
        load_content (find_text (str "indicators") root) (find_text (str "cards") root)
          (value_or [] statuses) (value_or default_display display))
    succeed (record {
      schema_version = value_or (pos 1) schema;
      display = value_or default_display display;
      statuses = value_or [] statuses;
      monitors = value_or [] monitors;
      indicators = (value_or ([], []) content).0;
      cards = (value_or ([], []) content).1;
    })

  -- The result at the end: the configuration where there is no error.
  unfoldable pub load_result : Load (AppConfig fl.Double) → ConfigLoadResult fl.Double
  load_result (loaded result []) = record { config = result; errors = [] }
  load_result (loaded result (e ∷ rest)) = record { config = none; errors = e ∷ rest }

  abbrev root_of : Option Json → Option (List (Text × Json))
  root_of none = none
  root_of (some root) = object_of fl json (view root)

  -- What is done with the file, up to the result.
  unfoldable pub read_config : Text → ConfigFile → Load (AppConfig fl.Double)
  unfolding or_refuse guard load_root refuse ◌>>◌
  read_config path unopened = refuse (str "Unable to open configuration file: " ++ path)
  read_config path (opened size contents) = do
    guard (not (ltb_ℤ size (pos 0)) && leb (pos_part size) maximum_config_bytes)
        (str "Configuration file exceeds the 1 MiB host limit")
    text ← or_refuse contents (str "Unable to read configuration file: " ++ path)
    root ← or_refuse (root_of (parse text)) (str "Configuration root must be a valid JSON object")
    load_root root

  unfoldable pub load_config_file : Text → ConfigFile → ConfigLoadResult fl.Double
  unfolding read_config load_result
  load_config_file path file = load_result (read_config path file)

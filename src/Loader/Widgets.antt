-- ===== src/Loader/Widgets.antt =====
-- Indicators, and the clock, indicator and bar widgets of layouts (src/core/config.cpp).
use pixel_status_nx.Prelude.{
  ℕ, ◌-◌, Bool, not, ◌&&◌, ◌||◌, Option, none, some, List, [], ◌∷◌, ◌++◌, Text, String, str, pos,
  ltb, leb, ◌==◌, if◌then◌else◌,
}
use pixel_status_nx.Floating.{Floating}
use pixel_status_nx.Color.{Rgb}
use pixel_status_nx.Config.{
  DisplayConfig, IndicatorConfig, ClockTimeZone, local, utc, LayoutClockConfig, BarDirection, right,
  left, up, down, LayoutBarConfig, find_text,
}
use pixel_status_nx.Json.{JsonLibrary}
use pixel_status_nx.Loader.{
  Load, succeed, refuse, attempt, or_refuse, or_stop, ◌>>=◌, ◌>>◌, ◌⊗◌, both, guard,
}
use pixel_status_nx.Loader.Limits.{maximum_dimension}
use pixel_status_nx.Loader.Fields.{
  field_path, is_name, string_of, object_of, number_of, required_string, required_identifier,
  optional_identifier, reject_unknown_fields, bounded_size, color_value,
}

pub record LayoutBounds : Type 0 where
  pub x : ℕ
  pub y : ℕ
  pub width : ℕ
  pub height : ℕ

-- The fields of a widget: those of its type, and those of a child of a row or a column, or those of
-- a position.
abbrev pub widget_fields : Option LayoutBounds → List String → List String
widget_fields none own = "id" ∷ "type" ∷ "x" ∷ "y" ∷ "width" ∷ "height" ∷ own
widget_fields (some assigned) own = "id" ∷ "type" ∷ "size" ∷ "weight" ∷ own

unfoldable pub extends_outside : LayoutBounds → DisplayConfig → Bool
extends_outside b display =
    leb display.width b.x
    || ltb (display.width - b.x) b.width
    || leb display.height b.y
    || ltb (display.height - b.y) b.height

unfoldable pub layout_bounds_are_valid : LayoutBounds → Text → Load (Unit {0})
unfolding guard
layout_bounds_are_valid bounds path =
    guard (not (bounds.width == 0 || bounds.height == 0))
      (path ++ str " resolved to a zero-sized rectangle")

-- The zone with the default colour of its clock.
unfoldable pub clock_zone : Text → Text → Load (ClockTimeZone × Rgb)
unfolding succeed refuse
clock_zone timezone path =
    if is_name timezone "local"
    then succeed (local, record { r = 0x00; g = 0xB0; b = 0xFF })
    else if is_name timezone "utc"
    then succeed (utc, record { r = 0xFF; g = 0xD6; b = 0x00 })
    else refuse (field_path path "timezone" ++ str " must be local or utc")

unfoldable pub bar_direction : Text → Text → Load BarDirection
unfolding succeed refuse
bar_direction direction path =
    if is_name direction "right"
    then succeed right
    else if is_name direction "left"
    then succeed left
    else if is_name direction "up"
    then succeed up
    else if is_name direction "down"
    then succeed down
    else refuse (field_path path "direction" ++ str " must be right, left, up, or down")

module _ (fl : Floating) (json : JsonLibrary fl.Double) where
  open json use {Json, view}

  -- The bounds that the fields of an item give, within the display.
  unfoldable pub read_bounds : List (Text × Json) → Text → DisplayConfig → Load LayoutBounds
  unfolding bounded_size extends_outside guard succeed ◌>>◌
  read_bounds item path display = do
    (x, (y, (width, height))) ←
        bounded_size fl json item "x" path 0 maximum_dimension
        ⊗ bounded_size fl json item "y" path 0 maximum_dimension
        ⊗ bounded_size fl json item "width" path 1 maximum_dimension
        ⊗ bounded_size fl json item "height" path 1 maximum_dimension
    bounds ← succeed (record { x = x; y = y; width = width; height = height })
    guard (not (extends_outside bounds display))
        (path ++ str " extends outside the configured display")
    succeed bounds

  unfoldable pub parse_layout_bounds :
      List (Text × Json) → Text → DisplayConfig → Option LayoutBounds → Load LayoutBounds
  unfolding read_bounds succeed
  parse_layout_bounds item path display (some assigned) = succeed assigned
  parse_layout_bounds item path display none = read_bounds item path display

  -- The identifier, the source and the bounds are all read before one that is missing ends it.
  unfoldable pub parse_indicator_config : Json → Text → DisplayConfig → Load IndicatorConfig
  unfolding reject_unknown_fields required_identifier bounded_size extends_outside or_refuse guard
      succeed ◌>>◌
  parse_indicator_config value path display = do
    item ← or_refuse (object_of fl json (view value)) (path ++ str " must be an object")
    reject_unknown_fields fl json item ("id" ∷ "source" ∷ "x" ∷ "y" ∷ "width" ∷ "height" ∷ []) path
    (id, (source, (x, (y, (width, height))))) ←
        required_identifier fl json item "id" path
        ⊗ required_identifier fl json item "source" path
        ⊗ bounded_size fl json item "x" path 0 maximum_dimension
        ⊗ bounded_size fl json item "y" path 0 maximum_dimension
        ⊗ bounded_size fl json item "width" path 1 maximum_dimension
        ⊗ bounded_size fl json item "height" path 1 maximum_dimension
    guard (not (extends_outside (record { x = x; y = y; width = width; height = height }) display))
        (path ++ str " extends outside the configured display")
    succeed (record { id = id; source = source; x = x; y = y; width = width; height = height })

  unfoldable pub optional_finite_number :
      List (Text × Json) → String → fl.Double → Text → Load fl.Double
  unfolding or_refuse guard succeed ◌>>◌
  optional_finite_number item key default_value path = elim (find_text (str key) item) [
    | none ↦ succeed default_value
    | some field ↦ (do
      value ←
          or_refuse (number_of fl json (view field))
            (field_path path key ++ str " must be a number")
      guard (fl.is_finite value) (field_path path key ++ str " must be finite")
      succeed value)
  ]

  -- An optional colour.
  unfoldable pub color_field : List (Text × Json) → String → Rgb → Text → Load Rgb
  unfolding color_value succeed
  color_field item key default_value path = elim (find_text (str key) item) [
    | none ↦ succeed default_value
    | some field ↦ color_value fl json field (field_path path key)
  ]

  -- The source of a clock: empty where the field is missing.
  abbrev clock_source : Option Json → Option Text → Option Text
  clock_source none source = some []
  clock_source (some field) source = source

  unfoldable pub parse_layout_clock_config :
      List (Text × Json) → Text → DisplayConfig → Option LayoutBounds → Load LayoutClockConfig
  unfolding reject_unknown_fields required_identifier parse_layout_bounds required_string
      optional_identifier layout_bounds_are_valid clock_zone color_field attempt or_stop guard
      succeed ◌>>◌
  parse_layout_clock_config item path display assigned = do
    reject_unknown_fields fl json item
        (widget_fields assigned ("timezone" ∷ "color" ∷ "source" ∷ [])) path
    id ← attempt (required_identifier fl json item "id" path)
    bounds ← attempt (parse_layout_bounds item path display assigned)
    timezone ← attempt (required_string fl json item "timezone" path)
    source ← attempt (optional_identifier fl json item "source" path)
    (i, (b, t)) ← or_stop (both id (both bounds timezone))
    layout_bounds_are_valid b path
    s ← or_stop (clock_source (find_text (str "source") item) source)
    guard (leb 15 b.width && leb 7 b.height)
        (path ++ str " requires bounds of at least 15x7 pixels")
    (zone, zone_color) ← clock_zone t path
    color ← color_field item "color" zone_color path
    succeed (record {
      id = i;
      x = b.x;
      y = b.y;
      width = b.width;
      height = b.height;
      timezone = zone;
      color = color;
      source = s;
    })

  unfoldable pub parse_layout_indicator_config :
      List (Text × Json) → Text → DisplayConfig → Option LayoutBounds → Load IndicatorConfig
  unfolding reject_unknown_fields required_identifier parse_layout_bounds layout_bounds_are_valid
      succeed ◌>>◌
  parse_layout_indicator_config item path display assigned = do
    reject_unknown_fields fl json item (widget_fields assigned ("source" ∷ [])) path
    (id, (source, b)) ←
        required_identifier fl json item "id" path
        ⊗ required_identifier fl json item "source" path
        ⊗ parse_layout_bounds item path display assigned
    layout_bounds_are_valid b path
    succeed
        (record { id = id; source = source; x = b.x; y = b.y; width = b.width; height = b.height })

  -- The optional field `direction`.
  unfoldable pub direction_field : List (Text × Json) → Text → Load BarDirection
  unfolding bar_direction or_refuse succeed
  direction_field item path = elim (find_text (str "direction") item) [
    | none ↦ succeed right
    | some field ↦ (do
      direction ←
          or_refuse (string_of fl json (view field))
            (field_path path "direction" ++ str " must be a string")
      bar_direction direction path)
  ]

  -- The values are finite, so that `maximum <= minimum` is the negation of `minimum < maximum`.
  unfoldable pub parse_layout_bar_config :
      List (Text × Json)
      → Text
      → DisplayConfig
      → Option LayoutBounds
      → Load (LayoutBarConfig fl.Double)
  unfolding reject_unknown_fields required_identifier parse_layout_bounds optional_finite_number
      layout_bounds_are_valid direction_field color_field guard succeed ◌>>◌
  parse_layout_bar_config item path display assigned = do
    reject_unknown_fields fl json item
        (widget_fields assigned
          ("source" ∷ "direction" ∷ "minimum" ∷ "maximum" ∷ "track_color" ∷ []))
        path
    (id, (source, (b, (minimum, maximum)))) ←
        required_identifier fl json item "id" path
        ⊗ required_identifier fl json item "source" path
        ⊗ parse_layout_bounds item path display assigned
        ⊗ optional_finite_number item "minimum" (fl.of_int (pos 0)) path
        ⊗ optional_finite_number item "maximum" (fl.of_int (pos 100)) path
    layout_bounds_are_valid b path
    guard (fl.less minimum maximum)
        (field_path path "maximum" ++ str " must be greater than .minimum")
    direction ← direction_field item path
    track_color ← color_field item "track_color" display.background path
    succeed (record {
      id = id;
      source = source;
      x = b.x;
      y = b.y;
      width = b.width;
      height = b.height;
      direction = direction;
      minimum = minimum;
      maximum = maximum;
      track_color = track_color;
    })

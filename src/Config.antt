-- ===== src/Config.antt =====
-- The configuration (include/pixelstatus/config.hpp). A map is an association list.
pub mod Monitors
use pixel_status_nx.Prelude.{
  ℕ, Option, none, some, List, [], ◌∷◌, Text, text_eq, ℤ, ◌==◌, if◌then◌else◌,
}
use pixel_status_nx.Time.{Duration}
use pixel_status_nx.Color.{Rgb}
use pixel_status_nx.Appearance.{TimelineAppearance}
use pixel_status_nx.Config.Monitors.{PullMonitorConfig}

pub record DisplayConfig : Type 0 where
  pub width : ℕ
  pub height : ℕ
  pub background : Rgb

pub record IndicatorConfig : Type 0 where
  pub id : Text
  pub source : Text
  pub x : ℕ
  pub y : ℕ
  pub width : ℕ
  pub height : ℕ

pub data CardTransition : Type 0 where
  instant fade slide_left slide_right slide_up slide_down : CardTransition

pub record CardTransitionConfig : Type 0 where
  pub type : CardTransition
  pub duration : Duration

abbrev pub Palette : Type 0
Palette = List (ℕ × Rgb)

pub record BitmapCardConfig : Type 0 where
  pub palette : Palette
  pub pixels : List Text

pub record ClockCardConfig : Type 0 where
  pub local_color : Rgb
  pub utc_color : Rgb

pub record IndicatorCardConfig : Type 0 where
  pub indicators : List IndicatorConfig

pub data ClockTimeZone : Type 0 where
  local utc : ClockTimeZone

pub record LayoutClockConfig : Type 0 where
  pub id : Text
  pub x : ℕ
  pub y : ℕ
  pub width : ℕ
  pub height : ℕ
  pub timezone : ClockTimeZone
  pub color : Rgb
  pub source : Text

pub data BarDirection : Type 0 where
  right left up down : BarDirection

pub record LayoutBarConfig (D : Type 0) : Type 0 where
  pub id : Text
  pub source : Text
  pub x : ℕ
  pub y : ℕ
  pub width : ℕ
  pub height : ℕ
  pub direction : BarDirection
  pub minimum : D
  pub maximum : D
  pub track_color : Rgb

pub record LayoutStatusGridConfig : Type 0 where
  pub id : Text
  pub sources : List Text
  pub x : ℕ
  pub y : ℕ
  pub width : ℕ
  pub height : ℕ
  pub columns : ℕ
  pub gap : ℕ

pub record LayoutAggregateStatusConfig : Type 0 where
  pub id : Text
  pub sources : List Text
  pub priority : List Text
  pub colors : List (Text × Rgb)
  pub x : ℕ
  pub y : ℕ
  pub width : ℕ
  pub height : ℕ
  pub default_color : Rgb

pub record LayoutBitmapConfig : Type 0 where
  pub id : Text
  pub x : ℕ
  pub y : ℕ
  pub width : ℕ
  pub height : ℕ
  pub palette : Palette
  pub pixels : List Text

-- The variant `LayoutWidgetConfig`.
pub data LayoutWidgetConfig (D : Type 0) : Type 0 where
  indicator_widget : IndicatorConfig → LayoutWidgetConfig D
  clock_widget : LayoutClockConfig → LayoutWidgetConfig D
  bar_widget : LayoutBarConfig D → LayoutWidgetConfig D
  grid_widget : LayoutStatusGridConfig → LayoutWidgetConfig D
  aggregate_widget : LayoutAggregateStatusConfig → LayoutWidgetConfig D
  bitmap_widget : LayoutBitmapConfig → LayoutWidgetConfig D

pub record LayoutCardConfig (D : Type 0) : Type 0 where
  pub widgets : List (LayoutWidgetConfig D)

-- The variant `CardContentConfig`.
pub data CardContentConfig (D : Type 0) : Type 0 where
  bitmap_card : BitmapCardConfig → CardContentConfig D
  clock_card : ClockCardConfig → CardContentConfig D
  indicator_card : IndicatorCardConfig → CardContentConfig D
  layout_card : LayoutCardConfig D → CardContentConfig D

pub record CardConfig (D : Type 0) : Type 0 where
  pub id : Text
  pub hold : Duration
  pub transition : CardTransitionConfig
  pub content : CardContentConfig D

pub record AppConfig (D : Type 0) : Type 0 where
  pub schema_version : ℤ
  pub display : DisplayConfig
  pub statuses : List (Text × TimelineAppearance)
  pub monitors : List (PullMonitorConfig D)
  pub indicators : List IndicatorConfig
  pub cards : List (CardConfig D)

-- `find` of a map with text keys, and of a palette.
unfoldable pub find_text {ℓ} : {V : Type ℓ} → Text → List (Text × V) → Option V
find_text key [] = none
find_text key ((k, v) ∷ rest) = if text_eq k key then some v else find_text key rest

unfoldable pub find_color : ℕ → Palette → Option Rgb
find_color key [] = none
find_color key ((k, v) ∷ rest) = if k == key then some v else find_color key rest

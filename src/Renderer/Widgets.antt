-- ===== src/Renderer/Widgets.antt =====
-- The indicator, bar, aggregate and bitmap widgets (src/core/renderer.cpp).
pub mod Kept
pub mod Bars
use pixel_status_nx.Prelude.{
  ℕ, zero, suc, ◌+◌, ◌-◌, ◌≤◌, Bool, true, false, not, ◌||◌, Option, none, some, List, [], ◌∷◌,
  Text, str, text_eq, pos, pos_part, ltb, ◌==◌, if◌then◌else◌, length, get_or, min, is_some,
}
use pixel_status_nx.Floating.{Floating, clamp}
use pixel_status_nx.Time.{TimePoint}
use pixel_status_nx.Color.{Rgb}
use pixel_status_nx.State.{Store, ResolvedState, resolve}
use pixel_status_nx.Config.{
  AppConfig, IndicatorConfig, LayoutBarConfig, BarDirection, right, left, up, down,
  LayoutAggregateStatusConfig, LayoutBitmapConfig, Palette, find_text, find_color,
}
use pixel_status_nx.Frame.{Frame, fill_rect, set_pixel}
use pixel_status_nx.Renderer.{
  RenderReport, Canvas, fail, SourceSample, sample_source, numeric_value, shown_status, counted,
}

-- `if (!output.fill_rect(…)) { report.error = …; return false; }`
unfoldable pub fill_or_fail : Canvas → ℕ → ℕ → ℕ → ℕ → Rgb → Text → Canvas × Bool
fill_or_fail c x y width height color message =
    let (output, filled) = fill_rect c.output x y width height color in
    if filled
    then (record c { output = output }, true)
    else fail (record c { output = output }) message

-- `++report.rendered_indicators`.
abbrev pub count_rendered : Canvas → Canvas
count_rendered c = record c {
  report = record c.report { rendered_indicators = c.report.rendered_indicators + 1 };
}

abbrev pub count_invalid : Canvas → Canvas
count_invalid c = record c {
  report = record c.report { invalid_values = c.report.invalid_values + 1 };
}

-- `std::find`: the position of a text, or the length.
unfoldable pub position_of : Text → List Text → ℕ
position_of status [] = 0
position_of status (t ∷ rest) = if text_eq t status then 0 else suc (position_of status rest)

-- A row of a bitmap, from a position on: the frame, and whether each pixel was drawn.
unfoldable pub draw_row : Palette → ℕ → ℕ → Text → Frame → Frame × Bool
draw_row palette x y [] output = (output, true)
draw_row palette x y (c ∷ rest) output = elim (find_color c palette) [
  | none ↦ (output, false)
  | some color ↦
      let (output', drawn) = set_pixel output x y color in
      let later = draw_row palette (x + 1) y rest output' in
      if drawn then later else (output', false)
]

unfoldable pub draw_rows : Palette → ℕ → ℕ → List Text → Frame → Frame × Bool
unfolding draw_row
draw_rows palette x y [] output = (output, true)
draw_rows palette x y (row ∷ rest) output =
    let (output', drawn) = draw_row palette x y row output in
    let later = draw_rows palette x (y + 1) rest output' in
    if drawn then later else (output', false)

unfoldable pub render_layout_bitmap : LayoutBitmapConfig → Canvas → Canvas × Bool
unfolding draw_rows
render_layout_bitmap bitmap c =
    let (output, drawn) = draw_rows bitmap.palette bitmap.x bitmap.y bitmap.pixels c.output in
    if drawn
    then (record c { output = output }, true)
    else fail (record c { output = output }) (str "Layout bitmap became invalid during rendering")

-- The extent of a bar along its direction.
unfoldable pub is_horizontal : BarDirection → Bool
is_horizontal right = true
is_horizontal left = true
is_horizontal up = false
is_horizontal down = false

abbrev is_left : BarDirection → Bool
is_left left = true
is_left _ = false

abbrev is_up : BarDirection → Bool
is_up up = true
is_up _ = false

-- The rectangle that is filled.
pub record Rect : Type 0 where
  pub x : ℕ
  pub y : ℕ
  pub width : ℕ
  pub height : ℕ

unfoldable pub filled_rect : {D : Type 0} → LayoutBarConfig D → ℕ → Rect
unfolding is_horizontal
filled_rect bar filled =
    if is_horizontal bar.direction
    then record {
      x = if is_left bar.direction then bar.x + (bar.width - filled) else bar.x;
      y = bar.y;
      width = filled;
      height = bar.height;
    }
    else record {
      x = bar.x;
      y = if is_up bar.direction then bar.y + (bar.height - filled) else bar.y;
      width = bar.width;
      height = filled;
    }

module _ (fl : Floating) where
  -- The part of a bar that a value fills, or `none` where the fraction is not finite.
  unfoldable pub filled_extent : LayoutBarConfig fl.Double → fl.Double → Option ℕ
  unfolding is_horizontal
  filled_extent bar value =
      let raw_fraction = fl.div (fl.sub value bar.minimum) (fl.sub bar.maximum bar.minimum) in
      let fraction = clamp fl raw_fraction (fl.of_int (pos 0)) (fl.of_int (pos 1)) in
      let extent = if is_horizontal bar.direction then bar.width else bar.height in
      if fl.is_finite raw_fraction
      then some (
          min extent (
            pos_part
              (fl.truncate (fl.floor (fl.add (fl.mul fraction (fl.of_int (pos extent))) fl.half)))))
      else none

  -- The fill of a bar, once its value is known.
  unfoldable pub draw_filled : LayoutBarConfig fl.Double → Option ℕ → Rgb → Canvas → Canvas × Bool
  unfolding filled_rect fill_or_fail
  draw_filled bar none color c = (count_invalid c, true)
  draw_filled bar (some filled) color c =
      if filled == 0
      then (c, true)
      else (let r = filled_rect bar filled in
          fill_or_fail c r.x r.y r.width r.height color
            (str "Layout bar fill became invalid during rendering"))

  unfoldable pub draw_value :
      LayoutBarConfig fl.Double → SourceSample fl.Double → Canvas → Canvas × Bool
  unfolding filled_extent draw_filled
  draw_value bar sample c = elim sample.state [
    | none ↦ (c, true)
    | some resolved ↦ elim sample.color [
      | none ↦ (c, true)
      | some color ↦ elim (numeric_value fl resolved.state.value) [
        | none ↦ (count_invalid c, true)
        | some value ↦ draw_filled bar (filled_extent bar value) color c
      ]
    ]
  ]

  module _ (states : Store fl.Double) (config : AppConfig fl.Double) (now origin : TimePoint) where
    unfoldable pub render_indicator : IndicatorConfig → Canvas → Canvas × Bool
    unfolding fill_or_fail
    render_indicator indicator c =
        let (sample, report) =
          sample_source fl states config indicator.source now origin c.report in
        elim sample.color [
          | none ↦ (record c { report = report }, true)
          | some color ↦
              let (c', filled) =
                fill_or_fail (record c { report = report }) indicator.x indicator.y indicator.width
                  indicator.height color (str "Indicator layout became invalid during rendering") in
              if filled then (count_rendered c', true) else (c', false)
        ]

    unfoldable pub render_bar : LayoutBarConfig fl.Double → Canvas → Canvas × Bool
    unfolding fill_or_fail draw_value
    render_bar bar c =
        let (c', filled) =
          fill_or_fail c bar.x bar.y bar.width bar.height bar.track_color
            (str "Layout bar bounds became invalid during rendering") in
        if filled
        then (let (sample, report) =
              sample_source fl states config bar.source now origin c'.report in
            draw_value bar sample (count_rendered (record c' { report = report })))
        else (c', false)

module _ (fl : Floating) (states : Store fl.Double) (now : TimePoint) where
  -- The loop over the sources: the best priority that was found, and the report.
  unfoldable pub select_status : List Text → List Text → ℕ → RenderReport → ℕ × RenderReport
  unfolding position_of
  select_status priority [] selected report = (selected, report)
  select_status priority (source ∷ rest) selected report =
      let resolved = resolve states source now in
      select_status priority rest (min selected (position_of (shown_status resolved) priority))
        (counted resolved report)

  draw_aggregate : LayoutAggregateStatusConfig → Option Rgb → Canvas → Canvas × Bool
  unfolding fill_or_fail
  draw_aggregate aggregate none c =
      fail c (str "Aggregate status color became invalid during rendering")
  draw_aggregate aggregate (some color) c =
      let (c', filled) =
        fill_or_fail c aggregate.x aggregate.y aggregate.width aggregate.height color
          (str "Aggregate status bounds became invalid during rendering") in
      if filled then (count_rendered c', true) else (c', false)

  -- The colour of the selected status.
  unfoldable pub aggregate_color : LayoutAggregateStatusConfig → ℕ → Option Rgb
  aggregate_color aggregate selected =
      if ltb selected (length aggregate.priority)
      then find_text (get_or aggregate.priority selected []) aggregate.colors
      else some aggregate.default_color

  unfoldable pub render_aggregate_status : LayoutAggregateStatusConfig → Canvas → Canvas × Bool
  unfolding select_status draw_aggregate aggregate_color
  render_aggregate_status aggregate c =
      let (selected, report) =
        select_status aggregate.priority aggregate.sources (length aggregate.priority) c.report in
      draw_aggregate aggregate (aggregate_color aggregate selected) (record c { report = report })

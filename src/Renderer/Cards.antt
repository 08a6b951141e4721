-- ===== src/Renderer/Cards.antt =====
-- Layout widgets and cards (`render_indicators` and `render_card` of src/core/renderer.cpp).
use pixel_status_nx.Prelude.{
  ◌+◌, ◌-◌, ◌%◌, Bool, true, false, ◌||◌, Option, none, some, List, [], ◌∷◌, str, pos, ◌==◌,
  if◌then◌else◌,
}
use pixel_status_nx.Floating.{Floating}
use pixel_status_nx.Time.{TimePoint}
use pixel_status_nx.State.{Store, StateValue, resolve, is_empty}
use pixel_status_nx.Config.{
  AppConfig, IndicatorConfig, LayoutClockConfig, ClockCardConfig, BitmapCardConfig,
  LayoutWidgetConfig, indicator_widget, clock_widget, bar_widget, grid_widget, aggregate_widget,
  bitmap_widget, CardConfig, CardContentConfig, bitmap_card, clock_card, indicator_card,
  layout_card,
}
use pixel_status_nx.Frame.{Frame, fill}
use pixel_status_nx.Renderer.{size_mod, empty_report, Canvas, fail, counted, numeric_value}
use pixel_status_nx.Renderer.Widgets.{
  count_invalid, render_indicator, render_bar, render_aggregate_status, render_layout_bitmap,
  draw_rows,
}
use pixel_status_nx.Renderer.Grid.{render_status_grid}
use pixel_status_nx.Renderer.Clock.{Tm, WallClock, split_wall_time, in_zone, draw_time}

-- `report.success = true`.
abbrev pub succeed : Canvas → Canvas
succeed c = record c { report = record c.report { success = true } }

-- The end of a function that stops at its first failure.
abbrev pub finish : Canvas × Bool → Canvas
finish (c, true) = succeed c
finish (c, false) = c

-- A clock widget is drawn in its bounds.
unfoldable pub draw_widget_time : LayoutClockConfig → Tm → Bool → Canvas → Canvas × Bool
draw_widget_time clock shown show_colon c =
    let (output, drawn) =
      draw_time clock.x clock.y clock.width clock.height shown.tm_hour shown.tm_min show_colon
        clock.color c.output in
    if drawn
    then (record c { output = output }, true)
    else fail (record c { output = output })
        (str "Layout clock bounds became invalid during rendering")

module _ (fl : Floating) (w : WallClock) where
  -- The fields of a supplied instant, if it is a number in range.
  unfoldable pub source_time : StateValue fl.Double → Option (Tm × Tm)
  source_time value = elim (numeric_value fl value) [
    | none ↦ none
    | some epoch ↦
        if fl.less epoch (fl.of_int (pos 0)) || fl.less (fl.of_int (pos 32503680000)) epoch
        then none
        else split_wall_time w (w.from_time_t (fl.truncate epoch))
  ]

  module _ (states : Store fl.Double) (config : AppConfig fl.Double) (now origin : TimePoint)
      (wall_now : w.WallTime) where
    -- The canvas and the wall time, once it has been converted.
    abbrev pub Layout : Type 0
    Layout = Canvas × Option (Tm × Tm)

    unfoldable pub render_sourced_clock : LayoutClockConfig → Canvas → Canvas × Bool
    unfolding source_time draw_widget_time
    render_sourced_clock clock c = elim (resolve states clock.source now) [
      | none ↦ (record c { report = counted {D = fl.Double} none c.report }, true)
      | some resolved ↦ elim (source_time resolved.state.value) [
        | none ↦ (count_invalid c, true)
        | some times ↦ draw_widget_time clock (in_zone clock.timezone times) true c
      ]
    ]

    -- A clock with no source shows the wall time, which is converted once for the card.
    unfoldable pub load_wall_time : Option (Tm × Tm) → Option (Tm × Tm)
    load_wall_time none = split_wall_time w wall_now
    load_wall_time (some times) = some times

    unfoldable pub render_wall_clock : LayoutClockConfig → Layout → Layout × Bool
    unfolding load_wall_time draw_widget_time
    render_wall_clock clock (c, loaded) = elim (load_wall_time loaded) [
      | none ↦ (
        (
          record c {
            report = record c.report {
              error = str "Layout clock could not convert the current wall time";
            };
          },
          loaded,
        ),
        false,
      )
      | some times ↦
          let shown = in_zone clock.timezone times in
          let (c', drawn) = draw_widget_time clock shown (shown.tm_sec % 2 == 0) c in
          ((c', some times), drawn)
    ]

    abbrev keep : Option (Tm × Tm) → Canvas × Bool → Layout × Bool
    keep loaded (c, drawn) = ((c, loaded), drawn)

    unfoldable pub render_widget : LayoutWidgetConfig fl.Double → Layout → Layout × Bool
    unfolding render_sourced_clock render_wall_clock
    render_widget (indicator_widget indicator) (c, loaded) =
        keep loaded (render_indicator fl states config now origin indicator c)
    render_widget (bar_widget bar) (c, loaded) =
        keep loaded (render_bar fl states config now origin bar c)
    render_widget (grid_widget grid) (c, loaded) =
        keep loaded (render_status_grid fl states config now origin grid c)
    render_widget (aggregate_widget aggregate) (c, loaded) =
        keep loaded (render_aggregate_status fl states now aggregate c)
    render_widget (bitmap_widget bitmap) (c, loaded) = keep loaded (render_layout_bitmap bitmap c)
    render_widget (clock_widget clock) (c, loaded) =
        if is_empty clock.source
        then render_wall_clock clock (c, loaded)
        else keep loaded (render_sourced_clock clock c)

    -- The loop over the widgets.
    unfoldable pub render_widgets : List (LayoutWidgetConfig fl.Double) → Layout → Layout × Bool
    unfolding render_widget
    render_widgets [] s = (s, true)
    render_widgets (widget ∷ rest) s =
        let (s', drawn) = render_widget widget s in
        let later = render_widgets rest s' in if drawn then later else (s', false)

    -- The loop over the indicators.
    unfoldable pub draw_indicators : List IndicatorConfig → Canvas → Canvas × Bool
    draw_indicators [] c = (c, true)
    draw_indicators (indicator ∷ rest) c =
        let (c', drawn) = render_indicator fl states config now origin indicator c in
        let later = draw_indicators rest c' in if drawn then later else (c', false)

    -- `RenderReport report; output.fill(config.display.background);`
    abbrev pub blank : Frame → Canvas
    blank output = record { report = empty_report; output = fill output config.display.background }

    unfoldable pub render_indicators : List IndicatorConfig → Frame → Canvas
    unfolding draw_indicators
    render_indicators indicators output = finish (draw_indicators indicators (blank output))

    unfoldable pub render_bitmap_card : BitmapCardConfig → Canvas → Canvas × Bool
    unfolding draw_rows
    render_bitmap_card bitmap c =
        let (output, drawn) = draw_rows bitmap.palette 0 0 bitmap.pixels c.output in
        if drawn
        then (record c { output = output }, true)
        else fail (record c { output = output }) (str "Bitmap card became invalid during rendering")

    -- Both clocks are drawn where they fit.
    unfoldable pub draw_clock_card : ClockCardConfig → Tm × Tm → Frame → Frame
    draw_clock_card clock (here, there) output =
        let show_colon = here.tm_sec % 2 == 0 in
        let upper =
          (draw_time 0 0 output.width 7 here.tm_hour here.tm_min show_colon clock.local_color
            output).0 in
        (draw_time 0 ((upper.height + size_mod - 7) % size_mod) upper.width 7 there.tm_hour
          there.tm_min show_colon clock.utc_color upper).0

    unfoldable pub render_clock_card : ClockCardConfig → Canvas → Canvas × Bool
    unfolding draw_clock_card
    render_clock_card clock c = elim (split_wall_time w wall_now) [
      | none ↦ fail c (str "Clock card could not convert the current wall time")
      | some times ↦ (record c { output = draw_clock_card clock times c.output }, true)
    ]

    abbrev without_time : Layout × Bool → Canvas × Bool
    without_time ((c, loaded), drawn) = (c, drawn)

    render_content : CardContentConfig fl.Double → Frame → Canvas
    unfolding render_indicators render_widgets render_bitmap_card render_clock_card
    render_content (indicator_card indicators) output =
        render_indicators indicators.indicators output
    render_content (layout_card layout) output =
        finish (without_time (render_widgets layout.widgets (blank output, none)))
    render_content (bitmap_card bitmap) output = finish (render_bitmap_card bitmap (blank output))
    render_content (clock_card clock) output = finish (render_clock_card clock (blank output))

    unfoldable pub render_card : CardConfig fl.Double → Frame → Canvas
    unfolding render_content
    render_card card output = render_content card.content output

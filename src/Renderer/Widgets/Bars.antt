-- ===== src/Renderer/Widgets/Bars.antt =====
-- Bars are drawn whole (`render_bar` of src/core/renderer.cpp).
use pixel_status_nx.Prelude.{
  ℕ, ◌≤◌, ◌<◌, ◌≡◌, refl, true, inl, inr, Option, none, some, arith, Bool-cases, Option-cases, ◌==◌,
  if◌then◌else◌, str,
}
use pixel_status_nx.Floating.{Floating}
use pixel_status_nx.Time.{TimePoint}
use pixel_status_nx.Color.{Rgb}
use pixel_status_nx.State.{Store}
use pixel_status_nx.Config.{AppConfig, LayoutBarConfig, BarDirection, right, left, up, down}
use pixel_status_nx.Frame.{Frame}
use pixel_status_nx.Frame.Pixels.{Fits, Resembles}
use pixel_status_nx.Renderer.{Canvas, SourceSample, numeric_value, sample_source}
use pixel_status_nx.Renderer.Widgets.{
  Rect, is_horizontal, filled_rect, filled_extent, draw_filled, draw_value, render_bar,
  fill_or_fail, count_rendered,
}
use pixel_status_nx.Renderer.Widgets.Kept.{fill_or_fail-Keeps, fill_or_fail-Fits}

-- The extent of a bar along its direction.
abbrev extent_of : {D : Type 0} → LayoutBarConfig D → ℕ
extent_of bar = if is_horizontal bar.direction then bar.width else bar.height

-- A rectangle that lies in the frame.
abbrev FitsRect : Frame → Rect → Type 0
FitsRect f r = Fits f r.x r.y r.width r.height

-- The part of a bar that is filled lies in the bar, at the end where its direction begins.
pub filled_rect_inside :
    {D : Type 0} (bar : LayoutBarConfig D) (filled : ℕ) (f : Frame)
    → Fits f bar.x bar.y bar.width bar.height
    → 0 < filled
    → filled ≤ extent_of bar
    → FitsRect f (filled_rect bar filled)
unfolding filled_rect is_horizontal
filled_rect_inside bar filled f fits some_filled bound = toward bar.direction refl
  where
    toward : (d : BarDirection) → bar.direction ≡ d → FitsRect f (filled_rect bar filled)
    toward right e =
        let small = rw (e, is_horizontal) at bound in
        rw (e, filled_rect) (some_filled, fits.1, omega arith, fits.3)
    toward left e =
        let small = rw (e, is_horizontal) at bound in
        rw (e, filled_rect) (some_filled, fits.1, omega arith, fits.3)
    toward up e =
        let small = rw (e, is_horizontal) at bound in
        rw (e, filled_rect) (fits.0, some_filled, fits.2, omega arith)
    toward down e =
        let small = rw (e, is_horizontal) at bound in
        rw (e, filled_rect) (fits.0, some_filled, fits.2, omega arith)

module _ (fl : Floating) (bar : LayoutBarConfig fl.Double) where
  filled_extent-le :
      (value : fl.Double) (filled : ℕ)
      → filled_extent fl bar value ≡ some filled
      → filled ≤ extent_of bar
  unfolding filled_extent
  filled_extent-le value filled h = ground arith

  module _ (c : Canvas) (fits : Fits c.output bar.x bar.y bar.width bar.height) where
    draw_filled_drawn :
        (value : fl.Double) (color : Rgb)
        → (draw_filled fl bar (filled_extent fl bar value) color c).1 ≡ true
    unfolding draw_filled
    draw_filled_drawn value color = drawn (filled_extent fl bar value) refl
      where
        drawn :
            (extent : Option ℕ)
            → filled_extent fl bar value ≡ extent
            → (draw_filled fl bar extent color c).1 ≡ true
        drawn none e = refl
        drawn (some filled) e = elim (Bool-cases (filled == 0)) [
          | inl z ↦ rw (z, draw_filled) refl
          | inr z ↦
              let r = filled_rect bar filled in
              let inside =
                filled_rect_inside bar filled c.output fits (ground arith)
                  (filled_extent-le value filled e) in
              rw (z, draw_filled) (fill_or_fail-Fits c r.x r.y r.width r.height color _ inside)
        ]

    draw_value_drawn : (sample : SourceSample fl.Double) → (draw_value fl bar sample c).1 ≡ true
    unfolding draw_value
    draw_value_drawn sample = elim (Option-cases sample.state) [
      | inl a ↦ rw (a, draw_value) refl
      | inr (resolved, a) ↦ elim (Option-cases sample.color) [
        | inl b ↦ rw (a, b, draw_value) refl
        | inr (color, b) ↦ elim (Option-cases (numeric_value fl resolved.state.value)) [
          | inl n ↦ rw (a, b, n, draw_value) refl
          | inr (value, n) ↦ rw (a, b, n, draw_value) (draw_filled_drawn value color)
        ]
      ]
    ]

Fits-kept :
    {f g : Frame} (x y width height : ℕ)
    → Resembles f g
    → Fits f x y width height
    → Fits g x y width height
Fits-kept x y width height same fits = rw (same.same_width, same.same_height) fits

-- A bar that is not empty and lies in the frame is drawn, whatever its source and its value:
-- neither the track nor the fill is refused.
pub render_bar_drawn :
    (fl : Floating) (states : Store fl.Double) (config : AppConfig fl.Double)
    (now origin : TimePoint) (bar : LayoutBarConfig fl.Double) (c : Canvas)
    → Fits c.output bar.x bar.y bar.width bar.height
    → (render_bar fl states config now origin bar c).1 ≡ true
unfolding render_bar
render_bar_drawn fl states config now origin bar c fits =
    let track =
      fill_or_fail c bar.x bar.y bar.width bar.height bar.track_color
        (str "Layout bar bounds became invalid during rendering") in
    let same =
      fill_or_fail-Keeps c bar.x bar.y bar.width bar.height bar.track_color
        (str "Layout bar bounds became invalid during rendering") in
    let sampled = sample_source fl states config bar.source now origin track.0.report in
    rw (fill_or_fail-Fits c bar.x bar.y bar.width bar.height bar.track_color _ fits, render_bar)
      (draw_value_drawn fl bar (count_rendered (record track.0 { report = sampled.1 }))
        (Fits-kept bar.x bar.y bar.width bar.height same fits) sampled.0)

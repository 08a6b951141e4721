-- ===== src/Renderer/Transition.antt =====
-- `compose_transition` of src/core/renderer.cpp. A read outside of a frame, which would be a null
-- dereference, is `none`.
pub mod Composed
use pixel_status_nx.Prelude.{
  ℕ, zero, suc, ◌+◌, ◌-◌, Bool, true, false, Option, none, some, pos, pos_part, ltb, leb,
  if◌then◌else◌, min,
}
use pixel_status_nx.Floating.{Floating}
use pixel_status_nx.Color.{Rgb, interpolate}
use pixel_status_nx.Config.{
  CardTransition, instant, fade, slide_left, slide_right, slide_up, slide_down,
}
use pixel_status_nx.Frame.{Frame, pixel, set_pixel}

-- The loop over the columns that are left of a row, with the colour of each pixel.
unfoldable pub paint_row : ℕ → ℕ → ℕ → (ℕ → ℕ → Option Rgb) → Frame → Option Frame
paint_row zero x y source output = some output
paint_row (suc n) x y source output = elim (source x y) [
  | none ↦ none
  | some color ↦ paint_row n (x + 1) y source (set_pixel output x y color).0
]

unfoldable pub paint_rows : ℕ → ℕ → (ℕ → ℕ → Option Rgb) → Frame → Option Frame
unfolding paint_row
paint_rows zero y source output = some output
paint_rows (suc n) y source output = elim (paint_row output.width 0 y source output) [
  | none ↦ none
  | some output' ↦ paint_rows n (y + 1) source output'
]

abbrev pub is_sideways : CardTransition → Bool
is_sideways slide_left = true
is_sideways slide_right = true
is_sideways _ = false

-- The pixel that a slide shows at a position; any other transition slides down.
unfoldable pub slide_source : CardTransition → Frame → Frame → ℕ → ℕ → ℕ → ℕ → ℕ → Option Rgb
slide_source slide_left from to width height offset x y =
    if ltb (x + offset) width then pixel from (x + offset) y else pixel to (x + offset - width) y
slide_source slide_right from to width height offset x y =
    if leb offset x then pixel from (x - offset) y else pixel to (width - offset + x) y
slide_source slide_up from to width height offset x y =
    if ltb (y + offset) height then pixel from x (y + offset) else pixel to x (y + offset - height)
slide_source _ from to width height offset x y =
    if leb offset y then pixel from x (y - offset) else pixel to x (height - offset + y)

module _ (fl : Floating) where
  blended : fl.Double → Option Rgb → Option Rgb → Option Rgb
  blended progress (some a) (some b) = some (interpolate fl a b progress)
  blended progress _ _ = none

  -- The pixel of a fade.
  unfoldable pub fade_source : Frame → Frame → fl.Double → ℕ → ℕ → Option Rgb
  unfolding blended
  fade_source from to progress x y = blended progress (pixel from x y) (pixel to x y)

  -- How far a slide has come.
  unfoldable pub slide_offset : CardTransition → ℕ → ℕ → fl.Double → ℕ
  slide_offset transition width height progress =
      let extent = if is_sideways transition then width else height in
      min extent (pos_part (fl.truncate (fl.mul progress (fl.of_int (pos extent)))))

  abbrev is_fade : CardTransition → Bool
  is_fade fade = true
  is_fade _ = false

  -- The colour of each pixel under a transition.
  unfoldable pub transition_source :
      Frame → Frame → CardTransition → fl.Double → ℕ → ℕ → ℕ → ℕ → Option Rgb
  unfolding fade_source slide_source slide_offset
  transition_source from to transition progress width height x y =
      if is_fade transition
      then fade_source from to progress x y
      else slide_source transition from to width height
          (slide_offset transition width height progress) x y

  unfoldable pub compose_transition :
      Frame → Frame → CardTransition → fl.Double → Frame → Option Frame
  unfolding paint_rows transition_source
  compose_transition from to transition progress output =
      paint_rows output.height 0
        (transition_source from to transition progress output.width output.height) output

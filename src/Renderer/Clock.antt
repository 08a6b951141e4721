-- ===== src/Renderer/Clock.antt =====
-- Digits and clocks (src/core/renderer.cpp). The conversions of `<ctime>` and of
-- `std::chrono::system_clock` are parameters.
use Prim.Native.Nat.{bit_and}
use pixel_status_nx.Prelude.{
  ℕ, zero, suc, ◌+◌, ◌-◌, ◌/◌, ◌%◌, ◌^◌, Bool, true, false, ◌||◌, Option, none, some, List, [], ◌∷◌,
  ℤ, ltb, leb, ◌==◌, if◌then◌else◌, get_or,
}
use pixel_status_nx.Color.{Rgb}
use pixel_status_nx.Config.{ClockTimeZone, local, utc}
use pixel_status_nx.Frame.{Frame, set_pixel}

-- The fields of `std::tm` that are read.
pub record Tm : Type 0 where
  pub tm_hour : ℕ
  pub tm_min : ℕ
  pub tm_sec : ℕ

pub record WallClock : Type 1 where
  pub WallTime : Type 0
  pub to_time_t : WallTime → ℤ
  pub from_time_t : ℤ → WallTime
  -- `localtime_r` and `gmtime_r`.
  pub local_time : ℤ → Option Tm
  pub gm_time : ℤ → Option Tm

-- The local and the UTC fields, in this order.
unfoldable pub split_wall_time : (w : WallClock) → w.WallTime → Option (Tm × Tm)
split_wall_time w wall_now = elim (w.local_time (w.to_time_t wall_now)) [
  | none ↦ none
  | some here ↦ elim (w.gm_time (w.to_time_t wall_now)) [
    | none ↦ none
    | some there ↦ some (here, there)
  ]
]

abbrev pub in_zone : ClockTimeZone → Tm × Tm → Tm
in_zone local (here, there) = here
in_zone utc (here, there) = there

abbrev glyph : ℕ → ℕ → ℕ → ℕ → ℕ → ℕ → ℕ → List ℕ
glyph a b c d e f g = a ∷ b ∷ c ∷ d ∷ e ∷ f ∷ g ∷ []

unfoldable pub digit_glyphs : List (List ℕ)
digit_glyphs =
    glyph 0b111 0b101 0b101 0b101 0b101 0b101 0b111
    ∷ glyph 0b010 0b110 0b010 0b010 0b010 0b010 0b111
    ∷ glyph 0b111 0b001 0b001 0b111 0b100 0b100 0b111
    ∷ glyph 0b111 0b001 0b001 0b111 0b001 0b001 0b111
    ∷ glyph 0b101 0b101 0b101 0b111 0b001 0b001 0b001
    ∷ glyph 0b111 0b100 0b100 0b111 0b001 0b001 0b111
    ∷ glyph 0b111 0b100 0b100 0b111 0b101 0b101 0b111
    ∷ glyph 0b111 0b001 0b001 0b010 0b010 0b010 0b010
    ∷ glyph 0b111 0b101 0b101 0b111 0b101 0b101 0b111
    ∷ glyph 0b111 0b101 0b101 0b111 0b001 0b001 0b111
    ∷ []

-- The columns that are left of a row of a glyph.
unfoldable pub draw_columns : ℕ → ℕ → ℕ → ℕ → ℕ → Rgb → Frame → Frame
draw_columns zero column x y bits color output = output
draw_columns (suc n) column x y bits color output = draw_columns n (column + 1) x y bits color (
    if bit_and bits (2 ^ (2 - column)) == 0
    then output
    else (set_pixel output (x + column) y color).0)

unfoldable pub draw_glyph : List ℕ → ℕ → ℕ → Rgb → Frame → Frame
unfolding draw_columns
draw_glyph [] x y color output = output
draw_glyph (bits ∷ rest) x y color output =
    draw_glyph rest x (y + 1) color (draw_columns 3 0 x y bits color output)

unfoldable pub draw_digit : ℕ → ℕ → ℕ → Rgb → Frame → Frame
unfolding draw_glyph digit_glyphs
draw_digit x y digit color output = draw_glyph (get_or digit_glyphs digit []) x y color output

unfoldable pub draw_colon : ℕ → ℕ → Bool → Rgb → Frame → Frame
draw_colon x y false color output = output
draw_colon x y true color output =
    (set_pixel (set_pixel output (x + 7) (y + 2) color).0 (x + 7) (y + 4) color).0

unfoldable pub draw_time : ℕ → ℕ → ℕ → ℕ → ℕ → ℕ → Bool → Rgb → Frame → Frame × Bool
unfolding draw_digit draw_colon
draw_time x y width height hour minute show_colon color output =
    if ltb width 15
      || ltb height 7
      || leb output.width x
      || ltb (output.width - x) width
      || leb output.height y
      || ltb (output.height - y) height
    then (output, false)
    else (let ox = x + (width - 15) / 2 in
        let oy = y + (height - 7) / 2 in
        let hours =
          draw_digit (ox + 3) oy (hour % 10) color (draw_digit ox oy (hour / 10) color output) in
        let dotted = draw_colon ox oy show_colon color hours in
        (
          draw_digit (ox + 12) oy (minute % 10) color
              (draw_digit (ox + 9) oy (minute / 10) color dotted),
          true,
        ))

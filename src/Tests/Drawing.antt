-- ===== src/Tests/Drawing.antt =====
-- The theorems on frames, colours, packets and the renderer at concrete inputs.
use pixel_status_nx.Prelude.{
  ℕ, ◌+◌, ◌/◌, ◌%◌, ◌≤◌, ◌<◌, ◌≡◌, refl, ◌↔◌, true, false, ◌&&◌, some, List, pos, ◌+ℤ◌, ltb, arith,
  length, get_elem?, replicate, ◌==◌, if◌then◌else◌,
}
use pixel_status_nx.Color.{IsRgb, black, parse_rgb_hex, to_rgb_hex}
use pixel_status_nx.Color.Hex.{parse_rgb_hex-to_rgb_hex}
use pixel_status_nx.Frame.{Frame, make_frame, pixel, set_pixel, fill_rect}
use pixel_status_nx.Frame.Pixels.{
  Resembles, make_frame-IsFrame, Fits, in_rect, fill_rect-Fits, pixel-fill_rect, pixel-set_pixel,
  make_frame-Resembles,
}
use pixel_status_nx.Appearance.{blink, sample}
use pixel_status_nx.Appearance.Blink.{sample-blink}
use pixel_status_nx.Mi.{xy_to_index, build_block_packet}
use pixel_status_nx.Mi.Layout.{Holds, xy_to_index-some, build_block_packet-layout}
use pixel_status_nx.Config.{slide_left}
use pixel_status_nx.Renderer.Widgets.{render_bar}
use pixel_status_nx.Renderer.Widgets.Bars.{render_bar_drawn}
use pixel_status_nx.Renderer.Render.{segment, cycle_of, find_active}
use pixel_status_nx.Renderer.Render.Active.{Active, find_active-Active}
use pixel_status_nx.Renderer.Grid.{
  grid_cell, render_status_grid, bad_configuration, bad_geometry, grid_rows,
}
use pixel_status_nx.Renderer.Grid.Cells.{IsNarrow, grid_cell_inside}
use pixel_status_nx.Renderer.Grid.Drawn.{render_status_grid_drawn}
use pixel_status_nx.Renderer.Transition.{compose_transition, transition_source}
use pixel_status_nx.Renderer.Transition.Composed.{compose_transition_composed}
use pixel_status_nx.Tests.Samples.{integers, red, canvas, grid, bar, deck, config, one_state}

abbrev screen : Frame
screen = make_frame 16 16 black

screen-Fits : Fits screen 2 3 4 5
unfolding make_frame
screen-Fits = (omega arith, omega arith, omega arith, omega arith)

fill_rect-Fits_example : ((fill_rect screen 2 3 4 5 red).1 ≡ true) ↔ Fits screen 2 3 4 5
fill_rect-Fits_example = fill_rect-Fits screen 2 3 4 5 red

pixel-fill_rect_example :
    pixel (fill_rect screen 2 3 4 5 red).0 3 4
    ≡ (if in_rect 2 3 4 5 3 4 then some red else pixel screen 3 4)
unfolding make_frame
pixel-fill_rect_example =
    pixel-fill_rect screen (make_frame-IsFrame 16 16 black) 2 3 4 5 red screen-Fits 3 4 refl

pixel-set_pixel_example :
    pixel (set_pixel screen 2 3 red).0 5 6
    ≡ (if (5 == 2) && (6 == 3) then some red else pixel screen 5 6)
unfolding make_frame
pixel-set_pixel_example = pixel-set_pixel screen 2 3 red 5 6 (make_frame-IsFrame 16 16 black) refl

red_bytes : IsRgb red
red_bytes = record { r_byte = omega arith; g_byte = omega arith; b_byte = omega arith }

parse_rgb_hex-to_rgb_hex_example : parse_rgb_hex (to_rgb_hex red) ≡ some red
parse_rgb_hex-to_rgb_hex_example = parse_rgb_hex-to_rgb_hex red red_bytes

xy_to_index-some_example :
    (xy_to_index 3 2 ≡ some 35) ↔ ((35 < 256) × (3 ≡ 35 % 16) × (2 ≡ 35 / 16))
xy_to_index-some_example = xy_to_index-some 3 2 35

build_block_packet-layout_example :
    (packet : List ℕ) × (build_block_packet 7 (replicate 32 red) ≡ some packet)
    × (length packet ≡ 100)
    × (get_elem? packet 0 ≡ some 0xBC)
    × (get_elem? packet 1 ≡ some 0x0F)
    × (get_elem? packet 2 ≡ some 8)
    × Holds packet 12 red
    × (get_elem? packet 99 ≡ some 0x55)
build_block_packet-layout_example =
    build_block_packet-layout 7 (replicate 32 red) 3 red (omega arith) refl refl

grid_configured : bad_configuration grid ≡ false
unfolding bad_configuration
grid_configured = refl

grid_room : bad_geometry grid ≡ false
unfolding bad_geometry grid_rows
grid_room = refl

grid-IsNarrow : IsNarrow grid
grid-IsNarrow = record {
  x_narrow = omega arith;
  y_narrow = omega arith;
  width_narrow = omega arith;
  height_narrow = omega arith;
  gap_narrow = omega arith;
  few_sources = omega arith;
}

grid_cell_inside_example :
    let cell = grid_cell grid 2 in
    (0 < cell.width)
    × (0 < cell.height)
    × (1 ≤ cell.x)
    × (cell.x + cell.width ≤ 10)
    × (2 ≤ cell.y)
    × (cell.y + cell.height ≤ 10)
grid_cell_inside_example =
    grid_cell_inside grid grid-IsNarrow grid_configured 2 grid_room (omega arith)

render_status_grid_drawn_example :
    (render_status_grid integers one_state config (pos 5) (pos 0) grid canvas).1 ≡ true
unfolding make_frame
render_status_grid_drawn_example =
    render_status_grid_drawn integers one_state config (pos 5) (pos 0) grid grid-IsNarrow
      grid_configured grid_room canvas (omega arith) (omega arith)

abbrev red_screen : Frame
red_screen = make_frame 16 16 red

compose_transition_composed_example :
    (g : Frame) × (compose_transition integers red_screen screen slide_left (pos 1) screen ≡ some g)
    × Resembles screen g
    × (pixel g 3 4 ≡ transition_source integers red_screen screen slide_left (pos 1) 16 16 3 4)
unfolding make_frame
compose_transition_composed_example =
    compose_transition_composed integers red_screen screen slide_left (pos 1) screen 3 4
      (make_frame-IsFrame 16 16 red) (make_frame-IsFrame 16 16 black)
      (make_frame-IsFrame 16 16 black) (make_frame-Resembles 16 16 black red)
      (make_frame-Resembles 16 16 black black) refl

render_bar_drawn_example :
    (render_bar integers one_state config (pos 5) (pos 0) bar canvas).1 ≡ true
unfolding make_frame
render_bar_drawn_example =
    render_bar_drawn integers one_state config (pos 5) (pos 0) bar canvas
      (omega arith, omega arith, omega arith, omega arith)

find_active-Active_example : Active (pos 1300) 0 deck (find_active (pos 1300) 0 deck)
unfolding cycle_of segment ◌+ℤ◌
find_active-Active_example = find_active-Active (pos 1300) 0 deck (omega arith) (omega arith)

sample-blink_example :
    sample integers (blink red (pos 400) (pos 600)) (pos 2300)
    ≡ (if ltb (2300 % (400 + 600)) 400 then red else black)
sample-blink_example = sample-blink integers red 400 600 2300 (omega arith)

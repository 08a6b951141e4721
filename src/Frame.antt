-- ===== src/Frame.antt =====
-- src/core/frame.cpp and include/pixelstatus/frame.hpp. A writing method returns the new frame
-- and its result. The pixels stand in rows; a write past the end of the vector, which no caller
-- makes, changes nothing.
pub mod Runs
pub mod Pixels
use pixel_status_nx.Prelude.{
  ℕ, zero, suc, ◌+◌, ◌-◌, ◌*◌, Bool, true, false, ◌||◌, Option, none, List, map, ltb, leb, ◌==◌,
  if◌then◌else◌, length, get_elem?, set, replicate,
}
use pixel_status_nx.Color.{Rgb}

pub record Frame : Type 0 where
  pub width : ℕ
  pub height : ℕ
  pub pixels : List Rgb

unfoldable pub make_frame : ℕ → ℕ → Rgb → Frame
make_frame width height initial = record {
  width = width;
  height = height;
  pixels = replicate (width * height) initial;
}

unfoldable pub size : Frame → ℕ
size f = length f.pixels

unfoldable pub fill : Frame → Rgb → Frame
fill f color = record f { pixels = map (λ _. color) f.pixels }

unfoldable pub set_pixel : Frame → ℕ → ℕ → Rgb → Frame × Bool
set_pixel f x y color =
    if leb f.width x || leb f.height y
    then (f, false)
    else (record f { pixels = set f.pixels (y * f.width + x) color }, true)

-- `nullptr` is `none`.
unfoldable pub pixel : Frame → ℕ → ℕ → Option Rgb
pixel f x y = if leb f.width x || leb f.height y then none else get_elem? f.pixels (y * f.width + x)

-- `std::fill` of n pixels from a position.
unfoldable pub fill_n : List Rgb → ℕ → ℕ → Rgb → List Rgb
fill_n pixels start zero color = pixels
fill_n pixels start (suc n) color = fill_n (set pixels start color) (start + 1) n color

-- The loop over the rows that are left.
unfoldable pub fill_rows : List Rgb → ℕ → ℕ → ℕ → ℕ → ℕ → Rgb → List Rgb
fill_rows pixels stride x row zero width color = pixels
fill_rows pixels stride x row (suc n) width color =
    fill_rows (fill_n pixels (row * stride + x) width color) stride x (row + 1) n width color

unfoldable pub fill_rect : Frame → ℕ → ℕ → ℕ → ℕ → Rgb → Frame × Bool
fill_rect f x y width height color =
    if width == 0 || height == 0 || leb f.width x || leb f.height y
    then (f, false)
    else if ltb (f.width - x) width || ltb (f.height - y) height
    then (f, false)
    else (record f { pixels = fill_rows f.pixels f.width x y height width color }, true)

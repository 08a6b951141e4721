-- ===== src/Mi.antt =====
-- src/core/mi_protocol.cpp and include/pixelstatus/mi_protocol.hpp: the packets of the LED matrix.
pub mod Layout
use pixel_status_nx.Prelude.{
  ℕ, ◌+◌, ◌*◌, ◌%◌, Bool, ◌||◌, not, Option, none, some, List, [], ◌∷◌, ltb, leb, ◌==◌,
  if◌then◌else◌, length, ◌++◌,
}
use pixel_status_nx.Color.{Rgb}

abbrev pub matrix_width : ℕ
matrix_width = 16

abbrev pub matrix_height : ℕ
matrix_height = 16

abbrev pub pixels_per_block : ℕ
pixels_per_block = 32

abbrev pub block_count : ℕ
block_count = 8

-- The cast to `std::uint8_t` is written out.
unfoldable pub xy_to_index : ℕ → ℕ → Option ℕ
xy_to_index x y =
    if leb matrix_width x || leb matrix_height y then none else some ((y * matrix_width + x) % 256)

unfoldable pub build_pixel_packet : ℕ → Rgb → List ℕ
build_pixel_packet pixel_index color =
    let trailing_index = if pixel_index == 0 then 0xFF else (pixel_index + 1) % 256 in
    0xBC ∷ 0x01 ∷ 0x01 ∷ 0x00 ∷ pixel_index ∷ color.r ∷ color.g ∷ color.b ∷ trailing_index ∷ 0x55
    ∷ []

-- The loop that writes three bytes for each colour.
unfoldable pub color_bytes : List Rgb → List ℕ
color_bytes [] = []
color_bytes (color ∷ rest) = color.r ∷ color.g ∷ color.b ∷ color_bytes rest

unfoldable pub build_block_packet : ℕ → List Rgb → Option (List ℕ)
unfolding color_bytes
build_block_packet block_index pixels =
    if leb block_count block_index || not (length pixels == pixels_per_block)
    then none
    else some (0xBC ∷ 0x0F ∷ (block_index + 1) % 256 ∷ (color_bytes pixels ++ 0x55 ∷ []))

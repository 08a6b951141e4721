-- ===== src/Color.antt =====
-- src/core/color.cpp and include/pixelstatus/color.hpp.
pub mod Hex
use pixel_status_nx.Prelude.{
  ℕ, ◌+◌, ◌-◌, ◌/◌, ◌%◌, ◌<◌, Bool, ◌||◌, not, Option, none, some, List, [], ◌∷◌, ◌++◌, Text, pos,
  ltb, ◌==◌, if◌then◌else◌, length, take, drop, get_or,
}
use pixel_status_nx.Floating.{Floating, clamp, to_byte}
use pixel_status_nx.FromChars.{parse_whole}

-- The channels are `std::uint8_t`: see `IsRgb`.
pub record Rgb : Type 0 where
  pub r : ℕ
  pub g : ℕ
  pub b : ℕ

pub record IsRgb (c : Rgb) : Type 0 where
  pub r_byte : c.r < 256
  pub g_byte : c.g < 256
  pub b_byte : c.b < 256

-- `Rgb{}`.
abbrev pub black : Rgb
black = record { r = 0; g = 0; b = 0 }

unfoldable pub parse_byte : Text → Option ℕ
unfolding parse_whole
parse_byte text = elim (parse_whole 16 4294967295 text) [
  | none ↦ none
  | some value ↦ if ltb 255 value then none else some value
]

unfoldable pub rgb_of : Option ℕ → Option ℕ → Option ℕ → Option Rgb
rgb_of (some r) (some g) (some b) = some (record { r = r; g = g; b = b })
rgb_of _ _ _ = none

unfoldable pub parse_rgb_hex : Text → Option Rgb
unfolding parse_byte rgb_of
parse_rgb_hex value =
    if not (length value == 7) || not (get_or value 0 0 == b'#')
    then none
    else rgb_of (parse_byte (take 2 (drop 1 value))) (parse_byte (take 2 (drop 3 value)))
        (parse_byte (take 2 (drop 5 value)))

-- A digit under `std::uppercase` and `std::hex`.
unfoldable pub hex_char : ℕ → ℕ
hex_char d = if ltb d 10 then b'0' + d else b'A' + d - 10

-- A byte under `std::setw(2)` and `std::setfill('0')`.
unfoldable pub put_hex : ℕ → Text
unfolding hex_char
put_hex v = hex_char (v / 16) ∷ hex_char (v % 16) ∷ []

unfoldable pub to_rgb_hex : Rgb → Text
unfolding put_hex
to_rgb_hex color = b'#' ∷ (put_hex color.r ++ put_hex color.g ++ put_hex color.b)

module _ (fl : Floating) where
  -- The local `channel` of `interpolate`, at the clamped amount.
  unfoldable pub channel : fl.Double → ℕ → ℕ → ℕ
  channel clamped start end = to_byte (
      fl.lround (
        fl.add (fl.of_int (pos start))
          (fl.mul (fl.sub (fl.of_int (pos end)) (fl.of_int (pos start))) clamped)))

  unfoldable pub interpolate : Rgb → Rgb → fl.Double → Rgb
  unfolding channel
  interpolate from to amount =
      let clamped = clamp fl amount (fl.of_int (pos 0)) (fl.of_int (pos 1)) in
      record {
        r = channel clamped from.r to.r;
        g = channel clamped from.g to.g;
        b = channel clamped from.b to.b;
      }

  unfoldable pub scale_brightness : Rgb → fl.Double → Rgb
  unfolding interpolate
  scale_brightness color amount = interpolate black color amount

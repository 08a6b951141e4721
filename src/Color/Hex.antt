-- ===== src/Color/Hex.antt =====
-- Colours as hexadecimal text (`parse_rgb_hex`, `to_rgb_hex` of src/core/color.cpp).
use pixel_status_nx.Prelude.{ℕ, ◌+◌, ◌*◌, ◌/◌, ◌%◌, ◌<◌, ◌≡◌, ◌∙◌, ap, refl, some, [], ◌∷◌, arith}
use pixel_status_nx.FromChars.{digit, digit_value, scan_digits, from_chars, parse_whole}
use pixel_status_nx.Color.{
  Rgb, IsRgb, parse_byte, parse_rgb_hex, hex_char, put_hex, to_rgb_hex, rgb_of,
}

digit-hex_char : (d : ℕ) → d < 16 → digit 16 (hex_char d) ≡ some d
unfolding digit digit_value hex_char
digit-hex_char d h = ground arith

parse_byte-two :
    (a b x y : ℕ)
    → digit 16 a ≡ some x
    → digit 16 b ≡ some y
    → x < 16
    → y < 16
    → parse_byte (a ∷ b ∷ []) ≡ some (x * 16 + y)
unfolding parse_byte parse_whole from_chars scan_digits
parse_byte-two a b x y p q h k =
    rw (p, q, parse_byte, parse_whole, from_chars, scan_digits) (ground arith)

parse_byte-put_hex : (v : ℕ) → v < 256 → parse_byte (put_hex v) ≡ some v
unfolding put_hex
parse_byte-put_hex v h =
    parse_byte-two (hex_char (v / 16)) (hex_char (v % 16)) (v / 16) (v % 16)
      (digit-hex_char (v / 16) (omega arith)) (digit-hex_char (v % 16) (omega arith)) (omega arith)
      (omega arith)
    ∙ ap some (omega arith)

-- A colour whose channels are bytes is read back from its hexadecimal text.
pub parse_rgb_hex-to_rgb_hex : (c : Rgb) → IsRgb c → parse_rgb_hex (to_rgb_hex c) ≡ some c
unfolding parse_rgb_hex to_rgb_hex put_hex rgb_of
parse_rgb_hex-to_rgb_hex c v =
    rw
      (
        parse_byte-put_hex c.r v.r_byte,
        parse_byte-put_hex c.g v.g_byte,
        parse_byte-put_hex c.b v.b_byte,
      )
      refl

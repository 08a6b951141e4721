-- ===== src/Validation.antt =====
-- src/core/validation.cpp and include/pixelstatus/validation.hpp.
use pixel_status_nx.Prelude.{ℕ, Bool, false, ◌&&◌, ◌||◌, [], ◌∷◌, Text, leb, ◌==◌, length, all_of}

unfoldable pub is_identifier_char : ℕ → Bool
is_identifier_char c =
    (leb b'A' c && leb c b'Z')
    || (leb b'a' c && leb c b'z')
    || (leb b'0' c && leb c b'9')
    || c == b'-'
    || c == b'_'
    || c == b'.'

unfoldable pub is_valid_identifier : Text → ℕ → Bool
unfolding is_identifier_char
is_valid_identifier [] maximum_length = false
is_valid_identifier (c ∷ rest) maximum_length =
    leb (length (c ∷ rest)) maximum_length && all_of is_identifier_char (c ∷ rest)

abbrev pub maximum_identifier_bytes : ℕ
maximum_identifier_bytes = 64

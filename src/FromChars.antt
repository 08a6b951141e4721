-- ===== src/FromChars.antt =====
-- `std::from_chars` for an integer type: the longest prefix of digits, and what stands behind it.
use pixel_status_nx.Prelude.{
  ℕ, ◌+◌, ◌-◌, ◌*◌, ◌&&◌, Option, none, some, [], ◌∷◌, Text, ℤ, pos, sub_ℕ, ltb, leb, ◌==◌,
  if◌then◌else◌, is_some,
}

-- `std::numeric_limits<std::int64_t>::max()`.
abbrev pub int64_max : ℕ
int64_max = 9_223_372_036_854_775_807

unfoldable pub digit_value : ℕ → Option ℕ
digit_value c =
    if leb b'0' c && leb c b'9'
    then some (c - b'0')
    else if leb b'a' c && leb c b'z'
    then some (c - b'a' + 10)
    else if leb b'A' c && leb c b'Z'
    then some (c - b'A' + 10)
    else none

-- A digit of the base.
unfoldable pub digit : ℕ → ℕ → Option ℕ
unfolding digit_value
digit base c = elim (digit_value c) [ none ↦ none | some d ↦ if ltb d base then some d else none ]

unfoldable pub scan_digits : ℕ → ℕ → Text → ℕ × Text
scan_digits base acc [] = (acc, [])
scan_digits base acc (c ∷ rest) = elim (digit base c) [
  | none ↦ (acc, c ∷ rest)
  | some d ↦ scan_digits base (acc * base + d) rest
]

-- The result is `none` for `invalid_argument` and for `result_out_of_range`.
unfoldable pub from_chars : ℕ → ℕ → Text → Option (ℕ × Text)
unfolding scan_digits digit
from_chars base largest [] = none
from_chars base largest (c ∷ rest) =
    let (value, behind) = scan_digits base 0 (c ∷ rest) in
    if is_some (digit base c)
    then (if ltb largest value then none else some (value, behind))
    else none

-- The value if the digits are the whole text.
unfoldable pub parse_whole : ℕ → ℕ → Text → Option ℕ
unfolding from_chars
parse_whole base largest text = elim (from_chars base largest text) [
  | none ↦ none
  | some (value, []) ↦ some value
  | some (value, c ∷ rest) ↦ none
]

-- The same for `std::int64_t` in base ten: a minus sign may stand in front.
abbrev negated : Option ℕ → Option ℤ
negated none = none
negated (some n) = some (sub_ℕ 0 n)

abbrev unsigned : Option ℕ → Option ℤ
unsigned none = none
unsigned (some n) = some (pos n)

unfoldable pub parse_int64 : Text → Option ℤ
unfolding parse_whole
parse_int64 [] = none
parse_int64 (c ∷ rest) =
    if c == b'-'
    then negated (parse_whole 10 (int64_max + 1) rest)
    else unsigned (parse_whole 10 int64_max (c ∷ rest))

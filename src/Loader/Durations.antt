-- ===== src/Loader/Durations.antt =====
-- Duration texts (`parse_duration` of src/core/config.cpp).
pub mod Exact
use pixel_status_nx.Prelude.{
  ℕ, suc, ◌-◌, ◌*◌, ◌/◌, Bool, ◌&&◌, Option, none, some, ◌++◌, Text, str, text_eq, to_string, ℤ,
  pos, negsuc, ltb, leb, if◌then◌else◌, length, take, drop,
}
use pixel_status_nx.FromChars.{parse_int64, int64_max}
use pixel_status_nx.Time.{Duration}
use pixel_status_nx.State.{is_empty}

-- `std::string_view::ends_with`, and what stands before the suffix.
unfoldable pub ends_with : Text → Text → Bool
ends_with text suffix =
    leb (length suffix) (length text) && text_eq (drop (length text - length suffix) text) suffix

abbrev pub without_last : ℕ → Text → Text
without_last n text = take (length text - n) text

-- The multiplier of the unit, and the digits before it.
unfoldable pub split_unit : Text → Option (ℕ × Text)
unfolding ends_with
split_unit value =
    if ends_with value (str "ms")
    then some (1, without_last 2 value)
    else if ends_with value (str "s")
    then some (1_000, without_last 1 value)
    else if ends_with value (str "m")
    then some (60_000, without_last 1 value)
    else if ends_with value (str "h")
    then some (3_600_000, without_last 1 value)
    else none

-- The product, where the amount is not negative and the product is an `std::int64_t`.
unfoldable pub scale_amount : ℕ → Option ℤ → Option Duration
scale_amount multiplier (some (pos amount)) =
    if ltb (int64_max / multiplier) amount then none else some (pos (amount * multiplier))
scale_amount multiplier _ = none

unfoldable pub parse_duration : Text → Option Duration
unfolding split_unit parse_int64 scale_amount
parse_duration value = elim (split_unit value) [
  | none ↦ none
  | some (multiplier, digits) ↦
      if is_empty digits then none else scale_amount multiplier (parse_int64 digits)
]

-- `std::to_string` of a count.
abbrev pub count_text : Duration → Text
count_text (pos n) = to_string n
count_text (negsuc n) = str "-" ++ to_string (suc n)

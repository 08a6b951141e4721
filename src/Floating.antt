-- ===== src/Floating.antt =====
-- The floating-point arithmetic that the code runs on, as a parameter: `double` and `long double`
-- with the operations that the sources apply to them. Laws are stated where a theorem needs them.
use pixel_status_nx.Prelude.{ℕ, ◌%◌, ◌-◌, Bool, ℤ, pos, negsuc, if◌then◌else◌}

pub record Floating : Type 1 where
  pub Double : Type 0
  pub LongDouble : Type 0
  -- `static_cast<double>` of an integer.
  pub of_int : ℤ → Double
  pub is_finite : Double → Bool
  pub equal : Double → Double → Bool
  pub less : Double → Double → Bool
  pub add : Double → Double → Double
  pub sub : Double → Double → Double
  pub mul : Double → Double → Double
  pub div : Double → Double → Double
  -- The literal `0.5`.
  pub half : Double
  pub floor : Double → Double
  -- `static_cast` to an integer type, for a value in range, and `std::lround`.
  pub truncate : Double → ℤ
  pub lround : Double → ℤ
  -- `static_cast<long double>` of an integer and of a double, and its comparisons.
  pub long_of_int : ℤ → LongDouble
  pub long_of_double : Double → LongDouble
  pub long_equal : LongDouble → LongDouble → Bool
  pub long_less : LongDouble → LongDouble → Bool
  pub long_less_eq : LongDouble → LongDouble → Bool

-- `std::clamp`.
unfoldable pub clamp : (fl : Floating) → fl.Double → fl.Double → fl.Double → fl.Double
clamp fl v lo hi = if fl.less v lo then lo else if fl.less hi v then hi else v

-- `static_cast<std::uint8_t>` of an integer.
unfoldable pub to_byte : ℤ → ℕ
to_byte (pos n) = n % 256
to_byte (negsuc n) = 255 - n % 256

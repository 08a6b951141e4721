-- ===== src/Loader/Durations/Exact.antt =====
-- The texts of durations with digits and a unit (`parse_duration` of src/core/config.cpp).
use mathlib.Core.List.{append_assoc}
use native.Mathlib.Nat.{mul-le-mul_left, le-div_iff_mul-le}
use pixel_status_nx.Prelude.{
  ℕ, ◌+◌, ◌-◌, ◌*◌, ◌/◌, ◌≤◌, ◌<◌, ◌≡◌, refl, sym, subst, ap, ◌∙◌, inl, inr, Bool, true, false,
  ◌&&◌, none, some, [], ◌∷◌, ◌++◌, Text, str, text_eq, pos, arith, ltb, leb, ◌==◌, if◌then◌else◌,
  all_of, length, length-append, take, drop, Bool-cases,
}
use pixel_status_nx.FromChars.{
  parse_int64, int64_max, digit, digit_value, scan_digits, from_chars, parse_whole,
}
use pixel_status_nx.Loader.Durations.{
  ends_with, without_last, split_unit, scale_amount, parse_duration,
}

-- A decimal digit, and the number that digits stand for behind one that was read.
abbrev pub is_digit : ℕ → Bool
is_digit c = leb b'0' c && leb c b'9'

abbrev pub decimal : ℕ → Text → ℕ
decimal before [] = before
decimal before (c ∷ rest) = decimal (before * 10 + (c - 48)) rest

-- The units, with their milliseconds.
pub data TimeUnit : Type 0 where
  milliseconds seconds minutes hours : TimeUnit

abbrev pub unit_text : TimeUnit → Text
unit_text milliseconds = str "ms"
unit_text seconds = str "s"
unit_text minutes = str "m"
unit_text hours = str "h"

abbrev pub unit_length : TimeUnit → ℕ
unit_length milliseconds = 1
unit_length seconds = 1_000
unit_length minutes = 60_000
unit_length hours = 3_600_000

digit-some : (c : ℕ) → is_digit c ≡ true → digit 10 c ≡ some (c - 48)
unfolding digit digit_value
digit-some c h = ground arith

scan_digits-all :
    (text : Text) (before : ℕ)
    → all_of is_digit text ≡ true
    → scan_digits 10 before text ≡ (decimal before text, [])
unfolding scan_digits
scan_digits-all [] before h = refl
scan_digits-all (c ∷ rest) before h =
    rw (digit-some c (ground arith), scan_digits)
      (scan_digits-all rest (before * 10 + (c - 48)) (ground arith))

from_chars-digits :
    (largest c : ℕ) (rest : Text)
    → all_of is_digit (c ∷ rest) ≡ true
    → let n = decimal 0 (c ∷ rest) in
      from_chars 10 largest (c ∷ rest) ≡ (if ltb largest n then none else some (n, []))
unfolding from_chars
from_chars-digits largest c rest h =
    rw (scan_digits-all (c ∷ rest) 0 h, digit-some c (ground arith), from_chars) refl

parse_whole-digits :
    (largest c : ℕ) (rest : Text)
    → all_of is_digit (c ∷ rest) ≡ true
    → let n = decimal 0 (c ∷ rest) in
      parse_whole 10 largest (c ∷ rest) ≡ (if ltb largest n then none else some n)
unfolding parse_whole
parse_whole-digits largest c rest h = elim (Bool-cases (ltb largest (decimal 0 (c ∷ rest)))) [
  | inl e ↦ rw (from_chars-digits largest c rest h, e, parse_whole) refl
  | inr e ↦ rw (from_chars-digits largest c rest h, e, parse_whole) refl
]

not_minus : (c : ℕ) → is_digit c ≡ true → c == b'-' ≡ false
not_minus c h = ground arith

parse_int64-digits :
    (c : ℕ) (rest : Text)
    → all_of is_digit (c ∷ rest) ≡ true
    → let n = decimal 0 (c ∷ rest) in
      parse_int64 (c ∷ rest) ≡ (if ltb int64_max n then none else some (pos n))
unfolding parse_int64
parse_int64-digits c rest h = elim (Bool-cases (ltb int64_max (decimal 0 (c ∷ rest)))) [
  | inl e ↦
      rw (not_minus c (ground arith), parse_whole-digits int64_max c rest h, e, parse_int64) refl
  | inr e ↦
      rw (not_minus c (ground arith), parse_whole-digits int64_max c rest h, e, parse_int64) refl
]

drop-append : (front back : Text) → drop (length front) (front ++ back) ≡ back
drop-append [] back = refl
drop-append (c ∷ front) back = drop-append front back

take-append : (front back : Text) → take (length front) (front ++ back) ≡ front
take-append [] back = refl
take-append (c ∷ front) back = ap (◌∷◌ c) (take-append front back)

length-front :
    (front back : Text) (n : ℕ) → length back ≡ n → length (front ++ back) - n ≡ length front
length-front front back n e = omega (arith, length-append front back, e)

ends_with-append :
    (front back suffix : Text)
    → length back ≡ length suffix
    → ends_with (front ++ back) suffix ≡ text_eq back suffix
unfolding ends_with
ends_with-append front back suffix e =
    rw (long, length-front front back (length suffix) e, drop-append) refl
  where
    long : leb (length suffix) (length (front ++ back)) ≡ true
    long = ground (arith, length-append front back, e)

without_last-append :
    (front back : Text) (n : ℕ) → length back ≡ n → without_last n (front ++ back) ≡ front
without_last-append front back n e = rw (length-front front back n e) (take-append front back)

-- The last byte of a text that is not empty.
snoc : (c : ℕ) (rest : Text) → (front : Text) × (last : ℕ) × (c ∷ rest ≡ front ++ last ∷ [])
snoc c [] = ([], c, refl)
snoc c (d ∷ rest) = let (front, last, e) = snoc d rest in (c ∷ front, last, ap (◌∷◌ c) e)

last_digit :
    (front : Text) (last : ℕ) → all_of is_digit (front ++ last ∷ []) ≡ true → is_digit last ≡ true
last_digit [] last h = ground arith
last_digit (c ∷ front) last h = last_digit front last (ground arith)

-- A digit is no part of a unit.
not_milliseconds :
    (front : Text) (last unit : ℕ)
    → is_digit last ≡ true
    → ends_with ((front ++ last ∷ []) ++ unit ∷ []) (str "ms") ≡ false
unfolding text_eq str
not_milliseconds front last unit h =
    rw
      (
        append_assoc front (last ∷ []) (unit ∷ []),
        ends_with-append front (last ∷ unit ∷ []) (str "ms") refl,
      )
      (ground arith)

split_unit-digits :
    (front : Text) (last : ℕ) (u : TimeUnit)
    → is_digit last ≡ true
    → split_unit ((front ++ last ∷ []) ++ unit_text u) ≡ some (unit_length u, front ++ last ∷ [])
unfolding split_unit text_eq str
split_unit-digits front last milliseconds h =
    rw (ends_with-append (front ++ last ∷ []) (str "ms") (str "ms") refl)
      (ap (λ d. some (1, d)) (without_last-append (front ++ last ∷ []) (str "ms") 2 refl))
split_unit-digits front last seconds h =
    let d = front ++ last ∷ [] in
    rw (not_milliseconds front last b's' h, ends_with-append d (str "s") (str "s") refl)
      (ap (λ d. some (1_000, d)) (without_last-append d (str "s") 1 refl))
split_unit-digits front last minutes h =
    let d = front ++ last ∷ [] in
    rw
      (
        not_milliseconds front last b'm' h,
        ends_with-append d (str "m") (str "s") refl,
        ends_with-append d (str "m") (str "m") refl,
      )
      (ap (λ d. some (60_000, d)) (without_last-append d (str "m") 1 refl))
split_unit-digits front last hours h =
    let d = front ++ last ∷ [] in
    rw
      (
        not_milliseconds front last b'h' h,
        ends_with-append d (str "h") (str "s") refl,
        ends_with-append d (str "h") (str "m") refl,
        ends_with-append d (str "h") (str "h") refl,
      )
      (ap (λ d. some (3_600_000, d)) (without_last-append d (str "h") 1 refl))

at_most : (a b : ℕ) → ltb b a ≡ false → a ≤ b
at_most a b h = ground arith

not_above : (a b : ℕ) → a ≤ b → ltb b a ≡ false
not_above a b h = ground arith

-- The test by the quotient is the test of the product.
quotient_test : (n k : ℕ) → 0 < k → ltb (int64_max / k) n ≡ ltb int64_max (n * k)
quotient_test n k h = elim (Bool-cases (ltb int64_max (n * k))) [
  | inr e ↦
      not_above n (int64_max / k) ((le-div_iff_mul-le h).1 (at_most (n * k) int64_max e)) ∙ sym e
  | inl e ↦ elim (Bool-cases (ltb (int64_max / k) n)) [
    | inl f ↦ f ∙ sym e
    | inr f ↦ sym (
        not_above (n * k) int64_max ((le-div_iff_mul-le h).0 (at_most n (int64_max / k) f)) ∙ sym f)
  ]
]

scale_amount-exact :
    (k n : ℕ)
    → 0 < k
    → scale_amount k (if ltb int64_max n then none else some (pos n))
      ≡ (if ltb int64_max (n * k) then none else some (pos (n * k)))
unfolding scale_amount
scale_amount-exact k n h = elim (Bool-cases (ltb int64_max n)) [
  | inl e ↦ rw (e, larger e) refl
  | inr e ↦ rw (e, quotient_test n k h) refl
]
  where
    above : (a b : ℕ) → b < a → ltb b a ≡ true
    above a b h = ground arith

    larger : ltb int64_max n ≡ true → ltb int64_max (n * k) ≡ true
    larger e = above (n * k) int64_max (grind (arith, mul-le-mul_left n h, below n int64_max e))
      where
        below : (a b : ℕ) → ltb b a ≡ true → b < a
        below a b h = ground arith

unit_positive : (u : TimeUnit) → 0 < unit_length u
unit_positive milliseconds = omega arith
unit_positive seconds = omega arith
unit_positive minutes = omega arith
unit_positive hours = omega arith

-- Decimal digits with a unit, ms, s, m or h, are read as the number that the digits stand for times
-- 1, 1000, 60000 or 3600000 milliseconds, where the product fits a signed integer of 64 bits, and they
-- are no duration where it does not.
pub parse_duration-digits :
    (c : ℕ) (rest : Text) (u : TimeUnit)
    → all_of is_digit (c ∷ rest) ≡ true
    → let n = decimal 0 (c ∷ rest) * unit_length u in
      parse_duration ((c ∷ rest) ++ unit_text u) ≡ (if ltb int64_max n then none else some (pos n))
unfolding parse_duration
parse_duration-digits c rest u h =
    let (front, last, e) = snoc c rest in
    let split : split_unit ((c ∷ rest) ++ unit_text u) ≡ some (unit_length u, c ∷ rest) =
      subst (λ d. split_unit (d ++ unit_text u) ≡ some (unit_length u, d)) (sym e)
        (split_unit-digits front last u
          (last_digit front last (subst (λ d. all_of is_digit d ≡ true) e h))) in
    rw (split, parse_duration, parse_int64-digits c rest h)
      (scale_amount-exact (unit_length u) (decimal 0 (c ∷ rest)) (unit_positive u))

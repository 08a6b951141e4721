-- ===== src/Prelude/Strings.antt =====
-- `std::string` and `std::string_view` as lists of bytes, with their equality and order.
use Prim.Native.Nat.{ℕ, zero, suc, ◌+◌, ◌/◌, ◌%◌}
use Prim.Native.Char.{code}
use Prim.Native.String.{String}
use mathlib.Core.Path.{◌≡◌, refl}
use mathlib.Core.Logic.{◌↔◌}
use mathlib.Core.Bool.{Bool, true, false, ◌&&◌, ◌||◌}
use mathlib.Core.List.{List, [], ◌∷◌}
use native.Mathlib.Omega.{arith}
use pixel_status_nx.Prelude.Tests.{ltb, ◌==◌, if◌then◌else◌}

abbrev pub Text : Type 0
Text = List ℕ

-- The bytes of an ASCII literal.
unfoldable pub str : String → Text
str String.[] = []
str (String.◌∷◌ c s) = code c ∷ str s

unfoldable pub text_eq : Text → Text → Bool
text_eq [] [] = true
text_eq [] (b ∷ y) = false
text_eq (a ∷ x) [] = false
text_eq (a ∷ x) (b ∷ y) = (a == b) && text_eq x y

-- `operator<`: lexicographic by unsigned bytes.
pub text_lt : Text → Text → Bool
text_lt x [] = false
text_lt [] (b ∷ y) = true
text_lt (a ∷ x) (b ∷ y) = ltb a b || ((a == b) && text_lt x y)

-- The decimal digits of a number, with fuel.
digits_from : ℕ → ℕ → Text → Text
digits_from zero n behind = behind
digits_from (suc fuel) n behind =
    let rest = digits_from fuel (n / 10) ((b'0' + n % 10) ∷ behind) in
    if ltb n 10 then (b'0' + n) ∷ behind else rest

-- `std::to_string` of an unsigned number: each round takes a digit off, so `n + 1` rounds suffice.
unfoldable pub to_string : ℕ → Text
unfolding digits_from
to_string n = digits_from (suc n) n []

text_eq_sound : (x y : Text) → text_eq x y ≡ true → x ≡ y
unfolding text_eq
text_eq_sound [] [] h = refl
text_eq_sound [] (b ∷ y) h = ground arith
text_eq_sound (a ∷ x) [] h = ground arith
text_eq_sound (a ∷ x) (b ∷ y) h = ground (arith, text_eq_sound x y)

pub text_eq_refl : (x : Text) → text_eq x x ≡ true
unfolding text_eq
text_eq_refl [] = refl
text_eq_refl (a ∷ x) = ground (arith, text_eq_refl x)

pub text_eq_iff : (x y : Text) → (text_eq x y ≡ true) ↔ (x ≡ y)
text_eq_iff x y = (text_eq_sound x y, λ e. cc (text_eq_refl x))

pub text_lt_irrefl : (x : Text) → text_lt x x ≡ false
unfolding text_lt
text_lt_irrefl [] = refl
text_lt_irrefl (a ∷ x) = ground (arith, text_lt_irrefl x)

pub text_lt_trans : (x y z : Text) → text_lt x y ≡ true → text_lt y z ≡ true → text_lt x z ≡ true
unfolding text_lt
text_lt_trans x [] z h k = ground arith
text_lt_trans x (b ∷ y) [] h k = ground arith
text_lt_trans [] (b ∷ y) (c ∷ z) h k = refl
text_lt_trans (a ∷ x) (b ∷ y) (c ∷ z) h k = ground (arith, text_lt_trans x y z)

-- Of two different texts one is the smaller.
pub text_lt_connex : (x y : Text) → text_lt x y ≡ false → text_lt y x ≡ false → x ≡ y
unfolding text_lt
text_lt_connex [] [] h k = refl
text_lt_connex [] (b ∷ y) h k = ground arith
text_lt_connex (a ∷ x) [] h k = ground arith
text_lt_connex (a ∷ x) (b ∷ y) h k = ground (arith, text_lt_connex x y)

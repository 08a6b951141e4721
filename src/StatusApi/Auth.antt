-- ===== src/StatusApi/Auth.antt =====
-- The token of a request (`constant_time_equal`, the first block of `StatusApi::handle`).
use Prim.Native.Nat.{bit_or, bit_xor, digits, differ, bit_or-bitwise, bit_xor-bitwise}
use mathlib.Core.Path.{ap₂}
use native.Mathlib.Nat.{add-zero}
use pixel_status_nx.Prelude.{
  ℕ, zero, suc, ◌+◌, ◌/◌, ◌%◌, ◌≤◌, ◌<◌, ◌≡◌, refl, sym, ap, ◌∙◌, ◌↔◌, true, [], ◌∷◌, Text, arith,
  ==_iff, length, get_or, max,
}
use pixel_status_nx.StatusApi.{compare_bytes, constant_time_equal}

differ-zero : (x y : ℕ) → differ x y ≡ 0 → x ≡ y
differ-zero zero y h = sym h
differ-zero (suc x) zero h = h
differ-zero (suc x) (suc y) h = ap suc (differ-zero x y h)

-- The digits of a sum without carries are zero only where the digits agree.
xor_digits-zero : (n a b : ℕ) → a ≤ n → digits (λ b. b) differ n a b ≡ 0 → a ≡ b
xor_digits-zero zero zero b h e = sym e
xor_digits-zero zero (suc a) b h e = absurd (omega arith)
xor_digits-zero (suc n) zero b h e = sym e
xor_digits-zero (suc n) (suc a) b h e =
    let halves = xor_digits-zero n (suc a / 2) (b / 2) (omega arith) (omega arith) in
    omega (arith, halves, differ-zero (suc a % 2) (b % 2) (omega arith))

pub bit_xor-zero : (a b : ℕ) → bit_xor a b ≡ 0 → a ≡ b
bit_xor-zero a b h = xor_digits-zero a a b (omega arith) (sym (bit_xor-bitwise a b) ∙ h)

differ_self : (x : ℕ) → differ x x ≡ 0
differ_self zero = refl
differ_self (suc x) = differ_self x

xor_digits_self : (n a : ℕ) → a ≤ n → digits (λ b. b) differ n a a ≡ 0
xor_digits_self zero zero h = refl
xor_digits_self zero (suc a) h = absurd (omega arith)
xor_digits_self (suc n) zero h = refl
xor_digits_self (suc n) (suc a) h =
    omega (arith, xor_digits_self n (suc a / 2) (omega arith), differ_self (suc a % 2))

bit_xor_self : (a : ℕ) → bit_xor a a ≡ 0
bit_xor_self a = bit_xor-bitwise a a ∙ xor_digits_self a a (omega arith)

or_digits-zero : (n a b : ℕ) → a ≤ n → digits (λ b. b) max n a b ≡ 0 → (a ≡ 0) × (b ≡ 0)
or_digits-zero zero zero b h e = (refl, e)
or_digits-zero zero (suc a) b h e = absurd (omega arith)
or_digits-zero (suc n) zero b h e = (refl, e)
or_digits-zero (suc n) (suc a) b h e =
    let halves = or_digits-zero n (suc a / 2) (b / 2) (omega arith) (omega arith) in
    omega (arith, halves)

bit_or-zero : (a b : ℕ) → bit_or a b ≡ 0 → (a ≡ 0) × (b ≡ 0)
bit_or-zero a b h = or_digits-zero a a b (omega arith) (sym (bit_or-bitwise a b) ∙ h)

-- The loop ends with zero only if it began with zero and met no difference.
compare_bytes-zero :
    (n index : ℕ) (left right : Text) (d : ℕ)
    → compare_bytes n index left right d ≡ 0
    → (d ≡ 0) × ((k : ℕ) → k < n → get_or left (index + k) 0 ≡ get_or right (index + k) 0)
unfolding compare_bytes
compare_bytes-zero zero index left right d h = (h, (λ k lt. elim lt [ ]))
compare_bytes-zero (suc n) index left right d h =
    let x = bit_xor (get_or left index 0) (get_or right index 0) in
    let (rest, same) = compare_bytes-zero n (index + 1) left right (bit_or d x) h in
    let parts = bit_or-zero d x rest in
    (
      parts.0,
      elim [
        | zero ↦ λ lt. rw (add-zero index) (bit_xor-zero _ _ parts.1)
        | suc k ↦ λ lt.
            let shift : index + 1 + k ≡ index + suc k = omega arith in
            rw (← shift) (same k (omega arith))
      ],
    )

compare_bytes_self : (n index : ℕ) (text : Text) → compare_bytes n index text text 0 ≡ 0
unfolding compare_bytes
compare_bytes_self zero index text = refl
compare_bytes_self (suc n) index text =
    rw (bit_xor_self (get_or text index 0)) (compare_bytes_self n (index + 1) text)

-- Texts of one length that agree at each of their places are equal.
eq_of_bytes :
    (left right : Text)
    → length left ≡ length right
    → ((k : ℕ) → k < length left → get_or left k 0 ≡ get_or right k 0)
    → left ≡ right
eq_of_bytes [] [] e h = refl
eq_of_bytes [] (b ∷ right) e h = absurd (omega arith)
eq_of_bytes (a ∷ left) [] e h = absurd (omega arith)
eq_of_bytes (a ∷ left) (b ∷ right) e h =
    ap₂ ◌∷◌ (h 0 (omega arith))
      (eq_of_bytes left right (omega arith) (λ k lt. h (suc k) (omega arith)))

-- The comparison that looks at every byte returns true exactly if the two texts are equal.
pub constant_time_equal_iff :
    (left right : Text) → (constant_time_equal left right ≡ true) ↔ (left ≡ right)
unfolding constant_time_equal
constant_time_equal_iff left right = (sound, complete)
  where
    sound : constant_time_equal left right ≡ true → left ≡ right
    sound h =
        let n = max (length left) (length right) in
        let d = bit_xor (length left) (length right) in
        let (zero_d, same) = compare_bytes-zero n 0 left right d ((==_iff _ 0).0 h) in
        eq_of_bytes left right (bit_xor-zero (length left) (length right) zero_d)
          (λ k lt. let p : 0 + k ≡ k = omega arith in rw p at (same k (omega arith)))

    complete : left ≡ right → constant_time_equal left right ≡ true
    complete e = rw (← e) (
        rw (bit_xor_self (length left), compare_bytes_self (max (length left) (length left)) 0 left)
          refl)

-- ===== src/Loader/Http/Secrets.antt =====
-- The loop over the references to secrets in a value (`valid_secret_template` of
-- src/core/config.cpp).
use pixel_status_nx.Prelude.{
  Bool, true, false, ℕ, zero, suc, ◌+◌, ◌-◌, ◌≤◌, ◌<◌, ◌≡◌, refl, sym, ap, ◌∙◌, inl, inr, ◌==◌,
  some, [], ◌∷◌, Text, arith, length, length-drop, drop, Option-cases, Bool-cases, str,
}
use mathlib.Core.Option.{some-injective}
use pixel_status_nx.Search.{is_prefix, find_where}
use pixel_status_nx.Loader.Http.{
  secret_prefix, behind_first, split_reference, valid_secret_name, secrets_valid,
  valid_secret_template,
}

length-dropped : (n : ℕ) (xs : Text) {ys : Text} → drop n xs ≡ ys → length ys ≡ length xs - n
length-dropped n xs e = ap length (sym e) ∙ length-drop n xs

length-secret_prefix : length secret_prefix ≡ 9
unfolding str
length-secret_prefix = refl

behind_first_shorter :
    (text : Text) {behind : Text}
    → behind_first secret_prefix text ≡ some behind
    → length behind < length text
unfolding behind_first
behind_first_shorter [] h = cc h
behind_first_shorter (c ∷ rest) h = elim (Bool-cases (is_prefix secret_prefix (c ∷ rest))) [
  | inl e ↦ omega (
    arith,
    length-secret_prefix,
    length-dropped (length secret_prefix) (c ∷ rest)
        (some-injective _ _ (rw (e, behind_first) at h)),
  )
  | inr e ↦ omega (arith, behind_first_shorter rest (rw (e, behind_first) at h))
]

split_reference_shorter :
    (text : Text) {name rest : Text}
    → split_reference text ≡ some (name, rest)
    → length rest ≤ length text
unfolding split_reference
split_reference_shorter text h = elim (Option-cases (find_where (λ c. c == b'}') text)) [
  | inl e ↦ cc (rw (e, split_reference) at h)
  | inr (i, e) ↦ omega (
    arith,
    length-dropped (i + 1) text (ap (λ p. p.1) (some-injective _ _ (rw (e, split_reference) at h))),
  )
]

-- With more rounds than bytes the loop returns, and the same with any such number of rounds.
secrets_valid_returns :
    (rounds more : ℕ) (text : Text)
    → length text < rounds
    → length text < more
    → (answer : Bool) × (secrets_valid rounds text ≡ some answer)
      × (secrets_valid more text ≡ some answer)
unfolding secrets_valid
secrets_valid_returns zero more text h k = absurd (omega (arith, h))
secrets_valid_returns (suc rounds) zero text h k = absurd (omega (arith, k))
secrets_valid_returns (suc rounds) (suc more) text h k =
    elim (Option-cases (behind_first secret_prefix text)) [
      | inl e ↦ rw (e, secrets_valid) (true, refl, refl)
      | inr (behind, e) ↦ elim (Option-cases (split_reference behind)) [
        | inl s ↦ rw (e, s, secrets_valid) (false, refl, refl)
        | inr ((name, rest), s) ↦
            let shorter = behind_first_shorter text e in
            let (answer, first, second) =
              secrets_valid_returns rounds more rest
                (omega (arith, h, shorter, split_reference_shorter behind s))
                (omega (arith, k, shorter, split_reference_shorter behind s)) in
            elim (Bool-cases (valid_secret_name name)) [
              | inl v ↦ rw (e, s, v, secrets_valid) (answer, first, second)
              | inr v ↦ rw (e, s, v, secrets_valid) (false, refl, refl)
            ]
      ]
    ]

-- The loop over the references to secrets returns: in any number of rounds above the length of the
-- value it comes to an end, and its answer is that of valid_secret_template.
pub secrets_valid_terminates :
    (value : Text) (rounds : ℕ)
    → length value < rounds
    → secrets_valid rounds value ≡ some (valid_secret_template value)
unfolding valid_secret_template
secrets_valid_terminates value rounds h =
    let (answer, here, there) =
      secrets_valid_returns rounds (suc (length value)) value h (omega arith) in
    here ∙ ap some (sym (rw (there, valid_secret_template) refl))

-- ===== src/Renderer/Render/Active.antt =====
-- The card that is active at a position of the cycle (`Renderer::render` of src/core/renderer.cpp).
use pixel_status_nx.Prelude.{
  ℕ, suc, ◌+◌, ◌≡◌, refl, ◌∙◌, ap, false, inl, inr, some, List, [], ◌∷◌, arith, Bool-cases,
  get_elem?, take, ℤ, pos, ◌+ℤ◌, ◌-ℤ◌, ◌≤ℤ◌, ◌<ℤ◌, ltb_ℤ, int_laws, eq_of_parts, -ℤ_parts,
}
use pixel_status_nx.Time.{Duration, zero_ms}
use pixel_status_nx.Config.{CardConfig}
use pixel_status_nx.Renderer.Render.{segment, cycle_of, find_active}

regroup : (s g c : ℤ) → s +ℤ g +ℤ c ≡ s +ℤ (pos 0 +ℤ g +ℤ c)
regroup s g c = eq_of_parts (s +ℤ g +ℤ c) (s +ℤ (pos 0 +ℤ g +ℤ c)) (omega int_laws)

restore : (p g : ℤ) → p ≡ (p -ℤ g) +ℤ g
restore p g = eq_of_parts p ((p -ℤ g) +ℤ g) (omega int_laws)

swap : (p g c : ℤ) → p +ℤ c +ℤ g ≡ p +ℤ g +ℤ c
swap p g c = eq_of_parts (p +ℤ c +ℤ g) (p +ℤ g +ℤ c) (omega int_laws)

not_before : (p g : ℤ) → ltb_ℤ p g ≡ false → zero_ms ≤ℤ (p -ℤ g)
not_before p g h = ground (arith, -ℤ_parts p g)

module _ {D : Type 0} where
  cycle_of-shift :
      (s : Duration) (cards : List (CardConfig D)) → cycle_of s cards ≡ s +ℤ cycle_of zero_ms cards
  unfolding cycle_of
  cycle_of-shift s [] = omega int_laws
  cycle_of-shift s (card ∷ rest) =
      rw (cycle_of-shift (s +ℤ segment card) rest, cycle_of-shift (zero_ms +ℤ segment card) rest)
        (regroup s (segment card) (cycle_of zero_ms rest))

  cycle_of-add :
      (p g : Duration) (cards : List (CardConfig D))
      → cycle_of p cards +ℤ g ≡ cycle_of (p +ℤ g) cards
  cycle_of-add p g cards =
      rw (cycle_of-shift p cards, cycle_of-shift (p +ℤ g) cards) (swap p g (cycle_of zero_ms cards))

  -- What the loop has found: a card, and a position within its segment that counts from its start.
  abbrev pub Active : Duration → ℕ → List (CardConfig D) → ℕ × Duration → Type 0
  Active position index cards (i, rest_position) =
      (k : ℕ) × (card : CardConfig D) × (i ≡ index + k)
      × (get_elem? cards k ≡ some card)
      × (zero_ms ≤ℤ rest_position)
      × (rest_position <ℤ segment card)
      × (position ≡ cycle_of rest_position (take k cards))

  below :
      (position : Duration) (card : CardConfig D) (rest : List (CardConfig D))
      → position <ℤ cycle_of (zero_ms +ℤ segment card) rest
      → (position -ℤ segment card) <ℤ cycle_of zero_ms rest
  below position card rest h =
      let h' = rw (cycle_of-shift (zero_ms +ℤ segment card) rest) at h in omega (int_laws, h')

  after :
      (position : Duration) (index : ℕ) (card : CardConfig D) (rest : List (CardConfig D))
      (found : ℕ × Duration)
      → Active (position -ℤ segment card) (index + 1) rest found
      → Active position index (card ∷ rest) found
  unfolding cycle_of
  after position index card rest found (k, shown, at, there, low, high, total) = (
    suc k,
    shown,
    omega (arith, at),
    there,
    low,
    high,
    restore position (segment card)
        ∙ ap (λ t. t +ℤ segment card) total
        ∙ cycle_of-add found.1 (segment card) (take k rest),
  )

  -- A position that is not negative and below the sum of the segments lies in the segment of the
  -- card that is found: it is the time into that card, which is not negative and below its
  -- segment, and the segments of the cards before it.
  pub find_active-Active :
      (position : Duration) (index : ℕ) (cards : List (CardConfig D))
      → zero_ms ≤ℤ position
      → position <ℤ cycle_of zero_ms cards
      → Active position index cards (find_active position index cards)
  unfolding find_active cycle_of
  find_active-Active position index [] low high = absurd (omega (int_laws, low, high))
  find_active-Active position index (card ∷ []) low high =
      (0, card, omega arith, refl, low, omega (int_laws, high), refl)
  find_active-Active position index (card ∷ next ∷ rest) low high =
      elim (Bool-cases (ltb_ℤ position (segment card))) [
        | inl e ↦ rw (e, find_active) (0, card, omega arith, refl, low, ground arith, refl)
        | inr e ↦
            rw (e, find_active)
              (after position index card (next ∷ rest) _ (
                find_active-Active (position -ℤ segment card) (index + 1) (next ∷ rest)
                  (not_before position (segment card) e) (below position card (next ∷ rest) high)))
      ]

-- ===== src/Renderer/Render.antt =====
-- `Renderer::render` of src/core/renderer.cpp: the choice of the card and of the transition.
pub mod Active
use pixel_status_nx.Prelude.{
  ℕ, ◌+◌, ◌%◌, Bool, true, false, not, ◌||◌, Option, none, some, List, [], ◌∷◌, Text, str, ◌+ℤ◌,
  ◌-ℤ◌, ◌%ℤ◌, ltb_ℤ, eqb_ℤ, ◌==◌, if◌then◌else◌, length, get_elem?,
}
use pixel_status_nx.Floating.{Floating}
use pixel_status_nx.Time.{Duration, TimePoint, zero_ms, elapsed_since}
use pixel_status_nx.Color.{black}
use pixel_status_nx.State.{Store, is_empty}
use pixel_status_nx.Config.{AppConfig, CardConfig, CardTransition, instant}
use pixel_status_nx.Frame.{Frame, make_frame}
use pixel_status_nx.Renderer.{empty_report, Canvas, merge_report}
use pixel_status_nx.Renderer.Clock.{WallClock}
use pixel_status_nx.Renderer.Cards.{render_indicators, render_card}
use pixel_status_nx.Renderer.Transition.{compose_transition}

abbrev is_instant : CardTransition → Bool
is_instant instant = true
is_instant _ = false

module _ {D : Type 0} where
  -- The time that a card holds and leaves.
  unfoldable pub segment : CardConfig D → Duration
  segment card = card.hold +ℤ card.transition.duration

  unfoldable pub cycle_of : Duration → List (CardConfig D) → Duration
  unfolding segment
  cycle_of sum [] = sum
  cycle_of sum (card ∷ rest) = cycle_of (sum +ℤ segment card) rest

  -- The loop that finds the active card, and the time since it began.
  unfoldable pub find_active : Duration → ℕ → List (CardConfig D) → ℕ × Duration
  unfolding segment
  find_active position index [] = (index, position)
  find_active position index (card ∷ []) = (index, position)
  find_active position index (card ∷ next ∷ rest) =
      let later = find_active (position -ℤ segment card) (index + 1) (next ∷ rest) in
      if ltb_ℤ position (segment card) then (index, position) else later

  -- Whether a card is shown alone at this time since it began.
  unfoldable pub shows_alone : CardConfig D → Duration → Bool
  shows_alone card position =
      ltb_ℤ position card.hold
      || eqb_ℤ card.transition.duration zero_ms
      || is_instant card.transition.type

-- `rendered.active_card = …`.
abbrev pub with_active : Text → Canvas → Canvas
with_active id c = record c { report = record c.report { active_card = id } }

module _ (fl : Floating) (w : WallClock) (animation_origin : TimePoint) where
  module _ (states : Store fl.Double) (config : AppConfig fl.Double) (now : TimePoint)
      (wall_now : w.WallTime) where
    abbrev draw : CardConfig fl.Double → Frame → Canvas
    draw = render_card fl w states config now animation_origin wall_now

    -- The position within the cycle of the cards. A cycle of length zero divides by zero.
    unfoldable pub cycle_position : Duration
    unfolding cycle_of
    cycle_position = elapsed_since now animation_origin %ℤ cycle_of zero_ms config.cards

    -- The frames of two cards are composed. `compose_transition` reads inside of both.
    unfoldable pub render_transition :
        CardConfig fl.Double → CardConfig fl.Double → Duration → Frame → Canvas
    render_transition active next position output =
        let empty = make_frame config.display.width config.display.height black in
        let from = draw active empty in
        let to = draw next empty in
        let merged =
          merge_report (merge_report (record empty_report { active_card = active.id }) from.report)
            to.report in
        let progress =
          fl.div (fl.of_int (position -ℤ active.hold)) (fl.of_int active.transition.duration) in
        if not (is_empty merged.error)
        then record { report = merged; output = output }
        else elim (compose_transition fl from.output to.output active.transition.type progress
            output) [
              | none ↦ record { report = merged; output = output }
              | some composed ↦ record {
                report = record merged {
                  success = true;
                  active_card = active.id;
                  next_card = next.id;
                  transitioning = true;
                };
                output = composed;
              }
            ]

    render_pair :
        Option (CardConfig fl.Double) → Option (CardConfig fl.Double) → Duration → Frame → Canvas
    unfolding render_transition shows_alone
    render_pair (some active) (some next) position output =
        if shows_alone active position
        then with_active active.id (draw active output)
        else render_transition active next position output
    render_pair _ _ position output = record { report = empty_report; output = output }

    -- Several cards: the active one, or a transition to the next.
    unfoldable pub render_cycle : Frame → Canvas
    unfolding cycle_position find_active render_pair
    render_cycle output =
        let (index, position) = find_active cycle_position 0 config.cards in
        render_pair (get_elem? config.cards index)
          (get_elem? config.cards ((index + 1) % length config.cards)) position output

    render_cards : List (CardConfig fl.Double) → Frame → Canvas
    unfolding render_cycle
    render_cards [] output =
        render_indicators fl w states config now animation_origin wall_now config.indicators output
    render_cards (card ∷ []) output = with_active card.id (draw card output)
    render_cards (card ∷ next ∷ rest) output = render_cycle output

    unfoldable pub render : Frame → Canvas
    unfolding render_cards
    render output =
        if not (output.width == config.display.width)
          || not (output.height == config.display.height)
        then record {
          report = record empty_report {
            error = str "Output frame dimensions do not match display configuration";
          };
          output = output;
        }
        else render_cards config.cards output

-- ===== src/Loader/Rounds.antt =====
-- The rounds of the loop over the cards (`load_config_file` of src/core/config.cpp).
use pixel_status_nx.Prelude.{
  ℕ, ◌+◌, Option, none, some, List, [], ◌∷◌, ◌++◌, Text, str, leb, if◌then◌else◌, length,
}
use pixel_status_nx.Config.{
  LayoutWidgetConfig, aggregate_widget, CardContentConfig, indicator_card, layout_card, CardConfig,
}
use pixel_status_nx.Loader.{Load, succeed, ◌>>=◌, ◌>>◌, guard, check}
use pixel_status_nx.Loader.Limits.{maximum_layout_widgets}
use pixel_status_nx.Loader.Fields.{has_name}
use pixel_status_nx.Loader.Policies.{Statuses, status_is_defined}
use pixel_status_nx.Loader.Cards.{new_item}

-- The widgets that a card adds to the total.
unfoldable pub card_widgets : {D : Type 0} → CardContentConfig D → ℕ
card_widgets (indicator_card content) = length content.indicators
card_widgets (layout_card content) = length content.widgets
card_widgets _ = 0

-- The loop over the priority of an aggregate widget.
unfoldable pub check_priority : Statuses → Text → List Text → Load (Unit {0})
unfolding status_is_defined check succeed
check_priority statuses message [] = succeed tt
check_priority statuses message (status ∷ rest) = do
  known ← check (status_is_defined status statuses) (message ++ status)
  check_priority statuses message rest

module _ {D : Type 0} where
  unfoldable pub check_aggregates : Statuses → Text → List (LayoutWidgetConfig D) → Load (Unit {0})
  unfolding check_priority succeed ◌>>◌
  check_aggregates statuses path [] = succeed tt
  check_aggregates statuses path (aggregate_widget w ∷ rest) =
      check_priority statuses
        (path ++ str " aggregate widget " ++ w.id ++ str " references undefined status: ")
        w.priority
      >> check_aggregates statuses path rest
  check_aggregates statuses path (_ ∷ rest) = check_aggregates statuses path rest

  unfoldable pub check_statuses : Statuses → Text → CardContentConfig D → Load (Unit {0})
  unfolding check_aggregates succeed
  check_statuses statuses path (layout_card content) =
      check_aggregates statuses path content.widgets
  check_statuses statuses path _ = succeed tt

  -- One round of the loop over the cards, with the identifiers and the widgets so far.
  unfoldable pub accept_card :
      Statuses → List Text → ℕ → Text → Load (CardConfig D) → Load (CardConfig D)
  unfolding card_widgets check_statuses guard succeed ◌>>◌
  accept_card statuses ids total path m = do
    card ← new_item (λ c. c.id) ids path (str " duplicates an earlier card") m
    check_statuses statuses path card.content
    guard (leb (total + card_widgets card.content) maximum_layout_widgets)
        (str "cards contain more than 1024 widgets in total")
    succeed card

  -- The total after a round: a card that is not a duplicate counts, also where it is refused.
  unfoldable pub total_after : List Text → ℕ → Option (CardConfig D) → ℕ
  unfolding card_widgets
  total_after ids total none = total
  total_after ids total (some card) =
      if has_name card.id ids then total else total + card_widgets card.content

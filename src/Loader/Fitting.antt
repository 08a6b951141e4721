-- ===== src/Loader/Fitting.antt =====
-- The cards that src/core/config.cpp admits.
use pixel_status_nx.Prelude.{
  ℕ, suc, ◌+◌, ◌≤◌, ◌≡◌, ◌∙◌, subst, true, false, Option, none, some, List, [], ◌∷◌, Text, arith,
  All,
}
use mathlib.Core.Option.{some-injective}
use pixel_status_nx.Floating.{Floating}
use pixel_status_nx.Config.{
  DisplayConfig, CardContentConfig, bitmap_card, clock_card, indicator_card, layout_card,
}
use pixel_status_nx.Json.{JsonLibrary}
use pixel_status_nx.Loader.{Load, result_of, value_or, complete}
use pixel_status_nx.Loader.Limits.{maximum_layout_depth}
use pixel_status_nx.Loader.Cards.{
  parse_items, new_item, root_widgets, bitmap_content, clock_content, indicator_content,
  listed_widgets, tree_widgets, layout_widgets, layout_content, card_content, parse_card,
  whole_display, empty_layout,
}
use pixel_status_nx.Loader.Nodes.{NodeStep, ended, parse_layout_root}
use pixel_status_nx.Loader.Nodes.Tree.{Places, places, parse_layout_node-Places}
use pixel_status_nx.Loader.Results.{
  or_stop-Gives, Ensures, Ensures-succeed, Ensures-refuse, Ensures->>=, Ensures->>, Ensures-attempt,
  Ensures-guard, Ensures-if, complete-pushed, pushed-All,
}
use pixel_status_nx.Loader.Inside.{InsideIndicator, parse_indicator_config-Inside}
use pixel_status_nx.Loader.Placed.{
  IsPlaced, IsPicture, parse_bitmap-IsPicture, parse_layout_widget-Placed,
}

-- What a card shows has room in the display.
abbrev pub IsFitting : {D : Type 0} → DisplayConfig → CardContentConfig D → Type 0
IsFitting display (bitmap_card c) = IsPicture display.width display.height (c.palette, c.pixels)
IsFitting display (clock_card c) = (15 ≤ display.width) × (15 ≤ display.height)
IsFitting display (indicator_card c) = All (InsideIndicator display) c.indicators
IsFitting display (layout_card c) = All (IsPlaced display) c.widgets

-- Each value that a loop pushes is one of its rounds'.
abbrev pub AllEnsured : {A : Type 0} → (A → Type 0) → List (Option A) → Type 0
AllEnsured {A} P = All (λ o. (a : A) → o ≡ some a → P a)

pub value_or-holds :
    {A : Type 0} (P : A → Type 0) (d : A) (m : Load A) (o : Option A)
    → P d
    → Ensures P m
    → result_of m ≡ o
    → P (value_or d o)
value_or-holds P d m none h k e = h
value_or-holds P d m (some a) h k e = k.holds a e

all_pushed :
    {A : Type 0} (P : A → Type 0) (os : List (Option A)) {xs : List A}
    → AllEnsured P os
    → complete os ≡ some xs
    → All P xs
all_pushed P os h e = subst (All P) (complete-pushed os e) (pushed-All P os h)

pub new_item-Ensures :
    {A : Type 0} (P : A → Type 0) (id : A → Text) (ids : List Text) (path duplicate : Text)
    {m : Load A}
    → Ensures P m
    → Ensures P (new_item id ids path duplicate m)
new_item-Ensures P id ids path duplicate h =
    Ensures->>= _ _ λ a e. Ensures-guard _ _ _ λ _. Ensures-succeed a (h.holds a e)

root_widgets-Placed :
    {D : Type 0} (display : DisplayConfig) (s : NodeStep D)
    → Places display s
    → Ensures (All (IsPlaced display)) (root_widgets s)
root_widgets-Placed display (ended layout true errors) (places h) = record {
  holds = λ ws e. subst (All (IsPlaced display)) (some-injective _ _ e) h;
}
root_widgets-Placed display (ended layout false errors) h = record { holds = λ ws e. cc e }

module _ (fl : Floating) (json : JsonLibrary fl.Double) where
  pub parse_items-AllEnsured :
      {A : Type 0} (P : A → Type 0) (id : A → Text) (duplicate : Text)
      (parse : json.Json → Text → Load A) (path : Text)
      → ((value : json.Json) (item_path : Text) → Ensures P (parse value item_path))
      → (values : List json.Json) (ids : List Text) (index : ℕ)
      → Ensures (AllEnsured P) (parse_items fl json id duplicate parse path ids index values)
  unfolding parse_items
  parse_items-AllEnsured P id duplicate parse path h [] ids index = Ensures-succeed _ tt
  parse_items-AllEnsured P id duplicate parse path h (value ∷ rest) ids index =
      Ensures-attempt _ _ λ o read. Ensures->>= _ _ λ later e. Ensures-succeed _ (
        λ a here. (new_item-Ensures P id _ _ duplicate (h value _)).holds a (read ∙ here),
        (parse_items-AllEnsured P id duplicate parse path h rest _ (index + 1)).holds later e,
      )

  module _ (display : DisplayConfig) (item : List (Text × json.Json)) (path : Text) where
    listed_widgets-Placed :
        Ensures (All (IsPlaced display)) (listed_widgets fl json item path display)
    unfolding listed_widgets
    listed_widgets-Placed = Ensures->>= _ _ λ items _. Ensures->>= _ _ λ os e. record {
      holds = λ ws h.
          all_pushed (IsPlaced display) os
            ((parse_items-AllEnsured (IsPlaced display) _ _ _ _
                (λ value item_path.
                  parse_layout_widget-Placed fl json display value item_path none λ b e. cc e)
                items [] 0).holds
              os e)
            (or_stop-Gives _ h);
    }

    tree_widgets-Placed :
        (root : json.Json) (root_path : Text)
        → 1 ≤ display.width
        → 1 ≤ display.height
        → Ensures (All (IsPlaced display)) (tree_widgets fl json root root_path display)
    unfolding tree_widgets parse_layout_root
    tree_widgets-Placed root root_path wide tall = Ensures->>= _ _ λ fields _.
        Ensures-guard _ _ _ λ _. Ensures->>= _ _ λ ws e. Ensures-guard _ _ _ λ _.
          Ensures-succeed ws (
            (root_widgets-Placed display _ (
                parse_layout_node-Places fl json display (suc maximum_layout_depth) root root_path
                  (whole_display fl json display) empty_layout
                  (record {
                    wide = wide;
                    tall = tall;
                    right_edge = omega arith;
                    lower_edge = omega arith;
                  })
                  tt)).holds
              ws e)

    bitmap_content-Fitting : Ensures (IsFitting display) (bitmap_content fl json item path display)
    unfolding bitmap_content
    bitmap_content-Fitting = Ensures->> _ _ λ _. Ensures->>= _ _ λ picture e.
        Ensures-succeed _ ((parse_bitmap-IsPicture fl json item path _ _ _ _).holds picture e)

    clock_content-Fitting : Ensures (IsFitting display) (clock_content fl json item path display)
    unfolding clock_content
    clock_content-Fitting = Ensures->> _ _ λ _.
        Ensures-guard _ _ _
          λ large. Ensures->>= _ _ λ colors _. Ensures-succeed _ (ground arith, ground arith)

    indicator_content-Fitting :
        Ensures (IsFitting display) (indicator_content fl json item path display)
    unfolding indicator_content
    indicator_content-Fitting = Ensures->> _ _ λ _. Ensures->>= _ _ λ items _.
        Ensures->>= _ _ λ os e. Ensures->>= _ _ λ all h. Ensures-succeed _ (
          all_pushed (InsideIndicator display) os
            ((parse_items-AllEnsured (InsideIndicator display) _ _ _ _
                (λ value item_path. parse_indicator_config-Inside fl json value item_path display)
                items [] 0).holds
              os e)
            (or_stop-Gives _ h))

    layout_widgets-Placed :
        (listed tree : Option json.Json)
        → 1 ≤ display.width
        → 1 ≤ display.height
        → Ensures (All (IsPlaced display)) (layout_widgets fl json listed tree item path display)
    layout_widgets-Placed (some listed) none wide tall = listed_widgets-Placed
    layout_widgets-Placed none (some root) wide tall = tree_widgets-Placed root _ wide tall
    layout_widgets-Placed none none wide tall = Ensures-refuse _
    layout_widgets-Placed (some listed) (some root) wide tall = Ensures-refuse _

    layout_content-Fitting :
        1 ≤ display.width
        → 1 ≤ display.height
        → Ensures (IsFitting display) (layout_content fl json item path display)
    unfolding layout_content
    layout_content-Fitting wide tall = Ensures->> _ _ λ _.
        Ensures->>= _ _
          λ widgets e. Ensures-succeed _ ((layout_widgets-Placed _ _ wide tall).holds widgets e)

    card_content-Fitting :
        (type : Text)
        → 1 ≤ display.width
        → 1 ≤ display.height
        → Ensures (IsFitting display) (card_content fl json type item path display)
    unfolding card_content
    card_content-Fitting type wide tall = Ensures-if _ bitmap_content-Fitting (
        Ensures-if _ clock_content-Fitting (
          Ensures-if _ indicator_content-Fitting (
            Ensures-if _ (layout_content-Fitting wide tall)
              (Ensures->> _ _ λ _. Ensures-refuse _))))

  pub parse_card-Fitting :
      (value : json.Json) (path : Text) (display : DisplayConfig)
      → 1 ≤ display.width
      → 1 ≤ display.height
      → Ensures (λ c. IsFitting display c.content) (parse_card fl json value path display)
  unfolding parse_card
  parse_card-Fitting value path display wide tall = Ensures->>= _ _ λ item _.
      Ensures->>= _ _ λ (id, (type, (hold, transition))) _. Ensures->>= _ _ λ content e.
        Ensures-succeed _ ((card_content-Fitting display item path type wide tall).holds content e)

-- ===== src/Loader/Cards.antt =====
-- Cards (`parse_card_transition` and `parse_card` of src/core/config.cpp).
use pixel_status_nx.Prelude.{
  ℕ, ◌+◌, not, ◌&&◌, ◌||◌, Option, none, some, List, [], ◌∷◌, ◌++◌, Text, str, to_string, pos, leb,
  if◌then◌else◌, is_some, length,
}
use pixel_status_nx.Floating.{Floating}
use pixel_status_nx.Time.{Duration, zero_ms}
use pixel_status_nx.Config.{
  DisplayConfig, CardTransition, instant, fade, slide_left, slide_right, slide_up, slide_down,
  CardTransitionConfig, IndicatorConfig, LayoutWidgetConfig, CardContentConfig, bitmap_card,
  clock_card, indicator_card, layout_card, CardConfig, find_text,
}
use pixel_status_nx.Json.{JsonLibrary}
use pixel_status_nx.Loader.{
  Load, loaded, result_of, succeed, refuse, attempt, or_refuse, or_stop, ◌>>=◌, ◌>>◌, ◌⊗◌, complete,
  guard,
}
use pixel_status_nx.Loader.Limits.{
  minimum_card_hold, maximum_card_hold, maximum_card_transition, maximum_indicators,
  maximum_layout_widgets,
}
use pixel_status_nx.Loader.Fields.{
  field_path, element_path, is_name, has_name, object_of, required_string, required_identifier,
  reject_unknown_fields, bounded_duration_value,
}
use pixel_status_nx.Loader.Widgets.{LayoutBounds, parse_indicator_config, color_field}
use pixel_status_nx.Loader.Grids.{bounded_array}
use pixel_status_nx.Loader.Bitmaps.{parse_bitmap}
use pixel_status_nx.Loader.Nodes.{
  LayoutState, NodeStep, ended, widget_id, parse_layout_widget, parse_layout_root,
}

-- `LayoutParseState{}`, with no widgets.
abbrev pub empty_layout : {D : Type 0} → LayoutState D
empty_layout = record { nodes = 0; ids = []; widgets = [] }

-- The types of transitions, after `instant`.
unfoldable pub transition_type : Text → Text → Load CardTransition
unfolding succeed refuse
transition_type type path =
    if is_name type "fade"
    then succeed fade
    else if is_name type "slide_left"
    then succeed slide_left
    else if is_name type "slide_right"
    then succeed slide_right
    else if is_name type "slide_up"
    then succeed slide_up
    else if is_name type "slide_down"
    then succeed slide_down
    else refuse (
        field_path path "type"
        ++ str " must be instant, fade, slide_left, slide_right, slide_up, or slide_down")

-- The result of the root node.
abbrev pub root_widgets : {D : Type 0} → NodeStep D → Load (List (LayoutWidgetConfig D))
root_widgets (ended layout valid errors) =
    loaded (if valid then some layout.widgets else none) errors

-- The set of the identifiers so far with one that was read.
abbrev pub with_id : {A : Type 0} → (A → Text) → Option A → List Text → List Text
with_id id none ids = ids
with_id id (some a) ids = id a ∷ ids

-- An item, whose identifier is new.
abbrev pub new_item : {A : Type 0} → (A → Text) → List Text → Text → Text → Load A → Load A
new_item id ids path duplicate m = do
  a ← m
  guard (not (has_name (id a) ids)) (field_path path "id" ++ duplicate)
  succeed a

module _ (fl : Floating) (json : JsonLibrary fl.Double) where
  open json use {Json, view}

  unfoldable pub timed_transition : Text → List (Text × Json) → Text → Load CardTransitionConfig
  unfolding transition_type or_refuse bounded_duration_value succeed
  timed_transition type fields path = do
    t ← transition_type type path
    field ←
        or_refuse (find_text (str "duration") fields)
          (field_path path "duration" ++ str " is required")
    duration ←
        bounded_duration_value fl json field (field_path path "duration") (pos 1)
          maximum_card_transition
    succeed (record { type = t; duration = duration })

  abbrev instant_transition : CardTransitionConfig
  instant_transition = record { type = instant; duration = zero_ms }

  unfoldable pub read_transition : Json → Text → Load CardTransitionConfig
  unfolding or_refuse reject_unknown_fields required_string timed_transition guard succeed ◌>>◌
  read_transition value path = do
    fields ← or_refuse (object_of fl json (view value)) (path ++ str " must be an object")
    reject_unknown_fields fl json fields ("type" ∷ "duration" ∷ []) path
    type ← required_string fl json fields "type" path
    (let timed = timed_transition type fields path in
        if is_name type "instant"
        then (guard (not (is_some (find_text (str "duration") fields)))
              (field_path path "duration" ++ str " is not allowed for instant")
            >> succeed instant_transition)
        else timed)

  unfoldable pub parse_card_transition : List (Text × Json) → Text → Load CardTransitionConfig
  unfolding read_transition succeed
  parse_card_transition card path = elim (find_text (str "transition") card) [
    | none ↦ succeed instant_transition
    | some value ↦ read_transition value (field_path path "transition")
  ]

  unfoldable pub card_hold : List (Text × Json) → Text → Load Duration
  unfolding or_refuse bounded_duration_value
  card_hold card path = do
    field ← or_refuse (find_text (str "hold") card) (field_path path "hold" ++ str " is required")
    bounded_duration_value fl json field (field_path path "hold") minimum_card_hold
        maximum_card_hold

  -- The loops over items with distinct identifiers: indicators and widgets of a card, monitors and
  -- cards of the configuration.
  unfoldable pub parse_items :
      {A : Type 0}
      → (A → Text)
      → Text
      → (Json → Text → Load A)
      → Text
      → List Text
      → ℕ
      → List Json
      → Load (List (Option A))
  unfolding attempt guard succeed ◌>>◌
  parse_items id duplicate parse path ids index [] = succeed []
  parse_items id duplicate parse path ids index (value ∷ rest) =
      let item_path = element_path path index in
      let parsed = parse value item_path in
      do
        item ← attempt (new_item id ids item_path duplicate parsed)
        later ←
            parse_items id duplicate parse path (with_id id (result_of parsed) ids) (index + 1) rest
        succeed (item ∷ later)

  unfoldable pub bitmap_content :
      List (Text × Json) → Text → DisplayConfig → Load (CardContentConfig fl.Double)
  unfolding reject_unknown_fields parse_bitmap succeed ◌>>◌
  bitmap_content item path display = do
    reject_unknown_fields fl json item
        ("id" ∷ "type" ∷ "hold" ∷ "transition" ∷ "palette" ∷ "pixels" ∷ []) path
    (palette, pixels) ←
        parse_bitmap fl json item path display.width display.height
          (str " must contain exactly " ++ to_string display.width ++ str " palette characters")
          (str " must contain exactly " ++ to_string display.height ++ str " rows")
    succeed (bitmap_card (record { palette = palette; pixels = pixels }))

  unfoldable pub clock_content :
      List (Text × Json) → Text → DisplayConfig → Load (CardContentConfig fl.Double)
  unfolding reject_unknown_fields guard color_field succeed ◌>>◌
  clock_content item path display = do
    reject_unknown_fields fl json item
        ("id" ∷ "type" ∷ "hold" ∷ "transition" ∷ "local_color" ∷ "utc_color" ∷ []) path
    guard (leb 15 display.width && leb 15 display.height)
        (path ++ str " requires a display of at least 15x15 pixels")
    (local_color, utc_color) ←
        color_field fl json item "local_color" (record { r = 0x00; g = 0xB0; b = 0xFF }) path
        ⊗ color_field fl json item "utc_color" (record { r = 0xFF; g = 0xD6; b = 0x00 }) path
    succeed (clock_card (record { local_color = local_color; utc_color = utc_color }))

  unfoldable pub indicator_content :
      List (Text × Json) → Text → DisplayConfig → Load (CardContentConfig fl.Double)
  unfolding reject_unknown_fields bounded_array parse_items parse_indicator_config or_stop complete
      succeed ◌>>◌
  indicator_content item path display = do
    reject_unknown_fields fl json item ("id" ∷ "type" ∷ "hold" ∷ "transition" ∷ "indicators" ∷ [])
        path
    items ←
        bounded_array fl json item "indicators" maximum_indicators
          (field_path path "indicators" ++ str " must contain between 1 and 1024 entries")
    indicators ←
        parse_items (λ (i : IndicatorConfig). i.id)
          (str " duplicates an earlier indicator on this card")
          (λ value item_path. parse_indicator_config fl json value item_path display)
          (field_path path "indicators") [] 0 items
    all ← or_stop (complete indicators)
    succeed (indicator_card (record { indicators = all }))

  -- The widgets with positions of a layout card.
  unfoldable pub listed_widgets :
      List (Text × Json) → Text → DisplayConfig → Load (List (LayoutWidgetConfig fl.Double))
  unfolding bounded_array parse_items parse_layout_widget widget_id or_stop complete
  listed_widgets item path display = do
    items ←
        bounded_array fl json item "widgets" maximum_layout_widgets
          (field_path path "widgets" ++ str " must contain between 1 and 1024 entries")
    widgets ←
        parse_items widget_id (str " duplicates an earlier widget on this card")
          (λ value item_path. parse_layout_widget fl json display value item_path none)
          (field_path path "widgets") [] 0 items
    or_stop (complete widgets)

  abbrev pub whole_display : DisplayConfig → LayoutBounds
  whole_display display = record { x = 0; y = 0; width = display.width; height = display.height }

  -- The tree of a layout card.
  unfoldable pub tree_widgets :
      Json → Text → DisplayConfig → Load (List (LayoutWidgetConfig fl.Double))
  unfolding or_refuse guard parse_layout_root succeed ◌>>◌
  tree_widgets root path display = do
    fields ← or_refuse (object_of fl json (view root)) (path ++ str " must be an object")
    guard
        (not (is_some (find_text (str "size") fields) || is_some (find_text (str "weight") fields)))
        (path ++ str " cannot specify size or weight")
    widgets ←
        root_widgets
          (parse_layout_root fl json display root path (whole_display display) empty_layout)
    guard (leb 1 (length widgets) && leb (length widgets) maximum_layout_widgets)
        (path ++ str " must resolve to between 1 and 1024 widgets")
    succeed widgets

  abbrev pub layout_widgets :
      Option Json
      → Option Json
      → List (Text × Json)
      → Text
      → DisplayConfig
      → Load (List (LayoutWidgetConfig fl.Double))
  layout_widgets (some widgets) none item path display = listed_widgets item path display
  layout_widgets none (some root) item path display =
      tree_widgets root (field_path path "root") display
  layout_widgets _ _ item path display =
      refuse (path ++ str " must contain exactly one of widgets or root")

  unfoldable pub layout_content :
      List (Text × Json) → Text → DisplayConfig → Load (CardContentConfig fl.Double)
  unfolding reject_unknown_fields listed_widgets tree_widgets refuse succeed ◌>>◌
  layout_content item path display = do
    reject_unknown_fields fl json item
        ("id" ∷ "type" ∷ "hold" ∷ "transition" ∷ "widgets" ∷ "root" ∷ []) path
    widgets ←
        layout_widgets (find_text (str "widgets") item) (find_text (str "root") item) item path
          display
    succeed (layout_card (record { widgets = widgets }))

  unfoldable pub card_content :
      Text → List (Text × Json) → Text → DisplayConfig → Load (CardContentConfig fl.Double)
  unfolding bitmap_content clock_content indicator_content layout_content reject_unknown_fields
      refuse ◌>>◌
  card_content type item path display =
      if is_name type "bitmap"
      then bitmap_content item path display
      else if is_name type "clock"
      then clock_content item path display
      else if is_name type "indicators"
      then indicator_content item path display
      else if is_name type "layout"
      then layout_content item path display
      else (reject_unknown_fields fl json item
            ("id" ∷ "type" ∷ "hold" ∷ "transition" ∷ "palette" ∷ "pixels" ∷ "local_color"
              ∷ "utc_color" ∷ "indicators" ∷ "widgets" ∷ "root" ∷ [])
            path
          >> refuse (field_path path "type" ++ str " must be bitmap, clock, indicators, or layout"))

  unfoldable pub parse_card : Json → Text → DisplayConfig → Load (CardConfig fl.Double)
  unfolding or_refuse required_identifier required_string card_hold parse_card_transition
      card_content succeed
  parse_card value path display = do
    item ← or_refuse (object_of fl json (view value)) (path ++ str " must be an object")
    (id, (type, (hold, transition))) ←
        required_identifier fl json item "id" path
        ⊗ required_string fl json item "type" path
        ⊗ card_hold item path
        ⊗ parse_card_transition item path
    content ← card_content type item path display
    succeed (record { id = id; hold = hold; transition = transition; content = content })

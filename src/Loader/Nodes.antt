-- ===== src/Loader/Nodes.antt =====
-- Layout widgets, and the trees of rows, columns and stacks (`parse_layout_widget` and
-- `parse_layout_node` of src/core/config.cpp). A node changes the `LayoutParseState` and the widgets
-- of the card, also where it fails.
pub mod Split
pub mod Extents
pub mod Tree
use pixel_status_nx.Prelude.{
  ℕ, zero, suc, ◌+◌, ◌-◌, ◌*◌, Bool, true, false, not, ◌&&◌, ◌||◌, Option, none, some, List, [],
  ◌∷◌, ◌++◌, Text, String, str, leb, if◌then◌else◌, is_some, length,
}
use pixel_status_nx.Floating.{Floating}
use pixel_status_nx.Config.{
  DisplayConfig, LayoutWidgetConfig, indicator_widget, clock_widget, bar_widget, grid_widget,
  aggregate_widget, bitmap_widget, find_text,
}
use pixel_status_nx.Json.{JsonLibrary}
use pixel_status_nx.Loader.{Load, loaded, succeed, refuse, or_refuse, ◌>>=◌, ◌>>◌, guard}
use pixel_status_nx.Loader.Limits.{
  maximum_layout_widgets, maximum_layout_nodes, maximum_layout_depth,
}
use pixel_status_nx.Loader.Fields.{
  field_path, element_path, is_name, has_name, object_of, required_string, reject_unknown_fields,
}
use pixel_status_nx.Loader.Widgets.{
  LayoutBounds, parse_layout_clock_config, parse_layout_indicator_config, parse_layout_bar_config,
}
use pixel_status_nx.Loader.Grids.{
  bounded_array, grid_gap, parse_layout_status_grid_config, parse_layout_aggregate_status_config,
}
use pixel_status_nx.Loader.Bitmaps.{parse_layout_bitmap_config}
use pixel_status_nx.Loader.Nodes.Split.{split_extent}

-- The `LayoutParseState`, with the widgets of the card.
pub record LayoutState (D : Type 0) : Type 0 where
  pub nodes : ℕ
  pub ids : List Text
  pub widgets : List (LayoutWidgetConfig D)

-- The state after a node, what it returns, and the errors that it adds.
pub data NodeStep (D : Type 0) : Type 0 where
  ended : LayoutState D → Bool → List Text → NodeStep D

abbrev pub NodeParser : Type 0 → Type 0 → Type 0
NodeParser D J = J → Text → LayoutBounds → LayoutState D → NodeStep D

-- `std::visit` for the identifier.
unfoldable pub widget_id : {D : Type 0} → LayoutWidgetConfig D → Text
widget_id (indicator_widget w) = w.id
widget_id (clock_widget w) = w.id
widget_id (bar_widget w) = w.id
widget_id (grid_widget w) = w.id
widget_id (aggregate_widget w) = w.id
widget_id (bitmap_widget w) = w.id

module _ {D : Type 0} where
  -- A step after errors that came before.
  abbrev pub after_errors : List Text → NodeStep D → NodeStep D
  after_errors before (ended layout valid errors) = ended layout valid (before ++ errors)

  -- A part without a value ends the node, with what it has changed.
  unfoldable pub node_or_end : {A : Type 0} → LayoutState D → Load A → (A → NodeStep D) → NodeStep D
  node_or_end layout (loaded none errors) f = ended layout false errors
  node_or_end layout (loaded (some a) errors) f = after_errors errors (f a)

  abbrev fail_node : LayoutState D → Text → NodeStep D
  fail_node layout message = ended layout false (message ∷ [])

  abbrev end_node : LayoutState D → NodeStep D
  end_node layout = ended layout true []

  abbrev pub and_step : Bool → List Text → NodeStep D → NodeStep D
  and_step before errors (ended layout valid later) =
      ended layout (before && valid) (errors ++ later)

  -- A child and the children after it, whether it failed or not.
  unfoldable pub then_nodes : NodeStep D → (LayoutState D → NodeStep D) → NodeStep D
  then_nodes (ended layout valid errors) rest = and_step valid errors (rest layout)

  -- A widget of a card, whose identifier is new.
  unfoldable pub add_widget : Text → LayoutWidgetConfig D → LayoutState D → NodeStep D
  unfolding widget_id
  add_widget path widget layout =
      if has_name (widget_id widget) layout.ids
      then fail_node layout
          (field_path path "id" ++ str " duplicates an earlier widget on this card")
      else end_node (record layout {
        ids = widget_id widget ∷ layout.ids;
        widgets = layout.widgets ++ widget ∷ [];
      })

-- The bounds of a child at a position along a row or a column.
unfoldable pub child_bounds : Bool → LayoutBounds → ℕ → ℕ → LayoutBounds
child_bounds is_row bounds cursor extent =
    if is_row
    then record bounds { x = cursor; width = extent }
    else record bounds { y = cursor; height = extent }

module _ (fl : Floating) (json : JsonLibrary fl.Double) (display : DisplayConfig) where
  open json use {Json, view}

  abbrev all_widget_fields : List String
  all_widget_fields =
      "id" ∷ "type" ∷ "source" ∷ "sources" ∷ "x" ∷ "y" ∷ "width" ∷ "height" ∷ "timezone" ∷ "color"
      ∷ "direction" ∷ "minimum" ∷ "maximum" ∷ "track_color" ∷ "columns" ∷ "gap" ∷ "palette"
      ∷ "pixels" ∷ "priority" ∷ "colors" ∷ "default_color" ∷ "size" ∷ "weight" ∷ []

  unfoldable pub widget_of_type :
      Text → List (Text × Json) → Text → Option LayoutBounds → Load (LayoutWidgetConfig fl.Double)
  unfolding parse_layout_indicator_config parse_layout_clock_config parse_layout_bar_config
      parse_layout_status_grid_config parse_layout_aggregate_status_config
      parse_layout_bitmap_config reject_unknown_fields refuse succeed ◌>>◌
  widget_of_type type item path assigned =
      if is_name type "indicator"
      then (parse_layout_indicator_config fl json item path display assigned >>= λ w.
          succeed (indicator_widget w))
      else if is_name type "clock"
      then (parse_layout_clock_config fl json item path display assigned >>= λ w.
          succeed (clock_widget w))
      else if is_name type "bar"
      then (parse_layout_bar_config fl json item path display assigned >>= λ w.
          succeed (bar_widget w))
      else if is_name type "status_grid"
      then (parse_layout_status_grid_config fl json item path display assigned >>= λ w.
          succeed (grid_widget w))
      else if is_name type "aggregate_status"
      then (parse_layout_aggregate_status_config fl json item path display assigned >>= λ w.
          succeed (aggregate_widget w))
      else if is_name type "bitmap"
      then (parse_layout_bitmap_config fl json item path display assigned >>= λ w.
          succeed (bitmap_widget w))
      else (reject_unknown_fields fl json item all_widget_fields path
          >> refuse (
              field_path path "type"
              ++ str " must be indicator, clock, bar, status_grid, aggregate_status, or bitmap"))

  unfoldable pub parse_layout_widget :
      Json → Text → Option LayoutBounds → Load (LayoutWidgetConfig fl.Double)
  unfolding or_refuse required_string widget_of_type
  parse_layout_widget value path assigned = do
    item ← or_refuse (object_of fl json (view value)) (path ++ str " must be an object")
    type ← required_string fl json item "type" path
    widget_of_type type item path assigned

  -- Whether a child names its own extent.
  abbrev has_extent : List (Text × Json) → Bool
  has_extent child =
      is_some (find_text (str "size") child) || is_some (find_text (str "weight") child)

  -- One round of the loop over the children of a stack.
  unfoldable pub stack_child : NodeParser fl.Double Json → NodeParser fl.Double Json
  unfolding or_refuse guard ◌>>◌
  stack_child node child path bounds layout =
      node_or_end layout
        (or_refuse (object_of fl json (view child)) (path ++ str " must be an object") >>= λ fields.
          guard (not (has_extent fields))
            (path ++ str " cannot specify size or weight inside a stack"))
        λ _. node child path bounds layout

  unfoldable pub stack_children :
      NodeParser fl.Double Json
      → Text
      → LayoutBounds
      → ℕ
      → List Json
      → LayoutState fl.Double
      → NodeStep fl.Double
  unfolding stack_child
  stack_children node path bounds index [] layout = end_node layout
  stack_children node path bounds index (child ∷ rest) layout =
      then_nodes (stack_child node child (element_path path index) bounds layout)
        λ layout'. stack_children node path bounds (index + 1) rest layout'

  -- The loop over the children of a row or a column with their extents, from a cursor.
  unfoldable pub split_children :
      NodeParser fl.Double Json
      → Bool
      → Text
      → LayoutBounds
      → ℕ
      → ℕ
      → ℕ
      → List (Json × ℕ)
      → LayoutState fl.Double
      → NodeStep fl.Double
  unfolding child_bounds
  split_children node is_row path bounds gap index cursor [] layout = end_node layout
  split_children node is_row path bounds gap index cursor ((child, extent) ∷ rest) layout =
      then_nodes
        (node child (element_path path index) (child_bounds is_row bounds cursor extent) layout)
        λ layout'.
          split_children node is_row path bounds gap (index + 1) (cursor + extent + gap) rest
            layout'

  -- The two loops by type, on the children of the field.
  unfoldable pub parse_container :
      NodeParser fl.Double Json → Text → List (Text × Json) → NodeParser fl.Double (List Json)
  unfolding stack_children split_children split_extent grid_gap
  parse_container node type item children path bounds layout =
      let is_row = is_name type "row" in
      let stacked = stack_children node (field_path path "children") bounds 0 children layout in
      if is_name type "stack"
      then stacked
      else node_or_end {A = ℕ × List (Json × ℕ)} layout
          (do
            gap ← grid_gap fl json item path
            extents ←
                split_extent fl json path (if is_row then bounds.width else bounds.height) gap
                  children
            succeed (gap, extents))
          λ split.
            split_children node is_row (field_path path "children") bounds split.0 0
              (if is_row then bounds.x else bounds.y) split.1 layout

  abbrev container_fields : Text → List String
  container_fields type =
      if is_name type "stack"
      then "type" ∷ "children" ∷ "size" ∷ "weight" ∷ []
      else "type" ∷ "gap" ∷ "children" ∷ "size" ∷ "weight" ∷ []

  -- A node of a type: a widget, or the children of a container.
  unfoldable pub node_of_type :
      NodeParser fl.Double Json → Text → List (Text × Json) → NodeParser fl.Double Json
  unfolding add_widget parse_layout_widget reject_unknown_fields bounded_array parse_container ◌>>◌
  node_of_type node type item value path bounds layout =
      if not (is_name type "row" || is_name type "column" || is_name type "stack")
      then node_or_end layout (parse_layout_widget value path (some bounds))
          (λ widget. add_widget path widget layout)
      else node_or_end layout
          (reject_unknown_fields fl json item (container_fields type) path
            >> bounded_array fl json item "children" maximum_layout_widgets
                (field_path path "children" ++ str " must contain between 1 and 1024 nodes"))
          λ children. parse_container node type item children path bounds layout

  -- The checks at the head of `parse_layout_node`, up to the depth.
  unfoldable pub enter_node :
      (List (Text × Json) → LayoutState fl.Double → NodeStep fl.Double) → NodeParser fl.Double Json
  unfolding or_refuse guard
  enter_node inside value path bounds layout =
      node_or_end layout
        (or_refuse (object_of fl json (view value)) (path ++ str " must be an object"))
        λ item.
          (let counted = record layout { nodes = layout.nodes + 1 } in
            node_or_end counted
              (guard (leb counted.nodes maximum_layout_nodes)
                (path ++ str " exceeds the layout limit of 2048 nodes"))
              λ _. inside item counted)

  -- `left` is the number of levels that may still be entered: `maximum_layout_depth + 1 - depth`. A
  -- node below the last level is refused, as in the code, so that the recursion never runs out.
  unfoldable pub parse_layout_node : ℕ → NodeParser fl.Double Json
  unfolding node_of_type required_string
  parse_layout_node zero value path bounds layout =
      enter_node
        (λ item counted. fail_node counted (path ++ str " exceeds the layout nesting limit of 16"))
        value path bounds layout
  parse_layout_node (suc left) value path bounds layout =
      enter_node
        (λ item counted.
          node_or_end counted (required_string fl json item "type" path)
            λ type. node_of_type (parse_layout_node left) type item value path bounds counted)
        value path bounds layout

  -- `parse_layout_node` of the root, at depth zero.
  unfoldable pub parse_layout_root : NodeParser fl.Double Json
  unfolding parse_layout_node
  parse_layout_root = parse_layout_node (suc maximum_layout_depth)

-- ===== src/Loader/Grids.antt =====
-- The status grid and the aggregate status (src/core/config.cpp).
use pixel_status_nx.Prelude.{
  ℕ, ◌+◌, ◌-◌, ◌*◌, ◌/◌, Bool, true, not, ◌&&◌, ◌||◌, Option, List, [], ◌∷◌, ◌++◌, Text, String,
  str, ltb, leb, if◌then◌else◌, is_some, length,
}
use pixel_status_nx.Floating.{Floating}
use pixel_status_nx.Color.{Rgb}
use pixel_status_nx.Config.{
  DisplayConfig, LayoutStatusGridConfig, LayoutAggregateStatusConfig, find_text,
}
use pixel_status_nx.Json.{JsonLibrary}
use pixel_status_nx.Loader.{
  Load, succeed, attempt, or_refuse, or_stop, ◌>>=◌, ◌>>◌, both, keep_if, pushed, complete, guard,
  check,
}
use pixel_status_nx.Loader.Limits.{maximum_dimension, maximum_layout_widgets, maximum_statuses}
use pixel_status_nx.Loader.Fields.{
  field_path, has_name, is_identifier, array_of, object_of, field_as, required_identifier,
  reject_unknown_fields, bounded_size, color_value,
}
use pixel_status_nx.Loader.Names.{parse_names}
use pixel_status_nx.Loader.Widgets.{
  LayoutBounds, widget_fields, layout_bounds_are_valid, parse_layout_bounds, color_field,
}

-- Whether the bounds hold the cells of a grid and the gaps between them. There are at most 1024
-- sources and columns, and a gap is at most 256, so no product reaches 2^64.
unfoldable pub cells_fit : LayoutBounds → ℕ → ℕ → ℕ → Bool
cells_fit bounds sources columns gap =
    let rows = (sources + columns - 1) / columns in
    let horizontal_gaps = gap * (columns - 1) in
    let vertical_gaps = gap * (rows - 1) in
    not (
      ltb bounds.width horizontal_gaps
      || ltb (bounds.width - horizontal_gaps) columns
      || ltb bounds.height vertical_gaps
      || ltb (bounds.height - vertical_gaps) rows)

module _ (fl : Floating) (json : JsonLibrary fl.Double) where
  open json use {Json, view}

  -- A field that is a list with a bounded number of elements, at least one.
  unfoldable pub bounded_array : List (Text × Json) → String → ℕ → Text → Load (List Json)
  unfolding or_refuse guard succeed ◌>>◌
  bounded_array item key maximum message = do
    items ← or_refuse (field_as fl json (array_of fl json) item key) message
    guard (leb 1 (length items) && leb (length items) maximum) message
    succeed items

  -- The same for an object.
  unfoldable pub bounded_object : List (Text × Json) → String → ℕ → Text → Load (List (Text × Json))
  unfolding or_refuse guard succeed ◌>>◌
  bounded_object item key maximum message = do
    fields ← or_refuse (field_as fl json (object_of fl json) item key) message
    guard (leb 1 (length fields) && leb (length fields) maximum) message
    succeed fields

  unfoldable pub grid_gap : List (Text × Json) → Text → Load ℕ
  unfolding bounded_size succeed
  grid_gap item path =
      if is_some (find_text (str "gap") item)
      then bounded_size fl json item "gap" path 0 maximum_dimension
      else succeed 0

  unfoldable pub parse_layout_status_grid_config :
      List (Text × Json) → Text → DisplayConfig → Option LayoutBounds → Load LayoutStatusGridConfig
  unfolding reject_unknown_fields required_identifier parse_layout_bounds bounded_array bounded_size
      grid_gap layout_bounds_are_valid parse_names cells_fit attempt or_stop check complete succeed
      ◌>>◌
  parse_layout_status_grid_config item path display assigned = do
    reject_unknown_fields fl json item (widget_fields assigned ("sources" ∷ "columns" ∷ "gap" ∷ []))
        path
    id ← attempt (required_identifier fl json item "id" path)
    bounds ← attempt (parse_layout_bounds fl json item path display assigned)
    sources_field ←
        bounded_array item "sources" maximum_layout_widgets
          (field_path path "sources" ++ str " must contain between 1 and 1024 identifiers")
    columns ← attempt (bounded_size fl json item "columns" path 1 (length sources_field))
    gap ← grid_gap item path
    (i, (b, c)) ← or_stop (both id (both bounds columns))
    layout_bounds_are_valid b path
    sources ←
        parse_names fl json (field_path path "sources") (str " must be a valid identifier")
          (str " duplicates an earlier grid source") [] 0 sources_field
    fits ←
        check (cells_fit b (length sources_field) c gap)
          (path ++ str " bounds cannot fit its grid cells and gaps")
    s ← or_stop (keep_if fits (complete sources))
    succeed (record {
      id = i;
      sources = s;
      x = b.x;
      y = b.y;
      width = b.width;
      height = b.height;
      columns = c;
      gap = gap;
    })

  -- One round of the loop over the colours.
  unfoldable pub parse_status_color : List Text → Text → Text → Json → Load (Text × Rgb)
  unfolding color_value guard succeed ◌>>◌
  parse_status_color priorities path status value = do
    guard (is_identifier status) (path ++ str " name must be a valid status identifier")
    guard (has_name status priorities) (path ++ str " is not listed in .priority")
    color ← color_value fl json value path
    succeed (status, color)

  unfoldable pub parse_status_colors :
      List Text → Text → List (Text × Json) → Load (List (Option (Text × Rgb)))
  unfolding parse_status_color attempt succeed
  parse_status_colors priorities path [] = succeed []
  parse_status_colors priorities path ((status, value) ∷ rest) = do
    color ← attempt (parse_status_color priorities (path ++ b'.' ∷ status) status value)
    colors ← parse_status_colors priorities path rest
    succeed (color ∷ colors)

  -- The loop over the priorities: whether each of them has a colour.
  unfoldable pub check_colors : List (Text × Rgb) → Text → List Text → Load Bool
  unfolding check succeed
  check_colors colors path [] = succeed true
  check_colors colors path (status ∷ rest) = do
    known ←
        check (is_some (find_text status colors))
          (path ++ str " is missing priority status: " ++ status)
    later ← check_colors colors path rest
    succeed (known && later)

  unfoldable pub parse_layout_aggregate_status_config :
      List (Text × Json)
      → Text
      → DisplayConfig
      → Option LayoutBounds
      → Load LayoutAggregateStatusConfig
  unfolding reject_unknown_fields required_identifier parse_layout_bounds bounded_array
      bounded_object layout_bounds_are_valid parse_names parse_status_colors check_colors
      color_field attempt or_stop pushed complete succeed ◌>>◌
  parse_layout_aggregate_status_config item path display assigned = do
    reject_unknown_fields fl json item
        (widget_fields assigned ("sources" ∷ "priority" ∷ "colors" ∷ "default_color" ∷ [])) path
    id ← attempt (required_identifier fl json item "id" path)
    bounds ← attempt (parse_layout_bounds fl json item path display assigned)
    sources_field ←
        bounded_array item "sources" maximum_layout_widgets
          (field_path path "sources" ++ str " must contain between 1 and 1024 identifiers")
    priority_field ←
        bounded_array item "priority" maximum_statuses
          (field_path path "priority" ++ str " must contain between 1 and 256 status identifiers")
    colors_field ←
        bounded_object item "colors" maximum_statuses
          (field_path path "colors" ++ str " must contain between 1 and 256 status colors")
    (i, b) ← or_stop (both id bounds)
    layout_bounds_are_valid b path
    sources ←
        parse_names fl json (field_path path "sources") (str " must be a valid identifier")
          (str " duplicates an earlier aggregate source") [] 0 sources_field
    priority ←
        parse_names fl json (field_path path "priority") (str " must be a valid status identifier")
          (str " duplicates an earlier aggregate priority") [] 0 priority_field
    colors ← parse_status_colors (pushed priority) (field_path path "colors") colors_field
    covered ← check_colors (pushed colors) (field_path path "colors") (pushed priority)
    default_color ← attempt (color_field fl json item "default_color" display.background path)
    (s, (p, (c, d))) ← or_stop (
        both (complete sources)
          (both (complete priority) (both (keep_if covered (complete colors)) default_color)))
    succeed (record {
      id = i;
      sources = s;
      priority = p;
      colors = c;
      x = b.x;
      y = b.y;
      width = b.width;
      height = b.height;
      default_color = d;
    })

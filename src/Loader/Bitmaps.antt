-- ===== src/Loader/Bitmaps.antt =====
-- Palettes and rows of pixels, and the bitmap widget (src/core/config.cpp).
use pixel_status_nx.Prelude.{
  ℕ, ◌+◌, Bool, ◌&&◌, Option, List, [], ◌∷◌, ◌++◌, Text, str, leb, ◌==◌, is_some, length, get_or,
  all_of,
}
use pixel_status_nx.Floating.{Floating}
use pixel_status_nx.Color.{Rgb}
use pixel_status_nx.Config.{DisplayConfig, Palette, LayoutBitmapConfig, find_color}
use pixel_status_nx.Json.{JsonLibrary}
use pixel_status_nx.Loader.{
  Load, succeed, attempt, or_refuse, or_stop, ◌>>=◌, ◌>>◌, both, pushed, complete, guard,
}
use pixel_status_nx.Loader.Limits.{maximum_bitmap_palette_entries}
use pixel_status_nx.Loader.Fields.{
  field_path, element_path, string_of, array_of, field_as, required_identifier,
  reject_unknown_fields, color_value,
}
use pixel_status_nx.Loader.Widgets.{
  LayoutBounds, widget_fields, layout_bounds_are_valid, parse_layout_bounds,
}
use pixel_status_nx.Loader.Grids.{bounded_object}

-- One printable ASCII character.
abbrev is_palette_key : Text → Bool
is_palette_key key = length key == 1 && leb 0x20 (get_or key 0 0) && leb (get_or key 0 0) 0x7E

-- `bitmap.palette.contains` for each character of a row.
abbrev pub is_covered : Palette → Text → Bool
is_covered palette row = all_of (λ c. is_some (find_color c palette)) row

module _ (fl : Floating) (json : JsonLibrary fl.Double) where
  open json use {Json, view}

  -- One round of the loop over a palette.
  unfoldable pub parse_palette_entry : Text → Text → Json → Load (ℕ × Rgb)
  unfolding color_value guard succeed ◌>>◌
  parse_palette_entry path key value = do
    guard (is_palette_key key) (path ++ str " keys must be one printable ASCII character")
    color ← color_value fl json value (path ++ b'.' ∷ key)
    succeed (get_or key 0 0, color)

  unfoldable pub parse_palette : Text → List (Text × Json) → Load (List (Option (ℕ × Rgb)))
  unfolding parse_palette_entry attempt succeed
  parse_palette path [] = succeed []
  parse_palette path ((key, value) ∷ rest) = do
    entry ← attempt (parse_palette_entry path key value)
    palette ← parse_palette path rest
    succeed (entry ∷ palette)

  -- One round of the loop over the rows.
  unfoldable pub parse_pixel_row : Palette → ℕ → Text → Text → Json → Load Text
  unfolding or_refuse guard succeed ◌>>◌
  parse_pixel_row palette width width_message path value = do
    row ← or_refuse (string_of fl json (view value)) (path ++ str " must be a string")
    guard (length row == width) (path ++ width_message)
    guard (is_covered palette row) (path ++ str " uses a character missing from palette")
    succeed row

  unfoldable pub parse_pixel_rows :
      Palette → ℕ → Text → Text → ℕ → List Json → Load (List (Option Text))
  unfolding parse_pixel_row attempt succeed
  parse_pixel_rows palette width width_message path index [] = succeed []
  parse_pixel_rows palette width width_message path index (value ∷ rest) = do
    row ← attempt (parse_pixel_row palette width width_message (element_path path index) value)
    rows ← parse_pixel_rows palette width width_message path (index + 1) rest
    succeed (row ∷ rows)

  -- A palette and as many rows as the height; the messages are those of the caller.
  unfoldable pub parse_bitmap :
      List (Text × Json) → Text → ℕ → ℕ → Text → Text → Load (Palette × List Text)
  unfolding bounded_object parse_palette or_refuse guard parse_pixel_rows or_stop complete pushed
      ◌>>◌
  parse_bitmap item path width height width_message height_message = do
    palette_field ←
        bounded_object fl json item "palette" maximum_bitmap_palette_entries
          (field_path path "palette" ++ str " must contain between 1 and 32 entries")
    palette ← parse_palette (field_path path "palette") palette_field
    pixels ←
        or_refuse (field_as fl json (array_of fl json) item "pixels")
          (field_path path "pixels" ++ height_message)
    guard (length pixels == height) (field_path path "pixels" ++ height_message)
    rows ← parse_pixel_rows (pushed palette) width width_message (field_path path "pixels") 0 pixels
    or_stop (both (complete palette) (complete rows))

  unfoldable pub parse_layout_bitmap_config :
      List (Text × Json) → Text → DisplayConfig → Option LayoutBounds → Load LayoutBitmapConfig
  unfolding reject_unknown_fields required_identifier parse_layout_bounds layout_bounds_are_valid
      parse_bitmap attempt or_stop succeed ◌>>◌
  parse_layout_bitmap_config item path display assigned = do
    reject_unknown_fields fl json item (widget_fields assigned ("palette" ∷ "pixels" ∷ [])) path
    id ← attempt (required_identifier fl json item "id" path)
    bounds ← attempt (parse_layout_bounds fl json item path display assigned)
    (i, b) ← or_stop (both id bounds)
    layout_bounds_are_valid b path
    (palette, pixels) ←
        parse_bitmap item path b.width b.height (str " must match the resolved widget width")
          (str " must match the resolved widget height")
    succeed (record {
      id = i;
      x = b.x;
      y = b.y;
      width = b.width;
      height = b.height;
      palette = palette;
      pixels = pixels;
    })

-- ===== src/Renderer/Grid.antt =====
-- The status grid widget (`render_status_grid` of src/core/renderer.cpp).
pub mod Cells
pub mod Drawn
use pixel_status_nx.Prelude.{
  ℕ, ◌+◌, ◌-◌, ◌*◌, ◌/◌, ◌%◌, Bool, true, false, ◌||◌, Option, none, some, List, [], ◌∷◌, Text, str,
  ltb, ◌==◌, if◌then◌else◌, length,
}
use pixel_status_nx.Floating.{Floating}
use pixel_status_nx.Time.{TimePoint}
use pixel_status_nx.State.{Store}
use pixel_status_nx.Config.{AppConfig, LayoutStatusGridConfig}
use pixel_status_nx.Renderer.{size_mod, Canvas, fail, sample_source}
use pixel_status_nx.Renderer.Widgets.{fill_or_fail, count_rendered, Rect}

-- The number of rows: the quotient by the columns, rounded up.
unfoldable pub grid_rows : LayoutStatusGridConfig → ℕ
grid_rows grid = (length grid.sources + grid.columns - 1) % size_mod / grid.columns

abbrev pub horizontal_gaps : LayoutStatusGridConfig → ℕ
horizontal_gaps grid = grid.gap * (grid.columns - 1) % size_mod

abbrev pub vertical_gaps : LayoutStatusGridConfig → ℕ
vertical_gaps grid = grid.gap * (grid_rows grid - 1) % size_mod

-- A difference of two sizes.
abbrev pub minus : ℕ → ℕ → ℕ
minus a b = (a + size_mod - b) % size_mod

-- The first two tests of the function.
unfoldable pub bad_configuration : LayoutStatusGridConfig → Bool
bad_configuration grid =
    length grid.sources == 0 || grid.columns == 0 || ltb (length grid.sources) grid.columns

unfoldable pub bad_geometry : LayoutStatusGridConfig → Bool
bad_geometry grid =
    ltb grid.width (horizontal_gaps grid)
    || ltb (grid.width - horizontal_gaps grid) grid.columns
    || ltb grid.height (vertical_gaps grid)
    || ltb (grid.height - vertical_gaps grid) (grid_rows grid)

-- The rectangle of the cell at an index.
unfoldable pub grid_cell : LayoutStatusGridConfig → ℕ → Rect
grid_cell grid index =
    let usable_width = grid.width - horizontal_gaps grid in
    let usable_height = grid.height - vertical_gaps grid in
    let column = index % grid.columns in
    let row = index / grid.columns in
    let left = usable_width * column % size_mod / grid.columns in
    let right = usable_width * (column + 1) % size_mod / grid.columns in
    let top = usable_height * row % size_mod / grid_rows grid in
    let bottom = usable_height * (row + 1) % size_mod / grid_rows grid in
    record {
      x = (grid.x + left + column * grid.gap) % size_mod;
      y = (grid.y + top + row * grid.gap) % size_mod;
      width = minus right left;
      height = minus bottom top;
    }

module _ (fl : Floating) (states : Store fl.Double) (config : AppConfig fl.Double)
    (now origin : TimePoint) where
  -- One round of the loop.
  unfoldable pub draw_cell : LayoutStatusGridConfig → ℕ → Text → Canvas → Canvas × Bool
  unfolding grid_cell fill_or_fail
  draw_cell grid index source c =
      let (sample, report) = sample_source fl states config source now origin c.report in
      let c' = count_rendered (record c { report = report }) in
      elim sample.color [
        | none ↦ (c', true)
        | some color ↦
            let r = grid_cell grid index in
            fill_or_fail c' r.x r.y r.width r.height color
              (str "Layout status grid bounds became invalid during rendering")
      ]

  -- The loop over the sources that are left.
  unfoldable pub draw_cells : LayoutStatusGridConfig → ℕ → List Text → Canvas → Canvas × Bool
  draw_cells grid index [] c = (c, true)
  draw_cells grid index (source ∷ rest) c =
      let (c', drawn) = draw_cell grid index source c in
      let later = draw_cells grid (index + 1) rest c' in if drawn then later else (c', false)

  unfoldable pub render_status_grid : LayoutStatusGridConfig → Canvas → Canvas × Bool
  unfolding draw_cells bad_configuration bad_geometry
  render_status_grid grid c =
      if bad_configuration grid
      then fail c (str "Layout status grid configuration became invalid during rendering")
      else if bad_geometry grid
      then fail c (str "Layout status grid geometry became invalid during rendering")
      else draw_cells grid 0 grid.sources c

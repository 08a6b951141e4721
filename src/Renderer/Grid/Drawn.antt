-- ===== src/Renderer/Grid/Drawn.antt =====
-- The status grid is drawn whole (`render_status_grid` of src/core/renderer.cpp).
use pixel_status_nx.Prelude.{
  inl, inr, ℕ, ◌+◌, ◌≤◌, ◌≡◌, refl, true, false, List, [], ◌∷◌, Text, arith, length, Option-cases,
}
use pixel_status_nx.Floating.{Floating}
use pixel_status_nx.Time.{TimePoint}
use pixel_status_nx.State.{Store}
use pixel_status_nx.Config.{AppConfig, LayoutStatusGridConfig}
use pixel_status_nx.Frame.Pixels.{Resembles-refl, Fits}
use pixel_status_nx.Renderer.{Canvas, sample_source}
use pixel_status_nx.Renderer.Widgets.Kept.{Keeps, fill_or_fail-Keeps, fill_or_fail-Fits}
use pixel_status_nx.Renderer.Grid.{
  bad_configuration, bad_geometry, grid_cell, draw_cell, draw_cells, render_status_grid,
}
use pixel_status_nx.Renderer.Grid.Cells.{IsNarrow, grid_cell_inside}

module _ (fl : Floating) (states : Store fl.Double) (config : AppConfig fl.Double)
    (now origin : TimePoint) (grid : LayoutStatusGridConfig) (narrow : IsNarrow grid) where
  draw_cell-Keeps :
      (index : ℕ) (source : Text) (c : Canvas)
      → Keeps c (draw_cell fl states config now origin grid index source c).0
  unfolding draw_cell
  draw_cell-Keeps index source c =
      elim (Option-cases (sample_source fl states config source now origin c.report).0.color) [
        | inl e ↦ rw (e, draw_cell) (Resembles-refl c.output)
        | inr (color, e) ↦ rw (e, draw_cell) (fill_or_fail-Keeps _ _ _ _ _ color _)
      ]

  draw_cell-Fits :
      (index : ℕ) (source : Text) (c : Canvas)
      → (let cell = grid_cell grid index in Fits c.output cell.x cell.y cell.width cell.height)
      → (draw_cell fl states config now origin grid index source c).1 ≡ true
  unfolding draw_cell
  draw_cell-Fits index source c h =
      elim (Option-cases (sample_source fl states config source now origin c.report).0.color) [
        | inl e ↦ rw (e, draw_cell) refl
        | inr (color, e) ↦ rw (e, draw_cell) (fill_or_fail-Fits _ _ _ _ _ color _ h)
      ]

  module _ (ok : bad_configuration grid ≡ false) (fits : bad_geometry grid ≡ false) where
    draw_cells_succeed :
        (index : ℕ) (sources : List Text) (c : Canvas)
        → index + length sources ≡ length grid.sources
        → grid.x + grid.width ≤ c.output.width
        → grid.y + grid.height ≤ c.output.height
        → (draw_cells fl states config now origin grid index sources c).1 ≡ true
    unfolding draw_cells
    draw_cells_succeed index [] c all wide tall = refl
    draw_cells_succeed index (source ∷ rest) c all wide tall =
        let cell = grid_cell_inside grid narrow ok index fits (omega (arith, all)) in
        let drawn =
          draw_cell-Fits index source c
            (cell.0, cell.1, omega (arith, cell.3, wide), omega (arith, cell.5, tall)) in
        let kept = draw_cell-Keeps index source c in
        let c' = (draw_cell fl states config now origin grid index source c).0 in
        rw drawn (
          draw_cells_succeed (index + 1) rest c' (omega (arith, all)) (rw kept.same_width wide)
            (rw kept.same_height tall))

    -- A status grid whose numbers have 32 bits and whose tests pass, in bounds that lie in the frame,
    -- is drawn: no cell is refused.
    pub render_status_grid_drawn :
        (c : Canvas)
        → grid.x + grid.width ≤ c.output.width
        → grid.y + grid.height ≤ c.output.height
        → (render_status_grid fl states config now origin grid c).1 ≡ true
    unfolding render_status_grid
    render_status_grid_drawn c wide tall =
        rw (ok, fits) (draw_cells_succeed 0 grid.sources c (omega arith) wide tall)

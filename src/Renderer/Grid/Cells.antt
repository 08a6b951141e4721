-- ===== src/Renderer/Grid/Cells.antt =====
-- The geometry of the status grid's cells (`render_status_grid` of src/core/renderer.cpp).
use native.Mathlib.Nat.{
  le-div_iff_mul-le, div-le_of_le-mul, div-mul-le_self, mod-lt, mul-le-mul_left,
}
use pixel_status_nx.Prelude.{
  ℕ, ◌^◌, sym, ap, subst, ◌+◌, ◌-◌, ◌*◌, ◌/◌, ◌%◌, ◌≤◌, ◌<◌, ◌≡◌, false, arith, ltb, length,
}
use pixel_status_nx.Config.{LayoutStatusGridConfig}
use pixel_status_nx.Renderer.{size_mod}
use pixel_status_nx.Renderer.Grid.{
  horizontal_gaps, vertical_gaps, minus, grid_rows, bad_configuration, bad_geometry, grid_cell,
}

-- A slot is the part of an extent that one of n cells gets.
module _ (usable n : ℕ) (n_pos : 0 < n) (room : n ≤ usable) where
  -- Each slot holds a place.
  slot_positive : (k : ℕ) → usable * k / n < usable * (k + 1) / n
  slot_positive k = (le-div_iff_mul-le n_pos).1 (grind (arith, div-mul-le_self (usable * k) n))

  slot_ends : (k : ℕ) → k < n → usable * (k + 1) / n ≤ usable
  slot_ends k h = div-le_of_le-mul n (grind arith)

row-lt :
    (sources columns index : ℕ)
    → 0 < columns
    → index < sources
    → index / columns < (sources + columns - 1) / columns
row-lt sources columns index c h =
    (le-div_iff_mul-le c).1 (grind (arith, div-mul-le_self index columns))

-- What a cell takes of an extent: it begins, ends, and leaves the gap before the next one.
slot_fits :
    (extent gap n k : ℕ)
    → 0 < n
    → k < n
    → ltb extent (gap * (n - 1)) ≡ false
    → ltb (extent - gap * (n - 1)) n ≡ false
    → let u = extent - gap * (n - 1) in
      (0 < u * (k + 1) / n - u * k / n)
      × (u * k / n + k * gap + (u * (k + 1) / n - u * k / n) ≤ extent)
slot_fits extent gap n k p h e1 e2 =
    let u = extent - gap * (n - 1) in
    let more = slot_positive u n p room k in
    let last = slot_ends u n p room k h in
    (omega (arith, more), omega (arith, more, last, gaps, enough))
  where
    room : n ≤ extent - gap * (n - 1)
    room = ground arith

    enough : gap * (n - 1) ≤ extent
    enough = ground arith

    gaps : k * gap ≤ gap * (n - 1)
    gaps = grind arith

product_bounded : (a b m : ℕ) → a ≤ m → b ≤ m → a * b ≤ m * m
product_bounded a b m h k = grind (arith, mul-le-mul_left a k, mul-le-mul_left m h)

-- A product of two numbers of 32 bits does not wrap.
pub small_product : (a b : ℕ) → a < 2 ^ 32 → b < 2 ^ 32 → a * b % size_mod ≡ a * b
small_product a b h k =
    omega (arith, product_bounded a b (2 ^ 32 - 1) (omega (arith, h)) (omega (arith, k)))

rows_bounded : (l c : ℕ) → 0 < c → c ≤ l → l + c - 1 ≤ c * l
rows_bounded l c h k = grind (arith, mul-le-mul_left (c - 1) (one_le l c h k))
  where
    one_le : (l c : ℕ) → 0 < c → c ≤ l → 1 ≤ l
    one_le l c h k = omega (arith, h, k)

-- The same slot as the code computes it, from a start, in sizes that wrap.
slot_wrapped :
    (start extent gap n k : ℕ)
    → start < 2 ^ 32
    → extent < 2 ^ 32
    → n < 2 ^ 32
    → 0 < n
    → k < n
    → ltb extent (gap * (n - 1)) ≡ false
    → ltb (extent - gap * (n - 1)) n ≡ false
    → let u = extent - gap * (n - 1) in
      let begin = u * k % size_mod / n in
      let end = u * (k + 1) % size_mod / n in
      let place = (start + begin + k * gap) % size_mod in
      (0 < minus end begin) × (start ≤ place) × (place + minus end begin ≤ start + extent)
slot_wrapped start extent gap n k s e m p h e1 e2 =
    let u = extent - gap * (n - 1) in
    let (wide, last) = slot_fits extent gap n k p h e1 e2 in
    rw
      (
        small_product u k (omega (arith, e)) (omega (arith, m, h)),
        small_product u (k + 1) (omega (arith, e)) (omega (arith, m, h)),
      )
      (
        omega (arith, wide, last, s, e),
        omega (arith, wide, last, s, e),
        omega (arith, wide, last, s, e),
      )

-- A grid whose numbers have 32 bits.
pub record IsNarrow (grid : LayoutStatusGridConfig) : Type 0 where
  pub x_narrow : grid.x < 2 ^ 32
  pub y_narrow : grid.y < 2 ^ 32
  pub width_narrow : grid.width < 2 ^ 32
  pub height_narrow : grid.height < 2 ^ 32
  pub gap_narrow : grid.gap < 2 ^ 32
  pub few_sources : length grid.sources < 2 ^ 32

module _ (grid : LayoutStatusGridConfig) (gap_narrow : grid.gap < 2 ^ 32)
    (few_sources : length grid.sources < 2 ^ 32) (ok : bad_configuration grid ≡ false) where
  columns_pos : 0 < grid.columns
  unfolding bad_configuration
  columns_pos = ground arith

  columns_few : grid.columns ≤ length grid.sources
  unfolding bad_configuration
  columns_few = ground arith

  -- The numbers of rows and the gaps do not wrap.
  pub rows_plain : grid_rows grid ≡ (length grid.sources + grid.columns - 1) / grid.columns
  unfolding grid_rows
  rows_plain = ap (λ n. n / grid.columns) (omega (arith, columns_few, few_sources))

  rows_few : grid_rows grid ≤ length grid.sources
  rows_few =
      subst (λ n. n ≤ length grid.sources) (sym rows_plain)
        (div-le_of_le-mul grid.columns
          (rows_bounded (length grid.sources) grid.columns columns_pos columns_few))

  pub horizontal_plain : horizontal_gaps grid ≡ grid.gap * (grid.columns - 1)
  horizontal_plain =
      small_product grid.gap (grid.columns - 1) gap_narrow (omega (arith, columns_few, few_sources))

  pub vertical_plain : vertical_gaps grid ≡ grid.gap * (grid_rows grid - 1)
  vertical_plain =
      small_product grid.gap (grid_rows grid - 1) gap_narrow (omega (arith, rows_few, few_sources))

-- Where the numbers of a status grid have 32 bits and its tests pass, the cell of each source is not
-- empty and lies in the widget.
pub grid_cell_inside :
    (grid : LayoutStatusGridConfig) (narrow : IsNarrow grid) (ok : bad_configuration grid ≡ false)
    (index : ℕ)
    → bad_geometry grid ≡ false
    → index < length grid.sources
    → let cell = grid_cell grid index in
      (0 < cell.width)
      × (0 < cell.height)
      × (grid.x ≤ cell.x)
      × (cell.x + cell.width ≤ grid.x + grid.width)
      × (grid.y ≤ cell.y)
      × (cell.y + cell.height ≤ grid.y + grid.height)
unfolding grid_cell bad_geometry
grid_cell_inside grid narrow ok index fits h =
    let few = narrow.few_sources in
    let gap = narrow.gap_narrow in
    let row =
      subst (λ n. index / grid.columns < n) (sym (rows_plain grid gap few ok))
        (row-lt (length grid.sources) grid.columns index (columns_pos grid gap few ok) h) in
    let tests = rw ((horizontal_plain grid gap few ok), (vertical_plain grid gap few ok)) at fits in
    let (wide, left, right) =
      slot_wrapped grid.x grid.width grid.gap grid.columns (index % grid.columns) narrow.x_narrow
        narrow.width_narrow (omega (arith, (columns_few grid gap few ok), narrow.few_sources))
        (columns_pos grid gap few ok) (mod-lt index (columns_pos grid gap few ok)) (ground arith)
        (ground arith) in
    let (tall, top, bottom) =
      slot_wrapped grid.y grid.height grid.gap (grid_rows grid) (index / grid.columns)
        narrow.y_narrow narrow.height_narrow
        (omega (arith, (rows_few grid gap few ok), narrow.few_sources)) (omega (arith, row)) row
        (ground arith) (ground arith) in
    rw ((horizontal_plain grid gap few ok), (vertical_plain grid gap few ok))
      (wide, tall, left, right, top, bottom)

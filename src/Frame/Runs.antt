-- ===== src/Frame/Runs.antt =====
-- The writes of `Frame::fill_rect`: runs of pixels in a vector, and rows of runs.
use pixel_status_nx.Prelude.{
  ℕ, zero, suc, ◌+◌, ◌*◌, ◌≤◌, ◌<◌, ◌≡◌, refl, ◌∙◌, ◌⊎◌, inl, inr, some, List, arith, Bool-cases,
  ltb, length, get_elem?, set, length-set, get_elem?-set_self, get_elem?-set_ne,
}
use pixel_status_nx.Color.{Rgb}
use pixel_status_nx.Frame.{fill_n, fill_rows}

pub length-fill_n :
    (pixels : List Rgb) (start n : ℕ) (c : Rgb) → length (fill_n pixels start n c) ≡ length pixels
unfolding fill_n
length-fill_n pixels start zero c = refl
length-fill_n pixels start (suc n) c =
    length-fill_n (set pixels start c) (start + 1) n c ∙ length-set pixels start c

pub get-fill_n_out :
    (pixels : List Rgb) (start n : ℕ) (c : Rgb) (i : ℕ)
    → (i < start) ⊎ (start + n ≤ i)
    → get_elem? (fill_n pixels start n c) i ≡ get_elem? pixels i
unfolding fill_n
get-fill_n_out pixels start zero c i h = refl
get-fill_n_out pixels start (suc n) c i h =
    get-fill_n_out (set pixels start c) (start + 1) n c i (omega arith)
    ∙ get_elem?-set_ne pixels start i c (omega arith)

pub get-fill_n_in :
    (pixels : List Rgb) (start n : ℕ) (c : Rgb) (i : ℕ)
    → start ≤ i
    → i < start + n
    → start + n ≤ length pixels
    → get_elem? (fill_n pixels start n c) i ≡ some c
unfolding fill_n
get-fill_n_in pixels start zero c i h k l = absurd (omega arith)
get-fill_n_in pixels start (suc n) c i h k l = elim (Bool-cases (ltb start i)) [
  | inl e ↦
      get-fill_n_in (set pixels start c) (start + 1) n c i (ground arith) (omega arith)
        (omega (arith, length-set pixels start c))
  | inr e ↦
      get-fill_n_out (set pixels start c) (start + 1) n c i (inl (ground arith))
      ∙ (let p : start ≡ i = ground arith in
          rw (← p) (get_elem?-set_self pixels start c (omega arith)))
]

pub length-fill_rows :
    (pixels : List Rgb) (stride x row n width : ℕ) (c : Rgb)
    → length (fill_rows pixels stride x row n width c) ≡ length pixels
unfolding fill_rows
length-fill_rows pixels stride x row zero width c = refl
length-fill_rows pixels stride x row (suc n) width c =
    length-fill_rows (fill_n pixels (row * stride + x) width c) stride x (row + 1) n width c
    ∙ length-fill_n pixels (row * stride + x) width c

-- A place in a row before another row lies before that row.
row_before : (i j a w : ℕ) → i < j → a < w → i * w + a < j * w
row_before i j a w h k = grind arith

row_end : (i j a w : ℕ) → i < j → a ≤ w → i * w + a ≤ j * w
row_end i j a w h k = grind arith

module _ (stride x width : ℕ) (c : Rgb) (fits : x + width ≤ stride) where
  -- A pixel in another row, or in another column, keeps its colour.
  pub get-fill_rows_out :
      (pixels : List Rgb) (row n i j : ℕ)
      → i < stride
      → ((j < row) ⊎ (row + n ≤ j)) ⊎ ((i < x) ⊎ (x + width ≤ i))
      → get_elem? (fill_rows pixels stride x row n width c) (j * stride + i)
        ≡ get_elem? pixels (j * stride + i)
  unfolding fill_rows
  get-fill_rows_out pixels row zero i j h o = refl
  get-fill_rows_out pixels row (suc n) i j h o =
      get-fill_rows_out (fill_n pixels (row * stride + x) width c) (row + 1) n i j h (omega arith)
      ∙ get-fill_n_out pixels (row * stride + x) width c (j * stride + i) (out (omega arith))
    where
      out :
          ((j < row) ⊎ (row < j)) ⊎ ((j ≡ row) × ((i < x) ⊎ (x + width ≤ i)))
          → (j * stride + i < row * stride + x) ⊎ (row * stride + x + width ≤ j * stride + i)
      out (inl (inl p)) = inl (omega (arith, row_before j row i stride p h))
      out (inl (inr p)) = inr (omega (arith, row_end row j (x + width) stride p fits))
      out (inr (p, q)) = rw p (omega arith)

  -- A pixel in the rectangle has the new colour.
  pub get-fill_rows_in :
      (pixels : List Rgb) (row n i j : ℕ)
      → x ≤ i
      → i < x + width
      → row ≤ j
      → j < row + n
      → (row + n) * stride ≤ length pixels
      → get_elem? (fill_rows pixels stride x row n width c) (j * stride + i) ≡ some c
  unfolding fill_rows
  get-fill_rows_in pixels row zero i j a b d e l = absurd (omega arith)
  get-fill_rows_in pixels row (suc n) i j a b d e l = elim (Bool-cases (ltb row j)) [
    | inl later ↦
        get-fill_rows_in (fill_n pixels (row * stride + x) width c) (row + 1) n i j a b
          (ground arith) (omega arith)
          (omega (arith, length-fill_n pixels (row * stride + x) width c))
    | inr here ↦
        let p : j ≡ row = ground arith in
        get-fill_rows_out (fill_n pixels (row * stride + x) width c) (row + 1) n i j (omega arith)
          (omega arith)
        ∙ get-fill_n_in pixels (row * stride + x) width c (j * stride + i) (rw p (omega arith))
            (rw p (omega arith))
            (omega (arith, row_end row (row + suc n) (x + width) stride (omega arith) fits))
  ]

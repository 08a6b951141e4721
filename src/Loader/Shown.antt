-- ===== src/Loader/Shown.antt =====
-- The loader (src/core/config.cpp) composed with the widgets of src/core/renderer.cpp.
use pixel_status_nx.Prelude.{
  ℕ, zero, suc, ◌+◌, ◌≤◌, ◌<◌, ◌≡◌, refl, subst, inl, inr, Bool, true, false, Option, some, List,
  [], ◌∷◌, Text, arith, length, All, get_elem?, Option-cases,
}
use mathlib.Core.Option.{some-injective}
use pixel_status_nx.Floating.{Floating}
use pixel_status_nx.Time.{TimePoint}
use pixel_status_nx.State.{Store}
use pixel_status_nx.Json.{JsonLibrary}
use pixel_status_nx.Color.{Rgb}
use pixel_status_nx.Config.{
  DisplayConfig, AppConfig, IndicatorConfig, CardConfig, LayoutCardConfig, layout_card,
  LayoutWidgetConfig, indicator_widget, clock_widget, bar_widget, grid_widget, aggregate_widget,
  bitmap_widget, LayoutBitmapConfig, Palette, find_color,
}
use pixel_status_nx.Frame.{Frame, set_pixel}
use pixel_status_nx.Frame.Pixels.{Fits, set_pixel-Resembles}
use pixel_status_nx.Renderer.{Canvas, sample_source}
use pixel_status_nx.Renderer.Clock.{WallClock, Tm}
use pixel_status_nx.Renderer.Widgets.{draw_row, draw_rows, render_layout_bitmap, render_indicator}
use pixel_status_nx.Renderer.Widgets.Kept.{fill_or_fail-Fits, draw_row-Resembles}
use pixel_status_nx.Renderer.Widgets.Bars.{render_bar_drawn}
use pixel_status_nx.Renderer.Grid.Drawn.{render_status_grid_drawn}
use pixel_status_nx.Renderer.Cards.{render_widget}
use pixel_status_nx.Loader.Bitmaps.{is_covered}
use pixel_status_nx.Loader.File.{ConfigFile, load_config_file}
use pixel_status_nx.Loader.Limits.{maximum_dimension}
use pixel_status_nx.Loader.Inside.{Within, Inside}
use pixel_status_nx.Loader.Placed.{IsRow, IsPicture, IsPlaced}
use pixel_status_nx.Loader.Fitting.{IsFitting}
use pixel_status_nx.Loader.Outcome.{load_config_file-IsFittingConfig}

set_pixel_accepted :
    (f : Frame) (x y : ℕ) (c : Rgb) → x < f.width → y < f.height → (set_pixel f x y c).1 ≡ true
unfolding set_pixel
set_pixel_accepted f x y c h k = ground arith

draw_row_drawn :
    (palette : Palette) (x y : ℕ) (row : Text) (f : Frame)
    → is_covered palette row ≡ true
    → x + length row ≤ f.width
    → y < f.height
    → (draw_row palette x y row f).1 ≡ true
unfolding draw_row
draw_row_drawn palette x y [] f covered wide tall = refl
draw_row_drawn palette x y (c ∷ rest) f covered wide tall =
    elim (Option-cases (find_color c palette)) [
      | inl e ↦ absurd (cc (rw e at covered))
      | inr (color, e) ↦
          let kept = set_pixel-Resembles f x y color in
          rw (e, draw_row, set_pixel_accepted f x y color (omega (arith, wide)) tall)
            (draw_row_drawn palette (x + 1) y rest (set_pixel f x y color).0
              (ground (arith, rw e at covered)) (omega (arith, wide, kept.same_width))
              (omega (arith, tall, kept.same_height)))
    ]

draw_rows_drawn :
    (palette : Palette) (x y width : ℕ) (rows : List Text) (f : Frame)
    → All (IsRow palette width) rows
    → x + width ≤ f.width
    → y + length rows ≤ f.height
    → (draw_rows palette x y rows f).1 ≡ true
unfolding draw_rows
draw_rows_drawn palette x y width [] f h wide tall = refl
draw_rows_drawn palette x y width (row ∷ rest) f h wide tall =
    let drawn =
      draw_row_drawn palette x y row f h.0.1 (omega (arith, wide, h.0.0)) (omega (arith, tall)) in
    let kept = draw_row-Resembles palette x y row f in
    rw (drawn, draw_rows)
      (draw_rows_drawn palette x (y + 1) width rest (draw_row palette x y row f).0 h.1
        (omega (arith, wide, kept.same_width)) (omega (arith, tall, kept.same_height)))

render_layout_bitmap_drawn :
    (w : LayoutBitmapConfig) (c : Canvas)
    → IsPicture w.width w.height (w.palette, w.pixels)
    → w.x + w.width ≤ c.output.width
    → w.y + w.height ≤ c.output.height
    → (render_layout_bitmap w c).1 ≡ true
unfolding render_layout_bitmap
render_layout_bitmap_drawn w c picture wide tall =
    rw
      (
        draw_rows_drawn w.palette w.x w.y w.width w.pixels c.output picture.1 wide
            (omega (arith, tall, picture.0)),
        render_layout_bitmap,
      )
      refl

render_indicator_drawn :
    (fl : Floating) (states : Store fl.Double) (config : AppConfig fl.Double)
    (now origin : TimePoint) (i : IndicatorConfig) (c : Canvas)
    → Fits c.output i.x i.y i.width i.height
    → (render_indicator fl states config now origin i c).1 ≡ true
unfolding render_indicator
render_indicator_drawn fl states config now origin i c fits =
    let sampled = sample_source fl states config i.source now origin c.report in
    elim (Option-cases sampled.0.color) [
      | inl e ↦ rw (e, render_indicator) refl
      | inr (color, e) ↦
          rw
            (
              e,
              render_indicator,
              fill_or_fail-Fits (record c { report = sampled.1 }) i.x i.y i.width i.height color _
                  fits,
            )
            refl
    ]

Inside-Fits :
    (display : DisplayConfig) (f : Frame) (x y width height : ℕ)
    → Inside display x y width height
    → f.width ≡ display.width
    → f.height ≡ display.height
    → Fits f x y width height
Inside-Fits display f x y width height i e h = (
  omega (arith, i.wide),
  omega (arith, i.tall),
  omega (arith, i.right_edge, e),
  omega (arith, i.lower_edge, h),
)

-- Widgets that need no wall time and no colour of their own.
abbrev pub is_plain : {D : Type 0} → LayoutWidgetConfig D → Bool
is_plain (clock_widget w) = false
is_plain (aggregate_widget w) = false
is_plain _ = true

pub All-elem :
    {A : Type 0} (P : A → Type 0) (xs : List A) (i : ℕ) {x : A}
    → All P xs
    → get_elem? xs i ≡ some x
    → P x
All-elem P [] i all h = cc h
All-elem P (y ∷ xs) zero all h = subst P (some-injective _ _ h) all.0
All-elem P (y ∷ xs) (suc i) all h = All-elem P xs i all.1 h

module _ (fl : Floating) (wall : WallClock) (states : Store fl.Double)
    (config : AppConfig fl.Double) (now origin : TimePoint) (wall_now : wall.WallTime) where
  placed_widget_drawn :
      (w : LayoutWidgetConfig fl.Double) (c : Canvas) (times : Option (Tm × Tm))
      → Within 1 maximum_dimension config.display.width
      → Within 1 maximum_dimension config.display.height
      → IsPlaced config.display w
      → is_plain w ≡ true
      → c.output.width ≡ config.display.width
      → c.output.height ≡ config.display.height
      → (render_widget fl wall states config now origin wall_now w (c, times)).1 ≡ true
  unfolding render_widget
  placed_widget_drawn (indicator_widget w) c times wide tall placed plain same_width same_height =
      render_indicator_drawn fl states config now origin w c
        (Inside-Fits config.display c.output _ _ _ _ placed same_width same_height)
  placed_widget_drawn (bar_widget w) c times wide tall placed plain same_width same_height =
      render_bar_drawn fl states config now origin w c
        (Inside-Fits config.display c.output _ _ _ _ placed same_width same_height)
  placed_widget_drawn (grid_widget w) c times wide tall placed plain same_width same_height =
      render_status_grid_drawn fl states config now origin w
        (record {
          x_narrow = omega (arith, placed.0.right_edge, wide);
          y_narrow = omega (arith, placed.0.lower_edge, tall);
          width_narrow = omega (arith, placed.0.right_edge, wide);
          height_narrow = omega (arith, placed.0.lower_edge, tall);
          gap_narrow = omega (arith, placed.3);
          few_sources = omega (arith, placed.4);
        })
        placed.1 placed.2 c (omega (arith, placed.0.right_edge, same_width))
        (omega (arith, placed.0.lower_edge, same_height))
  placed_widget_drawn (bitmap_widget w) c times wide tall placed plain same_width same_height =
      render_layout_bitmap_drawn w c placed.1 (omega (arith, placed.0.right_edge, same_width))
        (omega (arith, placed.0.lower_edge, same_height))
  placed_widget_drawn (clock_widget w) c times wide tall placed plain same_width same_height =
      cc plain
  placed_widget_drawn (aggregate_widget w) c times wide tall placed plain same_width same_height =
      cc plain

  -- Whatever the file and the states, each indicator, bar, status grid and bitmap on a layout card of
  -- a configuration that the loader returns is drawn on a frame with the dimensions of its display:
  -- the renderer refuses none of them.
  pub loaded_widget_drawn :
      (json : JsonLibrary fl.Double) (path : Text) (file : ConfigFile) (i j : ℕ)
      (card : CardConfig fl.Double) (content : LayoutCardConfig fl.Double)
      (w : LayoutWidgetConfig fl.Double) (c : Canvas) (times : Option (Tm × Tm))
      → (load_config_file fl json path file).config ≡ some config
      → get_elem? config.cards i ≡ some card
      → card.content ≡ layout_card content
      → get_elem? content.widgets j ≡ some w
      → is_plain w ≡ true
      → c.output.width ≡ config.display.width
      → c.output.height ≡ config.display.height
      → (render_widget fl wall states config now origin wall_now w (c, times)).1 ≡ true
  loaded_widget_drawn json path file i j card content w c times h at_i shown at_j plain =
      let whole = load_config_file-IsFittingConfig fl json path file h in
      let fits =
        All-elem (λ card. IsFitting config.display card.content) config.cards i whole.cards_fit
          at_i in
      placed_widget_drawn w c times whole.width_within whole.height_within
        (All-elem (IsPlaced config.display) content.widgets j
          (subst (IsFitting config.display) shown fits) at_j)
        plain

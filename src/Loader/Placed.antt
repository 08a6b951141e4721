-- ===== src/Loader/Placed.antt =====
-- The widgets that src/core/config.cpp admits.
use pixel_status_nx.Prelude.{
  String, str, is_some, ◌^◌, ◌<◌, ℕ, ◌+◌, ◌≤◌, ◌≡◌, refl, ap, subst, suc, ◌∙◌, Bool, true, false,
  not, Option, some, List, [], ◌∷◌, Text, arith, length, All,
}
use pixel_status_nx.Floating.{Floating}
use pixel_status_nx.Config.{
  find_text, DisplayConfig, LayoutStatusGridConfig, Palette, LayoutWidgetConfig, indicator_widget,
  clock_widget, bar_widget, grid_widget, aggregate_widget, bitmap_widget,
}
use pixel_status_nx.Renderer.Grid.{bad_configuration, bad_geometry}
use pixel_status_nx.Renderer.Grid.Cells.{rows_plain, horizontal_plain, vertical_plain}
use pixel_status_nx.Loader.Limits.{maximum_dimension, maximum_layout_widgets}
use pixel_status_nx.Json.{JsonLibrary}
use pixel_status_nx.Loader.{Load, succeed, ◌>>=◌, pushed}
use pixel_status_nx.Loader.Names.{parse_names}
use pixel_status_nx.Loader.Widgets.{
  LayoutBounds, parse_layout_clock_config, parse_layout_indicator_config, parse_layout_bar_config,
}
use pixel_status_nx.Loader.Fields.{bounded_size}
use pixel_status_nx.Loader.Grids.{
  grid_gap, bounded_array, cells_fit, parse_layout_status_grid_config,
  parse_layout_aggregate_status_config,
}
use pixel_status_nx.Loader.Bitmaps.{
  is_covered, parse_pixel_row, parse_pixel_rows, parse_bitmap, parse_layout_bitmap_config,
}
use pixel_status_nx.Loader.Nodes.{widget_of_type, parse_layout_widget}
use pixel_status_nx.Loader.Results.{
  or_stop-Gives, keep_if-some, both-some, ⊗-Gives, check-Gives, Ensures, Ensures-succeed,
  Ensures-refuse, Ensures->>=, Ensures->>, Ensures-attempt, Ensures-guard, complete-pushed,
  length-complete, pushed-All, Ensures-if,
}
use pixel_status_nx.Loader.Inside.{
  Within, Inside, InsideIndicator, Assigned, bounded_size-Within, parse_layout_bounds-Inside,
}

-- A row of pixels of a width, whose characters the palette has.
abbrev pub IsRow : Palette → ℕ → Text → Type 0
IsRow palette width row = (length row ≡ width) × (is_covered palette row ≡ true)

abbrev pub IsPicture : ℕ → ℕ → Palette × List Text → Type 0
IsPicture width height p = (length p.1 ≡ height) × All (IsRow p.0 width) p.1

-- A widget with a rectangle in the display, in which its contents have room.
abbrev pub IsPlaced : {D : Type 0} → DisplayConfig → LayoutWidgetConfig D → Type 0
IsPlaced display (indicator_widget w) = InsideIndicator display w
IsPlaced display (clock_widget w) =
    Inside display w.x w.y w.width w.height × (15 ≤ w.width) × (7 ≤ w.height)
IsPlaced display (bar_widget w) = Inside display w.x w.y w.width w.height
IsPlaced display (grid_widget w) =
    Inside display w.x w.y w.width w.height
    × (bad_configuration w ≡ false)
    × (bad_geometry w ≡ false)
    × (w.gap ≤ maximum_dimension)
    × (length w.sources ≤ maximum_layout_widgets)
IsPlaced display (aggregate_widget w) = Inside display w.x w.y w.width w.height
IsPlaced display (bitmap_widget w) =
    Inside display w.x w.y w.width w.height × IsPicture w.width w.height (w.palette, w.pixels)

not-true : (b : Bool) → not b ≡ true → b ≡ false
not-true b h = ground arith

grid_fits :
    (w : LayoutStatusGridConfig) (n : ℕ)
    → length w.sources ≡ n
    → Within 1 n w.columns
    → w.gap ≤ maximum_dimension
    → n ≤ maximum_layout_widgets
    → cells_fit (record { x = w.x; y = w.y; width = w.width; height = w.height }) n w.columns w.gap
      ≡ true
    → (bad_configuration w ≡ false) × (bad_geometry w ≡ false)
unfolding cells_fit bad_configuration bad_geometry
grid_fits w n e h gap few fit =
    let narrow : w.gap < 2 ^ 32 = omega (arith, gap) in
    let fewer : length w.sources < 2 ^ 32 = omega (arith, e, few) in
    (
      configured,
      rw
          (
            horizontal_plain w narrow fewer configured,
            vertical_plain w narrow fewer configured,
            rows_plain w narrow fewer configured,
            e,
          )
          (not-true _ fit),
    )
  where
    configured : bad_configuration w ≡ false
    configured = rw e (ground arith)

grid_gap-bounded :
    (fl : Floating) (json : JsonLibrary fl.Double) (item : List (Text × json.Json)) (path : Text)
    → Ensures (λ gap. gap ≤ maximum_dimension) (grid_gap fl json item path)
unfolding grid_gap
grid_gap-bounded fl json item path =
    Ensures-if (is_some (find_text (str "gap") item))
      {m = bounded_size fl json item "gap" path 0 maximum_dimension}
      (record {
        holds = λ gap e. (bounded_size-Within fl json item "gap" path 0 maximum_dimension e).1;
      })
      (Ensures-succeed 0 (omega arith))

bounded_array-bounded :
    (fl : Floating) (json : JsonLibrary fl.Double) (item : List (Text × json.Json)) (key : String)
    (maximum : ℕ) (message : Text)
    → Ensures (λ items. length items ≤ maximum) (bounded_array fl json item key maximum message)
unfolding bounded_array
bounded_array-bounded fl json item key maximum message =
    Ensures->>= _ _ λ items _. Ensures-guard _ _ _ λ few. Ensures-succeed items (ground arith)

parse_names-length :
    (fl : Floating) (json : JsonLibrary fl.Double) (path invalid duplicate : Text)
    (values : List json.Json) (names : List Text) (index : ℕ)
    → Ensures
        (λ os. length os ≡ length values)
        (parse_names fl json path invalid duplicate names index values)
unfolding parse_names
parse_names-length fl json path invalid duplicate [] names index = Ensures-succeed _ refl
parse_names-length fl json path invalid duplicate (value ∷ rest) names index =
    Ensures-attempt _ _ λ _ _. Ensures->>= _ _ λ later e. Ensures-succeed _ (
      ap suc ((parse_names-length fl json path invalid duplicate rest _ (index + 1)).holds later e))

-- Each row that a round pushes fits the palette and the width.
parse_pixel_row-IsRow :
    (fl : Floating) (json : JsonLibrary fl.Double) (palette : Palette) (width : ℕ)
    (message path : Text) (value : json.Json)
    → Ensures (IsRow palette width) (parse_pixel_row fl json palette width message path value)
unfolding parse_pixel_row
parse_pixel_row-IsRow fl json palette width message path value = Ensures->>= _ _ λ row _.
    Ensures-guard _ _ _
      λ same. Ensures-guard _ _ _ λ covered. Ensures-succeed row (ground arith, covered)

abbrev AllRows : Palette → ℕ → List (Option Text) → Type 0
AllRows palette width = All (λ o. (row : Text) → o ≡ some row → IsRow palette width row)

parse_pixel_rows-AllRows :
    (fl : Floating) (json : JsonLibrary fl.Double) (palette : Palette) (width : ℕ)
    (message path : Text) (values : List json.Json) (index : ℕ)
    → Ensures
        (λ os. (length os ≡ length values) × AllRows palette width os)
        (parse_pixel_rows fl json palette width message path index values)
unfolding parse_pixel_rows
parse_pixel_rows-AllRows fl json palette width message path [] index = Ensures-succeed _ (refl, tt)
parse_pixel_rows-AllRows fl json palette width message path (value ∷ rest) index =
    Ensures-attempt _ _ λ o read. Ensures->>= _ _ λ later e. Ensures-succeed _ (
      let rows =
        (parse_pixel_rows-AllRows fl json palette width message path rest (index + 1)).holds later
          e in
      (
        ap suc rows.0,
        (
          λ row here.
              (parse_pixel_row-IsRow fl json palette width message _ value).holds row (read ∙ here),
          rows.1,
        ),
      ))

pub parse_bitmap-IsPicture :
    (fl : Floating) (json : JsonLibrary fl.Double) (item : List (Text × json.Json))
    (path width_message height_message : Text) (width height : ℕ)
    → Ensures
        (IsPicture width height)
        (parse_bitmap fl json item path width height width_message height_message)
unfolding parse_bitmap
parse_bitmap-IsPicture fl json item path width_message height_message width height =
    Ensures->>= _ _ λ _ _. Ensures->>= _ _ λ palette _. Ensures->>= _ _ λ pixels _.
      Ensures-guard _ _ _ λ tall. Ensures->>= _ _ λ rows e. record {
        holds = λ picture h.
            let (colors, lines) = both-some _ _ (or_stop-Gives _ h) in
            let read = (parse_pixel_rows-AllRows fl json _ width _ _ pixels 0).holds rows e in
            let same = complete-pushed palette colors in
            (
              length-complete rows lines ∙ read.0 ∙ ground arith,
              subst (λ p. All (IsRow p width) picture.1) same
                  (subst (All (IsRow (pushed palette) width)) (complete-pushed rows lines)
                    (pushed-All (IsRow (pushed palette) width) rows read.1)),
            );
      }

module _ (fl : Floating) (json : JsonLibrary fl.Double) (display : DisplayConfig)
    (item : List (Text × json.Json)) (path : Text) (assigned : Option LayoutBounds)
    (fits : Assigned display assigned) where
  indicator-Placed :
      Ensures
        (λ w. IsPlaced {D = fl.Double} display (indicator_widget w))
        (parse_layout_indicator_config fl json item path display assigned)
  unfolding parse_layout_indicator_config
  indicator-Placed = Ensures->> _ _ λ _. Ensures->>= _ _ λ r e. Ensures->> _ _ λ _.
      Ensures-succeed _ (
        let (_, h1) = ⊗-Gives _ _ e in
        let (_, h2) = ⊗-Gives _ _ h1 in
        let i = (parse_layout_bounds-Inside fl json item path display assigned fits).holds _ h2 in
        record {
          wide = i.wide;
          tall = i.tall;
          right_edge = i.right_edge;
          lower_edge = i.lower_edge;
        })

  bar-Placed :
      Ensures
        (λ w. IsPlaced display (bar_widget w))
        (parse_layout_bar_config fl json item path display assigned)
  unfolding parse_layout_bar_config
  bar-Placed = Ensures->> _ _ λ _. Ensures->>= _ _ λ r e. Ensures->> _ _ λ _.
      Ensures-guard _ _ _ λ _. Ensures->>= _ _ λ _ _. Ensures->>= _ _ λ _ _. Ensures-succeed _ (
        let (_, h1) = ⊗-Gives _ _ e in
        let (_, h2) = ⊗-Gives _ _ h1 in
        let (h3, _) = ⊗-Gives _ _ h2 in
        (parse_layout_bounds-Inside fl json item path display assigned fits).holds _ h3)

  clock-Placed :
      Ensures
        (λ w. IsPlaced {D = fl.Double} display (clock_widget w))
        (parse_layout_clock_config fl json item path display assigned)
  unfolding parse_layout_clock_config
  clock-Placed = Ensures->> _ _ λ _. Ensures-attempt _ _ λ id _. Ensures-attempt _ _ λ bounds read.
      Ensures-attempt _ _ λ timezone _. Ensures-attempt _ _ λ source _. Ensures->>= _ _ λ r e.
        Ensures->> _ _ λ _. Ensures->>= _ _ λ s _. Ensures-guard _ _ _ λ ok. Ensures->>= _ _ λ _ _.
          Ensures->>= _ _ λ _ _. Ensures-succeed _ (
            let (_, h1) = both-some _ _ (or_stop-Gives _ e) in
            let (h2, _) = both-some _ _ h1 in
            (
              (parse_layout_bounds-Inside fl json item path display assigned fits).holds _
                  (read ∙ h2),
              ground arith,
              ground arith,
            ))

  aggregate-Placed :
      Ensures
        (λ w. IsPlaced {D = fl.Double} display (aggregate_widget w))
        (parse_layout_aggregate_status_config fl json item path display assigned)
  unfolding parse_layout_aggregate_status_config
  aggregate-Placed = Ensures->> _ _ λ _. Ensures-attempt _ _ λ id _.
      Ensures-attempt _ _ λ bounds read. Ensures->>= _ _ λ _ _. Ensures->>= _ _ λ _ _.
        Ensures->>= _ _ λ _ _. Ensures->>= _ _ λ r e. Ensures->> _ _ λ _. Ensures->>= _ _ λ _ _.
          Ensures->>= _ _ λ _ _. Ensures->>= _ _ λ _ _. Ensures->>= _ _ λ _ _.
            Ensures-attempt _ _ λ _ _. Ensures->>= _ _ λ _ _. Ensures-succeed _ (
              (parse_layout_bounds-Inside fl json item path display assigned fits).holds _
                (read ∙ (both-some _ _ (or_stop-Gives _ e)).1))

  grid-Placed :
      Ensures
        (λ w. IsPlaced {D = fl.Double} display (grid_widget w))
        (parse_layout_status_grid_config fl json item path display assigned)
  unfolding parse_layout_status_grid_config
  grid-Placed = Ensures->> _ _ λ _. Ensures-attempt _ _ λ id _. Ensures-attempt _ _ λ bounds read.
      Ensures->>= _ _ λ field many. Ensures-attempt _ _ λ columns c_ok. Ensures->>= _ _ λ gap g_ok.
        Ensures->>= _ _ λ r e. Ensures->> _ _ λ _. Ensures->>= _ _ λ names n_ok.
          Ensures->>= _ _ λ fit f_ok. Ensures->>= _ _ λ s s_ok. Ensures-succeed _ (
            let (_, h1) = both-some _ _ (or_stop-Gives _ e) in
            let (h2, h3) = both-some _ _ h1 in
            let (f, all) = keep_if-some _ _ (or_stop-Gives _ s_ok) in
            let count =
              length-complete names all
              ∙ (parse_names-length fl json _ _ _ field _ _).holds names n_ok in
            let cols =
              bounded_size-Within fl json item "columns" path 1 (length field) (c_ok ∙ h3) in
            let few =
              (bounded_array-bounded fl json item "sources" maximum_layout_widgets _).holds field
                many in
            let narrow = (grid_gap-bounded fl json item path).holds gap g_ok in
            let fit = grid_fits _ (length field) count cols narrow few (check-Gives _ _ f_ok ∙ f) in
            (
              (parse_layout_bounds-Inside fl json item path display assigned fits).holds _
                  (read ∙ h2),
              fit.0,
              fit.1,
              narrow,
              omega (arith, count, few),
            ))

  bitmap-Placed :
      Ensures
        (λ w. IsPlaced {D = fl.Double} display (bitmap_widget w))
        (parse_layout_bitmap_config fl json item path display assigned)
  unfolding parse_layout_bitmap_config
  bitmap-Placed = Ensures->> _ _ λ _. Ensures-attempt _ _ λ id _. Ensures-attempt _ _ λ bounds read.
      Ensures->>= _ _ λ r e. Ensures->> _ _ λ _. Ensures->>= _ _ λ picture p_ok. Ensures-succeed _ (
        (parse_layout_bounds-Inside fl json item path display assigned fits).holds _
            (read ∙ (both-some _ _ (or_stop-Gives _ e)).1),
        (parse_bitmap-IsPicture fl json item path _ _ _ _).holds picture p_ok,
      )

  -- A result that is wrapped into the variant.
  wrapped :
      {A : Type 0} (m : Load A) (wrap : A → LayoutWidgetConfig fl.Double)
      → Ensures (λ w. IsPlaced display (wrap w)) m
      → Ensures (IsPlaced display) (m >>= λ w. succeed (wrap w))
  wrapped m wrap h = Ensures->>= _ _ λ w e. Ensures-succeed _ (h.holds w e)

  widget_of_type-Placed :
      (type : Text)
      → Ensures (IsPlaced display) (widget_of_type fl json display type item path assigned)
  unfolding widget_of_type
  widget_of_type-Placed type = Ensures-if _ (wrapped _ indicator_widget indicator-Placed) (
      Ensures-if _ (wrapped _ clock_widget clock-Placed) (
        Ensures-if _ (wrapped _ bar_widget bar-Placed) (
          Ensures-if _ (wrapped _ grid_widget grid-Placed) (
            Ensures-if _ (wrapped _ aggregate_widget aggregate-Placed) (
              Ensures-if _ (wrapped _ bitmap_widget bitmap-Placed)
                (Ensures->> _ _ λ _. Ensures-refuse _))))))

-- A loaded widget has a rectangle in the display, in which its contents have room.
pub parse_layout_widget-Placed :
    (fl : Floating) (json : JsonLibrary fl.Double) (display : DisplayConfig) (value : json.Json)
    (path : Text) (assigned : Option LayoutBounds)
    → Assigned display assigned
    → Ensures (IsPlaced display) (parse_layout_widget fl json display value path assigned)
unfolding parse_layout_widget
parse_layout_widget-Placed fl json display value path assigned fits = Ensures->>= _ _ λ item _.
    Ensures->>= _ _ λ type _. widget_of_type-Placed fl json display item path assigned fits type

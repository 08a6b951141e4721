-- ===== src/Loader/Inside.antt =====
-- The bounds that src/core/config.cpp admits.
use pixel_status_nx.Prelude.{
  ℕ, ◌+◌, ◌≤◌, ◌≡◌, refl, false, Option, none, some, List, Text, String, arith, Option-cases,
  Bool-cases, inl, inr, ltb_ℤ, pos, pos_part, str,
}
use pixel_status_nx.Floating.{Floating}
use pixel_status_nx.Config.{DisplayConfig, IndicatorConfig, find_text}
use pixel_status_nx.Json.{JsonLibrary, JsonView, unsigned_view, integer_view}
use pixel_status_nx.Loader.{succeed, refuse, ◌⊗◌}
use pixel_status_nx.Loader.Limits.{maximum_dimension}
use pixel_status_nx.Loader.Fields.{size_in_range, size_value, bounded_size}
use pixel_status_nx.Loader.Widgets.{
  LayoutBounds, extends_outside, read_bounds, parse_layout_bounds, parse_indicator_config,
}
use pixel_status_nx.Loader.Results.{
  Gives, succeed-Gives, ⊗-Gives, Ensures, Ensures-succeed, Ensures->>=, Ensures->>, Ensures-guard,
}

abbrev pub Within : ℕ → ℕ → ℕ → Type 0
Within minimum maximum n = (minimum ≤ n) × (n ≤ maximum)

-- A rectangle with a pixel that lies in the display.
pub record Inside (display : DisplayConfig) (x y width height : ℕ) : Type 0 where
  pub wide : 1 ≤ width
  pub tall : 1 ≤ height
  pub right_edge : x + width ≤ display.width
  pub lower_edge : y + height ≤ display.height

abbrev pub InsideBounds : DisplayConfig → LayoutBounds → Type 0
InsideBounds display b = Inside display b.x b.y b.width b.height

-- The bounds that a parent assigns, if it does, lie in the display.
abbrev pub Assigned : DisplayConfig → Option LayoutBounds → Type 0
Assigned display assigned = (b : LayoutBounds) → assigned ≡ some b → InsideBounds display b

abbrev pub InsideIndicator : DisplayConfig → IndicatorConfig → Type 0
InsideIndicator display i = Inside display i.x i.y i.width i.height

module _ (fl : Floating) (json : JsonLibrary fl.Double) where
  size_in_range-Within :
      (minimum maximum value : ℕ) (path : Text) {n : ℕ}
      → Gives (size_in_range fl json minimum maximum value path) n
      → Within minimum maximum n
  unfolding size_in_range succeed refuse
  size_in_range-Within minimum maximum value path h = ground arith

  size_value-Within :
      (minimum maximum : ℕ) (v : JsonView fl.Double json.Json) (path : Text) {n : ℕ}
      → Gives (size_value fl json minimum maximum v path) n
      → Within minimum maximum n
  unfolding size_value
  size_value-Within minimum maximum (unsigned_view value) path h =
      size_in_range-Within minimum maximum value path h
  size_value-Within minimum maximum (integer_view value) path h =
      elim (Bool-cases (ltb_ℤ value (pos 0))) [
        | inl e ↦ cc (rw (e, size_value) at h)
        | inr e ↦
            size_in_range-Within minimum maximum (pos_part value) path (rw (e, size_value) at h)
      ]
  size_value-Within minimum maximum _ path h = cc h

  -- A size that is read lies between its bounds.
  pub bounded_size-Within :
      (object : List (Text × json.Json)) (key : String) (path : Text) (minimum maximum : ℕ) {n : ℕ}
      → Gives (bounded_size fl json object key path minimum maximum) n
      → Within minimum maximum n
  unfolding bounded_size
  bounded_size-Within object key path minimum maximum h =
      elim (Option-cases (find_text (str key) object)) [
        | inl e ↦ cc (rw (e, bounded_size) at h)
        | inr (value, e) ↦
            size_value-Within minimum maximum (json.view value) _ (rw (e, bounded_size) at h)
      ]

  extends_outside-Inside :
      (display : DisplayConfig) (b : LayoutBounds)
      → extends_outside b display ≡ false
      → 1 ≤ b.width
      → 1 ≤ b.height
      → InsideBounds display b
  unfolding extends_outside
  extends_outside-Inside display b h wide tall = record {
    wide = wide;
    tall = tall;
    right_edge = ground arith;
    lower_edge = ground arith;
  }

  -- The four sizes of a rectangle.
  rectangle-Within :
      (item : List (Text × json.Json)) (path : Text) (r : ℕ × (ℕ × (ℕ × ℕ)))
      → Gives
          (bounded_size fl json item "x" path 0 maximum_dimension
            ⊗ bounded_size fl json item "y" path 0 maximum_dimension
            ⊗ bounded_size fl json item "width" path 1 maximum_dimension
            ⊗ bounded_size fl json item "height" path 1 maximum_dimension)
          r
      → (1 ≤ r.1.1.0) × (1 ≤ r.1.1.1)
  rectangle-Within item path r h =
      let (_, h1) = ⊗-Gives _ _ h in
      let (_, h2) = ⊗-Gives _ _ h1 in
      let (w, t) = ⊗-Gives _ _ h2 in
      (
        (bounded_size-Within item "width" path 1 maximum_dimension w).0,
        (bounded_size-Within item "height" path 1 maximum_dimension t).0,
      )

  read_bounds-Inside :
      (item : List (Text × json.Json)) (path : Text) (display : DisplayConfig)
      → Ensures (InsideBounds display) (read_bounds fl json item path display)
  unfolding read_bounds
  read_bounds-Inside item path display = Ensures->>= _ _ λ r e. Ensures->>= _ _ λ b same.
      Ensures-guard _ _ _ λ ok. Ensures-succeed b (
        let (wide, tall) = rectangle-Within item path r e in
        let s = succeed-Gives _ same in
        extends_outside-Inside display b (ground arith) (rw (← s) wide) (rw (← s) tall))

  -- The bounds of a widget lie in the display, where those that its parent assigns do.
  pub parse_layout_bounds-Inside :
      (item : List (Text × json.Json)) (path : Text) (display : DisplayConfig)
      (assigned : Option LayoutBounds)
      → Assigned display assigned
      → Ensures (InsideBounds display) (parse_layout_bounds fl json item path display assigned)
  unfolding parse_layout_bounds
  parse_layout_bounds-Inside item path display (some b) h = Ensures-succeed b (h b refl)
  parse_layout_bounds-Inside item path display none h = read_bounds-Inside item path display

  -- A loaded indicator lies in the display.
  pub parse_indicator_config-Inside :
      (value : json.Json) (path : Text) (display : DisplayConfig)
      → Ensures (InsideIndicator display) (parse_indicator_config fl json value path display)
  unfolding parse_indicator_config
  parse_indicator_config-Inside value path display = Ensures->>= _ _ λ item _. Ensures->> _ _ λ _.
      Ensures->>= _ _ λ r e. Ensures-guard _ _ _ λ ok. Ensures-succeed _ (
        let (_, h1) = ⊗-Gives _ _ e in
        let (_, h2) = ⊗-Gives _ _ h1 in
        let (wide, tall) = rectangle-Within item path r.1.1 h2 in
        extends_outside-Inside display _ (ground arith) wide tall)

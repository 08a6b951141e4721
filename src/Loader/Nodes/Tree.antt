-- ===== src/Loader/Nodes/Tree.antt =====
-- The widgets that a tree of rows, columns and stacks adds (`parse_layout_node` of src/core/config.cpp).
use pixel_status_nx.Prelude.{
  ℕ, zero, suc, ◌+◌, ◌-◌, ◌*◌, ◌≤◌, ◌≡◌, refl, subst, if◌then◌else◌, inl, inr, Bool, true, false,
  not, ◌||◌, Bool-cases, none, some, List, [], ◌∷◌, ◌++◌, Text, arith, length, All,
}
use mathlib.Core.Option.{some-injective}
use pixel_status_nx.Floating.{Floating}
use pixel_status_nx.Config.{DisplayConfig, LayoutWidgetConfig}
use pixel_status_nx.Json.{JsonLibrary}
use pixel_status_nx.Loader.{Load, loaded}
use pixel_status_nx.Loader.Fields.{field_path, has_name, is_name}
use pixel_status_nx.Loader.Widgets.{LayoutBounds}
use pixel_status_nx.Loader.Nodes.{
  LayoutState, NodeStep, ended, NodeParser, widget_id, after_errors, and_step, node_or_end,
  then_nodes, add_widget, child_bounds, stack_child, stack_children, split_children,
  parse_container, node_of_type, enter_node, parse_layout_node,
}
use pixel_status_nx.Loader.Nodes.Extents.{sum, AllPositive, Fills, extents_of, split_extent-Fills}
use pixel_status_nx.Loader.Results.{Gives, >>=-Gives, succeed-Gives}
use pixel_status_nx.Loader.Inside.{InsideBounds}
use pixel_status_nx.Loader.Placed.{IsPlaced, parse_layout_widget-Placed}

-- The extent of children with a gap between each two.
abbrev span : ℕ → List ℕ → ℕ
span gap [] = 0
span gap (n ∷ []) = n
span gap (n ∷ m ∷ rest) = n + gap + span gap (m ∷ rest)

span_step :
    (gap n m s sp count : ℕ)
    → sp ≡ m + s + gap * count
    → n + gap + sp ≡ n + (m + s) + gap * suc count
span_step gap n m s sp count e = grind (arith, e)

span-sum : (gap n : ℕ) (rest : List ℕ) → span gap (n ∷ rest) ≡ n + sum rest + gap * length rest
span-sum gap n [] = omega arith
span-sum gap n (m ∷ rest) = span_step gap n m (sum rest) _ (length rest) (span-sum gap m rest)

module _ {D : Type 0} (display : DisplayConfig) where
  abbrev AllPlaced : LayoutState D → Type 0
  AllPlaced layout = All (IsPlaced display) layout.widgets

  -- A step after which all widgets of the card are placed.
  pub data Places : NodeStep D → Type 0 where
    places :
        {layout : LayoutState D} {valid : Bool} {errors : List Text}
        → AllPlaced layout
        → Places (ended layout valid errors)

  after_errors-Places :
      (before : List Text) (s : NodeStep D) → Places s → Places (after_errors before s)
  after_errors-Places before (ended layout valid errors) (places h) = places h

  and_step-Places :
      (b : Bool) (errors : List Text) (s : NodeStep D) → Places s → Places (and_step b errors s)
  and_step-Places b errors (ended layout valid later) (places h) = places h

  node_or_end-Places :
      {A : Type 0} (layout : LayoutState D) (m : Load A) (f : A → NodeStep D)
      → AllPlaced layout
      → ((a : A) → Gives m a → Places (f a))
      → Places (node_or_end layout m f)
  unfolding node_or_end
  node_or_end-Places layout (loaded none errors) f h k = places h
  node_or_end-Places layout (loaded (some a) errors) f h k =
      after_errors-Places errors (f a) (k a refl)

  then_nodes-Places :
      (first : NodeStep D) (rest : LayoutState D → NodeStep D)
      → Places first
      → ((layout : LayoutState D) → AllPlaced layout → Places (rest layout))
      → Places (then_nodes first rest)
  unfolding then_nodes
  then_nodes-Places (ended layout valid errors) rest (places h) k =
      and_step-Places valid errors (rest layout) (k layout h)

  All-snoc :
      (ws : List (LayoutWidgetConfig D)) (w : LayoutWidgetConfig D)
      → All (IsPlaced display) ws
      → IsPlaced display w
      → All (IsPlaced display) (ws ++ w ∷ [])
  All-snoc [] w h k = (k, tt)
  All-snoc (v ∷ ws) w h k = (h.0, All-snoc ws w h.1 k)

  add_widget-Places :
      (path : Text) (w : LayoutWidgetConfig D) (layout : LayoutState D)
      → AllPlaced layout
      → IsPlaced display w
      → Places (add_widget path w layout)
  unfolding add_widget
  add_widget-Places path w layout h k = elim (Bool-cases (has_name (widget_id w) layout.ids)) [
    | inl e ↦ rw (e, add_widget) (places h)
    | inr e ↦ rw (e, add_widget) (places (All-snoc layout.widgets w h k))
  ]

-- A parser of nodes that keeps the widgets placed, in bounds that lie in the display.
abbrev IsPlacing : {D J : Type 0} → DisplayConfig → NodeParser D J → Type 0
IsPlacing {D} {J} display node =
    (value : J) (path : Text) (bounds : LayoutBounds) (layout : LayoutState D)
    → InsideBounds display bounds
    → AllPlaced display layout
    → Places display (node value path bounds layout)

-- The extent of a container along its direction, and where it begins.
abbrev start_of : Bool → LayoutBounds → ℕ
start_of is_row b = if is_row then b.x else b.y

abbrev extent_of : Bool → LayoutBounds → ℕ
extent_of is_row b = if is_row then b.width else b.height

child_bounds-Inside :
    (display : DisplayConfig) (is_row : Bool) (b : LayoutBounds) (cursor extent : ℕ)
    → InsideBounds display b
    → 1 ≤ extent
    → start_of is_row b ≤ cursor
    → cursor + extent ≤ start_of is_row b + extent_of is_row b
    → InsideBounds display (child_bounds is_row b cursor extent)
unfolding child_bounds
child_bounds-Inside display true b cursor extent h p starts ends = record {
  wide = p;
  tall = h.tall;
  right_edge = omega (arith, h.right_edge, ends);
  lower_edge = h.lower_edge;
}
child_bounds-Inside display false b cursor extent h p starts ends = record {
  wide = h.wide;
  tall = p;
  right_edge = h.right_edge;
  lower_edge = omega (arith, h.lower_edge, ends);
}

module _ (fl : Floating) (json : JsonLibrary fl.Double) (display : DisplayConfig)
    (node : NodeParser fl.Double json.Json) (good : IsPlacing display node) where
  stack_children-Places :
      (path : Text) (bounds : LayoutBounds)
      → InsideBounds display bounds
      → (children : List json.Json) (index : ℕ) (layout : LayoutState fl.Double)
      → AllPlaced display layout
      → Places display (stack_children fl json display node path bounds index children layout)
  unfolding stack_children stack_child
  stack_children-Places path bounds inside [] index layout h = places h
  stack_children-Places path bounds inside (child ∷ rest) index layout h =
      then_nodes-Places display _ _
        (node_or_end-Places display layout _ _ h λ u _. good child _ bounds layout inside h)
        λ layout' h'. stack_children-Places path bounds inside rest (index + 1) layout' h'

  split_children-Places :
      (is_row : Bool) (path : Text) (bounds : LayoutBounds) (gap : ℕ)
      → InsideBounds display bounds
      → (children : List (json.Json × ℕ)) (index cursor : ℕ) (layout : LayoutState fl.Double)
      → AllPositive (extents_of children)
      → start_of is_row bounds ≤ cursor
      → cursor + span gap (extents_of children) ≤ start_of is_row bounds + extent_of is_row bounds
      → AllPlaced display layout
      → Places display
          (split_children fl json display node is_row path bounds gap index cursor children layout)
  unfolding split_children
  split_children-Places is_row path bounds gap inside [] index cursor layout p starts ends h =
      places h
  split_children-Places is_row path bounds gap inside ((child, n) ∷ []) index cursor layout p starts
        ends h =
      then_nodes-Places display _ _
        (good child _ _ layout
          (child_bounds-Inside display is_row bounds cursor n inside p.0 starts ends) h)
        λ layout' h'. places h'
  split_children-Places is_row path bounds gap inside ((child, n) ∷ next ∷ rest) index cursor layout
        p starts ends h =
      then_nodes-Places display _ _
        (good child _ _ layout
          (child_bounds-Inside display is_row bounds cursor n inside p.0 starts
            (omega (arith, ends)))
          h)
        λ layout' h'.
          split_children-Places is_row path bounds gap inside (next ∷ rest) (index + 1)
            (cursor + n + gap) layout' p.1 (omega (arith, starts)) (omega (arith, ends)) h'

  -- Extents that fill the container end where it ends.
  filled-span :
      (extent gap count : ℕ) (xs : List ℕ)
      → Fills extent (gap * (count - 1)) count xs
      → span gap xs ≤ extent
  filled-span extent gap count [] f = omega arith
  filled-span extent gap count (n ∷ rest) f =
      let same : count - 1 ≡ length rest = omega (arith, f.one_each) in
      let total = subst (λ k. sum (n ∷ rest) + gap * k ≡ extent) same f.filled in
      omega (arith, span-sum gap n rest, total)

  split-Places :
      (is_row : Bool) (path : Text) (bounds : LayoutBounds) (gap : ℕ)
      → InsideBounds display bounds
      → (count : ℕ) (pairs : List (json.Json × ℕ))
      → Fills (extent_of is_row bounds) (gap * (count - 1)) count (extents_of pairs)
      → (layout : LayoutState fl.Double) → AllPlaced display layout
      → Places display (
          split_children fl json display node is_row path bounds gap 0
            (start_of is_row bounds)
            pairs
            layout)
  split-Places is_row path bounds gap inside count pairs f layout h =
      split_children-Places is_row path bounds gap inside pairs 0 (start_of is_row bounds) layout
        f.positive (omega arith)
        (omega (arith, filled-span (extent_of is_row bounds) gap count (extents_of pairs) f)) h

  parse_container-Places :
      (type : Text) (item : List (Text × json.Json)) (children : List json.Json) (path : Text)
      (bounds : LayoutBounds) (layout : LayoutState fl.Double)
      → InsideBounds display bounds
      → AllPlaced display layout
      → Places display (parse_container fl json display node type item children path bounds layout)
  unfolding parse_container
  parse_container-Places type item children path bounds layout inside h =
      elim (Bool-cases (is_name type "stack")) [
        | inl e ↦ rw e (stack_children-Places _ bounds inside children 0 layout h)
        | inr e ↦ rw e (
            node_or_end-Places display {A = ℕ × List (json.Json × ℕ)} layout _ _ h λ r given.
              let (gap, _, later) = >>=-Gives _ _ given in
              let (pairs, p_ok, done) = >>=-Gives _ _ later in
              let is_row = is_name type "row" in
              let fills =
                split_extent-Fills fl json path (extent_of is_row bounds) gap children p_ok in
              subst
                (λ q. Places display (
                  split_children fl json display node is_row (field_path path "children") bounds q.0
                    0 (start_of is_row bounds) q.1 layout))
                (succeed-Gives (gap, pairs) done)
                (split-Places is_row (field_path path "children") bounds gap inside
                  (length children) pairs fills layout h))
      ]

  node_of_type-Places :
      (type : Text) (item : List (Text × json.Json)) (value : json.Json) (path : Text)
      (bounds : LayoutBounds) (layout : LayoutState fl.Double)
      → InsideBounds display bounds
      → AllPlaced display layout
      → Places display (node_of_type fl json display node type item value path bounds layout)
  unfolding node_of_type
  node_of_type-Places type item value path bounds layout inside h =
      elim (Bool-cases
        (not (is_name type "row" || is_name type "column" || is_name type "stack"))) [
          | inl e ↦ rw e (
              node_or_end-Places display layout _ _ h λ w given.
                add_widget-Places display path w layout h (
                  (parse_layout_widget-Placed fl json display value path (some bounds) (λ b same.
                      subst (InsideBounds display) (some-injective _ _ same) inside)).holds
                    w given))
          | inr e ↦ rw e (
              node_or_end-Places display layout _ _ h
                λ children _. parse_container-Places type item children path bounds layout inside h)
        ]

module _ (fl : Floating) (json : JsonLibrary fl.Double) (display : DisplayConfig) where
  enter_node-Places :
      (inside : List (Text × json.Json) → LayoutState fl.Double → NodeStep fl.Double)
      (value : json.Json) (path : Text) (bounds : LayoutBounds) (layout : LayoutState fl.Double)
      → AllPlaced display layout
      → ((item : List (Text × json.Json)) (counted : LayoutState fl.Double)
          → AllPlaced display counted
          → Places display (inside item counted))
      → Places display (enter_node fl json display inside value path bounds layout)
  unfolding enter_node
  enter_node-Places inside value path bounds layout h k =
      node_or_end-Places display layout _ _ h λ item _.
        node_or_end-Places display (record layout { nodes = layout.nodes + 1 }) _ _ h
          λ _ _. k item (record layout { nodes = layout.nodes + 1 }) h

  -- A tree of nodes in bounds that lie in the display adds only widgets that are placed in it, at
  -- every depth and also where it is refused.
  pub parse_layout_node-Places :
      (left : ℕ) → IsPlacing display (parse_layout_node fl json display left)
  unfolding parse_layout_node
  parse_layout_node-Places zero value path bounds layout inside h =
      enter_node-Places _ value path bounds layout h λ item counted h'. places h'
  parse_layout_node-Places (suc left) value path bounds layout inside h =
      enter_node-Places _ value path bounds layout h λ item counted h'.
        node_or_end-Places display counted _ _ h' λ type _.
          node_of_type-Places fl json display (parse_layout_node fl json display left)
            (parse_layout_node-Places left) type item value path bounds counted inside h'

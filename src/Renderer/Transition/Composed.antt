-- ===== src/Renderer/Transition/Composed.antt =====
-- The pixels of a composed frame (`compose_transition` of src/core/renderer.cpp).
use pixel_status_nx.Prelude.{
  ℕ, zero, suc, ◌+◌, ◌-◌, ◌≤◌, ◌<◌, ◌≡◌, refl, ◌∙◌, Bool, true, false, ◌&&◌, Option, some, arith,
  ltb, leb, ◌==◌, if◌then◌else◌,
}
use pixel_status_nx.Floating.{Floating}
use pixel_status_nx.Color.{Rgb, interpolate}
use pixel_status_nx.Config.{CardTransition, slide_left, slide_right, slide_up}
use pixel_status_nx.Frame.{Frame, pixel, set_pixel}
use pixel_status_nx.Frame.Pixels.{
  IsFrame, Resembles, Resembles-refl, Resembles-trans, Resembles-IsFrame, set_pixel-Resembles,
  pixel-set_pixel, inside, pixel-some,
}
use pixel_status_nx.Renderer.Transition.{
  paint_row, paint_rows, is_sideways, slide_source, fade_source, slide_offset, is_fade,
  transition_source, compose_transition,
}

-- A source gives each place of a frame a colour.
abbrev Covers : (ℕ → ℕ → Option Rgb) → Frame → Type 0
Covers source f = (x y : ℕ) → x < f.width → y < f.height → (c : Rgb) × (source x y ≡ some c)

Covers-kept :
    {source : ℕ → ℕ → Option Rgb} {f g : Frame} → Resembles f g → Covers source f → Covers source g
Covers-kept r c x y h t = c x y (omega (arith, h, r.same_width)) (omega (arith, t, r.same_height))

inside-kept : {f g : Frame} (i j : ℕ) → Resembles f g → inside f i j ≡ true → inside g i j ≡ true
inside-kept i j r h = rw (r.same_width, r.same_height) h

module _ (source : ℕ → ℕ → Option Rgb) (i j : ℕ) where
  painted_here :
      (x y : ℕ) (f : Frame) (color : Rgb) (r : Option Rgb)
      → IsFrame f
      → x < f.width
      → y < f.height
      → source x y ≡ some color
      → r ≡ (if (j == y) && leb (x + 1) i then source i j else pixel (set_pixel f x y color).0 i j)
      → r ≡ (if (j == y) && leb x i then source i j else pixel f i j)
  painted_here x y f color r v h t e now =
      now ∙ rw (pixel-set_pixel f x y color i j v (ground arith)) (grind arith)

  paint_row_painted :
      (n x y : ℕ) (f : Frame)
      → IsFrame f
      → x + n ≡ f.width
      → y < f.height
      → Covers source f
      → inside f i j ≡ true
      → (g : Frame) × (paint_row n x y source f ≡ some g)
        × Resembles f g
        × (pixel g i j ≡ (if (j == y) && leb x i then source i j else pixel f i j))
  unfolding paint_row
  paint_row_painted zero x y f v h t c p = (f, refl, Resembles-refl f, ground arith)
  paint_row_painted (suc n) x y f v h t c p =
      let here : x < f.width = omega (arith, h) in
      let (color, e) = c x y here t in
      let f' = (set_pixel f x y color).0 in
      let same = set_pixel-Resembles f x y color in
      let (g, painted, kept, now) =
        paint_row_painted n (x + 1) y f' (Resembles-IsFrame same v)
          (omega (arith, h, same.same_width)) (rw same.same_height t) (Covers-kept same c)
          (inside-kept i j same p) in
      (
        g,
        rw (e, paint_row) painted,
        Resembles-trans same kept,
        painted_here x y f color (pixel g i j) v here t e now,
      )

  paint_rows_painted :
      (n y : ℕ) (f : Frame)
      → IsFrame f
      → y + n ≡ f.height
      → Covers source f
      → inside f i j ≡ true
      → (g : Frame) × (paint_rows n y source f ≡ some g)
        × Resembles f g
        × (pixel g i j ≡ (if leb y j then source i j else pixel f i j))
  unfolding paint_rows
  paint_rows_painted zero y f v h c p = (f, refl, Resembles-refl f, ground arith)
  paint_rows_painted (suc n) y f v h c p =
      let (f', row, same, there) =
        paint_row_painted f.width 0 y f v (omega arith) (omega (arith, h)) c p in
      let (g, painted, kept, now) =
        paint_rows_painted n (y + 1) f' (Resembles-IsFrame same v)
          (omega (arith, h, same.same_height)) (Covers-kept same c) (inside-kept i j same p) in
      (g, rw (row, paint_rows) painted, Resembles-trans same kept, now ∙ rw there (ground arith))

branch_some :
    (b : Bool) {p q : Option Rgb}
    → (b ≡ true → (c : Rgb) × (p ≡ some c))
    → (b ≡ false → (c : Rgb) × (q ≡ some c))
    → (c : Rgb) × ((if b then p else q) ≡ some c)
branch_some true p q = p refl
branch_some false p q = q refl

-- Two frames that have the dimensions of the output.
record Pair (from to : Frame) (width height : ℕ) : Type 0 where
  from_frame : IsFrame from
  to_frame : IsFrame to
  from_width : from.width ≡ width
  from_height : from.height ≡ height
  to_width : to.width ≡ width
  to_height : to.height ≡ height

module _ (from to : Frame) (width height : ℕ) (v : Pair from to width height) where
  from_some : (x y : ℕ) → x < width → y < height → (c : Rgb) × (pixel from x y ≡ some c)
  from_some x y h t =
      pixel-some from x y v.from_frame (omega (arith, h, v.from_width))
        (omega (arith, t, v.from_height))

  to_some : (x y : ℕ) → x < width → y < height → (c : Rgb) × (pixel to x y ≡ some c)
  to_some x y h t =
      pixel-some to x y v.to_frame (omega (arith, h, v.to_width)) (omega (arith, t, v.to_height))

  slide_some :
      (transition : CardTransition) (offset x y : ℕ)
      → offset ≤ (if is_sideways transition then width else height)
      → x < width
      → y < height
      → (c : Rgb) × (slide_source transition from to width height offset x y ≡ some c)
  unfolding slide_source
  slide_some slide_left offset x y o h t =
      branch_some (ltb (x + offset) width) (λ e. from_some (x + offset) y (ground arith) t)
        (λ e. to_some (x + offset - width) y (ground arith) t)
  slide_some slide_right offset x y o h t =
      branch_some (leb offset x) (λ e. from_some (x - offset) y (omega arith) t)
        (λ e. to_some (width - offset + x) y (ground arith) t)
  slide_some slide_up offset x y o h t =
      branch_some (ltb (y + offset) height) (λ e. from_some x (y + offset) h (ground arith))
        (λ e. to_some x (y + offset - height) h (ground arith))
  slide_some _ offset x y o h t =
      branch_some (leb offset y) (λ e. from_some x (y - offset) h (omega arith))
        (λ e. to_some x (height - offset + y) h (ground arith))

  module _ (fl : Floating) (progress : fl.Double) where
    fade_some :
        (x y : ℕ)
        → x < width
        → y < height
        → (c : Rgb) × (fade_source fl from to progress x y ≡ some c)
    unfolding fade_source
    fade_some x y h t =
        let (a, p) = from_some x y h t in
        let (b, q) = to_some x y h t in (interpolate fl a b progress, rw (p, q, fade_source) refl)

    transition_some :
        (transition : CardTransition) (x y : ℕ)
        → x < width
        → y < height
        → (c : Rgb) × (transition_source fl from to transition progress width height x y ≡ some c)
    unfolding transition_source slide_offset
    transition_some transition x y h t =
        branch_some (is_fade fl transition) (λ e. fade_some x y h t)
          (λ e.
            slide_some transition (slide_offset fl transition width height progress) x y
              (omega arith) h t)

-- Two frames with the dimensions of the output are composed without a read outside of them; the
-- output keeps its dimensions, and each of its pixels is the one that the transition shows there.
pub compose_transition_composed :
    (fl : Floating) (from to : Frame) (transition : CardTransition) (progress : fl.Double)
    (output : Frame) (i j : ℕ)
    → IsFrame from
    → IsFrame to
    → IsFrame output
    → Resembles output from
    → Resembles output to
    → inside output i j ≡ true
    → (g : Frame) × (compose_transition fl from to transition progress output ≡ some g)
      × Resembles output g
      × (pixel g i j
          ≡ transition_source fl from to transition progress output.width output.height i j)
unfolding compose_transition
compose_transition_composed fl from to transition progress output i j v w u a b p =
    let frames : Pair from to output.width output.height = record {
      from_frame = v;
      to_frame = w;
      from_width = a.same_width;
      from_height = a.same_height;
      to_width = b.same_width;
      to_height = b.same_height;
    } in
    let shown = transition_source fl from to transition progress output.width output.height in
    let (g, painted, kept, now) =
      paint_rows_painted shown i j output.height 0 output u (omega arith)
        (transition_some from to output.width output.height frames fl progress transition) p in
    (g, painted, kept, now ∙ all_rows (shown i j) (pixel output i j))
  where
    all_rows : (a b : Option Rgb) → (if leb 0 j then a else b) ≡ a
    all_rows a b = ground arith

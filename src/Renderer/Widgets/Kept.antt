-- ===== src/Renderer/Widgets/Kept.antt =====
-- The drawing functions keep the dimensions of the frame, and succeed where the rectangle fits.
use pixel_status_nx.Prelude.{
  ℕ, ◌+◌, ◌≡◌, refl, true, List, [], ◌∷◌, Text, Bool-cases, Option-cases, inl, inr,
}
use pixel_status_nx.Color.{Rgb}
use pixel_status_nx.Config.{Palette, find_color}
use pixel_status_nx.Frame.{Frame, fill_rect, set_pixel}
use pixel_status_nx.Frame.Pixels.{
  Resembles, Resembles-refl, Resembles-trans, fill_rect-Resembles, set_pixel-Resembles, Fits,
  fill_rect-Fits,
}
use pixel_status_nx.Renderer.{Canvas}
use pixel_status_nx.Renderer.Widgets.{fill_or_fail, draw_row, draw_rows}

-- The same dimensions on both canvases.
abbrev pub Keeps : Canvas → Canvas → Type 0
Keeps c d = Resembles c.output d.output

module _ (c : Canvas) (x y width height : ℕ) (color : Rgb) (message : Text) where
  pub fill_or_fail-Keeps : Keeps c (fill_or_fail c x y width height color message).0
  unfolding fill_or_fail
  fill_or_fail-Keeps = elim (Bool-cases (fill_rect c.output x y width height color).1) [
    | inl e ↦ rw e (fill_rect-Resembles c.output x y width height color)
    | inr e ↦ rw e (fill_rect-Resembles c.output x y width height color)
  ]

  pub fill_or_fail-Fits :
      Fits c.output x y width height → (fill_or_fail c x y width height color message).1 ≡ true
  unfolding fill_or_fail
  fill_or_fail-Fits h = rw ((fill_rect-Fits c.output x y width height color).1 h) refl

pub draw_row-Resembles :
    (palette : Palette) (x y : ℕ) (row : Text) (f : Frame)
    → Resembles f (draw_row palette x y row f).0
unfolding draw_row
draw_row-Resembles palette x y [] f = Resembles-refl f
draw_row-Resembles palette x y (c ∷ rest) f = elim (Option-cases (find_color c palette)) [
  | inl e ↦ rw (e, draw_row) (Resembles-refl f)
  | inr (color, e) ↦ elim (Bool-cases (set_pixel f x y color).1) [
    | inl d ↦
        rw (e, d, draw_row)
          (Resembles-trans (set_pixel-Resembles f x y color)
            (draw_row-Resembles palette (x + 1) y rest (set_pixel f x y color).0))
    | inr d ↦ rw (e, d, draw_row) (set_pixel-Resembles f x y color)
  ]
]

pub draw_rows-Resembles :
    (palette : Palette) (x y : ℕ) (rows : List Text) (f : Frame)
    → Resembles f (draw_rows palette x y rows f).0
unfolding draw_rows
draw_rows-Resembles palette x y [] f = Resembles-refl f
draw_rows-Resembles palette x y (row ∷ rest) f =
    let first = draw_row-Resembles palette x y row f in
    elim (Bool-cases (draw_row palette x y row f).1) [
      | inl d ↦
          rw (d, draw_rows)
            (Resembles-trans first
              (draw_rows-Resembles palette x (y + 1) rest (draw_row palette x y row f).0))
      | inr d ↦ rw (d, draw_rows) first
    ]

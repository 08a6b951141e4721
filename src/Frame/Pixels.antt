-- ===== src/Frame/Pixels.antt =====
-- What the methods of `Frame` do to each pixel, and what they keep.
use pixel_status_nx.Prelude.{
  ℕ, ◌+◌, ◌*◌, ◌≤◌, ◌<◌, ◌≡◌, ◌∙◌, sym, refl, ◌↔◌, Bool, true, false, ◌&&◌, none, some, arith, ltb,
  leb, ◌==◌, if◌then◌else◌, length, get_elem?, length-set, length-map, length-replicate,
  get_elem?-set_self, get_elem?-set_ne, get_elem?-some,
}
use pixel_status_nx.Color.{Rgb}
use pixel_status_nx.Frame.{Frame, make_frame, fill, set_pixel, pixel, fill_rows, fill_rect}
use pixel_status_nx.Frame.Runs.{length-fill_rows, get-fill_rows_out, get-fill_rows_in}

-- The vector holds the pixels of all rows.
pub record IsFrame (f : Frame) : Type 0 where
  pub area : length f.pixels ≡ f.width * f.height

-- A frame of the dimensions of another one, whose pixels are in place.
pub record Resembles (f g : Frame) : Type 0 where
  pub same_width : g.width ≡ f.width
  pub same_height : g.height ≡ f.height
  pub same_length : length g.pixels ≡ length f.pixels

pub Resembles-refl : (f : Frame) → Resembles f f
Resembles-refl f = record { same_width = refl; same_height = refl; same_length = refl }

pub Resembles-trans : {f g h : Frame} → Resembles f g → Resembles g h → Resembles f h
Resembles-trans p q = omega arith

pub Resembles-IsFrame : {f g : Frame} → Resembles f g → IsFrame f → IsFrame g
Resembles-IsFrame {f} {g} r v = record {
  area = rw (r.same_width, r.same_height, r.same_length) v.area;
}

pub make_frame-IsFrame : (width height : ℕ) (c : Rgb) → IsFrame (make_frame width height c)
unfolding make_frame
make_frame-IsFrame width height c = record { area = length-replicate (width * height) c }

pub fill-Resembles : (f : Frame) (c : Rgb) → Resembles f (fill f c)
unfolding fill
fill-Resembles f c = record {
  same_width = refl;
  same_height = refl;
  same_length = length-map f.pixels (λ _. c);
}

pub set_pixel-Resembles : (f : Frame) (x y : ℕ) (c : Rgb) → Resembles f (set_pixel f x y c).0
unfolding set_pixel
set_pixel-Resembles f x y c = ground (arith, length-set f.pixels (y * f.width + x) c)

pub fill_rect-Resembles :
    (f : Frame) (x y width height : ℕ) (c : Rgb) → Resembles f (fill_rect f x y width height c).0
unfolding fill_rect
fill_rect-Resembles f x y width height c =
    ground (arith, length-fill_rows f.pixels f.width x y height width c)

-- A place in the frame has its pixel.
index-lt : (x y w h : ℕ) → x < w → y < h → y * w + x < w * h
index-lt x y w h p q = grind arith

rows_fit : (r w h : ℕ) → r ≤ h → r * w ≤ w * h
rows_fit r w h p = grind arith

index_inj : (i j x y w : ℕ) → i < w → x < w → j * w + i ≡ y * w + x → j ≡ y
index_inj i j x y w h k e = grind arith

-- Whether a rectangle holds a place.
abbrev pub in_rect : ℕ → ℕ → ℕ → ℕ → ℕ → ℕ → Bool
in_rect x y width height i j = leb x i && ltb i (x + width) && leb y j && ltb j (y + height)

-- When `fill_rect` accepts a rectangle.
abbrev pub Fits : Frame → ℕ → ℕ → ℕ → ℕ → Type 0
Fits f x y width height =
    (0 < width) × (0 < height) × (x + width ≤ f.width) × (y + height ≤ f.height)

abbrev pub inside : Frame → ℕ → ℕ → Bool
inside f i j = ltb i f.width && ltb j f.height

-- A rectangle is accepted exactly if it is not empty and lies in the frame.
pub fill_rect-Fits :
    (f : Frame) (x y width height : ℕ) (c : Rgb)
    → ((fill_rect f x y width height c).1 ≡ true) ↔ Fits f x y width height
unfolding fill_rect
fill_rect-Fits f x y width height c = ground arith

-- A rejected rectangle changes nothing.
pub fill_rect_rejected :
    (f : Frame) (x y width height : ℕ) (c : Rgb)
    → (fill_rect f x y width height c).1 ≡ false
    → (fill_rect f x y width height c).0 ≡ f
unfolding fill_rect
fill_rect_rejected f x y width height c h = ground arith

fill_rect-accepted :
    (f : Frame) (x y width height : ℕ) (c : Rgb)
    → Fits f x y width height
    → (fill_rect f x y width height c).0
      ≡ record f { pixels = fill_rows f.pixels f.width x y height width c }
unfolding fill_rect
fill_rect-accepted f x y width height c h = ground arith

pixel_inside :
    (f : Frame) (i j : ℕ)
    → i < f.width
    → j < f.height
    → pixel f i j ≡ get_elem? f.pixels (j * f.width + i)
unfolding pixel
pixel_inside f i j p q = ground arith

pub pixel_outside : (f : Frame) (i j : ℕ) → inside f i j ≡ false → pixel f i j ≡ none
unfolding pixel
pixel_outside f i j h = ground arith

module _ (f : Frame) (v : IsFrame f) (x y width height : ℕ) (c : Rgb)
    (fits : Fits f x y width height) (i j : ℕ) where
  -- In a well-formed frame, at each place inside it, an accepted rectangle gives its places the
  -- colour and leaves every other pixel as it was.
  pub pixel-fill_rect :
      inside f i j ≡ true
      → pixel (fill_rect f x y width height c).0 i j
        ≡ (if in_rect x y width height i j then some c else pixel f i j)
  pixel-fill_rect h = rw (fill_rect-accepted f x y width height c fits) (
      ground (
        arith,
        pixel_inside f i j,
        pixel_inside (record f { pixels = fill_rows f.pixels f.width x y height width c }) i j,
        get-fill_rows_out f.width x width c (fits.2) f.pixels y height i j,
        get-fill_rows_in f.width x width c (fits.2) f.pixels y height i j,
        room,
      ))
    where
      room : (y + height) * f.width ≤ length f.pixels
      room = omega (arith, v.area, rows_fit (y + height) f.width f.height fits.3)

-- In a well-formed frame, setting a pixel at a place inside it changes that pixel and no other.
pub pixel-set_pixel :
    (f : Frame) (x y : ℕ) (c : Rgb) (i j : ℕ)
    → IsFrame f
    → inside f x y ≡ true
    → pixel (set_pixel f x y c).0 i j ≡ (if (i == x) && (j == y) then some c else pixel f i j)
unfolding set_pixel pixel
pixel-set_pixel f x y c i j v h = ground (
  arith,
  v.area,
  index-lt x y f.width f.height,
  index_inj i j x y f.width,
  get_elem?-set_self f.pixels (y * f.width + x) c,
  get_elem?-set_ne f.pixels (y * f.width + x) (j * f.width + i) c,
)

-- A place in the frame has a pixel.
pub pixel-some :
    (f : Frame) (x y : ℕ)
    → IsFrame f
    → x < f.width
    → y < f.height
    → (c : Rgb) × (pixel f x y ≡ some c)
pixel-some f x y v p q =
    rw (pixel_inside f x y p q)
      (get_elem?-some f.pixels (y * f.width + x) (rw v.area (index-lt x y f.width f.height p q)))

pub make_frame-Resembles :
    (width height : ℕ) (c d : Rgb)
    → Resembles (make_frame width height c) (make_frame width height d)
unfolding make_frame
make_frame-Resembles width height c d = record {
  same_width = refl;
  same_height = refl;
  same_length = length-replicate (width * height) d ∙ sym (length-replicate (width * height) c);
}

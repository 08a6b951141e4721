-- ===== src/Mi/Layout.antt =====
-- The index of a pixel and the layout of a block (src/core/mi_protocol.cpp).
use pixel_status_nx.Prelude.{
  ℕ, zero, suc, ◌+◌, ◌*◌, ◌/◌, ◌%◌, ◌<◌, ◌≡◌, ◌↔◌, ◌∙◌, refl, ap, some, List, [], ◌∷◌, ◌++◌, arith,
  length, get_elem?,
}
use pixel_status_nx.Color.{Rgb}
use pixel_status_nx.Mi.{
  xy_to_index, color_bytes, build_block_packet, matrix_width, matrix_height, block_count,
  pixels_per_block,
}

-- A place has an index exactly if it lies in the matrix; the index is below 256, and the place is
-- its remainder and quotient by the width.
pub xy_to_index-some :
    (x y i : ℕ)
    → (xy_to_index x y ≡ some i)
      ↔ ((i < matrix_width * matrix_height) × (x ≡ i % matrix_width) × (y ≡ i / matrix_width))
unfolding xy_to_index
xy_to_index-some x y i = ground arith

length-color_bytes : (pixels : List Rgb) → length (color_bytes pixels) ≡ 3 * length pixels
unfolding color_bytes
length-color_bytes [] = refl
length-color_bytes (c ∷ rest) = omega (arith, length-color_bytes rest)

-- Three bytes of a list, from a position.
abbrev pub Holds : List ℕ → ℕ → Rgb → Type 0
Holds bytes at c =
    (get_elem? bytes at ≡ some c.r)
    × (get_elem? bytes (at + 1) ≡ some c.g)
    × (get_elem? bytes (at + 2) ≡ some c.b)

get-third :
    (a b c : ℕ) (xs : List ℕ) (i j : ℕ) → i ≡ j + 3 → get_elem? (a ∷ b ∷ c ∷ xs) i ≡ get_elem? xs j
get-third a b c xs zero j e = ground arith
get-third a b c xs (suc zero) j e = ground arith
get-third a b c xs (suc (suc zero)) j e = ground arith
get-third a b c xs (suc (suc (suc i))) j e = ap (get_elem? xs) (omega (arith, e))

Holds-third :
    (a b d : ℕ) (xs : List ℕ) (i j : ℕ) (c : Rgb)
    → i ≡ j + 3
    → Holds xs j c
    → Holds (a ∷ b ∷ d ∷ xs) i c
Holds-third a b d xs i j c e h = (
  get-third a b d xs i j e ∙ h.0,
  get-third a b d xs (i + 1) (j + 1) (omega (arith, e)) ∙ h.1,
  get-third a b d xs (i + 2) (j + 2) (omega (arith, e)) ∙ h.2,
)

Holds-color_bytes :
    (pixels : List Rgb) (behind : List ℕ) (k : ℕ) (c : Rgb)
    → get_elem? pixels k ≡ some c
    → Holds (color_bytes pixels ++ behind) (3 * k) c
unfolding color_bytes
Holds-color_bytes [] behind k c h = cc h
Holds-color_bytes (d ∷ rest) behind zero c h = (cc h, cc h, cc h)
Holds-color_bytes (d ∷ rest) behind (suc k) c h =
    Holds-third d.r d.g d.b (color_bytes rest ++ behind) (3 * suc k) (3 * k) c (omega arith)
      (Holds-color_bytes rest behind k c h)

length-append : (xs ys : List ℕ) → length (xs ++ ys) ≡ length xs + length ys
length-append [] ys = omega arith
length-append (x ∷ xs) ys = omega (arith, length-append xs ys)

get-behind : (xs : List ℕ) (v i : ℕ) → i ≡ length xs → get_elem? (xs ++ v ∷ []) i ≡ some v
get-behind [] v i e = rw e refl
get-behind (x ∷ xs) v zero e = ground arith
get-behind (x ∷ xs) v (suc i) e = get-behind xs v i (omega (arith, e))

-- A block below eight with thirty-two pixels is packed in a hundred bytes: the header, the number
-- of the block from one, the three bytes of each pixel in order, and the trailer.
pub build_block_packet-layout :
    (block : ℕ) (pixels : List Rgb) (k : ℕ) (c : Rgb)
    → block < block_count
    → length pixels ≡ pixels_per_block
    → get_elem? pixels k ≡ some c
    → (packet : List ℕ) × (build_block_packet block pixels ≡ some packet)
      × (length packet ≡ 100)
      × (get_elem? packet 0 ≡ some 0xBC)
      × (get_elem? packet 1 ≡ some 0x0F)
      × (get_elem? packet 2 ≡ some (block + 1))
      × Holds packet (3 + 3 * k) c
      × (get_elem? packet 99 ≡ some 0x55)
unfolding build_block_packet
build_block_packet-layout block pixels k c b l h =
    let bytes = color_bytes pixels in
    let size = length-color_bytes pixels in
    (
      0xBC ∷ 0x0F ∷ (block + 1) % 256 ∷ (bytes ++ 0x55 ∷ []),
      ground arith,
      omega (arith, length-append bytes (0x55 ∷ []), size, l),
      refl,
      refl,
      ap some (omega arith),
      Holds-third 0xBC 0x0F ((block + 1) % 256) (bytes ++ 0x55 ∷ []) (3 + 3 * k) (3 * k) c
          (omega arith) (Holds-color_bytes pixels (0x55 ∷ []) k c h),
      get-behind bytes 0x55 96 (omega (arith, size, l)),
    )

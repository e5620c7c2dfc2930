-- ===== src/Screen.antt =====
-- The colours, the bitmap modes and the read ranges of server/msx_screenshot.py.
pub mod Colours
pub mod Ranges
pub mod Capture
mod Tests
use msx_ai.Base.Bytes.{byte_at}
use msx_ai.Base.{
  ℕ, zero, suc, ◌+◌, ◌-◌, ◌*◌, ◌/◌, ◌%◌, min, Bool, true, false, not, ◌&&◌, ◌||◌, Option, none,
  some, List, [], ◌∷◌, ◌++◌, length, take, drop, leb, ltb, ◌==◌, if◌then◌else◌, bit_and,
}

-- A colour of a palette or a pixel.
pub record Rgb : Type 0 where
  pub red : ℕ
  pub green : ℕ
  pub blue : ℕ

unfoldable pub scale : ℕ → ℕ → ℕ
scale value maximum = value * 255 / maximum

-- One entry of `decode_palette`, from its two bytes.
unfoldable pub palette_entry : ℕ → ℕ → Rgb
palette_entry rb g = record {
  red = scale (rb / 16 % 8) 7;
  green = scale (g % 8) 7;
  blue = scale (rb % 8) 7;
}

unfoldable pub palette_entries : List ℕ → List Rgb
palette_entries (rb ∷ g ∷ rest) = palette_entry rb g ∷ palette_entries rest
palette_entries _ = []

-- `decode_palette`; the ValueError is `none`.
unfoldable pub decode_palette : List ℕ → Option (List Rgb)
decode_palette raw = if length raw == 32 then some (palette_entries raw) else none

-- `_rgb332`.
unfoldable pub rgb332 : ℕ → Rgb
rgb332 value = record {
  red = scale (value / 4 % 8) 7;
  green = scale (value / 32 % 8) 7;
  blue = scale (value % 4) 3;
}

-- A signed number, as the difference of two that are not.
pub record Difference : Type 0 where
  pub plus : ℕ
  pub minus : ℕ

-- `_clamp5`.
unfoldable pub clamp5 : Difference → ℕ
clamp5 d = min 31 (d.plus - d.minus)

-- `_trunc_div`.
unfoldable pub trunc_div : Difference → ℕ → Difference
trunc_div d divisor =
    if leb d.minus d.plus
    then record { plus = (d.plus - d.minus) / divisor; minus = 0 }
    else record { plus = 0; minus = (d.minus - d.plus) / divisor }

-- `_yjk_rgb`.
unfoldable pub yjk_rgb : ℕ → Difference → Difference → Rgb
yjk_rgb y j k = record {
  red = scale (clamp5 (record { plus = y + j.plus; minus = j.minus })) 31;
  green = scale (clamp5 (record { plus = y + k.plus; minus = k.minus })) 31;
  blue =
      scale
        (clamp5 (
          trunc_div
            (record { plus = 5 * y + 2 * j.minus + k.minus + 2; minus = 2 * j.plus + k.plus }) 4))
        31;
}

-- J or K, from the low bits of two neighbours.
unfoldable pub chroma : ℕ → ℕ → Difference
chroma low high = record { plus = low % 8 + high % 4 * 8; minus = high / 4 % 2 * 32 }

-- `palette[i]`; the palettes have sixteen entries, and an index past the end raises IndexError.
unfoldable pub colour_at : List Rgb → ℕ → Option Rgb
colour_at [] i = none
colour_at (c ∷ palette) zero = some c
colour_at (c ∷ palette) (suc i) = colour_at palette i

-- A pixel of `_decode_yjk_group`.
unfoldable pub yjk_pixel : List Rgb → Bool → Difference → Difference → ℕ → Option Rgb
yjk_pixel palette yae j k value =
    if yae && not (bit_and value 8 == 0)
    then colour_at palette (value / 16)
    else some (yjk_rgb (value / 8) j k)

unfoldable pub prepend : Option Rgb → Option (List Rgb) → Option (List Rgb)
prepend (some c) (some cs) = some (c ∷ cs)
prepend (some c) none = none
prepend none cs = none

-- `_decode_yjk_group`.
unfoldable pub decode_yjk_group : (p0 p1 p2 p3 : ℕ) → List Rgb → Bool → Option (List Rgb)
decode_yjk_group p0 p1 p2 p3 palette yae =
    let pixel = yjk_pixel palette yae (chroma p2 p3) (chroma p0 p1) in
    prepend (pixel p0) (prepend (pixel p1) (prepend (pixel p2) (prepend (pixel p3) (some []))))

-- `_ranges`, on what `sorted` returns: runs of neighbours, each with its first address and its size.
unfoldable pub ranges_from : (start previous : ℕ) → List ℕ → List (ℕ × ℕ)
ranges_from start previous [] = (start, previous - start + 1) ∷ []
ranges_from start previous (address ∷ rest) = elim (address == previous + 1) [
  | true ↦ ranges_from start address rest
  | false ↦ (start, previous - start + 1) ∷ ranges_from address address rest
]

unfoldable pub ranges : List ℕ → List (ℕ × ℕ)
ranges [] = []
ranges (first ∷ rest) = ranges_from first first rest

-- `vram[base:base + size] = data`, for data of this size inside the memory.
unfoldable pub put_bytes : (base size : ℕ) → List ℕ → (ℕ → ℕ) → ℕ → ℕ
put_bytes base size data_in vram address =
    if leb base address && ltb address (base + size)
    then byte_at data_in (address - base)
    else vram address

-- The loop of `_capture_vram`. The reader is a read of the machine.
unfoldable pub capture_ranges : (ℕ → ℕ → List ℕ) → List (ℕ × ℕ) → (ℕ → ℕ) → ℕ → ℕ
capture_ranges reader [] vram = vram
capture_ranges reader (r ∷ rs) vram =
    capture_ranges reader rs (put_bytes r.0 r.1 (reader r.0 r.1) vram)

abbrev pub zeroes : ℕ → ℕ
zeroes address = 0

unfoldable pub capture_vram : (ℕ → ℕ → List ℕ) → List ℕ → ℕ → ℕ
capture_vram reader ordered = capture_ranges reader (ranges ordered) zeroes

-- ===== src/Screen/Colours.antt =====
-- The components of the colours of server/msx_screenshot.py.
use msx_ai.Base.{
  ℕ, zero, suc, ◌*◌, ◌/◌, ◌<◌, ◌≡◌, refl, ap, Bool, Bool-cases, not, ◌&&◌, some, List, [], ◌∷◌,
  length, All, ◌==◌, bit_and, inl, inr, arith,
}
use msx_ai.Base.Bytes.{IsByte}
use msx_ai.Screen.{
  Rgb, scale, palette_entry, palette_entries, decode_palette, Difference, clamp5, yjk_rgb, chroma,
  colour_at, yjk_pixel, prepend, decode_yjk_group,
}

pub record IsColour (c : Rgb) : Type 0 where
  pub red_fits : c.red < 256
  pub green_fits : c.green < 256
  pub blue_fits : c.blue < 256

palette_entry-IsColour : (rb g : ℕ) → IsColour (palette_entry rb g)
unfolding palette_entry scale
palette_entry-IsColour rb g = record {
  red_fits = omega arith;
  green_fits = omega arith;
  blue_fits = omega arith;
}

palette_entries-IsColour :
    (n : ℕ) (raw : List ℕ)
    → length raw ≡ 2 * n
    → (length (palette_entries raw) ≡ n) × All IsColour (palette_entries raw)
unfolding palette_entries
palette_entries-IsColour zero [] h = (refl, tt)
palette_entries-IsColour zero (rb ∷ rest) h = absurd (omega arith)
palette_entries-IsColour (suc n) [] h = absurd (omega arith)
palette_entries-IsColour (suc n) (rb ∷ []) h = absurd (omega arith)
palette_entries-IsColour (suc n) (rb ∷ g ∷ rest) h =
    let (count, fit) = palette_entries-IsColour n rest (omega (arith, h)) in
    (ap suc count, (palette_entry-IsColour rb g, fit))

-- A dump of 32 bytes is decoded to sixteen colours.
decode_palette_total :
    (raw : List ℕ)
    → length raw ≡ 32
    → (palette : List Rgb) × (decode_palette raw ≡ some palette)
      × (length palette ≡ 16)
      × All IsColour palette
unfolding decode_palette
decode_palette_total raw h =
    let (count, fit) = palette_entries-IsColour 16 raw h in
    (palette_entries raw, ground (arith, h), count, fit)

yjk_rgb-IsColour : (y : ℕ) (j k : Difference) → IsColour (yjk_rgb y j k)
unfolding yjk_rgb clamp5 scale
yjk_rgb-IsColour y j k = record {
  red_fits = omega arith;
  green_fits = omega arith;
  blue_fits = omega arith;
}

colour_at_total :
    (palette : List Rgb) (i : ℕ)
    → All IsColour palette
    → i < length palette
    → (c : Rgb) × (colour_at palette i ≡ some c) × IsColour c
unfolding colour_at
colour_at_total [] i h lt = absurd (omega arith)
colour_at_total (c ∷ palette) zero h lt = (c, refl, h.0)
colour_at_total (c ∷ palette) (suc i) h lt = colour_at_total palette i h.1 (omega arith)

module _ (palette : List Rgb) (yae : Bool) (j k : Difference) (size : length palette ≡ 16)
    (fit : All IsColour palette) where
  yjk_pixel_total :
      (value : ℕ)
      → IsByte value
      → (c : Rgb) × (yjk_pixel palette yae j k value ≡ some c) × IsColour c
  unfolding yjk_pixel
  yjk_pixel_total value h = elim (Bool-cases (yae && not (bit_and value 8 == 0))) [
    | inl e ↦
        let (c, found, is_colour) =
          colour_at_total palette (value / 16) fit (omega (arith, h, size)) in
        (c, rw e found, is_colour)
    | inr e ↦ (yjk_rgb (value / 8) j k, rw e refl, yjk_rgb-IsColour (value / 8) j k)
  ]

-- Four bytes of SCREEN 10, 11 or 12, with or without the attribute bit, are decoded to four colours
-- for any palette of sixteen colours: each lookup lies within the palette, and each component of a
-- pixel fits a byte, though J and K are signed.
pub decode_yjk_group_total :
    (p0 p1 p2 p3 : ℕ) (palette : List Rgb) (yae : Bool)
    → All IsByte (p0 ∷ p1 ∷ p2 ∷ p3 ∷ [])
    → length palette ≡ 16
    → All IsColour palette
    → (line : List Rgb) × (decode_yjk_group p0 p1 p2 p3 palette yae ≡ some line)
      × (length line ≡ 4)
      × All IsColour line
unfolding decode_yjk_group prepend
decode_yjk_group_total p0 p1 p2 p3 palette yae (h0, (h1, (h2, (h3, _)))) size fit =
    let pixel = yjk_pixel_total palette yae (chroma p2 p3) (chroma p0 p1) size fit in
    let (c0, e0, f0) = pixel p0 h0 in
    let (c1, e1, f1) = pixel p1 h1 in
    let (c2, e2, f2) = pixel p2 h2 in
    let (c3, e3, f3) = pixel p3 h3 in
    (c0 ∷ c1 ∷ c2 ∷ c3 ∷ [], rw (e0, e1, e2, e3) refl, refl, (f0, (f1, (f2, (f3, tt)))))

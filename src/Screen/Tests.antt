-- ===== src/Screen/Tests.antt =====
-- Some addresses and colours, and the theorems on them.
use msx_ai.Base.{
  ℕ, zero, suc, ◌+◌, ◌≡◌, refl, true, some, List, [], ◌∷◌, length, All, replicate, if◌then◌else◌,
  arith,
}
use msx_ai.Screen.{Rgb, ranges, ranges_from, capture_vram, decode_yjk_group}
use msx_ai.Screen.Colours.{IsColour, decode_yjk_group_total}
use msx_ai.Screen.Ranges.{span, spans, Separated, Increasing, spans-ranges}
use msx_ai.Screen.Capture.{values, ReadsCells, member, capture_vram-exact}

abbrev wanted : List ℕ
wanted = 3 ∷ 4 ∷ 5 ∷ 9 ∷ 11 ∷ 12 ∷ []

wanted-Increasing : Increasing 0 wanted
wanted-Increasing =
    (omega arith, (omega arith, (omega arith, (omega arith, (omega arith, (omega arith, tt))))))

gaps : ranges wanted ≡ (3, 3) ∷ (9, 1) ∷ (11, 2) ∷ []
unfolding ranges ranges_from
gaps = refl

spans-ranges_example : (spans (ranges wanted) ≡ wanted) × Separated 0 (ranges wanted)
spans-ranges_example = spans-ranges wanted wanted-Increasing

-- A machine that holds twice its address in each cell.
abbrev machine : ℕ → ℕ
machine a = a + a

abbrev reader : ℕ → ℕ → List ℕ
reader base size = values machine (span base size)

reader-ReadsCells : ReadsCells reader machine
reader-ReadsCells base size = refl

capture_vram-exact_example :
    capture_vram reader wanted 9 ≡ (if member 9 wanted then machine 9 else 0)
capture_vram-exact_example =
    capture_vram-exact reader machine wanted 9 reader-ReadsCells wanted-Increasing

abbrev white : Rgb
white = record { red = 255; green = 255; blue = 255 }

abbrev whites : List Rgb
whites = replicate 16 white

white-IsColour : IsColour white
white-IsColour = record {
  red_fits = omega arith;
  green_fits = omega arith;
  blue_fits = omega arith;
}

whites-IsColour : (n : ℕ) → All IsColour (replicate n white)
whites-IsColour zero = tt
whites-IsColour (suc n) = (white-IsColour, whites-IsColour n)

abbrev group : List ℕ
group = 0x0f ∷ 0xff ∷ 0x84 ∷ 0x07 ∷ []

decode_yjk_group_total_example :
    (line : List Rgb) × (decode_yjk_group 0x0f 0xff 0x84 0x07 whites true ≡ some line)
    × (length line ≡ 4)
    × All IsColour line
decode_yjk_group_total_example =
    decode_yjk_group_total 0x0f 0xff 0x84 0x07 whites true
      (omega arith, (omega arith, (omega arith, (omega arith, tt)))) refl (whites-IsColour 16)

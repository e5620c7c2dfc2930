-- ===== src/Protocol/Crc/Detect.antt =====
-- What the checksum of server/msx_protocol.py detects: a change of one byte, anywhere.
use msx_ai.Base.{
  ℕ, zero, suc, ◌+◌, ◌*◌, ◌/◌, ◌%◌, ◌<◌, ◌≡◌, ◌≢◌, refl, sym, ap, ◌∙◌, List, [], ◌∷◌, ◌++◌, All,
  ◌==◌, ==→eq, if◌then◌else◌, bit_xor, true, arith,
}
use msx_ai.Base.Bits.{
  tests_below, tests_below_sound, bit_xor-injective_left, bit_xor-injective_right, bit_xor-lt,
}
use msx_ai.Base.Bytes.{IsByte}
use msx_ai.Protocol.Crc.{
  crc_round, crc_rounds, crc_byte, crc_bytes, crc16, crc_round-lt, crc_byte-lt, crc_bytes-lt,
  crc_bytes-append,
}

-- One round backwards: the lowest bit tells whether the polynomial was applied.
unround : ℕ → ℕ
unround r = if r % 2 == 0 then r / 2 else bit_xor r 0x1021 / 2 + 32768

unround_table : tests_below (λ c. unround (crc_round c) == c) 65536 ≡ true
unfolding tests_below unround crc_round
unround_table = refl

unround-crc_round : (c : ℕ) → c < 65536 → unround (crc_round c) ≡ c
unround-crc_round c h = ==→eq _ c (tests_below_sound _ 65536 unround_table c h)

crc_round-injective : (a b : ℕ) → a < 65536 → b < 65536 → crc_round a ≡ crc_round b → a ≡ b
crc_round-injective a b ha hb e =
    sym (unround-crc_round a ha) ∙ ap unround e ∙ unround-crc_round b hb

crc_rounds-injective : (n a b : ℕ) → a < 65536 → b < 65536 → crc_rounds n a ≡ crc_rounds n b → a ≡ b
unfolding crc_rounds
crc_rounds-injective zero a b ha hb e = e
crc_rounds-injective (suc n) a b ha hb e =
    crc_round-injective a b ha hb
      (crc_rounds-injective n (crc_round a) (crc_round b) (crc_round-lt a) (crc_round-lt b) e)

-- The step is injective in the checksum so far, and in the byte.
crc_byte-injective_crc :
    (a b byte : ℕ) → a < 65536 → b < 65536 → byte < 256 → crc_byte a byte ≡ crc_byte b byte → a ≡ b
unfolding crc_byte
crc_byte-injective_crc a b byte ha hb h e = bit_xor-injective_left 16 a b (byte * 256) ha hb (
    crc_rounds-injective 8 _ _ (bit_xor-lt 16 a (byte * 256) ha (omega arith))
      (bit_xor-lt 16 b (byte * 256) hb (omega arith)) e)

crc_byte-injective_byte :
    (crc a b : ℕ) → crc < 65536 → a < 256 → b < 256 → crc_byte crc a ≡ crc_byte crc b → a ≡ b
unfolding crc_byte
crc_byte-injective_byte crc a b h ha hb e = omega (
  arith,
  bit_xor-injective_right 16 (a * 256) (b * 256) crc (omega arith) (omega arith) (
      crc_rounds-injective 8 _ _ (bit_xor-lt 16 crc (a * 256) h (omega arith))
        (bit_xor-lt 16 crc (b * 256) h (omega arith)) e),
)

crc_bytes-injective :
    (a b : ℕ) (xs : List ℕ)
    → a < 65536
    → b < 65536
    → All IsByte xs
    → crc_bytes a xs ≡ crc_bytes b xs
    → a ≡ b
unfolding crc_bytes
crc_bytes-injective a b [] ha hb h e = e
crc_bytes-injective a b (x ∷ xs) ha hb h e =
    crc_byte-injective_crc a b x ha hb h.0 (
      crc_bytes-injective (crc_byte a x) (crc_byte b x) xs (crc_byte-lt a x) (crc_byte-lt b x) h.1
        e)

crc_bytes-cons : (crc x : ℕ) (xs : List ℕ) → crc_bytes crc (x ∷ xs) ≡ crc_bytes (crc_byte crc x) xs
unfolding crc_bytes
crc_bytes-cons crc x xs = refl

-- Two byte strings that differ in exactly one byte have different checksums.
pub crc16_one_byte :
    (front back : List ℕ) (x y : ℕ)
    → x < 256
    → y < 256
    → x ≢ y
    → All IsByte back
    → crc16 (front ++ x ∷ back) ≢ crc16 (front ++ y ∷ back)
unfolding crc16
crc16_one_byte front back x y hx hy ne h e = ne (
    crc_byte-injective_byte start x y below hx hy (
      crc_bytes-injective (crc_byte start x) (crc_byte start y) back (crc_byte-lt start x)
        (crc_byte-lt start y) h (sym (split x) ∙ e ∙ split y)))
  where
    start : ℕ
    start = crc_bytes 0xffff front

    below : start < 65536
    below = crc_bytes-lt 0xffff front (omega arith)

    split : (z : ℕ) → crc_bytes 0xffff (front ++ z ∷ back) ≡ crc_bytes (crc_byte start z) back
    split z = crc_bytes-append 0xffff front (z ∷ back) ∙ crc_bytes-cons start z back

-- ===== src/Base/Bits.antt =====
-- Bit operations at variables: the laws that the checksums and flags need.
use Prim.Native.Nat.{
  ℕ, zero, suc, ◌+◌, ◌*◌, ◌/◌, ◌%◌, ◌^◌, ◌≤◌, ◌<◌, bit_xor, digits, differ, bit_xor-bitwise,
}
use native.Mathlib.Nat.{pow-suc}
use mathlib.Core.Path.{◌≡◌, refl, ap, ◌∙◌}
use mathlib.Core.Bool.{Bool, true, ◌&&◌}
use native.Mathlib.Decide.{dec_lt}
use native.Mathlib.Omega.{arith}

-- A test of each value below a bound, made by evaluation.
unfoldable pub tests_below : (ℕ → Bool) → ℕ → Bool
tests_below test zero = true
tests_below test (suc bound) = tests_below test bound && test bound

pub tests_below_sound :
    (test : ℕ → Bool) (bound : ℕ)
    → tests_below test bound ≡ true
    → (value : ℕ) → value < bound
    → test value ≡ true
unfolding tests_below
tests_below_sound test zero e value below = absurd (omega arith)
tests_below_sound test (suc bound) e value below =
    ground (arith, tests_below_sound test bound _ value)

-- The digits of an exclusive or, computed with `n` rounds.
abbrev xor_rounds : ℕ → ℕ → ℕ → ℕ
xor_rounds = digits (λ y. y) differ

xor_rounds_one_more : (n a b : ℕ) → a ≤ n → xor_rounds (suc n) a b ≡ xor_rounds n a b
xor_rounds_one_more zero zero b h = refl
xor_rounds_one_more zero (suc a) b h = absurd (omega arith)
xor_rounds_one_more (suc n) zero b h = refl
xor_rounds_one_more (suc n) (suc a) b h =
    ap (λ high. high * 2 + differ (suc a % 2) (b % 2))
      (xor_rounds_one_more n (suc a / 2) (b / 2) (omega arith))

-- Rounds beyond the size of the first number change nothing.
xor_rounds_enough : (n m a b : ℕ) → a ≤ m → m ≤ n → xor_rounds n a b ≡ xor_rounds m a b
xor_rounds_enough zero m a b h l = let e : m ≡ 0 = omega arith in rw e refl
xor_rounds_enough (suc n) m a b h l = elim (dec_lt n m) [
  | yes past ↦ let e : m ≡ suc n = omega arith in rw e refl
  | no within ↦ xor_rounds_one_more n a b (omega arith) ∙ xor_rounds_enough n m a b h (omega arith)
]

-- Two digits that differ, as a sum.
differ_bits : (x y : ℕ) → x < 2 → y < 2 → differ x y ≡ (x + y) % 2
differ_bits zero y p q = omega arith
differ_bits (suc zero) zero p q = omega arith
differ_bits (suc zero) (suc zero) p q = omega arith
differ_bits (suc zero) (suc (suc y)) p q = absurd (omega arith)
differ_bits (suc (suc x)) y p q = absurd (omega arith)

-- The lowest digit of an exclusive or, and the rest.
pub bit_xor_step : (a b : ℕ) → bit_xor a b ≡ bit_xor (a / 2) (b / 2) * 2 + (a % 2 + b % 2) % 2
bit_xor_step zero b = simp bit_xor-bitwise (omega (arith, differ_bits 0 (b % 2)))
bit_xor_step (suc a) b =
    let enough = xor_rounds_enough a (suc a / 2) (suc a / 2) (b / 2) (omega arith) (omega arith) in
    let lowest = differ_bits (suc a % 2) (b % 2) (omega arith) (omega arith) in
    simp bit_xor-bitwise (omega (arith, enough, lowest))

-- Exclusive or with a fixed number is injective, on numbers of at most `k` binary digits.
pub bit_xor-injective_left :
    (k a b c : ℕ) → a < 2 ^ k → b < 2 ^ k → bit_xor a c ≡ bit_xor b c → a ≡ b
bit_xor-injective_left zero a b c ha hb e = omega arith
bit_xor-injective_left (suc k) a b c ha hb e = omega (
  arith,
  pow-suc 2 k,
  bit_xor_step a c,
  bit_xor_step b c,
  bit_xor-injective_left k (a / 2) (b / 2) (c / 2) (omega (arith, pow-suc 2 k))
      (omega (arith, pow-suc 2 k)) (omega (arith, bit_xor_step a c, bit_xor_step b c)),
)

pub bit_xor-injective_right :
    (k a b c : ℕ) → a < 2 ^ k → b < 2 ^ k → bit_xor c a ≡ bit_xor c b → a ≡ b
bit_xor-injective_right zero a b c ha hb e = omega arith
bit_xor-injective_right (suc k) a b c ha hb e = omega (
  arith,
  pow-suc 2 k,
  bit_xor_step c a,
  bit_xor_step c b,
  bit_xor-injective_right k (a / 2) (b / 2) (c / 2) (omega (arith, pow-suc 2 k))
      (omega (arith, pow-suc 2 k)) (omega (arith, bit_xor_step c a, bit_xor_step c b)),
)

pub bit_xor-lt : (k a b : ℕ) → a < 2 ^ k → b < 2 ^ k → bit_xor a b < 2 ^ k
bit_xor-lt zero a b ha hb =
    let e : a ≡ 0 = omega arith in let e' : b ≡ 0 = omega arith in rw (e, e') (omega arith)
bit_xor-lt (suc k) a b ha hb = omega (
  arith,
  pow-suc 2 k,
  bit_xor_step a b,
  bit_xor-lt k (a / 2) (b / 2) (omega (arith, pow-suc 2 k)) (omega (arith, pow-suc 2 k)),
)

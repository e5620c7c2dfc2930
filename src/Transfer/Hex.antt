-- ===== src/Transfer/Hex.antt =====
-- Hexadecimal text in the journal of server/msx_transfer.py: `bytes.hex`, `bytes.fromhex` of digits in
-- lower case, the format `08x`, and `int(value, 16)`. A text is the list of its code points.
use msx_ai.Base.{
  ℕ, zero, suc, ◌+◌, ◌-◌, ◌*◌, ◌/◌, ◌%◌, ◌<◌, ◌≡◌, refl, ap, ◌∙◌, Bool, true, ◌&&◌, ◌||◌, List, [],
  ◌∷◌, ◌++◌, length, length-append, All, leb, ltb, if◌then◌else◌, arith,
}
use msx_ai.Base.Bytes.{IsByte}

-- The digit of a number below 16, and back.
unfoldable pub hex_digit : ℕ → ℕ
hex_digit d = if ltb d 10 then 48 + d else 87 + d

unfoldable pub digit_value : ℕ → ℕ
digit_value c = if leb c 57 then c - 48 else c - 87

-- `character in "0123456789abcdef"`.
unfoldable pub is_hex_digit : ℕ → Bool
is_hex_digit c = (leb 48 c && leb c 57) || (leb 97 c && leb c 102)

unfoldable pub all_hex : List ℕ → Bool
all_hex [] = true
all_hex (c ∷ cs) = is_hex_digit c && all_hex cs

-- `value.hex()`, and `bytes.fromhex(text)` on an even number of digits.
unfoldable pub hex : List ℕ → List ℕ
hex [] = []
hex (b ∷ bs) = hex_digit (b / 16) ∷ hex_digit (b % 16) ∷ hex bs

unfoldable pub from_hex : List ℕ → List ℕ
from_hex (h ∷ l ∷ cs) = (16 * digit_value h + digit_value l) ∷ from_hex cs
from_hex _ = []

-- The last so many digits of a number, and the number of a text of digits.
unfoldable pub hex_digits : ℕ → ℕ → List ℕ
hex_digits zero n = []
hex_digits (suc k) n = hex_digits k (n / 16) ++ hex_digit (n % 16) ∷ []

unfoldable pub hex_number_from : ℕ → List ℕ → ℕ
hex_number_from n [] = n
hex_number_from n (c ∷ cs) = hex_number_from (16 * n + digit_value c) cs

unfoldable pub hex_number : List ℕ → ℕ
hex_number cs = hex_number_from 0 cs

digit_value-hex_digit : (d : ℕ) → d < 16 → digit_value (hex_digit d) ≡ d
unfolding digit_value hex_digit
digit_value-hex_digit d h = ground arith

is_hex_digit-hex_digit : (d : ℕ) → d < 16 → is_hex_digit (hex_digit d) ≡ true
unfolding is_hex_digit hex_digit
is_hex_digit-hex_digit d h = ground arith

pub from_hex-hex : (bs : List ℕ) → All IsByte bs → from_hex (hex bs) ≡ bs
unfolding from_hex hex
from_hex-hex [] h = refl
from_hex-hex (b ∷ bs) (byte, rest) =
    let high = digit_value-hex_digit (b / 16) (omega (arith, byte)) in
    let low = digit_value-hex_digit (b % 16) (omega arith) in
    let same : 16 * digit_value (hex_digit (b / 16)) + digit_value (hex_digit (b % 16)) ≡ b =
      omega (arith, high, low) in
    rw same (ap (λ l. b ∷ l) (from_hex-hex bs rest))

pub length-hex : (bs : List ℕ) → length (hex bs) ≡ 2 * length bs
unfolding hex
length-hex [] = refl
length-hex (b ∷ bs) = omega (arith, length-hex bs)

pub all_hex-hex : (bs : List ℕ) → All IsByte bs → all_hex (hex bs) ≡ true
unfolding all_hex hex
all_hex-hex [] h = refl
all_hex-hex (b ∷ bs) (byte, rest) =
    let high = is_hex_digit-hex_digit (b / 16) (omega (arith, byte)) in
    let low = is_hex_digit-hex_digit (b % 16) (omega arith) in rw (high, low) (all_hex-hex bs rest)

all_hex-append :
    (xs ys : List ℕ) → all_hex xs ≡ true → all_hex ys ≡ true → all_hex (xs ++ ys) ≡ true
unfolding all_hex
all_hex-append [] ys h k = k
all_hex-append (x ∷ xs) ys h k =
    let rest : all_hex xs ≡ true = ground (arith, h) in
    ground (arith, h, all_hex-append xs ys rest k)

pub all_hex-hex_digits : (k n : ℕ) → all_hex (hex_digits k n) ≡ true
unfolding hex_digits
all_hex-hex_digits zero n = unfold all_hex in refl
all_hex-hex_digits (suc k) n =
    let last : all_hex (hex_digit (n % 16) ∷ []) ≡ true =
      unfold all_hex in rw (is_hex_digit-hex_digit (n % 16) (omega arith)) refl in
    all_hex-append (hex_digits k (n / 16)) (hex_digit (n % 16) ∷ []) (all_hex-hex_digits k (n / 16))
      last

pub length-hex_digits : (k n : ℕ) → length (hex_digits k n) ≡ k
unfolding hex_digits
length-hex_digits zero n = refl
length-hex_digits (suc k) n = omega (
  arith,
  length-append (hex_digits k (n / 16)) (hex_digit (n % 16) ∷ []),
  length-hex_digits k (n / 16),
)

hex_number_from-append :
    (n : ℕ) (xs ys : List ℕ)
    → hex_number_from n (xs ++ ys) ≡ hex_number_from (hex_number_from n xs) ys
unfolding hex_number_from
hex_number_from-append n [] ys = refl
hex_number_from-append n (x ∷ xs) ys = hex_number_from-append (16 * n + digit_value x) xs ys

-- `16 ** k`.
abbrev pub hex_limit : ℕ → ℕ
hex_limit zero = 1
hex_limit (suc k) = 16 * hex_limit k

-- A number that has no more digits is read back.
pub hex_number-hex_digits : (k n : ℕ) → n < hex_limit k → hex_number (hex_digits k n) ≡ n
unfolding hex_number hex_digits
hex_number-hex_digits zero n h = unfold hex_number_from in omega (arith, h)
hex_number-hex_digits (suc k) n h =
    let front = hex_number-hex_digits k (n / 16) (omega (arith, h)) in
    let last = digit_value-hex_digit (n % 16) (omega arith) in
    let step : hex_number_from (hex_number_from 0 (hex_digits k (n / 16))) (hex_digit (n % 16) ∷ [])
        ≡ 16 * hex_number_from 0 (hex_digits k (n / 16)) + digit_value (hex_digit (n % 16)) =
      unfold hex_number_from in refl in
    hex_number_from-append 0 (hex_digits k (n / 16)) (hex_digit (n % 16) ∷ [])
    ∙ step
    ∙ omega (arith, front, last)

-- ===== src/Base/Bytes.antt =====
-- Bytes and little-endian fields of `struct.pack` and `struct.unpack` ("<H", "<I").
use Prim.Native.Nat.{ℕ, zero, suc, ◌+◌, ◌*◌, ◌/◌, ◌%◌, ◌<◌}
use mathlib.Core.Path.{◌≡◌}
use mathlib.Core.List.{List, [], ◌∷◌}
use native.Mathlib.Omega.{arith}

abbrev pub IsByte : ℕ → Type 0
IsByte b = b < 256

-- `struct.pack("<H", n)`, for n below 2 ^ 16.
abbrev pub le16 : ℕ → List ℕ
le16 n = n % 256 ∷ n / 256 % 256 ∷ []

abbrev pub u16 : ℕ → ℕ → ℕ
u16 b0 b1 = b0 + 256 * b1

-- `struct.pack("<I", n)`, for n below 2 ^ 32.
abbrev pub le32 : ℕ → List ℕ
le32 n = n % 256 ∷ n / 256 % 256 ∷ n / 65536 % 256 ∷ n / 16777216 % 256 ∷ []

abbrev pub u32 : ℕ → ℕ → ℕ → ℕ → ℕ
u32 b0 b1 b2 b3 = b0 + 256 * b1 + 65536 * b2 + 16777216 * b3

pub u16-le16 : (n : ℕ) → n < 65536 → u16 (n % 256) (n / 256 % 256) ≡ n
u16-le16 n h = omega arith

pub u32-le32 :
    (n : ℕ)
    → n < 4294967296
    → u32 (n % 256) (n / 256 % 256) (n / 65536 % 256) (n / 16777216 % 256) ≡ n
u32-le32 n h = omega arith

pub le16-u16 :
    (b0 b1 : ℕ) → IsByte b0 → IsByte b1 → (u16 b0 b1 % 256 ≡ b0) × (u16 b0 b1 / 256 % 256 ≡ b1)
le16-u16 b0 b1 h0 h1 = omega arith

pub le16-injective : (a b : ℕ) → a < 65536 → b < 65536 → le16 a ≡ le16 b → a ≡ b
le16-injective a b ha hb e = ground arith

-- `data[i]`, inside the data, and `int.from_bytes(data[i:i + 2], "little")`.
abbrev pub byte_at : List ℕ → ℕ → ℕ
byte_at [] i = 0
byte_at (b ∷ bytes) zero = b
byte_at (b ∷ bytes) (suc i) = byte_at bytes i

abbrev pub word : List ℕ → ℕ → ℕ
word data_in offset = u16 (byte_at data_in offset) (byte_at data_in (suc offset))

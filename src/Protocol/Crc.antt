-- ===== src/Protocol/Crc.antt =====
-- `crc16_ccitt` of server/msx_protocol.py.
pub mod Detect
use msx_ai.Base.{
  ℕ, ◌<◌, ◌*◌, ◌%◌, ◌≡◌, refl, List, [], ◌∷◌, ◌++◌, Result, ok, ◌>>=◌, ◌==◌, if◌then◌else◌, bit_and,
  bit_xor, arith,
}
use msx_ai.Base.Int.{ℤ, pos}
use msx_ai.Protocol.Frame.{ProtocolError, wire_int}

-- One of the eight rounds; `& 0xFFFF` is `% 65536`.
unfoldable pub crc_round : ℕ → ℕ
crc_round crc =
    if bit_and crc 0x8000 == 0 then (crc * 2) % 65536 else bit_xor (crc * 2) 0x1021 % 65536

unfoldable pub crc_rounds : ℕ → ℕ → ℕ
unfolding crc_round
crc_rounds ℕ.zero crc = crc
crc_rounds (ℕ.suc n) crc = crc_rounds n (crc_round crc)

-- The body of the loop over the bytes.
unfoldable pub crc_byte : ℕ → ℕ → ℕ
unfolding crc_rounds
crc_byte crc byte = crc_rounds 8 (bit_xor crc (byte * 256))

unfoldable pub crc_bytes : ℕ → List ℕ → ℕ
unfolding crc_byte
crc_bytes crc [] = crc
crc_bytes crc (b ∷ bs) = crc_bytes (crc_byte crc b) bs

unfoldable pub crc16_ccitt : List ℕ → ℤ → Result ProtocolError ℕ
unfolding crc_bytes wire_int
crc16_ccitt bs initial = do crc ← wire_int "initial CRC" initial 0xffff; ok (crc_bytes crc bs)

-- The call with the default initial value.
unfoldable pub crc16 : List ℕ → ℕ
unfolding crc_bytes
crc16 bs = crc_bytes 0xffff bs

pub crc16_ccitt_default : (bs : List ℕ) → crc16_ccitt bs (pos 0xffff) ≡ ok (crc16 bs)
unfolding crc16_ccitt crc16
crc16_ccitt_default bs = refl

pub crc_round-lt : (crc : ℕ) → crc_round crc < 65536
unfolding crc_round
crc_round-lt crc = ground arith

pub crc_byte-lt : (crc byte : ℕ) → crc_byte crc byte < 65536
unfolding crc_byte
crc_byte-lt crc byte = crc_round-lt _

pub crc_bytes-lt : (crc : ℕ) (bs : List ℕ) → crc < 65536 → crc_bytes crc bs < 65536
unfolding crc_bytes
crc_bytes-lt crc [] h = h
crc_bytes-lt crc (b ∷ bs) h = crc_bytes-lt (crc_byte crc b) bs (crc_byte-lt crc b)

pub crc16-lt : (bs : List ℕ) → crc16 bs < 65536
unfolding crc16
crc16-lt bs = crc_bytes-lt 0xffff bs (omega arith)

-- The incremental form: the checksum of a concatenation continues from the first part's.
pub crc_bytes-append :
    (crc : ℕ) (xs ys : List ℕ) → crc_bytes crc (xs ++ ys) ≡ crc_bytes (crc_bytes crc xs) ys
unfolding crc_bytes
crc_bytes-append crc [] ys = refl
crc_bytes-append crc (x ∷ xs) ys = crc_bytes-append (crc_byte crc x) xs ys

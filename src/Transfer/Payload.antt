-- ===== src/Transfer/Payload.antt =====
-- `prepare_put_payload` of server/msx_transfer.py. The source is the list of the blocks that its reads
-- give, the same for every pass over it; `crc` is zlib's `crc32(data, value)`. Callbacks, the staged
-- file and the text of the reason are not modelled.
pub mod Sound
use msx_ai.Base.{
  ℕ, zero, suc, ◌+◌, ◌-◌, ◌*◌, ◌/◌, Bool, true, false, List, [], ◌∷◌, length, concat, max, Result,
  ok, err, ◌>>=◌, ◌>>◌, leb, bit_and, if◌then◌else◌,
}
use msx_ai.Base.Int.{ℤ, pos, negsuc}
use msx_ai.Transfer.Types.{
  TransferError, transfer_error, wire_limit, TransferEncoding, raw, packbits, uint32_max, u32_field,
}
use msx_ai.Transfer.PackBits.{PackBits, deterministic_packbits}
use msx_ai.Transfer.Digest.{FileDigest, looks_already_compressed, crc32_stream}

-- The strings that `mode` may be, and any other.
pub data PutMode : Type 0 where
  auto only_raw only_packbits unknown_mode : PutMode

pub record PreparedPayload : Type 0 where
  pub encoding : TransferEncoding
  pub wire : List ℕ
  pub final_digest : FileDigest
  pub wire_digest : FileDigest
  pub temporary : Bool

-- The result of `_deterministic_packbits`.
abbrev pub packed_payload : PackBits → PreparedPayload
packed_payload s = record {
  encoding = packbits;
  wire = s.wire;
  final_digest = record { size = s.final_size; crc32 = bit_and s.final_crc uint32_max };
  wire_digest = record { size = s.wire_size; crc32 = bit_and s.wire_crc uint32_max };
  temporary = true;
}

abbrev pub raw_payload : List (List ℕ) → FileDigest → PreparedPayload
raw_payload blocks digest = record {
  encoding = raw;
  wire = concat blocks;
  final_digest = digest;
  wire_digest = digest;
  temporary = false;
}

-- Savings that are worth the encoding: three percent, rounded up, and at least 256 bytes.
unfoldable pub required_savings : ℕ → ℕ
required_savings size = max 256 ((size * 3 + 99) / 100)

-- `savings >= required`, where the savings may be negative.
unfoldable pub saves_enough : PreparedPayload → Bool
saves_enough p = leb (p.wire_digest.size + required_savings p.final_digest.size) p.final_digest.size

unfoldable pub check_chunk_size : ℤ → Result TransferError (Unit {0})
check_chunk_size (pos zero) = err (transfer_error "chunk_size")
check_chunk_size (pos (suc n)) = ok tt
check_chunk_size (negsuc n) = err (transfer_error "chunk_size")

-- The checks of `chunk_size` and `max_size`.
unfoldable pub check_sizes : ℤ → ℕ → Result TransferError ℕ
check_sizes chunk_size max_size = do
  check_chunk_size chunk_size
  u32_field "max_size" (pos max_size)

module _ (crc : List ℕ → ℕ → ℕ) (max_size : ℕ) (suffix : List ℕ) (blocks : List (List ℕ)) where
  -- `raw_result` without a digest.
  unfoldable pub raw_result : Result TransferError PreparedPayload
  raw_result = do digest ← crc32_stream crc max_size blocks; ok (raw_payload blocks digest)

  -- The choice in mode `auto`, once the encoder has returned.
  unfoldable pub choose : PreparedPayload → Result TransferError PreparedPayload
  choose p = if saves_enough p then ok p else ok (raw_payload blocks p.final_digest)

  unfoldable pub prepare_auto : Result TransferError PreparedPayload
  prepare_auto =
      if looks_already_compressed suffix (concat blocks)
      then raw_result
      else elim (deterministic_packbits crc max_size blocks) [
        | ok s ↦ choose (packed_payload s)
        | err wire_limit ↦ raw_result
        | err e ↦ err e
      ]

  unfoldable pub prepare_put_payload :
      (chunk_size : ℤ) → PutMode → Result TransferError PreparedPayload
  prepare_put_payload chunk_size unknown_mode = err (transfer_error "mode")
  prepare_put_payload chunk_size only_raw = check_sizes chunk_size max_size >>= λ _. raw_result
  prepare_put_payload chunk_size only_packbits = check_sizes chunk_size max_size >>= λ _.
      deterministic_packbits crc max_size blocks >>= λ s. ok (packed_payload s)
  prepare_put_payload chunk_size auto = check_sizes chunk_size max_size >>= λ _. prepare_auto

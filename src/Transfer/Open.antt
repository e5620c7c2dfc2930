-- ===== src/Transfer/Open.antt =====
-- `encode_open` and `decode_open` of server/msx_transfer.py: the OPEN request.
pub mod Laws
use msx_ai.Base.{
  ℕ, ◌+◌, ◌*◌, ◌/◌, ◌%◌, Bool, true, false, not, ◌&&◌, List, [], ◌∷◌, ◌++◌, length, Result, ok, err,
  ◌>>=◌, ◌>>◌, raise_if, ltb, ◌==◌, if◌then◌else◌, bit_and, bit_or,
}
use msx_ai.Base.Bytes.{le16, le32}
use msx_ai.Base.Int.{pos}
use msx_ai.Transfer.Types.{
  TransferError, TransferDirection, TransferEncoding, payload_error, direction_value,
  encoding_value, direction_of, encoding_of, read8, read16, read32, read_id, path_bytes,
  any_outside,
}
use msx_ai.Transfer.Descriptor.{TransferDescriptor, DescriptorArgs, new_descriptor}

-- `_OPEN_HEADER.size` of "<BBBBB16sIIIIIIH".
abbrev pub open_header_size : ℕ
open_header_size = 47

-- TransferOpenFlag: RESUME 1, RECEIPTLESS_REPLAY 2, FAST_PUMP 4.
unfoldable pub open_flags : TransferDescriptor → ℕ
open_flags d =
    let flags = if d.resume then bit_or 4 1 else 4 in
    if d.receiptless_replay then bit_or flags 2 else flags

-- The path is encoded first, and its error leaves the function.
unfoldable pub encode_open : TransferDescriptor → Result TransferError (List ℕ)
encode_open d = do
  path ← path_bytes d.path
  ok (
      1
      ∷ 1
      ∷ direction_value d.direction
      ∷ encoding_value d.encoding
      ∷ open_flags d
      ∷ (d.transfer_id
          ++ (le32 d.wire_size
              ++ (le32 d.wire_crc32
                  ++ (le32 d.final_size
                      ++ (le32 d.final_crc32
                          ++ (le32 d.resume_offset
                              ++ (le32 d.resume_prefix_crc32 ++ (le16 (length path) ++ path)))))))))

pub record OpenHeader : Type 0 where
  pub command : ℕ
  pub version : ℕ
  pub direction : ℕ
  pub encoding : ℕ
  pub flags : ℕ
  pub transfer_id : List ℕ
  pub wire_size : ℕ
  pub wire_crc32 : ℕ
  pub final_size : ℕ
  pub final_crc32 : ℕ
  pub resume_offset : ℕ
  pub resume_crc : ℕ
  pub path_length : ℕ

-- `_OPEN_HEADER.unpack_from(payload)`, and the bytes that follow.
unfoldable pub unpack_open : List ℕ → Result TransferError (OpenHeader × List ℕ)
unpack_open payload = do
  (command, r) ← read8 payload
  (version, r) ← read8 r
  (direction, r) ← read8 r
  (encoding, r) ← read8 r
  (flags, r) ← read8 r
  (transfer_id, r) ← read_id r
  (wire_size, r) ← read32 r
  (wire_crc32, r) ← read32 r
  (final_size, r) ← read32 r
  (final_crc32, r) ← read32 r
  (resume_offset, r) ← read32 r
  (resume_crc, r) ← read32 r
  (path_length, r) ← read16 r
  ok (
    record {
      command = command;
      version = version;
      direction = direction;
      encoding = encoding;
      flags = flags;
      transfer_id = transfer_id;
      wire_size = wire_size;
      wire_crc32 = wire_crc32;
      final_size = final_size;
      final_crc32 = final_crc32;
      resume_offset = resume_offset;
      resume_crc = resume_crc;
      path_length = path_length;
    },
    r,
  )

-- The arguments of `TransferDescriptor(...)` from the fields of the request.
abbrev pub open_args : OpenHeader → List ℕ → TransferDirection → TransferEncoding → DescriptorArgs
open_args h path direction encoding = record {
  direction = direction;
  encoding = encoding;
  transfer_id = h.transfer_id;
  wire_size = pos h.wire_size;
  wire_crc32 = pos h.wire_crc32;
  final_size = pos h.final_size;
  final_crc32 = pos h.final_crc32;
  path = path;
  resume_offset = pos h.resume_offset;
  resume_prefix_crc32 = pos h.resume_crc;
  resume = not (bit_and h.flags 1 == 0);
  receiptless_replay = not (bit_and h.flags 2 == 0);
}

unfoldable pub build_open : OpenHeader → List ℕ → Result TransferError TransferDescriptor
build_open h path = do
  direction ← direction_of (payload_error "descriptor") h.direction
  encoding ← encoding_of (payload_error "descriptor") h.encoding
  new_descriptor (open_args h path direction encoding)

-- `except TransferError as exc: raise TransferPayloadError(...)`.
abbrev pub as_payload_error :
    Result TransferError TransferDescriptor → Result TransferError TransferDescriptor
as_payload_error (ok d) = ok d
as_payload_error (err e) = err (payload_error "descriptor")

unfoldable pub decode_open : List ℕ → Result TransferError TransferDescriptor
decode_open payload = do
  raise_if (ltb (length payload) open_header_size) (payload_error "OPEN size")
  (h, path) ← unpack_open payload
  raise_if (not (h.command == 1)) (payload_error "OPEN subcommand")
  raise_if (not (h.version == 1)) (payload_error "OPEN version")
  raise_if (not (bit_and h.flags 0xf8 == 0)) (payload_error "OPEN flags")
  raise_if (bit_and h.flags 4 == 0) (payload_error "OPEN fast pump")
  raise_if (not (length payload == open_header_size + h.path_length)) (payload_error "OPEN length")
  raise_if (any_outside 0 0x7f path) (payload_error "OPEN path")
  as_payload_error (build_open h path)

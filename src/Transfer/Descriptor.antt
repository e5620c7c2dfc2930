-- ===== src/Transfer/Descriptor.antt =====
-- `TransferDescriptor` of server/msx_transfer.py: the identity and integrity of one transfer.
pub mod Laws
use msx_ai.Base.{
  ℕ, ◌<◌, ◌≤◌, ◌≡◌, ◌≢◌, String, Bool, true, false, not, ◌&&◌, ◌||◌, List, [], ◌∷◌, length, All,
  Result, ok, err, ◌>>=◌, ◌>>◌, raise_if, ltb, leb, ◌==◌, if◌then◌else◌, arith, refl,
}
use msx_ai.Base.Bytes.{IsByte}
use msx_ai.Base.Int.{ℤ, pos, negsuc}
use msx_ai.Transfer.Types.{
  TransferError, transfer_error, TransferDirection, put, get, TransferEncoding, raw, packbits,
  is_get, is_raw, u32_field, transfer_id_field, path_bytes, any_outside,
}

-- The arguments of the constructor.
pub record DescriptorArgs : Type 0 where
  pub direction : TransferDirection
  pub encoding : TransferEncoding
  pub transfer_id : List ℕ
  pub wire_size : ℤ
  pub wire_crc32 : ℤ
  pub final_size : ℤ
  pub final_crc32 : ℤ
  pub path : List ℕ
  pub resume_offset : ℤ
  pub resume_prefix_crc32 : ℤ
  pub resume : Bool
  pub receiptless_replay : Bool

pub record TransferDescriptor : Type 0 where
  pub direction : TransferDirection
  pub encoding : TransferEncoding
  pub transfer_id : List ℕ
  pub wire_size : ℕ
  pub wire_crc32 : ℕ
  pub final_size : ℕ
  pub final_crc32 : ℕ
  pub path : List ℕ
  pub resume_offset : ℕ
  pub resume_prefix_crc32 : ℕ
  pub resume : Bool
  pub receiptless_replay : Bool

-- A GET that does not know the size and checksums yet.
unfoldable pub get_metadata_unknown : TransferDescriptor → Bool
get_metadata_unknown d =
    is_get d.direction
    && ((d.wire_size == 0) && (d.wire_crc32 == 0) && (d.final_size == 0) && (d.final_crc32 == 0))

-- `resume = self.resume or resume_offset > 0`.
unfoldable pub settled : TransferDescriptor → TransferDescriptor
settled d = record d { resume = d.resume || ltb 0 d.resume_offset }

-- The checks of `__post_init__` on the relations between the fields; the last one reads the settled
-- `resume`, and no other does.
unfoldable pub check_relations : TransferDescriptor → Result TransferError (Unit {0})
check_relations d = do
  raise_if (ltb d.wire_size d.resume_offset && not (get_metadata_unknown d))
      (transfer_error "resume_offset")
  raise_if ((d.resume_offset == 0) && not (d.resume_prefix_crc32 == 0))
      (transfer_error "resume_prefix_crc32")
  raise_if (is_get d.direction && not (is_raw d.encoding)) (transfer_error "encoding")
  raise_if
      (is_raw d.encoding
        && not (get_metadata_unknown d)
        && (not (d.wire_size == d.final_size) || not (d.wire_crc32 == d.final_crc32)))
      (transfer_error "raw sizes")
  raise_if
      (d.receiptless_replay
        && (is_get d.direction
            || not d.resume
            || not (d.resume_offset == d.wire_size)
            || not (d.resume_prefix_crc32 == d.wire_crc32)))
      (transfer_error "receiptless_replay")

unfoldable pub check_descriptor : TransferDescriptor → Result TransferError TransferDescriptor
check_descriptor d = do check_relations (settled d); ok (settled d)

-- `TransferDescriptor(...)`.
unfoldable pub new_descriptor : DescriptorArgs → Result TransferError TransferDescriptor
new_descriptor a = do
  transfer_id ← transfer_id_field a.transfer_id
  wire_size ← u32_field "wire_size" a.wire_size
  wire_crc32 ← u32_field "wire_crc32" a.wire_crc32
  final_size ← u32_field "final_size" a.final_size
  final_crc32 ← u32_field "final_crc32" a.final_crc32
  resume_offset ← u32_field "resume_offset" a.resume_offset
  resume_prefix_crc32 ← u32_field "resume_prefix_crc32" a.resume_prefix_crc32
  path_bytes a.path
  check_descriptor (record {
    direction = a.direction;
    encoding = a.encoding;
    transfer_id = transfer_id;
    wire_size = wire_size;
    wire_crc32 = wire_crc32;
    final_size = final_size;
    final_crc32 = final_crc32;
    path = a.path;
    resume_offset = resume_offset;
    resume_prefix_crc32 = resume_prefix_crc32;
    resume = a.resume;
    receiptless_replay = a.receiptless_replay;
  })

-- The fields of a descriptor as arguments, as `dataclasses.replace` passes them.
abbrev pub args_of : TransferDescriptor → DescriptorArgs
args_of d = record {
  direction = d.direction;
  encoding = d.encoding;
  transfer_id = d.transfer_id;
  wire_size = pos d.wire_size;
  wire_crc32 = pos d.wire_crc32;
  final_size = pos d.final_size;
  final_crc32 = pos d.final_crc32;
  path = d.path;
  resume_offset = pos d.resume_offset;
  resume_prefix_crc32 = pos d.resume_prefix_crc32;
  resume = d.resume;
  receiptless_replay = d.receiptless_replay;
}

unfoldable pub with_resume : TransferDescriptor → ℤ → ℤ → Result TransferError TransferDescriptor
with_resume d offset prefix_crc32 = do
  o ← u32_field "offset" offset
  c ← u32_field "prefix_crc32" prefix_crc32
  new_descriptor (record (args_of d) { resume_offset = pos o; resume_prefix_crc32 = pos c })

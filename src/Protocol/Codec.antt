-- ===== src/Protocol/Codec.antt =====
-- `encode_frame`, `_decode_header`, `decode_frame` and `encode_many` of server/msx_protocol.py.
pub mod RoundTrip
pub mod Decode
pub mod Corrupt
use msx_ai.Base.{
  ℕ, ◌+◌, ◌-◌, ◌*◌, ◌/◌, ◌%◌, ◌≡◌, Bool, not, ◌&&◌, List, [], ◌∷◌, ◌++◌, length, take, drop, Result,
  ok, err, ◌>>=◌, ◌>>◌, raise_if, ltb, ◌==◌, if◌then◌else◌,
}
use msx_ai.Base.Bytes.{le16, u16}
use msx_ai.Base.Int.{pos}
use msx_ai.Protocol.Frame.{
  Frame, FrameType, frame_type_value, frame_type_of, wire_int, new_frame, header_size, crc_size,
  max_wire_payload, ProtocolError, invalid_magic, unsupported_version, payload_too_large,
  truncated_frame, frame_length, crc_mismatch, struct_error,
}
use msx_ai.Protocol.Crc.{crc16}

-- `_HEADER.pack(...)`.
unfoldable pub pack_header : Frame → List ℕ
pack_header f =
    0x4d
    ∷ 0x58
    ∷ f.version
    ∷ frame_type_value f.frame_type
    ∷ f.flags
    ∷ (f.sequence % 256)
    ∷ (f.sequence / 256 % 256)
    ∷ f.opcode
    ∷ f.status
    ∷ (length f.payload % 256)
    ∷ (length f.payload / 256 % 256)
    ∷ []

unfoldable pub encode_frame : Frame → List ℕ
encode_frame f = let body = pack_header f ++ f.payload in body ++ le16 (crc16 body)

unfoldable pub encode_many : List Frame → List ℕ
encode_many [] = []
encode_many (f ∷ fs) = encode_frame f ++ encode_many fs

pub record Header : Type 0 where
  pub frame_type : FrameType
  pub flags : ℕ
  pub sequence : ℕ
  pub opcode : ℕ
  pub status : ℕ
  pub size : ℕ

-- The checks of `_decode_header` on the unpacked fields.
unfoldable pub check_header :
    (version max_payload m0 m1 actual type_byte flags sequence opcode status size : ℕ)
    → Result ProtocolError Header
check_header version max_payload m0 m1 actual type_byte flags sequence opcode status size = do
  raise_if (not ((m0 == 0x4d) && (m1 == 0x58))) (invalid_magic m0 m1)
  raise_if (not (actual == version)) (unsupported_version actual version)
  frame_type ← frame_type_of type_byte
  raise_if (ltb max_payload size) (payload_too_large size max_payload)
  ok (record {
    frame_type = frame_type;
    flags = flags;
    sequence = sequence;
    opcode = opcode;
    status = status;
    size = size;
  })

-- `_HEADER.unpack_from` reads the first eleven bytes, and raises on fewer.
unfoldable pub decode_header : (version max_payload : ℕ) → List ℕ → Result ProtocolError Header
decode_header version max_payload (m0 ∷ m1 ∷ v ∷ t ∷ fl ∷ s0 ∷ s1 ∷ op ∷ st ∷ l0 ∷ l1 ∷ rest) =
    check_header version max_payload m0 m1 v t fl (u16 s0 s1) op st (u16 l0 l1)
decode_header version max_payload _ = err struct_error

-- `_CRC.unpack_from(raw, offset)[0]`.
unfoldable pub unpack_crc : List ℕ → Result ProtocolError ℕ
unpack_crc (c0 ∷ c1 ∷ rest) = ok (u16 c0 c1)
unpack_crc _ = err struct_error

unfoldable pub decode_frame : (version max_payload : ℕ) → List ℕ → Result ProtocolError Frame
decode_frame version max_payload raw = do
  wire_int "version" (pos version) 0xff
  wire_int "max_payload" (pos max_payload) max_wire_payload
  raise_if (ltb (length raw) header_size) (truncated_frame header_size (length raw))
  h ← decode_header version max_payload raw
  let expected_size = header_size + h.size + crc_size
  raise_if (ltb (length raw) expected_size) (truncated_frame expected_size (length raw))
  raise_if (not (length raw == expected_size)) (frame_length expected_size (length raw))
  received ← unpack_crc (drop (expected_size - crc_size) raw)
  let calculated = crc16 (take (length raw - crc_size) raw)
  raise_if (not (received == calculated)) (crc_mismatch calculated received)
  new_frame h.frame_type (pos h.sequence) (pos h.opcode)
      (drop header_size (take (length raw - crc_size) raw)) (pos h.flags) (pos h.status)
      (pos version)

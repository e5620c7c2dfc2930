-- ===== src/Protocol/Frame.antt =====
-- The frames of server/msx_protocol.py: constants, enumerations, errors and the validating
-- constructor `Frame.__post_init__`. Arguments of a wrong Python type are not modelled.
use msx_ai.Base.{
  ℕ, ◌<◌, ◌≡◌, String, Bool, true, false, ◌&&◌, List, [], ◌∷◌, length, All, Result, ok, err, ◌>>=◌,
  ◌>>◌, raise_if, ltb, leb, ◌==◌, if◌then◌else◌, bit_and, arith,
}
use msx_ai.Base.Bytes.{IsByte}
use msx_ai.Base.Int.{ℤ, pos, negsuc}

abbrev pub magic : List ℕ
magic = 0x4d ∷ 0x58 ∷ []

abbrev pub protocol_version : ℕ
protocol_version = 3

abbrev pub max_wire_payload : ℕ
max_wire_payload = 0xffff

-- `_HEADER.size` of "<2sBBBHBBH" and `_CRC.size` of "<H".
abbrev pub header_size : ℕ
header_size = 11

abbrev pub crc_size : ℕ
crc_size = 2

pub data FrameType : Type 0 where
  request response event : FrameType

abbrev pub frame_type_value : FrameType → ℕ
frame_type_value request = 1
frame_type_value response = 2
frame_type_value event = 3

-- The exceptions, with the values that they carry. `frame_validation` names the field.
pub data ProtocolError : Type 0 where
  frame_validation : String → ProtocolError
  invalid_magic : ℕ → ℕ → ProtocolError
  unsupported_version : ℕ → ℕ → ProtocolError
  invalid_frame_type : ℕ → ProtocolError
  frame_length : ℕ → ℕ → ProtocolError
  truncated_frame : ℕ → ℕ → ProtocolError
  payload_too_large : ℕ → ℕ → ProtocolError
  crc_mismatch : ℕ → ℕ → ProtocolError
  garbage_data : List ℕ → ProtocolError
  sequence_mismatch : ℕ → ℕ → ProtocolError
  opcode_mismatch : ℕ → ℕ → ProtocolError
  -- struct.error: the buffer is shorter than the header
  struct_error : ProtocolError

-- `isinstance(e, FrameDecodeError)`.
abbrev pub is_decode_error : ProtocolError → Bool
is_decode_error (invalid_magic a b) = true
is_decode_error (unsupported_version a b) = true
is_decode_error (invalid_frame_type a) = true
is_decode_error (frame_length a b) = true
is_decode_error (truncated_frame a b) = true
is_decode_error (crc_mismatch a b) = true
is_decode_error (garbage_data d) = true
is_decode_error _ = false

-- The clause `except PayloadTooLargeError`.
abbrev pub is_payload_too_large : ProtocolError → Bool
is_payload_too_large (payload_too_large a b) = true
is_payload_too_large _ = false

-- `FrameType(value)`.
unfoldable pub frame_type_of : ℕ → Result ProtocolError FrameType
frame_type_of v =
    if v == 1
    then ok request
    else if v == 2
    then ok response
    else if v == 3
    then ok event
    else err (invalid_frame_type v)

unfoldable pub wire_int : String → ℤ → ℕ → Result ProtocolError ℕ
wire_int name (pos v) maximum = if leb v maximum then ok v else err (frame_validation name)
wire_int name (negsuc v) maximum = err (frame_validation name)

pub record Frame : Type 0 where
  pub frame_type : FrameType
  pub sequence : ℕ
  pub opcode : ℕ
  pub payload : List ℕ
  pub flags : ℕ
  pub status : ℕ
  pub version : ℕ

-- `Frame(...)`: every field is checked in the order of `__post_init__`. A member of FrameType
-- passes the check of the type, and a payload is a list of bytes.
unfoldable pub new_frame : FrameType → ℤ → ℤ → List ℕ → ℤ → ℤ → ℤ → Result ProtocolError Frame
unfolding wire_int
new_frame frame_type sequence opcode payload flags status version = do
  seq ← wire_int "sequence" sequence 0xffff
  op ← wire_int "opcode" opcode 0xff
  fl ← wire_int "flags" flags 0xff
  st ← wire_int "status" status 0xff
  ver ← wire_int "version" version 0xff
  raise_if (ltb max_wire_payload (length payload))
      (payload_too_large (length payload) max_wire_payload)
  ok (record {
    frame_type = frame_type;
    sequence = seq;
    opcode = op;
    payload = payload;
    flags = fl;
    status = st;
    version = ver;
  })

-- The property `ok`: status OK and the flag ERROR (bit 2) not set.
unfoldable pub is_ok : Frame → Bool
is_ok f = (f.status == 0) && (bit_and f.flags 4 == 0)

-- What the constructor guarantees.
pub record IsFrame (f : Frame) : Type 0 where
  pub sequence_fits : f.sequence < 65536
  pub opcode_fits : f.opcode < 256
  pub flags_fits : f.flags < 256
  pub status_fits : f.status < 256
  pub version_fits : f.version < 256
  pub payload_fits : length f.payload < 65536
  pub payload_bytes : All IsByte f.payload

-- Whatever the constructor accepts is a valid frame, if its payload holds bytes.
pub new_frame-IsFrame :
    (t : FrameType) (sequence opcode : ℤ) (payload : List ℕ) (flags status version : ℤ) {f : Frame}
    → All IsByte payload
    → new_frame t sequence opcode payload flags status version ≡ ok f
    → IsFrame f
unfolding new_frame
new_frame-IsFrame t (pos s) (pos o) payload (pos fl) (pos st) (pos v) hb h = ground arith
new_frame-IsFrame t s o payload fl st v hb h = ground arith

-- The constructor is the identity on the fields of a valid frame.
pub new_frame_valid :
    (f : Frame)
    → IsFrame f
    → new_frame f.frame_type
        (pos f.sequence)
        (pos f.opcode)
        f.payload
        (pos f.flags)
        (pos f.status)
        (pos f.version)
      ≡ ok f
unfolding new_frame
new_frame_valid f v = ground arith

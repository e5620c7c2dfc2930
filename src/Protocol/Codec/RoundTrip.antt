-- ===== src/Protocol/Codec/RoundTrip.antt =====
-- What the encoder of server/msx_protocol.py writes, the decoder reads back.
use msx_ai.Base.{
  All, All-append, ◌<◌, ℕ, ◌+◌, ◌-◌, ◌≤◌, ◌≡◌, refl, sym, ap, List, [], ◌++◌, length, take, drop,
  append-nil, length-append, take-append_exact, drop-append_exact, ok, arith,
}
use msx_ai.Base.Bytes.{le16, u16-le16, IsByte}
use msx_ai.Protocol.Frame.{
  Frame, IsFrame, FrameType, request, response, event, frame_type_value, frame_type_of, wire_int,
  new_frame_valid,
}
use msx_ai.Protocol.Crc.{crc16, crc16-lt}
use msx_ai.Protocol.Codec.{
  pack_header, encode_frame, Header, check_header, decode_header, unpack_crc, decode_frame,
}

pub frame_type_of-value : (t : FrameType) → frame_type_of (frame_type_value t) ≡ ok t
unfolding frame_type_of
frame_type_of-value request = refl
frame_type_of-value response = refl
frame_type_of-value event = refl

-- The header that a frame is sent with.
abbrev pub header_of : Frame → Header
header_of f = record {
  frame_type = f.frame_type;
  flags = f.flags;
  sequence = f.sequence;
  opcode = f.opcode;
  status = f.status;
  size = length f.payload;
}

abbrev pub body_of : Frame → List ℕ
body_of f = pack_header f ++ f.payload

pub length-pack_header : (f : Frame) → length (pack_header f) ≡ 11
unfolding pack_header
length-pack_header f = refl

pub length-body_of : (f : Frame) → length (body_of f) ≡ 11 + length f.payload
length-body_of f = omega (arith, length-append (pack_header f) f.payload, length-pack_header f)

-- A frame takes thirteen bytes beside its payload.
pub length-encode_frame : (f : Frame) → length (encode_frame f) ≡ 13 + length f.payload
unfolding encode_frame
length-encode_frame f =
    omega (arith, length-append (body_of f) (le16 (crc16 (body_of f))), length-body_of f)

-- The header is read from the front, whatever follows.
pub decode_header-encode_frame :
    (f : Frame) (max_payload : ℕ) (rest : List ℕ)
    → IsFrame f
    → length f.payload ≤ max_payload
    → decode_header f.version max_payload (encode_frame f ++ rest) ≡ ok (header_of f)
unfolding decode_header encode_frame pack_header check_header
decode_header-encode_frame f max_payload rest v fits = ground (
  arith,
  frame_type_of-value f.frame_type,
  u16-le16 f.sequence v.sequence_fits,
  u16-le16 (length f.payload) v.payload_fits,
)

module _ (f : Frame) where
  take_body : take (length (encode_frame f) - 2) (encode_frame f) ≡ body_of f
  unfolding encode_frame
  take_body =
      take-append_exact _ (body_of f) (le16 (crc16 (body_of f)))
        (omega (arith, length-encode_frame f, length-body_of f))

  drop_body : drop (11 + length f.payload) (encode_frame f) ≡ le16 (crc16 (body_of f))
  unfolding encode_frame
  drop_body = drop-append_exact _ (body_of f) (le16 (crc16 (body_of f))) (sym (length-body_of f))

  drop_header : drop 11 (body_of f) ≡ f.payload
  unfolding pack_header
  drop_header = refl

  unpack_crc-encode_frame :
      unpack_crc (drop (11 + length f.payload) (encode_frame f)) ≡ ok (crc16 (body_of f))
  unfolding unpack_crc
  unpack_crc-encode_frame = rw drop_body (ap ok (u16-le16 _ (crc16-lt (body_of f))))

-- The encoding of a valid frame is decoded, with its own version and a payload limit of at most 65535
-- that it meets, to this frame.
pub decode_frame-encode_frame :
    (f : Frame) (max_payload : ℕ)
    → IsFrame f
    → length f.payload ≤ max_payload
    → max_payload ≤ 65535
    → decode_frame f.version max_payload (encode_frame f) ≡ ok f
unfolding decode_frame wire_int
decode_frame-encode_frame f max_payload v fits small = ground (
  arith,
  length-encode_frame f,
  rw append-nil at (decode_header-encode_frame f max_payload [] v fits),
  unpack_crc-encode_frame f,
  take_body f,
  drop_header f,
  new_frame_valid f v,
)

frame_type_value-lt : (t : FrameType) → frame_type_value t < 256
frame_type_value-lt request = omega arith
frame_type_value-lt response = omega arith
frame_type_value-lt event = omega arith

pack_header-IsByte : (f : Frame) → IsFrame f → All IsByte (pack_header f)
unfolding pack_header
pack_header-IsByte f v = omega (arith, frame_type_value-lt f.frame_type)

-- A valid frame is encoded to bytes.
pub encode_frame-IsByte : (f : Frame) → IsFrame f → All IsByte (encode_frame f)
unfolding encode_frame
encode_frame-IsByte f v =
    All-append IsByte (body_of f) (le16 (crc16 (body_of f)))
      (All-append IsByte (pack_header f) f.payload (pack_header-IsByte f v) v.payload_bytes)
      (omega arith)

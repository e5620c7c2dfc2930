-- ===== src/Protocol/Tests.antt =====
-- Runs of server/msx_protocol.py's model on concrete input, and its theorems at concrete inputs.
use msx_ai.Base.{concat, ℕ, ◌≤◌, ◌≡◌, ◌≢◌, ◌↔◌, refl, List, [], ◌∷◌, ◌++◌, All, ok, err, arith}
use msx_ai.Base.Int.{pos, negsuc}
use msx_ai.Protocol.Frame.{
  Frame, IsFrame, request, response, new_frame, new_frame-IsFrame, frame_validation,
  sequence_mismatch, truncated_frame, garbage_data, wire_int, frame_type_of,
}
use msx_ai.Protocol.Crc.{crc16}
use msx_ai.Protocol.Codec.{
  pack_header, encode_frame, encode_many, decode_frame, decode_header, check_header, unpack_crc,
}
use msx_ai.Protocol.Codec.RoundTrip.{decode_frame-encode_frame}
use msx_ai.Protocol.Codec.Decode.{decode_frame_sound}
use msx_ai.Protocol.Codec.Corrupt.{decode_frame_corrupt}
use msx_ai.Protocol.Parser.{FrameParser, fed, feed}
use msx_ai.Protocol.Parser.Total.{IsParser, feed_total}
use msx_ai.Protocol.Parser.Fragments.{feed_all, feed_all-concat}
use msx_ai.Protocol.Parser.Clean.{Fits, feed-encode_many}
use msx_ai.Protocol.Parser.Sound.{Holds, feed_sound}
use msx_ai.Protocol.Parser.Noise.{noisy, feed-noisy}
use msx_ai.Protocol.Finish.{
  finish, finish_loop, finish_round, finish_tail, find_valid_frame, valid_at, starts_with_magic,
}
use msx_ai.Protocol.Finish.Total.{finish_total}
use msx_ai.Protocol.Exchange.{
  SequenceCounter, next, after, drawn, validate_response, validate_response_iff,
  validate_response_stale,
}

-- The check value of CRC-16/CCITT-FALSE.
crc16_check : crc16 (0x31 ∷ 0x32 ∷ 0x33 ∷ 0x34 ∷ 0x35 ∷ 0x36 ∷ 0x37 ∷ 0x38 ∷ 0x39 ∷ []) ≡ 0x29b1
unfolding crc16
crc16_check = refl

abbrev ping : Frame
ping = record {
  frame_type = request;
  sequence = 0x1234;
  opcode = 0x50;
  payload = 1 ∷ 0x4d ∷ 3 ∷ [];
  flags = 1;
  status = 0;
  version = 3;
}

abbrev pong : Frame
pong = record {
  frame_type = response;
  sequence = 65535;
  opcode = 0x50;
  payload = [];
  flags = 0;
  status = 0;
  version = 3;
}

abbrev idle : FrameParser
idle = record { version = 3; max_payload = 4096; buffer = []; errors = [] }

idle-IsParser : IsParser idle
idle-IsParser = omega arith

ping-IsFrame : IsFrame ping
ping-IsFrame = omega arith

ping-Fits : Fits 3 4096 ping
ping-Fits = record { valid = ping-IsFrame; version_eq = refl; payload_le = omega arith }

pong-Fits : Fits 3 4096 pong
pong-Fits = record { valid = omega arith; version_eq = refl; payload_le = omega arith }

encode_frame-ping :
    encode_frame ping
    ≡ 0x4d ∷ 0x58 ∷ 3 ∷ 1 ∷ 1 ∷ 0x34 ∷ 0x12 ∷ 0x50 ∷ 0 ∷ 3 ∷ 0 ∷ 1 ∷ 0x4d ∷ 3 ∷ 174 ∷ 184 ∷ []
unfolding encode_frame pack_header crc16
encode_frame-ping = refl

-- The stream of both frames, cut inside the first header and inside the second frame.
abbrev fragments : List (List ℕ)
fragments =
    (0x4d ∷ [])
    ∷ (0x58 ∷ 3 ∷ 1 ∷ 1 ∷ 0x34 ∷ 0x12 ∷ 0x50 ∷ 0 ∷ 3 ∷ 0 ∷ 1 ∷ 0x4d ∷ 3 ∷ 174 ∷ 184 ∷ 0x4d ∷ [])
    ∷ []

feed_all-fragments : feed_all idle fragments ≡ fed (ping ∷ []) (record idle { buffer = 0x4d ∷ [] })
unfolding feed_all feed decode_frame decode_header check_header frame_type_of wire_int unpack_crc
    new_frame crc16
feed_all-fragments = refl

new_frame_negative :
    new_frame request (negsuc 0) (pos 0) [] (pos 0) (pos 0) (pos 3)
    ≡ err (frame_validation "sequence")
unfolding new_frame
new_frame_negative = refl

new_frame-IsFrame_example : IsFrame ping
new_frame-IsFrame_example =
    new_frame-IsFrame request (pos 0x1234) (pos 0x50) (1 ∷ 0x4d ∷ 3 ∷ []) (pos 1) (pos 0) (pos 3)
      {f = ping} (omega arith) (unfold new_frame in refl)

decode_frame-encode_frame_example : decode_frame 3 4096 (encode_frame ping) ≡ ok ping
decode_frame-encode_frame_example =
    decode_frame-encode_frame ping 4096 ping-IsFrame (omega arith) (omega arith)

abbrev raw_ping : List ℕ
raw_ping = 0x4d ∷ 0x58 ∷ 3 ∷ 1 ∷ 1 ∷ 0x34 ∷ 0x12 ∷ 0x50 ∷ 0 ∷ 3 ∷ 0 ∷ 1 ∷ 0x4d ∷ 3 ∷ 174 ∷ 184 ∷ []

decode_frame-raw_ping : decode_frame 3 4096 raw_ping ≡ ok ping
unfolding decode_frame decode_header check_header frame_type_of wire_int unpack_crc new_frame crc16
decode_frame-raw_ping = refl

decode_frame_sound_example :
    (encode_frame ping ≡ raw_ping) × IsFrame ping × (◌≡◌ {A = ℕ} 3 3) × (3 ≤ 4096)
decode_frame_sound_example =
    decode_frame_sound 3 4096 raw_ping ping (omega arith) decode_frame-raw_ping

-- The sequence number is changed from 0x1234 to 0x1235.
decode_frame_corrupt_example :
    decode_frame 3 4096 (
      (0x4d ∷ 0x58 ∷ 3 ∷ 1 ∷ 1 ∷ [])
      ++ 0x35 ∷ 0x12 ∷ 0x50 ∷ 0 ∷ 3 ∷ 0 ∷ 1 ∷ 0x4d ∷ 3 ∷ 174 ∷ 184 ∷ [])
    ≢ ok ping
decode_frame_corrupt_example =
    decode_frame_corrupt ping ping 3 4096 (0x4d ∷ 0x58 ∷ 3 ∷ 1 ∷ 1 ∷ [])
      (0x12 ∷ 0x50 ∷ 0 ∷ 3 ∷ 0 ∷ 1 ∷ 0x4d ∷ 3 ∷ 174 ∷ 184 ∷ []) 0x34 0x35 ping-IsFrame
      encode_frame-ping (omega arith) (omega arith)

feed_total_example :
    (fs : List Frame) × (q : FrameParser) × (feed idle (0xff ∷ 0x4d ∷ 0x58 ∷ []) ≡ fed fs q)
    × IsParser q
feed_total_example = feed_total idle (0xff ∷ 0x4d ∷ 0x58 ∷ []) idle-IsParser (omega arith)

feed_all-concat_example :
    (fs : List Frame) × (q : FrameParser) × (r : FrameParser) × (feed_all idle fragments ≡ fed fs q)
    × (feed idle (concat fragments) ≡ fed fs r)
    × (q.buffer ≡ r.buffer)
feed_all-concat_example =
    feed_all-concat idle (0x4d ∷ [])
      ((0x58 ∷ 3 ∷ 1 ∷ 1 ∷ 0x34 ∷ 0x12 ∷ 0x50 ∷ 0 ∷ 3 ∷ 0 ∷ 1 ∷ 0x4d ∷ 3 ∷ 174 ∷ 184 ∷ 0x4d ∷ [])
        ∷ [])
      idle-IsParser (omega arith)

feed-encode_many_example : feed idle (encode_many (ping ∷ pong ∷ [])) ≡ fed (ping ∷ pong ∷ []) idle
feed-encode_many_example =
    feed-encode_many idle (ping ∷ pong ∷ []) refl (omega arith) (ping-Fits, (pong-Fits, tt))

feed-junk :
    feed idle (0x4d ∷ raw_ping)
    ≡ fed (ping ∷ []) (record idle { errors = garbage_data (0x4d ∷ []) ∷ [] })
unfolding feed decode_frame decode_header check_header frame_type_of wire_int unpack_crc new_frame
    crc16
feed-junk = refl

feed_sound_example : Holds (0x4d ∷ raw_ping) (ping ∷ []) × All (Fits 3 4096) (ping ∷ [])
feed_sound_example = feed_sound idle (0x4d ∷ raw_ping) (omega arith) feed-junk

feed-noisy_example :
    (q : FrameParser) × (feed idle (noisy (((7 ∷ 0xff ∷ []), ping) ∷ ([], pong) ∷ []))
      ≡ fed (ping ∷ pong ∷ []) q)
    × (q.buffer ≡ [])
feed-noisy_example =
    feed-noisy idle (((7 ∷ 0xff ∷ []), ping) ∷ ([], pong) ∷ []) idle-IsParser refl
      (omega arith, ping-Fits, (tt, pong-Fits, tt))

-- A frame cut off in its payload, with a whole frame behind it.
abbrev severed : FrameParser
severed = record idle {
  buffer = (0x4d ∷ 0x58 ∷ 3 ∷ 1 ∷ 0 ∷ 1 ∷ 0 ∷ 0x50 ∷ 0 ∷ 99 ∷ 0 ∷ 5 ∷ []) ++ raw_ping;
}

finish-severed :
    finish severed ≡ fed (ping ∷ []) (record idle { errors = truncated_frame 112 12 ∷ [] })
unfolding finish finish_loop finish_round finish_tail find_valid_frame valid_at starts_with_magic
    feed decode_frame decode_header check_header frame_type_of wire_int unpack_crc new_frame crc16
finish-severed = refl

finish_total_example :
    (fs : List Frame) × (q : FrameParser) × (finish severed ≡ fed fs q)
    × (q.buffer ≡ [])
    × Holds severed.buffer fs
finish_total_example = finish_total severed (omega arith)

abbrev counter : SequenceCounter
counter = record { value = 65535 }

validate_response_iff_example : (validate_response ping pong ≡ ok tt) ↔ (
    (request ≡ request)
    × (response ≡ response)
    × (◌≡◌ {A = ℕ} 65535 0x1234)
    × (◌≡◌ {A = ℕ} 0x50 0x50))
validate_response_iff_example = validate_response_iff ping pong

-- The reply to the last number before the wrap, checked against the first request after it.
validate_response_stale_example :
    validate_response (record ping { sequence = drawn 1 counter }) pong
    ≡ err (sequence_mismatch (drawn 1 counter) (drawn 0 counter))
unfolding after next
validate_response_stale_example =
    validate_response_stale counter 0 1 (record ping { sequence = drawn 1 counter }) pong
      (omega arith) (omega arith) (omega arith) refl refl refl refl

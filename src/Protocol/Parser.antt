-- ===== src/Protocol/Parser.antt =====
-- `FrameParser` of server/msx_protocol.py: the incremental decoder that recovers after corrupt
-- input. The loop of `feed` runs on fuel, one more than the buffered bytes.
pub mod Stream
pub mod Round
pub mod Feed
pub mod Total
pub mod Fragments
pub mod Clean
pub mod Partial
pub mod Sound
pub mod Noise
use msx_ai.Base.{
  ℕ, zero, suc, ◌+◌, ◌-◌, ◌<◌, Bool, true, false, not, ◌&&◌, ◌||◌, Option, none, some, List, [],
  ◌∷◌, ◌++◌, length, take, drop, Result, ok, err, ◌>>=◌, ◌>>◌, ltb, leb, ◌==◌, if◌then◌else◌,
}
use msx_ai.Base.Int.{ℤ, pos}
use msx_ai.Protocol.Frame.{
  Frame, ProtocolError, wire_int, header_size, crc_size, max_wire_payload, is_decode_error,
  is_payload_too_large, garbage_data, truncated_frame,
}
use msx_ai.Protocol.Codec.{Header, decode_header, decode_frame}

pub record FrameParser : Type 0 where
  pub version : ℕ
  pub max_payload : ℕ
  pub buffer : List ℕ
  pub errors : List ProtocolError

unfoldable pub new_parser : ℤ → ℤ → Result ProtocolError FrameParser
new_parser version max_payload = do
  v ← wire_int "version" version 0xff
  m ← wire_int "max_payload" max_payload max_wire_payload
  ok (record { version = v; max_payload = m; buffer = []; errors = [] })

unfoldable pub buffered_bytes : FrameParser → ℕ
buffered_bytes p = length p.buffer

unfoldable pub reset : Bool → FrameParser → FrameParser
reset clear_errors p = record p { buffer = []; errors = if clear_errors then [] else p.errors }

unfoldable pub pop_errors : FrameParser → List ProtocolError × FrameParser
pop_errors p = (p.errors, record p { errors = [] })

-- `buffer.find(MAGIC)`.
unfoldable pub find_magic : List ℕ → Option ℕ
find_magic [] = none
find_magic (x ∷ []) = none
find_magic (x ∷ y ∷ r) =
    if (x == 0x4d) && (y == 0x58)
    then some 0
    else elim (find_magic (y ∷ r)) [ none ↦ none | some k ↦ some (suc k) ]

-- `buffer[-1:] == MAGIC[:1]`.
unfoldable pub ends_with_m : List ℕ → Bool
ends_with_m [] = false
ends_with_m (x ∷ []) = x == 0x4d
ends_with_m (x ∷ y ∷ r) = ends_with_m (y ∷ r)

-- `errors.append(GarbageDataError(discarded)); del buffer[:n]`, if there is something to discard.
unfoldable pub discard : ℕ → FrameParser → FrameParser
discard zero p = p
discard (suc n) p = record p {
  buffer = drop (suc n) p.buffer;
  errors = p.errors ++ garbage_data (take (suc n) p.buffer) ∷ [];
}

-- `errors.append(exc); del buffer[0]`.
unfoldable pub reject : ProtocolError → FrameParser → FrameParser
reject e p = record p { buffer = drop 1 p.buffer; errors = p.errors ++ e ∷ [] }

-- How one round of the loop of `feed` ends: by `break`, by `continue`, with a frame, or with an
-- exception that no handler takes.
pub data FeedRound : Type 0 where
  wait : FrameParser → FeedRound
  retry : FrameParser → FeedRound
  deliver : Frame → FrameParser → FeedRound
  escape : ProtocolError → FeedRound

-- The second half of a round, from the size that the header declares.
unfoldable pub try_frame : FrameParser → Header → FeedRound
unfolding reject
try_frame p h =
    let expected_size = header_size + h.size + crc_size in
    if ltb (length p.buffer) expected_size
    then wait p
    else elim (decode_frame p.version p.max_payload (take expected_size p.buffer)) [
      | ok f ↦ deliver f (record p { buffer = drop expected_size p.buffer })
      | err e ↦ if is_decode_error e then retry (reject e p) else escape e
    ]

-- The part of a round that begins with the magic at the front of the buffer.
unfoldable pub try_header : FrameParser → FeedRound
unfolding try_frame reject
try_header p =
    if ltb (length p.buffer) header_size
    then wait p
    else elim (decode_header p.version p.max_payload p.buffer) [
      | ok h ↦ try_frame p h
      | err e ↦ if is_decode_error e || is_payload_too_large e then retry (reject e p) else escape e
    ]

unfoldable pub feed_round : FrameParser → FeedRound
unfolding find_magic ends_with_m discard try_header
feed_round p = elim (find_magic p.buffer) [
  | none ↦
      let keep : ℕ = if ends_with_m p.buffer then 1 else 0 in
      wait (discard (length p.buffer - keep) p)
  | some k ↦ try_header (discard k p)
]

-- A call of `feed`: the frames and the parser that it leaves, an exception, or a loop that has not
-- ended.
pub data Fed : Type 0 where
  fed : List Frame → FrameParser → Fed
  raised : ProtocolError → Fed
  running : Fed

abbrev pub add_frame : Frame → Fed → Fed
add_frame f (fed fs p) = fed (f ∷ fs) p
add_frame f (raised e) = raised e
add_frame f running = running

unfoldable pub feed_loop : ℕ → FrameParser → Fed
unfolding feed_round
feed_loop zero p = running
feed_loop (suc fuel) p = elim p.buffer [
  | [] ↦ fed [] p
  | x ∷ xs ↦ elim (feed_round p) [
    | wait q ↦ fed [] q
    | retry q ↦ feed_loop fuel q
    | deliver f q ↦ add_frame f (feed_loop fuel q)
    | escape e ↦ raised e
  ]
]

-- `self._buffer.extend(data)`, before the loop.
abbrev pub extend : FrameParser → List ℕ → FrameParser
extend p bytes = record p { buffer = p.buffer ++ bytes }

unfoldable pub feed : FrameParser → List ℕ → Fed
unfolding feed_loop
feed p bytes = let q = extend p bytes in feed_loop (suc (length q.buffer)) q

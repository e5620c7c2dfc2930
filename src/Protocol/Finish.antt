-- ===== src/Protocol/Finish.antt =====
-- `FrameParser.finish` of server/msx_protocol.py: the end of a stream, where an incomplete frame
-- is given up and complete frames behind it are recovered.
pub mod Total
pub mod Kept
use msx_ai.Base.{
  ℕ, zero, suc, ◌+◌, Bool, true, false, not, ◌&&◌, ◌||◌, Option, none, some, List, [], ◌∷◌, ◌++◌,
  length, take, drop, Result, ok, err, ltb, ◌==◌, if◌then◌else◌,
}
use msx_ai.Protocol.Frame.{
  Frame, ProtocolError, header_size, crc_size, is_decode_error, is_payload_too_large, garbage_data,
  truncated_frame,
}
use msx_ai.Protocol.Codec.{decode_header, decode_frame}
use msx_ai.Protocol.Parser.{FrameParser, Fed, fed, raised, running, feed}
use msx_ai.Protocol.Parser.Fragments.{collect}

-- `buffer.startswith(MAGIC)`.
unfoldable pub starts_with_magic : List ℕ → Bool
starts_with_magic [] = false
starts_with_magic (x ∷ []) = false
starts_with_magic (x ∷ y ∷ r) = (x == 0x4d) && (y == 0x58)

-- `MAGIC.startswith(buffer)`.
unfoldable pub is_magic_prefix : List ℕ → Bool
is_magic_prefix [] = true
is_magic_prefix (x ∷ []) = x == 0x4d
is_magic_prefix (x ∷ y ∷ []) = (x == 0x4d) && (y == 0x58)
is_magic_prefix (x ∷ y ∷ z ∷ r) = false

-- The exceptions that the handlers around `_decode_header` take.
abbrev pub is_header_error : ProtocolError → Bool
is_header_error e = is_decode_error e || is_payload_too_large e

-- Whether a complete valid frame stands at the front, in a round of `_find_valid_frame`; an
-- exception that no handler takes leaves the search.
unfoldable pub valid_at : (version max_payload : ℕ) → List ℕ → Result ProtocolError Bool
valid_at version max_payload s =
    if ltb (length s) header_size then ok false else elim (decode_header version max_payload s) [
      | err e ↦ if is_header_error e then ok false else err e
      | ok h ↦
          let size = header_size + h.size + crc_size in
          if ltb (length s) size
          then ok false
          else elim (decode_frame version max_payload (take size s)) [
            | ok f ↦ ok true
            | err e ↦ if is_decode_error e then ok false else err e
          ]
    ]

-- `_find_valid_frame`, over the bytes from `offset` on. `find` goes from one magic to the next.
unfoldable pub find_valid_frame :
    (version max_payload : ℕ) → List ℕ → ℕ → Result ProtocolError (Option ℕ)
find_valid_frame version max_payload [] offset = ok none
find_valid_frame version max_payload (x ∷ s) offset =
    let later = find_valid_frame version max_payload s (suc offset) in
    if starts_with_magic (x ∷ s)
    then elim (valid_at version max_payload (x ∷ s)) [
      | ok found ↦ if found then ok (some offset) else later
      | err e ↦ err e
    ]
    else later

-- How a round of the loop of `finish` ends: by `break`, with a frame cut off that ends at the next
-- valid one, or with an exception.
pub data FinishRound : Type 0 where
  stop : FinishRound
  cut : FrameParser → FinishRound
  broken : ProtocolError → FinishRound

unfoldable pub finish_round : FrameParser → FinishRound
finish_round p =
    if starts_with_magic p.buffer && not (ltb (length p.buffer) header_size)
    then elim (decode_header p.version p.max_payload p.buffer) [
      | err e ↦ if is_header_error e then stop else broken e
      | ok h ↦
          let expected = header_size + h.size + crc_size in
          if ltb (length p.buffer) expected
          then elim (find_valid_frame p.version p.max_payload (drop 1 p.buffer) 1) [
            | err e ↦ broken e
            | ok none ↦ stop
            | ok (some next) ↦ cut (record p {
              buffer = drop next p.buffer;
              errors = p.errors ++ truncated_frame expected next ∷ [];
            })
          ]
          else stop
    ]
    else stop

-- `errors.append(e); self._buffer.clear()`.
unfoldable pub give_up : ProtocolError → FrameParser → FrameParser
give_up e p = record p { buffer = []; errors = p.errors ++ e ∷ [] }

-- The report on what is left, and the empty buffer.
unfoldable pub finish_tail : FrameParser → Result ProtocolError FrameParser
finish_tail p = elim p.buffer [
  | [] ↦ ok p
  | x ∷ xs ↦
      if is_magic_prefix p.buffer || starts_with_magic p.buffer
      then if ltb (length p.buffer) header_size
        then ok (give_up (truncated_frame header_size (length p.buffer)) p)
        else elim (decode_header p.version p.max_payload p.buffer) [
          | err e ↦ if is_header_error e then ok (give_up e p) else err e
          | ok h ↦
              ok (give_up (truncated_frame (header_size + h.size + crc_size) (length p.buffer)) p)
        ]
      else ok (give_up (garbage_data p.buffer) p)
]

abbrev pub with_tail : List Frame → Result ProtocolError FrameParser → Fed
with_tail fs (ok p) = fed fs p
with_tail fs (err e) = raised e

-- The loop of `finish`, with the frames so far; each round that goes on deletes a byte or more.
unfoldable pub finish_loop : ℕ → FrameParser → Fed
finish_loop zero p = running
finish_loop (suc fuel) p = elim (finish_round p) [
  | stop ↦ with_tail [] (finish_tail p)
  | broken e ↦ raised e
  | cut q ↦ elim (feed q []) [
    | fed fs r ↦ collect fs (finish_loop fuel r)
    | raised e ↦ raised e
    | running ↦ running
  ]
]

unfoldable pub finish : FrameParser → Fed
finish p = elim (feed p []) [
  | fed fs q ↦ collect fs (finish_loop (suc (length q.buffer)) q)
  | raised e ↦ raised e
  | running ↦ running
]

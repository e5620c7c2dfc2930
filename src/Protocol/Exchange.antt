-- ===== src/Protocol/Exchange.antt =====
-- `SequenceCounter` and `validate_response` of server/msx_protocol.py. The lock makes each call of
-- `next` one step, so the calls of all threads form one sequence.
use msx_ai.Base.{
  ℕ, zero, suc, ◌+◌, ◌%◌, ◌<◌, ◌≡◌, ◌≢◌, Bool, true, false, not, Result, ok, err, ◌>>=◌, ◌>>◌,
  raise_if, ◌==◌, ◌↔◌, arith,
}
use msx_ai.Base.Int.{ℤ}
use msx_ai.Protocol.Frame.{
  Frame, FrameType, request, response, ProtocolError, frame_validation, sequence_mismatch,
  opcode_mismatch, wire_int,
}

pub record SequenceCounter : Type 0 where
  pub value : ℕ

unfoldable pub new_counter : ℤ → Result ProtocolError SequenceCounter
unfolding wire_int
new_counter start = do v ← wire_int "sequence" start 0xffff; ok (record { value = v })

-- `& 0xFFFF` is `% 65536`.
unfoldable pub next : SequenceCounter → ℕ × SequenceCounter
next c = (c.value, record { value = (c.value + 1) % 65536 })

-- The counter after so many calls of `next`.
unfoldable pub after : ℕ → SequenceCounter → SequenceCounter
unfolding next
after zero c = c
after (suc n) c = after n (next c).1

-- The number that the call returns before which `n` calls were made.
abbrev pub drawn : ℕ → SequenceCounter → ℕ
drawn n c = (next (after n c)).0

abbrev pub is_request : FrameType → Bool
is_request request = true
is_request _ = false

abbrev pub is_response : FrameType → Bool
is_response response = true
is_response _ = false

unfoldable pub validate_response : Frame → Frame → Result ProtocolError (Unit {0})
validate_response asked reply = do
  raise_if (not (is_request asked.frame_type)) (frame_validation "request")
  raise_if (not (is_response reply.frame_type)) (frame_validation "response")
  raise_if (not (reply.sequence == asked.sequence))
      (sequence_mismatch asked.sequence reply.sequence)
  raise_if (not (reply.opcode == asked.opcode)) (opcode_mismatch asked.opcode reply.opcode)
  ok tt

after-value :
    (n : ℕ) (c : SequenceCounter) → c.value < 65536 → (after n c).value ≡ (c.value + n) % 65536
unfolding after next
after-value zero c h = omega arith
after-value (suc n) c h = omega (arith, after-value n (next c).1 (omega arith))

-- The numbers that any 65536 calls in a row return are all different.
pub drawn-distinct :
    (c : SequenceCounter) (i j : ℕ)
    → c.value < 65536
    → i < j
    → j < i + 65536
    → drawn i c ≢ drawn j c
unfolding next
drawn-distinct c i j h lt near e = omega (arith, after-value i c h, after-value j c h)

-- A reply is accepted exactly when the frames are a request and a response with one sequence number
-- and one opcode.
pub validate_response_iff :
    (asked reply : Frame)
    → (validate_response asked reply ≡ ok tt) ↔ (
        (asked.frame_type ≡ request)
        × (reply.frame_type ≡ response)
        × (reply.sequence ≡ asked.sequence)
        × (reply.opcode ≡ asked.opcode))
unfolding validate_response
validate_response_iff asked reply = ground arith

-- Where a request has the number that a counter with a 16-bit value draws j-th, a response that has
-- the number drawn i-th, up to 65535 draws earlier, is refused by its sequence number.
pub validate_response_stale :
    (c : SequenceCounter) (i j : ℕ) (asked reply : Frame)
    → c.value < 65536
    → i < j
    → j < i + 65536
    → asked.frame_type ≡ request
    → reply.frame_type ≡ response
    → asked.sequence ≡ drawn j c
    → reply.sequence ≡ drawn i c
    → validate_response asked reply ≡ err (sequence_mismatch (drawn j c) (drawn i c))
unfolding validate_response
validate_response_stale c i j asked reply h lt near ta tr sa sr =
    ground (arith, drawn-distinct c i j h lt near)

-- ===== src/Session/Wire.antt =====
-- The stream calls of `V3Session` of server/msx_v3.py, one attempt of a request, and the routing of
-- the frames that arrive.
use msx_ai.Base.{
  ℕ, Bool, true, false, Option, none, some, List, [], ◌∷◌, ◌++◌, take, drop, Result, ok, err, ◌==◌,
  if◌then◌else◌,
}
use msx_ai.Protocol.Frame.{
  Frame, FrameType, request, response, event, ProtocolError, sequence_mismatch, opcode_mismatch,
}
use msx_ai.Protocol.Parser.{Fed, fed, raised, running, feed, pop_errors}
use msx_ai.Protocol.Finish.{finish}
use msx_ai.Protocol.Exchange.{validate_response}
use msx_ai.Session.{
  not_configured, send_failed, receive_failed, more_than_one_byte, disconnected, transport,
  protocol, attempt_timed_out, wake_timed_out, no_result, Noted, parser_error, unexpected_frame,
  Outcome, late, unset, stalls, fails, gives, Session, Did, did, threw, Call, ◌>>-◌, enqueue,
  enqueue_all,
}

-- A message that enters a queue.
unfoldable pub note_error : Noted → Session → Session
note_error n s = record s { protocol_errors = enqueue s.queue_limit s.protocol_errors n }

unfoldable pub note_event : Frame → Session → Session
note_event f s = record s { events = enqueue s.queue_limit s.events f }

unfoldable pub note_orphan : Frame → Session → Session
note_orphan f s = record s { orphan_responses = enqueue s.queue_limit s.orphan_responses f }

-- The `except` clause of `_route_frames`.
abbrev pub is_mismatch : ProtocolError → Bool
is_mismatch (sequence_mismatch a b) = true
is_mismatch (opcode_mismatch a b) = true
is_mismatch _ = false

-- A response frame, once it is checked against the request.
unfoldable pub route_response :
    Frame → Option Frame → Result ProtocolError (Unit {0}) → Call (Option Frame)
route_response f none (ok _) s = did (some f) s
route_response f (some g) (ok _) s = did (some g) (note_orphan f s)
route_response f correlated (err e) s =
    if is_mismatch e
    then did correlated (note_orphan f (note_error (parser_error e) s))
    else threw (protocol e) s

-- One round of the loop of `_route_frames`.
unfoldable pub route_frame : FrameType → Frame → Frame → Option Frame → Call (Option Frame)
route_frame event asked f correlated s = did correlated (note_event f s)
route_frame request asked f correlated s = did correlated (note_error (unexpected_frame f) s)
route_frame response asked f correlated s =
    route_response f correlated (validate_response asked f) s

unfoldable pub route_frames : Frame → List Frame → Option Frame → Call (Option Frame)
route_frames asked [] correlated s = did correlated s
route_frames asked (f ∷ fs) correlated s =
    (route_frame f.frame_type asked f correlated >>- route_frames asked fs) s

abbrev pub noted : List ProtocolError → List Noted
noted [] = []
noted (e ∷ es) = parser_error e ∷ noted es

-- `_collect_parser_errors`.
unfoldable pub collect_parser_errors : Session → Session
collect_parser_errors s =
    let (errors, p) = pop_errors s.parser in
    record s {
      parser = p;
      protocol_errors = enqueue_all s.queue_limit s.protocol_errors (noted errors);
    }

-- `_route_frames(...)` on what the parser returned, then `_collect_parser_errors()`.
unfoldable pub take_frames : Frame → Fed → Call (Option Frame)
take_frames asked (fed frames p) s =
    (route_frames asked frames none >>- λ found t. did found (collect_parser_errors t))
      (record s { parser = p })
take_frames asked (raised e) s = threw (protocol e) s
take_frames asked running s = threw no_result s

-- `_finish_attempt`.
unfoldable pub finish_attempt : Frame → Call (Option Frame)
finish_attempt asked s = take_frames asked (finish s.parser) s

-- The outcome of the next timed call of the stream.
unfoldable pub next_outcome : List Outcome → Outcome
next_outcome [] = late
next_outcome (o ∷ os) = o

unfoldable pub pass_outcome : Session → Session
pass_outcome s = record s { script = drop 1 s.script }

-- `_send_wire_chunk`.
unfoldable pub send_outcome : Outcome → Call (Unit {0})
send_outcome late s = threw attempt_timed_out s
send_outcome (unset e) s = threw (transport (not_configured e)) s
send_outcome stalls s = threw attempt_timed_out s
send_outcome (fails e) s = threw (transport (send_failed e)) s
send_outcome (gives bytes) s = did tt s

-- Whether `sendall` is called at all.
abbrev pub reaches_stream : Outcome → Bool
reaches_stream late = false
reaches_stream (unset e) = false
reaches_stream _ = true

unfoldable pub send_wire_chunk : List ℕ → Call (Unit {0})
send_wire_chunk wire s =
    let o = next_outcome s.script in
    send_outcome o (
      if reaches_stream o
      then record (pass_outcome s) { sent = s.sent ++ (wire ∷ []) }
      else pass_outcome s)

-- `_wait_for_frame_wake_ack`, for this byte.
unfoldable pub wake_byte : ℕ → List ℕ → Call (Unit {0})
wake_byte ack [] s = threw (transport disconnected) s
wake_byte ack (b ∷ []) s = if b == ack then did tt s else threw attempt_timed_out s
wake_byte ack (b ∷ c ∷ rest) s = threw (transport more_than_one_byte) s

unfoldable pub wake_outcome : ℕ → Outcome → Call (Unit {0})
wake_outcome ack late s = threw attempt_timed_out s
wake_outcome ack (unset e) s = threw (transport (not_configured e)) s
wake_outcome ack stalls s = threw wake_timed_out s
wake_outcome ack (fails e) s = threw (transport (receive_failed e)) s
wake_outcome ack (gives chunk) s = wake_byte ack chunk s

unfoldable pub wait_for_frame_wake_ack : ℕ → Call (Unit {0})
wait_for_frame_wake_ack ack s = wake_outcome ack (next_outcome s.script) (pass_outcome s)

-- `except _FrameWakeAckTimedOut`.
unfoldable pub forgive_wake : Did (Unit {0}) → Did (Unit {0})
forgive_wake (did a s) = did a s
forgive_wake (threw wake_timed_out s) =
    if s.frame_wake_ack_optional then did tt s else threw attempt_timed_out s
forgive_wake (threw e s) = threw e s

-- `_remaining`, and the sleep that follows: the clock's outcome is `late` where the time is up.
unfoldable pub check_clock : Call (Unit {0})
check_clock s = elim (next_outcome s.script) [
  | late ↦ threw attempt_timed_out (pass_outcome s)
  | o ↦ did tt (pass_outcome s)
]

-- The clock is read for the optional wait only.
unfoldable pub clock_if : Bool → Call (Unit {0})
clock_if false s = did tt s
clock_if true s = check_clock s

unfoldable pub send_with_ack : ℕ → List ℕ → Call (Unit {0})
send_with_ack ack wire = send_wire_chunk (take 1 wire) >>- λ _.
    (λ s. clock_if s.frame_wake_ack_optional s) >>- λ _.
    (λ s. forgive_wake (wait_for_frame_wake_ack ack s)) >>- λ _. send_wire_chunk (drop 1 wire)

unfoldable pub send_with_delay : List ℕ → Call (Unit {0})
send_with_delay wire =
    send_wire_chunk (take 1 wire) >>- λ _. check_clock >>- λ _. send_wire_chunk (drop 1 wire)

-- `_send_wire`.
unfoldable pub send_wire : List ℕ → Call (Unit {0})
send_wire wire s = elim s.frame_wake_ack [
  | some ack ↦ send_with_ack ack wire s
  | none ↦ if s.wake_delayed then send_with_delay wire s else send_wire_chunk wire s
]

-- The chunk that a read of `_wait_for_response` returns.
unfoldable pub receive_chunk : Frame → List ℕ → Call (Option Frame)
receive_chunk asked [] s = threw (transport disconnected) s
receive_chunk asked (b ∷ bytes) s = take_frames asked (feed s.parser (b ∷ bytes)) s

unfoldable pub receive_outcome : Frame → Outcome → Call (Option Frame)
receive_outcome asked late s = threw attempt_timed_out s
receive_outcome asked (unset e) s = threw (transport (not_configured e)) s
receive_outcome asked stalls s = threw attempt_timed_out s
receive_outcome asked (fails e) s = threw (transport (receive_failed e)) s
receive_outcome asked (gives chunk) s = receive_chunk asked chunk s

-- What follows a read: the response, or the next read.
unfoldable pub after_receive : Call Frame → Did (Option Frame) → Did Frame
after_receive again (threw e s) = threw e s
after_receive again (did (some f) s) = did f s
after_receive again (did none s) = again s

-- `_wait_for_response`: the loop takes one outcome a round.
unfoldable pub wait_loop : Frame → List Outcome → Call Frame
wait_loop asked [] s = threw attempt_timed_out (record s { script = [] })
wait_loop asked (o ∷ os) s =
    let again = wait_loop asked os in
    after_receive again (receive_outcome asked o (record s { script = os }))

unfoldable pub wait_for_response : Frame → Call Frame
wait_for_response asked s = wait_loop asked s.script s

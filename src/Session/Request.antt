-- ===== src/Session/Request.antt =====
-- `request_frame` and `request` of `V3Session` of server/msx_v3.py.
use msx_ai.Base.{
  ℕ, zero, suc, ◌+◌, Bool, ◌&&◌, Option, none, some, List, length, Result, ok, err, ◌>>=◌, ltb,
  ◌==◌, if◌then◌else◌,
}
use msx_ai.Base.Int.{ℤ, pos}
use msx_ai.Protocol.Frame.{Frame, request, new_frame, is_ok, protocol_version, payload_too_large}
use msx_ai.Protocol.Codec.{encode_frame}
use msx_ai.Protocol.Exchange.{next}
use msx_ai.Session.{
  TransportError, not_configured, timed_out, Signal, transport, write_quarantined, remote_status,
  protocol, attempt_timed_out, Outcome, unset, Session, Did, did, threw, Call, ◌>>-◌, remote_kind,
  quarantine, retry_count, lift_protocol,
}
use msx_ai.Session.Wire.{next_outcome, pass_outcome, send_wire, wait_for_response, finish_attempt}

-- `_successful`.
unfoldable pub successful : Frame → Call Frame
successful f s = if is_ok f then did f s else threw (remote_status (remote_kind f.status) f) s

-- A response is retried where it reports a CRC error and an attempt is left.
unfoldable pub retries_crc : Frame → ℕ → Bool
retries_crc f left = (f.status == 5) && ltb 0 left

-- Sending and waiting, up to the deadline.
unfoldable pub attempt : Frame → List ℕ → Call Frame
attempt asked wire = send_wire wire >>- λ _. wait_for_response asked

-- The loop over the attempts: `left` are left after this one.
module _ (asked : Frame) (wire : List ℕ) (attempts : ℕ) where
  unfoldable pub timeout_error : TransportError
  timeout_error = timed_out asked.sequence asked.opcode attempts

  -- What follows a response: `again` is the next attempt.
  unfoldable pub settle : ℕ → Call Frame → Frame → Call Frame
  settle left again f s = if retries_crc f left then again s else successful f s

  -- The handler of a timeout, once the parser has finished its stream.
  unfoldable pub after_timeout : ℕ → Call Frame → Option Frame → Call Frame
  after_timeout left again (some f) s = settle left again f s
  after_timeout zero again none s = threw (transport timeout_error) (quarantine timeout_error s)
  after_timeout (suc left) again none s = again s

  -- The clauses of the `try` of an attempt.
  unfoldable pub handle : ℕ → Call Frame → Did Frame → Did Frame
  handle left again (did f s) = settle left again f s
  handle left again (threw attempt_timed_out s) =
      (finish_attempt asked >>- after_timeout left again) s
  handle left again (threw (transport e) s) = threw (transport e) (quarantine e s)
  handle left again (threw e s) = threw e s

  unfoldable pub attempt_loop : ℕ → Call Frame
  attempt_loop zero s = handle zero (λ t. threw attempt_timed_out t) (attempt asked wire s)
  attempt_loop (suc left) s =
      let again = attempt_loop left in handle (suc left) again (attempt asked wire s)

-- The `finally` clause: the timeout of the stream is set again, and a failure takes the place of what
-- the loop has returned or raised.
unfoldable pub reset_outcome : Outcome → Did Frame → Did Frame
reset_outcome (unset e) (did f s) =
    threw (transport (not_configured e)) (quarantine (not_configured e) s)
reset_outcome (unset e) (threw x s) =
    threw (transport (not_configured e)) (quarantine (not_configured e) s)
reset_outcome _ result = result

abbrev pub state_of : {A : Type 0} → Did A → Session
state_of (did a s) = s
state_of (threw e s) = s

unfoldable pub with_state : {A : Type 0} → (Session → Session) → Did A → Did A
with_state f (did a s) = did a (f s)
with_state f (threw e s) = threw e (f s)

unfoldable pub finally : Did Frame → Did Frame
finally result =
    reset_outcome (next_outcome (state_of result).script) (with_state pass_outcome result)

-- The request on the wire, with the number that is drawn for it.
unfoldable pub numbered : Frame → ℕ → Frame
numbered f sequence = record f { sequence = sequence }

-- The number is drawn, and the loop runs under its `finally` clause.
unfoldable pub send_numbered : ℕ → Frame → Call Frame
send_numbered retry_limit asked s =
    let (sequence, sequences) = next s.sequences in
    let f = numbered asked sequence in
    finally (
      attempt_loop f (encode_frame f) (retry_limit + 1) retry_limit
        (record s { sequences = sequences }))

unfoldable pub unless_quarantined : Option TransportError → Call Frame → Call Frame
unless_quarantined (some reason) call s = threw (write_quarantined reason) s
unless_quarantined none call s = call s

unfoldable pub unless_too_large : ℕ → Frame → Call Frame
unless_too_large retry_limit asked s =
    if ltb s.max_payload (length asked.payload)
    then threw (protocol (payload_too_large (length asked.payload) s.max_payload)) s
    else send_numbered retry_limit asked s

-- Under the lock, once the arguments are checked.
unfoldable pub send_request : ℕ → Frame → Call Frame
send_request retry_limit asked s =
    unless_quarantined s.quarantine_reason (unless_too_large retry_limit asked) s

unfoldable pub retry_limit_of : Option ℤ → ℕ → Result Signal ℕ
retry_limit_of none own = ok own
retry_limit_of (some retries) own = retry_count retries

-- The checks that come before the lock.
unfoldable pub checked_request : ℤ → List ℕ → Option ℤ → ℤ → ℕ → Result Signal (ℕ × Frame)
checked_request opcode payload retries flags own = do
  retry_limit ← retry_limit_of retries own
  asked ←
      lift_protocol (new_frame request (pos 0) opcode payload flags (pos 0) (pos protocol_version))
  ok (retry_limit, asked)

unfoldable pub once_checked : Result Signal (ℕ × Frame) → Call Frame
once_checked (err e) s = threw e s
once_checked (ok (retry_limit, asked)) s = send_request retry_limit asked s

-- `request_frame(opcode, payload, retries=..., flags=...)`.
unfoldable pub request_frame : ℤ → List ℕ → Option ℤ → ℤ → Call Frame
request_frame opcode payload retries flags s =
    once_checked (checked_request opcode payload retries flags s.retries) s

unfoldable pub request_payload : ℤ → List ℕ → Option ℤ → ℤ → Call (List ℕ)
request_payload opcode payload retries flags =
    request_frame opcode payload retries flags >>- λ f. did f.payload

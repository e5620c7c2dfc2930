-- ===== src/Session.antt =====
-- `V3Session` of server/msx_v3.py: the state of a session, its stream and its queues. The stream and
-- the clock are the list of the outcomes that the session's timed calls of them will have; where it
-- ends, the deadline has passed. The lock makes each method one step.
pub mod Wire
pub mod Request
pub mod Ensures
pub mod Invariant
pub mod Settles
pub mod Ends
pub mod Constructed
pub mod Yields
pub mod Answers
pub mod Reach
pub mod Silence
mod Tests
pub mod Arrival
pub mod Delivery
use msx_ai.Base.{
  ℕ, ◌+◌, Bool, true, false, Option, none, some, String, List, [], ◌∷◌, ◌++◌, length, drop, min,
  Result, ok, err, ◌>>=◌, ◌>>◌, raise_if, leb, ◌==◌, if◌then◌else◌,
}
use msx_ai.Base.Int.{ℤ, pos, negsuc}
use msx_ai.Protocol.Frame.{Frame, ProtocolError, max_wire_payload, protocol_version, wire_int}
use msx_ai.Protocol.Parser.{FrameParser, new_parser}
use msx_ai.Protocol.Exchange.{SequenceCounter, new_counter}

-- V3TransportError with its subclasses. A number stands for the OSError.
pub data TransportError : Type 0 where
  not_configured : ℕ → TransportError
  send_failed : ℕ → TransportError
  receive_failed : ℕ → TransportError
  more_than_one_byte : TransportError
  disconnected : TransportError
  timed_out : (sequence opcode attempts : ℕ) → TransportError

-- The classes of RemoteStatusError.
pub data RemoteKind : Type 0 where
  invalid_opcode invalid_argument invalid_state out_of_range crc_error busy unsupported
        internal_error other_status :
      RemoteKind

-- `_STATUS_ERRORS.get(status, RemoteStatusError)`.
unfoldable pub remote_kind : ℕ → RemoteKind
remote_kind status =
    if status == 1
    then invalid_opcode
    else if status == 2
    then invalid_argument
    else if status == 3
    then invalid_state
    else if status == 4
    then out_of_range
    else if status == 5
    then crc_error
    else if status == 6
    then busy
    else if status == 7
    then unsupported
    else if status == 0x7f
    then internal_error
    else other_status

-- What leaves a method: the session's own exceptions, those of the protocol layer, a refused argument
-- of the constructor, and the two private signals that end an attempt or the wait for a wake byte.
-- `no_result` stands for a parser loop that does not end.
pub data Signal : Type 0 where
  transport : TransportError → Signal
  write_quarantined : TransportError → Signal
  remote_status : RemoteKind → Frame → Signal
  protocol : ProtocolError → Signal
  bad_argument : String → Signal
  attempt_timed_out wake_timed_out no_result : Signal

-- An entry of `_protocol_errors`.
pub data Noted : Type 0 where
  parser_error : ProtocolError → Noted
  unexpected_frame : Frame → Noted

-- How a timed call of the stream ends: its deadline has passed before it, `settimeout` fails, it times
-- out or fails by itself, or it returns. What `sendall` returns is not read. A read gives what the
-- stream returns to `recv(recv_size)`, whose size the session does not check: any number of bytes.
pub data Outcome : Type 0 where
  late : Outcome
  unset : ℕ → Outcome
  stalls : Outcome
  fails : ℕ → Outcome
  gives : List ℕ → Outcome

-- The fields, and the stream: `script` is what it will do, `sent` the arguments of `sendall`.
-- `frame_wake_delay` is known by whether it is positive.
pub record Session : Type 0 where
  pub retries : ℕ
  pub local_max_payload : ℕ
  pub peer_max_payload : ℕ
  pub max_payload : ℕ
  pub wake_delayed : Bool
  pub frame_wake_ack : Option ℕ
  pub frame_wake_ack_optional : Bool
  pub quarantine_on_transport_failure : Bool
  pub queue_limit : ℕ
  pub sequences : SequenceCounter
  pub parser : FrameParser
  pub events : List Frame
  pub orphan_responses : List Frame
  pub protocol_errors : List Noted
  pub quarantine_reason : Option TransportError
  pub script : List Outcome
  pub sent : List (List ℕ)

-- A method call: a value or an exception, and the session that it leaves.
pub data Did (A : Type 0) : Type 0 where
  did : A → Session → Did A
  threw : Signal → Session → Did A

abbrev pub Call : Type 0 → Type 0
Call A = Session → Did A

infixl 5 ◌>>-◌
abbrev pub ◌>>-◌ : {A B : Type 0} → Call A → (A → Call B) → Call B
◌>>-◌ call rest s = elim (call s) [ did a t ↦ rest a t | threw e t ↦ threw e t ]

-- `deque(maxlen=limit)`: a full queue loses its oldest entry.
module _ {A : Type 0} where
  unfoldable pub enqueue : ℕ → List A → A → List A
  enqueue limit queue x =
      if leb limit (length queue) then drop 1 queue ++ (x ∷ []) else queue ++ (x ∷ [])

  unfoldable pub enqueue_all : ℕ → List A → List A → List A
  enqueue_all limit queue [] = queue
  enqueue_all limit queue (x ∷ xs) = enqueue_all limit (enqueue limit queue x) xs

-- `_payload_limit` and `_retry_count`.
unfoldable pub payload_limit : ℤ → String → Result Signal ℕ
payload_limit (pos v) name = if leb v max_wire_payload then ok v else err (bad_argument name)
payload_limit (negsuc v) name = err (bad_argument name)

unfoldable pub retry_count : ℤ → Result Signal ℕ
retry_count (pos v) = ok v
retry_count (negsuc v) = err (bad_argument "retries")

-- `_optional_single_byte`.
unfoldable pub optional_single_byte : Option (List ℕ) → String → Result Signal (Option ℕ)
optional_single_byte none name = ok none
optional_single_byte (some (b ∷ [])) name = ok (some b)
optional_single_byte (some _) name = err (bad_argument name)

unfoldable pub positive : ℤ → String → Result Signal ℕ
positive (pos v) name = if v == 0 then err (bad_argument name) else ok v
positive (negsuc v) name = err (bad_argument name)

abbrev pub lift_protocol {ℓ} : {A : Type ℓ} → Result ProtocolError A → Result Signal A
lift_protocol (ok a) = ok a
lift_protocol (err e) = err (protocol e)

-- The arguments of the constructor; the timeouts are not modelled.
pub record Options : Type 0 where
  pub retries : ℤ
  pub max_payload : ℤ
  pub peer_max_payload : Option ℤ
  pub recv_size : ℤ
  pub sequence_start : ℤ
  pub wake_delayed : Bool
  pub frame_wake_ack : Option (List ℕ)
  pub frame_wake_ack_optional : Bool
  pub quarantine_on_transport_failure : Bool
  pub queue_limit : ℤ

unfoldable pub peer_limit : Option ℤ → Result Signal ℕ
peer_limit none = ok max_wire_payload
peer_limit (some v) = payload_limit v "peer_max_payload"

-- The constructor, up to the call of `_set_stream_timeout` that ends it.
unfoldable pub new_session : Options → List Outcome → Result Signal Session
new_session o script = do
  recv_size ← positive o.recv_size "recv_size"
  queue_limit ← positive o.queue_limit "queue_limit"
  retries ← retry_count o.retries
  local ← payload_limit o.max_payload "max_payload"
  peer ← peer_limit o.peer_max_payload
  ack ← optional_single_byte o.frame_wake_ack "frame_wake_ack"
  sequences ← lift_protocol (new_counter o.sequence_start)
  parser ← lift_protocol (new_parser (pos protocol_version) (pos (min local peer)))
  ok (record {
    retries = retries;
    local_max_payload = local;
    peer_max_payload = peer;
    max_payload = min local peer;
    wake_delayed = o.wake_delayed;
    frame_wake_ack = ack;
    frame_wake_ack_optional = o.frame_wake_ack_optional;
    quarantine_on_transport_failure = o.quarantine_on_transport_failure;
    queue_limit = queue_limit;
    sequences = sequences;
    parser = parser;
    events = [];
    orphan_responses = [];
    protocol_errors = [];
    quarantine_reason = none;
    script = script;
    sent = [];
  })

-- `_quarantine_transport_failure`: the first reason stays.
unfoldable pub quarantine : TransportError → Session → Session
quarantine reason s =
    if s.quarantine_on_transport_failure
    then elim s.quarantine_reason [
      | none ↦ record s { quarantine_reason = some reason }
      | some r ↦ s
    ]
    else s

-- The setter `quarantine_on_terminal_timeout`, and its alias.
unfoldable pub set_quarantine_policy : Bool → Session → Session
set_quarantine_policy value s = record s { quarantine_on_transport_failure = value }

unfoldable pub negotiate_max_payload : ℤ → Call ℕ
negotiate_max_payload peer_max_payload s =
    elim (payload_limit peer_max_payload "peer_max_payload") [
      | err e ↦ threw e s
      | ok peer ↦
          let limit = min s.local_max_payload peer in
          did limit (record s {
            peer_max_payload = peer;
            max_payload = limit;
            parser = record s.parser { max_payload = limit };
          })
    ]

unfoldable pub pop_events : Session → List Frame × Session
pop_events s = (s.events, record s { events = [] })

unfoldable pub pop_orphan_responses : Session → List Frame × Session
pop_orphan_responses s = (s.orphan_responses, record s { orphan_responses = [] })

unfoldable pub pop_protocol_errors : Session → List Noted × Session
pop_protocol_errors s = (s.protocol_errors, record s { protocol_errors = [] })

-- ===== src/Session/Tests.antt =====
-- A session on small streams, and the instances of the theorems on it.
use msx_ai.Base.{
  ℕ, ◌<◌, ◌≡◌, refl, ap, ◌∙◌, true, false, none, some, List, [], ◌∷◌, ◌++◌, length, take, drop,
  length-append, length-take, length-drop, take-append-drop, append-nil, concat, replicate, ok,
  arith,
}
use msx_ai.Base.Int.{pos}
use msx_ai.Protocol.Frame.{Frame, request, response, event, is_ok, new_frame, wire_int}
use msx_ai.Protocol.Codec.{encode_frame, encode_many}
use msx_ai.Protocol.Codec.RoundTrip.{length-encode_frame}
use msx_ai.Protocol.Parser.{new_parser}
use msx_ai.Protocol.Parser.Clean.{Fits}
use msx_ai.Protocol.Exchange.{next, new_counter, validate_response}
use msx_ai.Session.{
  TransportError, timed_out, Outcome, gives, transport, Options, Session, did, threw, new_session,
  payload_limit, retry_count, positive, optional_single_byte, peer_limit, enqueue_all,
  negotiate_max_payload, pop_protocol_errors,
}
use msx_ai.Session.Request.{numbered, checked_request, retry_limit_of, request_frame, state_of}
use msx_ai.Session.Invariant.{IsSession}
use msx_ai.Session.Ends.{Ends, request_frame-Ends}
use msx_ai.Session.Answers.{request_frame_answers}
use msx_ai.Session.Reach.{
  here, then, negotiates, requests, pops_errors, quarantined_stays, reachable-IsSession,
}
use msx_ai.Session.Silence.{idle, idling, silent, request_frame-silent}
use msx_ai.Session.Delivery.{request_frame_delivered}

abbrev options : Options
options = record {
  retries = pos 1;
  max_payload = pos 512;
  peer_max_payload = none;
  recv_size = pos 4096;
  sequence_start = pos 7;
  wake_delayed = false;
  frame_wake_ack = none;
  frame_wake_ack_optional = false;
  quarantine_on_transport_failure = true;
  queue_limit = pos 8;
}

abbrev fresh : List Outcome → Session
fresh script = record {
  retries = 1;
  local_max_payload = 512;
  peer_max_payload = 65535;
  max_payload = 512;
  wake_delayed = false;
  frame_wake_ack = none;
  frame_wake_ack_optional = false;
  quarantine_on_transport_failure = true;
  queue_limit = 8;
  sequences = record { value = 7 };
  parser = idle 3 512;
  events = [];
  orphan_responses = [];
  protocol_errors = [];
  quarantine_reason = none;
  script = script;
  sent = [];
}

fresh-new : (script : List Outcome) → new_session options script ≡ ok (fresh script)
unfolding new_session positive retry_count payload_limit peer_limit optional_single_byte new_counter
    new_parser wire_int
fresh-new script = refl

fresh-IsSession : IsSession (fresh [])
fresh-IsSession = reachable-IsSession options [] (fresh []) (fresh []) tt (fresh-new []) here

abbrev asked : Frame
asked = record {
  frame_type = request;
  sequence = 0;
  opcode = 1;
  payload = 5 ∷ [];
  flags = 1;
  status = 0;
  version = 3;
}

abbrev notice : Frame
notice = record {
  frame_type = event;
  sequence = 2;
  opcode = 9;
  payload = [];
  flags = 0;
  status = 0;
  version = 3;
}

abbrev reply : Frame
reply = record {
  frame_type = response;
  sequence = 7;
  opcode = 1;
  payload = 4 ∷ 2 ∷ [];
  flags = 0;
  status = 0;
  version = 3;
}

asked-checked : checked_request (pos 1) (5 ∷ []) none (pos 1) 1 ≡ ok (1, asked)
unfolding checked_request retry_limit_of new_frame wire_int
asked-checked = refl

notice-Fits : Fits 3 512 notice
notice-Fits = record {
  valid = record {
    sequence_fits = omega arith;
    opcode_fits = omega arith;
    flags_fits = omega arith;
    status_fits = omega arith;
    version_fits = omega arith;
    payload_fits = omega arith;
    payload_bytes = tt;
  };
  version_eq = refl;
  payload_le = omega arith;
}

reply-Fits : Fits 3 512 reply
reply-Fits = record {
  valid = record {
    sequence_fits = omega arith;
    opcode_fits = omega arith;
    flags_fits = omega arith;
    status_fits = omega arith;
    version_fits = omega arith;
    payload_fits = omega arith;
    payload_bytes = (omega arith, (omega arith, tt));
  };
  version_eq = refl;
  payload_le = omega arith;
}

reply-valid : validate_response (numbered asked 7) reply ≡ ok tt
unfolding validate_response numbered
reply-valid = refl

reply-good : is_ok reply ≡ true
unfolding is_ok
reply-good = refl

-- The bytes of the answer, in two reads: the second begins inside the header of the event.
abbrev answer : List ℕ
answer = encode_many (notice ∷ reply ∷ [])

abbrev first_read : List ℕ
first_read = take 5 answer

abbrev second_read : List ℕ
second_read = drop 5 answer

length-answer : length answer ≡ 28
unfolding encode_many
length-answer = omega (
  arith,
  length-append (encode_frame notice) (encode_frame reply ++ []),
  length-append (encode_frame reply) [],
  length-encode_frame notice,
  length-encode_frame reply,
)

reads-answer : concat (first_read ∷ second_read ∷ []) ≡ answer
reads-answer = ap (λ l. first_read ++ l) (append-nil second_read) ∙ take-append-drop 5 answer

first_some : 0 < length first_read
first_some = omega (arith, length-take 5 answer, length-answer)

second_some : 0 < length second_read
second_some = omega (arith, length-drop 5 answer, length-answer)

-- The stream is silent once and then answers.
abbrev late_answer : List Outcome
late_answer = silent 1 (gives [] ∷ gives first_read ∷ gives second_read ∷ [])

abbrev after_answer : Session
after_answer = record (idling (fresh []) [] (replicate 2 (encode_frame (numbered asked 7)))) {
  sequences = (next (record { value = 7 })).1;
  events = enqueue_all 8 [] (notice ∷ []);
}

request_frame_delivered_example :
    request_frame (pos 1) (5 ∷ []) none (pos 1) (idling (fresh []) late_answer [])
    ≡ did reply after_answer
request_frame_delivered_example =
    request_frame_delivered (pos 1) (5 ∷ []) none (pos 1) 1 1 asked reply (notice ∷ []) first_read
      (second_read ∷ []) (fresh []) refl refl refl (omega arith) asked-checked (omega arith)
      (omega arith) (notice-Fits, (reply-Fits, tt)) (refl, tt) reply-valid reply-good
      (first_some, (second_some, tt)) reads-answer

request_frame_answers_example :
    (reply.frame_type ≡ response)
    × (reply.sequence ≡ 7)
    × (pos 1 ≡ pos reply.opcode)
    × (is_ok reply ≡ true)
request_frame_answers_example =
    request_frame_answers (pos 1) (5 ∷ []) none (pos 1) (idling (fresh []) late_answer [])
      after_answer reply request_frame_delivered_example

abbrev time_out : TransportError
time_out = timed_out 7 1 2

abbrev after_silence : Session
after_silence = record (idling (fresh []) [] (replicate 2 (encode_frame (numbered asked 7)))) {
  sequences = (next (record { value = 7 })).1;
  quarantine_reason = some time_out;
}

request_frame-silent_example :
    request_frame (pos 1) (5 ∷ []) none (pos 1) (idling (fresh []) (silent 2 []) [])
    ≡ threw (transport time_out) after_silence
request_frame-silent_example =
    request_frame-silent (pos 1) (5 ∷ []) none (pos 1) 1 asked (fresh []) refl refl refl refl
      asked-checked (omega arith)

request_frame-Ends_example :
    Ends (fresh []) (request_frame (pos 1) (5 ∷ []) none (pos 1) (fresh []))
request_frame-Ends_example =
    request_frame-Ends (pos 1) (5 ∷ []) none (pos 1) (fresh []) fresh-IsSession

-- A refused request, and a look at the errors.
abbrev after_both : Session
after_both =
    (pop_protocol_errors (state_of (request_frame (pos 1) [] none (pos 1) after_silence))).1

quarantined_stays_example :
    (after_both.quarantine_reason ≡ some time_out)
    × (after_both.sent ≡ after_silence.sent)
    × (after_both.script ≡ after_silence.script)
quarantined_stays_example =
    quarantined_stays after_silence after_both time_out
      (then (then here (requests after_silence (pos 1) [] none (pos 1))) (pops_errors _)) refl

abbrev noise : List Outcome
noise = gives (1 ∷ 255 ∷ []) ∷ []

reachable-IsSession_example : IsSession (state_of (negotiate_max_payload (pos 256) (fresh noise)))
reachable-IsSession_example =
    reachable-IsSession options noise (fresh noise) _ ((omega arith, (omega arith, tt)), tt)
      (fresh-new noise) (then here (negotiates (fresh noise) (pos 256)))

-- ===== src/Session/Silence.antt =====
-- A request of server/msx_v3.py on a stream that takes what is sent and does not answer.
use msx_ai.Base.{
  ℕ, zero, suc, ◌+◌, ◌≤◌, ◌≡◌, refl, ap, ◌∙◌, true, false, Option, none, some, List, [], ◌∷◌, ◌++◌,
  append_assoc, append-nil, length, replicate, ok, le→ltb, if◌then◌else◌, arith,
}
use msx_ai.Base.Int.{ℤ}
use msx_ai.Protocol.Frame.{Frame}
use msx_ai.Protocol.Codec.{encode_frame}
use msx_ai.Protocol.Parser.{FrameParser, fed, feed, feed_loop, pop_errors}
use msx_ai.Protocol.Finish.{finish, finish_loop, finish_round, finish_tail, starts_with_magic}
use msx_ai.Protocol.Exchange.{next}
use msx_ai.Session.{
  TransportError, timed_out, Outcome, stalls, gives, transport, attempt_timed_out, Session, did,
  threw, quarantine, enqueue_all,
}
use msx_ai.Session.Wire.{
  next_outcome, pass_outcome, send_outcome, send_wire_chunk, send_wire, collect_parser_errors,
  route_frames, take_frames, finish_attempt, receive_outcome, after_receive, wait_loop,
  wait_for_response,
}
use msx_ai.Session.Request.{
  attempt, timeout_error, after_timeout, handle, attempt_loop, reset_outcome, with_state, finally,
  numbered, send_numbered, unless_quarantined, unless_too_large, send_request, checked_request,
  once_checked, request_frame,
}
use msx_ai.Session.Ensures.{returned}

-- A parser that waits for a frame and has nothing to report.
abbrev pub idle : (version max_payload : ℕ) → FrameParser
idle version max_payload = record {
  version = version;
  max_payload = max_payload;
  buffer = [];
  errors = [];
}

pub finish-idle :
    (version max_payload : ℕ)
    → finish (idle version max_payload) ≡ fed [] (idle version max_payload)
unfolding finish feed feed_loop finish_loop finish_round finish_tail starts_with_magic
finish-idle version max_payload = refl

-- The session with an idle parser, and its stream.
abbrev pub idling : Session → List Outcome → List (List ℕ) → Session
idling s script sent = record s {
  parser = idle s.parser.version s.parser.max_payload;
  script = script;
  sent = sent;
}

-- The stream takes what is sent and does not answer, for so many attempts.
abbrev pub silent : ℕ → List Outcome → List Outcome
silent zero rest = rest
silent (suc n) rest = gives [] ∷ stalls ∷ silent n rest

module _ (asked : Frame) (wire : List ℕ) (s : Session) (no_ack : s.frame_wake_ack ≡ none)
    (no_delay : s.wake_delayed ≡ false) where
  pub send_wire-idling :
      (rest : List Outcome) (sent : List (List ℕ))
      → send_wire wire (idling s (gives [] ∷ rest) sent)
        ≡ did tt (idling s rest (sent ++ wire ∷ []))
  unfolding send_wire send_wire_chunk next_outcome send_outcome pass_outcome
  send_wire-idling rest sent = rw (no_ack, no_delay) refl

  pub finish_attempt-idling :
      (script : List Outcome) (sent : List (List ℕ))
      → finish_attempt asked (idling s script sent) ≡ did none (idling s script sent)
  unfolding finish_attempt take_frames route_frames collect_parser_errors enqueue_all pop_errors
  finish_attempt-idling script sent = rw (finish-idle s.parser.version s.parser.max_payload) refl

  attempt-silent :
      (rest : List Outcome) (sent : List (List ℕ))
      → attempt asked wire (idling s (gives [] ∷ stalls ∷ rest) sent)
        ≡ threw attempt_timed_out (idling s rest (sent ++ wire ∷ []))
  unfolding attempt wait_for_response wait_loop receive_outcome after_receive
  attempt-silent rest sent =
      returned (send_wire wire) (λ _. wait_for_response asked) _ tt _
        (send_wire-idling (stalls ∷ rest) sent)

  module _ (attempts : ℕ) where
    -- An attempt without an answer leads to the next one.
    attempt_loop-silent :
        (left : ℕ) (rest : List Outcome) (sent : List (List ℕ))
        → attempt_loop asked wire attempts (suc left) (idling s (gives [] ∷ stalls ∷ rest) sent)
          ≡ attempt_loop asked wire attempts left (idling s rest (sent ++ wire ∷ []))
    unfolding attempt_loop handle after_timeout
    attempt_loop-silent left rest sent = rw (attempt-silent rest sent) (
        returned (finish_attempt asked)
          (after_timeout asked wire attempts (suc left) (attempt_loop asked wire attempts left)) _
          none _ (finish_attempt-idling rest (sent ++ wire ∷ [])))

    pub attempt_loop-last :
        (rest : List Outcome) (sent : List (List ℕ))
        → attempt_loop asked wire attempts zero (idling s (gives [] ∷ stalls ∷ rest) sent)
          ≡ threw
              (transport (timeout_error asked wire attempts))
              (quarantine (timeout_error asked wire attempts) (idling s rest (sent ++ wire ∷ [])))
    unfolding attempt_loop handle after_timeout
    attempt_loop-last rest sent = rw (attempt-silent rest sent) (
        returned (finish_attempt asked)
          (after_timeout asked wire attempts zero (λ t. threw attempt_timed_out t)) _ none _
          (finish_attempt-idling rest (sent ++ wire ∷ [])))

    pub attempt_loop-silences :
        (n left total : ℕ) (rest : List Outcome) (sent : List (List ℕ))
        → total ≡ n + left
        → attempt_loop asked wire attempts total (idling s (silent n rest) sent)
          ≡ attempt_loop asked wire attempts left (idling s rest (sent ++ replicate n wire))
    attempt_loop-silences zero left total rest sent e =
        let same : total ≡ left = omega arith in
        rw (append-nil sent)
          (ap (λ l. attempt_loop asked wire attempts l (idling s rest sent)) same)
    attempt_loop-silences (suc n) left zero rest sent e = absurd (omega arith)
    attempt_loop-silences (suc n) left (suc total) rest sent e =
        attempt_loop-silent total (silent n rest) sent
        ∙ attempt_loop-silences n left total rest (sent ++ wire ∷ []) (omega arith)
        ∙ ap (λ l. attempt_loop asked wire attempts left (idling s rest l))
            (append_assoc sent (wire ∷ []) (replicate n wire))

    attempt_loop-silent_all :
        (left : ℕ) (sent : List (List ℕ))
        → attempt_loop asked wire attempts left (idling s (silent (suc left) []) sent)
          ≡ threw (transport (timeout_error asked wire attempts)) (
              quarantine
                (timeout_error asked wire attempts)
                (idling s [] (sent ++ replicate (suc left) wire)))
    attempt_loop-silent_all zero sent = attempt_loop-last [] sent
    attempt_loop-silent_all (suc left) sent =
        attempt_loop-silent left (silent (suc left) []) sent
        ∙ attempt_loop-silent_all left (sent ++ wire ∷ [])
        ∙ ap
            (λ l.
              threw (transport (timeout_error asked wire attempts))
                (quarantine (timeout_error asked wire attempts) (idling s [] l)))
            (append_assoc sent (wire ∷ []) (replicate (suc left) wire))

with_reason : TransportError → Session → Session
with_reason e s = record s { quarantine_reason = some e }

set_reason : TransportError → Session → Option TransportError → Session
set_reason e s none = with_reason e s
set_reason e s (some r) = s

quarantine-armed :
    (e : TransportError) (s : Session)
    → s.quarantine_on_transport_failure ≡ true
    → s.quarantine_reason ≡ none
    → quarantine e s ≡ with_reason e s
unfolding quarantine with_reason set_reason
quarantine-armed e s policy free =
    ap (λ b. if b then set_reason e s s.quarantine_reason else s) policy ∙ ap (set_reason e s) free

-- The checks that come before the first attempt, where they pass.
pub request_frame-started :
    (opcode : ℤ) (payload : List ℕ) (retries : Option ℤ) (flags : ℤ) (n : ℕ) (asked : Frame)
    (s : Session)
    → s.quarantine_reason ≡ none
    → checked_request opcode payload retries flags s.retries ≡ ok (n, asked)
    → length asked.payload ≤ s.max_payload
    → request_frame opcode payload retries flags s ≡ send_numbered n asked s
unfolding request_frame once_checked send_request unless_quarantined unless_too_large
request_frame-started opcode payload retries flags n asked s free e fits =
    let small = le→ltb s.max_payload (length asked.payload) fits in
    rw e (ap (λ q. unless_quarantined q (unless_too_large n asked) s) free ∙ rw small refl)

-- A request whose arguments pass the checks, of a session that is not quarantined, has the policy,
-- sends frames whole and has an idle parser, raises V3TimeoutError with the number and the opcode of
-- the request if the stream takes each of its attempts and never answers. It has then sent the same
-- frame once for each attempt, one more than its retries, and is quarantined with that error.
pub request_frame-silent :
    (opcode : ℤ) (payload : List ℕ) (retries : Option ℤ) (flags : ℤ) (n : ℕ) (asked : Frame)
    (s : Session)
    → s.frame_wake_ack ≡ none
    → s.wake_delayed ≡ false
    → s.quarantine_on_transport_failure ≡ true
    → s.quarantine_reason ≡ none
    → checked_request opcode payload retries flags s.retries ≡ ok (n, asked)
    → length asked.payload ≤ s.max_payload
    → request_frame opcode payload retries flags (idling s (silent (suc n) []) s.sent)
      ≡ threw
          (transport (timed_out s.sequences.value asked.opcode (n + 1)))
          (record (idling s []
            (s.sent ++ replicate (suc n) (encode_frame (numbered asked s.sequences.value)))) {
              sequences = (next s.sequences).1;
              quarantine_reason = some (timed_out s.sequences.value asked.opcode (n + 1));
            })
unfolding send_numbered finally numbered next timeout_error with_reason reset_outcome with_state
    pass_outcome next_outcome
request_frame-silent opcode payload retries flags n asked s no_ack no_delay policy free e fits =
    let f : Frame = numbered asked s.sequences.value in
    let wire : List ℕ = encode_frame f in
    let t : Session = record s { sequences = (next s.sequences).1 } in
    request_frame-started opcode payload retries flags n asked (idling s (silent (suc n) []) s.sent)
      free e fits
    ∙ ap finally (
        attempt_loop-silent_all f wire t no_ack no_delay (n + 1) n s.sent
        ∙ ap (threw (transport (timed_out s.sequences.value asked.opcode (n + 1)))) (
            quarantine-armed (timed_out s.sequences.value asked.opcode (n + 1))
              (idling t [] (s.sent ++ replicate (suc n) wire)) policy free))

-- ===== src/Session/Delivery.antt =====
-- A request of server/msx_v3.py on a stream that answers, at once or after silent attempts.
use msx_ai.Base.{
  ℕ, zero, suc, ◌+◌, ◌-◌, ◌≤◌, ◌≡◌, ap, ◌∙◌, true, false, Option, none, List, [], ◌∷◌, ◌++◌,
  append_assoc, length, concat, replicate, All, ok, arith,
}
use msx_ai.Base.Int.{ℤ}
use msx_ai.Protocol.Frame.{Frame, response, is_ok}
use msx_ai.Protocol.Codec.{encode_frame, encode_many}
use msx_ai.Protocol.Parser.Clean.{Fits}
use msx_ai.Protocol.Exchange.{validate_response, validate_response_iff, next}
use msx_ai.Session.{Outcome, gives, attempt_timed_out, Session, did, threw, Call, enqueue_all}
use msx_ai.Session.Wire.{next_outcome, pass_outcome, send_wire, wait_for_response}
use msx_ai.Session.Request.{
  successful, retries_crc, attempt, settle, handle, attempt_loop, reset_outcome, with_state,
  finally, numbered, send_numbered, checked_request, request_frame,
}
use msx_ai.Session.Ensures.{returned}
use msx_ai.Session.Silence.{
  idling, silent, send_wire-idling, attempt_loop-silences, request_frame-started,
}
use msx_ai.Session.Arrival.{
  IsEvent, IsSome, arriving, replicate-snoc, wait_loop-arriving, with_events,
}

module _ (asked reply : Frame) (evs : List Frame) (wire : List ℕ) (s : Session)
    (no_ack : s.frame_wake_ack ≡ none) (no_delay : s.wake_delayed ≡ false)
    (small : s.parser.max_payload ≤ 65535)
    (fits : All (Fits s.parser.version s.parser.max_payload) (evs ++ reply ∷ []))
    (all_events : All IsEvent evs) (valid : validate_response asked reply ≡ ok tt)
    (is_reply : reply.frame_type ≡ response) (good : is_ok reply ≡ true) (c : List ℕ)
    (cs : List (List ℕ)) (filled : All IsSome (c ∷ cs))
    (joined : concat (c ∷ cs) ≡ encode_many (evs ++ reply ∷ [])) where
  attempt-reply :
      (sent : List (List ℕ))
      → attempt asked wire (idling s (gives [] ∷ arriving (c ∷ cs)) sent)
        ≡ did reply (with_events (idling s [] (sent ++ wire ∷ [])) evs)
  unfolding attempt wait_for_response
  attempt-reply sent =
      returned (send_wire wire) (λ _. wait_for_response asked) _ tt _
        (send_wire-idling asked wire s no_ack no_delay (arriving (c ∷ cs)) sent)
      ∙ wait_loop-arriving asked reply valid is_reply c cs evs s [] (arriving (c ∷ cs))
          (sent ++ wire ∷ []) filled small fits all_events joined

  settle-reply :
      (attempts left : ℕ) (again : Call Frame) (t : Session)
      → settle asked wire attempts left again reply t ≡ did reply t
  unfolding settle successful retries_crc is_ok
  settle-reply attempts left again t = ground (arith, good)

  attempt_loop-reply :
      (attempts left : ℕ) (sent : List (List ℕ))
      → attempt_loop asked wire attempts left (idling s (gives [] ∷ arriving (c ∷ cs)) sent)
        ≡ did reply (with_events (idling s [] (sent ++ wire ∷ [])) evs)
  unfolding attempt_loop handle
  attempt_loop-reply attempts zero sent =
      rw (attempt-reply sent) (settle-reply attempts zero (λ t. threw attempt_timed_out t) _)
  attempt_loop-reply attempts (suc left) sent =
      rw (attempt-reply sent)
        (settle-reply attempts (suc left) (attempt_loop asked wire attempts left) _)

-- A request whose arguments pass the checks, of a session that is not quarantined, sends frames whole
-- and has an idle parser, returns the reply if the stream answers none of its first `k` attempts, takes
-- the frame of the next one within its retries, and then gives, in any number of reads of at least one
-- byte each, the bytes of valid event frames and of a valid response without an error that has the
-- number and the opcode of the request. It has then sent the same frame `k + 1` times, has queued the
-- events in order, and has drawn one number; nothing else has changed.
pub request_frame_delivered :
    (opcode : ℤ) (payload : List ℕ) (retries : Option ℤ) (flags : ℤ) (k n : ℕ) (asked reply : Frame)
    (evs : List Frame) (c : List ℕ) (cs : List (List ℕ)) (s : Session)
    → s.frame_wake_ack ≡ none
    → s.wake_delayed ≡ false
    → s.quarantine_reason ≡ none
    → s.parser.max_payload ≤ 65535
    → checked_request opcode payload retries flags s.retries ≡ ok (n, asked)
    → length asked.payload ≤ s.max_payload
    → k ≤ n
    → All (Fits s.parser.version s.parser.max_payload) (evs ++ reply ∷ [])
    → All IsEvent evs
    → validate_response (numbered asked s.sequences.value) reply ≡ ok tt
    → is_ok reply ≡ true
    → All IsSome (c ∷ cs)
    → concat (c ∷ cs) ≡ encode_many (evs ++ reply ∷ [])
    → request_frame opcode payload retries flags
        (idling s (silent k (gives [] ∷ arriving (c ∷ cs))) s.sent)
      ≡ did reply
          (record (idling s []
            (s.sent ++ replicate (suc k) (encode_frame (numbered asked s.sequences.value)))) {
              sequences = (next s.sequences).1;
              events = enqueue_all s.queue_limit s.events evs;
            })
unfolding send_numbered finally numbered next reset_outcome with_state pass_outcome next_outcome
    with_events
request_frame_delivered opcode payload retries flags k n asked reply evs c cs s no_ack no_delay free
      small e fits le valid_all all_events valid good filled joined =
    let f : Frame = numbered asked s.sequences.value in
    let wire : List ℕ = encode_frame f in
    let t : Session = record s { sequences = (next s.sequences).1 } in
    let answer : List Outcome = gives [] ∷ arriving (c ∷ cs) in
    let (_, is_reply, _, _) = (validate_response_iff f reply).0 valid in
    request_frame-started opcode payload retries flags n asked (idling s (silent k answer) s.sent)
      free e fits
    ∙ ap finally (
        attempt_loop-silences f wire t no_ack no_delay (n + 1) k (n - k) n answer s.sent
          (omega arith)
        ∙ attempt_loop-reply f reply evs wire t no_ack no_delay small valid_all all_events valid
            is_reply good c cs filled joined (n + 1) (n - k) (s.sent ++ replicate k wire)
        ∙ ap (λ l. did reply (with_events (idling t [] l) evs))
            (append_assoc s.sent (replicate k wire) (wire ∷ [])
              ∙ ap (λ l. s.sent ++ l) (replicate-snoc k wire)))

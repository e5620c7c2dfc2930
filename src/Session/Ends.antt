-- ===== src/Session/Ends.antt =====
-- How a request of server/msx_v3.py ends: the session that it leaves, and its quarantine.
use msx_ai.Base.{
  ℕ, ◌+◌, ◌≡◌, refl, inl, inr, true, Bool-cases, Option, none, some, List, ok, err, Result-cases,
  ltb, arith, length,
}
use msx_ai.Base.Int.{ℤ}
use msx_ai.Protocol.Frame.{Frame, new_frame}
use msx_ai.Protocol.Codec.{encode_frame}
use msx_ai.Protocol.Exchange.{SequenceCounter, is_request, next}
use msx_ai.Session.{
  TransportError, Signal, transport, write_quarantined, remote_status, protocol, bad_argument,
  attempt_timed_out, wake_timed_out, no_result, Session, Did, did, threw, retry_count,
}
use msx_ai.Session.Request.{
  numbered, send_numbered, unless_quarantined, unless_too_large, send_request, retry_limit_of,
  checked_request, once_checked, request_frame,
}
use msx_ai.Session.Ensures.{Ensures}
use msx_ai.Session.Invariant.{IsSession}
use msx_ai.Session.Settles.{
  Settled, SameReason, Reports, Settles, attempt_loop-Settles, finally-Settles,
}

-- How an exception leaves the session: a refused argument, a payload above the limit or an earlier
-- quarantine leave all of it as it was.
abbrev pub EndsIn : Session → Signal → Session → Type 0
EndsIn s (transport e) t = Reports s (transport e) t.quarantine_reason
EndsIn s (remote_status k f) t = SameReason s t
EndsIn s (write_quarantined reason) t = (s.quarantine_reason ≡ some reason) × (t ≡ s)
EndsIn s (protocol e) t = t ≡ s
EndsIn s (bad_argument e) t = t ≡ s
EndsIn s _ t = ⊥

abbrev pub Ends : Session → Did Frame → Type 0
Ends s d =
    Ensures (λ f t. Settled s t × (s.quarantine_reason ≡ none) × SameReason s t)
      (λ e t. Settled s t × EndsIn s e t) d

settled :
    (s : Session) (numbers : SequenceCounter) (t : Session)
    → Settled (record s { sequences = numbers }) t
    → Settled s t
settled s numbers t w = record { valid = w.valid; policy_kept = w.policy_kept }

Settles-Ends :
    (s : Session) (numbers : SequenceCounter) (d : Did Frame)
    → s.quarantine_reason ≡ none
    → Settles (record s { sequences = numbers }) d
    → Ends s d
Settles-Ends s n (did f t) free (w, r) = (settled s n t w, free, r)
Settles-Ends s n (threw (transport e) t) free (w, r) = (settled s n t w, r)
Settles-Ends s n (threw (remote_status k f) t) free (w, r) = (settled s n t w, r)
Settles-Ends s n (threw (write_quarantined e) t) free c = absurd c.1
Settles-Ends s n (threw (protocol e) t) free c = absurd c.1
Settles-Ends s n (threw (bad_argument e) t) free c = absurd c.1
Settles-Ends s n (threw attempt_timed_out t) free c = absurd c.1
Settles-Ends s n (threw wake_timed_out t) free c = absurd c.1
Settles-Ends s n (threw no_result t) free c = absurd c.1

numbered-IsSession :
    (s : Session) → IsSession s → IsSession (record s { sequences = (next s.sequences).1 })
unfolding next
numbered-IsSession s v = record {
  max_payload_eq = v.max_payload_eq;
  local_fits = v.local_fits;
  peer_fits = v.peer_fits;
  parser_limit = v.parser_limit;
  parser_version = v.parser_version;
  parser_bytes = v.parser_bytes;
  sequence_fits = omega arith;
  queue_some = v.queue_some;
  events_le = v.events_le;
  orphans_le = v.orphans_le;
  errors_le = v.errors_le;
  script_bytes = v.script_bytes;
}

unmoved : (s : Session) → IsSession s → Settled s s
unmoved s v = record { valid = v; policy_kept = refl }

module _ (retry_limit : ℕ) (asked : Frame) (s : Session) (v : IsSession s)
    (is_asked : is_request asked.frame_type ≡ true) where
  send_numbered-Ends : s.quarantine_reason ≡ none → Ends s (send_numbered retry_limit asked s)
  unfolding send_numbered numbered
  send_numbered-Ends free =
      let t : Session = record s { sequences = (next s.sequences).1 } in
      let f : Frame = numbered asked (next s.sequences).0 in
      Settles-Ends s (next s.sequences).1 _ free (
        finally-Settles t _ (
          attempt_loop-Settles f (encode_frame f) (retry_limit + 1) is_asked retry_limit t
            (numbered-IsSession s v)))

  unless_too_large-Ends : s.quarantine_reason ≡ none → Ends s (unless_too_large retry_limit asked s)
  unfolding unless_too_large
  unless_too_large-Ends free = elim (Bool-cases (ltb s.max_payload (length asked.payload))) [
    | inl e ↦ rw e (unmoved s v, refl)
    | inr e ↦ rw e (send_numbered-Ends free)
  ]

  unless_quarantined-Ends :
      (q : Option TransportError)
      → s.quarantine_reason ≡ q
      → Ends s (unless_quarantined q (unless_too_large retry_limit asked) s)
  unfolding unless_quarantined
  unless_quarantined-Ends (some reason) e = (unmoved s v, (e, refl))
  unless_quarantined-Ends none e = unless_too_large-Ends e

  send_request-Ends : Ends s (send_request retry_limit asked s)
  unfolding send_request
  send_request-Ends = unless_quarantined-Ends s.quarantine_reason refl

checked_request-request :
    (opcode : ℤ) (payload : List ℕ) (retries : Option ℤ) (flags : ℤ) (own n : ℕ) (f : Frame)
    → checked_request opcode payload retries flags own ≡ ok (n, f)
    → is_request f.frame_type ≡ true
unfolding checked_request new_frame
checked_request-request opcode payload retries flags own n f e = ground (arith, e)

checked_request-Refused :
    (opcode : ℤ) (payload : List ℕ) (retries : Option ℤ) (flags : ℤ) (s : Session) (e : Signal)
    → checked_request opcode payload retries flags s.retries ≡ err e
    → EndsIn s e s
unfolding checked_request retry_limit_of retry_count
checked_request-Refused opcode payload retries flags s (protocol x) h = refl
checked_request-Refused opcode payload retries flags s (bad_argument x) h = refl
checked_request-Refused opcode payload retries flags s (transport x) h = ground (arith, h)
checked_request-Refused opcode payload retries flags s (write_quarantined x) h = ground (arith, h)
checked_request-Refused opcode payload retries flags s (remote_status k f) h = ground (arith, h)
checked_request-Refused opcode payload retries flags s attempt_timed_out h = ground (arith, h)
checked_request-Refused opcode payload retries flags s wake_timed_out h = ground (arith, h)
checked_request-Refused opcode payload retries flags s no_result h = ground (arith, h)

-- A call of `request_frame` on a valid session leaves a valid session with the same quarantine policy.
-- It returns only where no quarantine was in force, and then there is none. An exception of the
-- transport quarantines the session if it has the policy and else changes no reason, a remote status
-- changes no reason, a quarantine in force, a refused argument and a payload above the limit leave the
-- session as it was, and no other signal leaves the call: neither a private one nor a parser that
-- does not end.
pub request_frame-Ends :
    (opcode : ℤ) (payload : List ℕ) (retries : Option ℤ) (flags : ℤ) (s : Session)
    → IsSession s
    → Ends s (request_frame opcode payload retries flags s)
unfolding request_frame once_checked
request_frame-Ends opcode payload retries flags s v =
    elim (Result-cases (checked_request opcode payload retries flags s.retries)) [
      | inl ((n, f), e) ↦ rw e (
          send_request-Ends n f s v
            (checked_request-request opcode payload retries flags s.retries n f e))
      | inr (x, e) ↦ rw e (unmoved s v, checked_request-Refused opcode payload retries flags s x e)
    ]

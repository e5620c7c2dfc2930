-- ===== src/Session/Reach.antt =====
-- The sessions that the public methods of server/msx_v3.py reach from a constructed one.
use msx_ai.Base.{
  ℕ, ◌≡◌, refl, ◌∙◌, Option, some, List, [], Bool, min, All, ok, Result-cases, ap, inl, inr, arith,
  ◌≤◌, ◌<◌, length,
}
use msx_ai.Base.Int.{ℤ}
use msx_ai.Protocol.Frame.{Frame}
use msx_ai.Session.{
  TransportError, Outcome, Options, Session, Did, did, threw, Noted, new_session, payload_limit,
  negotiate_max_payload, set_quarantine_policy, pop_events, pop_orphan_responses,
  pop_protocol_errors,
}
use msx_ai.Session.Request.{
  request_frame, checked_request, once_checked, send_request, unless_quarantined, state_of,
}
use msx_ai.Session.Invariant.{IsSession, GivesBytes, touched-Carried}
use msx_ai.Session.Constructed.{payload_limit-lt, constructed_valid}
use msx_ai.Session.Ends.{Ends, request_frame-Ends}

-- One call of a public method; `request` keeps the session that `request_frame` leaves.
pub data Step : Session → Session → Type 0 where
  requests :
      (s : Session) (opcode : ℤ) (payload : List ℕ) (retries : Option ℤ) (flags : ℤ)
      → Step s (state_of (request_frame opcode payload retries flags s))
  negotiates : (s : Session) (peer : ℤ) → Step s (state_of (negotiate_max_payload peer s))
  sets_policy : (s : Session) (value : Bool) → Step s (set_quarantine_policy value s)
  pops_events : (s : Session) → Step s (pop_events s).1
  pops_orphans : (s : Session) → Step s (pop_orphan_responses s).1
  pops_errors : (s : Session) → Step s (pop_protocol_errors s).1

pub data Reaches (s : Session) : Session → Type 0 where
  here : Reaches s s
  then : {t u : Session} → Reaches s t → Step t u → Reaches s u

with_limit-IsSession :
    (peer : ℕ) (s : Session)
    → IsSession s
    → peer < 65536
    → IsSession (record s {
      peer_max_payload = peer;
      max_payload = min s.local_max_payload peer;
      parser = record s.parser { max_payload = min s.local_max_payload peer };
    })
with_limit-IsSession peer s v fits = record {
  max_payload_eq = refl;
  local_fits = v.local_fits;
  peer_fits = fits;
  parser_limit = refl;
  parser_version = v.parser_version;
  parser_bytes = v.parser_bytes;
  sequence_fits = v.sequence_fits;
  queue_some = v.queue_some;
  events_le = v.events_le;
  orphans_le = v.orphans_le;
  errors_le = v.errors_le;
  script_bytes = v.script_bytes;
}

with_policy-IsSession :
    (s : Session) (value : Bool) → IsSession s → IsSession (set_quarantine_policy value s)
unfolding set_quarantine_policy
with_policy-IsSession s value v = record {
  max_payload_eq = v.max_payload_eq;
  local_fits = v.local_fits;
  peer_fits = v.peer_fits;
  parser_limit = v.parser_limit;
  parser_version = v.parser_version;
  parser_bytes = v.parser_bytes;
  sequence_fits = v.sequence_fits;
  queue_some = v.queue_some;
  events_le = v.events_le;
  orphans_le = v.orphans_le;
  errors_le = v.errors_le;
  script_bytes = v.script_bytes;
}

negotiate-IsSession :
    (peer : ℤ) (s : Session) → IsSession s → IsSession (state_of (negotiate_max_payload peer s))
unfolding negotiate_max_payload
negotiate-IsSession peer s v = elim (Result-cases (payload_limit peer "peer_max_payload")) [
  | inl (limit, e) ↦
      rw (e, state_of)
        (with_limit-IsSession limit s v (payload_limit-lt peer "peer_max_payload" limit e))
  | inr (x, e) ↦ rw (e, state_of) v
]

with_queues-IsSession :
    (s : Session) (events orphans : List Frame) (errors : List Noted)
    → IsSession s
    → length events ≤ s.queue_limit
    → length orphans ≤ s.queue_limit
    → length errors ≤ s.queue_limit
    → IsSession (record s { events = events; orphan_responses = orphans; protocol_errors = errors })
with_queues-IsSession s events orphans errors v le lo lr =
    (touched-Carried s s.parser events orphans errors s.script s.sent v refl refl v.parser_bytes le
      lo lr v.script_bytes).valid

popped :
    (s : Session)
    → IsSession s
    → IsSession (pop_events s).1
      × IsSession (pop_orphan_responses s).1
      × IsSession (pop_protocol_errors s).1
unfolding pop_events pop_orphan_responses pop_protocol_errors
popped s v = (
  with_queues-IsSession s [] s.orphan_responses s.protocol_errors v (omega arith) v.orphans_le
      v.errors_le,
  with_queues-IsSession s s.events [] s.protocol_errors v v.events_le (omega arith) v.errors_le,
  with_queues-IsSession s s.events s.orphan_responses [] v v.events_le v.orphans_le (omega arith),
)

Ends-IsSession : (s : Session) (d : Did Frame) → Ends s d → IsSession (state_of d)
Ends-IsSession s (did f t) h = h.0.valid
Ends-IsSession s (threw e t) h = h.0.valid

Step-IsSession : {s t : Session} → Step s t → IsSession s → IsSession t
Step-IsSession (requests s opcode payload retries flags) v =
    Ends-IsSession s _ (request_frame-Ends opcode payload retries flags s v)
Step-IsSession (negotiates s peer) v = negotiate-IsSession peer s v
Step-IsSession (sets_policy s value) v = with_policy-IsSession s value v
Step-IsSession (pops_events s) v = (popped s v).0
Step-IsSession (pops_orphans s) v = (popped s v).1
Step-IsSession (pops_errors s) v = (popped s v).2

Reaches-IsSession : {s t : Session} → Reaches s t → IsSession s → IsSession t
Reaches-IsSession here v = v
Reaches-IsSession (then path step) v = Step-IsSession step (Reaches-IsSession path v)

-- Nothing is sent and nothing is read from the stream, and the reason of the quarantine stays.
record IsFrozen (s t : Session) : Type 0 where
  reason_kept : t.quarantine_reason ≡ s.quarantine_reason
  sent_kept : t.sent ≡ s.sent
  script_kept : t.script ≡ s.script

request_frame-Frozen :
    (opcode : ℤ) (payload : List ℕ) (retries : Option ℤ) (flags : ℤ) (s : Session)
    (reason : TransportError)
    → s.quarantine_reason ≡ some reason
    → state_of (request_frame opcode payload retries flags s) ≡ s
unfolding request_frame once_checked send_request unless_quarantined
request_frame-Frozen opcode payload retries flags s reason e =
    elim (Result-cases (checked_request opcode payload retries flags s.retries)) [
      | inl ((n, asked), h) ↦ rw h (rw e refl)
      | inr (x, h) ↦ rw h refl
    ]

negotiate-Frozen : (peer : ℤ) (s : Session) → IsFrozen s (state_of (negotiate_max_payload peer s))
unfolding negotiate_max_payload
negotiate-Frozen peer s = elim (Result-cases (payload_limit peer "peer_max_payload")) [
  | inl (limit, e) ↦
      rw (e, state_of) (record { reason_kept = refl; sent_kept = refl; script_kept = refl })
  | inr (x, e) ↦
      rw (e, state_of) (record { reason_kept = refl; sent_kept = refl; script_kept = refl })
]

Step-Frozen :
    {s t : Session} (reason : TransportError)
    → Step s t
    → s.quarantine_reason ≡ some reason
    → IsFrozen s t
unfolding pop_events pop_orphan_responses pop_protocol_errors set_quarantine_policy
Step-Frozen reason (requests s opcode payload retries flags) e =
    let same = request_frame-Frozen opcode payload retries flags s reason e in
    record {
      reason_kept = ap (λ t. t.quarantine_reason) same;
      sent_kept = ap (λ t. t.sent) same;
      script_kept = ap (λ t. t.script) same;
    }
Step-Frozen reason (negotiates s peer) e = negotiate-Frozen peer s
Step-Frozen reason (sets_policy s value) e = record {
  reason_kept = refl;
  sent_kept = refl;
  script_kept = refl;
}
Step-Frozen reason (pops_events s) e = record {
  reason_kept = refl;
  sent_kept = refl;
  script_kept = refl;
}
Step-Frozen reason (pops_orphans s) e = record {
  reason_kept = refl;
  sent_kept = refl;
  script_kept = refl;
}
Step-Frozen reason (pops_errors s) e = record {
  reason_kept = refl;
  sent_kept = refl;
  script_kept = refl;
}

-- A session that the public methods reach from a quarantined one has the same reason of quarantine,
-- has sent nothing more, and has used nothing more of its stream.
pub quarantined_stays :
    (s t : Session) (reason : TransportError)
    → Reaches s t
    → s.quarantine_reason ≡ some reason
    → (t.quarantine_reason ≡ some reason) × (t.sent ≡ s.sent) × (t.script ≡ s.script)
quarantined_stays s _ reason here e = (e, refl, refl)
quarantined_stays s u reason (then {t = t} path step) e =
    let (r, a, b) = quarantined_stays s t reason path e in
    let f = Step-Frozen reason step r in (f.reason_kept ∙ r, f.sent_kept ∙ a, f.script_kept ∙ b)

-- A session that the public methods reach from a constructed one, on a stream that gives bytes,
-- satisfies the invariant of `IsSession`: the limit in force is the smaller one of both ends and the
-- parser has it, the number fits 16 bits, and no queue is longer than its limit.
pub reachable-IsSession :
    (o : Options) (script : List Outcome) (s t : Session)
    → All GivesBytes script
    → new_session o script ≡ ok s
    → Reaches s t
    → IsSession t
reachable-IsSession o script s t h e path =
    Reaches-IsSession path (constructed_valid o script s e h)

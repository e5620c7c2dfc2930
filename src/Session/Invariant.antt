-- ===== src/Session/Invariant.antt =====
-- The invariant of a session of server/msx_v3.py, and what the calls below a request leave alone.
pub mod Routing
pub mod Calls
use msx_ai.Base.{
  ℕ, ◌+◌, ◌≤◌, ◌<◌, ◌≡◌, refl, ◌∙◌, Bool, List, [], ◌∷◌, length, min, All, Option, arith,
  length-append, length-drop, drop, leb, if◌then◌else◌,
}
use msx_ai.Base.Bytes.{IsByte}
use msx_ai.Protocol.Frame.{Frame}
use msx_ai.Protocol.Parser.{FrameParser}
use msx_ai.Protocol.Parser.Total.{IsParser}
use msx_ai.Protocol.Exchange.{SequenceCounter}
use msx_ai.Session.{
  Noted, Outcome, late, unset, stalls, fails, gives, Session, Signal, transport, write_quarantined,
  remote_status, protocol, bad_argument, attempt_timed_out, wake_timed_out, no_result,
  TransportError, enqueue, enqueue_all,
}

-- What a read returns holds bytes.
abbrev pub GivesBytes : Outcome → Type 0
GivesBytes (gives chunk) = All IsByte chunk
GivesBytes _ = Unit {0}

pub record IsSession (s : Session) : Type 0 where
  pub max_payload_eq : s.max_payload ≡ min s.local_max_payload s.peer_max_payload
  pub local_fits : s.local_max_payload < 65536
  pub peer_fits : s.peer_max_payload < 65536
  pub parser_limit : s.parser.max_payload ≡ s.max_payload
  pub parser_version : s.parser.version ≡ 3
  pub parser_bytes : All IsByte s.parser.buffer
  pub sequence_fits : s.sequences.value < 65536
  pub queue_some : 1 ≤ s.queue_limit
  pub events_le : length s.events ≤ s.queue_limit
  pub orphans_le : length s.orphan_responses ≤ s.queue_limit
  pub errors_le : length s.protocol_errors ≤ s.queue_limit
  pub script_bytes : All GivesBytes s.script

pub IsSession-IsParser : {s : Session} → IsSession s → IsParser s.parser
IsSession-IsParser v = record {
  version_fits = omega (arith, v.parser_version);
  max_payload_fits = omega (arith, v.parser_limit, v.max_payload_eq, v.local_fits);
  buffer_bytes = v.parser_bytes;
}

-- What the calls below a request leave alone.
pub record SameSettings (s t : Session) : Type 0 where
  pub retries_kept : t.retries ≡ s.retries
  pub local_kept : t.local_max_payload ≡ s.local_max_payload
  pub peer_kept : t.peer_max_payload ≡ s.peer_max_payload
  pub limit_kept : t.max_payload ≡ s.max_payload
  pub delay_kept : t.wake_delayed ≡ s.wake_delayed
  pub ack_kept : t.frame_wake_ack ≡ s.frame_wake_ack
  pub policy_kept : t.quarantine_on_transport_failure ≡ s.quarantine_on_transport_failure
  pub sequences_kept : t.sequences ≡ s.sequences
  pub reason_kept : t.quarantine_reason ≡ s.quarantine_reason

pub SameSettings-refl : (s : Session) → SameSettings s s
SameSettings-refl s = record {
  retries_kept = refl;
  local_kept = refl;
  peer_kept = refl;
  limit_kept = refl;
  delay_kept = refl;
  ack_kept = refl;
  policy_kept = refl;
  sequences_kept = refl;
  reason_kept = refl;
}

pub SameSettings-trans : {s t u : Session} → SameSettings s t → SameSettings t u → SameSettings s u
SameSettings-trans a b = record {
  retries_kept = b.retries_kept ∙ a.retries_kept;
  local_kept = b.local_kept ∙ a.local_kept;
  peer_kept = b.peer_kept ∙ a.peer_kept;
  limit_kept = b.limit_kept ∙ a.limit_kept;
  delay_kept = b.delay_kept ∙ a.delay_kept;
  ack_kept = b.ack_kept ∙ a.ack_kept;
  policy_kept = b.policy_kept ∙ a.policy_kept;
  sequences_kept = b.sequences_kept ∙ a.sequences_kept;
  reason_kept = b.reason_kept ∙ a.reason_kept;
}

-- A session that is valid, with the settings of `s`.
pub record Carried (s t : Session) : Type 0 where
  pub valid : IsSession t
  pub same : SameSettings s t

pub Carried-trans : {s t u : Session} → Carried s t → Carried t u → Carried s u
Carried-trans a b = record { valid = b.valid; same = SameSettings-trans a.same b.same }

-- What an attempt may raise: no exception of the parser, and no loop that does not end.
abbrev pub IsCalm : Signal → Type 0
IsCalm (transport e) = Unit {0}
IsCalm attempt_timed_out = Unit {0}
IsCalm _ = ⊥

-- The wait for a wake byte may also time out by itself.
abbrev pub IsWakeCalm : Signal → Type 0
IsWakeCalm wake_timed_out = Unit {0}
IsWakeCalm e = IsCalm e

module _ {A : Type 0} where
  pub enqueue-le :
      (limit : ℕ) (queue : List A) (x : A)
      → 1 ≤ limit
      → length queue ≤ limit
      → length (enqueue limit queue x) ≤ limit
  unfolding enqueue
  enqueue-le limit queue x some_room h = ground (
    arith,
    length-append queue (x ∷ []),
    length-append (drop 1 queue) (x ∷ []),
    length-drop 1 queue,
  )

  pub enqueue_all-le :
      (limit : ℕ) (queue xs : List A)
      → 1 ≤ limit
      → length queue ≤ limit
      → length (enqueue_all limit queue xs) ≤ limit
  unfolding enqueue_all
  enqueue_all-le limit queue [] some_room h = h
  enqueue_all-le limit queue (x ∷ xs) some_room h =
      enqueue_all-le limit (enqueue limit queue x) xs some_room
        (enqueue-le limit queue x some_room h)

-- A session with another parser, other queues and another stream.
abbrev pub touched :
    Session
    → FrameParser
    → List Frame
    → List Frame
    → List Noted
    → List Outcome
    → List (List ℕ)
    → Session
touched s p events orphans errors script sent = record s {
  parser = p;
  events = events;
  orphan_responses = orphans;
  protocol_errors = errors;
  script = script;
  sent = sent;
}

pub touched-Carried :
    (s : Session) (p : FrameParser) (events orphans : List Frame) (errors : List Noted)
    (script : List Outcome) (sent : List (List ℕ))
    → IsSession s
    → p.version ≡ s.parser.version
    → p.max_payload ≡ s.parser.max_payload
    → All IsByte p.buffer
    → length events ≤ s.queue_limit
    → length orphans ≤ s.queue_limit
    → length errors ≤ s.queue_limit
    → All GivesBytes script
    → Carried s (touched s p events orphans errors script sent)
touched-Carried s p events orphans errors script sent v ev em b le lo lr h = record {
  valid = record {
    max_payload_eq = v.max_payload_eq;
    local_fits = v.local_fits;
    peer_fits = v.peer_fits;
    parser_limit = em ∙ v.parser_limit;
    parser_version = ev ∙ v.parser_version;
    parser_bytes = b;
    sequence_fits = v.sequence_fits;
    queue_some = v.queue_some;
    events_le = le;
    orphans_le = lo;
    errors_le = lr;
    script_bytes = h;
  };
  same = record {
    retries_kept = refl;
    local_kept = refl;
    peer_kept = refl;
    limit_kept = refl;
    delay_kept = refl;
    ack_kept = refl;
    policy_kept = refl;
    sequences_kept = refl;
    reason_kept = refl;
  };
}

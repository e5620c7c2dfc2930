-- ===== src/Session/Constructed.antt =====
-- The constructor of server/msx_v3.py and the invariant of its session.
use msx_ai.Base.{
  ℕ, ◌≡◌, sym, ◌∙◌, Option, none, some, List, [], min, All, ok, ap, String, arith, ◌≤◌, ◌<◌, length,
}
use msx_ai.Base.Bytes.{IsByte}
use msx_ai.Base.Int.{ℤ, pos, negsuc}
use msx_ai.Protocol.Frame.{wire_int, protocol_version}
use msx_ai.Protocol.Parser.{FrameParser, new_parser}
use msx_ai.Protocol.Exchange.{SequenceCounter, new_counter}
use msx_ai.Session.{
  Outcome, Options, Session, lift_protocol, new_session, payload_limit, positive, peer_limit,
}
use msx_ai.Session.Invariant.{IsSession, GivesBytes}

positive-some : (z : ℤ) (name : String) (v : ℕ) → positive z name ≡ ok v → 1 ≤ v
unfolding positive
positive-some (pos n) name v e = ground (arith, e)
positive-some (negsuc n) name v e = absurd cc

pub payload_limit-lt : (z : ℤ) (name : String) (v : ℕ) → payload_limit z name ≡ ok v → v < 65536
unfolding payload_limit
payload_limit-lt (pos n) name v e = ground (arith, e)
payload_limit-lt (negsuc n) name v e = absurd cc

peer_limit-lt : (z : Option ℤ) (v : ℕ) → peer_limit z ≡ ok v → v < 65536
unfolding peer_limit
peer_limit-lt none v e = ground (arith, e)
peer_limit-lt (some z) v e = payload_limit-lt z "peer_max_payload" v e

new_counter-lt :
    (z : ℤ) (c : SequenceCounter) → lift_protocol (new_counter z) ≡ ok c → c.value < 65536
unfolding new_counter wire_int
new_counter-lt (pos n) c e = ground (arith, e)
new_counter-lt (negsuc n) c e = ground (arith, e)

new_parser-eq :
    (m : ℕ) (p : FrameParser)
    → lift_protocol (new_parser (pos protocol_version) (pos m)) ≡ ok p
    → p ≡ record { version = 3; max_payload = m; buffer = []; errors = [] }
unfolding new_parser wire_int
new_parser-eq m p e = ground (arith, e)

new_parser-bytes :
    (m : ℕ) (p : FrameParser)
    → p ≡ record { version = 3; max_payload = m; buffer = []; errors = [] }
    → All IsByte p.buffer
new_parser-bytes m p e = rw e tt

module _ (o : Options) (script : List Outcome) (s : Session) (e : new_session o script ≡ ok s) where
  new_session-numbers :
      (positive o.queue_limit "queue_limit" ≡ ok s.queue_limit)
      × (payload_limit o.max_payload "max_payload" ≡ ok s.local_max_payload)
      × (peer_limit o.peer_max_payload ≡ ok s.peer_max_payload)
      × (lift_protocol (new_counter o.sequence_start) ≡ ok s.sequences)
  unfolding new_session
  new_session-numbers = ground (arith, e)

  new_session-limits :
      (s.max_payload ≡ min s.local_max_payload s.peer_max_payload)
      × (lift_protocol
            (new_parser (pos protocol_version) (pos (min s.local_max_payload s.peer_max_payload)))
          ≡ ok s.parser)
  unfolding new_session
  new_session-limits = ground (arith, e)

  new_session-queues :
      (s.events ≡ []) × (s.orphan_responses ≡ []) × (s.protocol_errors ≡ []) × (s.script ≡ script)
  unfolding new_session
  new_session-queues = ground (arith, e)

  -- A constructed session.
  pub constructed_valid : All GivesBytes script → IsSession s
  constructed_valid h =
      let (limit, local, peer, numbers) = new_session-numbers in
      let (least, made) = new_session-limits in
      let (no_events, no_orphans, no_errors, same) = new_session-queues in
      let parser_eq = new_parser-eq (min s.local_max_payload s.peer_max_payload) s.parser made in
      record {
        max_payload_eq = least;
        local_fits = payload_limit-lt o.max_payload "max_payload" s.local_max_payload local;
        peer_fits = peer_limit-lt o.peer_max_payload s.peer_max_payload peer;
        parser_limit = ap (λ q. q.max_payload) parser_eq ∙ sym least;
        parser_version = ap (λ q. q.version) parser_eq;
        parser_bytes = new_parser-bytes _ s.parser parser_eq;
        sequence_fits = new_counter-lt o.sequence_start s.sequences numbers;
        queue_some = positive-some o.queue_limit "queue_limit" s.queue_limit limit;
        events_le = omega (arith, ap length no_events);
        orphans_le = omega (arith, ap length no_orphans);
        errors_le = omega (arith, ap length no_errors);
        script_bytes = rw same h;
      }

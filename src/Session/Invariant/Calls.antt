-- ===== src/Session/Invariant/Calls.antt =====
-- The calls of the stream in server/msx_v3.py, an attempt, and the invariant of a session.
use msx_ai.Base.{
  ℕ, ◌≡◌, refl, Bool, true, false, Bool-cases, Option, none, some, List, [], ◌∷◌, ◌++◌, All,
  All-drop, take, drop, ◌==◌, inl, inr, if◌then◌else◌,
}
use msx_ai.Protocol.Frame.{Frame}
use msx_ai.Protocol.Exchange.{is_request}
use msx_ai.Session.{
  Session, transport, write_quarantined, remote_status, protocol, bad_argument, attempt_timed_out,
  wake_timed_out, no_result, Did, did, threw, Call, Outcome, late, unset, stalls, fails, gives,
}
use msx_ai.Session.Wire.{
  next_outcome, pass_outcome, send_outcome, reaches_stream, send_wire_chunk, wake_byte,
  wake_outcome, wait_for_frame_wake_ack, forgive_wake, check_clock, clock_if, send_with_ack,
  send_with_delay, send_wire, receive_chunk, receive_outcome, after_receive, wait_loop,
  wait_for_response,
}
use msx_ai.Session.Request.{attempt}
use msx_ai.Session.Invariant.{GivesBytes, IsSession, Carried, touched-Carried, IsWakeCalm}
use msx_ai.Session.Invariant.Routing.{
  Keeps, Carries, Carries-from, Carries->>-, Carried-refl, feed-Carries,
}

pub if-Carries :
    {A : Type 0} (b : Bool) (x y : Did A) (s : Session)
    → Carries s x
    → Carries s y
    → Carries s (if b then x else y)
if-Carries true x y s cx cy = cx
if-Carries false x y s cx cy = cy

stream-Carried :
    (s : Session) (script : List Outcome) (sent : List (List ℕ))
    → IsSession s
    → All GivesBytes script
    → Carried s (record s { script = script; sent = sent })
stream-Carried s script sent v h =
    touched-Carried s s.parser s.events s.orphan_responses s.protocol_errors script sent v refl refl
      v.parser_bytes v.events_le v.orphans_le v.errors_le h

pub pass_outcome-Carried : (s : Session) → IsSession s → Carried s (pass_outcome s)
unfolding pass_outcome
pass_outcome-Carried s v =
    stream-Carried s (drop 1 s.script) s.sent v (All-drop GivesBytes 1 s.script v.script_bytes)

send_outcome-Carries : (o : Outcome) (s t : Session) → Carried s t → Carries s (send_outcome o t)
unfolding send_outcome
send_outcome-Carries late s t c = (tt, c)
send_outcome-Carries (unset e) s t c = (tt, c)
send_outcome-Carries stalls s t c = (tt, c)
send_outcome-Carries (fails e) s t c = (tt, c)
send_outcome-Carries (gives bytes) s t c = c

send_wire_chunk-Carries :
    (wire : List ℕ) (s : Session) → IsSession s → Carries s (send_wire_chunk wire s)
unfolding send_wire_chunk pass_outcome
send_wire_chunk-Carries wire s v =
    let rest = All-drop GivesBytes 1 s.script v.script_bytes in
    elim (Bool-cases (reaches_stream (next_outcome s.script))) [
      | inl e ↦ rw e (
          send_outcome-Carries (next_outcome s.script) s _
            (stream-Carried s (drop 1 s.script) (s.sent ++ (wire ∷ [])) v rest))
      | inr e ↦ rw e (
          send_outcome-Carries (next_outcome s.script) s _
            (stream-Carried s (drop 1 s.script) s.sent v rest))
    ]

-- The postcondition of the wait for a wake byte.
abbrev WakeCarries : Session → Did (Unit {0}) → Type 0
WakeCarries s d = Keeps IsWakeCalm s d

wake_byte-WakeCarries :
    (ack : ℕ) (chunk : List ℕ) (s t : Session) → Carried s t → WakeCarries s (wake_byte ack chunk t)
unfolding wake_byte
wake_byte-WakeCarries ack [] s t c = (tt, c)
wake_byte-WakeCarries ack (b ∷ []) s t c = elim (Bool-cases (b == ack)) [
  | inl e ↦ rw e c
  | inr e ↦ rw e (tt, c)
]
wake_byte-WakeCarries ack (b ∷ b' ∷ rest) s t c = (tt, c)

wake_outcome-WakeCarries :
    (ack : ℕ) (o : Outcome) (s t : Session) → Carried s t → WakeCarries s (wake_outcome ack o t)
unfolding wake_outcome
wake_outcome-WakeCarries ack late s t c = (tt, c)
wake_outcome-WakeCarries ack (unset e) s t c = (tt, c)
wake_outcome-WakeCarries ack stalls s t c = (tt, c)
wake_outcome-WakeCarries ack (fails e) s t c = (tt, c)
wake_outcome-WakeCarries ack (gives chunk) s t c = wake_byte-WakeCarries ack chunk s t c

forgive_wake-Carries :
    (d : Did (Unit {0})) (s : Session) → WakeCarries s d → Carries s (forgive_wake d)
unfolding forgive_wake
forgive_wake-Carries (did a t) s c = c
forgive_wake-Carries (threw wake_timed_out t) s c =
    if-Carries t.frame_wake_ack_optional (did tt t) (threw attempt_timed_out t) s c.1 (tt, c.1)
forgive_wake-Carries (threw (transport e) t) s c = c
forgive_wake-Carries (threw (write_quarantined e) t) s c = absurd c.0
forgive_wake-Carries (threw (remote_status k f) t) s c = absurd c.0
forgive_wake-Carries (threw (protocol e) t) s c = absurd c.0
forgive_wake-Carries (threw (bad_argument e) t) s c = absurd c.0
forgive_wake-Carries (threw attempt_timed_out t) s c = c
forgive_wake-Carries (threw no_result t) s c = absurd c.0

check_clock-Carries : (s : Session) → IsSession s → Carries s (check_clock s)
unfolding check_clock
check_clock-Carries s v =
    let c = pass_outcome-Carried s v in
    elim (next_outcome s.script)
      as (λ o. Carries s (elim o as (λ _. Did (Unit {0})) [
        | late ↦ threw attempt_timed_out (pass_outcome s)
        | _ ↦ did tt (pass_outcome s)
      ])) [ late ↦ (tt, c) | unset e ↦ c | stalls ↦ c | fails e ↦ c | gives bytes ↦ c ]

clock_if-Carries : (b : Bool) (s : Session) → IsSession s → Carries s (clock_if b s)
unfolding clock_if
clock_if-Carries false s v = Carried-refl s v
clock_if-Carries true s v = check_clock-Carries s v

wait_for_frame_wake_ack-Carries :
    (ack : ℕ) (s : Session) → IsSession s → Carries s (forgive_wake (wait_for_frame_wake_ack ack s))
unfolding wait_for_frame_wake_ack
wait_for_frame_wake_ack-Carries ack s v = forgive_wake-Carries (wait_for_frame_wake_ack ack s) s (
    wake_outcome-WakeCarries ack (next_outcome s.script) s (pass_outcome s)
      (pass_outcome-Carried s v))

send_with_ack-Carries :
    (ack : ℕ) (wire : List ℕ) (s : Session) → IsSession s → Carries s (send_with_ack ack wire s)
unfolding send_with_ack
send_with_ack-Carries ack wire s v =
    let last = send_wire_chunk-Carries (drop 1 wire) in
    let waited : (t : Session) → IsSession t → Carries t _ = λ t w.
      Carries->>- (λ u. forgive_wake (wait_for_frame_wake_ack ack u))
        (λ _. send_wire_chunk (drop 1 wire)) t (wait_for_frame_wake_ack-Carries ack t w)
        (λ _. last) in
    let timed : (t : Session) → IsSession t → Carries t _ = λ t w.
      Carries->>- (λ u. clock_if u.frame_wake_ack_optional u) _ t
        (clock_if-Carries t.frame_wake_ack_optional t w) (λ _. waited) in
    Carries->>- (send_wire_chunk (take 1 wire)) _ s (send_wire_chunk-Carries (take 1 wire) s v)
      (λ _. timed)

send_with_delay-Carries :
    (wire : List ℕ) (s : Session) → IsSession s → Carries s (send_with_delay wire s)
unfolding send_with_delay
send_with_delay-Carries wire s v =
    let timed : (t : Session) → IsSession t → Carries t _ = λ t w.
      Carries->>- check_clock (λ _. send_wire_chunk (drop 1 wire)) t (check_clock-Carries t w)
        (λ _. send_wire_chunk-Carries (drop 1 wire)) in
    Carries->>- (send_wire_chunk (take 1 wire)) _ s (send_wire_chunk-Carries (take 1 wire) s v)
      (λ _. timed)

pub send_wire-Carries : (wire : List ℕ) (s : Session) → IsSession s → Carries s (send_wire wire s)
unfolding send_wire
send_wire-Carries wire s v =
    elim s.frame_wake_ack
      as (λ a. Carries s (elim a as (λ _. Did (Unit {0})) [
        | some ack ↦ send_with_ack ack wire s
        | none ↦ if s.wake_delayed then send_with_delay wire s else send_wire_chunk wire s
      ])) [
        | some ack ↦ send_with_ack-Carries ack wire s v
        | none ↦
            if-Carries s.wake_delayed _ _ s (send_with_delay-Carries wire s v)
              (send_wire_chunk-Carries wire s v)
      ]

module _ (asked : Frame) (is_asked : is_request asked.frame_type ≡ true) where
  receive_outcome-Carries :
      (o : Outcome) (s : Session)
      → IsSession s
      → GivesBytes o
      → Carries s (receive_outcome asked o s)
  unfolding receive_outcome receive_chunk
  receive_outcome-Carries late s v h = (tt, Carried-refl s v)
  receive_outcome-Carries (unset e) s v h = (tt, Carried-refl s v)
  receive_outcome-Carries stalls s v h = (tt, Carried-refl s v)
  receive_outcome-Carries (fails e) s v h = (tt, Carried-refl s v)
  receive_outcome-Carries (gives []) s v h = (tt, Carried-refl s v)
  receive_outcome-Carries (gives (b ∷ bytes)) s v h = feed-Carries asked is_asked (b ∷ bytes) s v h

  after_receive-Carries :
      (again : Call Frame) (d : Did (Option Frame)) (s : Session)
      → ((t : Session) → IsSession t → Carries t (again t))
      → Carries s d
      → Carries s (after_receive again d)
  unfolding after_receive
  after_receive-Carries again (threw e t) s h c = c
  after_receive-Carries again (did (some f) t) s h c = c
  after_receive-Carries again (did none t) s h c = Carries-from c _ (h t c.valid)

  wait_loop-Carries :
      (os : List Outcome) (s : Session)
      → IsSession s
      → All GivesBytes os
      → Carries s (wait_loop asked os s)
  unfolding wait_loop
  wait_loop-Carries [] s v h = (tt, stream-Carried s [] s.sent v tt)
  wait_loop-Carries (o ∷ os) s v h =
      let start = stream-Carried s os s.sent v h.1 in
      let t : Session = record s { script = os } in
      let got = receive_outcome-Carries o t start.valid h.0 in
      Carries-from start (after_receive (wait_loop asked os) (receive_outcome asked o t)) (
        after_receive-Carries (wait_loop asked os) (receive_outcome asked o t) t
          (λ u w. wait_loop-Carries os u w h.1) got)

  pub attempt-Carries :
      (wire : List ℕ) (s : Session) → IsSession s → Carries s (attempt asked wire s)
  unfolding attempt wait_for_response
  attempt-Carries wire s v =
      Carries->>- (send_wire wire) (λ _. wait_for_response asked) s (send_wire-Carries wire s v)
        (λ _ t w. wait_loop-Carries t.script t w w.script_bytes)

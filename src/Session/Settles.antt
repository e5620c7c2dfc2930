-- ===== src/Session/Settles.antt =====
-- The attempts of a request of server/msx_v3.py and its `finally` clause: the session that they leave,
-- and its quarantine.
use msx_ai.Base.{
  ℕ, zero, suc, ◌<◌, ◌≡◌, refl, sym, ◌∙◌, ◌⊎◌, inl, inr, Bool, true, false, Bool-cases, Option,
  none, some, List, if◌then◌else◌, arith,
}
use msx_ai.Protocol.Frame.{Frame, is_ok}
use msx_ai.Protocol.Exchange.{is_request}
use msx_ai.Session.{
  TransportError, not_configured, Outcome, late, unset, stalls, fails, gives, Signal, transport,
  write_quarantined, remote_status, protocol, bad_argument, attempt_timed_out, wake_timed_out,
  no_result, Session, Did, did, threw, Call, ◌>>-◌, quarantine,
}
use msx_ai.Session.Wire.{next_outcome, pass_outcome, finish_attempt}
use msx_ai.Session.Request.{
  successful, retries_crc, attempt, timeout_error, settle, after_timeout, handle, attempt_loop,
  reset_outcome, state_of, with_state, finally,
}
use msx_ai.Session.Ensures.{Ensures, Ensures->>-, Ensures-weaken}
use msx_ai.Session.Invariant.{IsSession, Carried, Carried-trans}
use msx_ai.Session.Invariant.Routing.{Carries, finish_attempt-Returns}
use msx_ai.Session.Invariant.Calls.{attempt-Carries, pass_outcome-Carried}

-- A valid session under the same quarantine policy.
pub record Settled (s t : Session) : Type 0 where
  pub valid : IsSession t
  pub policy_kept : t.quarantine_on_transport_failure ≡ s.quarantine_on_transport_failure

abbrev pub SameReason : Session → Session → Type 0
SameReason s t = t.quarantine_reason ≡ s.quarantine_reason

abbrev pub IsQuarantined : Session → Type 0
IsQuarantined t = (reason : TransportError) × (t.quarantine_reason ≡ some reason)

abbrev pub IsGiven : Option TransportError → Type 0
IsGiven found = (reason : TransportError) × (found ≡ some reason)

-- What an exception says of the quarantine: one of the transport quarantines a session that has the
-- policy and no other, a remote status changes nothing, and no other exception arises.
abbrev pub Reports : Session → Signal → Option TransportError → Type 0
Reports s (transport e) found =
    ((s.quarantine_on_transport_failure ≡ true) × IsGiven found)
    ⊎ ((s.quarantine_on_transport_failure ≡ false) × (found ≡ s.quarantine_reason))
Reports s (remote_status k f) found = found ≡ s.quarantine_reason
Reports s _ found = ⊥

abbrev pub Settles : Session → Did Frame → Type 0
Settles s d =
    Ensures (λ f t. Settled s t × SameReason s t)
      (λ e t. Settled s t × Reports s e t.quarantine_reason) d

Carried-Settled : {s t : Session} → Carried s t → Settled s t
Carried-Settled c = record { valid = c.valid; policy_kept = c.same.policy_kept }

Settles-from : {s t : Session} → Carried s t → (d : Did Frame) → Settles t d → Settles s d
Settles-from c (did f u) (w, r) = (
  record { valid = w.valid; policy_kept = w.policy_kept ∙ c.same.policy_kept },
  r ∙ c.same.reason_kept,
)
Settles-from c (threw (remote_status k f) u) (w, r) = (
  record { valid = w.valid; policy_kept = w.policy_kept ∙ c.same.policy_kept },
  r ∙ c.same.reason_kept,
)
Settles-from c (threw (transport e) u) (w, inl (p, q)) = (
  record { valid = w.valid; policy_kept = w.policy_kept ∙ c.same.policy_kept },
  inl (sym c.same.policy_kept ∙ p, q),
)
Settles-from c (threw (transport e) u) (w, inr (p, r)) = (
  record { valid = w.valid; policy_kept = w.policy_kept ∙ c.same.policy_kept },
  inr (sym c.same.policy_kept ∙ p, r ∙ c.same.reason_kept),
)
Settles-from c (threw (write_quarantined e) u) (w, r) = absurd r
Settles-from c (threw (protocol e) u) (w, r) = absurd r
Settles-from c (threw (bad_argument e) u) (w, r) = absurd r
Settles-from c (threw attempt_timed_out u) (w, r) = absurd r
Settles-from c (threw wake_timed_out u) (w, r) = absurd r
Settles-from c (threw no_result u) (w, r) = absurd r

with_reason-IsSession :
    (s : Session) (r : Option TransportError)
    → IsSession s
    → IsSession (record s { quarantine_reason = r })
with_reason-IsSession s r v = record {
  max_payload_eq = v.max_payload_eq;
  local_fits = v.local_fits;
  peer_fits = v.peer_fits;
  parser_limit = v.parser_limit;
  parser_version = v.parser_version;
  parser_bytes = v.parser_bytes;
  sequence_fits = v.sequence_fits;
  queue_some = v.queue_some;
  events_le = v.events_le;
  orphans_le = v.orphans_le;
  errors_le = v.errors_le;
  script_bytes = v.script_bytes;
}

true≢false : ¬ (◌≡◌ {A = Bool} true false)
true≢false e = absurd cc

-- The end of a request by an exception of the transport.
quarantine-Settles :
    (e : TransportError) (s t : Session)
    → Settled s t
    → SameReason s t ⊎ ((s.quarantine_on_transport_failure ≡ true) × IsQuarantined t)
    → Settles s (threw (transport e) (quarantine e t))
unfolding quarantine
quarantine-Settles e s t w h = go t.quarantine_on_transport_failure t.quarantine_reason refl refl
  where
    go :
        (b : Bool) (q : Option TransportError)
        → t.quarantine_on_transport_failure ≡ b
        → t.quarantine_reason ≡ q
        → Settles s (
            threw (transport e) (
              if b
              then elim q as (λ _. Session) [
                | none ↦ record t { quarantine_reason = some e }
                | some r ↦ t
              ]
              else t))
    go false q eb eq = elim h [
      | inl r ↦ (w, inr (sym w.policy_kept ∙ eb, r))
      | inr (p, _) ↦ absurd (true≢false (sym p ∙ sym w.policy_kept ∙ eb))
    ]
    go true none eb eq = (
      record { valid = with_reason-IsSession t (some e) w.valid; policy_kept = w.policy_kept },
      inl (sym w.policy_kept ∙ eb, (e, refl)),
    )
    go true (some r) eb eq = (w, inl (sym w.policy_kept ∙ eb, (r, eq)))

successful-Settles :
    (f : Frame) (s t : Session) → Settled s t → SameReason s t → Settles s (successful f t)
unfolding successful
successful-Settles f s t w r = elim (Bool-cases (is_ok f)) [
  | inl e ↦ rw e (w, r)
  | inr e ↦ rw e (w, r)
]

module _ (asked : Frame) (wire : List ℕ) (attempts : ℕ)
    (is_asked : is_request asked.frame_type ≡ true) where
  -- The next attempt, where there is one.
  abbrev Again : ℕ → Call Frame → Type 0
  Again left again = 0 < left → (t : Session) → IsSession t → Settles t (again t)

  settle-Settles :
      (left : ℕ) (again : Call Frame) (f : Frame) (s t : Session)
      → Again left again
      → Carried s t
      → Settles s (settle asked wire attempts left again f t)
  unfolding settle retries_crc
  settle-Settles left again f s t next_one c = elim (Bool-cases (retries_crc f left)) [
    | inl e ↦
        let some_left : 0 < left = ground (arith, e) in
        rw e (Settles-from c (again t) (next_one some_left t c.valid))
    | inr e ↦ rw e (
        Settles-from c (successful f t)
          (successful-Settles f t t (record { valid = c.valid; policy_kept = refl }) refl))
  ]

  after_timeout-Settles :
      (left : ℕ) (again : Call Frame) (found : Option Frame) (s t : Session)
      → Again left again
      → Carried s t
      → Settles s (after_timeout asked wire attempts left again found t)
  unfolding after_timeout
  after_timeout-Settles left again (some f) s t next_one c =
      settle-Settles left again f s t next_one c
  after_timeout-Settles zero again none s t next_one c =
      quarantine-Settles (timeout_error asked wire attempts) s t (Carried-Settled c)
        (inl c.same.reason_kept)
  after_timeout-Settles (suc left) again none s t next_one c =
      Settles-from c (again t) (next_one (omega arith) t c.valid)

  salvage-Settles :
      (left : ℕ) (again : Call Frame) (s t : Session)
      → Again left again
      → Carried s t
      → Settles s ((finish_attempt asked >>- after_timeout asked wire attempts left again) t)
  salvage-Settles left again s t next_one c =
      Ensures->>- (λ _ u. Carried s u) (λ f u. Settled s u × SameReason s u)
        (λ e u. Settled s u × Reports s e u.quarantine_reason) (finish_attempt asked)
        (after_timeout asked wire attempts left again) t
        (Ensures-weaken (λ _ u. Carried t u) (λ _ u. Carried s u) (λ _ u. ⊥ × Carried t u)
          (λ e u. Settled s u × Reports s e u.quarantine_reason) (finish_attempt asked t)
          (finish_attempt-Returns asked is_asked t c.valid) (λ _ u k. Carried-trans c k)
          (λ e u k. absurd k.0))
        (λ found u k. after_timeout-Settles left again found s u next_one k)

  handle-Settles :
      (left : ℕ) (again : Call Frame) (d : Did Frame) (s : Session)
      → Again left again
      → Carries s d
      → Settles s (handle asked wire attempts left again d)
  unfolding handle
  handle-Settles left again (did f t) s next_one c = settle-Settles left again f s t next_one c
  handle-Settles left again (threw attempt_timed_out t) s next_one c =
      salvage-Settles left again s t next_one c.1
  handle-Settles left again (threw (transport e) t) s next_one c =
      quarantine-Settles e s t (Carried-Settled c.1) (inl c.1.same.reason_kept)
  handle-Settles left again (threw (write_quarantined e) t) s next_one c = absurd c.0
  handle-Settles left again (threw (remote_status k f) t) s next_one c = absurd c.0
  handle-Settles left again (threw (protocol e) t) s next_one c = absurd c.0
  handle-Settles left again (threw (bad_argument e) t) s next_one c = absurd c.0
  handle-Settles left again (threw wake_timed_out t) s next_one c = absurd c.0
  handle-Settles left again (threw no_result t) s next_one c = absurd c.0

  pub attempt_loop-Settles :
      (left : ℕ) (s : Session) → IsSession s → Settles s (attempt_loop asked wire attempts left s)
  unfolding attempt_loop
  attempt_loop-Settles zero s v =
      handle-Settles zero (λ t. threw attempt_timed_out t) (attempt asked wire s) s
        (λ none_left. absurd (omega arith)) (attempt-Carries asked is_asked wire s v)
  attempt_loop-Settles (suc left) s v =
      handle-Settles (suc left) (attempt_loop asked wire attempts left) (attempt asked wire s) s
        (λ _ t w. attempt_loop-Settles left t w) (attempt-Carries asked is_asked wire s v)

Reports-reason :
    (s t : Session) (e : Signal)
    → Reports s e t.quarantine_reason
    → SameReason s t ⊎ ((s.quarantine_on_transport_failure ≡ true) × IsQuarantined t)
Reports-reason s t (transport e) (inl q) = inr q
Reports-reason s t (transport e) (inr q) = inl q.1
Reports-reason s t (remote_status k f) q = inl q
Reports-reason s t (write_quarantined e) q = absurd q
Reports-reason s t (protocol e) q = absurd q
Reports-reason s t (bad_argument e) q = absurd q
Reports-reason s t attempt_timed_out q = absurd q
Reports-reason s t wake_timed_out q = absurd q
Reports-reason s t no_result q = absurd q

reset_outcome-Settles :
    (o : Outcome) (s : Session) (d : Did Frame) → Settles s d → Settles s (reset_outcome o d)
unfolding reset_outcome
reset_outcome-Settles (unset e) s (did f t) (w, r) =
    quarantine-Settles (not_configured e) s t w (inl r)
reset_outcome-Settles (unset e) s (threw x t) (w, r) =
    quarantine-Settles (not_configured e) s t w (Reports-reason s t x r)
reset_outcome-Settles late s d c = c
reset_outcome-Settles stalls s d c = c
reset_outcome-Settles (fails e) s d c = c
reset_outcome-Settles (gives bytes) s d c = c

passed : (s t : Session) → Settled s t → Settled s (pass_outcome t)
passed s t w =
    let c = pass_outcome-Carried t w.valid in
    record { valid = c.valid; policy_kept = c.same.policy_kept ∙ w.policy_kept }

passed-Settles : (s : Session) (d : Did Frame) → Settles s d → Settles s (with_state pass_outcome d)
unfolding with_state pass_outcome
passed-Settles s (did f t) (w, r) = (passed s t w, r)
passed-Settles s (threw e t) (w, r) = (passed s t w, r)

pub finally-Settles : (s : Session) (d : Did Frame) → Settles s d → Settles s (finally d)
unfolding finally
finally-Settles s d c =
    reset_outcome-Settles (next_outcome (state_of d).script) s (with_state pass_outcome d)
      (passed-Settles s d c)

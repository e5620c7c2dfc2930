-- ===== src/Session/Answers.antt =====
-- What a request of server/msx_v3.py returns.
use msx_ai.Base.{
  ℕ, ◌+◌, ◌≡◌, sym, ap, ◌∙◌, true, Option, none, some, List, ok, Result-cases, inl, inr, ltb,
  length, arith,
}
use msx_ai.Base.Int.{ℤ, pos}
use msx_ai.Protocol.Frame.{Frame, response, is_ok, new_frame}
use msx_ai.Protocol.Codec.{encode_frame}
use msx_ai.Protocol.Exchange.{validate_response_iff, next}
use msx_ai.Session.{
  TransportError, Outcome, late, unset, stalls, fails, gives, Session, Did, did, threw,
}
use msx_ai.Session.Request.{
  reset_outcome, with_state, finally, numbered, send_numbered, unless_quarantined, unless_too_large,
  send_request, checked_request, once_checked, request_frame,
}
use msx_ai.Session.Wire.{pass_outcome}
use msx_ai.Session.Ensures.{Ensures-weaken}
use msx_ai.Session.Yields.{Yields, Yields-if, Good, attempt_loop-Yields}

reset_outcome-Yields :
    (P : Frame → Type 0) (o : Outcome) (d : Did Frame) → Yields P d → Yields P (reset_outcome o d)
unfolding reset_outcome
reset_outcome-Yields P (unset e) (did f s) h = tt
reset_outcome-Yields P (unset e) (threw x s) h = tt
reset_outcome-Yields P late d h = h
reset_outcome-Yields P stalls d h = h
reset_outcome-Yields P (fails e) d h = h
reset_outcome-Yields P (gives bytes) d h = h

passed-Yields :
    (P : Frame → Type 0) (d : Did Frame) → Yields P d → Yields P (with_state pass_outcome d)
unfolding with_state
passed-Yields P (did f s) h = h
passed-Yields P (threw e s) h = h

-- What a caller may read off a response: its type, its number, its operation, and success.
pub record IsAnswer (sequence opcode : ℕ) (f : Frame) : Type 0 where
  pub type_eq : f.frame_type ≡ response
  pub sequence_eq : f.sequence ≡ sequence
  pub opcode_eq : f.opcode ≡ opcode
  pub is_good : is_ok f ≡ true

Good-IsAnswer : (asked f : Frame) → Good asked f → IsAnswer asked.sequence asked.opcode f
Good-IsAnswer asked f (h, good) =
    let (_, t, q, o) = (validate_response_iff asked f).0 h in
    record { type_eq = t; sequence_eq = q; opcode_eq = o; is_good = good }

module _ (n : ℕ) (asked : Frame) (s : Session) where
  abbrev Answered : Frame → Type 0
  Answered = IsAnswer s.sequences.value asked.opcode

  send_numbered-Yields : Yields Answered (send_numbered n asked s)
  unfolding send_numbered finally numbered next
  send_numbered-Yields =
      let f : Frame = numbered asked s.sequences.value in
      reset_outcome-Yields Answered _ _ (
        passed-Yields Answered _ (
          Ensures-weaken (λ g _. Good f g) (λ g _. Answered g) (λ _ _. Unit {0}) (λ _ _. Unit {0}) _
            (attempt_loop-Yields f (encode_frame f) (n + 1) n _) (λ g _ h. Good-IsAnswer f g h)
            (λ _ _ _. tt)))

  unless_quarantined-Yields :
      (q : Option TransportError)
      → Yields Answered (unless_quarantined q (unless_too_large n asked) s)
  unfolding unless_quarantined unless_too_large
  unless_quarantined-Yields (some reason) = tt
  unless_quarantined-Yields none =
      Yields-if Answered (ltb s.max_payload (length asked.payload)) _ _ tt send_numbered-Yields

checked_request-opcode :
    (opcode : ℤ) (payload : List ℕ) (retries : Option ℤ) (flags : ℤ) (own n : ℕ) (asked : Frame)
    → checked_request opcode payload retries flags own ≡ ok (n, asked)
    → opcode ≡ pos asked.opcode
unfolding checked_request new_frame
checked_request-opcode (pos o) payload retries flags own n asked e = ground (arith, e)
checked_request-opcode o payload retries flags own n asked e = absurd (ground (arith, e))

abbrev Answer : ℤ → Session → Frame → Type 0
Answer opcode s f =
    (f.frame_type ≡ response)
    × (f.sequence ≡ s.sequences.value)
    × (opcode ≡ pos f.opcode)
    × (is_ok f ≡ true)

request_frame-Yields :
    (opcode : ℤ) (payload : List ℕ) (retries : Option ℤ) (flags : ℤ) (s : Session)
    → Yields (Answer opcode s) (request_frame opcode payload retries flags s)
unfolding request_frame once_checked send_request
request_frame-Yields opcode payload retries flags s =
    elim (Result-cases (checked_request opcode payload retries flags s.retries)) [
      | inl ((n, asked), e) ↦
          let named = checked_request-opcode opcode payload retries flags s.retries n asked e in
          rw e (
            Ensures-weaken (λ g _. Answered n asked s g) (λ g _. Answer opcode s g)
              (λ _ _. Unit {0}) (λ _ _. Unit {0}) _
              (unless_quarantined-Yields n asked s s.quarantine_reason)
              (λ g _ h. (h.type_eq, h.sequence_eq, named ∙ ap pos (sym h.opcode_eq), h.is_good))
              (λ _ _ _. tt))
      | inr (x, e) ↦ rw e tt
    ]

-- The frame that a request returns is a response without an error that carries the sequence number
-- which the session had next and the opcode of the request.
pub request_frame_answers :
    (opcode : ℤ) (payload : List ℕ) (retries : Option ℤ) (flags : ℤ) (s t : Session) (f : Frame)
    → request_frame opcode payload retries flags s ≡ did f t
    → (f.frame_type ≡ response)
      × (f.sequence ≡ s.sequences.value)
      × (opcode ≡ pos f.opcode)
      × (is_ok f ≡ true)
request_frame_answers opcode payload retries flags s t f e =
    rw e at (request_frame-Yields opcode payload retries flags s)

-- ===== src/Session/Yields.antt =====
-- What the attempts of a request of server/msx_v3.py return.
use msx_ai.Base.{
  ℕ, zero, suc, ◌≡◌, refl, Bool, true, false, Bool-cases, Option, none, some, List, [], ◌∷◌, Result,
  ok, err, inl, inr, if◌then◌else◌,
}
use msx_ai.Protocol.Frame.{Frame, FrameType, request, response, event, ProtocolError, is_ok}
use msx_ai.Protocol.Parser.{Fed, fed, raised, running, feed}
use msx_ai.Protocol.Exchange.{validate_response}
use msx_ai.Session.{
  Outcome, late, unset, stalls, fails, gives, transport, write_quarantined, remote_status, protocol,
  bad_argument, attempt_timed_out, wake_timed_out, no_result, Session, Did, did, threw, Call, ◌>>-◌,
}
use msx_ai.Session.Wire.{
  is_mismatch, route_response, route_frame, route_frames, take_frames, finish_attempt,
  receive_chunk, receive_outcome, after_receive, wait_loop, wait_for_response, send_wire,
  collect_parser_errors,
}
use msx_ai.Session.Request.{
  successful, retries_crc, attempt, settle, after_timeout, handle, attempt_loop,
}
use msx_ai.Session.Ensures.{Ensures, Ensures->>-}

-- A postcondition of the value alone.
abbrev pub Yields : {A : Type 0} → (A → Type 0) → Did A → Type 0
Yields P d = Ensures (λ a _. P a) (λ _ _. Unit {0}) d

Yields->>- :
    {A B : Type 0} (P : A → Type 0) (R : B → Type 0) (call : Call A) (rest : A → Call B)
    (s : Session)
    → Yields P (call s)
    → ((a : A) (t : Session) → P a → Yields R (rest a t))
    → Yields R ((call >>- rest) s)
Yields->>- P R call rest s h k =
    Ensures->>- (λ a _. P a) (λ b _. R b) (λ _ _. Unit {0}) call rest s h k

pub Yields-if :
    {A : Type 0} (P : A → Type 0) (b : Bool) (x y : Did A)
    → Yields P x
    → Yields P y
    → Yields P (if b then x else y)
Yields-if P true x y hx hy = hx
Yields-if P false x y hx hy = hy

any : {A : Type 0} (d : Did A) → Yields (λ _. Unit {0}) d
any (did a s) = tt
any (threw e s) = tt

module _ (asked : Frame) where
  abbrev pub Answers : Frame → Type 0
  Answers f = validate_response asked f ≡ ok tt

  abbrev AnswersIfAny : Option Frame → Type 0
  AnswersIfAny none = Unit {0}
  AnswersIfAny (some f) = Answers f

  route_response-Yields :
      (f : Frame) (correlated : Option Frame) (r : Result ProtocolError (Unit {0})) (s : Session)
      → AnswersIfAny correlated
      → validate_response asked f ≡ r
      → Yields AnswersIfAny (route_response f correlated r s)
  unfolding route_response
  route_response-Yields f none (ok _) s h e = e
  route_response-Yields f (some g) (ok _) s h e = h
  route_response-Yields f correlated (err x) s h e = Yields-if AnswersIfAny (is_mismatch x) _ _ h tt

  route_frame-Yields :
      (t : FrameType) (f : Frame) (correlated : Option Frame) (s : Session)
      → AnswersIfAny correlated
      → Yields AnswersIfAny (route_frame t asked f correlated s)
  unfolding route_frame
  route_frame-Yields event f correlated s h = h
  route_frame-Yields request f correlated s h = h
  route_frame-Yields response f correlated s h =
      route_response-Yields f correlated (validate_response asked f) s h refl

  route_frames-Yields :
      (fs : List Frame) (correlated : Option Frame) (s : Session)
      → AnswersIfAny correlated
      → Yields AnswersIfAny (route_frames asked fs correlated s)
  unfolding route_frames
  route_frames-Yields [] correlated s h = h
  route_frames-Yields (f ∷ fs) correlated s h =
      Yields->>- AnswersIfAny AnswersIfAny (route_frame f.frame_type asked f correlated)
        (route_frames asked fs) s (route_frame-Yields f.frame_type f correlated s h)
        (λ found t k. route_frames-Yields fs found t k)

  take_frames-Yields : (x : Fed) (s : Session) → Yields AnswersIfAny (take_frames asked x s)
  unfolding take_frames
  take_frames-Yields (fed fs p) s =
      Yields->>- AnswersIfAny AnswersIfAny (route_frames asked fs none)
        (λ found t. did found (collect_parser_errors t)) (record s { parser = p })
        (route_frames-Yields fs none (record s { parser = p }) tt) (λ found t k. k)
  take_frames-Yields (raised e) s = tt
  take_frames-Yields running s = tt

  receive_outcome-Yields :
      (o : Outcome) (s : Session) → Yields AnswersIfAny (receive_outcome asked o s)
  unfolding receive_outcome receive_chunk
  receive_outcome-Yields late s = tt
  receive_outcome-Yields (unset e) s = tt
  receive_outcome-Yields stalls s = tt
  receive_outcome-Yields (fails e) s = tt
  receive_outcome-Yields (gives []) s = tt
  receive_outcome-Yields (gives (b ∷ bytes)) s = take_frames-Yields (feed s.parser (b ∷ bytes)) s

  after_receive-Yields :
      (again : Call Frame) (d : Did (Option Frame))
      → ((t : Session) → Yields Answers (again t))
      → Yields AnswersIfAny d
      → Yields Answers (after_receive again d)
  unfolding after_receive
  after_receive-Yields again (threw e t) k h = tt
  after_receive-Yields again (did (some f) t) k h = h
  after_receive-Yields again (did none t) k h = k t

  wait_loop-Yields : (os : List Outcome) (s : Session) → Yields Answers (wait_loop asked os s)
  unfolding wait_loop
  wait_loop-Yields [] s = tt
  wait_loop-Yields (o ∷ os) s =
      after_receive-Yields (wait_loop asked os) (receive_outcome asked o (record s { script = os }))
        (λ t. wait_loop-Yields os t) (receive_outcome-Yields o (record s { script = os }))

  attempt-Yields : (wire : List ℕ) (s : Session) → Yields Answers (attempt asked wire s)
  unfolding attempt wait_for_response
  attempt-Yields wire s =
      Yields->>- (λ _. Unit {0}) Answers (send_wire wire) (λ _. wait_for_response asked) s
        (any (send_wire wire s)) (λ _ t _. wait_loop-Yields t.script t)

  -- The answer of a request that succeeded.
  abbrev pub Good : Frame → Type 0
  Good f = Answers f × (is_ok f ≡ true)

  successful-Yields : (f : Frame) (s : Session) → Answers f → Yields Good (successful f s)
  unfolding successful
  successful-Yields f s h = elim (Bool-cases (is_ok f)) [ inl e ↦ rw e (h, e) | inr e ↦ rw e tt ]

  module _ (wire : List ℕ) (attempts : ℕ) where
    settle-Yields :
        (left : ℕ) (again : Call Frame) (f : Frame) (s : Session)
        → ((t : Session) → Yields Good (again t))
        → Answers f
        → Yields Good (settle asked wire attempts left again f s)
    unfolding settle
    settle-Yields left again f s k h =
        Yields-if Good (retries_crc f left) (again s) (successful f s) (k s)
          (successful-Yields f s h)

    after_timeout-Yields :
        (left : ℕ) (again : Call Frame) (found : Option Frame) (s : Session)
        → ((t : Session) → Yields Good (again t))
        → AnswersIfAny found
        → Yields Good (after_timeout asked wire attempts left again found s)
    unfolding after_timeout
    after_timeout-Yields left again (some f) s k h = settle-Yields left again f s k h
    after_timeout-Yields zero again none s k h = tt
    after_timeout-Yields (suc left) again none s k h = k s

    handle-Yields :
        (left : ℕ) (again : Call Frame) (d : Did Frame)
        → ((t : Session) → Yields Good (again t))
        → Yields Answers d
        → Yields Good (handle asked wire attempts left again d)
    unfolding handle finish_attempt
    handle-Yields left again (did f s) k h = settle-Yields left again f s k h
    handle-Yields left again (threw attempt_timed_out s) k h =
        Yields->>- AnswersIfAny Good (finish_attempt asked)
          (after_timeout asked wire attempts left again) s (take_frames-Yields _ s)
          (λ found t a. after_timeout-Yields left again found t k a)
    handle-Yields left again (threw (transport e) s) k h = tt
    handle-Yields left again (threw (write_quarantined e) s) k h = tt
    handle-Yields left again (threw (remote_status r f) s) k h = tt
    handle-Yields left again (threw (protocol e) s) k h = tt
    handle-Yields left again (threw (bad_argument e) s) k h = tt
    handle-Yields left again (threw wake_timed_out s) k h = tt
    handle-Yields left again (threw no_result s) k h = tt

    pub attempt_loop-Yields :
        (left : ℕ) (s : Session) → Yields Good (attempt_loop asked wire attempts left s)
    unfolding attempt_loop
    attempt_loop-Yields zero s =
        handle-Yields zero (λ t. threw attempt_timed_out t) (attempt asked wire s) (λ _. tt)
          (attempt-Yields wire s)
    attempt_loop-Yields (suc left) s =
        handle-Yields (suc left) (attempt_loop asked wire attempts left) (attempt asked wire s)
          (λ t. attempt_loop-Yields left t) (attempt-Yields wire s)

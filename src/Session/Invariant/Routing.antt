-- ===== src/Session/Invariant/Routing.antt =====
-- The routing of frames in server/msx_v3.py and the invariant of a session.
use msx_ai.Base.{ℕ, ◌≡◌, refl, true, Option, none, some, List, [], ◌∷◌, All, Result, ok, err, arith}
use msx_ai.Base.Bytes.{IsByte}
use msx_ai.Protocol.Frame.{Frame, FrameType, request, response, event, ProtocolError}
use msx_ai.Protocol.Parser.{FrameParser, Fed, fed, feed, pop_errors}
use msx_ai.Protocol.Parser.Total.{feed_total}
use msx_ai.Protocol.Finish.{finish}
use msx_ai.Protocol.Finish.Total.{finish_total}
use msx_ai.Protocol.Finish.Kept.{Kept, feed-Kept, finish-Kept}
use msx_ai.Protocol.Exchange.{validate_response, is_request, is_response}
use msx_ai.Session.{
  Session, Signal, Noted, Did, did, threw, Call, ◌>>-◌, parser_error, unexpected_frame, enqueue,
  enqueue_all,
}
use msx_ai.Session.Wire.{
  note_error, note_event, note_orphan, is_mismatch, route_response, route_frame, route_frames,
  noted, collect_parser_errors, take_frames, finish_attempt,
}
use msx_ai.Session.Ensures.{Ensures, Ensures->>-, Ensures-weaken}
use msx_ai.Session.Invariant.{
  IsSession, IsSession-IsParser, SameSettings-refl, Carried, Carried-trans, touched-Carried, IsCalm,
  enqueue-le, enqueue_all-le,
}

-- A call that keeps the session valid and its settings, and raises only what `P` allows.
abbrev pub Keeps : (Signal → Type 0) → {A : Type 0} → Session → Did A → Type 0
Keeps P s d = Ensures (λ _ t. Carried s t) (λ e t. P e × Carried s t) d

-- A call that raises nothing.
abbrev pub Returns : {A : Type 0} → Session → Did A → Type 0
Returns s d = Keeps (λ _. ⊥) s d

abbrev pub Carries : {A : Type 0} → Session → Did A → Type 0
Carries s d = Keeps IsCalm s d

pub Keeps-from :
    (P : Signal → Type 0) {A : Type 0} {s t : Session}
    → Carried s t
    → (d : Did A) → Keeps P t d
    → Keeps P s d
Keeps-from P {s = s} {t = t} c d h =
    Ensures-weaken (λ _ u. Carried t u) (λ _ u. Carried s u) (λ e u. P e × Carried t u)
      (λ e u. P e × Carried s u) d h (λ _ u k. Carried-trans c k)
      (λ e u k. (k.0, Carried-trans c k.1))

pub Keeps->>- :
    (P : Signal → Type 0) {A B : Type 0} (call : Call A) (rest : A → Call B) (s : Session)
    → Keeps P s (call s)
    → ((a : A) (t : Session) → IsSession t → Keeps P t (rest a t))
    → Keeps P s ((call >>- rest) s)
Keeps->>- P call rest s h k =
    Ensures->>- (λ _ t. Carried s t) (λ _ t. Carried s t) (λ e t. P e × Carried s t) call rest s h
      (λ a t c. Keeps-from P c (rest a t) (k a t c.valid))

pub Carries-from :
    {A : Type 0} {s t : Session} → Carried s t → (d : Did A) → Carries t d → Carries s d
Carries-from = Keeps-from IsCalm

pub Carries->>- :
    {A B : Type 0} (call : Call A) (rest : A → Call B) (s : Session)
    → Carries s (call s)
    → ((a : A) (t : Session) → IsSession t → Carries t (rest a t))
    → Carries s ((call >>- rest) s)
Carries->>- = Keeps->>- IsCalm

pub Returns-Carries : {A : Type 0} (s : Session) (d : Did A) → Returns s d → Carries s d
Returns-Carries s (did a t) c = c
Returns-Carries s (threw e t) c = absurd c.0

pub Carried-refl : (s : Session) → IsSession s → Carried s s
Carried-refl s v = record { valid = v; same = SameSettings-refl s }

module _ (s : Session) (v : IsSession s) where
  note_error-Carried : (n : Noted) → Carried s (note_error n s)
  unfolding note_error
  note_error-Carried n =
      touched-Carried s s.parser s.events s.orphan_responses
        (enqueue s.queue_limit s.protocol_errors n) s.script s.sent v refl refl v.parser_bytes
        v.events_le v.orphans_le
        (enqueue-le s.queue_limit s.protocol_errors n v.queue_some v.errors_le) v.script_bytes

  note_event-Carried : (f : Frame) → Carried s (note_event f s)
  unfolding note_event
  note_event-Carried f =
      touched-Carried s s.parser (enqueue s.queue_limit s.events f) s.orphan_responses
        s.protocol_errors s.script s.sent v refl refl v.parser_bytes
        (enqueue-le s.queue_limit s.events f v.queue_some v.events_le) v.orphans_le v.errors_le
        v.script_bytes

  note_orphan-Carried : (f : Frame) → Carried s (note_orphan f s)
  unfolding note_orphan
  note_orphan-Carried f =
      touched-Carried s s.parser s.events (enqueue s.queue_limit s.orphan_responses f)
        s.protocol_errors s.script s.sent v refl refl v.parser_bytes v.events_le
        (enqueue-le s.queue_limit s.orphan_responses f v.queue_some v.orphans_le) v.errors_le
        v.script_bytes

  collect_parser_errors-Carried : Carried s (collect_parser_errors s)
  unfolding collect_parser_errors pop_errors
  collect_parser_errors-Carried =
      touched-Carried s (record s.parser { errors = [] }) s.events s.orphan_responses
        (enqueue_all s.queue_limit s.protocol_errors (noted s.parser.errors)) s.script s.sent v refl
        refl v.parser_bytes v.events_le v.orphans_le
        (enqueue_all-le s.queue_limit s.protocol_errors (noted s.parser.errors) v.queue_some
          v.errors_le)
        v.script_bytes

-- A response is checked against a request, so only its numbers can differ.
validate_response-mismatch :
    (asked f : Frame) (e : ProtocolError)
    → is_request asked.frame_type ≡ true
    → is_response f.frame_type ≡ true
    → validate_response asked f ≡ err e
    → is_mismatch e ≡ true
unfolding validate_response
validate_response-mismatch asked f e a r h = ground (arith, a, r, h)

module _ (asked : Frame) (is_asked : is_request asked.frame_type ≡ true) where
  route_response-Returns :
      (f : Frame) (correlated : Option Frame) (r : Result ProtocolError (Unit {0})) (s : Session)
      → IsSession s
      → is_response f.frame_type ≡ true
      → validate_response asked f ≡ r
      → Returns s (route_response f correlated r s)
  unfolding route_response
  route_response-Returns f none (ok _) s v is_reply e = Carried-refl s v
  route_response-Returns f (some g) (ok _) s v is_reply e = note_orphan-Carried s v f
  route_response-Returns f correlated (err x) s v is_reply e =
      let mismatch = validate_response-mismatch asked f x is_asked is_reply e in
      let noted_x = note_error-Carried s v (parser_error x) in
      rw mismatch (
        Carried-trans noted_x (note_orphan-Carried (note_error (parser_error x) s) noted_x.valid f))

  route_frame-Returns :
      (t : FrameType) (f : Frame) (correlated : Option Frame) (s : Session)
      → IsSession s
      → f.frame_type ≡ t
      → Returns s (route_frame t asked f correlated s)
  unfolding route_frame
  route_frame-Returns event f correlated s v e = note_event-Carried s v f
  route_frame-Returns request f correlated s v e = note_error-Carried s v (unexpected_frame f)
  route_frame-Returns response f correlated s v e =
      route_response-Returns f correlated (validate_response asked f) s v (rw e refl) refl

  pub route_frames-Returns :
      (fs : List Frame) (correlated : Option Frame) (s : Session)
      → IsSession s
      → Returns s (route_frames asked fs correlated s)
  unfolding route_frames
  route_frames-Returns [] correlated s v = Carried-refl s v
  route_frames-Returns (f ∷ fs) correlated s v =
      Keeps->>- (λ _. ⊥) (route_frame f.frame_type asked f correlated) (route_frames asked fs) s
        (route_frame-Returns f.frame_type f correlated s v refl)
        (λ found t w. route_frames-Returns fs found t w)

  with_parser-Carried :
      (s : Session) (q : FrameParser)
      → IsSession s
      → Kept s.parser q
      → All IsByte q.buffer
      → Carried s (record s { parser = q })
  with_parser-Carried s q v k b =
      touched-Carried s q s.events s.orphan_responses s.protocol_errors s.script s.sent v
        k.version_kept k.max_payload_kept b v.events_le v.orphans_le v.errors_le v.script_bytes

  take_frames-Returns :
      (x : Fed) (fs : List Frame) (q : FrameParser) (s : Session)
      → IsSession s
      → x ≡ fed fs q
      → Kept s.parser q
      → All IsByte q.buffer
      → Returns s (take_frames asked x s)
  unfolding take_frames
  take_frames-Returns x fs q s v e k b =
      let start = with_parser-Carried s q v k b in
      let t : Session = record s { parser = q } in
      let routed =
        Keeps->>- (λ _. ⊥) (route_frames asked fs none)
          (λ found u. did found (collect_parser_errors u)) t
          (route_frames-Returns fs none t start.valid)
          (λ found u w. collect_parser_errors-Carried u w) in
      rw e (Keeps-from (λ _. ⊥) start _ routed)

  pub finish_attempt-Returns : (s : Session) → IsSession s → Returns s (finish_attempt asked s)
  unfolding finish_attempt
  finish_attempt-Returns s v =
      let (fs, q, e, b, _) = finish_total s.parser (IsSession-IsParser v) in
      take_frames-Returns (finish s.parser) fs q s v e (finish-Kept s.parser q fs e) (rw b tt)

  pub feed-Carries :
      (bytes : List ℕ) (s : Session)
      → IsSession s
      → All IsByte bytes
      → Carries s (take_frames asked (feed s.parser bytes) s)
  feed-Carries bytes s v h =
      let (fs, q, e, w) = feed_total s.parser bytes (IsSession-IsParser v) h in
      Returns-Carries s (take_frames asked (feed s.parser bytes) s) (
        take_frames-Returns (feed s.parser bytes) fs q s v e (feed-Kept s.parser q bytes fs e)
          w.buffer_bytes)

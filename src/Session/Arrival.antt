-- ===== src/Session/Arrival.antt =====
-- The reads of a request of server/msx_v3.py whose answer arrives in parts.
use msx_ai.Base.{
  ℕ, zero, suc, ◌≤◌, ◌<◌, ◌≡◌, refl, sym, ap, ◌∙◌, Option, none, some, append-split, length-append,
  List, [], ◌∷◌, ◌++◌, append-nil, length, concat, replicate, All, All-append_inv, ok, arith,
}
use msx_ai.Protocol.Frame.{Frame, event, response}
use msx_ai.Protocol.Codec.{encode_many}
use msx_ai.Protocol.Parser.{fed, feed, pop_errors}
use msx_ai.Protocol.Parser.Clean.{Fits}
use msx_ai.Protocol.Parser.Partial.{keeping, feed-partial}
use msx_ai.Protocol.Exchange.{validate_response}
use msx_ai.Session.{Outcome, gives, Session, did, enqueue, enqueue_all}
use msx_ai.Session.Wire.{
  collect_parser_errors, route_response, route_frame, route_frames, note_event, take_frames,
  receive_chunk, receive_outcome, after_receive, wait_loop,
}
use msx_ai.Session.Ensures.{returned}
use msx_ai.Session.Silence.{idle, idling}

abbrev pub IsEvent : Frame → Type 0
IsEvent f = f.frame_type ≡ event

unfoldable pub with_events : Session → List Frame → Session
with_events s evs = record s { events = enqueue_all s.queue_limit s.events evs }

route_frame-answer :
    (asked reply : Frame) (s : Session)
    → validate_response asked reply ≡ ok tt
    → route_frame response asked reply none s ≡ did (some reply) s
unfolding route_frame route_response
route_frame-answer asked reply s valid = rw valid refl

-- Events enter their queue in order, before the response that follows them.
route_frames-events :
    (asked reply : Frame) (evs : List Frame) (s : Session)
    → All IsEvent evs
    → validate_response asked reply ≡ ok tt
    → reply.frame_type ≡ response
    → route_frames asked (evs ++ reply ∷ []) none s ≡ did (some reply) (with_events s evs)
unfolding route_frames route_frame route_response note_event enqueue_all with_events
route_frames-events asked reply [] s h valid is_reply =
    returned (route_frame reply.frame_type asked reply none) (route_frames asked []) s (some reply)
      s
      (ap (λ t. route_frame t asked reply none s) is_reply ∙ route_frame-answer asked reply s valid)
route_frames-events asked reply (f ∷ evs) s h valid is_reply =
    returned (route_frame f.frame_type asked f none) (route_frames asked (evs ++ reply ∷ [])) s none
      (note_event f s) (ap (λ t. route_frame t asked f none s) h.0)
    ∙ route_frames-events asked reply evs (note_event f s) h.1 valid is_reply

receive_chunk-some :
    (asked : Frame) (chunk : List ℕ) (s : Session)
    → 0 < length chunk
    → receive_chunk asked chunk s ≡ take_frames asked (feed s.parser chunk) s
unfolding receive_chunk
receive_chunk-some asked [] s h = absurd (omega arith)
receive_chunk-some asked (b ∷ bytes) s h = refl

pub replicate-snoc : {A : Type 0} (n : ℕ) (a : A) → replicate n a ++ a ∷ [] ≡ replicate (suc n) a
replicate-snoc zero a = refl
replicate-snoc (suc n) a = ap (λ l. a ∷ l) (replicate-snoc n a)

-- What a session holds between two reads: the bytes that wait in its parser, and its stream.
abbrev partway : Session → List ℕ → List Outcome → List (List ℕ) → Session
partway s waiting script sent = record s {
  parser = keeping (idle s.parser.version s.parser.max_payload) waiting;
  script = script;
  sent = sent;
}

-- The reads that give these bytes.
abbrev pub arriving : List (List ℕ) → List Outcome
arriving [] = []
arriving (c ∷ cs) = gives c ∷ arriving cs

abbrev pub IsSome : List ℕ → Type 0
IsSome c = 0 < length c

enqueue_all-append :
    {A : Type 0} (limit : ℕ) (q xs ys : List A)
    → enqueue_all limit q (xs ++ ys) ≡ enqueue_all limit (enqueue_all limit q xs) ys
unfolding enqueue_all
enqueue_all-append limit q [] ys = refl
enqueue_all-append limit q (x ∷ xs) ys = enqueue_all-append limit (enqueue limit q x) xs ys

-- Events alone are queued, and no response is found.
route_frames-only_events :
    (asked : Frame) (evs : List Frame) (s : Session)
    → All IsEvent evs
    → route_frames asked evs none s ≡ did none (with_events s evs)
unfolding route_frames route_frame note_event enqueue_all with_events
route_frames-only_events asked [] s h = refl
route_frames-only_events asked (f ∷ evs) s h =
    returned (route_frame f.frame_type asked f none) (route_frames asked evs) s none
      (note_event f s) (ap (λ t. route_frame t asked f none s) h.0)
    ∙ route_frames-only_events asked evs (note_event f s) h.1

-- The frames that a read completes are routed, and nothing else is collected.
receive-routed :
    (asked : Frame) (s : Session) (c waiting left : List ℕ) (whole : List Frame)
    (script : List Outcome) (sent : List (List ℕ)) (found : Option Frame) (evs : List Frame)
    → IsSome c
    → feed (keeping (idle s.parser.version s.parser.max_payload) waiting) c
      ≡ fed whole (keeping (idle s.parser.version s.parser.max_payload) left)
    → route_frames asked whole none (partway s left script sent)
      ≡ did found (with_events (partway s left script sent) evs)
    → receive_outcome asked (gives c) (partway s waiting script sent)
      ≡ did found (with_events (partway s left script sent) evs)
unfolding receive_outcome take_frames collect_parser_errors pop_errors with_events enqueue_all
receive-routed asked s c waiting left whole script sent found evs filled fed_eq routed =
    let t : Session = partway s waiting script sent in
    receive_chunk-some asked c t filled
    ∙ ap (λ x. take_frames asked x t) fed_eq
    ∙ returned (route_frames asked whole none) (λ r u. did r (collect_parser_errors u)) _ found
        (with_events (partway s left script sent) evs) routed

module _ (asked reply : Frame) (valid : validate_response asked reply ≡ ok tt)
    (is_reply : reply.frame_type ≡ response) where
  -- The loop reads on until the response is there, however the reads cut the frames.
  pub wait_loop-arriving :
      (c : List ℕ) (cs : List (List ℕ)) (evs : List Frame) (s : Session) (waiting : List ℕ)
      (script : List Outcome) (sent : List (List ℕ))
      → All IsSome (c ∷ cs)
      → s.parser.max_payload ≤ 65535
      → All (Fits s.parser.version s.parser.max_payload) (evs ++ reply ∷ [])
      → All IsEvent evs
      → waiting ++ concat (c ∷ cs) ≡ encode_many (evs ++ reply ∷ [])
      → wait_loop asked (arriving (c ∷ cs)) (partway s waiting script sent)
        ≡ did reply (with_events (idling s [] sent) evs)
  unfolding wait_loop after_receive with_events
  wait_loop-arriving c [] evs s waiting script sent filled small fits all_events e =
      let (k, ek) =
        feed-partial (keeping (idle s.parser.version s.parser.max_payload) waiting) c []
          (evs ++ reply ∷ []) small fits e in
      let done = k.ended refl in
      let empty : k.waiting ≡ [] =
        sym (append-nil k.waiting) ∙ k.front ∙ ap encode_many done ∙ (unfold encode_many in refl) in
      let all_whole : k.whole ≡ evs ++ reply ∷ [] =
        sym (append-nil k.whole) ∙ ap (λ l. k.whole ++ l) (sym done) ∙ sym k.split in
      ap (after_receive (wait_loop asked [])) (
        receive-routed asked s c waiting [] (evs ++ reply ∷ []) [] sent (some reply) evs filled.0
          (rw (all_whole, empty) at ek)
          (route_frames-events asked reply evs (partway s [] [] sent) all_events valid is_reply))
  wait_loop-arriving c (d ∷ ds) evs s waiting script sent filled small fits all_events e =
      let (k, ek) =
        feed-partial (keeping (idle s.parser.version s.parser.max_payload) waiting) c
          (concat (d ∷ ds)) (evs ++ reply ∷ []) small fits e in
      let some_left : 0 < length k.left = left_some k.left (k.waiting ++ concat (d ∷ ds)) k.front (
        omega (
          arith,
          filled.1.0,
          length-append k.waiting (d ++ concat ds),
          length-append d (concat ds),
        )) in
      let (later, split, rest) = append-split evs k.whole (reply ∷ []) k.left k.split (
        omega (
          arith,
          some_left,
          ap length k.split,
          length-append evs (reply ∷ []),
          length-append k.whole k.left,
        )) in
      let (whole_events, later_events) =
        All-append_inv IsEvent k.whole later (rw split at all_events) in
      let later_fits : All (Fits s.parser.version s.parser.max_payload) (later ++ reply ∷ []) =
        rw (sym rest) at
          (All-append_inv (Fits s.parser.version s.parser.max_payload) k.whole k.left
            (rw k.split at fits)).1 in
      let t : Session = with_events s k.whole in
      ap (after_receive (wait_loop asked (arriving (d ∷ ds)))) (
        receive-routed asked s c waiting k.waiting k.whole (arriving (d ∷ ds)) sent none k.whole
          filled.0 ek
          (route_frames-only_events asked k.whole (partway s k.waiting (arriving (d ∷ ds)) sent)
            whole_events))
      ∙ wait_loop-arriving d ds later t k.waiting (arriving (d ∷ ds)) sent filled.1 small later_fits
          later_events (k.front ∙ ap encode_many (sym rest))
      ∙ ap (λ q. did reply (record (idling s [] sent) { events = q }))
          (sym (enqueue_all-append s.queue_limit s.events k.whole later)
            ∙ ap (enqueue_all s.queue_limit s.events) (sym split))
    where
      left_some :
          (fs : List Frame) (bytes : List ℕ)
          → bytes ≡ encode_many fs
          → 0 < length bytes
          → 0 < length fs
      left_some [] bytes h l =
          let empty : bytes ≡ [] = h ∙ (unfold encode_many in refl) in
          absurd (omega (arith, l, ap length empty))
      left_some (f ∷ fs) bytes h l = omega arith

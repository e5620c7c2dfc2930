-- ===== src/Protocol/Parser/Feed.antt =====
-- The loop of `feed` of server/msx_protocol.py against the relation on streams: what it returns,
-- whenever it returns.
use msx_ai.Base.{
  ℕ, zero, suc, ◌≡◌, refl, sym, ◌∙◌, List, [], ◌∷◌, ◌++◌, length, drop, List-cases, arith, inl, inr,
}
use msx_ai.Protocol.Frame.{Frame, ProtocolError}
use msx_ai.Protocol.Parser.{
  FrameParser, wait, retry, deliver, escape, feed_round, Fed, fed, raised, running, add_frame,
  feed_loop, extend, feed,
}
use msx_ai.Protocol.Parser.Round.{waits, retries, delivers, escapes, feed_round-Explained}
use msx_ai.Protocol.Parser.Stream.{sync, inspect, more, bad, good, Scans, pause, skip, emit}

-- A run of the loop that ends with frames reads the stream in the buffer, and keeps the settings.
pub record Read (v m : ℕ) (b : List ℕ) (fs : List Frame) (q : FrameParser) : Type 0 where
  pub scanned : Scans v m b fs q.buffer
  pub version_kept : q.version ≡ v
  pub max_payload_kept : q.max_payload ≡ m

fed-injective : {fs gs : List Frame} {p q : FrameParser} → fed fs p ≡ fed gs q → (fs ≡ gs) × (p ≡ q)
fed-injective e = (cc, cc)

add_frame-fed :
    (f : Frame) (r : Fed) (gs : List Frame) (q : FrameParser)
    → add_frame f r ≡ fed gs q
    → (fs : List Frame) × (r ≡ fed fs q) × (gs ≡ f ∷ fs)
add_frame-fed f (fed fs p) gs q e = (fs, cc, cc)
add_frame-fed f (raised x) gs q e = absurd cc
add_frame-fed f running gs q e = absurd cc

inspect-nil : (v m : ℕ) → inspect v m [] ≡ more
unfolding inspect
inspect-nil v m = refl

-- The equations of the loop.
module _ (fuel : ℕ) (p : FrameParser) where
  pub feed_loop-empty : p.buffer ≡ [] → feed_loop (suc fuel) p ≡ fed [] p
  unfolding feed_loop
  feed_loop-empty e = ground arith

  module _ (x : ℕ) (xs : List ℕ) (filled : p.buffer ≡ x ∷ xs) where
    pub feed_loop-wait :
        (q : FrameParser) → feed_round p ≡ wait q → feed_loop (suc fuel) p ≡ fed [] q
    unfolding feed_loop
    feed_loop-wait q e = ground arith

    pub feed_loop-retry :
        (q : FrameParser) → feed_round p ≡ retry q → feed_loop (suc fuel) p ≡ feed_loop fuel q
    unfolding feed_loop
    feed_loop-retry q e = ground arith

    pub feed_loop-deliver :
        (f : Frame) (q : FrameParser)
        → feed_round p ≡ deliver f q
        → feed_loop (suc fuel) p ≡ add_frame f (feed_loop fuel q)
    unfolding feed_loop
    feed_loop-deliver f q e = ground arith

    feed_loop-escape :
        (e : ProtocolError) → feed_round p ≡ escape e → feed_loop (suc fuel) p ≡ raised e
    unfolding feed_loop
    feed_loop-escape x e = ground arith

module _ (v m : ℕ) (q : FrameParser) where
  Read-pause :
      (b : List ℕ) (r : FrameParser)
      → inspect v m (sync b) ≡ more
      → r.buffer ≡ sync b
      → r.version ≡ v
      → r.max_payload ≡ m
      → r ≡ q
      → Read v m b [] q
  Read-pause b r w es ev em e =
      rw (← e)
        (record { scanned = pause (sym es) (rw es w); version_kept = ev; max_payload_kept = em })

  Read-skip :
      (b : List ℕ) (fs : List Frame)
      → inspect v m (sync b) ≡ bad
      → Read v m (drop 1 (sync b)) fs q
      → Read v m b fs q
  Read-skip b fs w d = record {
    scanned = skip w d.scanned;
    version_kept = d.version_kept;
    max_payload_kept = d.max_payload_kept;
  }

  Read-emit :
      (b : List ℕ) (f : Frame) (n : ℕ) (fs : List Frame)
      → inspect v m (sync b) ≡ good f n
      → Read v m (drop n (sync b)) fs q
      → Read v m b (f ∷ fs) q
  Read-emit b f n fs w d = record {
    scanned = emit w d.scanned;
    version_kept = d.version_kept;
    max_payload_kept = d.max_payload_kept;
  }

-- The loop reads the stream in the buffer: its frames, and what waits for more bytes.
pub feed_loop-Read :
    (fuel : ℕ) (p : FrameParser) (fs : List Frame) (q : FrameParser)
    → feed_loop fuel p ≡ fed fs q
    → Read p.version p.max_payload p.buffer fs q
feed_loop-Read zero p fs q e = absurd (unfold feed_loop in cc)
feed_loop-Read (suc fuel) p fs q e = elim (List-cases p.buffer) [
  | inl eb ↦
      let (efs, eq) = fed-injective (sym (feed_loop-empty fuel p eb) ∙ e) in
      rw (← efs) (
        Read-pause p.version p.max_payload q p.buffer p
          (rw eb (unfold sync in inspect-nil p.version p.max_payload)) (rw eb (unfold sync in refl))
          refl refl eq)
  | inr (x, xs, eb) ↦ elim (feed_round-Explained p) [
    | waits r er w es ev em ↦
        let (efs, eq) = fed-injective (sym (feed_loop-wait fuel p x xs eb r er) ∙ e) in
        rw (← efs) (Read-pause p.version p.max_payload q p.buffer r w es ev em eq)
    | retries r er w es ev em ↦ Read-skip p.version p.max_payload q p.buffer fs w (
        rw (es, ev, em) at
          (feed_loop-Read fuel r fs q (sym (feed_loop-retry fuel p x xs eb r er) ∙ e)))
    | delivers f n r er w es ev em ↦
        let (gs, eg, ef) =
          add_frame-fed f (feed_loop fuel r) fs q
            (sym (feed_loop-deliver fuel p x xs eb f r er) ∙ e) in
        rw ef (
          Read-emit p.version p.max_payload q p.buffer f n gs w
            (rw (es, ev, em) at (feed_loop-Read fuel r gs q eg)))
    | escapes y er ↦ absurd (cc (sym e, feed_loop-escape fuel p x xs eb y er))
  ]
]

pub feed-Read :
    (p : FrameParser) (bytes : List ℕ) (fs : List Frame) (q : FrameParser)
    → feed p bytes ≡ fed fs q
    → Read p.version p.max_payload (p.buffer ++ bytes) fs q
unfolding feed
feed-Read p bytes fs q e = feed_loop-Read (suc (length (p.buffer ++ bytes))) (extend p bytes) fs q e

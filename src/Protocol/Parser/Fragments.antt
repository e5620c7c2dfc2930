-- ===== src/Protocol/Parser/Fragments.antt =====
-- How a transport cuts the stream does not matter to `FrameParser.feed` of server/msx_protocol.py.
use msx_ai.Base.{
  ℕ, ◌≡◌, refl, sym, ap, ◌∙◌, List, [], ◌∷◌, ◌++◌, All, All-append, append-nil, append_assoc,
  concat,
}
use msx_ai.Base.Bytes.{IsByte}
use msx_ai.Protocol.Frame.{Frame}
use msx_ai.Protocol.Parser.{FrameParser, Fed, fed, raised, running, feed}
use msx_ai.Protocol.Parser.Feed.{feed-Read}
use msx_ai.Protocol.Parser.Total.{IsParser, feed_total}
use msx_ai.Protocol.Parser.Stream.{Scans-append, Scans-unique}

-- Bytes that come in two parts give the frames, in order, that they give at once, and leave the same
-- bytes waiting.
pub feed-append :
    (p : FrameParser) (xs ys : List ℕ) {fs gs : List Frame} {p' p'' : FrameParser}
    → IsParser p
    → All IsByte xs
    → All IsByte ys
    → feed p xs ≡ fed fs p'
    → feed p' ys ≡ fed gs p''
    → (q : FrameParser) × (feed p (xs ++ ys) ≡ fed (fs ++ gs) q) × (q.buffer ≡ p''.buffer)
feed-append p xs ys {fs} {gs} {p'} {p''} v hx hy ex ey =
    let (hs, q, eq, _) = feed_total p (xs ++ ys) v (All-append IsByte xs ys hx hy) in
    let first = feed-Read p xs fs p' ex in
    let second = feed-Read p' ys gs p'' ey in
    let whole = feed-Read p (xs ++ ys) hs q eq in
    let joined = rw append_assoc at (
      Scans-append ys first.scanned
        (rw (first.version_kept, first.max_payload_kept) at second.scanned)) in
    let (ef, eb) = Scans-unique whole.scanned joined in (q, rw (← ef) eq, eb)

-- A sequence of calls of `feed`, one for each fragment, with the frames collected in order.
abbrev pub collect : List Frame → Fed → Fed
collect fs (fed gs p) = fed (fs ++ gs) p
collect fs (raised e) = raised e
collect fs running = running

unfoldable pub feed_all : FrameParser → List (List ℕ) → Fed
feed_all p [] = fed [] p
feed_all p (c ∷ cs) = elim (feed p c) [
  | fed fs q ↦ collect fs (feed_all q cs)
  | raised e ↦ raised e
  | running ↦ running
]

feed_all-cons :
    (p q r : FrameParser) (c : List ℕ) (cs : List (List ℕ)) {fs gs : List Frame}
    → feed p c ≡ fed fs q
    → feed_all q cs ≡ fed gs r
    → feed_all p (c ∷ cs) ≡ fed (fs ++ gs) r
unfolding feed_all
feed_all-cons p q r c cs e h = rw (e, feed_all) (rw h)

concat-IsByte : (cs : List (List ℕ)) → All (All IsByte) cs → All IsByte (concat cs)
concat-IsByte [] h = tt
concat-IsByte (c ∷ cs) h = All-append IsByte c (concat cs) h.0 (concat-IsByte cs h.1)

-- However the bytes of a stream are cut into one fragment or more, feeding these one after another
-- to a valid parser returns, in order, the frames of one call on the whole stream, and leaves the
-- same bytes waiting.
pub feed_all-concat :
    (p : FrameParser) (c : List ℕ) (cs : List (List ℕ))
    → IsParser p
    → All (All IsByte) (c ∷ cs)
    → (fs : List Frame) × (q : FrameParser) × (r : FrameParser) × (feed_all p (c ∷ cs) ≡ fed fs q)
      × (feed p (concat (c ∷ cs)) ≡ fed fs r)
      × (q.buffer ≡ r.buffer)
feed_all-concat p c [] v h =
    let (fs, q, e, vq) = feed_total p c v h.0 in
    (
      fs,
      q,
      q,
      feed_all-cons p q q c [] {gs = []} e (unfold feed_all in refl)
          ∙ ap (λ gs. fed gs q) (append-nil fs),
      ap (feed p) (append-nil c) ∙ e,
      refl,
    )
feed_all-concat p c (d ∷ cs) v h =
    let (fs, q, e, vq) = feed_total p c v h.0 in
    let (gs, q', r, e', er, eb) = feed_all-concat q d cs vq h.1 in
    let (s, es, eb') = feed-append p c (concat (d ∷ cs)) v h.0 (concat-IsByte (d ∷ cs) h.1) e er in
    (fs ++ gs, q', s, feed_all-cons p q q' c (d ∷ cs) e e', es, eb ∙ sym eb')

-- ===== src/Protocol/Finish/Kept.antt =====
-- `finish` of server/msx_protocol.py and the settings of the parser.
use msx_ai.Base.{
  ℕ, zero, suc, ◌≡◌, refl, ◌∙◌, List, [], Result, ok, err, inl, inr, arith, ◌⊎◌, length,
}
use msx_ai.Protocol.Frame.{Frame, ProtocolError}
use msx_ai.Protocol.Parser.{FrameParser, Fed, fed, raised, running, feed}
use msx_ai.Protocol.Parser.Feed.{feed-Read}
use msx_ai.Protocol.Parser.Fragments.{collect}
use msx_ai.Protocol.Finish.{
  FinishRound, stop, cut, broken, finish_round, give_up, finish_tail, with_tail, finish_loop,
  finish,
}

-- Version and payload limit are the same.
pub record Kept (p q : FrameParser) : Type 0 where
  pub version_kept : q.version ≡ p.version
  pub max_payload_kept : q.max_payload ≡ p.max_payload

Kept-trans : {p q r : FrameParser} → Kept p q → Kept q r → Kept p r
Kept-trans a b = record {
  version_kept = b.version_kept ∙ a.version_kept;
  max_payload_kept = b.max_payload_kept ∙ a.max_payload_kept;
}

pub feed-Kept :
    (p q : FrameParser) (bytes : List ℕ) (fs : List Frame) → feed p bytes ≡ fed fs q → Kept p q
feed-Kept p q bytes fs e =
    let d = feed-Read p bytes fs q e in
    record { version_kept = d.version_kept; max_payload_kept = d.max_payload_kept }

finish_round-Kept : (p q : FrameParser) → finish_round p ≡ cut q → Kept p q
unfolding finish_round
finish_round-Kept p q e = ground (arith, e)

finish_tail-Kept : (p q : FrameParser) → finish_tail p ≡ ok q → Kept p q
unfolding finish_tail give_up
finish_tail-Kept p q e = ground (arith, e)

FinishRound-cases :
    (r : FinishRound)
    → (r ≡ stop) ⊎ (((e : ProtocolError) × (r ≡ broken e)) ⊎ ((q : FrameParser) × (r ≡ cut q)))
FinishRound-cases stop = inl refl
FinishRound-cases (broken e) = inr (inl (e, refl))
FinishRound-cases (cut q) = inr (inr (q, refl))

collect-fed :
    (fs gs : List Frame) (x : Fed) (q : FrameParser)
    → collect fs x ≡ fed gs q
    → (hs : List Frame) × (x ≡ fed hs q)
collect-fed fs gs (fed hs p) q e = (hs, ground (arith, e))
collect-fed fs gs (raised y) q e = absurd cc
collect-fed fs gs running q e = absurd cc

-- The results of a call whose continuation has these cases.
after_feed : Fed → (FrameParser → Fed) → Fed
after_feed (fed fs r) rest = collect fs (rest r)
after_feed (raised e) rest = raised e
after_feed running rest = running

after_feed-Kept :
    (p q : FrameParser) (bytes : List ℕ) (x : Fed) (rest : FrameParser → Fed) (gs : List Frame)
    → feed p bytes ≡ x
    → ((r : FrameParser) (hs : List Frame) → rest r ≡ fed hs q → Kept r q)
    → after_feed x rest ≡ fed gs q
    → Kept p q
unfolding after_feed
after_feed-Kept p q bytes (fed fs r) rest gs ex keep e =
    let (hs, eh) = collect-fed fs gs (rest r) q e in
    Kept-trans (feed-Kept p r bytes fs ex) (keep r hs eh)
after_feed-Kept p q bytes (raised y) rest gs ex keep e = absurd cc
after_feed-Kept p q bytes running rest gs ex keep e = absurd cc

with_tail-Kept :
    (p q : FrameParser) (gs : List Frame) (x : Result ProtocolError FrameParser)
    → finish_tail p ≡ x
    → with_tail [] x ≡ fed gs q
    → Kept p q
with_tail-Kept p q gs (ok r) ex e =
    let same : r ≡ q = ground (arith, e) in rw same at (finish_tail-Kept p r ex)
with_tail-Kept p q gs (err y) ex e = absurd cc

finish_loop-Kept :
    (fuel : ℕ) (p q : FrameParser) (gs : List Frame) → finish_loop fuel p ≡ fed gs q → Kept p q
unfolding finish_loop after_feed
finish_loop-Kept zero p q gs e = absurd cc
finish_loop-Kept (suc fuel) p q gs e = elim (FinishRound-cases (finish_round p)) [
  | inl ef ↦ with_tail-Kept p q gs (finish_tail p) refl (ground (arith, ef, e))
  | inr (inl (y, ef)) ↦ absurd (ground (arith, ef, e))
  | inr (inr (r, ef)) ↦ Kept-trans (finish_round-Kept p r ef) (
      after_feed-Kept r q [] (feed r []) (finish_loop fuel) gs refl
        (λ s hs. finish_loop-Kept fuel s q hs) (ground (arith, ef, e)))
]

-- A call of `finish` keeps the version and the payload limit of the parser.
pub finish-Kept : (p q : FrameParser) (gs : List Frame) → finish p ≡ fed gs q → Kept p q
unfolding finish after_feed
finish-Kept p q gs e =
    after_feed-Kept p q [] (feed p []) (λ r. finish_loop (suc (length r.buffer)) r) gs refl
      (λ r hs. finish_loop-Kept (suc (length r.buffer)) r q hs) (ground (arith, e))

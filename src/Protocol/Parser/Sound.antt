-- ===== src/Protocol/Parser/Sound.antt =====
-- Every frame that `FrameParser.feed` of server/msx_protocol.py returns was sent: it stands in the
-- stream, behind the frames before it. And noise that holds no `M` byte costs no frame.
use msx_ai.Base.{
  ℕ, zero, suc, ◌+◌, ◌≡◌, refl, sym, ap, ◌∙◌, List, [], ◌∷◌, ◌++◌, take, drop, All, append-nil,
  All-take, All-drop, arith, take-append-drop, ◌==◌, ◌&&◌, Bool-cases, Result-cases, inl, inr,
}
use msx_ai.Base.Bytes.{IsByte}
use msx_ai.Protocol.Frame.{Frame}
use msx_ai.Protocol.Codec.{encode_frame, decode_header, decode_frame}
use msx_ai.Protocol.Codec.Decode.{decode_frame_sound}
use msx_ai.Protocol.Parser.{FrameParser, fed, feed}
use msx_ai.Protocol.Parser.Feed.{feed-Read}
use msx_ai.Protocol.Parser.Clean.{Fits}
use msx_ai.Protocol.Parser.Total.{sync-IsByte}
use msx_ai.Protocol.Parser.Stream.{sync, inspect, good, Scans, pause, skip, emit}

-- The frames stand in the bytes, whole, one behind the other, in this order; anything may stand
-- between them.
pub data Holds : List ℕ → List Frame → Type 0 where
  ends : (b : List ℕ) → Holds b []
  passes : (x : ℕ) {b : List ℕ} {fs : List Frame} → Holds b fs → Holds (x ∷ b) fs
  finds :
      (f : Frame) {b c : List ℕ} {fs : List Frame}
      → c ≡ encode_frame f ++ b
      → Holds b fs
      → Holds c (f ∷ fs)

inspect-good_sound :
    (v m : ℕ) (s : List ℕ) (f : Frame) (n : ℕ)
    → All IsByte s
    → inspect v m s ≡ good f n
    → (s ≡ encode_frame f ++ drop n s) × Fits v m f
unfolding inspect
inspect-good_sound v m s f n bytes w = elim (Result-cases (decode_header v m s)) [
  | inr (x, ex) ↦ absurd (ground (arith, ex))
  | inl (h, eh) ↦ elim (Result-cases (decode_frame v m (take (13 + h.size) s))) [
    | inr (x, ex) ↦ absurd (ground (arith, eh, ex))
    | inl (g, eg) ↦
        let size : n ≡ 13 + h.size = ground (arith, eh, eg) in
        let same : g ≡ f = ground (arith, eh, eg) in
        let (enc, valid, ver, len) =
          decode_frame_sound v m (take n s) f (All-take IsByte n s bytes) (rw (size, ← same) eg) in
        (
          sym (take-append-drop n s) ∙ ap (λ r. r ++ drop n s) (sym enc),
          record { valid = valid; version_eq = ver; payload_le = len },
        )
  ]
]

sync-drop : (b : List ℕ) → (k : ℕ) × (sync b ≡ drop k b)
unfolding sync
sync-drop [] = (0, refl)
sync-drop (x ∷ []) = elim (Bool-cases (x == 0x4d)) [
  | inl y ↦ (0, ground (arith, y))
  | inr n ↦ (1, ground (arith, n))
]
sync-drop (x ∷ y ∷ r) = elim (Bool-cases ((x == 0x4d) && (y == 0x58))) [
  | inl t ↦ (0, ground (arith, t))
  | inr n ↦ let (k, e) = sync-drop (y ∷ r) in (suc k, ground (arith, n, e))
]

pub Holds-drop : (k : ℕ) (b : List ℕ) (fs : List Frame) → Holds (drop k b) fs → Holds b fs
Holds-drop zero b fs h = h
Holds-drop (suc k) [] fs h = h
Holds-drop (suc k) (x ∷ b) fs h = passes x (Holds-drop k b fs h)

Holds-sync : (b : List ℕ) (fs : List Frame) → Holds (sync b) fs → Holds b fs
Holds-sync b fs h = let (k, e) = sync-drop b in Holds-drop k b fs (rw e at h)

-- The frames of a stream stand in it, before those of what waits.
pub Scans-Holds :
    {v m : ℕ} {b r : List ℕ} {fs : List Frame} (gs : List Frame)
    → All IsByte b
    → Scans v m b fs r
    → Holds r gs
    → Holds b (fs ++ gs)
Scans-Holds {b = b} gs bytes (pause e w) h = Holds-sync b gs (rw (← e) at h)
Scans-Holds {b = b} gs bytes (skip {fs = fs} w d) h = Holds-sync b (fs ++ gs) (
    Holds-drop 1 (sync b) (fs ++ gs)
      (Scans-Holds gs (All-drop IsByte 1 (sync b) (sync-IsByte b bytes)) d h))
Scans-Holds {v} {m} {b = b} gs bytes (emit {fs = fs} {f = f} {n = n} w d) h =
    let (e, _) = inspect-good_sound v m (sync b) f n (sync-IsByte b bytes) w in
    Holds-sync b (f ∷ fs ++ gs)
      (finds f e (Scans-Holds gs (All-drop IsByte n (sync b) (sync-IsByte b bytes)) d h))

pub Scans-Fits :
    {v m : ℕ} {b r : List ℕ} {fs : List Frame} → All IsByte b → Scans v m b fs r → All (Fits v m) fs
Scans-Fits {b = b} bytes (pause e w) = tt
Scans-Fits {b = b} bytes (skip w d) =
    Scans-Fits (All-drop IsByte 1 (sync b) (sync-IsByte b bytes)) d
Scans-Fits {v} {m} {b = b} bytes (emit {f = f} {n = n} w d) = (
  (inspect-good_sound v m (sync b) f n (sync-IsByte b bytes) w).1,
  Scans-Fits (All-drop IsByte n (sync b) (sync-IsByte b bytes)) d,
)

-- Where the buffered and the new values are bytes, the frames that a call of `feed` returns are
-- valid, have the parser's version and a payload within its limit, and their encodings stand in the
-- buffered and new bytes, whole, disjoint and in this order.
pub feed_sound :
    (p : FrameParser) (bytes : List ℕ) {fs : List Frame} {q : FrameParser}
    → All IsByte (p.buffer ++ bytes)
    → feed p bytes ≡ fed fs q
    → Holds (p.buffer ++ bytes) fs × All (Fits p.version p.max_payload) fs
feed_sound p bytes {fs} {q} h e =
    let d = (feed-Read p bytes fs q e).scanned in
    (rw append-nil at (Scans-Holds [] h d (ends q.buffer)), Scans-Fits h d)

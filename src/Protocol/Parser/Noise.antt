-- ===== src/Protocol/Parser/Noise.antt =====
-- `FrameParser.feed` of server/msx_protocol.py on a stream with noise before its frames.
use msx_ai.Base.{
  ℕ, ◌≤◌, ◌<◌, ◌≡◌, ◌≢◌, refl, List, [], ◌∷◌, ◌++◌, All, All-append, append-nil, arith,
}
use msx_ai.Base.Bytes.{IsByte}
use msx_ai.Protocol.Frame.{Frame}
use msx_ai.Protocol.Codec.{encode_frame, encode_many}
use msx_ai.Protocol.Codec.RoundTrip.{encode_frame-IsByte}
use msx_ai.Protocol.Parser.{FrameParser, fed, feed}
use msx_ai.Protocol.Parser.Feed.{feed-Read}
use msx_ai.Protocol.Parser.Clean.{Fits, feed-encode_many}
use msx_ai.Protocol.Parser.Total.{IsParser, feed_total}
use msx_ai.Protocol.Parser.Stream.{sync, Scans, Scans-sync, Scans-append, Scans-unique}

-- Bytes that hold no `M`, the first byte of the magic.
abbrev pub IsNoise : List ℕ → Type 0
IsNoise = All (λ x. (x < 256) × (x ≢ 0x4d))

-- Each frame behind some noise.
abbrev pub noisy : List (List ℕ × Frame) → List ℕ
noisy [] = []
noisy ((g, f) ∷ r) = g ++ encode_frame f ++ noisy r

abbrev pub frames_of : List (List ℕ × Frame) → List Frame
frames_of [] = []
frames_of ((g, f) ∷ r) = f ∷ frames_of r

abbrev pub AreNoisy : (version max_payload : ℕ) → List (List ℕ × Frame) → Type 0
AreNoisy v m [] = Unit {0}
AreNoisy v m ((g, f) ∷ r) = IsNoise g × Fits v m f × AreNoisy v m r

sync-noise : (g b : List ℕ) → IsNoise g → sync b ≡ sync (g ++ b)
unfolding sync
sync-noise [] b h = refl
sync-noise (x ∷ []) [] h = ground arith
sync-noise (x ∷ []) (y ∷ b) h = ground arith
sync-noise (x ∷ y ∷ g) b h = ground (arith, sync-noise (y ∷ g) b)

noisy-IsByte : (v m : ℕ) (xs : List (List ℕ × Frame)) → AreNoisy v m xs → All IsByte (noisy xs)
noisy-IsByte v m [] h = tt
noisy-IsByte v m ((g, f) ∷ r) (hg, hf, hr) =
    All-append IsByte (g ++ encode_frame f) (noisy r)
      (All-append IsByte g (encode_frame f) (noise g hg) (encode_frame-IsByte f hf.valid))
      (noisy-IsByte v m r hr)
  where
    noise : (g : List ℕ) → IsNoise g → All IsByte g
    noise [] h = tt
    noise (x ∷ g) h = (h.0.0, noise g h.1)

module _ (v m : ℕ) (small : m ≤ 65535) where
  Scans-encode_frame : (f : Frame) → Fits v m f → Scans v m (encode_frame f) (f ∷ []) []
  unfolding encode_many
  Scans-encode_frame f fits =
      rw append-nil at
        (feed-Read idle (encode_frame f ++ []) (f ∷ []) idle
          (feed-encode_many idle (f ∷ []) refl small (fits, tt))).scanned
    where
      idle : FrameParser
      idle = record { version = v; max_payload = m; buffer = []; errors = [] }

  Scans-nil : Scans v m [] [] []
  unfolding encode_many
  Scans-nil = (feed-Read idle [] [] idle (feed-encode_many idle [] refl small tt)).scanned
    where
      idle : FrameParser
      idle = record { version = v; max_payload = m; buffer = []; errors = [] }

  Scans-noisy :
      (xs : List (List ℕ × Frame)) → AreNoisy v m xs → Scans v m (noisy xs) (frames_of xs) []
  Scans-noisy [] h = Scans-nil
  Scans-noisy ((g, f) ∷ r) (hg, hf, hr) =
      Scans-append (noisy r)
        (Scans-sync (g ++ encode_frame f) (sync-noise g (encode_frame f) hg)
          (Scans-encode_frame f hf))
        (Scans-noisy r hr)

-- Noise bytes that hold no `M`, before any of a sequence of valid frames that fit the parser, cost
-- none of them: a valid parser with an empty buffer returns every frame, in order, and keeps nothing
-- waiting.
pub feed-noisy :
    (p : FrameParser) (xs : List (List ℕ × Frame))
    → IsParser p
    → p.buffer ≡ []
    → AreNoisy p.version p.max_payload xs
    → (q : FrameParser) × (feed p (noisy xs) ≡ fed (frames_of xs) q) × (q.buffer ≡ [])
feed-noisy p xs v e h =
    let (fs, q, eq, _) = feed_total p (noisy xs) v (noisy-IsByte p.version p.max_payload xs h) in
    let read = rw e at (feed-Read p (noisy xs) fs q eq).scanned in
    let (ef, eb) =
      Scans-unique read
        (Scans-noisy p.version p.max_payload (omega (arith, v.max_payload_fits)) xs h) in
    (q, rw (← ef) eq, eb)

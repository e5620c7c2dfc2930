-- ===== src/Protocol/Parser/Clean.antt =====
-- Encoded frames, one after the other, are what `FrameParser.feed` of server/msx_protocol.py
-- returns, with no error.
use msx_ai.Base.{
  ℕ, zero, suc, ◌+◌, ◌≤◌, ◌<◌, ◌≡◌, refl, sym, ap, ◌∙◌, List, [], ◌∷◌, ◌++◌, length, take, drop,
  All, List-cases, length-append, take-append_exact, drop-append_exact, inl, inr, some, ok, arith,
}
use msx_ai.Protocol.Frame.{Frame, IsFrame}
use msx_ai.Protocol.Codec.{pack_header, encode_frame, encode_many, decode_header, decode_frame}
use msx_ai.Protocol.Codec.RoundTrip.{
  header_of, length-encode_frame, decode_header-encode_frame, decode_frame-encode_frame,
}
use msx_ai.Protocol.Parser.{
  FrameParser, find_magic, discard, deliver, try_header, try_frame, feed_round, add_frame,
  feed_loop, fed, extend, feed,
}
use msx_ai.Protocol.Parser.Feed.{feed_loop-empty, feed_loop-deliver}

-- A frame that a peer with these settings may send.
pub record Fits (version max_payload : ℕ) (f : Frame) : Type 0 where
  pub valid : IsFrame f
  pub version_eq : f.version ≡ version
  pub payload_le : length f.payload ≤ max_payload

find_magic-encode_frame : (f : Frame) (rest : List ℕ) → find_magic (encode_frame f ++ rest) ≡ some 0
unfolding find_magic encode_frame pack_header
find_magic-encode_frame f rest = refl

module _ (p : FrameParser) (f : Frame) (rest : List ℕ) (small : p.max_payload ≤ 65535)
    (fits : Fits p.version p.max_payload f) (front : p.buffer ≡ encode_frame f ++ rest) where
  long : length p.buffer ≡ 13 + length f.payload + length rest
  long = omega (arith, ap length front, length-append (encode_frame f) rest, length-encode_frame f)

  header_decoded : decode_header p.version p.max_payload p.buffer ≡ ok (header_of f)
  header_decoded =
      rw (front, ← fits.version_eq)
        (decode_header-encode_frame f p.max_payload rest fits.valid fits.payload_le)

  frame_decoded :
      decode_frame p.version p.max_payload (take (13 + length f.payload) p.buffer) ≡ ok f
  frame_decoded =
      rw
        (
          front,
          ← fits.version_eq,
          take-append_exact _ (encode_frame f) rest (sym (length-encode_frame f)),
        )
        (decode_frame-encode_frame f p.max_payload fits.valid fits.payload_le small)

  rest_left : drop (13 + length f.payload) p.buffer ≡ rest
  rest_left = rw front (drop-append_exact _ (encode_frame f) rest (sym (length-encode_frame f)))

  pub feed_round-encode_frame : feed_round p ≡ deliver f (record p { buffer = rest })
  unfolding feed_round try_header try_frame discard
  feed_round-encode_frame =
      ground (
        arith,
        front,
        find_magic-encode_frame f rest,
        long,
        header_decoded,
        frame_decoded,
        rest_left,
      )

feed_loop-encode_many :
    (fuel : ℕ) (p : FrameParser) (fs : List Frame)
    → p.max_payload ≤ 65535
    → All (Fits p.version p.max_payload) fs
    → p.buffer ≡ encode_many fs
    → length (encode_many fs) < fuel
    → feed_loop fuel p ≡ fed fs (record p { buffer = [] })
unfolding encode_many
feed_loop-encode_many zero p fs small fits e l = elim l [ ]
feed_loop-encode_many (suc fuel) p [] small fits e l =
    feed_loop-empty fuel p e ∙ ap (fed []) (ap (λ (b : List ℕ). record p { buffer = b }) e)
feed_loop-encode_many (suc fuel) p (f ∷ fs) small fits e l =
    let rest : FrameParser = record p { buffer = encode_many fs } in
    elim (List-cases p.buffer) [
      | inl eb ↦ absurd (
          omega (
            arith,
            ap length (sym eb ∙ e),
            length-append (encode_frame f) (encode_many fs),
            length-encode_frame f,
          ))
      | inr (x, xs, eb) ↦
          feed_loop-deliver fuel p x xs eb f rest
            (feed_round-encode_frame p f (encode_many fs) small fits.0 e)
          ∙ ap (add_frame f) (
              feed_loop-encode_many fuel rest fs small fits.1 refl (
                omega
                  (arith, length-append (encode_frame f) (encode_many fs), length-encode_frame f)))
    ]

-- A parser with an empty buffer and a payload limit of at most 65535, fed the encodings of valid
-- frames of its version with payloads within its limit, returns these frames, records no error and is
-- as it was.
pub feed-encode_many :
    (p : FrameParser) (fs : List Frame)
    → p.buffer ≡ []
    → p.max_payload ≤ 65535
    → All (Fits p.version p.max_payload) fs
    → feed p (encode_many fs) ≡ fed fs p
unfolding feed
feed-encode_many p fs e small fits =
    feed_loop-encode_many (suc (length (p.buffer ++ encode_many fs))) (extend p (encode_many fs)) fs
      small fits (ap (λ b. b ++ encode_many fs) e) (rw e (omega arith))
    ∙ ap (fed fs) (ap (λ (b : List ℕ). record p { buffer = b }) (sym e))

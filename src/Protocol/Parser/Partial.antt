-- ===== src/Protocol/Parser/Partial.antt =====
-- Encoded frames that arrive in part: what `FrameParser.feed` of server/msx_protocol.py returns, and
-- what waits.
use msx_ai.Base.{
  ℕ, zero, suc, ◌+◌, ◌≤◌, ◌<◌, ◌≡◌, refl, sym, ap, ◌∙◌, List, [], ◌∷◌, ◌++◌, length, All,
  List-cases, append-split, length-append, append_assoc, inl, inr, some, ok, arith,
}
use native.Mathlib.Decide.{dec_lt}
use msx_ai.Protocol.Frame.{Frame}
use msx_ai.Protocol.Codec.{pack_header, encode_frame, encode_many, decode_header}
use msx_ai.Protocol.Codec.RoundTrip.{header_of, length-encode_frame, decode_header-encode_frame}
use msx_ai.Protocol.Parser.{
  FrameParser, find_magic, ends_with_m, discard, wait, try_header, try_frame, feed_round, add_frame,
  feed_loop, fed, extend, feed,
}
use msx_ai.Protocol.Parser.Feed.{feed_loop-empty, feed_loop-deliver, feed_loop-wait}
use msx_ai.Protocol.Parser.Stream.{decode_header-append}
use msx_ai.Protocol.Parser.Clean.{Fits, feed_round-encode_frame}

-- The front of a frame, without its end.
module _ (p : FrameParser) (f : Frame) (d : List ℕ) (fits : Fits p.version p.max_payload f)
    (front : p.buffer ++ d ≡ encode_frame f) (more : 0 < length d) where
  header_partial :
      11 ≤ length p.buffer → decode_header p.version p.max_payload p.buffer ≡ ok (header_of f)
  header_partial h =
      sym (decode_header-append p.version p.max_payload p.buffer d h)
      ∙ ap (decode_header p.version p.max_payload) (front ∙ sym (append-nil_of (encode_frame f)))
      ∙ rw (← fits.version_eq)
          (decode_header-encode_frame f p.max_payload [] fits.valid fits.payload_le)
    where
      append-nil_of : (xs : List ℕ) → xs ++ [] ≡ xs
      append-nil_of [] = refl
      append-nil_of (x ∷ xs) = ap (λ t. x ∷ t) (append-nil_of xs)

  short : length p.buffer < 13 + length f.payload
  short = omega (arith, more, ap length front, length-append p.buffer d, length-encode_frame f)

  magic_partial : (x y : ℕ) (r : List ℕ) → p.buffer ≡ x ∷ y ∷ r → find_magic p.buffer ≡ some 0
  unfolding find_magic encode_frame pack_header
  magic_partial x y r e =
      let whole = ap (λ b. b ++ d) (sym e) ∙ front in
      let first : x ≡ 0x4d = cc (whole) in
      let second : y ≡ 0x58 = cc (whole) in rw (e, first, second) refl

  feed_round-long : (x y : ℕ) (r : List ℕ) → p.buffer ≡ x ∷ y ∷ r → feed_round p ≡ wait p
  unfolding feed_round try_header try_frame discard
  feed_round-long x y r e = elim (dec_lt (length p.buffer) 11) [
    | yes few ↦ ground (arith, magic_partial x y r e, few)
    | no enough ↦
        ground (arith, magic_partial x y r e, enough, header_partial (omega (arith, enough)), short)
  ]

  feed_round-byte : (x : ℕ) → p.buffer ≡ x ∷ [] → feed_round p ≡ wait p
  unfolding feed_round find_magic ends_with_m discard encode_frame pack_header
  feed_round-byte x e =
      let whole = ap (λ b. b ++ d) (sym e) ∙ front in
      let first : x ≡ 0x4d = cc (whole) in rw (e, first) refl

  feed_round-partial : (x : ℕ) (xs : List ℕ) → p.buffer ≡ x ∷ xs → feed_round p ≡ wait p
  feed_round-partial x [] e = feed_round-byte x e
  feed_round-partial x (y ∷ r) e = feed_round-long x y r e

-- What a call returns on the front of a stream of frames, and what waits: the frames that are whole.
pub record Partly (p : FrameParser) (later : List ℕ) (fs : List Frame) : Type 0 where
  pub whole : List Frame
  pub left : List Frame
  pub waiting : List ℕ
  pub split : fs ≡ whole ++ left
  pub front : waiting ++ later ≡ encode_many left
  pub ended : length later ≡ 0 → left ≡ []

abbrev pub keeping : FrameParser → List ℕ → FrameParser
keeping p bytes = record p { buffer = bytes }

feed_loop-partial :
    (fuel : ℕ) (p : FrameParser) (later : List ℕ) (fs : List Frame)
    → p.max_payload ≤ 65535
    → All (Fits p.version p.max_payload) fs
    → p.buffer ++ later ≡ encode_many fs
    → length p.buffer < fuel
    → (k : Partly p later fs) × (feed_loop fuel p ≡ fed k.whole (keeping p k.waiting))
unfolding encode_many
feed_loop-partial zero p later fs small fits e l = elim l [ ]
feed_loop-partial (suc fuel) p later [] small fits e l = elim (List-cases p.buffer) [
  | inr (x, xs, eb) ↦
      let impossible : x ∷ (xs ++ later) ≡ [] = ap (λ b. b ++ later) (sym eb) ∙ e in
      absurd (cc (impossible))
  | inl eb ↦ (
    record {
      whole = [];
      left = [];
      waiting = p.buffer;
      split = refl;
      front = e;
      ended = λ _. refl;
    },
    feed_loop-empty fuel p eb,
  )
]
feed_loop-partial (suc fuel) p later (f ∷ fs) small fits e l = elim (List-cases p.buffer) [
  | inl eb ↦ (
    record {
      whole = [];
      left = f ∷ fs;
      waiting = p.buffer;
      split = refl;
      front = e;
      ended = λ z. absurd (
          omega (
            arith,
            z,
            ap length (ap (λ b. b ++ later) (sym eb) ∙ e),
            length-append (encode_frame f) (encode_many fs),
            length-encode_frame f,
          ));
    },
    feed_loop-empty fuel p eb,
  )
  | inr (x, xs, eb) ↦ elim (dec_lt (length p.buffer) (length (encode_frame f))) [
    | yes few ↦
        let (d, ed, _) =
          append-split (encode_frame f) p.buffer (encode_many fs) later (sym e)
            (omega (arith, few)) in
        let more : 0 < length d = omega (arith, few, ap length ed, length-append p.buffer d) in
        (
          record {
            whole = [];
            left = f ∷ fs;
            waiting = p.buffer;
            split = refl;
            front = e;
            ended = λ z. absurd (
                omega (
                  arith,
                  z,
                  few,
                  ap length e,
                  length-append p.buffer later,
                  length-append (encode_frame f) (encode_many fs),
                ));
          },
          feed_loop-wait fuel p x xs eb p (feed_round-partial p f d fits.0 (sym ed) more x xs eb),
        )
    | no enough ↦
        let (b, eb', er) =
          append-split p.buffer (encode_frame f) later (encode_many fs) e (omega (arith, enough)) in
        let (k, ek) = feed_loop-partial fuel (keeping p b) later fs small fits.1 er (
          omega
            (arith, l, ap length eb', length-append (encode_frame f) b, length-encode_frame f)) in
        (
          record {
            whole = f ∷ k.whole;
            left = k.left;
            waiting = k.waiting;
            split = ap (λ t. f ∷ t) k.split;
            front = k.front;
            ended = k.ended;
          },
          feed_loop-deliver fuel p x xs eb f (keeping p b)
                (feed_round-encode_frame p f b small fits.0 eb')
              ∙ ap (add_frame f) ek,
        )
  ]
]

-- A call of `feed` on the next bytes of a stream of frames.
pub feed-partial :
    (p : FrameParser) (bytes later : List ℕ) (fs : List Frame)
    → p.max_payload ≤ 65535
    → All (Fits p.version p.max_payload) fs
    → p.buffer ++ (bytes ++ later) ≡ encode_many fs
    → (k : Partly p later fs) × (feed p bytes ≡ fed k.whole (keeping p k.waiting))
unfolding feed
feed-partial p bytes later fs small fits e =
    let (k, ek) =
      feed_loop-partial (suc (length (p.buffer ++ bytes))) (extend p bytes) later fs small fits
        (append_assoc p.buffer bytes later ∙ e) (omega arith) in
    (
      record {
        whole = k.whole;
        left = k.left;
        waiting = k.waiting;
        split = k.split;
        front = k.front;
        ended = k.ended;
      },
      ek,
    )

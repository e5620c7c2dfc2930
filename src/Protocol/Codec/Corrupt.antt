-- ===== src/Protocol/Codec/Corrupt.antt =====
-- A frame of server/msx_protocol.py with one byte changed on the way is never accepted.
use msx_ai.Base.{
  ℕ, suc, ◌+◌, ◌-◌, ◌≤◌, ◌<◌, ◌≡◌, ◌≢◌, refl, sym, ap, ◌∙◌, List, ◌∷◌, ◌++◌, All, All-append,
  length, take, drop, length-append, take-append, take-append_exact, drop-append_exact,
  take-append_past, drop-append_past, append-injective_head, ok, arith, All-append_inv, All-take,
}
use native.Mathlib.Decide.{dec_lt}
use msx_ai.Base.Bytes.{IsByte, le16, le16-injective}
use msx_ai.Protocol.Frame.{Frame, IsFrame}
use msx_ai.Protocol.Crc.{crc16, crc16-lt}
use msx_ai.Protocol.Crc.Detect.{crc16_one_byte}
use msx_ai.Protocol.Codec.{encode_frame, decode_frame}
use msx_ai.Protocol.Codec.Decode.{decode_frame_sound}
use msx_ai.Protocol.Codec.RoundTrip.{
  body_of, length-body_of, length-encode_frame, encode_frame-IsByte,
}

-- The parts of an encoding, cut at the end of the body.
module _ (f : Frame) (n : ℕ) (len : n ≡ 11 + length f.payload) where
  body_cut : take n (encode_frame f) ≡ body_of f
  unfolding encode_frame
  body_cut =
      take-append_exact n (body_of f) (le16 (crc16 (body_of f))) (len ∙ sym (length-body_of f))

  crc_cut : drop n (encode_frame f) ≡ le16 (crc16 (body_of f))
  unfolding encode_frame
  crc_cut =
      drop-append_exact n (body_of f) (le16 (crc16 (body_of f))) (len ∙ sym (length-body_of f))

module _ (f g : Frame) (front back : List ℕ) (x y : ℕ) (hx : x < 256) (hy : y < 256) (ne : x ≢ y)
    (bytes : All IsByte back) (ef : encode_frame f ≡ front ++ x ∷ back)
    (eg : encode_frame g ≡ front ++ y ∷ back) where
  n : ℕ
  n = 11 + length f.payload

  same_length : n ≡ 11 + length g.payload
  unfolding n
  same_length = omega (
    arith,
    ap length ef,
    ap length eg,
    length-encode_frame f,
    length-encode_frame g,
    length-append front (x ∷ back),
    length-append front (y ∷ back),
  )

  f_len : n ≡ 11 + length f.payload
  unfolding n
  f_len = refl

  -- The change is in the body: equal checksums would belong to bodies that differ in one byte.
  differ_in_body : length front < n → ⊥
  differ_in_body past =
      crc16_one_byte front (take (n - suc (length front)) back) x y hx hy ne
        (All-take IsByte (n - suc (length front)) back bytes)
        (ap crc16 (sym bf) ∙ crcs ∙ ap crc16 bg)
    where
      bf : body_of f ≡ front ++ x ∷ take (n - suc (length front)) back
      bf = sym (body_cut f n f_len) ∙ ap (take n) ef ∙ take-append_past n front x back past

      bg : body_of g ≡ front ++ y ∷ take (n - suc (length front)) back
      bg = sym (body_cut g n same_length) ∙ ap (take n) eg ∙ take-append_past n front y back past

      crcs : crc16 (body_of f) ≡ crc16 (body_of g)
      crcs = le16-injective _ _ (crc16-lt (body_of f)) (crc16-lt (body_of g)) (
          sym (crc_cut f n f_len)
          ∙ ap (drop n) ef
          ∙ drop-append_past n front x back past
          ∙ sym (drop-append_past n front y back past)
          ∙ ap (drop n) (sym eg)
          ∙ crc_cut g n same_length)

  -- The change is in the checksum: equal bodies have one checksum.
  differ_in_crc : n ≤ length front → ⊥
  differ_in_crc within = ne (append-injective_head front x y back back (sym ef ∙ whole ∙ eg))
    where
      bodies : body_of f ≡ body_of g
      bodies =
          sym (body_cut f n f_len)
          ∙ ap (take n) ef
          ∙ take-append n front (x ∷ back) within
          ∙ sym (take-append n front (y ∷ back) within)
          ∙ ap (take n) (sym eg)
          ∙ body_cut g n same_length

      whole : encode_frame f ≡ encode_frame g
      whole = unfold encode_frame in ap (λ b. b ++ le16 (crc16 b)) bodies

  encodings_differ : ⊥
  encodings_differ = elim (dec_lt (length front) n) [
    | yes past ↦ differ_in_body past
    | no within ↦ differ_in_crc (omega arith)
  ]

-- If one byte of the encoding of a valid frame is replaced by another byte, wherever it stands, the
-- result is decoded to no frame, whatever version and limit are expected.
pub decode_frame_corrupt :
    (f g : Frame) (version max_payload : ℕ) (front back : List ℕ) (x y : ℕ)
    → IsFrame f
    → encode_frame f ≡ front ++ x ∷ back
    → y < 256
    → x ≢ y
    → decode_frame version max_payload (front ++ y ∷ back) ≢ ok g
decode_frame_corrupt f g version max_payload front back x y v ef hy ne e =
    let split = All-append_inv IsByte front (x ∷ back) (rw ef at (encode_frame-IsByte f v)) in
    let (eg, _, _, _) =
      decode_frame_sound version max_payload (front ++ y ∷ back) g
        (All-append IsByte front (y ∷ back) split.0 (hy, split.1.1)) e in
    encodings_differ f g front back x y split.1.0 hy ne split.1.1 ef eg

-- ===== src/Protocol/Codec/Decode.antt =====
-- What the decoder of server/msx_protocol.py accepts is exactly what the encoder writes.
use msx_ai.Base.{
  ℕ, ◌+◌, ◌/◌, ◌%◌, ◌≤◌, ◌<◌, ◌≡◌, sym, ap, ◌∙◌, List, [], ◌∷◌, ◌++◌, length, take, drop, take-take,
  length-take, length-drop, take-append-drop, ok, arith, All, All-take, All-drop, Result-cases, inl,
  inr,
}
use msx_ai.Base.Bytes.{le16, le16-u16, IsByte}
use msx_ai.Protocol.Frame.{
  Frame, IsFrame, FrameType, frame_type_value, frame_type_of, wire_int, new_frame,
}
use msx_ai.Protocol.Crc.{crc16}
use msx_ai.Protocol.Codec.{
  pack_header, encode_frame, Header, check_header, decode_header, unpack_crc, decode_frame,
}
use msx_ai.Protocol.Codec.RoundTrip.{body_of}

-- The eleven bytes that a header was read from.
abbrev header_bytes : ℕ → Header → List ℕ
header_bytes version h =
    0x4d
    ∷ 0x58
    ∷ version
    ∷ frame_type_value h.frame_type
    ∷ h.flags
    ∷ (h.sequence % 256)
    ∷ (h.sequence / 256 % 256)
    ∷ h.opcode
    ∷ h.status
    ∷ (h.size % 256)
    ∷ (h.size / 256 % 256)
    ∷ []

frame_type_of_inv : (n : ℕ) (t : FrameType) → frame_type_of n ≡ ok t → frame_type_value t ≡ n
unfolding frame_type_of
frame_type_of_inv n t h = ground arith

-- A header that is accepted has the magic, the version and a known type, and a payload within the
-- limit; its fields fit their bytes.
pub record IsHeader (version max_payload : ℕ) (raw : List ℕ) (h : Header) : Type 0 where
  pub front : take 11 raw ≡ header_bytes version h
  pub size_le : h.size ≤ max_payload
  pub size_fits : h.size < 65536
  pub sequence_fits : h.sequence < 65536
  pub opcode_fits : h.opcode < 256
  pub flags_fits : h.flags < 256
  pub status_fits : h.status < 256
  pub version_fits : version < 256

pub decode_header_inv :
    (version max_payload : ℕ) (raw : List ℕ) (h : Header)
    → All IsByte raw
    → decode_header version max_payload raw ≡ ok h
    → IsHeader version max_payload raw h
unfolding decode_header check_header
decode_header_inv version max_payload (m0 ∷ m1 ∷ v ∷ t ∷ fl ∷ s0 ∷ s1 ∷ op ∷ st ∷ l0 ∷ l1 ∷ rest) h
      bytes e =
    ground (arith, frame_type_of_inv t h.frame_type, le16-u16 s0 s1, le16-u16 l0 l1)
decode_header_inv version max_payload _ h bytes e = ground arith

-- The facts that an accepted frame comes with.
record Accepted (version max_payload : ℕ) (raw : List ℕ) (f : Frame) : Type 0 where
  header : Header
  decoded : decode_header version max_payload raw ≡ ok header
  whole : length raw ≡ 13 + header.size
  checksum : unpack_crc (drop (11 + header.size) raw) ≡ ok (crc16 (take (11 + header.size) raw))
  built : f ≡ record {
    frame_type = header.frame_type;
    sequence = header.sequence;
    opcode = header.opcode;
    payload = drop 11 (take (11 + header.size) raw);
    flags = header.flags;
    status = header.status;
    version = version;
  }

decode_frame-Accepted :
    (version max_payload : ℕ) (raw : List ℕ) (f : Frame)
    → decode_frame version max_payload raw ≡ ok f
    → Accepted version max_payload raw f
unfolding decode_frame wire_int new_frame
decode_frame-Accepted version max_payload raw f e =
    elim (Result-cases (decode_header version max_payload raw)) [
      | inl (h, eh) ↦ elim (Result-cases (unpack_crc (drop (11 + h.size) raw))) [
        | inl (c, ec) ↦ record {
          header = h;
          decoded = eh;
          whole = ground (arith, eh, ec);
          checksum = ground (arith, eh, ec);
          built = ground (arith, eh, ec);
        }
        | inr (x, ex) ↦ absurd (ground (arith, eh, ex))
      ]
      | inr (x, ex) ↦ absurd (ground (arith, ex))
    ]

unpack_crc-eq-le16 :
    (xs : List ℕ) (c : ℕ) → length xs ≡ 2 → All IsByte xs → unpack_crc xs ≡ ok c → xs ≡ le16 c
unfolding unpack_crc
unpack_crc-eq-le16 (c0 ∷ c1 ∷ []) c l bytes e = ground (arith, le16-u16 c0 c1)
unpack_crc-eq-le16 (c0 ∷ c1 ∷ x ∷ xs) c l bytes e = absurd (omega arith)
unpack_crc-eq-le16 _ c l bytes e = absurd (omega arith)

module _ (version max_payload : ℕ) (raw : List ℕ) (f : Frame) (bytes : All IsByte raw)
    (a : Accepted version max_payload raw f) where
  headed : IsHeader version max_payload raw a.header
  headed = decode_header_inv version max_payload raw a.header bytes a.decoded

  length_body : length (take (11 + a.header.size) raw) ≡ 11 + a.header.size
  length_body = omega (arith, length-take (11 + a.header.size) raw, a.whole)

  length_payload : length f.payload ≡ a.header.size
  length_payload =
      ground (arith, a.built, length-drop 11 (take (11 + a.header.size) raw), length_body)

  Accepted-IsFrame : IsFrame f
  Accepted-IsFrame = record {
    sequence_fits = ground (arith, a.built, headed.sequence_fits);
    opcode_fits = ground (arith, a.built, headed.opcode_fits);
    flags_fits = ground (arith, a.built, headed.flags_fits);
    status_fits = ground (arith, a.built, headed.status_fits);
    version_fits = ground (arith, a.built, headed.version_fits);
    payload_fits = omega (arith, length_payload, headed.size_fits);
    payload_bytes =
        rw a.built (All-drop IsByte 11 _ (All-take IsByte (11 + a.header.size) raw bytes));
  }

  Accepted-body : body_of f ≡ take (11 + a.header.size) raw
  unfolding pack_header
  Accepted-body =
      ap (λ r. r ++ f.payload) front
      ∙ ap (λ r. take 11 (take (11 + a.header.size) raw) ++ r)
          (ap (λ (g : Frame). g.payload) a.built)
      ∙ take-append-drop 11 (take (11 + a.header.size) raw)
    where
      front : pack_header f ≡ take 11 (take (11 + a.header.size) raw)
      front = ground (
        arith,
        a.built,
        length_payload,
        take-take 11 (11 + a.header.size) raw (omega arith),
        headed.front,
      )

  Accepted-encoded : raw ≡ encode_frame f
  unfolding encode_frame
  Accepted-encoded = sym whole
    where
      tail_bytes : drop (11 + a.header.size) raw ≡ le16 (crc16 (take (11 + a.header.size) raw))
      tail_bytes =
          unpack_crc-eq-le16 _ _ (omega (arith, length-drop (11 + a.header.size) raw, a.whole))
            (All-drop IsByte (11 + a.header.size) raw bytes) a.checksum

      whole : body_of f ++ le16 (crc16 (body_of f)) ≡ raw
      whole = rw (Accepted-body, ← tail_bytes) (take-append-drop (11 + a.header.size) raw)

-- A byte string that is decoded is the encoding of the frame that it is decoded to, and this frame
-- is valid, has the expected version and a payload within the limit.
pub decode_frame_sound :
    (version max_payload : ℕ) (raw : List ℕ) (f : Frame)
    → All IsByte raw
    → decode_frame version max_payload raw ≡ ok f
    → (encode_frame f ≡ raw) × IsFrame f × (f.version ≡ version) × (length f.payload ≤ max_payload)
decode_frame_sound version max_payload raw f bytes e =
    let a = decode_frame-Accepted version max_payload raw f e in
    (
      sym (Accepted-encoded version max_payload raw f bytes a),
      Accepted-IsFrame version max_payload raw f bytes a,
      ap (λ (g : Frame). g.version) a.built,
      omega (
        arith,
        length_payload version max_payload raw f bytes a,
        (headed version max_payload raw f bytes a).size_le,
      ),
    )

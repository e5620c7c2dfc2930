-- ===== src/Transfer/Open/Laws.antt =====
-- The OPEN request of server/msx_transfer.py: what is encoded is decoded.
use msx_ai.Base.{
  ℕ, ◌+◌, ◌<◌, ◌≡◌, refl, sym, ap, false, not, List, ◌∷◌, ◌++◌, length, ok, ◌==◌, bit_and, arith,
  Result-cases, inl, inr, take-append_exact, drop-append_exact, length-append,
}
use msx_ai.Base.Bytes.{le16, le32, u16-le16, u32-le32}
use msx_ai.Transfer.Types.{
  TransferError, payload_error, put, get, raw, packbits, direction_value, encoding_value,
  direction_of, encoding_of, read8, read16, read32, read_id, any_outside, TransferDirection,
  TransferEncoding,
}
use msx_ai.Transfer.Descriptor.{TransferDescriptor, new_descriptor}
use msx_ai.Transfer.Descriptor.Laws.{
  IsDescriptor, IsPath-ascii, IsPath-path_bytes, new_descriptor_iff, new_descriptor-IsDescriptor,
  new_descriptor-path,
}
use msx_ai.Transfer.Open.{
  OpenHeader, open_args, open_flags, encode_open, unpack_open, build_open, decode_open,
}

pub direction_of-value :
    (error : TransferError) (d : TransferDirection) → direction_of error (direction_value d) ≡ ok d
unfolding direction_of
direction_of-value error put = refl
direction_of-value error get = refl

pub encoding_of-value :
    (error : TransferError) (e : TransferEncoding) → encoding_of error (encoding_value e) ≡ ok e
unfolding encoding_of
encoding_of-value error raw = refl
encoding_of-value error packbits = refl

pub read_id-append : (i r : List ℕ) → length i ≡ 16 → read_id (i ++ r) ≡ ok (i, r)
unfolding read_id
read_id-append i r h =
    ground
      (arith, length-append i r, take-append_exact 16 i r (sym h), drop-append_exact 16 i r (sym h))

pub read32-le32 : (n : ℕ) (r : List ℕ) → n < 4294967296 → read32 (le32 n ++ r) ≡ ok (n, r)
unfolding read32
read32-le32 n r h = ap (λ m. ok (m, r)) (u32-le32 n h)

pub read16-le16 : (n : ℕ) (r : List ℕ) → n < 65536 → read16 (le16 n ++ r) ≡ ok (n, r)
unfolding read16
read16-le16 n r h = ap (λ m. ok (m, r)) (u16-le16 n h)

-- The header that a descriptor is sent with.
abbrev header_of : TransferDescriptor → OpenHeader
header_of d = record {
  command = 1;
  version = 1;
  direction = direction_value d.direction;
  encoding = encoding_value d.encoding;
  flags = open_flags d;
  transfer_id = d.transfer_id;
  wire_size = d.wire_size;
  wire_crc32 = d.wire_crc32;
  final_size = d.final_size;
  final_crc32 = d.final_crc32;
  resume_offset = d.resume_offset;
  resume_crc = d.resume_prefix_crc32;
  path_length = length d.path;
}

module _ (d : TransferDescriptor) (v : IsDescriptor d) where
  abbrev payload_of : List ℕ
  payload_of =
      1
      ∷ 1
      ∷ direction_value d.direction
      ∷ encoding_value d.encoding
      ∷ open_flags d
      ∷ (d.transfer_id
          ++ (le32 d.wire_size
              ++ (le32 d.wire_crc32
                  ++ (le32 d.final_size
                      ++ (le32 d.final_crc32
                          ++ (le32 d.resume_offset
                              ++ (le32 d.resume_prefix_crc32
                                  ++ (le16 (length d.path) ++ d.path))))))))

  encode_open-payload_of : encode_open d ≡ ok payload_of
  unfolding encode_open
  encode_open-payload_of = rw (IsPath-path_bytes d.path v.path_valid)

  length-payload_of : length payload_of ≡ 47 + length d.path
  length-payload_of = ground (
    arith,
    v.id_length,
    length-append d.transfer_id (
        le32 d.wire_size
        ++ (le32 d.wire_crc32
            ++ (le32 d.final_size
                ++ (le32 d.final_crc32
                    ++ (le32 d.resume_offset
                        ++ (le32 d.resume_prefix_crc32 ++ (le16 (length d.path) ++ d.path))))))),
  )

  short_path : length d.path < 65536
  short_path = omega (arith, v.path_valid.length_le)

  unpack_open-payload_of : unpack_open payload_of ≡ ok (header_of d, d.path)
  unfolding unpack_open read8
  unpack_open-payload_of = rw (
    read_id-append d.transfer_id _ v.id_length,
    read32-le32 d.wire_size _ v.wire_size_fits,
    read32-le32 d.wire_crc32 _ v.wire_crc32_fits,
    read32-le32 d.final_size _ v.final_size_fits,
    read32-le32 d.final_crc32 _ v.final_crc32_fits,
    read32-le32 d.resume_offset _ v.resume_offset_fits,
    read32-le32 d.resume_prefix_crc32 _ v.resume_crc_fits,
    read16-le16 (length d.path) _ short_path,
  )

  open_flags_bits :
      (bit_and (open_flags d) 0xf8 ≡ 0)
      × (bit_and (open_flags d) 4 ≡ 4)
      × (not (bit_and (open_flags d) 1 == 0) ≡ d.resume)
      × (not (bit_and (open_flags d) 2 == 0) ≡ d.receiptless_replay)
  unfolding open_flags
  open_flags_bits = ground arith

  build_open-header_of : build_open (header_of d) d.path ≡ ok d
  unfolding build_open
  build_open-header_of =
      let (_, _, resumed, replayed) = open_flags_bits in
      rw (direction_of-value _ d.direction, encoding_of-value _ d.encoding, resumed, replayed)
        ((new_descriptor_iff d).1 v)

  ascii : any_outside 0 0x7f d.path ≡ false
  ascii = IsPath-ascii d.path v.path_valid

  decode_open-payload_of : decode_open payload_of ≡ ok d
  unfolding decode_open
  decode_open-payload_of =
      let (unknown, pump, _, _) = open_flags_bits in
      ground (
        arith, length-payload_of, unpack_open-payload_of, unknown, pump, ascii,
        build_open-header_of,
      )

-- Every well-formed descriptor is encoded, and its encoding is decoded to this descriptor.
pub decode_open-encode_open :
    (d : TransferDescriptor)
    → IsDescriptor d
    → (payload : List ℕ) × (encode_open d ≡ ok payload) × (decode_open payload ≡ ok d)
decode_open-encode_open d v =
    (payload_of d v, encode_open-payload_of d v, decode_open-payload_of d v)

build_open-IsDescriptor :
    (h : OpenHeader) (path : List ℕ) (d : TransferDescriptor)
    → build_open h path ≡ ok d
    → IsDescriptor d × (d.path ≡ path)
unfolding build_open
build_open-IsDescriptor h path d e =
    elim (Result-cases (direction_of (payload_error "descriptor") h.direction)) [
      | inr (x, ex) ↦ absurd (ground (arith, ex))
      | inl (dir, ed) ↦ elim (Result-cases (encoding_of (payload_error "descriptor") h.encoding)) [
        | inr (x, ex) ↦ absurd (ground (arith, ed, ex))
        | inl (enc, ee) ↦
            let built : new_descriptor (open_args h path dir enc) ≡ ok d = ground (arith, ed, ee) in
            (
              new_descriptor-IsDescriptor (open_args h path dir enc) d built,
              new_descriptor-path (open_args h path dir enc) d built,
            )
      ]
    ]

-- Whatever bytes are decoded as an OPEN request, the descriptor is one that the constructor
-- accepts, and its path is what stands behind the fixed header.
pub decode_open-IsDescriptor :
    (payload : List ℕ) (d : TransferDescriptor)
    → decode_open payload ≡ ok d
    → IsDescriptor d × ((h : OpenHeader) × (unpack_open payload ≡ ok (h, d.path)))
unfolding decode_open
decode_open-IsDescriptor payload d h = elim (Result-cases (unpack_open payload)) [
  | inr (e, ee) ↦ absurd (ground (arith, ee))
  | inl ((head, path), ee) ↦ elim (Result-cases (build_open head path)) [
    | inr (e, eb) ↦ absurd (ground (arith, ee, eb))
    | inl (d', eb) ↦
        let same : d' ≡ d = ground (arith, ee, eb) in
        let (valid, here) = build_open-IsDescriptor head path d (rw same at eb) in
        (valid, (head, rw here ee))
  ]
]

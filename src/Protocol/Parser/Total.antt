-- ===== src/Protocol/Parser/Total.antt =====
-- `feed` of server/msx_protocol.py ends, and lets no exception through.
use msx_ai.Base.{
  ℕ, zero, suc, ◌+◌, ◌-◌, ◌≤◌, ◌<◌, ◌≡◌, refl, sym, ap, ◌∙◌, true, List, [], ◌∷◌, ◌++◌, length,
  take, drop, List-cases, ok, err, Option-cases, arith, Result-cases, inl, inr, All, All-append,
  All-take, All-drop, length-take, length-drop, take-append-drop,
}
use mathlib.Core.Bool.{◌||◌}
use msx_ai.Base.Bytes.{IsByte}
use msx_ai.Protocol.Frame.{
  Frame, ProtocolError, is_decode_error, is_payload_too_large, frame_type_of, wire_int, new_frame,
}
use msx_ai.Protocol.Codec.{Header, decode_header, check_header, unpack_crc, decode_frame}
use msx_ai.Protocol.Codec.Decode.{decode_header_inv}
use msx_ai.Protocol.Parser.{
  FrameParser, find_magic, discard, escape, try_frame, try_header, feed_round, fed, add_frame,
  feed_loop, extend, feed,
}
use msx_ai.Protocol.Parser.Round.{
  waits, retries, delivers, escapes, feed_round-Explained, discard_lem,
}
use msx_ai.Protocol.Parser.Feed.{
  feed_loop-empty, feed_loop-wait, feed_loop-retry, feed_loop-deliver,
}
use msx_ai.Protocol.Parser.Stream.{
  sync, length-sync, inspect, good, inspect-bad_long, inspect-append_good, decode_header-append,
}

-- What the constructor of the parser and the type of its buffer guarantee.
pub record IsParser (p : FrameParser) : Type 0 where
  pub version_fits : p.version < 256
  pub max_payload_fits : p.max_payload < 65536
  pub buffer_bytes : All IsByte p.buffer

-- A header that is whole fails only with an error that the loop takes.
pub header_error :
    (v m : ℕ) (s : List ℕ) (e : ProtocolError)
    → 11 ≤ length s
    → decode_header v m s ≡ err e
    → (is_decode_error e || is_payload_too_large e) ≡ true
unfolding decode_header check_header frame_type_of
header_error v m (m0 ∷ m1 ∷ v' ∷ t ∷ fl ∷ s0 ∷ s1 ∷ op ∷ st ∷ l0 ∷ l1 ∷ rest) e l h = ground arith
header_error v m _ e l h = absurd (omega arith)

unpack_crc_two : (xs : List ℕ) → 2 ≤ length xs → (c : ℕ) × (unpack_crc xs ≡ ok c)
unfolding unpack_crc
unpack_crc_two (a ∷ b ∷ xs) h = (_, refl)
unpack_crc_two (a ∷ []) h = absurd (omega arith)
unpack_crc_two [] h = absurd (omega arith)

-- A candidate with a good header and all of its bytes fails only by its checksum.
whole_error :
    (v m : ℕ) (raw : List ℕ) (h : Header) (e : ProtocolError)
    → v < 256
    → m < 65536
    → All IsByte raw
    → decode_header v m raw ≡ ok h
    → length raw ≡ 13 + h.size
    → decode_frame v m raw ≡ err e
    → is_decode_error e ≡ true
unfolding decode_frame wire_int new_frame
whole_error v m raw h e hv hm bytes eh l x =
    let i = decode_header_inv v m raw h bytes eh in
    let (c, ec) =
      unpack_crc_two (drop (11 + h.size) raw) (omega (arith, length-drop (11 + h.size) raw)) in
    ground (
      arith,
      eh,
      ec,
      i.size_le,
      i.size_fits,
      i.sequence_fits,
      i.opcode_fits,
      i.flags_fits,
      i.status_fits,
      length-drop 11 (take (length raw - 2) raw),
      length-take (length raw - 2) raw,
    )

pub candidate_error :
    (v m : ℕ) (s : List ℕ) (h : Header) (e : ProtocolError)
    → v < 256
    → m < 65536
    → All IsByte s
    → decode_header v m s ≡ ok h
    → 13 + h.size ≤ length s
    → decode_frame v m (take (13 + h.size) s) ≡ err e
    → is_decode_error e ≡ true
candidate_error v m s h e hv hm bytes eh fits x =
    whole_error v m (take (13 + h.size) s) h e hv hm (All-take IsByte (13 + h.size) s bytes) cut l x
  where
    l : length (take (13 + h.size) s) ≡ 13 + h.size
    l = omega (arith, length-take (13 + h.size) s)

    cut : decode_header v m (take (13 + h.size) s) ≡ ok h
    cut =
        sym (
          decode_header-append v m (take (13 + h.size) s) (drop (13 + h.size) s) (omega (arith, l)))
        ∙ ap (decode_header v m) (take-append-drop (13 + h.size) s)
        ∙ eh

try_header-ne-escape :
    (p : FrameParser) → IsParser p → (e : ProtocolError) → try_header p ≡ escape e → ⊥
unfolding try_header try_frame
try_header-ne-escape p v e x =
    elim (Result-cases (decode_header p.version p.max_payload p.buffer)) [
      | inl (h, eh) ↦
          elim (Result-cases (decode_frame p.version p.max_payload (take (13 + h.size) p.buffer))) [
            | inl (f, ef) ↦ ground (arith, eh, ef)
            | inr (y, ey) ↦ ground (
              arith,
              eh,
              ey,
              candidate_error p.version p.max_payload p.buffer h y v.version_fits v.max_payload_fits
                  v.buffer_bytes eh,
            )
          ]
      | inr (y, ey) ↦ ground (arith, ey, header_error p.version p.max_payload p.buffer y)
    ]

feed_round-ne-escape :
    (p : FrameParser) → IsParser p → (e : ProtocolError) → feed_round p ≡ escape e → ⊥
unfolding feed_round
feed_round-ne-escape p v e x = elim (Option-cases (find_magic p.buffer)) [
  | inl missing ↦ ground (arith, missing)
  | inr (k, found) ↦
      let (eb, ev, em) = discard_lem k p in
      try_header-ne-escape (discard k p)
        (record {
          version_fits = rw ev v.version_fits;
          max_payload_fits = rw em v.max_payload_fits;
          buffer_bytes = rw eb (All-drop IsByte k p.buffer v.buffer_bytes);
        })
        e (ground (arith, found))
]

pub sync-IsByte : (b : List ℕ) → All IsByte b → All IsByte (sync b)
unfolding sync
sync-IsByte [] h = tt
sync-IsByte (x ∷ []) h = ground arith
sync-IsByte (x ∷ y ∷ r) h = ground (arith, sync-IsByte (y ∷ r))

record Ends (fuel : ℕ) (p : FrameParser) : Type 0 where
  frames : List Frame
  left : FrameParser
  returns : feed_loop fuel p ≡ fed frames left
  valid : IsParser left

module _ {p q : FrameParser} (v : IsParser p) (b : List ℕ) (bytes : All IsByte b) where
  pub IsParser-at :
      q.buffer ≡ b → q.version ≡ p.version → q.max_payload ≡ p.max_payload → IsParser q
  IsParser-at eb ev em = record {
    version_fits = rw ev v.version_fits;
    max_payload_fits = rw em v.max_payload_fits;
    buffer_bytes = rw eb bytes;
  }

inspect-good_fits :
    (v m : ℕ) (s : List ℕ) (f : Frame) (n : ℕ)
    → inspect v m s ≡ good f n
    → (n ≤ length s) × (13 ≤ n)
inspect-good_fits v m s f n w =
    let (_, fits, long) = inspect-append_good v m s [] f n w in (fits, long)

feed_loop-Ends : (fuel : ℕ) (p : FrameParser) → IsParser p → length p.buffer < fuel → Ends fuel p
feed_loop-Ends zero p v l = elim l [ ]
feed_loop-Ends (suc fuel) p v l = elim (List-cases p.buffer) [
  | inl eb ↦ record { frames = []; left = p; returns = feed_loop-empty fuel p eb; valid = v }
  | inr (x, xs, eb) ↦ elim (feed_round-Explained p) [
    | waits r er w es ev em ↦ record {
      frames = [];
      left = r;
      returns = feed_loop-wait fuel p x xs eb r er;
      valid = IsParser-at v (sync p.buffer) synced es ev em;
    }
    | retries r er w es ev em ↦
        let rest =
          feed_loop-Ends fuel r
            (IsParser-at v (drop 1 (sync p.buffer)) (All-drop IsByte 1 _ synced) es ev em)
            (omega (
              arith,
              ap length es,
              length-drop 1 (sync p.buffer),
              length-sync p.buffer,
              inspect-bad_long p.version p.max_payload (sync p.buffer) w,
            )) in
        record {
          frames = rest.frames;
          left = rest.left;
          returns = feed_loop-retry fuel p x xs eb r er ∙ rest.returns;
          valid = rest.valid;
        }
    | delivers f n r er w es ev em ↦
        let (fits, long) = inspect-good_fits p.version p.max_payload (sync p.buffer) f n w in
        let rest =
          feed_loop-Ends fuel r
            (IsParser-at v (drop n (sync p.buffer)) (All-drop IsByte n _ synced) es ev em)
            (omega (arith, ap length es, length-drop n (sync p.buffer), length-sync p.buffer)) in
        record {
          frames = f ∷ rest.frames;
          left = rest.left;
          returns = feed_loop-deliver fuel p x xs eb f r er ∙ ap (add_frame f) rest.returns;
          valid = rest.valid;
        }
    | escapes y er ↦ absurd (feed_round-ne-escape p v y er)
  ]
]
  where
    synced : All IsByte (sync p.buffer)
    synced = sync-IsByte p.buffer v.buffer_bytes

-- A call of `feed` on a valid parser and any bytes returns frames, raises no exception, and leaves a
-- valid parser: the loop ends by itself within one round more than there are bytes.
pub feed_total :
    (p : FrameParser) (bytes : List ℕ)
    → IsParser p
    → All IsByte bytes
    → (fs : List Frame) × (q : FrameParser) × (feed p bytes ≡ fed fs q) × IsParser q
unfolding feed
feed_total p bytes v h =
    let joined = All-append IsByte p.buffer bytes v.buffer_bytes h in
    let e =
      feed_loop-Ends (suc (length (p.buffer ++ bytes))) (extend p bytes)
        (IsParser-at v (p.buffer ++ bytes) joined refl refl refl) (omega arith) in
    (e.frames, e.left, e.returns, e.valid)

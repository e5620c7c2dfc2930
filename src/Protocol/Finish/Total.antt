-- ===== src/Protocol/Finish/Total.antt =====
-- `finish` of server/msx_protocol.py ends, lets no exception through and empties the buffer.
use msx_ai.Base.{
  ℕ, zero, suc, ◌+◌, ◌≤◌, ◌<◌, ◌≡◌, refl, ap, ◌⊎◌, Bool, true, false, not, ◌&&◌, ◌||◌, none, some,
  List, [], ◌∷◌, ◌++◌, length, take, drop, All, All-drop, length-drop, append-nil, ok, ltb,
  Result-cases, Bool-cases, List-cases, inl, inr, arith,
}
use msx_ai.Base.Bytes.{IsByte}
use msx_ai.Protocol.Frame.{Frame, ProtocolError, truncated_frame, garbage_data}
use msx_ai.Protocol.Codec.{decode_header, decode_frame}
use msx_ai.Protocol.Parser.{FrameParser, fed, feed}
use msx_ai.Protocol.Parser.Feed.{feed-Read}
use msx_ai.Protocol.Parser.Stream.{Scans, pause, skip, emit, sync, length-sync}
use msx_ai.Protocol.Parser.Total.{IsParser, IsParser-at, feed_total, header_error, candidate_error}
use msx_ai.Protocol.Parser.Sound.{Holds, ends, Holds-drop, Scans-Holds}
use msx_ai.Protocol.Finish.{
  valid_at, find_valid_frame, stop, cut, finish_round, finish_tail, give_up, finish_loop, finish,
  starts_with_magic, is_magic_prefix,
}

module _ (v m : ℕ) (hv : v < 256) (hm : m < 65536) where
  valid_at-ok : (s : List ℕ) → All IsByte s → (b : Bool) × (valid_at v m s ≡ ok b)
  unfolding valid_at
  valid_at-ok s bytes = elim (Bool-cases (ltb (length s) 11)) [
    | inl short ↦ (false, ground (arith, short))
    | inr long ↦ elim (Result-cases (decode_header v m s)) [
      | inr (e, ee) ↦ (false, ground (arith, long, ee, header_error v m s e))
      | inl (h, eh) ↦ elim (Bool-cases (ltb (length s) (13 + h.size))) [
        | inl short ↦ (false, ground (arith, long, eh, short))
        | inr fits ↦ elim (Result-cases (decode_frame v m (take (13 + h.size) s))) [
          | inl (f, ef) ↦ (true, ground (arith, long, eh, fits, ef))
          | inr (e, ee) ↦
              (false, ground (arith, long, eh, fits, ee, candidate_error v m s h e hv hm bytes eh))
        ]
      ]
    ]
  ]

  -- The search finds nothing, or a place from the given offset on.
  find_valid_frame-ok :
      (s : List ℕ) (offset : ℕ)
      → All IsByte s
      → (find_valid_frame v m s offset ≡ ok none)
        ⊎ ((k : ℕ) × (find_valid_frame v m s offset ≡ ok (some k)) × (offset ≤ k))
  unfolding find_valid_frame
  find_valid_frame-ok [] offset bytes = inl refl
  find_valid_frame-ok (x ∷ s) offset bytes =
      let (b, eb) = valid_at-ok (x ∷ s) bytes in
      elim (Bool-cases (starts_with_magic (x ∷ s) && b)) [
        | inl here ↦ inr (offset, ground (arith, here, eb), omega arith)
        | inr not_here ↦ elim (find_valid_frame-ok s (suc offset) bytes.1) [
          | inl e ↦ inl (ground (arith, not_here, eb, e))
          | inr (k, e, l) ↦ inr (k, ground (arith, not_here, eb, e), omega arith)
        ]
      ]

-- What a round does: it stops, or leaves a shorter valid buffer.
module _ (p : FrameParser) (v : IsParser p) where
  finish_round-ok :
      (finish_round p ≡ stop)
      ⊎ ((q : FrameParser) × (finish_round p ≡ cut q)
          × IsParser q
          × (length q.buffer < length p.buffer)
          × ((k : ℕ) × (q.buffer ≡ drop k p.buffer)))
  unfolding finish_round
  finish_round-ok =
      elim (Bool-cases (starts_with_magic p.buffer && not (ltb (length p.buffer) 11))) [
        | inr n ↦ inl (ground (arith, n))
        | inl y ↦ elim (Result-cases (decode_header p.version p.max_payload p.buffer)) [
          | inr (e, ee) ↦
              inl (ground (arith, y, ee, header_error p.version p.max_payload p.buffer e))
          | inl (h, eh) ↦ elim (Bool-cases (ltb (length p.buffer) (13 + h.size))) [
            | inr full ↦ inl (ground (arith, y, eh, full))
            | inl short ↦
                elim (find_valid_frame-ok p.version p.max_payload v.version_fits v.max_payload_fits
                  (drop 1 p.buffer) 1 (All-drop IsByte 1 p.buffer v.buffer_bytes)) [
                    | inl e ↦ inl (ground (arith, y, eh, short, e))
                    | inr (k, e, l) ↦
                        let q : FrameParser = record p {
                          buffer = drop k p.buffer;
                          errors = p.errors ++ truncated_frame (13 + h.size) k ∷ [];
                        } in
                        inr (
                          q,
                          ground (arith, y, eh, short, e),
                          IsParser-at v (drop k p.buffer)
                              (All-drop IsByte k p.buffer v.buffer_bytes) refl refl refl,
                          ground (arith, y, length-drop k p.buffer),
                          (k, refl),
                        )
                  ]
          ]
        ]
      ]

  finish_tail-ok : (q : FrameParser) × (finish_tail p ≡ ok q) × (q.buffer ≡ [])
  unfolding finish_tail give_up
  finish_tail-ok = elim (List-cases p.buffer) [
    | inl e ↦ (p, ground (arith, e), e)
    | inr (x, xs, e) ↦ let (y, ey) = report x xs e in (give_up y p, ey, refl)
  ]
    where
      report :
          (x : ℕ) (xs : List ℕ)
          → p.buffer ≡ x ∷ xs
          → (y : ProtocolError) × (finish_tail p ≡ ok (give_up y p))
      report x xs e = elim (Bool-cases (is_magic_prefix p.buffer || starts_with_magic p.buffer)) [
        | inr n ↦ (garbage_data p.buffer, ground (arith, e, n))
        | inl m ↦ elim (Bool-cases (ltb (length p.buffer) 11)) [
          | inl short ↦ (truncated_frame 11 (length p.buffer), ground (arith, e, m, short))
          | inr long ↦ elim (Result-cases (decode_header p.version p.max_payload p.buffer)) [
            | inr (y, ey) ↦
                (y, ground (arith, e, m, long, ey, header_error p.version p.max_payload p.buffer y))
            | inl (h, eh) ↦
                (truncated_frame (13 + h.size) (length p.buffer), ground (arith, e, m, long, eh))
          ]
        ]
      ]

-- Feeding never leaves more bytes than there were.
Scans-length : {v m : ℕ} {b r : List ℕ} {fs : List Frame} → Scans v m b fs r → length r ≤ length b
Scans-length {b = b} (pause e w) = omega (arith, ap length e, length-sync b)
Scans-length {b = b} (skip w d) =
    omega (arith, Scans-length d, length-drop 1 (sync b), length-sync b)
Scans-length {b = b} (emit {n = n} w d) =
    omega (arith, Scans-length d, length-drop n (sync b), length-sync b)

feed-nil_shorter :
    (p q : FrameParser) (fs : List Frame) → feed p [] ≡ fed fs q → length q.buffer ≤ length p.buffer
feed-nil_shorter p q fs e =
    omega (arith, Scans-length (feed-Read p [] fs q e).scanned, ap length (append-nil p.buffer))

feed-nil_Holds :
    (p q : FrameParser) (fs gs : List Frame)
    → IsParser p
    → feed p [] ≡ fed fs q
    → Holds q.buffer gs
    → Holds p.buffer (fs ++ gs)
feed-nil_Holds p q fs gs v e h =
    Scans-Holds gs v.buffer_bytes (rw append-nil at (feed-Read p [] fs q e).scanned) h

-- How the loop goes on.
module _ (fuel : ℕ) (p : FrameParser) where
  finish_loop-stop :
      (q : FrameParser)
      → finish_round p ≡ stop
      → finish_tail p ≡ ok q
      → finish_loop (suc fuel) p ≡ fed [] q
  unfolding finish_loop
  finish_loop-stop q e t = ground arith

  finish_loop-cut :
      (q r s : FrameParser) (fs gs : List Frame)
      → finish_round p ≡ cut q
      → feed q [] ≡ fed fs r
      → finish_loop fuel r ≡ fed gs s
      → finish_loop (suc fuel) p ≡ fed (fs ++ gs) s
  unfolding finish_loop
  finish_loop-cut q r s fs gs e f l = ground arith

finish_loop_total :
    (fuel : ℕ) (p : FrameParser)
    → IsParser p
    → length p.buffer < fuel
    → (fs : List Frame) × (q : FrameParser) × (finish_loop fuel p ≡ fed fs q)
      × (q.buffer ≡ [])
      × Holds p.buffer fs
finish_loop_total zero p v l = elim l [ ]
finish_loop_total (suc fuel) p v l = elim (finish_round-ok p v) [
  | inl e ↦
      let (q, t, b) = finish_tail-ok p v in ([], q, finish_loop-stop fuel p q e t, b, ends p.buffer)
  | inr (q, e, vq, shorter, (k, eq)) ↦
      let (fs, r, er, vr) = feed_total q [] vq tt in
      let (gs, s, es, b, h) =
        finish_loop_total fuel r vr (omega (arith, feed-nil_shorter q r fs er)) in
      (
        fs ++ gs,
        s,
        finish_loop-cut fuel p q r s fs gs e er es,
        b,
        Holds-drop k p.buffer (fs ++ gs) (rw eq at (feed-nil_Holds q r fs gs vq er h)),
      )
]

-- The end of a stream: `finish` on a valid parser returns, raises no exception, and leaves an empty
-- buffer, whatever bytes were waiting; the encodings of the frames that it returns stand in the
-- waiting bytes, whole, disjoint and in this order.
pub finish_total :
    (p : FrameParser)
    → IsParser p
    → (fs : List Frame) × (q : FrameParser) × (finish p ≡ fed fs q)
      × (q.buffer ≡ [])
      × Holds p.buffer fs
unfolding finish
finish_total p v =
    let (fs, q, e, vq) = feed_total p [] v tt in
    let (gs, r, er, b, h) = finish_loop_total (suc (length q.buffer)) q vq (omega arith) in
    (fs ++ gs, r, ground (arith, e, er), b, feed-nil_Holds p q fs gs v e h)

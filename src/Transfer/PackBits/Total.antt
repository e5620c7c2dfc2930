-- ===== src/Transfer/PackBits/Total.antt =====
-- The PackBits encoder of server/msx_transfer.py returns where its limits leave room.
use msx_ai.Base.{
  ℕ, zero, suc, ◌+◌, ◌-◌, ◌*◌, ◌≤◌, ◌≡◌, refl, ap, Bool, true, false, ◌&&◌, List, [], ◌∷◌, ◌++◌,
  length, take, drop, replicate, concat, min, ok, length-append, length-take, length-drop,
  length-replicate, arith, ◌∙◌, inl, inr, Bool-cases, leb, ltb, ◌==◌,
}
use msx_ai.Transfer.PackBits.RoundTrip.{deterministic_packbits-Encoded}
use msx_ai.Transfer.PackBits.{
  PackBits, start, flushes, no_run, begin_run, emit, flush_packet, flush_loop, flush_literals,
  settle_run, push, push_all, read_blocks, deterministic_packbits,
}

-- The bytes written, and two for each literal that waits; with the run, two for each of its bytes.
abbrev settled_weight : PackBits → ℕ
settled_weight s = s.wire_size + 2 * length s.literal

abbrev weight : PackBits → ℕ
weight s = settled_weight s + 2 * s.run_length

module _ (crc32 : List ℕ → ℕ → ℕ) (max_size : ℕ) where
  emit_room :
      (packet : List ℕ) (s : PackBits)
      → s.wire_size + length packet ≤ max_size
      → (t : PackBits) × (emit crc32 max_size packet s ≡ ok t)
        × (t.wire_size ≡ s.wire_size + length packet)
        × (t.literal ≡ s.literal)
        × (t.run_length ≡ s.run_length)
        × (t.final_size ≡ s.final_size)
  unfolding emit
  emit_room packet s h = (
    record s {
      wire = s.wire ++ packet;
      wire_size = s.wire_size + length packet;
      wire_crc = crc32 packet s.wire_crc;
    },
    ground (arith, h),
    refl,
    refl,
    refl,
    refl,
  )

  -- A step that returns, does not add to the weight, and leaves the run and the source size.
  record Grows (s t : PackBits) : Type 0 where
    weight_le : settled_weight t ≤ settled_weight s
    run_eq : t.run_length ≡ s.run_length
    size_eq : t.final_size ≡ s.final_size

  Grows-then : {s t u : PackBits} → Grows s t → Grows t u → Grows s u
  Grows-then g k = record {
    weight_le = omega (arith, g.weight_le, k.weight_le);
    run_eq = k.run_eq ∙ g.run_eq;
    size_eq = k.size_eq ∙ g.size_eq;
  }

  flush_packet_room :
      (s : PackBits)
      → 1 ≤ length s.literal
      → settled_weight s ≤ max_size
      → (t : PackBits) × (flush_packet crc32 max_size s ≡ ok t) × Grows s t
  unfolding flush_packet
  flush_packet_room s some_left h =
      let count = min 128 (length s.literal) in
      let taken = length-take count s.literal in
      let left = length-drop count s.literal in
      let (t, e, w, l, r, f) =
        emit_room ((count - 1) ∷ take count s.literal) (record s { literal = drop count s.literal })
          (omega (arith, taken, some_left, h)) in
      (
        t,
        e,
        record {
          weight_le = omega (arith, ap length l, taken, left, w, some_left);
          run_eq = r;
          size_eq = f;
        },
      )

  flush_loop_room :
      (fuel : ℕ) (final : Bool) (s : PackBits)
      → settled_weight s ≤ max_size
      → (t : PackBits) × (flush_loop crc32 max_size fuel final s ≡ ok t) × Grows s t
  unfolding flush_loop
  flush_loop_room zero final s h = (s, refl, omega arith)
  flush_loop_room (suc fuel) final s h = elim (Bool-cases (flushes final s)) [
    | inr n ↦ (s, rw n refl, omega arith)
    | inl y ↦
        let (u, eu, g) = flush_packet_room s (ground (arith, y)) h in
        let (t, et, k) = flush_loop_room fuel final u (omega (arith, g.weight_le, h)) in
        (t, rw (y, eu) et, Grows-then g k)
  ]

  flush_literals_room :
      (final : Bool) (s : PackBits)
      → settled_weight s ≤ max_size
      → (t : PackBits) × (flush_literals crc32 max_size final s ≡ ok t) × Grows s t
  unfolding flush_literals
  flush_literals_room final s h = flush_loop_room (suc (length s.literal)) final s h

  -- A short run joins the literals.
  abbrev joined : PackBits → PackBits
  joined s = record s { literal = s.literal ++ replicate s.run_length s.run_byte }

  settle_run_room :
      (s : PackBits)
      → weight s ≤ max_size
      → (t : PackBits) × (settle_run crc32 max_size s ≡ ok t)
        × (weight t ≤ weight s)
        × (t.run_length ≡ 0)
        × (t.final_size ≡ s.final_size)
  unfolding settle_run
  settle_run_room s h = elim (Bool-cases (leb 3 s.run_length)) [
    | inl long ↦
        let (t, et, g) = flush_literals_room true s (omega (arith, h)) in
        let three : 3 ≤ s.run_length = ground (arith, long) in
        let (u, eu, w, l, r, f) =
          emit_room ((257 - s.run_length) ∷ s.run_byte ∷ []) t
            (omega (arith, g.weight_le, g.run_eq, three, h)) in
        (
          no_run u,
          rw (long, et, eu) refl,
          omega (arith, ap length l, w, g.weight_le, g.run_eq, three),
          refl,
          f ∙ g.size_eq,
        )
    | inr short ↦ elim (Bool-cases (ltb 0 s.run_length)) [
      | inl some_run ↦
          let filled = length-append s.literal (replicate s.run_length s.run_byte) in
          let run = length-replicate s.run_length s.run_byte in
          let grown : settled_weight (joined s) ≤ weight s = omega (arith, filled, run) in
          let (t, et, g) = flush_literals_room false (joined s) (omega (arith, grown, h)) in
          (
            no_run t,
            rw (short, some_run, et) refl,
            omega (arith, g.weight_le, grown),
            refl,
            g.size_eq,
          )
      | inr none_left ↦ (no_run s, rw (short, none_left) refl, omega arith, refl, refl)
    ]
  ]

  push_room :
      (value : ℕ) (s : PackBits)
      → weight s + 2 ≤ max_size
      → (t : PackBits) × (push crc32 max_size value s ≡ ok t)
        × (weight t ≤ weight s + 2)
        × (t.final_size ≡ s.final_size)
  unfolding push
  push_room value s h =
      let (t, et, w, r, f) = settle_run_room s (omega (arith, h)) in
      let begun : weight (begin_run value t) ≤ weight s + 2 = omega (arith, w) in
      elim (Bool-cases (ltb 0 s.run_length && (value == s.run_byte))) [
        | inr other ↦ (begin_run value t, rw (other, et) refl, begun, f)
        | inl same ↦ elim (Bool-cases (s.run_length == 128)) [
          | inl full ↦ (begin_run value t, rw (same, full, et) refl, begun, f)
          | inr open_run ↦ (
            record s { run_length = s.run_length + 1 },
            rw (same, open_run) refl,
            omega arith,
            refl,
          )
        ]
      ]

  push_all_room :
      (bs : List ℕ) (s : PackBits)
      → weight s + 2 * length bs ≤ max_size
      → (t : PackBits) × (push_all crc32 max_size bs s ≡ ok t)
        × (weight t ≤ weight s + 2 * length bs)
        × (t.final_size ≡ s.final_size)
  unfolding push_all
  push_all_room [] s h = (s, refl, omega arith, refl)
  push_all_room (b ∷ bs) s h =
      let (t, et, w, f) = push_room b s (omega (arith, h)) in
      let (u, eu, x, g) = push_all_room bs t (omega (arith, h, w)) in
      (u, rw et eu, omega (arith, w, x), g ∙ f)

  read_blocks_room :
      (blocks : List (List ℕ)) (s : PackBits)
      → weight s + 2 * length (concat blocks) ≤ max_size
      → s.final_size + length (concat blocks) ≤ max_size
      → (t : PackBits) × (read_blocks crc32 max_size blocks s ≡ ok t)
        × (weight t ≤ weight s + 2 * length (concat blocks))
        × (t.final_size ≡ s.final_size + length (concat blocks))
  unfolding read_blocks
  read_blocks_room [] s h k = (s, refl, omega arith, omega arith)
  read_blocks_room (block ∷ blocks) s h k =
      let split = length-append block (concat blocks) in
      let counted : PackBits = record s {
        final_size = s.final_size + length block;
        final_crc = crc32 block s.final_crc;
      } in
      let (t, et, w, f) = push_all_room block counted (omega (arith, h, split)) in
      let (u, eu, x, g) =
        read_blocks_room blocks t (omega (arith, h, w, split)) (omega (arith, k, f, split)) in
      let fits : ltb (max_size - s.final_size) (length block) ≡ false = ground (arith, k, split) in
      (u, rw (fits, et) eu, omega (arith, w, x, split), omega (arith, f, g, split))

-- Where the size limit is at least twice the size of the source, the encoder returns; it has written
-- at most twice as many bytes as the source has, and has counted both.
pub deterministic_packbits_total :
    (crc32 : List ℕ → ℕ → ℕ) (max_size : ℕ) (blocks : List (List ℕ))
    → 2 * length (concat blocks) ≤ max_size
    → (t : PackBits) × (deterministic_packbits crc32 max_size blocks ≡ ok t)
      × (t.final_size ≡ length (concat blocks))
      × (t.wire_size ≡ length t.wire)
      × (length t.wire ≤ 2 * length (concat blocks))
unfolding deterministic_packbits
deterministic_packbits_total crc32 max_size blocks h =
    let (s, es, w, f) =
      read_blocks_room crc32 max_size blocks start (omega (arith, h)) (omega (arith, h)) in
    let (t, et, x, _, g) = settle_run_room crc32 max_size s (omega (arith, w, h)) in
    let (u, eu, k) = flush_literals_room crc32 max_size true t (omega (arith, w, x, h)) in
    let returns : deterministic_packbits crc32 max_size blocks ≡ ok u = rw (es, et) eu in
    let (_, counted, size) = deterministic_packbits-Encoded crc32 max_size blocks u returns in
    (u, returns, size, counted, omega (arith, counted, k.weight_le, w, x))

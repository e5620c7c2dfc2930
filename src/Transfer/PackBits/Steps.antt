-- ===== src/Transfer/PackBits/Steps.antt =====
-- What each step of the PackBits encoder of server/msx_transfer.py keeps.
use msx_ai.Base.{
  ℕ, zero, suc, ◌+◌, ◌-◌, ◌≤◌, ◌<◌, ◌≡◌, refl, sym, ap, ◌∙◌, Bool, true, false, List, [], ◌∷◌, ◌++◌,
  length, length-append, take, drop, replicate, min, length-append, length-take, length-drop,
  take-append-drop, append-nil, append_assoc, ok, err, Result-cases, ok-injective, Bool-cases, inl,
  inr, arith,
}
use msx_ai.Transfer.Types.{TransferError}
use msx_ai.Transfer.PackBits.Format.{Packed, nothing, literals, run, Packed-append}
use msx_ai.Transfer.PackBits.{PackBits, emit, flush_packet, flushes, flush_loop, flush_literals}

-- The packets written are counted, and stand for the bytes of `ys` but those still in `literal`.
pub record Holds (s : PackBits) (ys : List ℕ) : Type 0 where
  pub out : List ℕ
  pub packed : Packed s.wire out
  pub whole : ys ≡ out ++ s.literal
  pub counted : s.wire_size ≡ length s.wire

-- One literal packet, and one run packet, behind what is there.
Packed-literals :
    {w o : List ℕ} (xs : List ℕ)
    → Packed w o
    → 1 ≤ length xs
    → length xs ≤ 128
    → Packed (w ++ (length xs - 1) ∷ xs) (o ++ xs)
Packed-literals xs p lo hi = Packed-append p (
    literals xs lo hi nothing (ap (λ r. (length xs - 1) ∷ r) (sym (append-nil xs)))
      (sym (append-nil xs)))

pub Packed-run :
    {w o : List ℕ} (n b : ℕ)
    → Packed w o
    → 3 ≤ n
    → n ≤ 128
    → Packed (w ++ (257 - n) ∷ b ∷ []) (o ++ replicate n b)
Packed-run n b p lo hi =
    Packed-append p (run n b lo hi nothing refl (sym (append-nil (replicate n b))))

module _ (crc32 : List ℕ → ℕ → ℕ) (max_size : ℕ) where
  pub emit-eq :
      (packet : List ℕ) (s t : PackBits)
      → emit crc32 max_size packet s ≡ ok t
      → t ≡ record s {
        wire = s.wire ++ packet;
        wire_size = s.wire_size + length packet;
        wire_crc = crc32 packet s.wire_crc;
      }
  unfolding emit
  emit-eq packet s t e = ground arith

  -- What is written is counted.
  pub emit-counted :
      (packet : List ℕ) (s t : PackBits)
      → emit crc32 max_size packet s ≡ ok t
      → s.wire_size ≡ length s.wire
      → t.wire_size ≡ length t.wire
  emit-counted packet s t e c =
      let i = emit-eq packet s t e in
      ap (λ (x : PackBits). x.wire_size) i
      ∙ omega (arith, c, length-append s.wire packet)
      ∙ sym (ap (λ (x : PackBits). length x.wire) i)

  flush_packet-eq :
      (s t : PackBits)
      → flush_packet crc32 max_size s ≡ ok t
      → (t.wire
          ≡ s.wire
            ++ (min 128 (length s.literal) - 1) ∷ take (min 128 (length s.literal)) s.literal)
        × (t.literal ≡ drop (min 128 (length s.literal)) s.literal)
        × (t.run_byte ≡ s.run_byte)
        × (t.run_length ≡ s.run_length)
        × (t.final_size ≡ s.final_size)
        × (s.wire_size ≡ length s.wire → t.wire_size ≡ length t.wire)
  unfolding flush_packet
  flush_packet-eq s t e =
      let count = min 128 (length s.literal) in
      let i =
        emit-eq ((count - 1) ∷ take count s.literal) (record s { literal = drop count s.literal }) t
          e in
      (
        ap (λ (x : PackBits). x.wire) i,
        ap (λ (x : PackBits). x.literal) i,
        ap (λ (x : PackBits). x.run_byte) i,
        ap (λ (x : PackBits). x.run_length) i,
        ap (λ (x : PackBits). x.final_size) i,
        λ c.
            emit-counted ((count - 1) ∷ take count s.literal)
              (record s { literal = drop count s.literal }) t e c,
      )

  flush_packet-Holds :
      (s t : PackBits) (ys : List ℕ)
      → 1 ≤ length s.literal
      → flush_packet crc32 max_size s ≡ ok t
      → Holds s ys
      → Holds t ys
  flush_packet-Holds s t ys lo e h =
      let (ew, el, _, _, _, counts) = flush_packet-eq s t e in
      let count = min 128 (length s.literal) in
      let len : length (take count s.literal) ≡ count =
        omega (arith, length-take count s.literal) in
      record {
        out = h.out ++ take count s.literal;
        packed = rw ew (
            rw len at (
              Packed-literals (take count s.literal) h.packed (omega (arith, len))
                (omega (arith, len))));
        whole = rw (el, append_assoc, take-append-drop) h.whole;
        counted = counts h.counted;
      }

-- After a flush: the same bytes, the same run, and few literals or none.
pub record Flushed (final : Bool) (s t : PackBits) (ys : List ℕ) : Type 0 where
  pub held : Holds t ys
  pub same_byte : t.run_byte ≡ s.run_byte
  pub same_length : t.run_length ≡ s.run_length
  pub same_size : t.final_size ≡ s.final_size
  pub short : length t.literal < 128
  pub emptied : final ≡ true → t.literal ≡ []

empty_of_length : (xs : List ℕ) → length xs ≡ 0 → xs ≡ []
empty_of_length [] h = refl
empty_of_length (x ∷ xs) h = absurd (omega arith)

module _ (crc32 : List ℕ → ℕ → ℕ) (max_size : ℕ) where
  flush_loop-stop :
      (fuel : ℕ) (final : Bool) (s : PackBits)
      → flushes final s ≡ false
      → flush_loop crc32 max_size (suc fuel) final s ≡ ok s
  unfolding flush_loop
  flush_loop-stop fuel final s e = rw e

  flush_loop-go :
      (fuel : ℕ) (final : Bool) (s u : PackBits)
      → flushes final s ≡ true
      → flush_packet crc32 max_size s ≡ ok u
      → flush_loop crc32 max_size (suc fuel) final s ≡ flush_loop crc32 max_size fuel final u
  unfolding flush_loop
  flush_loop-go fuel final s u e p = rw (e, p)

  flush_loop-fail :
      (fuel : ℕ) (final : Bool) (s : PackBits) (x : TransferError)
      → flushes final s ≡ true
      → flush_packet crc32 max_size s ≡ err x
      → flush_loop crc32 max_size (suc fuel) final s ≡ err x
  unfolding flush_loop
  flush_loop-fail fuel final s x e p = rw (e, p)

  flush_loop-Flushed :
      (fuel : ℕ) (final : Bool) (s t : PackBits) (ys : List ℕ)
      → flush_loop crc32 max_size fuel final s ≡ ok t
      → Holds s ys
      → length s.literal < fuel
      → Flushed final s t ys
  flush_loop-Flushed zero final s t ys e h l = elim l [ ]
  flush_loop-Flushed (suc fuel) final s t ys e h l = elim (Bool-cases (flushes final s)) [
    | inr n ↦
        let same : s ≡ t = ok-injective (sym (flush_loop-stop fuel final s n) ∙ e) in
        rw (← same) (record {
          held = h;
          same_byte = refl;
          same_length = refl;
          same_size = refl;
          short = ground (arith, n);
          emptied = λ f. empty_of_length s.literal (ground (arith, n, f));
        })
    | inl y ↦ elim (Result-cases (flush_packet crc32 max_size s)) [
      | inr (x, ex) ↦ absurd (cc (sym e, flush_loop-fail fuel final s x y ex))
      | inl (u, eu) ↦
          let some_literal : 1 ≤ length s.literal = ground (arith, y) in
          let (_, el, eb, er, es, _) = flush_packet-eq crc32 max_size s u eu in
          let rest =
            flush_loop-Flushed fuel final u t ys (sym (flush_loop-go fuel final s u y eu) ∙ e)
              (flush_packet-Holds crc32 max_size s u ys some_literal eu h)
              (omega (arith, ap length el, length-drop (min 128 (length s.literal)) s.literal)) in
          record {
            held = rest.held;
            same_byte = rest.same_byte ∙ eb;
            same_length = rest.same_length ∙ er;
            same_size = rest.same_size ∙ es;
            short = rest.short;
            emptied = rest.emptied;
          }
    ]
  ]

  pub flush_literals-Flushed :
      (final : Bool) (s t : PackBits) (ys : List ℕ)
      → flush_literals crc32 max_size final s ≡ ok t
      → Holds s ys
      → Flushed final s t ys
  unfolding flush_literals
  flush_literals-Flushed final s t ys e h =
      flush_loop-Flushed (suc (length s.literal)) final s t ys e h (omega arith)

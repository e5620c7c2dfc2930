-- ===== src/Transfer/PackBits/RoundTrip.antt =====
-- The PackBits encoder of server/msx_transfer.py: what is encoded is decoded to the source.
use msx_ai.Base.{
  ℕ, zero, suc, ◌+◌, ◌-◌, ◌≤◌, ◌<◌, ◌≡◌, refl, ap, ◌∙◌, true, false, not, List, [], ◌∷◌, ◌++◌,
  length, length-append, replicate, concat, append-nil, append_assoc, ok, ◌>>=◌, raise_if,
  >>=-eq-ok, ok-injective, Result-cases, ltb, ◌==◌, ◌&&◌, Bool-cases, inl, inr, some, arith,
}
use native.Mathlib.Decide.{dec_lt}
use msx_ai.Transfer.Types.{transfer_error}
use msx_ai.Transfer.PackBits.Format.{Packed, nothing, unpackbits, Packed-unpackbits}
use msx_ai.Transfer.PackBits.Steps.{
  Holds, Packed-run, emit-eq, emit-counted, flush_literals-Flushed,
}
use msx_ai.Transfer.PackBits.{
  PackBits, start, emit, flush_literals, no_run, settle_run, begin_run, push, push_all, read_blocks,
  deterministic_packbits,
}

-- A run that has been settled: its bytes are held, and none runs.
record Settled (s t : PackBits) (ys : List ℕ) : Type 0 where
  held : Holds t ys
  short : length t.literal < 128
  none_runs : t.run_length ≡ 0
  same_size : t.final_size ≡ s.final_size

Holds-no_run : (t : PackBits) (ys : List ℕ) → Holds t ys → Holds (no_run t) ys
Holds-no_run t ys h = record {
  out = h.out;
  packed = h.packed;
  whole = h.whole;
  counted = h.counted;
}

module _ (crc32 : List ℕ → ℕ → ℕ) (max_size : ℕ) where
  module _ (s t : PackBits) (ys : List ℕ) (e : settle_run crc32 max_size s ≡ ok t) (h : Holds s ys)
      (fits : s.run_length ≤ 128) where
    settle_long : 3 ≤ s.run_length → Settled s t (ys ++ replicate s.run_length s.run_byte)
    settle_long long = elim (Result-cases (flush_literals crc32 max_size true s)) [
      | inr (x, ex) ↦ absurd (unfold settle_run in ground (arith, ex))
      | inl (u, eu) ↦
          elim (Result-cases (emit crc32 max_size ((257 - s.run_length) ∷ s.run_byte ∷ []) u)) [
            | inr (x, ex) ↦ absurd (unfold settle_run in ground (arith, eu, ex))
            | inl (v, ev) ↦
                let f = flush_literals-Flushed crc32 max_size true s u ys eu h in
                let i = emit-eq crc32 max_size _ u v ev in
                let last : no_run v ≡ t = unfold settle_run in ground (arith, eu, ev) in
                let empty = f.emptied refl in
                rw (← last) (record {
                  held = record {
                    out = f.held.out ++ replicate s.run_length s.run_byte;
                    packed = rw i (Packed-run s.run_length s.run_byte f.held.packed long fits);
                    whole = rw (i, f.held.whole, empty, append-nil, append-nil);
                    counted =
                        emit-counted crc32 max_size ((257 - s.run_length) ∷ s.run_byte ∷ []) u v ev
                          f.held.counted;
                  };
                  short = rw i f.short;
                  none_runs = refl;
                  same_size = ap (λ (x : PackBits). x.final_size) i ∙ f.same_size;
                })
          ]
    ]

    settle_short :
        0 < s.run_length → s.run_length < 3 → Settled s t (ys ++ replicate s.run_length s.run_byte)
    settle_short lo hi =
        let s' : PackBits = record s { literal = s.literal ++ replicate s.run_length s.run_byte } in
        elim (Result-cases (flush_literals crc32 max_size false s')) [
          | inr (x, ex) ↦ absurd (unfold settle_run in ground (arith, ex))
          | inl (u, eu) ↦
              let f =
                flush_literals-Flushed crc32 max_size false s' u
                  (ys ++ replicate s.run_length s.run_byte) eu
                  (record {
                    out = h.out;
                    packed = h.packed;
                    whole = rw (h.whole, append_assoc);
                    counted = h.counted;
                  }) in
              let last : no_run u ≡ t = unfold settle_run in ground (arith, eu) in
              rw (← last) (record {
                held = Holds-no_run u _ f.held;
                short = f.short;
                none_runs = refl;
                same_size = f.same_size;
              })
        ]

    settle_nothing :
        s.run_length ≡ 0
        → length s.literal < 128
        → Settled s t (ys ++ replicate s.run_length s.run_byte)
    settle_nothing z short =
        let last : no_run s ≡ t = unfold settle_run in ground (arith, z) in
        rw (← last, z, append-nil)
          (record { held = Holds-no_run s ys h; short = short; none_runs = refl; same_size = refl })

    settle_run-Settled :
        length s.literal < 128 → Settled s t (ys ++ replicate s.run_length s.run_byte)
    settle_run-Settled short = elim (dec_lt 2 s.run_length) [
      | yes long ↦ settle_long long
      | no n ↦ elim (dec_lt 0 s.run_length) [
        | yes lo ↦ settle_short lo (omega arith)
        | no z ↦ settle_nothing (omega arith) short
      ]
    ]

-- The state between two bytes, when `xs` has been read, in blocks of `n` bytes.
record Encodes (n : ℕ) (s : PackBits) (xs : List ℕ) : Type 0 where
  before : List ℕ
  held : Holds s before
  split : xs ≡ before ++ replicate s.run_length s.run_byte
  short : length s.literal < 128
  fits : s.run_length ≤ 128
  sized : s.final_size ≡ n

replicate_snoc : (n b : ℕ) → replicate (n + 1) b ≡ replicate n b ++ b ∷ []
replicate_snoc zero b = refl
replicate_snoc (suc n) b =
    let e : suc n + 1 ≡ suc (n + 1) = omega arith in rw e (ap (λ r. b ∷ r) (replicate_snoc n b))

module _ (crc32 : List ℕ → ℕ → ℕ) (max_size : ℕ) where
  settle_begin-Encodes :
      (value n : ℕ) (s t : PackBits) (xs : List ℕ)
      → settle_run crc32 max_size s ≡ ok t
      → Encodes n s xs
      → Encodes n (begin_run value t) (xs ++ value ∷ [])
  settle_begin-Encodes value n s t xs e h =
      let d = settle_run-Settled crc32 max_size s t h.before e h.held h.fits h.short in
      record {
        before = xs;
        held = rw h.split (record {
          out = d.held.out;
          packed = d.held.packed;
          whole = d.held.whole;
          counted = d.held.counted;
        });
        split = refl;
        short = d.short;
        fits = omega arith;
        sized = d.same_size ∙ h.sized;
      }

  longer-Encodes :
      (value n : ℕ) (s : PackBits) (xs : List ℕ)
      → value ≡ s.run_byte
      → s.run_length < 128
      → Encodes n s xs
      → Encodes n (record s { run_length = s.run_length + 1 }) (xs ++ value ∷ [])
  longer-Encodes value n s xs same lt h = record {
    before = h.before;
    held = record {
      out = h.held.out;
      packed = h.held.packed;
      whole = h.held.whole;
      counted = h.held.counted;
    };
    split = rw (h.split, same, append_assoc, replicate_snoc);
    short = h.short;
    fits = omega arith;
    sized = h.sized;
  }

  push-Encodes :
      (value n : ℕ) (s t : PackBits) (xs : List ℕ)
      → push crc32 max_size value s ≡ ok t
      → Encodes n s xs
      → Encodes n t (xs ++ value ∷ [])
  push-Encodes value n s t xs e h =
      elim (Bool-cases (ltb 0 s.run_length && (value == s.run_byte) && not (s.run_length == 128))) [
        | inl y ↦
            let last : record s { run_length = s.run_length + 1 } ≡ t =
              unfold push in ground (arith, y) in
            let same : value ≡ s.run_byte = ground (arith, y) in
            let lt : s.run_length < 128 = ground (arith, y, h.fits) in
            rw (← last) (longer-Encodes value n s xs same lt h)
        | inr new ↦ elim (Result-cases (settle_run crc32 max_size s)) [
          | inr (x, ex) ↦ absurd (unfold push in ground (arith, new, ex))
          | inl (u, eu) ↦
              let last : begin_run value u ≡ t = unfold push in ground (arith, new, eu) in
              rw (← last) (settle_begin-Encodes value n s u xs eu h)
        ]
      ]

  push_all-Encodes :
      (bs : List ℕ) (n : ℕ) (s t : PackBits) (xs : List ℕ)
      → push_all crc32 max_size bs s ≡ ok t
      → Encodes n s xs
      → Encodes n t (xs ++ bs)
  unfolding push_all
  push_all-Encodes [] n s t xs e h = rw (append-nil, ← ok-injective e) h
  push_all-Encodes (b ∷ bs) n s t xs e h =
      let (u, eu, e') = >>=-eq-ok (push crc32 max_size b s) (push_all crc32 max_size bs) e in
      rw append_assoc at
        (push_all-Encodes bs n u t (xs ++ b ∷ []) e' (push-Encodes b n s u xs eu h))

  counted-Encodes :
      (n : ℕ) (s : PackBits) (size crc : ℕ) (xs : List ℕ)
      → Encodes n s xs
      → Encodes size (record s { final_size = size; final_crc = crc }) xs
  counted-Encodes n s size crc xs h = record {
    before = h.before;
    held = record {
      out = h.held.out;
      packed = h.held.packed;
      whole = h.held.whole;
      counted = h.held.counted;
    };
    split = h.split;
    short = h.short;
    fits = h.fits;
    sized = refl;
  }

  read_blocks-Encodes :
      (blocks : List (List ℕ)) (n : ℕ) (s t : PackBits) (xs : List ℕ)
      → read_blocks crc32 max_size blocks s ≡ ok t
      → Encodes n s xs
      → Encodes (n + length (concat blocks)) t (xs ++ concat blocks)
  unfolding read_blocks
  read_blocks-Encodes [] n s t xs e h =
      let same : n + 0 ≡ n = omega arith in rw (append-nil, ← ok-injective e, same) h
  read_blocks-Encodes (b ∷ bs) n s t xs e h =
      let s' : PackBits = record s {
        final_size = s.final_size + length b;
        final_crc = crc32 b s.final_crc;
      } in
      let (_, _, e') =
        >>=-eq-ok
          (raise_if (ltb (max_size - s.final_size) (length b)) (transfer_error "source size"))
          (λ _. push_all crc32 max_size b s' >>= read_blocks crc32 max_size bs) e in
      let (u, eu, e'') =
        >>=-eq-ok (push_all crc32 max_size b s') (read_blocks crc32 max_size bs) e' in
      let size : s.final_size + length b + length (concat bs) ≡ n + length (b ++ concat bs) =
        omega (arith, h.sized, length-append b (concat bs)) in
      rw (← size) (
        rw append_assoc at (
          read_blocks-Encodes bs (s.final_size + length b) u t (xs ++ b) e'' (
            push_all-Encodes b (s.final_size + length b) s' u xs eu
              (counted-Encodes n s (s.final_size + length b) (crc32 b s.final_crc) xs h))))

  start-Encodes : Encodes 0 start []
  start-Encodes = record {
    before = [];
    held = record { out = []; packed = nothing; whole = refl; counted = refl };
    split = refl;
    short = omega arith;
    fits = omega arith;
    sized = refl;
  }

  -- What is true of the result: the packets stand for the source, and both counters are right.
  pub deterministic_packbits-Encoded :
      (blocks : List (List ℕ)) (t : PackBits)
      → deterministic_packbits crc32 max_size blocks ≡ ok t
      → Packed t.wire (concat blocks)
        × (t.wire_size ≡ length t.wire)
        × (t.final_size ≡ length (concat blocks))
  unfolding deterministic_packbits
  deterministic_packbits-Encoded blocks t e =
      let (s, es, e') =
        >>=-eq-ok (read_blocks crc32 max_size blocks start)
          (λ s. settle_run crc32 max_size s >>= flush_literals crc32 max_size true) e in
      let (u, eu, e'') =
        >>=-eq-ok (settle_run crc32 max_size s) (flush_literals crc32 max_size true) e' in
      let h = read_blocks-Encodes blocks 0 start s [] es start-Encodes in
      let d = settle_run-Settled crc32 max_size s u h.before eu h.held h.fits h.short in
      let f = flush_literals-Flushed crc32 max_size true u t _ e'' d.held in
      (
        rw (h.split, f.held.whole, f.emptied refl, append-nil) f.held.packed,
        f.held.counted,
        omega (arith, f.same_size, d.same_size, h.sized),
      )

-- What the encoder writes is decoded to the source, byte for byte, however its reads cut the source
-- into blocks.
pub unpackbits-deterministic_packbits :
    (crc32 : List ℕ → ℕ → ℕ) (max_size : ℕ) (blocks : List (List ℕ)) (t : PackBits)
    → deterministic_packbits crc32 max_size blocks ≡ ok t
    → unpackbits t.wire ≡ some (concat blocks)
unpackbits-deterministic_packbits crc32 max_size blocks t e =
    Packed-unpackbits (deterministic_packbits-Encoded crc32 max_size blocks t e).0

-- ===== src/Protocol/Parser/Stream.antt =====
-- What the parser of server/msx_protocol.py computes, as a relation between the bytes of a stream,
-- the frames in it and the bytes that are left waiting; without a buffer, errors or fuel.
use msx_ai.Base.{
  ℕ, ◌+◌, ◌≤◌, ◌≡◌, refl, sym, ap, ◌∙◌, ◌&&◌, List, [], ◌∷◌, ◌++◌, length, take, drop,
  length-append, take-append, drop-append, ok, err, ltb, ◌==◌, if◌then◌else◌, arith, Result-cases,
  inl, inr,
}
use msx_ai.Protocol.Frame.{Frame}
use msx_ai.Protocol.Codec.{decode_header, decode_frame}

-- The stream from its first magic on; a last byte that may begin one is kept.
unfoldable pub sync : List ℕ → List ℕ
sync [] = []
sync (x ∷ []) = if x == 0x4d then x ∷ [] else []
sync (x ∷ y ∷ r) = let rest = sync (y ∷ r) in if (x == 0x4d) && (y == 0x58) then x ∷ y ∷ r else rest

-- What stands at the front of a stream: too little to tell, no frame, or a frame of so many bytes.
pub data Verdict : Type 0 where
  more : Verdict
  bad : Verdict
  good : Frame → ℕ → Verdict

unfoldable pub inspect : (version max_payload : ℕ) → List ℕ → Verdict
inspect version max_payload s =
    if ltb (length s) 11 then more else elim (decode_header version max_payload s) [
      | err _ ↦ bad
      | ok h ↦
          if ltb (length s) (13 + h.size)
          then more
          else elim (decode_frame version max_payload (take (13 + h.size) s)) [
            | err _ ↦ bad
            | ok f ↦ good f (13 + h.size)
          ]
    ]

-- `Scans v m b fs r`: the stream `b` holds the frames `fs`, and `r` waits for more bytes. Where a
-- magic starts no frame, the search goes on one byte further.
pub data Scans (version max_payload : ℕ) : List ℕ → List Frame → List ℕ → Type 0 where
  pause :
      {b r : List ℕ}
      → sync b ≡ r
      → inspect version max_payload r ≡ more
      → Scans version max_payload b [] r
  skip :
      {b r : List ℕ} {fs : List Frame}
      → inspect version max_payload (sync b) ≡ bad
      → Scans version max_payload (drop 1 (sync b)) fs r
      → Scans version max_payload b fs r
  emit :
      {b r : List ℕ} {fs : List Frame} {f : Frame} {n : ℕ}
      → inspect version max_payload (sync b) ≡ good f n
      → Scans version max_payload (drop n (sync b)) fs r
      → Scans version max_payload b (f ∷ fs) r

pub sync-sync_append : (b c : List ℕ) → sync (b ++ c) ≡ sync (sync b ++ c)
unfolding sync
sync-sync_append [] c = refl
sync-sync_append (x ∷ []) [] = ground arith
sync-sync_append (x ∷ []) (y ∷ c) = ground arith
sync-sync_append (x ∷ y ∷ r) c = ground (arith, sync-sync_append (y ∷ r) c)

-- A stream that is long enough after the search begins with the magic.
pub sync-append_long : (b c : List ℕ) → 2 ≤ length (sync b) → sync (sync b ++ c) ≡ sync b ++ c
unfolding sync
sync-append_long [] c h = absurd (omega arith)
sync-append_long (x ∷ []) c h = absurd (ground arith)
sync-append_long (x ∷ y ∷ r) c h = ground (arith, sync-append_long (y ∷ r) c)

pub length-sync : (b : List ℕ) → length (sync b) ≤ length b
unfolding sync
length-sync [] = omega arith
length-sync (x ∷ []) = ground arith
length-sync (x ∷ y ∷ r) = ground (arith, length-sync (y ∷ r))

pub decode_header-append :
    (version max_payload : ℕ) (s c : List ℕ)
    → 11 ≤ length s
    → decode_header version max_payload (s ++ c) ≡ decode_header version max_payload s
unfolding decode_header
decode_header-append version max_payload (m0 ∷ m1 ∷ v ∷ t ∷ fl ∷ s0 ∷ s1 ∷ op ∷ st ∷ l0 ∷ l1 ∷ rest)
      c h =
    refl
decode_header-append version max_payload _ c h = absurd (omega arith)

-- Bytes that follow do not change a verdict that has been reached.
module _ (version max_payload : ℕ) (s c : List ℕ) where
  inspect-append_bad :
      inspect version max_payload s ≡ bad → inspect version max_payload (s ++ c) ≡ bad
  unfolding inspect
  inspect-append_bad e = elim (Result-cases (decode_header version max_payload s)) [
    | inl (h, eh) ↦ ground (
      arith,
      eh,
      length-append s c,
      decode_header-append version max_payload s c,
      take-append (13 + h.size) s c,
    )
    | inr (x, ex) ↦
        ground (arith, ex, length-append s c, decode_header-append version max_payload s c)
  ]

  pub inspect-append_good :
      (f : Frame) (n : ℕ)
      → inspect version max_payload s ≡ good f n
      → (inspect version max_payload (s ++ c) ≡ good f n) × (n ≤ length s) × (13 ≤ n)
  unfolding inspect
  inspect-append_good f n e = elim (Result-cases (decode_header version max_payload s)) [
    | inl (h, eh) ↦ ground (
      arith,
      eh,
      length-append s c,
      decode_header-append version max_payload s c,
      take-append (13 + h.size) s c,
    )
    | inr (x, ex) ↦ absurd (ground (arith, ex))
  ]

-- A verdict other than `more` needs a whole header.
pub inspect-bad_long :
    (version max_payload : ℕ) (s : List ℕ) → inspect version max_payload s ≡ bad → 2 ≤ length s
unfolding inspect
inspect-bad_long version max_payload s h = ground arith

-- Only the stream after the search matters.
pub Scans-sync :
    {version max_payload : ℕ} {b r : List ℕ} {fs : List Frame} (b' : List ℕ)
    → sync b ≡ sync b'
    → Scans version max_payload b fs r
    → Scans version max_payload b' fs r
Scans-sync b' e (pause p w) = pause (sym e ∙ p) w
Scans-sync b' e (skip w d) = skip (rw (← e) w) (rw (← e) d)
Scans-sync b' e (emit {n = n} w d) = emit {n = n} (rw (← e) w) (rw (← e) d)

sync-append_settled : (b c : List ℕ) → 2 ≤ length (sync b) → sync (b ++ c) ≡ sync b ++ c
sync-append_settled b c h = sync-sync_append b c ∙ sync-append_long b c h

good-injective : {f g : Frame} {m n : ℕ} → good f m ≡ good g n → (f ≡ g) × (m ≡ n)
good-injective e = (cc, cc)

-- The bytes that follow join what waits: a stream can be cut anywhere.
pub Scans-append :
    {version max_payload : ℕ} {b r : List ℕ} {fs gs : List Frame} (c : List ℕ) {t : List ℕ}
    → Scans version max_payload b fs r
    → Scans version max_payload (r ++ c) gs t
    → Scans version max_payload (b ++ c) (fs ++ gs) t
Scans-append {version} {max_payload} {b} {r} c (pause e w) rest =
    Scans-sync (b ++ c) (ap (λ s. sync (s ++ c)) (sym e) ∙ sym (sync-sync_append b c)) rest
Scans-append {version} {max_payload} {b} {r} c (skip w d) rest =
    let settled = sync-append_settled b c (inspect-bad_long version max_payload (sync b) w) in
    skip (rw settled (inspect-append_bad version max_payload (sync b) c w)) (
      rw (settled, drop-append 1 (sync b) c (omega (arith, inspect-bad_long _ _ _ w)))
        (Scans-append c d rest))
Scans-append {version} {max_payload} {b} {r} c (emit {f = f} {n = n} w d) rest =
    let (w', fits, long) = inspect-append_good version max_payload (sync b) c f n w in
    let settled = sync-append_settled b c (omega arith) in
    emit {n = n} (rw settled w')
      (rw (settled, drop-append n (sync b) c fits) (Scans-append c d rest))

-- The frames and the waiting bytes are determined by the stream.
pub Scans-unique :
    {version max_payload : ℕ} {b r : List ℕ} {fs : List Frame} {gs : List Frame} {t : List ℕ}
    → Scans version max_payload b fs r
    → Scans version max_payload b gs t
    → (fs ≡ gs) × (r ≡ t)
Scans-unique (pause e w) (pause e' w') = (refl, sym e ∙ e')
Scans-unique (pause e w) (skip w' d') = absurd cc
Scans-unique (pause e w) (emit w' d') = absurd cc
Scans-unique (skip w d) (pause e' w') = absurd cc
Scans-unique (skip w d) (skip w' d') = Scans-unique d d'
Scans-unique (skip w d) (emit w' d') = absurd cc
Scans-unique (emit w d) (pause e' w') = absurd cc
Scans-unique (emit w d) (skip w' d') = absurd cc
Scans-unique {b = b} (emit w d) (emit {r = t} {fs = gs} w' d') =
    let (ef, en) = good-injective (sym w ∙ w') in
    let (efs, er) = Scans-unique d (rw (← en) at d') in (cc (ef, efs), er)

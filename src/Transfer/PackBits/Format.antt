-- ===== src/Transfer/PackBits/Format.antt =====
-- The PackBits format, independently of the encoder of server/msx_transfer.py: packets and a decoder.
use msx_ai.Base.{
  ℕ, zero, suc, ◌+◌, ◌-◌, ◌≤◌, ◌<◌, ◌≡◌, refl, ap, ◌∙◌, Option, none, some, List, [], ◌∷◌, ◌++◌,
  length, take, drop, replicate, length-append, take-append_exact, drop-append_exact, append_assoc,
  ltb, lt→ltb, le→ltb, ◌==◌, if◌then◌else◌, arith,
}

-- `Packed w o`: the packets `w` stand for the bytes `o`. A literal packet holds 1 to 128 bytes, a run
-- stands for 3 to 128.
pub data Packed : List ℕ → List ℕ → Type 0 where
  nothing : Packed [] []
  literals :
      (xs : List ℕ) {w o w' o' : List ℕ}
      → 1 ≤ length xs
      → length xs ≤ 128
      → Packed w o
      → w' ≡ (length xs - 1) ∷ (xs ++ w)
      → o' ≡ xs ++ o
      → Packed w' o'
  run :
      (n b : ℕ) {w o w' o' : List ℕ}
      → 3 ≤ n
      → n ≤ 128
      → Packed w o
      → w' ≡ (257 - n) ∷ b ∷ w
      → o' ≡ replicate n b ++ o
      → Packed w' o'

abbrev prepend : List ℕ → Option (List ℕ) → Option (List ℕ)
prepend xs none = none
prepend xs (some ys) = some (xs ++ ys)

-- The decoder, with fuel for one packet a byte. The control byte 128 is reserved.
unfoldable pub unpack : ℕ → List ℕ → Option (List ℕ)
unpack fuel [] = some []
unpack zero (c ∷ r) = none
unpack (suc fuel) (c ∷ []) = none
unpack (suc fuel) (c ∷ b ∷ r) =
    let literal = prepend (take (c + 1) (b ∷ r)) (unpack fuel (drop (c + 1) (b ∷ r))) in
    let repeated = prepend (replicate (257 - c) b) (unpack fuel r) in
    if ltb c 128
    then if ltb (length (b ∷ r)) (c + 1) then none else literal
    else if c == 128
    then none
    else repeated

unfoldable pub unpackbits : List ℕ → Option (List ℕ)
unpackbits w = unpack (length w) w

-- The branch of a literal packet that is there whole.
unpack-literal_packet :
    (fuel c b : ℕ) (r : List ℕ)
    → c < 128
    → c + 1 ≤ length (b ∷ r)
    → unpack (suc fuel) (c ∷ b ∷ r)
      ≡ prepend (take (c + 1) (b ∷ r)) (unpack fuel (drop (c + 1) (b ∷ r)))
unfolding unpack
unpack-literal_packet fuel c b r lt fits =
    rw (lt→ltb c 128 lt, le→ltb (length (b ∷ r)) (c + 1) fits)

unpack-literals :
    (fuel : ℕ) (xs w o : List ℕ)
    → 1 ≤ length xs
    → length xs ≤ 128
    → unpack fuel w ≡ some o
    → unpack (suc fuel) ((length xs - 1) ∷ (xs ++ w)) ≡ some (xs ++ o)
unpack-literals fuel [] w o lo hi e = absurd (omega arith)
unpack-literals fuel (b ∷ bs) w o lo hi e =
    let c : ℕ = length (b ∷ bs) - 1 in
    let count : c + 1 ≡ length (b ∷ bs) = omega arith in
    unpack-literal_packet fuel c b (bs ++ w) (omega arith) (omega (arith, length-append bs w))
    ∙ rw (take-append_exact (c + 1) (b ∷ bs) w count, drop-append_exact (c + 1) (b ∷ bs) w count, e)

unpack-run :
    (fuel n b : ℕ) (w o : List ℕ)
    → 3 ≤ n
    → n ≤ 128
    → unpack fuel w ≡ some o
    → unpack (suc fuel) ((257 - n) ∷ b ∷ w) ≡ some (replicate n b ++ o)
unfolding unpack
unpack-run fuel n b w o lo hi e =
    let count : 257 - (257 - n) ≡ n = omega arith in ground (arith, count)

Packed-unpack : {w o : List ℕ} (fuel : ℕ) → Packed w o → length w ≤ fuel → unpack fuel w ≡ some o
Packed-unpack zero nothing h = unfold unpack in refl
Packed-unpack (suc fuel) nothing h = unfold unpack in refl
Packed-unpack zero (literals xs lo hi p ew eo) h = absurd (omega (arith, ap length ew))
Packed-unpack zero (run n b lo hi p ew eo) h = absurd (omega (arith, ap length ew))
Packed-unpack (suc fuel) (literals xs {w = w} {o = o} lo hi p ew eo) h =
    rw (ew, eo)
      (unpack-literals fuel xs w o lo hi
        (Packed-unpack fuel p (omega (arith, ap length ew, length-append xs w))))
Packed-unpack (suc fuel) (run n b {w = w} {o = o} lo hi p ew eo) h =
    rw (ew, eo) (unpack-run fuel n b w o lo hi (Packed-unpack fuel p (omega (arith, ap length ew))))

pub Packed-unpackbits : {w o : List ℕ} → Packed w o → unpackbits w ≡ some o
unfolding unpackbits
Packed-unpackbits {w} p = Packed-unpack (length w) p (omega arith)

-- Packets one after the other stand for their bytes one after the other.
pub Packed-append : {w o w' o' : List ℕ} → Packed w o → Packed w' o' → Packed (w ++ w') (o ++ o')
Packed-append nothing q = q
Packed-append {w' = v} {o' = u} (literals xs lo hi p ew eo) q =
    literals xs lo hi (Packed-append p q)
      (rw ew (ap (λ r. (length xs - 1) ∷ r) (append_assoc xs _ v))) (rw eo (append_assoc xs _ u))
Packed-append {w' = v} {o' = u} (run n b lo hi p ew eo) q =
    run n b lo hi (Packed-append p q) (rw ew) (rw eo (append_assoc (replicate n b) _ u))

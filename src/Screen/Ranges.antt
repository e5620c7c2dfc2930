-- ===== src/Screen/Ranges.antt =====
-- The ranges that server/msx_screenshot.py reads.
use msx_ai.Base.{
  ℕ, zero, suc, ◌+◌, ◌-◌, ◌≤◌, ◌≡◌, refl, sym, ap, ◌∙◌, true, false, Bool-cases, List, [], ◌∷◌,
  ◌++◌, append_assoc, ◌==◌, ==→eq, inl, inr, arith,
}
use msx_ai.Screen.{ranges_from, ranges}

-- The addresses of a range, and of ranges one after the other.
abbrev pub span : (start size : ℕ) → List ℕ
span start zero = []
span start (suc size) = start ∷ span (suc start) size

abbrev pub spans : List (ℕ × ℕ) → List ℕ
spans [] = []
spans (r ∷ rs) = span r.0 r.1 ++ spans rs

-- Ranges from an address on, each with an address between its end and the next one.
abbrev pub Separated : ℕ → List (ℕ × ℕ) → Type 0
Separated least [] = Unit {0}
Separated least (r ∷ rs) = (least ≤ r.0) × Separated (suc (r.0 + r.1)) rs

abbrev pub Increasing : ℕ → List ℕ → Type 0
Increasing least [] = Unit {0}
Increasing least (a ∷ rest) = (least ≤ a) × Increasing (suc a) rest

span-snoc : (start size : ℕ) → span start size ++ (start + size) ∷ [] ≡ span start (suc size)
span-snoc start zero = let e : start + 0 ≡ start = omega arith in rw e refl
span-snoc start (suc size) =
    let e : start + suc size ≡ suc start + size = omega arith in
    ap (λ l. start ∷ l) (ap (λ n. span (suc start) size ++ n ∷ []) e ∙ span-snoc (suc start) size)

module _ (start previous a : ℕ) (rest : List ℕ) where
  ranges_from-joined :
      (a == previous + 1) ≡ true → ranges_from start previous (a ∷ rest) ≡ ranges_from start a rest
  unfolding ranges_from
  ranges_from-joined e = ground (arith, e)

  ranges_from-split :
      (a == previous + 1) ≡ false
      → ranges_from start previous (a ∷ rest) ≡ (start, previous - start + 1) ∷ ranges_from a a rest
  unfolding ranges_from
  ranges_from-split e = ground (arith, e)

spans-ranges_from :
    (start previous : ℕ) (rest : List ℕ)
    → start ≤ previous
    → spans (ranges_from start previous rest) ≡ span start (previous - start + 1) ++ rest
unfolding ranges_from
spans-ranges_from start previous [] h = refl
spans-ranges_from start previous (a ∷ rest) h = elim (Bool-cases (a == previous + 1)) [
  | inl e ↦
      let next : a ≡ start + (previous - start + 1) = omega (arith, ==→eq a (previous + 1) e, h) in
      let size : a - start + 1 ≡ suc (previous - start + 1) = omega (arith, next) in
      ap spans (ranges_from-joined start previous a rest e)
      ∙ spans-ranges_from start a rest (omega (arith, next))
      ∙ ap (λ n. span start n ++ rest) size
      ∙ ap (λ l. l ++ rest) (sym (span-snoc start (previous - start + 1)))
      ∙ append_assoc (span start (previous - start + 1)) (_ ∷ []) rest
      ∙ ap (λ n. span start (previous - start + 1) ++ n ∷ rest) (sym next)
  | inr e ↦
      let one : a - a + 1 ≡ 1 = omega arith in
      ap spans (ranges_from-split start previous a rest e)
      ∙ ap (λ l. span start (previous - start + 1) ++ l)
          (spans-ranges_from a a rest (omega arith) ∙ ap (λ n. span a n ++ rest) one)
]

ranges_from-Separated :
    (least start previous : ℕ) (rest : List ℕ)
    → least ≤ start
    → start ≤ previous
    → Increasing (suc previous) rest
    → Separated least (ranges_from start previous rest)
unfolding ranges_from
ranges_from-Separated least start previous [] lt le h = (lt, tt)
ranges_from-Separated least start previous (a ∷ rest) lt le h =
    elim (Bool-cases (a == previous + 1)) [
      | inl e ↦
          rw (ranges_from-joined start previous a rest e)
            (ranges_from-Separated least start a rest lt (omega (arith, h.0, le)) h.1)
      | inr e ↦ rw (ranges_from-split start previous a rest e) (
        lt,
        ranges_from-Separated (suc (start + (previous - start + 1))) a a rest
            (ground (arith, e, h.0, le)) (omega arith) h.1,
      )
    ]

-- The ranges of addresses in increasing order cover these addresses, in order and none twice, and
-- between two ranges lies an address that is not asked for, so no two of them could be one.
pub spans-ranges :
    (ordered : List ℕ)
    → Increasing 0 ordered
    → (spans (ranges ordered) ≡ ordered) × Separated 0 (ranges ordered)
unfolding ranges
spans-ranges [] h = (refl, tt)
spans-ranges (first ∷ rest) h =
    let one : first - first + 1 ≡ 1 = omega arith in
    (
      spans-ranges_from first first rest (omega arith) ∙ ap (λ n. span first n ++ rest) one,
      ranges_from-Separated 0 first first rest (omega arith) (omega arith) h.1,
    )

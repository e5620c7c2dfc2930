-- ===== src/Screen/Capture.antt =====
-- What `_capture_vram` of server/msx_screenshot.py captures.
use native.Mathlib.Decide.{dec_lt}
use msx_ai.Base.{
  ℕ, zero, suc, ◌+◌, ◌-◌, ◌≤◌, ◌<◌, ◌≡◌, refl, ap, ◌∙◌, ◌⊎◌, inl, inr, Bool, true, false,
  Bool-cases, ◌&&◌, ◌||◌, ◌==◌, ==→eq, List, [], ◌∷◌, ◌++◌, leb, ltb, if◌then◌else◌, arith,
}
use msx_ai.Base.Bytes.{byte_at}
use msx_ai.Screen.{ranges, put_bytes, capture_ranges, capture_vram, zeroes}
use msx_ai.Screen.Ranges.{span, spans, Increasing, spans-ranges}

abbrev pub Within : ℕ → List ℕ → Type 0
Within a [] = ⊥
Within a (x ∷ xs) = (a ≡ x) ⊎ Within a xs

abbrev pub values : (ℕ → ℕ) → List ℕ → List ℕ
values memory [] = []
values memory (a ∷ rest) = memory a ∷ values memory rest

-- A read returns the cells that it is asked for.
abbrev pub ReadsCells : (ℕ → ℕ → List ℕ) → (ℕ → ℕ) → Type 0
ReadsCells reader memory = (base size : ℕ) → reader base size ≡ values memory (span base size)

byte_at-values :
    (memory : ℕ → ℕ) (base size i : ℕ)
    → i < size
    → byte_at (values memory (span base size)) i ≡ memory (base + i)
byte_at-values memory base zero i h = absurd (omega arith)
byte_at-values memory base (suc size) zero h =
    ap memory (let e : base ≡ base + 0 = omega arith in e)
byte_at-values memory base (suc size) (suc i) h =
    byte_at-values memory (suc base) size i (omega arith)
    ∙ ap memory (let e : suc base + i ≡ base + suc i = omega arith in e)

Within-span : (a base size : ℕ) → Within a (span base size) → (base ≤ a) × (a < base + size)
Within-span a base zero h = absurd h
Within-span a base (suc size) (inl e) = omega (arith, e)
Within-span a base (suc size) (inr h) = omega (arith, Within-span a (suc base) size h)

span-Within : (a base size : ℕ) → base ≤ a → a < base + size → Within a (span base size)
span-Within a base zero lo hi = absurd (omega arith)
span-Within a base (suc size) lo hi = elim (dec_lt base a) [
  | yes past ↦ inr (span-Within a (suc base) size past (omega (arith, hi)))
  | no within ↦ inl (omega (arith, lo, within))
]

Within-append : (a : ℕ) (xs ys : List ℕ) → Within a (xs ++ ys) → Within a xs ⊎ Within a ys
Within-append a [] ys h = inr h
Within-append a (x ∷ xs) ys (inl e) = inl (inl e)
Within-append a (x ∷ xs) ys (inr h) = elim (Within-append a xs ys h) [
  | inl l ↦ inl (inr l)
  | inr r ↦ inr r
]

append-Within_left : (a : ℕ) (xs ys : List ℕ) → Within a xs → Within a (xs ++ ys)
append-Within_left a [] ys h = absurd h
append-Within_left a (x ∷ xs) ys (inl e) = inl e
append-Within_left a (x ∷ xs) ys (inr h) = inr (append-Within_left a xs ys h)

append-Within_right : (a : ℕ) (xs ys : List ℕ) → Within a ys → Within a (xs ++ ys)
append-Within_right a [] ys h = h
append-Within_right a (x ∷ xs) ys h = inr (append-Within_right a xs ys h)

module _ (reader : ℕ → ℕ → List ℕ) (memory : ℕ → ℕ) (honest : ReadsCells reader memory)
    (a : ℕ) where
  put_bytes-inside :
      (base size : ℕ) (vram : ℕ → ℕ)
      → base ≤ a
      → a < base + size
      → put_bytes base size (reader base size) vram a ≡ memory a
  unfolding put_bytes
  put_bytes-inside base size vram lo hi =
      let chosen : (leb base a && ltb a (base + size)) ≡ true = ground (arith, lo, hi) in
      let cell : base + (a - base) ≡ a = omega (arith, lo) in
      rw chosen (
        ap (λ d. byte_at d (a - base)) (honest base size)
        ∙ byte_at-values memory base size (a - base) (omega (arith, lo, hi))
        ∙ ap memory cell)

  put_bytes-outside :
      (base size : ℕ) (vram : ℕ → ℕ)
      → ¬ Within a (span base size)
      → put_bytes base size (reader base size) vram a ≡ vram a
  unfolding put_bytes
  put_bytes-outside base size vram out = elim (Bool-cases (leb base a && ltb a (base + size))) [
    | inl e ↦
        let inside : (base ≤ a) × (a < base + size) = ground (arith, e) in
        absurd (out (span-Within a base size inside.0 inside.1))
    | inr e ↦ rw e refl
  ]

  put_bytes-kept :
      (base size : ℕ) (vram : ℕ → ℕ)
      → vram a ≡ memory a
      → put_bytes base size (reader base size) vram a ≡ memory a
  put_bytes-kept base size vram kept = elim (dec_lt a base) [
    | yes before ↦
        put_bytes-outside base size vram
          (λ h. absurd (omega (arith, (Within-span a base size h).0, before)))
        ∙ kept
    | no from ↦ elim (dec_lt a (base + size)) [
      | yes inside ↦ put_bytes-inside base size vram (omega (arith, from)) inside
      | no past ↦
          put_bytes-outside base size vram
            (λ h. absurd (omega (arith, (Within-span a base size h).1, past)))
          ∙ kept
    ]
  ]

  capture_ranges-kept :
      (rs : List (ℕ × ℕ)) (vram : ℕ → ℕ)
      → vram a ≡ memory a
      → capture_ranges reader rs vram a ≡ memory a
  unfolding capture_ranges
  capture_ranges-kept [] vram kept = kept
  capture_ranges-kept (r ∷ rs) vram kept =
      capture_ranges-kept rs (put_bytes r.0 r.1 (reader r.0 r.1) vram)
        (put_bytes-kept r.0 r.1 vram kept)

  capture_ranges-inside :
      (rs : List (ℕ × ℕ)) (vram : ℕ → ℕ)
      → Within a (spans rs)
      → capture_ranges reader rs vram a ≡ memory a
  unfolding capture_ranges
  capture_ranges-inside [] vram h = absurd h
  capture_ranges-inside (r ∷ rs) vram h = elim (Within-append a (span r.0 r.1) (spans rs) h) [
    | inl here ↦
        let (lo, hi) = Within-span a r.0 r.1 here in
        capture_ranges-kept rs (put_bytes r.0 r.1 (reader r.0 r.1) vram)
          (put_bytes-inside r.0 r.1 vram lo hi)
    | inr later ↦ capture_ranges-inside rs (put_bytes r.0 r.1 (reader r.0 r.1) vram) later
  ]

  capture_ranges-outside :
      (rs : List (ℕ × ℕ)) (vram : ℕ → ℕ)
      → ¬ Within a (spans rs)
      → capture_ranges reader rs vram a ≡ vram a
  unfolding capture_ranges
  capture_ranges-outside [] vram out = refl
  capture_ranges-outside (r ∷ rs) vram out =
      capture_ranges-outside rs (put_bytes r.0 r.1 (reader r.0 r.1) vram)
        (λ h. out (append-Within_right a (span r.0 r.1) (spans rs) h))
      ∙ put_bytes-outside r.0 r.1 vram (λ h. out (append-Within_left a (span r.0 r.1) (spans rs) h))

-- `a in ordered`.
abbrev pub member : ℕ → List ℕ → Bool
member a [] = false
member a (x ∷ xs) = (a == x) || member a xs

member-true : (a : ℕ) (xs : List ℕ) → member a xs ≡ true → Within a xs
member-true a [] e = absurd cc
member-true a (x ∷ xs) e = elim (Bool-cases (a == x)) [
  | inl same ↦ inl (==→eq a x same)
  | inr other ↦ inr (member-true a xs (ground (arith, e, other)))
]

member-false : (a : ℕ) (xs : List ℕ) → member a xs ≡ false → ¬ Within a xs
member-false a [] e h = h
member-false a (x ∷ xs) e (inl same) = ground (arith, e, same)
member-false a (x ∷ xs) e (inr h) = member-false a xs (ground (arith, e)) h

-- A capture through a truthful reader, of addresses in increasing order, holds the byte of the machine
-- at every address that was asked for, and zero at every other one.
pub capture_vram-exact :
    (reader : ℕ → ℕ → List ℕ) (memory : ℕ → ℕ) (ordered : List ℕ) (a : ℕ)
    → ReadsCells reader memory
    → Increasing 0 ordered
    → capture_vram reader ordered a ≡ (if member a ordered then memory a else 0)
unfolding capture_vram
capture_vram-exact reader memory ordered a honest h =
    let same = (spans-ranges ordered h).0 in
    elim (Bool-cases (member a ordered)) [
      | inl e ↦ rw e (
          capture_ranges-inside reader memory honest a (ranges ordered) zeroes
            (rw same (member-true a ordered e)))
      | inr e ↦ rw e (
          capture_ranges-outside reader memory honest a (ranges ordered) zeroes
            (rw same (member-false a ordered e)))
    ]

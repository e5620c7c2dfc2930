-- ===== src/Transfer/Basic/Chunks.antt =====
-- The BASIC normalizer of server/msx_transfer.py: neither the chunk size nor the cut of the source
-- into blocks changes its result.
use msx_ai.Base.{
  ℕ, ◌≤◌, ◌≡◌, refl, sym, ap, ◌∙◌, List, [], ◌∷◌, ◌++◌, concat, Result, ok, err, ◌>>=◌, arith,
  length-append, Result-cases, ok-injective, inl, inr,
}
use msx_ai.Transfer.Types.{TransferError}
use msx_ai.Transfer.Basic.{
  Basic, start_basic, flush_pending, close_line, finish_line, append_pending, text_byte, line_byte,
  settle_cr, normalize_byte, normalize_block, count_block, normalize_blocks, end_basic,
  normalize_msx_basic_stream,
}
use msx_ai.Transfer.Basic.Views.{
  Settled, Closed, view, map_view, normalize_byte-view, normalize_byte-Settled,
  normalize_byte-Closed, end_basic-view,
}

-- Two states with one view go on alike, with any chunk sizes.
module _ (c d : ℕ) where
  normalize_byte-alike :
      (s t : Basic) (v : ℕ)
      → Settled s
      → Settled t
      → view s ≡ view t
      → map_view (normalize_byte c s v) ≡ map_view (normalize_byte d t v)
  normalize_byte-alike s t v a b e =
      normalize_byte-view c 1 s a v
      ∙ ap (λ x. map_view (normalize_byte 1 x v)) e
      ∙ sym (normalize_byte-view d 1 t b v)

  -- The result of a block of bytes, told apart by its view.
  normalize_block-alike :
      (s t : Basic) (bs : List ℕ)
      → Settled s × Closed s
      → Settled t × Closed t
      → view s ≡ view t
      → (normalize_block c s bs >>= end_basic) ≡ (normalize_block d t bs >>= end_basic)
  unfolding normalize_block
  normalize_block-alike s t [] (a, x) (b, y) e =
      end_basic-view c s a x ∙ ap end_basic e ∙ sym (end_basic-view d t b y)
  normalize_block-alike s t (v ∷ bs) (a, x) (b, y) e =
      let same = normalize_byte-alike s t v a b e in
      elim (Result-cases (normalize_byte c s v)) [
        | inr (f, ef) ↦ elim (Result-cases (normalize_byte d t v)) [
          | inr (g, eg) ↦ ground (arith, ef, eg, same)
          | inl (u, eu) ↦ absurd (ground (arith, ef, eu, same))
        ]
        | inl (u, eu) ↦ elim (Result-cases (normalize_byte d t v)) [
          | inr (g, eg) ↦ absurd (ground (arith, eu, eg, same))
          | inl (w, ew) ↦
              let views : view u ≡ view w =
                ok-injective (ap map_view (sym eu) ∙ same ∙ ap map_view ew) in
              rw (eu, ew)
                (normalize_block-alike u w bs
                  (normalize_byte-Settled c c s a v u eu, normalize_byte-Closed c s a x v u eu)
                  (normalize_byte-Settled d d t b v w ew, normalize_byte-Closed d t b y v w ew)
                  views)
        ]
      ]

-- The size of the source is counted apart from the text.
module _ (c : ℕ) (b : List ℕ) where
  abbrev counted : Result TransferError Basic → Result TransferError Basic
  counted (ok s) = ok (count_block s b)
  counted (err e) = err e

  finish_line-count : (s : Basic) → finish_line (count_block s b) ≡ count_block (finish_line s) b
  unfolding finish_line close_line flush_pending count_block
  finish_line-count s = ground arith

  append_pending-count :
      (s : Basic) (v : ℕ)
      → append_pending c (count_block s b) v ≡ count_block (append_pending c s v) b
  unfolding append_pending flush_pending count_block
  append_pending-count s v = ground arith

  text_byte-count :
      (s : Basic) (v : ℕ) → text_byte c (count_block s b) v ≡ counted (text_byte c s v)
  unfolding text_byte append_pending flush_pending count_block
  text_byte-count s v = ground arith

  line_byte-count :
      (s : Basic) (v : ℕ) → line_byte c (count_block s b) v ≡ counted (line_byte c s v)
  unfolding line_byte count_block
  line_byte-count s v = ground (arith, finish_line-count s, text_byte-count s v)

  settle_cr-count : (s : Basic) → settle_cr (count_block s b) ≡ count_block (settle_cr s) b
  unfolding settle_cr count_block
  settle_cr-count s = ground (arith, finish_line-count s)

  normalize_byte-count :
      (s : Basic) (v : ℕ) → normalize_byte c (count_block s b) v ≡ counted (normalize_byte c s v)
  unfolding normalize_byte count_block
  normalize_byte-count s v =
      ground (arith, settle_cr-count s, line_byte-count s v, line_byte-count (settle_cr s) v)

  normalize_block-count :
      (s : Basic) (bs : List ℕ)
      → normalize_block c (count_block s b) bs ≡ counted (normalize_block c s bs)
  unfolding normalize_block
  normalize_block-count s [] = refl
  normalize_block-count s (v ∷ bs) = elim (Result-cases (normalize_byte c s v)) [
    | inl (t, et) ↦ ground (arith, et, normalize_byte-count s v, normalize_block-count t bs)
    | inr (e, ee) ↦ ground (arith, ee, normalize_byte-count s v)
  ]

module _ (c : ℕ) where
  normalize_block-append :
      (s : Basic) (xs ys : List ℕ)
      → normalize_block c s (xs ++ ys) ≡ (normalize_block c s xs >>= λ t. normalize_block c t ys)
  unfolding normalize_block
  normalize_block-append s [] ys = refl
  normalize_block-append s (v ∷ xs) ys = elim (Result-cases (normalize_byte c s v)) [
    | inl (t, et) ↦ rw et (normalize_block-append t xs ys)
    | inr (e, ee) ↦ rw ee refl
  ]

  count_twice :
      (s : Basic) (b x : List ℕ) → count_block s (b ++ x) ≡ count_block (count_block s b) x
  unfolding count_block
  count_twice s b x = ground (arith, length-append b x)

  -- The blocks are read like one block.
  normalize_blocks-concat :
      (s : Basic) (blocks : List (List ℕ))
      → normalize_blocks c s blocks
        ≡ normalize_block c (count_block s (concat blocks)) (concat blocks)
  unfolding normalize_blocks normalize_block count_block
  normalize_blocks-concat s [] = ground arith
  normalize_blocks-concat s (b ∷ bs) =
      let whole = concat bs in
      let s1 = count_block s b in
      let step = normalize_block-append (count_block s1 whole) b whole in
      let counts = normalize_block-count c whole s1 b in
      rw (count_twice s b whole, step, counts)
        (elim (Result-cases (normalize_block c s1 b)) [
          | inl (t, et) ↦ rw et (normalize_blocks-concat t bs)
          | inr (e, ee) ↦ rw ee refl
        ])

-- With any two positive chunk sizes, and with a source that its reads cut into blocks in any two
-- ways, the normalizer gives the same size and the same text, or raises the same error.
pub normalize_msx_basic_stream-concat :
    (c d : ℕ) (xs ys : List (List ℕ))
    → 1 ≤ c
    → 1 ≤ d
    → concat xs ≡ concat ys
    → normalize_msx_basic_stream c xs ≡ normalize_msx_basic_stream d ys
unfolding normalize_msx_basic_stream Settled Closed count_block
normalize_msx_basic_stream-concat c d xs ys p q e =
    let from : Basic = count_block start_basic (concat ys) in
    let initial : Settled from × Closed from = (λ _. refl, λ _. refl) in
    let alike = normalize_block-alike c d from from (concat ys) initial initial refl in
    let left : normalize_blocks c start_basic xs ≡ normalize_block c from (concat ys) =
      normalize_blocks-concat c start_basic xs
      ∙ ap (λ b. normalize_block c (count_block start_basic b) b) e in
    let right : normalize_blocks d start_basic ys ≡ normalize_block d from (concat ys) =
      normalize_blocks-concat d start_basic ys in
    ground (arith, p, q, alike, left, right)

-- ===== src/Transfer/Basic/Views.antt =====
-- The BASIC normalizer of server/msx_transfer.py, up to what waits in its buffer: what a step writes
-- does not depend on the chunk size.
use msx_ai.Base.{
  ℕ, ◌≡◌, refl, ap, ◌∙◌, true, false, [], ◌∷◌, ◌++◌, take, Result, ok, err, arith, append-nil,
  append_assoc,
}
use msx_ai.Transfer.Types.{TransferError}
use msx_ai.Transfer.Basic.{
  Basic, flush_pending, close_line, finish_line, append_pending, text_byte, line_byte, settle_cr,
  normalize_byte, end_basic,
}

-- Outside a numbered line nothing waits to be written.
unfoldable pub Settled : Basic → Type 0
Settled s = s.line_numbered ≡ false → s.pending_output ≡ []

-- The state with everything written.
abbrev pub view : Basic → Basic
view s = flush_pending s

abbrev pub map_view : Result TransferError Basic → Result TransferError Basic
map_view (ok s) = ok (view s)
map_view (err e) = err e

-- The equations on what is written and what waits that the lemmas below use.
module _ (s : Basic) where
  end_shape :
      (((s.output ++ s.pending_output) ++ []) ++ (13 ∷ 10 ∷ [])
        ≡ (s.output ++ s.pending_output) ++ (13 ∷ 10 ∷ []))
      × (((s.output ++ s.pending_output) ++ (13 ∷ 10 ∷ [])) ++ []
          ≡ (s.output ++ s.pending_output) ++ (13 ∷ 10 ∷ []))
      × (s.output ++ [] ≡ s.output)
      × (take s.line_start s.output ++ [] ≡ take s.line_start s.output)
  end_shape = (rw append-nil refl, append-nil _, append-nil _, append-nil _)

module _ (c d : ℕ) (s : Basic) (v : ℕ) where
  append_pending-view : view (append_pending c s v) ≡ view (append_pending d (view s) v)
  unfolding append_pending flush_pending
  append_pending-view = ground (
    arith,
    append-nil s.output,
    append-nil (s.output ++ s.pending_output),
    append_assoc s.output s.pending_output (v ∷ []),
    append-nil (s.output ++ (s.pending_output ++ (v ∷ []))),
    append-nil ((s.output ++ s.pending_output) ++ (v ∷ [])),
  )

  append_pending-numbered : (append_pending c s v).line_numbered ≡ s.line_numbered
  unfolding append_pending flush_pending
  append_pending-numbered = ground arith

module _ (c d : ℕ) (s : Basic) (settled : Settled s) where
  finish_line-view : finish_line (view s) ≡ view (finish_line s)
  unfolding finish_line close_line flush_pending Settled
  finish_line-view = ground (arith, settled, end_shape s)

  finish_line-Settled : (finish_line s).pending_output ≡ []
  unfolding finish_line close_line flush_pending Settled
  finish_line-Settled = ground (arith, settled)

  flat :
      (s.output ++ [] ≡ s.output)
      × ((s.output ++ s.pending_output) ++ [] ≡ s.output ++ s.pending_output)
      × ((finish_line s).output ++ [] ≡ (finish_line s).output)
  flat = (append-nil _, append-nil _, append-nil _)

  append_nil_out :
      (v : ℕ)
      → ((s.output ++ []) ++ (v ∷ []) ≡ s.output ++ (v ∷ []))
        × ((s.output ++ (v ∷ [])) ++ [] ≡ s.output ++ (v ∷ []))
        × (((s.output ++ []) ++ (v ∷ [])) ++ [] ≡ s.output ++ (v ∷ []))
  append_nil_out v =
      let eq = append-nil s.output in
      (ap (λ o. o ++ (v ∷ [])) eq, append-nil _, append-nil _ ∙ ap (λ o. o ++ (v ∷ [])) eq)

  text_byte-view : (v : ℕ) → map_view (text_byte c s v) ≡ map_view (text_byte d (view s) v)
  unfolding text_byte flush_pending Settled
  text_byte-view v = ground (
    arith,
    settled,
    append_pending-view c d s v,
    append_pending-view c d (record s { line_numbered = true }) v,
    append_nil_out v,
  )

  text_byte-Settled : (v : ℕ) (t : Basic) → text_byte c s v ≡ ok t → Settled t
  unfolding text_byte Settled
  text_byte-Settled v t e f = ground (
    arith,
    settled,
    e,
    f,
    append_pending-numbered c d s v,
    append_pending-numbered c d (record s { line_numbered = true }) v,
  )

  line_byte-view : (v : ℕ) → map_view (line_byte c s v) ≡ map_view (line_byte d (view s) v)
  unfolding line_byte flush_pending
  line_byte-view v =
      ground (arith, settled, finish_line-view, finish_line-Settled, text_byte-view v, flat)

  line_byte-Settled : (v : ℕ) (t : Basic) → line_byte c s v ≡ ok t → Settled t
  unfolding line_byte Settled
  line_byte-Settled v t e f =
      ground (arith, settled, e, f, finish_line-Settled, text_byte-Settled v t)

module _ (c d : ℕ) (s : Basic) (settled : Settled s) where
  settle_cr-view : settle_cr (view s) ≡ view (settle_cr s)
  unfolding settle_cr flush_pending
  settle_cr-view = ground (arith, finish_line-view c d s settled)

  settle_cr-Settled : Settled (settle_cr s)
  unfolding settle_cr Settled
  settle_cr-Settled e = finish_line-Settled c d s settled

  pub normalize_byte-view :
      (v : ℕ) → map_view (normalize_byte c s v) ≡ map_view (normalize_byte d (view s) v)
  unfolding normalize_byte flush_pending
  normalize_byte-view v = ground (
    arith,
    settle_cr-view,
    flat c d s settled,
    flat c d (settle_cr s) settle_cr-Settled,
    line_byte-view c d s settled v,
    line_byte-view c d (settle_cr s) settle_cr-Settled v,
  )

  pub normalize_byte-Settled : (v : ℕ) (t : Basic) → normalize_byte c s v ≡ ok t → Settled t
  unfolding normalize_byte Settled
  normalize_byte-Settled v t e f = ground (
    arith,
    settled,
    settle_cr-Settled,
    e,
    f,
    line_byte-Settled c d s settled v t,
    line_byte-Settled c d (settle_cr s) settle_cr-Settled v t,
  )

-- After the end marker nothing waits to be written.
unfoldable pub Closed : Basic → Type 0
Closed s = s.eof_seen ≡ true → s.pending_output ≡ []

module _ (c : ℕ) (s : Basic) (settled : Settled s) where
  finish_line-eof : (finish_line s).eof_seen ≡ s.eof_seen
  unfolding finish_line close_line flush_pending
  finish_line-eof = ground arith

  append_pending-eof : (v : ℕ) → (append_pending c s v).eof_seen ≡ s.eof_seen
  unfolding append_pending flush_pending
  append_pending-eof v = ground arith

  text_byte-eof : (v : ℕ) (t : Basic) → text_byte c s v ≡ ok t → t.eof_seen ≡ s.eof_seen
  unfolding text_byte append_pending flush_pending
  text_byte-eof v t e = ground (arith, e)

  line_byte-Closed : (v : ℕ) (t : Basic) → s.eof_seen ≡ false → line_byte c s v ≡ ok t → Closed t
  unfolding line_byte Closed
  line_byte-Closed v t running e f =
      ground (
        arith,
        running,
        e,
        f,
        finish_line-Settled c c s settled,
        finish_line-eof,
        text_byte-eof v t,
      )

module _ (c : ℕ) (s : Basic) (settled : Settled s) (closed : Closed s) where
  pub normalize_byte-Closed : (v : ℕ) (t : Basic) → normalize_byte c s v ≡ ok t → Closed t
  unfolding normalize_byte settle_cr Closed
  normalize_byte-Closed v t e f = ground (
    arith,
    closed,
    e,
    f,
    finish_line-Settled c c s settled,
    line_byte-Closed c s settled v t,
    line_byte-Closed c (settle_cr s) (settle_cr-Settled c c s settled) v t,
    finish_line-eof c s settled,
  )

  pub end_basic-view : end_basic s ≡ end_basic (view s)
  unfolding end_basic Closed flush_pending
  end_basic-view = ground (
    arith,
    settled,
    closed,
    finish_line-view c c s settled,
    finish_line-Settled c c s settled,
    append-nil s.output,
    append-nil (finish_line s).output,
  )

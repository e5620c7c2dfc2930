-- ===== src/Protocol/Parser/Round.antt =====
-- One round of the loop of `feed` of server/msx_protocol.py against the relation on streams.
use msx_ai.Base.{
  ℕ, zero, suc, ◌+◌, ◌-◌, ◌≤◌, ◌<◌, ◌≡◌, refl, ◌∙◌, List, [], ◌∷◌, length, take, drop, ok, ltb,
  none, some, Option-cases, if◌then◌else◌, arith, Result-cases, inl, inr, Bool-cases,
}
use mathlib.Core.Path.{subst}
use mathlib.Core.Bool.{◌||◌}
use msx_ai.Protocol.Frame.{Frame, ProtocolError, is_decode_error, is_payload_too_large}
use msx_ai.Protocol.Codec.{Header, decode_header, decode_frame}
use msx_ai.Protocol.Parser.{
  FrameParser, find_magic, ends_with_m, discard, reject, FeedRound, wait, retry, deliver, escape,
  try_frame, try_header, feed_round,
}
use msx_ai.Protocol.Parser.Stream.{sync, inspect, more, bad, good}

drop-sub_suc :
    (n keep : ℕ) (x : ℕ) (xs : List ℕ)
    → keep ≤ n
    → drop (suc n - keep) (x ∷ xs) ≡ drop (n - keep) xs
drop-sub_suc n keep x xs h = let e : suc n - keep ≡ suc (n - keep) = omega arith in rw e

abbrev kept : List ℕ → ℕ
kept b = if ends_with_m b then 1 else 0

-- Where the search fails, all is dropped but a last byte that may begin a magic.
find_magic-none : (b : List ℕ) → find_magic b ≡ none → drop (length b - kept b) b ≡ sync b
unfolding find_magic ends_with_m sync
find_magic-none [] e = refl
find_magic-none (x ∷ []) e = ground arith
find_magic-none (x ∷ y ∷ r) e =
    ground (arith, find_magic-none (y ∷ r), drop-sub_suc (length (y ∷ r)) (kept (y ∷ r)) x (y ∷ r))

length-sync_none : (b : List ℕ) → find_magic b ≡ none → length (sync b) < 11
unfolding find_magic sync
length-sync_none [] e = omega arith
length-sync_none (x ∷ []) e = ground arith
length-sync_none (x ∷ y ∷ r) e = ground (arith, length-sync_none (y ∷ r))

find_magic-some : (b : List ℕ) (k : ℕ) → find_magic b ≡ some k → drop k b ≡ sync b
unfolding find_magic sync
find_magic-some [] k e = cc
find_magic-some (x ∷ []) k e = cc
find_magic-some (x ∷ y ∷ r) zero e = ground arith
find_magic-some (x ∷ y ∷ r) (suc k) e = ground (arith, find_magic-some (y ∷ r) k)

pub discard_lem :
    (n : ℕ) (p : FrameParser)
    → ((discard n p).buffer ≡ drop n p.buffer)
      × ((discard n p).version ≡ p.version)
      × ((discard n p).max_payload ≡ p.max_payload)
unfolding discard
discard_lem zero p = (refl, refl, refl)
discard_lem (suc n) p = (refl, refl, refl)

-- What a round does to a stream `s` that has been searched.
pub data Explained (v m : ℕ) (s : List ℕ) (r : FeedRound) : Type 0 where
  waits :
      (q : FrameParser)
      → r ≡ wait q
      → inspect v m s ≡ more
      → q.buffer ≡ s
      → q.version ≡ v
      → q.max_payload ≡ m
      → Explained v m s r
  retries :
      (q : FrameParser)
      → r ≡ retry q
      → inspect v m s ≡ bad
      → q.buffer ≡ drop 1 s
      → q.version ≡ v
      → q.max_payload ≡ m
      → Explained v m s r
  delivers :
      (f : Frame) (n : ℕ) (q : FrameParser)
      → r ≡ deliver f q
      → inspect v m s ≡ good f n
      → q.buffer ≡ drop n s
      → q.version ≡ v
      → q.max_payload ≡ m
      → Explained v m s r
  escapes : (e : ProtocolError) → r ≡ escape e → Explained v m s r

module _ (p : FrameParser) where
  abbrev Explains : FeedRound → Type 0
  Explains = Explained p.version p.max_payload p.buffer

  try_frame-Explained :
      (h : Header)
      → 11 ≤ length p.buffer
      → decode_header p.version p.max_payload p.buffer ≡ ok h
      → 13 + h.size ≤ length p.buffer
      → Explains (try_frame p h)
  unfolding try_frame inspect reject
  try_frame-Explained h l eh fits =
      elim (Result-cases (decode_frame p.version p.max_payload (take (13 + h.size) p.buffer))) [
        | inl (f, ef) ↦
            delivers f (13 + h.size) (record p { buffer = drop (13 + h.size) p.buffer })
              (ground (arith, ef)) (ground (arith, eh, ef)) refl refl refl
        | inr (e, ee) ↦ elim (Bool-cases (is_decode_error e)) [
          | inl y ↦
              retries (reject e p) (ground (arith, ee, y)) (ground (arith, eh, ee)) refl refl refl
          | inr n ↦ escapes e (ground (arith, ee, n))
        ]
      ]

  try_header-Explained : Explains (try_header p)
  unfolding try_header inspect reject
  try_header-Explained = elim (Bool-cases (ltb (length p.buffer) 11)) [
    | inl short ↦ waits p (ground (arith, short)) (ground (arith, short)) refl refl refl
    | inr long ↦ elim (Result-cases (decode_header p.version p.max_payload p.buffer)) [
      | inl (h, eh) ↦ elim (Bool-cases (ltb (length p.buffer) (13 + h.size))) [
        | inl short' ↦
            waits p (ground (arith, long, eh, short')) (ground (arith, eh, short')) refl refl refl
        | inr long' ↦
            subst Explains (let e : try_frame p h ≡ try_header p = ground (arith, long, eh) in e)
              (try_frame-Explained h (ground (arith, long)) eh (ground (arith, long')))
      ]
      | inr (e, ee) ↦ elim (Bool-cases (is_decode_error e || is_payload_too_large e)) [
        | inl y ↦
            retries (reject e p) (ground (arith, long, ee, y)) (ground (arith, long, ee)) refl refl
              refl
        | inr n ↦ escapes e (ground (arith, long, ee, n))
      ]
    ]
  ]

try_header-Explained_at :
    (q : FrameParser) (v m : ℕ) (s : List ℕ)
    → (q.buffer ≡ s) × (q.version ≡ v) × (q.max_payload ≡ m)
    → Explained v m s (try_header q)
try_header-Explained_at q v m s (es, ev, em) = rw (← es, ← ev, ← em) (try_header-Explained q)

pub feed_round-Explained :
    (p : FrameParser) → Explained p.version p.max_payload (sync p.buffer) (feed_round p)
unfolding feed_round inspect
feed_round-Explained p = elim (Option-cases (find_magic p.buffer)) [
  | inl missing ↦
      let n : ℕ = length p.buffer - kept p.buffer in
      let (eb, ev, em) = discard_lem n p in
      waits (discard n p) (ground (arith, missing))
        (ground (arith, length-sync_none p.buffer missing)) (eb ∙ find_magic-none p.buffer missing)
        ev em
  | inr (k, found) ↦
      let (eb, ev, em) = discard_lem k p in
      subst (Explained p.version p.max_payload (sync p.buffer))
        (let e : try_header (discard k p) ≡ feed_round p = ground (arith, found) in e)
        (try_header-Explained_at (discard k p) _ _ _
          (eb ∙ find_magic-some p.buffer k found, ev, em))
]

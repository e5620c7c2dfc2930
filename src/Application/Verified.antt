-- ===== src/Application/Verified.antt =====
-- What the argument `verify` of `load_application` of server/msx_application.py is worth.
use msx_ai.Base.{
  ℕ, zero, suc, ◌≡◌, refl, sym, ap, ◌∙◌, Bool, true, false, not, Option, List, [], ◌∷◌, length, ok,
  raise_if, arith,
}
use msx_ai.Application.{ApplicationError, Space, Segment, EntryPoint, Mapper, Application}
use msx_ai.Application.Loader.{
  Backend, same_bytes, using, done, check_backend, hook, stop_if, configure, check_written,
  verify_segment, load_segment, load_segments, execute_at, place, load_application,
}
use msx_ai.Application.Placed.{Memory}
use msx_ai.Application.Steps.{then-Returns, using-Returns, left_alone, done-Returns}

-- The cells of a memory from an address on.
abbrev pub cells : Memory → Space → (address size : ℕ) → List ℕ
cells memory space address zero = []
cells memory space address (suc size) = memory space address ∷ cells memory space (suc address) size

-- A read that returns tells the truth and changes nothing. Nothing is said of writes.
abbrev pub ReadsTruly : {B : Type 0} → Backend B → (B → Memory) → Type 0
ReadsTruly {B} backend view =
    (space : Space) (address size : ℕ) (b t : B) (found : List ℕ)
    → backend.read space address size b ≡ (ok found, t)
    → found ≡ cells (view t) space address size

same_bytes_sound : (xs ys : List ℕ) → same_bytes xs ys ≡ true → xs ≡ ys
same_bytes_sound [] [] e = refl
same_bytes_sound [] (y ∷ ys) e = absurd cc
same_bytes_sound (x ∷ xs) [] e = absurd cc
same_bytes_sound (x ∷ xs) (y ∷ ys) e =
    let head : x ≡ y = ground (arith, e) in
    let tail : same_bytes xs ys ≡ true = ground (arith, e) in
    ap (λ z. z ∷ xs) head ∙ ap (λ zs. y ∷ zs) (same_bytes_sound xs ys tail)

refused_unless : (b : Bool) (e : ApplicationError) → raise_if (not b) e ≡ ok tt → b ≡ true
refused_unless true e h = refl
refused_unless false e h = absurd cc

module _ {B : Type 0} (backend : Backend B) (view : B → Memory)
    (honest : ReadsTruly backend view) where
  verify_segment-holds :
      (s : Segment) (b t : B)
      → verify_segment backend true s b ≡ (ok tt, t)
      → cells (view t) s.space s.address (length s.data_bytes) ≡ s.data_bytes
  unfolding verify_segment
  verify_segment-holds s b t e =
      let (found, u, hread, hdone) =
        then-Returns (using (backend.read s.space s.address (length s.data_bytes))) _ b t tt e in
      let (equal, same) = done-Returns _ u t tt hdone in
      let read_back =
        honest s.space s.address (length s.data_bytes) b u found
          (using-Returns (backend.read s.space s.address (length s.data_bytes)) b u found hread) in
      ap (λ v. cells (view v) s.space s.address (length s.data_bytes)) same
      ∙ sym read_back
      ∙ same_bytes_sound found s.data_bytes (refused_unless _ _ equal)

  load_segment-holds :
      (s : Segment) (b t : B)
      → load_segment backend true s b ≡ (ok tt, t)
      → cells (view t) s.space s.address (length s.data_bytes) ≡ s.data_bytes
  unfolding load_segment
  load_segment-holds s b t e =
      let (written, u, _, e1) =
        then-Returns (using (backend.write s.space s.address s.data_bytes)) _ b t tt e in
      let (_, w, _, hverify) =
        then-Returns (done (check_written backend s written)) (λ _. verify_segment backend true s) u
          t tt e1 in
      verify_segment-holds s w t hverify

  load_one-holds :
      (s : Segment) (b t : B)
      → load_segments backend true (s ∷ []) b ≡ (ok tt, t)
      → cells (view t) s.space s.address (length s.data_bytes) ≡ s.data_bytes
  unfolding load_segments
  load_one-holds s b t e =
      let (_, u, hfirst, hrest) =
        then-Returns (load_segment backend true s) (λ _. load_segments backend true []) b t tt e in
      ap (λ v. cells (view v) s.space s.address (length s.data_bytes)) (left_alone u t hrest)
      ∙ load_segment-holds s b u hfirst

  place-holds :
      (application : Application) (s : Segment) (mapper : Option Mapper) (stop : Bool) (b t : B)
      → application.segments ≡ s ∷ []
      → place backend application mapper true stop b ≡ (ok tt, t)
      → cells (view t) s.space s.address (length s.data_bytes) ≡ s.data_bytes
  unfolding place
  place-holds application s mapper stop b t one e =
      let (_, b1, _, e1) = then-Returns (hook backend backend.preflight application) _ b t tt e in
      let (_, b2, _, e2) = then-Returns (stop_if backend stop) _ b1 t tt e1 in
      let (_, b3, _, e3) = then-Returns (configure backend mapper) _ b2 t tt e2 in
      let (_, b4, _, e4) =
        then-Returns (hook backend backend.prepare application)
          (λ _. load_segments backend true application.segments) b3 t tt e3 in
      load_one-holds s b4 t (ap (λ l. load_segments backend true l b4) (sym one) ∙ e4)

-- A verified load of an application of one segment, as every image is, that returns has brought the
-- backend to a state whose memory holds the bytes of the segment at its address, and has then only
-- executed the entry; the reads of the backend are trusted, its writes are not.
pub load_application-verified :
    {B : Type 0} (backend : Backend B) (view : B → Memory) (application : Application) (s : Segment)
    (entry : EntryPoint) (stop_before_load : Bool) (b t : B)
    → ReadsTruly backend view
    → application.segments ≡ s ∷ []
    → load_application backend application entry true stop_before_load b ≡ (ok tt, t)
    → (u : B) × (cells (view u) s.space s.address (length s.data_bytes) ≡ s.data_bytes)
      × (execute_at backend entry.mode entry.address u ≡ (ok tt, t))
unfolding load_application
load_application-verified backend view application s entry stop b t honest one e =
    let (mapper, b1, h1, e1) =
      then-Returns (done (check_backend backend application entry true stop)) _ b t tt e in
    let (_, u, h2, e2) =
      then-Returns (place backend application mapper true stop)
        (λ _. execute_at backend entry.mode entry.address) b1 t tt e1 in
    (u, place-holds backend view honest application s mapper stop b1 u one h2, e2)

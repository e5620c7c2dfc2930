-- ===== src/Application/Placed.antt =====
-- What `load_application` of server/msx_application.py leaves in the memory of a backend.
use msx_ai.Base.{
  ℕ, ◌+◌, ◌-◌, ◌≡◌, refl, ap, ◌∙◌, ◌⊎◌, inl, inr, Bool, true, false, ◌&&◌, Option, none, some, List,
  [], ◌∷◌, length, ok, arith, ltb, leb, if◌then◌else◌,
}
use msx_ai.Base.Bytes.{byte_at}
use msx_ai.Application.{Space, ram, vram, Segment, EntryPoint, Mapper, Application}
use msx_ai.Application.Loader.{
  Backend, using, ◌then◌, done, check_backend, hook, stop_if, configure, check_written,
  verify_segment, load_segment, load_segments, execute_at, place, load_application,
}
use msx_ai.Application.Steps.{then-Returns, using-Returns, left_alone, done-Returns}

-- A memory of both spaces, and the same one with a segment written into it.
abbrev pub Memory : Type 0
Memory = Space → ℕ → ℕ

abbrev pub same_space : Space → Space → Bool
same_space ram ram = true
same_space vram vram = true
same_space _ _ = false

abbrev pub overlay : Segment → Memory → Memory
overlay s memory space address =
    if same_space space s.space
      && leb s.address address
      && ltb address (s.address + length s.data_bytes)
    then byte_at s.data_bytes (address - s.address)
    else memory space address

-- The segments in order: a later one covers an earlier one.
abbrev pub overlay_all : List Segment → Memory → Memory
overlay_all [] memory = memory
overlay_all (s ∷ segments) memory = overlay_all segments (overlay s memory)

-- A backend whose memory is `view`: a write that returns the number of the bytes given, or no number,
-- has written them, and of one that returns another number nothing is known; nothing else that comes before the execution changes the memory.
pub record IsMemory {B : Type 0} (backend : Backend B) (view : B → Memory) : Type 0 where
  pub write_stores :
      (s : Segment) (b t : B) (written : Option ℕ)
      → backend.write s.space s.address s.data_bytes b ≡ (ok written, t)
      → (written ≡ none) ⊎ (written ≡ some (length s.data_bytes))
      → view t ≡ overlay s (view b)
  pub read_quiet :
      (space : Space) (address size : ℕ) (b t : B) (found : List ℕ)
      → backend.read space address size b ≡ (ok found, t)
      → view t ≡ view b
  pub preflight_quiet :
      (application : Application) (b t : B)
      → hook backend backend.preflight application b ≡ (ok tt, t)
      → view t ≡ view b
  pub prepare_quiet :
      (application : Application) (b t : B)
      → hook backend backend.prepare application b ≡ (ok tt, t)
      → view t ≡ view b
  pub stop_quiet : (b t : B) → backend.stop b ≡ (ok tt, t) → view t ≡ view b
  pub configure_quiet :
      (m : Mapper) (b t : B) → backend.configure_mapper m b ≡ (ok tt, t) → view t ≡ view b

-- A write that passes the check has not returned another number.
check_written-whole :
    {B : Type 0} (backend : Backend B) (s : Segment) (written : Option ℕ)
    → check_written backend s written ≡ ok tt
    → (written ≡ none) ⊎ (written ≡ some (length s.data_bytes))
unfolding check_written
check_written-whole backend s none e = inl refl
check_written-whole backend s (some n) e =
    let same : n ≡ length s.data_bytes = ground (arith, e) in inr (ap some same)

module _ {B : Type 0} (backend : Backend B) (view : B → Memory) (m : IsMemory backend view) where
  verify_segment-Quiet :
      (verify : Bool) (s : Segment) (b t : B)
      → verify_segment backend verify s b ≡ (ok tt, t)
      → view t ≡ view b
  unfolding verify_segment
  verify_segment-Quiet false s b t e = ap view (left_alone b t e)
  verify_segment-Quiet true s b t e =
      let (found, u, hread, hdone) = then-Returns _ _ b t tt e in
      let (_, same) = done-Returns _ u t tt hdone in
      ap view same
      ∙ m.read_quiet s.space s.address (length s.data_bytes) b u found
          (using-Returns (backend.read s.space s.address (length s.data_bytes)) b u found hread)

  load_segment-stores :
      (verify : Bool) (s : Segment) (b t : B)
      → load_segment backend verify s b ≡ (ok tt, t)
      → view t ≡ overlay s (view b)
  unfolding load_segment
  load_segment-stores verify s b t e =
      let (written, u, hwrite, e1) =
        then-Returns (using (backend.write s.space s.address s.data_bytes)) _ b t tt e in
      let (_, w, hdone, hverify) =
        then-Returns (done (check_written backend s written)) (λ _. verify_segment backend verify s)
          u t tt e1 in
      let (fine, same) = done-Returns (check_written backend s written) u w tt hdone in
      verify_segment-Quiet verify s w t hverify
      ∙ ap view same
      ∙ m.write_stores s b u written
          (using-Returns (backend.write s.space s.address s.data_bytes) b u written hwrite)
          (check_written-whole backend s written fine)

  load_segments-stores :
      (verify : Bool) (segments : List Segment) (b t : B)
      → load_segments backend verify segments b ≡ (ok tt, t)
      → view t ≡ overlay_all segments (view b)
  unfolding load_segments
  load_segments-stores verify [] b t e = ap view (left_alone b t e)
  load_segments-stores verify (s ∷ segments) b t e =
      let (_, u, hfirst, hrest) =
        then-Returns (load_segment backend verify s) (λ _. load_segments backend verify segments) b
          t tt e in
      load_segments-stores verify segments u t hrest
      ∙ ap (overlay_all segments) (load_segment-stores verify s b u hfirst)

  stop_if-Quiet : (stop : Bool) (b t : B) → stop_if backend stop b ≡ (ok tt, t) → view t ≡ view b
  unfolding stop_if
  stop_if-Quiet false b t e = ap view (left_alone b t e)
  stop_if-Quiet true b t e = m.stop_quiet b t (using-Returns backend.stop b t tt e)

  configure-Quiet :
      (mapper : Option Mapper) (b t : B) → configure backend mapper b ≡ (ok tt, t) → view t ≡ view b
  unfolding configure
  configure-Quiet none b t e = ap view (left_alone b t e)
  configure-Quiet (some spec) b t e =
      m.configure_quiet spec b t (using-Returns (backend.configure_mapper spec) b t tt e)

  place-stores :
      (application : Application) (mapper : Option Mapper) (verify stop : Bool) (b t : B)
      → place backend application mapper verify stop b ≡ (ok tt, t)
      → view t ≡ overlay_all application.segments (view b)
  unfolding place
  place-stores application mapper verify stop b t e =
      let (_, b1, h1, e1) = then-Returns (hook backend backend.preflight application) _ b t tt e in
      let (_, b2, h2, e2) = then-Returns (stop_if backend stop) _ b1 t tt e1 in
      let (_, b3, h3, e3) = then-Returns (configure backend mapper) _ b2 t tt e2 in
      let (_, b4, h4, e4) =
        then-Returns (hook backend backend.prepare application)
          (λ _. load_segments backend verify application.segments) b3 t tt e3 in
      load_segments-stores verify application.segments b4 t e4
      ∙ ap (overlay_all application.segments) (
          m.prepare_quiet application b3 b4 h4
          ∙ configure-Quiet mapper b2 b3 h3
          ∙ stop_if-Quiet stop b1 b2 h2
          ∙ m.preflight_quiet application b b1 h1)

-- On a backend with a memory, a load that returns has brought it to a state whose memory is the one
-- before the load with the segments of the application written over it in order, and has then only
-- executed the entry.
pub load_application-stores :
    {B : Type 0} (backend : Backend B) (view : B → Memory) (application : Application)
    (entry : EntryPoint) (verify stop_before_load : Bool) (b t : B)
    → IsMemory backend view
    → load_application backend application entry verify stop_before_load b ≡ (ok tt, t)
    → (u : B) × (view u ≡ overlay_all application.segments (view b))
      × (execute_at backend entry.mode entry.address u ≡ (ok tt, t))
unfolding load_application
load_application-stores backend view application entry verify stop b t m e =
    let (mapper, b1, h1, e1) =
      then-Returns (done (check_backend backend application entry verify stop)) _ b t tt e in
    let (_, same) =
      done-Returns (check_backend backend application entry verify stop) b b1 mapper h1 in
    let (_, u, h2, e2) =
      then-Returns (place backend application mapper verify stop)
        (λ _. execute_at backend entry.mode entry.address) b1 t tt e1 in
    (
      u,
      place-stores backend view m application mapper verify stop b1 u h2
          ∙ ap (λ v. overlay_all application.segments (view v)) same,
      e2,
    )

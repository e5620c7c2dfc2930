-- ===== src/Application/Total.antt =====
-- Loads by server/msx_application.py onto a backend that does what it is asked for.
use msx_ai.Base.{
  ℕ, suc, ◌+◌, ◌-◌, ◌<◌, ◌≡◌, refl, ap, ◌∙◌, inr, Bool, true, false, not, Option, none, some, List,
  [], ◌∷◌, length, Result, ok, err, raise_if, ltb, leb, if◌then◌else◌, arith,
}
use msx_ai.Base.Bytes.{byte_at}
use msx_ai.Application.{
  integrity_error, Space, ram, vram, Segment, EntryMode, stay, call, run, EntryPoint, Mapper,
  Application,
}
use msx_ai.Application.Loader.{
  LoadError, raised, Backend, same_bytes, Load, using, ◌then◌, done, check_backend, hook, stop_if,
  configure, check_written, verify_segment, load_segment, load_segments, execute_at, place,
  load_application,
}
use msx_ai.Application.Steps.{then-did}
use msx_ai.Application.Placed.{Memory, same_space, overlay, IsMemory}
use msx_ai.Application.Verified.{cells}

-- A backend whose methods return: a write the number of bytes, a read the cells of its memory.
pub record IsWilling {B : Type 0} (backend : Backend B) (view : B → Memory) : Type 0 where
  pub write_returns :
      (s : Segment) (b : B)
      → (t : B) × (backend.write s.space s.address s.data_bytes b
          ≡ (ok (some (length s.data_bytes)), t))
  pub read_returns :
      (space : Space) (address size : ℕ) (b : B)
      → (t : B) × (backend.read space address size b ≡ (ok (cells (view b) space address size), t))
  pub preflight_returns :
      (application : Application) (b : B)
      → (t : B) × (hook backend backend.preflight application b ≡ (ok tt, t))
  pub prepare_returns :
      (application : Application) (b : B)
      → (t : B) × (hook backend backend.prepare application b ≡ (ok tt, t))
  pub stop_returns : (b : B) → (t : B) × (backend.stop b ≡ (ok tt, t))
  pub configure_returns :
      (m : Mapper) (b : B) → (t : B) × (backend.configure_mapper m b ≡ (ok tt, t))
  pub execute_returns :
      (mode : EntryMode) (address : ℕ) (b : B)
      → (t : B) × (backend.execute mode address b ≡ (ok tt, t))

cells-same :
    (memory : Memory) (space : Space) (address : ℕ) (d : List ℕ)
    → ((i : ℕ) → i < length d → memory space (address + i) ≡ byte_at d i)
    → cells memory space address (length d) ≡ d
cells-same memory space address [] h = refl
cells-same memory space address (x ∷ d) h =
    let start : address ≡ address + 0 = omega arith in
    ap (λ y. y ∷ cells memory space (suc address) (length d))
      (ap (memory space) start ∙ h 0 (omega arith))
    ∙ ap (λ l. x ∷ l)
        (cells-same memory space (suc address) d (λ i lt.
          ap (memory space) (let e : suc address + i ≡ address + suc i = omega arith in e)
          ∙ h (suc i) (omega (arith, lt))))

same_space_same : (space : Space) → same_space space space ≡ true
same_space_same ram = refl
same_space_same vram = refl

overlay-inside :
    (s : Segment) (memory : Memory) (i : ℕ)
    → i < length s.data_bytes
    → overlay s memory s.space (s.address + i) ≡ byte_at s.data_bytes i
overlay-inside s memory i lt =
    let low : leb s.address (s.address + i) ≡ true = ground arith in
    let high : ltb (s.address + i) (s.address + length s.data_bytes) ≡ true = ground (arith, lt) in
    let offset : s.address + i - s.address ≡ i = omega arith in
    rw (same_space_same s.space, low, high) (ap (byte_at s.data_bytes) offset)

same_bytes_refl : (d : List ℕ) → same_bytes d d ≡ true
same_bytes_refl [] = refl
same_bytes_refl (x ∷ d) = ground (arith, same_bytes_refl d)

module _ {B : Type 0} where
  using-did :
      {A : Type 0} (method : B → Result ℕ A × B) (b t : B) (a : A)
      → method b ≡ (ok a, t)
      → using method b ≡ (ok a, t)
  unfolding using
  using-did {A} method b t a e =
      ap
        (λ (p : Result ℕ A × B). elim p.0 as (λ _. Result LoadError A × B) [
          | ok x ↦ (ok x, p.1)
          | err y ↦ (err (raised y), p.1)
        ])
        e

module _ {B : Type 0} (backend : Backend B) (view : B → Memory) (m : IsMemory backend view)
    (w : IsWilling backend view) where
  -- A step that returns, wherever it starts.
  abbrev Ends : Load B (Unit {0}) → Type 0
  Ends step = (b : B) → (t : B) × (step b ≡ (ok tt, t))

  then-Ends :
      (first : Load B (Unit {0})) (rest : Unit {0} → Load B (Unit {0}))
      → Ends first
      → Ends (rest tt)
      → Ends (first then rest)
  then-Ends first rest h k b =
      let (u, e) = h b in let (t, e') = k u in (t, then-did first rest b u tt e ∙ e')

  check_written-whole : (s : Segment) → check_written backend s (some (length s.data_bytes)) ≡ ok tt
  unfolding check_written
  check_written-whole s = ground arith

  passes :
      (s : Segment) (found : List ℕ)
      → found ≡ s.data_bytes
      → raise_if (not (same_bytes found s.data_bytes)) (integrity_error "verification failed")
        ≡ ok tt
  passes s found same =
      let equal : same_bytes found s.data_bytes ≡ true =
        ap (λ d. same_bytes d s.data_bytes) same ∙ same_bytes_refl s.data_bytes in
      rw equal refl

  -- Right after a segment is written, it is read back as it was.
  verify_segment-ends :
      (verify : Bool) (s : Segment) (b : B)
      → cells (view b) s.space s.address (length s.data_bytes) ≡ s.data_bytes
      → (t : B) × (verify_segment backend verify s b ≡ (ok tt, t))
  unfolding verify_segment done
  verify_segment-ends false s b same = (b, refl)
  verify_segment-ends true s b same =
      let (t, e) = w.read_returns s.space s.address (length s.data_bytes) b in
      (
        t,
        then-did (using (backend.read s.space s.address (length s.data_bytes))) _ b t _
              (using-did (backend.read s.space s.address (length s.data_bytes)) b t _ e)
            ∙ ap (λ r. done r t)
                (passes s (cells (view b) s.space s.address (length s.data_bytes)) same),
      )

  load_segment-Ends : (verify : Bool) (s : Segment) → Ends (load_segment backend verify s)
  unfolding load_segment done
  load_segment-Ends verify s b =
      let (u, e) = w.write_returns s b in
      let whole = check_written-whole s in
      let stored = m.write_stores s b u (some (length s.data_bytes)) e (inr refl) in
      let there : cells (view u) s.space s.address (length s.data_bytes) ≡ s.data_bytes =
        ap (λ v. cells v s.space s.address (length s.data_bytes)) stored
        ∙ cells-same (overlay s (view b)) s.space s.address s.data_bytes
            (overlay-inside s (view b)) in
      let (t, e') = verify_segment-ends verify s u there in
      (
        t,
        then-did (using (backend.write s.space s.address s.data_bytes)) _ b u _
              (using-did (backend.write s.space s.address s.data_bytes) b u _ e)
            ∙ then-did (done (check_written backend s (some (length s.data_bytes))))
                (λ _. verify_segment backend verify s) u u tt (ap (λ r. done r u) whole)
            ∙ e',
      )

  load_segments-Ends :
      (verify : Bool) (segments : List Segment) → Ends (load_segments backend verify segments)
  unfolding load_segments
  load_segments-Ends verify [] b = (b, refl)
  load_segments-Ends verify (s ∷ segments) b =
      then-Ends (load_segment backend verify s) (λ _. load_segments backend verify segments)
        (load_segment-Ends verify s) (load_segments-Ends verify segments) b

  stop_if-Ends : (stop : Bool) → Ends (stop_if backend stop)
  unfolding stop_if
  stop_if-Ends false b = (b, refl)
  stop_if-Ends true b = let (t, e) = w.stop_returns b in (t, using-did backend.stop b t tt e)

  configure-Ends : (mapper : Option Mapper) → Ends (configure backend mapper)
  unfolding configure
  configure-Ends none b = (b, refl)
  configure-Ends (some spec) b =
      let (t, e) = w.configure_returns spec b in
      (t, using-did (backend.configure_mapper spec) b t tt e)

  execute_at-Ends : (mode : EntryMode) (address : Option ℕ) → Ends (execute_at backend mode address)
  unfolding execute_at
  execute_at-Ends stay address b = (b, refl)
  execute_at-Ends call none b = (b, refl)
  execute_at-Ends run none b = (b, refl)
  execute_at-Ends call (some a) b =
      let (t, e) = w.execute_returns call a b in (t, using-did (backend.execute call a) b t tt e)
  execute_at-Ends run (some a) b =
      let (t, e) = w.execute_returns run a b in (t, using-did (backend.execute run a) b t tt e)

  place-Ends :
      (application : Application) (mapper : Option Mapper) (verify stop : Bool)
      → Ends (place backend application mapper verify stop)
  unfolding place
  place-Ends application mapper verify stop =
      then-Ends (hook backend backend.preflight application) _ (w.preflight_returns application) (
        then-Ends (stop_if backend stop) _ (stop_if-Ends stop) (
          then-Ends (configure backend mapper) _ (configure-Ends mapper) (
            then-Ends (hook backend backend.prepare application)
              (λ _. load_segments backend verify application.segments)
              (w.prepare_returns application) (load_segments-Ends verify application.segments))))

-- On a backend with a memory whose methods return, a load that the checks let pass comes to its end:
-- no count of bytes and no verification refuses it.
pub load_application_total :
    {B : Type 0} (backend : Backend B) (view : B → Memory) (application : Application)
    (entry : EntryPoint) (verify stop_before_load : Bool) (mapper : Option Mapper) (b : B)
    → IsMemory backend view
    → IsWilling backend view
    → check_backend backend application entry verify stop_before_load ≡ ok mapper
    → (t : B) × (load_application backend application entry verify stop_before_load b ≡ (ok tt, t))
unfolding load_application done
load_application_total backend view application entry verify stop mapper b m w checks =
    let (t, e) =
      then-Ends backend view m w (place backend application mapper verify stop)
        (λ _. execute_at backend entry.mode entry.address)
        (place-Ends backend view m w application mapper verify stop)
        (execute_at-Ends backend view m w entry.mode entry.address) b in
    (
      t,
      then-did (done (check_backend backend application entry verify stop)) _ b b mapper
            (ap (λ r. done r b) checks)
          ∙ e,
    )

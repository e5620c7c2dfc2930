-- ===== src/Application/Loader.antt =====
-- `load_application` of server/msx_application.py, over a backend that is not part of the program. The
-- report that it returns at the end repeats its arguments and is left out.
use msx_ai.Base.{
  ℕ, Bool, true, false, not, Option, none, some, String, List, [], ◌∷◌, length, Result, ok, err,
  ◌>>=◌, ◌>>◌, raise_if, ◌&&◌, ◌==◌, if◌then◌else◌,
}
use msx_ai.Application.{
  ApplicationError, integrity_error, backend_error, capability_error, mapper_error, Space, Segment,
  EntryMode, stay, EntryPoint, flat, no_mapper, other_mapper, Mapper, Application,
}

-- Why a load ends: an error of the loader, or an exception of the backend, known by a number.
pub data LoadError : Type 0 where
  refused : ApplicationError → LoadError
  raised : ℕ → LoadError

-- The names that a backend is asked for.
pub data Capability : Type 0 where
  required : String → Capability
  mapper_support : String → Capability

-- What a backend method does: a result or an exception, and the state that it leaves.
abbrev pub Method : Type 0 → Type 0 → Type 0
Method B A = B → Result ℕ A × B

-- A backend whose states are `B`. A method that it may lack comes with a test of its presence, or is
-- optional; `write` returns a number or, as `none`, anything else.
pub record Backend (B : Type 0) : Type 0 where
  pub has_write : Space → Bool
  pub has_read : Space → Bool
  pub has_execute : EntryMode → Bool
  pub has_stop : Bool
  pub has_configure_mapper : Bool
  pub supports_capability : Capability → Option Bool
  pub supports_mapper : Option (String → Bool)
  pub preflight : Option (Application → Method B (Unit {0}))
  pub prepare : Option (Application → Method B (Unit {0}))
  pub stop : Method B (Unit {0})
  pub configure_mapper : Mapper → Method B (Unit {0})
  pub write : Space → ℕ → List ℕ → Method B (Option ℕ)
  pub read : Space → ℕ → ℕ → Method B (List ℕ)
  pub execute : EntryMode → ℕ → Method B (Unit {0})

-- `supported is True`.
abbrev pub is_true : Option Bool → Bool
is_true (some true) = true
is_true _ = false

abbrev pub same_bytes : List ℕ → List ℕ → Bool
same_bytes [] [] = true
same_bytes (x ∷ xs) (y ∷ ys) = (x == y) && same_bytes xs ys
same_bytes _ _ = false

-- A step of the load: what it returns or raises, and the backend's state.
abbrev pub Load : Type 0 → Type 0 → Type 0
Load B A = B → Result LoadError A × B

module _ {B : Type 0} where
  -- A backend method as a step.
  unfoldable pub using : {A : Type 0} → Method B A → Load B A
  using method b =
      let (result, t) = method b in elim result [ ok a ↦ (ok a, t) | err e ↦ (err (raised e), t) ]

  infixl 5 ◌then◌
  unfoldable pub ◌then◌ : {A C : Type 0} → Load B A → (A → Load B C) → Load B C
  (first then rest) b =
      let (result, t) = first b in elim result [ ok a ↦ rest a t | err e ↦ (err e, t) ]

  unfoldable pub done : {A : Type 0} → Result ApplicationError A → Load B A
  done (ok a) b = (ok a, b)
  done (err e) b = (err (refused e), b)

module _ {B : Type 0} (backend : Backend B) where
  -- The methods for the spaces of the segments, each resolved before any is called.
  unfoldable pub resolve_segments : Bool → List Segment → Result ApplicationError (Unit {0})
  resolve_segments verify [] = ok tt
  resolve_segments verify (s ∷ segments) = do
    raise_if (not (backend.has_write s.space)) (backend_error "backend cannot write")
    raise_if (verify && not (backend.has_read s.space)) (backend_error "backend cannot read")
    resolve_segments verify segments

  unfoldable pub resolve_executor : EntryMode → Result ApplicationError (Unit {0})
  resolve_executor stay = ok tt
  resolve_executor mode =
      raise_if (not (backend.has_execute mode)) (backend_error "backend cannot execute")

  -- `_check_declared_requirements`.
  unfoldable pub check_declared_requirements : List String → Result ApplicationError (Unit {0})
  check_declared_requirements [] = ok tt
  check_declared_requirements (name ∷ names) = do
    raise_if (not (is_true (backend.supports_capability (required name)))) (capability_error name)
    check_declared_requirements names

  unfoldable pub mapper_supported : String → Bool
  mapper_supported name = elim backend.supports_mapper [
    | some test ↦ test name
    | none ↦ is_true (backend.supports_capability (mapper_support name))
  ]

  -- `_mapper_configurator`: whether the mapper is to be configured.
  unfoldable pub mapper_configurator : Option Mapper → Result ApplicationError (Option Mapper)
  mapper_configurator none = ok none
  mapper_configurator (some m) = elim m.mapper_type [
    | flat ↦ ok none
    | no_mapper ↦ ok none
    | other_mapper name ↦ raise_if (not (mapper_supported name)) (mapper_error name) >>= λ _.
        raise_if (not backend.has_configure_mapper)
          (backend_error "backend cannot configure mapper")
        >>= λ _. ok (some m)
  ]

  -- All that is checked before the backend is called.
  unfoldable pub check_backend :
      Application
      → EntryPoint
      → (verify stop_before_load : Bool) → Result ApplicationError (Option Mapper)
  check_backend application entry verify stop_before_load = do
    resolve_segments verify application.segments
    resolve_executor entry.mode
    raise_if (stop_before_load && not backend.has_stop) (backend_error "backend cannot stop")
    check_declared_requirements application.requirements
    mapper_configurator application.mapper

  unfoldable pub hook : Option (Application → Method B (Unit {0})) → Application → Load B (Unit {0})
  hook none application b = (ok tt, b)
  hook (some method) application b = using (method application) b

  unfoldable pub stop_if : Bool → Load B (Unit {0})
  stop_if false b = (ok tt, b)
  stop_if true b = using backend.stop b

  unfoldable pub configure : Option Mapper → Load B (Unit {0})
  configure none b = (ok tt, b)
  configure (some m) b = using (backend.configure_mapper m) b

  -- A write that returns a number returns the number of bytes.
  unfoldable pub check_written : Segment → Option ℕ → Result ApplicationError (Unit {0})
  check_written s none = ok tt
  check_written s (some n) =
      raise_if (not (n == length s.data_bytes)) (backend_error "backend wrote")

  unfoldable pub verify_segment : Bool → Segment → Load B (Unit {0})
  verify_segment false s b = (ok tt, b)
  verify_segment true s b =
      (using (backend.read s.space s.address (length s.data_bytes)) then λ actual.
      done
        (raise_if (not (same_bytes actual s.data_bytes)) (integrity_error "verification failed")))
        b

  unfoldable pub load_segment : Bool → Segment → Load B (Unit {0})
  load_segment verify s = using (backend.write s.space s.address s.data_bytes) then λ written.
      done (check_written s written) then λ _. verify_segment verify s

  -- The loop over the segments.
  unfoldable pub load_segments : Bool → List Segment → Load B (Unit {0})
  load_segments verify [] b = (ok tt, b)
  load_segments verify (s ∷ segments) b =
      (load_segment verify s then λ _. load_segments verify segments) b

  -- An entry that is executed has an address.
  unfoldable pub execute_at : EntryMode → Option ℕ → Load B (Unit {0})
  execute_at stay address b = (ok tt, b)
  execute_at mode none b = (ok tt, b)
  execute_at mode (some address) b = using (backend.execute mode address) b

  -- Everything up to the execution, once the checks have passed.
  unfoldable pub place :
      Application → Option Mapper → (verify stop_before_load : Bool) → Load B (Unit {0})
  place application mapper verify stop_before_load = hook backend.preflight application then λ _.
      stop_if stop_before_load then λ _. configure mapper then λ _.
      hook backend.prepare application then λ _. load_segments verify application.segments

  -- `load_application`, for an application that is parsed and its effective entry.
  unfoldable pub load_application :
      Application → EntryPoint → (verify stop_before_load : Bool) → Load B (Unit {0})
  load_application application entry verify stop_before_load =
      done (check_backend application entry verify stop_before_load) then λ mapper.
      place application mapper verify stop_before_load then λ _. execute_at entry.mode entry.address

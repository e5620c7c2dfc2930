-- ===== src/Application/Tests.antt =====
-- A small BLOAD image, a backend that is a memory, and the theorems on them.
use msx_ai.Base.{
  ℕ, ◌≡◌, refl, sym, ap, ◌∙◌, Bool, true, false, none, some, List, [], ◌∷◌, length, Result, ok,
  ok-injective, arith,
}
use msx_ai.Application.{
  Space, ram, vram, Segment, Application, validate_range, image_entry, bload_body, parse_bload,
  detect_format, starts_with_brace, starts_with_fe, is_space, image, parse_as, format_or_detected,
  parse_bytes,
}
use msx_ai.Application.Parsed.{IsApplication, parse_bytes-IsApplication}
use msx_ai.Application.Bload.{bload_image, bload_application, parse_bload-bload_image}
use msx_ai.Application.Loader.{
  LoadError, Backend, using, ◌then◌, done, resolve_segments, resolve_executor,
  check_declared_requirements, mapper_configurator, check_backend, hook, stop_if, configure,
  check_written, verify_segment, load_segment, load_segments, execute_at, place, load_application,
}
use msx_ai.Application.Placed.{Memory, overlay, overlay_all, IsMemory, load_application-stores}
use msx_ai.Application.Total.{IsWilling, load_application_total}
use msx_ai.Application.Verified.{cells, ReadsTruly, load_application-verified}

abbrev code : List ℕ
code = 0x3e ∷ 1 ∷ 0xc9 ∷ []

abbrev program : Application
program = bload_application 0x8000 0x8000 code

abbrev program_segment : Segment
program_segment = record { space = ram; address = 0x8000; data_bytes = code }

parse_bload-bload_image_example : parse_bload (bload_image 0x8000 0x8000 code) ≡ ok program
parse_bload-bload_image_example =
    parse_bload-bload_image 0x8000 0x8000 code (omega arith) (omega arith) (omega arith)

detected : parse_bytes none (bload_image 0x8000 0x8000 code) none ≡ ok (image program)
unfolding parse_bytes format_or_detected detect_format starts_with_brace starts_with_fe is_space
    parse_as parse_bload bload_body validate_range image_entry
detected = refl

parse_bytes-IsApplication_example : IsApplication program
parse_bytes-IsApplication_example =
    parse_bytes-IsApplication none (bload_image 0x8000 0x8000 code) none program detected

-- A backend that writes to RAM only.
abbrev ram_only : Space → Bool
ram_only ram = true
ram_only vram = false

abbrev plain : Backend Memory
plain = record {
  has_write = ram_only;
  has_read = ram_only;
  has_execute = λ mode. true;
  has_stop = false;
  has_configure_mapper = false;
  supports_capability = λ name. none;
  supports_mapper = none;
  preflight = none;
  prepare = none;
  stop = λ memory. (ok tt, memory);
  configure_mapper = λ mapper memory. (ok tt, memory);
  write = λ space address data_in memory. (
    ok (some (length data_in)),
    overlay (record { space = space; address = address; data_bytes = data_in }) memory,
  );
  read = λ space address size memory. (ok (cells memory space address size), memory);
  execute = λ mode address memory. (ok tt, memory);
}

abbrev blank : Memory
blank space address = 0

second :
    {A : Type 0} (r s : Result ℕ A) (m n : Memory)
    → ◌≡◌ {A = Result ℕ A × Memory} (r, m) (s, n)
    → n ≡ m
second {A} r s m n e = sym (ap (λ (p : Result ℕ A × Memory). p.1) e)

second_hook :
    (m n : Memory) → ◌≡◌ {A = Result LoadError (Unit {0}) × Memory} (ok tt, m) (ok tt, n) → n ≡ m
second_hook m n e = sym (ap (λ (p : Result LoadError (Unit {0}) × Memory). p.1) e)

plain-IsMemory : IsMemory plain (λ memory. memory)
unfolding hook
plain-IsMemory = record {
  write_stores = λ s b t written e fine. second _ _ _ t e;
  read_quiet = λ space address size b t found e. second _ _ b t e;
  preflight_quiet = λ application b t e. second_hook b t e;
  prepare_quiet = λ application b t e. second_hook b t e;
  stop_quiet = λ b t e. second _ _ b t e;
  configure_quiet = λ m b t e. second _ _ b t e;
}

loaded :
    load_application plain program program.entry true false blank
    ≡ (ok tt, overlay program_segment blank)
unfolding load_application check_backend resolve_segments resolve_executor
    check_declared_requirements mapper_configurator place done hook stop_if configure load_segments
    load_segment verify_segment check_written execute_at using ◌then◌
loaded = refl

load_application-stores_example :
    (u : Memory) × (u ≡ overlay_all program.segments blank)
    × (execute_at plain program.entry.mode program.entry.address u
        ≡ (ok tt, overlay program_segment blank))
load_application-stores_example =
    load_application-stores plain (λ memory. memory) program program.entry true false blank
      (overlay program_segment blank) plain-IsMemory loaded

plain-ReadsTruly : ReadsTruly plain (λ memory. memory)
plain-ReadsTruly space address size b t found e =
    sym (ok-injective (ap (λ (p : Result ℕ (List ℕ) × Memory). p.0) e))
    ∙ ap (λ m. cells m space address size) (sym (second _ _ b t e))

load_application-verified_example :
    (u : Memory) × (cells u ram 0x8000 3 ≡ code)
    × (execute_at plain program.entry.mode program.entry.address u
        ≡ (ok tt, overlay program_segment blank))
load_application-verified_example =
    load_application-verified plain (λ memory. memory) program program_segment program.entry false
      blank (overlay program_segment blank) plain-ReadsTruly refl loaded

plain-IsWilling : IsWilling plain (λ memory. memory)
unfolding hook
plain-IsWilling = record {
  write_returns = λ s b. (overlay s b, refl);
  read_returns = λ space address size b. (b, refl);
  preflight_returns = λ application b. (b, refl);
  prepare_returns = λ application b. (b, refl);
  stop_returns = λ b. (b, refl);
  configure_returns = λ m b. (b, refl);
  execute_returns = λ mode address b. (b, refl);
}

program-checked : check_backend plain program program.entry true false ≡ ok none
unfolding check_backend resolve_segments resolve_executor check_declared_requirements
    mapper_configurator
program-checked = refl

load_application_total_example :
    (t : Memory) × (load_application plain program program.entry true false blank ≡ (ok tt, t))
load_application_total_example =
    load_application_total plain (λ memory. memory) program program.entry true false none blank
      plain-IsMemory plain-IsWilling program-checked

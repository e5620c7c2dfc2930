-- ===== src/Application/Parsed.antt =====
-- Where the applications that server/msx_application.py makes of images lie in the memory.
use msx_ai.Base.{
  ℕ, zero, suc, ◌+◌, ◌≤◌, ◌<◌, ◌-◌, ◌≡◌, refl, ap, raise_if, ltb, not, Option, none, some, String,
  List, [], ◌∷◌, length, All, Result, ok, err, ◌>>=◌, >>=-eq-ok, ok-injective, arith, ◌==◌,
}
use msx_ai.Base.Bytes.{u16, word}
use msx_ai.Base.Int.{ℤ, pos, negsuc}
use msx_ai.Application.{
  ApplicationError, space_limit, Segment, EntryMode, stay, call, run, EntryPoint, SourceFormat,
  manifest, msx_dos_com, bload, flat_rom, Application, validate_range, parse_com, image_entry,
  bload_body, parse_bload, rom_base_of, is_rom_size, has_rom_header, parse_flat_rom, image,
  parse_as, format_or_detected, parse_bytes, Execute, override_mode, override_address, entry_at,
  entry_with_override,
}

-- A segment within its memory, not beyond the last byte.
abbrev pub IsSegment : Segment → Type 0
IsSegment s = s.address + length s.data_bytes ≤ space_limit s.space

-- An entry has an address in RAM exactly if its mode calls for one.
abbrev pub IsEntryAt : EntryMode → Option ℕ → Type 0
IsEntryAt stay address = address ≡ none
IsEntryAt mode none = ⊥
IsEntryAt mode (some address) = address < 65536

abbrev pub IsEntry : EntryPoint → Type 0
IsEntry e = IsEntryAt e.mode e.address

pub record IsApplication (a : Application) : Type 0 where
  pub segments_fit : All IsSegment a.segments
  pub entry_fits : IsEntry a.entry

validate_range-Within :
    (address : ℤ) (size limit : ℕ) (label : String) (found : ℕ)
    → validate_range address size limit label ≡ ok found
    → (address ≡ pos found) × (found + size ≤ limit)
unfolding validate_range
validate_range-Within (negsuc a) size limit label found e = absurd cc
validate_range-Within (pos a) size limit label found e = ground (arith, e)

entry_at-IsEntry :
    (mode : EntryMode) (address : Option ℤ) (e : EntryPoint)
    → entry_at mode address ≡ ok e
    → IsEntry e
unfolding entry_at
entry_at-IsEntry stay address e h = rw⁻¹ (ok-injective h) refl
entry_at-IsEntry call none e h = absurd cc
entry_at-IsEntry run none e h = absurd cc
entry_at-IsEntry call (some a) e h =
    let (found, within, made) = >>=-eq-ok (validate_range a 1 _ _) _ h in
    let (_, fits) = validate_range-Within a 1 _ _ found within in
    rw⁻¹ (ok-injective made) (omega (arith, fits))
entry_at-IsEntry run (some a) e h =
    let (found, within, made) = >>=-eq-ok (validate_range a 1 _ _) _ h in
    let (_, fits) = validate_range-Within a 1 _ _ found within in
    rw⁻¹ (ok-injective made) (omega (arith, fits))

-- Whatever the caller asks for, the entry that is accepted has an address in RAM exactly if its mode
-- needs one.
pub entry_with_override-IsEntry :
    (declared e : EntryPoint) (execute : Execute) (address : Option ℤ)
    → entry_with_override declared execute address ≡ ok e
    → IsEntry e
unfolding entry_with_override
entry_with_override-IsEntry declared e execute address h =
    let (mode, _, at) = >>=-eq-ok (override_mode declared.mode execute) _ h in
    entry_at-IsEntry mode (override_address declared.address address) e at

parse_com-IsApplication : (d : List ℕ) (a : Application) → parse_com d ≡ ok a → IsApplication a
unfolding parse_com space_limit
parse_com-IsApplication [] a h = absurd cc
parse_com-IsApplication (b ∷ d) a h =
    let (found, within, made) = >>=-eq-ok (validate_range (pos 0x100) (length (b ∷ d)) _ _) _ h in
    let (same, fits) = validate_range-Within (pos 0x100) (length (b ∷ d)) _ _ found within in
    rw⁻¹ (ok-injective made)
      (record { segments_fit = (ground (arith, same, fits), tt); entry_fits = omega arith })

-- The modes that an image may ask for.
abbrev Starts : EntryMode → Type 0
Starts stay = ⊥
Starts mode = Unit {0}

image_entry-IsEntry :
    (mode : EntryMode) (address : ℕ) (label : String) (e : EntryPoint)
    → Starts mode
    → image_entry mode address label ≡ ok e
    → IsEntry e
unfolding image_entry
image_entry-IsEntry mode zero label e starts h = rw⁻¹ (ok-injective h) refl
image_entry-IsEntry stay (suc n) label e starts h = absurd starts
image_entry-IsEntry call (suc n) label e starts h =
    let (found, within, made) = >>=-eq-ok (validate_range (pos (suc n)) 1 _ _) _ h in
    let (same, fits) = validate_range-Within (pos (suc n)) 1 _ _ found within in
    rw⁻¹ (ok-injective made) (ground (arith, same, fits))
image_entry-IsEntry run (suc n) label e starts h =
    let (found, within, made) = >>=-eq-ok (validate_range (pos (suc n)) 1 _ _) _ h in
    let (same, fits) = validate_range-Within (pos (suc n)) 1 _ _ found within in
    rw⁻¹ (ok-injective made) (ground (arith, same, fits))

bload_body-IsApplication :
    (start last execute : ℕ) (payload : List ℕ) (a : Application)
    → bload_body start last execute payload ≡ ok a
    → IsApplication a
unfolding bload_body space_limit
bload_body-IsApplication start last execute payload a h =
    let (_, _, h1) = >>=-eq-ok (raise_if (ltb last start) _) _ h in
    let (_, _, h2) = >>=-eq-ok (raise_if (not (length payload == last - start + 1)) _) _ h1 in
    let (found, within, h3) = >>=-eq-ok (validate_range (pos start) (length payload) _ _) _ h2 in
    let (same, fits) = validate_range-Within (pos start) (length payload) _ _ found within in
    let (entry, entered, made) = >>=-eq-ok (image_entry run execute _) _ h3 in
    rw⁻¹ (ok-injective made) (record {
      segments_fit = (ground (arith, same, fits), tt);
      entry_fits = image_entry-IsEntry run execute _ entry tt entered;
    })

parse_bload-IsApplication : (d : List ℕ) (a : Application) → parse_bload d ≡ ok a → IsApplication a
unfolding parse_bload
parse_bload-IsApplication (m ∷ s0 ∷ s1 ∷ e0 ∷ e1 ∷ x0 ∷ x1 ∷ payload) a h =
    bload_body-IsApplication (u16 s0 s1) (u16 e0 e1) (u16 x0 x1) payload a (ground (arith, h))
parse_bload-IsApplication _ a h = absurd cc

parse_flat_rom-IsApplication :
    (d : List ℕ) (base : Option ℤ) (a : Application)
    → parse_flat_rom d base ≡ ok a
    → IsApplication a
unfolding parse_flat_rom space_limit
parse_flat_rom-IsApplication d base a h =
    let (_, _, h1) = >>=-eq-ok (raise_if (not (is_rom_size (length d))) _) _ h in
    let (_, _, h2) = >>=-eq-ok (raise_if (not (has_rom_header d)) _) _ h1 in
    let at : ℤ = rom_base_of base (length d) (word d 2 ∷ word d 4 ∷ word d 6 ∷ word d 8 ∷ []) in
    let (found, within, h3) = >>=-eq-ok (validate_range at (length d) _ _) _ h2 in
    let (_, fits) = validate_range-Within at (length d) _ _ found within in
    let (entry, entered, made) = >>=-eq-ok (image_entry call (word d 2) _) _ h3 in
    rw⁻¹ (ok-injective made) (record {
      segments_fit = (fits, tt);
      entry_fits = image_entry-IsEntry call (word d 2) _ entry tt entered;
    })

as_image-ok :
    (r : Result ApplicationError Application) (a : Application)
    → (r >>= λ found. ok (image found)) ≡ ok (image a)
    → r ≡ ok a
as_image-ok (ok found) a h = ap ok (ground (arith, h))
as_image-ok (err e) a h = absurd cc

parse_as-IsApplication :
    (f : SourceFormat) (d : List ℕ) (base : Option ℤ) (a : Application)
    → parse_as f d base ≡ ok (image a)
    → IsApplication a
unfolding parse_as
parse_as-IsApplication manifest d base a h = absurd (ground (arith, h))
parse_as-IsApplication msx_dos_com d base a h =
    parse_com-IsApplication d a (as_image-ok (parse_com d) a h)
parse_as-IsApplication bload d base a h =
    parse_bload-IsApplication d a (as_image-ok (parse_bload d) a h)
parse_as-IsApplication flat_rom d base a h =
    parse_flat_rom-IsApplication d base a (as_image-ok (parse_flat_rom d base) a h)

-- Whatever bytes and base are given, and whether the format is named or detected, the application that
-- a COM, BLOAD or flat ROM image is parsed to has its segments within their memory, and its entry has
-- an address in RAM exactly if its mode needs one.
pub parse_bytes-IsApplication :
    (given : Option SourceFormat) (d : List ℕ) (base : Option ℤ) (a : Application)
    → parse_bytes given d base ≡ ok (image a)
    → IsApplication a
unfolding parse_bytes
parse_bytes-IsApplication given d base a h =
    let (f, _, parsed) = >>=-eq-ok (format_or_detected given d) _ h in
    parse_as-IsApplication f d base a parsed

-- ===== src/Application.antt =====
-- The image formats of server/msx_application.py: `parse_com`, `parse_bload`, `parse_flat_rom`, the
-- detection of a format in `parse_application`, and `_entry_with_override`.
pub mod Parsed
pub mod Bload
pub mod Loader
pub mod Steps
pub mod Placed
pub mod Verified
pub mod Total
mod Tests
use msx_ai.Base.{
  ℕ, zero, suc, ◌+◌, ◌-◌, ◌*◌, Bool, true, false, not, ◌&&◌, ◌||◌, Option, none, some, String, List,
  [], ◌∷◌, length, Result, ok, err, ◌>>=◌, ◌>>◌, raise_if, ltb, leb, ◌==◌, if◌then◌else◌,
}
use msx_ai.Base.Bytes.{u16, word}
use msx_ai.Base.Int.{ℤ, pos, negsuc}

abbrev pub ram_size : ℕ
ram_size = 0x10000

abbrev pub vram_size : ℕ
vram_size = 0x20000

-- The subclasses of ApplicationError, each with the label or the sentence of its message.
pub data ApplicationError : Type 0 where
  format_error range_error integrity_error backend_error capability_error mapper_error :
      String → ApplicationError

pub data Space : Type 0 where
  ram vram : Space

-- SPACE_LIMITS.
unfoldable pub space_limit : Space → ℕ
space_limit ram = ram_size
space_limit vram = vram_size

-- A segment, without the digest and the path that only a manifest gives.
pub record Segment : Type 0 where
  pub space : Space
  pub address : ℕ
  pub data_bytes : List ℕ

pub data EntryMode : Type 0 where
  stay call run : EntryMode

pub record EntryPoint : Type 0 where
  pub mode : EntryMode
  pub address : Option ℕ

abbrev pub no_entry : EntryPoint
no_entry = record { mode = stay; address = none }

-- The formats; `com` is reserved here.
pub data SourceFormat : Type 0 where
  manifest msx_dos_com bload flat_rom : SourceFormat

-- What the parsers of images put into `metadata`.
pub data Metadata : Type 0 where
  no_metadata : Metadata
  bload_header : (start last execute : ℕ) → Metadata
  rom_header : (init statement device text : ℕ) → Metadata

-- The type of a mapper: `flat` from a ROM, any from a manifest.
pub data MapperType : Type 0 where
  flat no_mapper : MapperType
  other_mapper : String → MapperType

pub record Mapper : Type 0 where
  pub mapper_type : MapperType
  pub base : Option ℕ
  pub size : Option ℕ

pub record Application : Type 0 where
  pub source_format : SourceFormat
  pub segments : List Segment
  pub entry : EntryPoint
  pub requirements : List String
  pub mapper : Option Mapper
  pub metadata : Metadata

-- `_validate_range`; it returns the address, which it has found not to be negative.
unfoldable pub validate_range : ℤ → ℕ → ℕ → String → Result ApplicationError ℕ
validate_range (negsuc a) size limit label = err (range_error label)
validate_range (pos a) size limit label =
    if ltb limit a || ltb limit (a + size) then err (range_error label) else ok a

-- `parse_com`.
unfoldable pub parse_com : List ℕ → Result ApplicationError Application
parse_com [] = err (format_error "COM image is empty")
parse_com (b ∷ bytes) = do
  start ← validate_range (pos 0x100) (length (b ∷ bytes)) ram_size "COM"
  ok (record {
    source_format = msx_dos_com;
    segments = record { space = ram; address = 0x100; data_bytes = b ∷ bytes } ∷ [];
    entry = record { mode = run; address = some 0x100 };
    requirements = [];
    mapper = none;
    metadata = no_metadata;
  })

-- The entry that the header of an image gives: the address 0 stands for none.
unfoldable pub image_entry : EntryMode → ℕ → String → Result ApplicationError EntryPoint
image_entry mode zero label = ok no_entry
image_entry mode (suc n) label = validate_range (pos (suc n)) 1 ram_size label >>= λ checked.
    ok (record { mode = mode; address = some (suc n) })

-- `parse_bload`, behind its header.
unfoldable pub bload_body : (start last execute : ℕ) → List ℕ → Result ApplicationError Application
bload_body start last execute payload = do
  raise_if (ltb last start) (range_error "BLOAD end address precedes start address")
  raise_if (not (length payload == last - start + 1)) (format_error "BLOAD length")
  checked ← validate_range (pos start) (length payload) ram_size "BLOAD"
  entry ← image_entry run execute "BLOAD entry"
  ok (record {
    source_format = bload;
    segments = record { space = ram; address = start; data_bytes = payload } ∷ [];
    entry = entry;
    requirements = [];
    mapper = none;
    metadata = bload_header start last execute;
  })

unfoldable pub parse_bload : List ℕ → Result ApplicationError Application
parse_bload (m ∷ s0 ∷ s1 ∷ e0 ∷ e1 ∷ x0 ∷ x1 ∷ payload) =
    if m == 0xfe
    then bload_body (u16 s0 s1) (u16 e0 e1) (u16 x0 x1) payload
    else err (format_error "BLOAD header")
parse_bload data_in = err (format_error "BLOAD header")

-- Whether every vector that is set lies in page 2, and one is set.
unfoldable pub in_page2 : ℕ → Bool
in_page2 vector = leb 0x8000 vector && ltb vector 0xc000

unfoldable pub all_in_page2 : List ℕ → Bool
all_in_page2 [] = true
all_in_page2 (v ∷ vs) = ((v == 0) || in_page2 v) && all_in_page2 vs

unfoldable pub any_set : List ℕ → Bool
any_set [] = false
any_set (v ∷ vs) = not (v == 0) || any_set vs

unfoldable pub guess_rom_base : ℕ → List ℕ → ℕ
guess_rom_base size vectors =
    if (size == 0x4000) && any_set vectors && all_in_page2 vectors then 0x8000 else 0x4000

-- `data[:2] == b"AB"`.
unfoldable pub has_rom_header : List ℕ → Bool
has_rom_header (a ∷ b ∷ rest) = (a == 0x41) && (b == 0x42)
has_rom_header data_in = false

unfoldable pub rom_base_of : Option ℤ → ℕ → List ℕ → ℤ
rom_base_of none size vectors = pos (guess_rom_base size vectors)
rom_base_of (some base) size vectors = base

unfoldable pub is_rom_size : ℕ → Bool
is_rom_size size = (size == 0x4000) || (size == 0x8000)

-- `parse_flat_rom`.
unfoldable pub parse_flat_rom : List ℕ → Option ℤ → Result ApplicationError Application
parse_flat_rom data_in base = do
  raise_if (not (is_rom_size (length data_in))) (format_error "flat ROM size")
  raise_if (not (has_rom_header data_in)) (format_error "flat ROM header")
  let init = word data_in 2
  let statement = word data_in 4
  let device = word data_in 6
  let text = word data_in 8
  address ←
      validate_range (rom_base_of base (length data_in) (init ∷ statement ∷ device ∷ text ∷ []))
        (length data_in) ram_size "flat ROM"
  entry ← image_entry call init "ROM init"
  ok (record {
    source_format = flat_rom;
    segments = record { space = ram; address = address; data_bytes = data_in } ∷ [];
    entry = entry;
    requirements = [];
    mapper =
        some (record { mapper_type = flat; base = some address; size = some (length data_in) });
    metadata = rom_header init statement device text;
  })

-- `bytes.lstrip` takes the white space of ASCII off.
unfoldable pub is_space : ℕ → Bool
is_space b = (b == 32) || (leb 9 b && leb b 13)

unfoldable pub starts_with_brace : List ℕ → Bool
starts_with_brace [] = false
starts_with_brace (b ∷ bytes) = if is_space b then starts_with_brace bytes else b == 0x7b

unfoldable pub starts_with_fe : List ℕ → Bool
starts_with_fe [] = false
starts_with_fe (b ∷ bytes) = b == 0xfe

-- The detection of a format by the first bytes.
unfoldable pub detect_format : List ℕ → Result ApplicationError SourceFormat
detect_format data_in =
    if starts_with_brace data_in
    then ok manifest
    else if starts_with_fe data_in
    then ok bload
    else if is_rom_size (length data_in) && has_rom_header data_in
    then ok flat_rom
    else err (format_error "cannot detect headerless input")

-- `_entry_with_override`. `execute` is None, a name of a mode, or any other text.
pub data Execute : Type 0 where
  as_declared : Execute
  as_mode : EntryMode → Execute
  as_other : Execute

unfoldable pub override_mode : EntryMode → Execute → Result ApplicationError EntryMode
override_mode declared as_declared = ok declared
override_mode declared (as_mode mode) = ok mode
override_mode declared as_other = err (format_error "execute must be 'none', 'call' or 'run'")

unfoldable pub override_address : Option ℕ → Option ℤ → Option ℤ
override_address none none = none
override_address (some declared) none = some (pos declared)
override_address declared (some address) = some address

unfoldable pub entry_at : EntryMode → Option ℤ → Result ApplicationError EntryPoint
entry_at stay address = ok no_entry
entry_at mode none = err (format_error "entry address is required")
entry_at mode (some address) = do
  checked ← validate_range address 1 ram_size "entry"
  ok (record { mode = mode; address = some checked })

unfoldable pub entry_with_override :
    EntryPoint → Execute → Option ℤ → Result ApplicationError EntryPoint
entry_with_override entry execute entry_address = do
  mode ← override_mode entry.mode execute
  entry_at mode (override_address entry.address entry_address)

-- What `parse_application` makes of bytes: an image, or the document that it hands to the manifest
-- parser.
pub data ParsedBytes : Type 0 where
  image : Application → ParsedBytes
  document : List ℕ → ParsedBytes

abbrev as_image : Result ApplicationError Application → Result ApplicationError ParsedBytes
as_image parsed = parsed >>= λ application. ok (image application)

unfoldable pub parse_as : SourceFormat → List ℕ → Option ℤ → Result ApplicationError ParsedBytes
parse_as manifest data_in rom_base = ok (document data_in)
parse_as msx_dos_com data_in rom_base = as_image (parse_com data_in)
parse_as bload data_in rom_base = as_image (parse_bload data_in)
parse_as flat_rom data_in rom_base = as_image (parse_flat_rom data_in rom_base)

unfoldable pub format_or_detected :
    Option SourceFormat → List ℕ → Result ApplicationError SourceFormat
format_or_detected none data_in = detect_format data_in
format_or_detected (some format) data_in = ok format

-- `parse_application` on a byte string, once the name of the format is read.
unfoldable pub parse_bytes :
    Option SourceFormat → List ℕ → Option ℤ → Result ApplicationError ParsedBytes
parse_bytes given data_in rom_base = do
  format ← format_or_detected given data_in
  parse_as format data_in rom_base

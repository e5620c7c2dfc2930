-- ===== src/Application/Bload.antt =====
-- The BLOAD images of server/msx_application.py.
use msx_ai.Base.{
  ℕ, zero, suc, ◌+◌, ◌-◌, ◌≤◌, ◌<◌, ◌≡◌, refl, none, some, List, [], ◌∷◌, ◌++◌, length, ok, arith,
}
use msx_ai.Base.Bytes.{le16, u16-le16}
use msx_ai.Application.{
  ram, run, EntryPoint, no_entry, bload, bload_header, Application, validate_range, image_entry,
  bload_body, parse_bload,
}

-- The file that a BSAVE of these bytes makes, with this address to start at; 0 stands for none.
abbrev pub bload_image : (start execute : ℕ) → List ℕ → List ℕ
bload_image start execute payload =
    0xfe ∷ le16 start ++ le16 (start + length payload - 1) ++ le16 execute ++ payload

abbrev pub bload_start : ℕ → EntryPoint
bload_start zero = no_entry
bload_start (suc n) = record { mode = run; address = some (suc n) }

abbrev pub bload_application : (start execute : ℕ) → List ℕ → Application
bload_application start execute payload = record {
  source_format = bload;
  segments = record { space = ram; address = start; data_bytes = payload } ∷ [];
  entry = bload_start execute;
  requirements = [];
  mapper = none;
  metadata = bload_header start (start + length payload - 1) execute;
}

image_entry-start :
    (execute : ℕ)
    → execute < 65536
    → image_entry run execute "BLOAD entry" ≡ ok (bload_start execute)
unfolding image_entry validate_range
image_entry-start zero h = refl
image_entry-start (suc n) h = ground (arith, h)

-- A BLOAD image of a byte or more that ends within the address space is parsed to one RAM segment with
-- these bytes at its start address, and to a run entry at its execution address if that is not 0.
pub parse_bload-bload_image :
    (start execute : ℕ) (payload : List ℕ)
    → 1 ≤ length payload
    → start + length payload ≤ 65536
    → execute < 65536
    → parse_bload (bload_image start execute payload) ≡ ok (bload_application start execute payload)
unfolding parse_bload bload_body validate_range
parse_bload-bload_image start execute payload some_bytes fits h =
    let first : start < 65536 = omega (arith, some_bytes, fits) in
    let last : start + length payload - 1 < 65536 = omega (arith, some_bytes, fits) in
    rw
      (
        u16-le16 start first,
        u16-le16 (start + length payload - 1) last,
        u16-le16 execute h,
        image_entry-start execute h,
      )
      (ground (arith, some_bytes, fits))

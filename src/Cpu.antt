-- ===== src/Cpu.antt =====
-- `parse_agent_cpu_context` and `decode_z80_flags` of server/msx_cpu.py. The snapshot holds the numbers
-- that the source writes in hexadecimal, and no fixed texts.
pub mod Context
pub mod RoundTrip
mod Tests
use msx_ai.Base.{
  ℕ, zero, suc, ◌+◌, ◌*◌, ◌%◌, Bool, true, false, not, ◌&&◌, ◌||◌, Option, none, some, String, List,
  [], ◌∷◌, length, Result, ok, err, ◌>>=◌, ◌>>◌, raise_if, leb, ◌==◌, if◌then◌else◌, bit_and,
}
use msx_ai.Base.Bytes.{byte_at, word}
use msx_ai.Base.Int.{ℤ, pos, negsuc}

-- The messages of CPUSnapshotError, with their values.
pub data CpuSnapshotError : Type 0 where
  wrong_length : ℕ → CpuSnapshotError
  unsupported_version unsupported_kind : ℕ → CpuSnapshotError
  wrong_declared_size : ℕ → CpuSnapshotError
  missing_fields unknown_validity : ℕ → CpuSnapshotError
  reserved_byte : ℕ → CpuSnapshotError
  invalid_state wrong_hook unknown_runtime : ℕ → CpuSnapshotError
  unknown_service_flags : ℕ → CpuSnapshotError
  iff2_not_valid : CpuSnapshotError

abbrev pub cpu_context_size : ℕ
cpu_context_size = 40

abbrev pub cpu_context_required_flags : ℕ
cpu_context_required_flags = 0x3f

-- The bits of the register F.
pub record Z80Flags : Type 0 where
  pub s : Bool
  pub z : Bool
  pub y : Bool
  pub h : Bool
  pub x : Bool
  pub pv : Bool
  pub n : Bool
  pub c : Bool

-- `bool(value & mask)`.
unfoldable pub has_bits : ℕ → ℕ → Bool
has_bits value mask = not (bit_and value mask == 0)

unfoldable pub z80_flags : ℕ → Z80Flags
z80_flags value = record {
  s = has_bits value 0x80;
  z = has_bits value 0x40;
  y = has_bits value 0x20;
  h = has_bits value 0x10;
  x = has_bits value 0x08;
  pv = has_bits value 0x04;
  n = has_bits value 0x02;
  c = has_bits value 0x01;
}

-- The ValueError for a number out of range is `none`.
unfoldable pub decode_z80_flags : ℤ → Option Z80Flags
decode_z80_flags (pos value) = if leb value 0xff then some (z80_flags value) else none
decode_z80_flags (negsuc value) = none

-- `values`, less the registers that it leaves None.
pub record Registers : Type 0 where
  pub af : ℕ
  pub bc : ℕ
  pub de : ℕ
  pub hl : ℕ
  pub af_alt : ℕ
  pub bc_alt : ℕ
  pub de_alt : ℕ
  pub hl_alt : ℕ
  pub ix : ℕ
  pub iy : ℕ

-- TRANSPORT_NAMES, and the name of an unknown one.
pub data TransportName : Type 0 where
  uart_8251 uart_16c550 tcpip_unapi : TransportName
  unknown_transport : ℕ → TransportName

unfoldable pub transport_name : ℕ → TransportName
transport_name id =
    if id == 0
    then uart_8251
    else if id == 1
    then uart_16c550
    else if id == 2
    then tcpip_unapi
    else unknown_transport id

-- What the parser returns.
pub record CpuSnapshot : Type 0 where
  pub registers : Registers
  pub flags : Z80Flags
  pub agent_state_code : ℕ
  pub runtime_mode_id : ℕ
  pub transport : TransportName
  pub transport_id : ℕ
  pub hook_entry_service_sp : ℕ
  pub callback_return_address : ℕ
  pub service_i : ℕ
  pub service_r : ℕ
  pub service_iff2 : Option Bool
  pub service_iff2_valid : Bool
  pub jiffy : ℕ
  pub screen_mode : ℕ
  pub control_level : ℕ
  pub service_flags : ℕ
  pub validity_flags : ℕ

-- The header, before the fields are read. A byte has no bits but these eight, so `~` leaves 0xc0.
unfoldable pub check_context_header : List ℕ → Result CpuSnapshotError (Unit {0})
check_context_header payload = do
  raise_if (not (length payload == cpu_context_size)) (wrong_length (length payload))
  raise_if (not (byte_at payload 0 == 1)) (unsupported_version (byte_at payload 0))
  raise_if (not (byte_at payload 1 == 1)) (unsupported_kind (byte_at payload 1))
  raise_if (not (byte_at payload 2 == length payload)) (wrong_declared_size (byte_at payload 2))
  raise_if
      (not (bit_and (byte_at payload 3) cpu_context_required_flags == cpu_context_required_flags))
      (missing_fields (byte_at payload 3))
  raise_if (has_bits (byte_at payload 3) 0xc0) (unknown_validity (byte_at payload 3))
  raise_if (not (byte_at payload 39 == 0)) (reserved_byte (byte_at payload 39))

-- The words in the order of the pushes at the entry of the hook.
unfoldable pub registers_of : List ℕ → Registers
registers_of payload = record {
  hl_alt = word payload 8;
  de_alt = word payload 10;
  bc_alt = word payload 12;
  af_alt = word payload 14;
  iy = word payload 16;
  ix = word payload 18;
  hl = word payload 20;
  de = word payload 22;
  bc = word payload 24;
  af = word payload 26;
}

unfoldable pub check_fields : List ℕ → Result CpuSnapshotError (Unit {0})
check_fields payload = do
  raise_if (not ((byte_at payload 4 == 1) || (byte_at payload 4 == 2)))
      (invalid_state (byte_at payload 4))
  raise_if (not (byte_at payload 5 == 1)) (wrong_hook (byte_at payload 5))
  raise_if (not ((byte_at payload 6 == 0) || (byte_at payload 6 == 1)))
      (unknown_runtime (byte_at payload 6))
  raise_if (has_bits (byte_at payload 38) 0xfc) (unknown_service_flags (byte_at payload 38))
  raise_if (has_bits (byte_at payload 38) 2 && not (has_bits (byte_at payload 38) 1)) iff2_not_valid

unfoldable pub snapshot_of : List ℕ → CpuSnapshot
snapshot_of payload = record {
  registers = registers_of payload;
  flags = z80_flags (word payload 26 % 256);
  agent_state_code = byte_at payload 4;
  runtime_mode_id = byte_at payload 6;
  transport = transport_name (byte_at payload 7);
  transport_id = byte_at payload 7;
  hook_entry_service_sp = word payload 28;
  callback_return_address = word payload 30;
  service_i = byte_at payload 32;
  service_r = byte_at payload 33;
  service_iff2 =
      if has_bits (byte_at payload 38) 1 then some (has_bits (byte_at payload 38) 2) else none;
  service_iff2_valid = has_bits (byte_at payload 38) 1;
  jiffy = word payload 34;
  screen_mode = byte_at payload 36;
  control_level = byte_at payload 37;
  service_flags = byte_at payload 38;
  validity_flags = byte_at payload 3;
}

unfoldable pub parse_agent_cpu_context : List ℕ → Result CpuSnapshotError CpuSnapshot
parse_agent_cpu_context payload = do
  check_context_header payload
  check_fields payload
  ok (snapshot_of payload)

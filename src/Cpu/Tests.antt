-- ===== src/Cpu/Tests.antt =====
-- A CPU context, and the theorems on it.
use msx_ai.Base.{◌≡◌, refl, inr, true, false, some, All, ok, arith}
use msx_ai.Base.Bytes.{IsByte}
use msx_ai.Base.Int.{pos}
use msx_ai.Cpu.{
  CpuSnapshot, Z80Flags, unknown_transport, z80_flags, has_bits, transport_name, decode_z80_flags,
  parse_agent_cpu_context,
}
use msx_ai.Cpu.Context.{
  context_bytes, flags_value, decode_z80_flags-value, parse_agent_cpu_context_sound,
}
use msx_ai.Cpu.RoundTrip.{IsContext, parse_agent_cpu_context-context_bytes}

abbrev carry : Z80Flags
carry = record {
  s = false;
  z = true;
  y = false;
  h = false;
  x = false;
  pv = false;
  n = false;
  c = true;
}

abbrev sample : CpuSnapshot
sample = record {
  registers = record {
    af = 0x1241;
    bc = 1;
    de = 2;
    hl = 0xfedc;
    af_alt = 3;
    bc_alt = 4;
    de_alt = 5;
    hl_alt = 6;
    ix = 7;
    iy = 8;
  };
  flags = carry;
  agent_state_code = 2;
  runtime_mode_id = 1;
  transport = unknown_transport 9;
  transport_id = 9;
  hook_entry_service_sp = 0xf380;
  callback_return_address = 0x4000;
  service_i = 10;
  service_r = 11;
  service_iff2 = some true;
  service_iff2_valid = true;
  jiffy = 600;
  screen_mode = 5;
  control_level = 0;
  service_flags = 3;
  validity_flags = 0x3f;
}

sample-IsContext : IsContext sample
unfolding z80_flags has_bits transport_name
sample-IsContext = record {
  state_active = inr refl;
  runtime_known = inr refl;
  flags_eq = refl;
  transport_eq = refl;
  service = inr (inr (refl, refl, refl));
  validity_eq = refl;
  hl_alt_fits = omega arith;
  de_alt_fits = omega arith;
  bc_alt_fits = omega arith;
  af_alt_fits = omega arith;
  iy_fits = omega arith;
  ix_fits = omega arith;
  hl_fits = omega arith;
  de_fits = omega arith;
  bc_fits = omega arith;
  af_fits = omega arith;
  sp_fits = omega arith;
  return_fits = omega arith;
  jiffy_fits = omega arith;
}

parse_agent_cpu_context-context_bytes_example :
    parse_agent_cpu_context (context_bytes sample) ≡ ok sample
parse_agent_cpu_context-context_bytes_example =
    parse_agent_cpu_context-context_bytes sample sample-IsContext

sample-IsByte : All IsByte (context_bytes sample)
sample-IsByte = ground arith

parse_agent_cpu_context_sound_example : context_bytes sample ≡ context_bytes sample
parse_agent_cpu_context_sound_example =
    parse_agent_cpu_context_sound (context_bytes sample) sample sample-IsByte
      (parse_agent_cpu_context-context_bytes sample sample-IsContext)

flags_sample : decode_z80_flags (pos 0x41) ≡ some carry
unfolding decode_z80_flags z80_flags has_bits
flags_sample = refl

carry_weighs : flags_value carry ≡ 0x41
carry_weighs = decode_z80_flags-value 0x41 carry flags_sample

-- ===== src/Cpu/RoundTrip.antt =====
-- The contexts that an agent may send, for server/msx_cpu.py.
use msx_ai.Base.{
  ℕ, ◌%◌, ◌<◌, ◌≡◌, refl, sym, ap, if◌then◌else◌, ◌∙◌, ◌⊎◌, Bool, true, false, Option, none, some,
  ok, arith,
}
use msx_ai.Base.Bytes.{u16-le16}
use msx_ai.Cpu.{
  CpuSnapshot, Z80Flags, has_bits, z80_flags, TransportName, transport_name, check_context_header,
  registers_of, check_fields, snapshot_of, parse_agent_cpu_context,
}
use msx_ai.Cpu.Context.{context_bytes}

-- The register IFF2 of the service, where the agent knows it.
abbrev pub IsService : (flags : ℕ) → Option Bool → Bool → Type 0
IsService flags iff2 valid =
    ((flags ≡ 0) × (iff2 ≡ none) × (valid ≡ false))
    ⊎ ((flags ≡ 1) × (iff2 ≡ some false) × (valid ≡ true))
    ⊎ ((flags ≡ 3) × (iff2 ≡ some true) × (valid ≡ true))

-- A snapshot that an agent may send: running or paused, in one of the two runtime modes, with numbers
-- that fit their fields, and the flags and names that belong to the numbers.
pub record IsContext (c : CpuSnapshot) : Type 0 where
  pub state_active : (c.agent_state_code ≡ 1) ⊎ (c.agent_state_code ≡ 2)
  pub runtime_known : (c.runtime_mode_id ≡ 0) ⊎ (c.runtime_mode_id ≡ 1)
  pub flags_eq : c.flags ≡ z80_flags (c.registers.af % 256)
  pub transport_eq : c.transport ≡ transport_name c.transport_id
  pub service : IsService c.service_flags c.service_iff2 c.service_iff2_valid
  pub validity_eq : c.validity_flags ≡ 0x3f
  pub hl_alt_fits : c.registers.hl_alt < 65536
  pub de_alt_fits : c.registers.de_alt < 65536
  pub bc_alt_fits : c.registers.bc_alt < 65536
  pub af_alt_fits : c.registers.af_alt < 65536
  pub iy_fits : c.registers.iy < 65536
  pub ix_fits : c.registers.ix < 65536
  pub hl_fits : c.registers.hl < 65536
  pub de_fits : c.registers.de < 65536
  pub bc_fits : c.registers.bc < 65536
  pub af_fits : c.registers.af < 65536
  pub sp_fits : c.hook_entry_service_sp < 65536
  pub return_fits : c.callback_return_address < 65536
  pub jiffy_fits : c.jiffy < 65536

module _ (c : CpuSnapshot) (v : IsContext c) where
  header-ok : check_context_header (context_bytes c) ≡ ok tt
  unfolding check_context_header has_bits
  header-ok = refl

  fields-ok : check_fields (context_bytes c) ≡ ok tt
  unfolding check_fields has_bits
  fields-ok = ground (arith, v.state_active, v.runtime_known, v.service)

  abbrev iff2_read : Option Bool
  iff2_read = if has_bits c.service_flags 1 then some (has_bits c.service_flags 2) else none

  abbrev valid_read : Bool
  valid_read = has_bits c.service_flags 1

  service-iff2 : iff2_read ≡ c.service_iff2
  unfolding has_bits
  service-iff2 = ground (arith, v.service)

  service-valid : has_bits c.service_flags 1 ≡ c.service_iff2_valid
  unfolding has_bits
  service-valid = ground (arith, v.service)

  rebuilt : Z80Flags → TransportName → Option Bool → Bool → ℕ → CpuSnapshot
  rebuilt flags transport iff2 valid validity = record c {
    flags = flags;
    transport = transport;
    service_iff2 = iff2;
    service_iff2_valid = valid;
    validity_flags = validity;
  }

  snapshot-rebuilt :
      snapshot_of (context_bytes c)
      ≡ rebuilt
          (z80_flags (c.registers.af % 256))
          (transport_name c.transport_id)
          iff2_read
          valid_read
          0x3f
  unfolding snapshot_of registers_of rebuilt
  snapshot-rebuilt =
      rw
        (
          u16-le16 c.registers.hl_alt v.hl_alt_fits,
          u16-le16 c.registers.de_alt v.de_alt_fits,
          u16-le16 c.registers.bc_alt v.bc_alt_fits,
          u16-le16 c.registers.af_alt v.af_alt_fits,
          u16-le16 c.registers.iy v.iy_fits,
          u16-le16 c.registers.ix v.ix_fits,
          u16-le16 c.registers.hl v.hl_fits,
          u16-le16 c.registers.de v.de_fits,
          u16-le16 c.registers.bc v.bc_fits,
          u16-le16 c.registers.af v.af_fits,
          u16-le16 c.hook_entry_service_sp v.sp_fits,
          u16-le16 c.callback_return_address v.return_fits,
          u16-le16 c.jiffy v.jiffy_fits,
        )
        refl

  snapshot-same : snapshot_of (context_bytes c) ≡ c
  unfolding rebuilt
  snapshot-same =
      snapshot-rebuilt
      ∙ ap (λ f. rebuilt f (transport_name c.transport_id) iff2_read valid_read 0x3f)
          (sym v.flags_eq)
      ∙ ap (λ t. rebuilt c.flags t iff2_read valid_read 0x3f) (sym v.transport_eq)
      ∙ ap (λ i. rebuilt c.flags c.transport i valid_read 0x3f) service-iff2
      ∙ ap (λ b. rebuilt c.flags c.transport c.service_iff2 b 0x3f) service-valid
      ∙ ap (rebuilt c.flags c.transport c.service_iff2 c.service_iff2_valid) (sym v.validity_eq)

-- The 40 bytes of a snapshot that an agent may send are parsed to that snapshot.
pub parse_agent_cpu_context-context_bytes :
    (c : CpuSnapshot) → IsContext c → parse_agent_cpu_context (context_bytes c) ≡ ok c
unfolding parse_agent_cpu_context
parse_agent_cpu_context-context_bytes c v =
    rw (header-ok c v, fields-ok c v, snapshot-same c v) refl

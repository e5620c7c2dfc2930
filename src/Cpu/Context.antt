-- ===== src/Cpu/Context.antt =====
-- The layout of a CPU context and of the flags for server/msx_cpu.py.
use msx_ai.Base.{
  ℕ, zero, suc, ◌+◌, ◌%◌, ◌/◌, ◌<◌, ◌≡◌, refl, sym, ap, ◌∙◌, Bool, true, false, not, ◌&&◌, ◌||◌,
  some, List, [], ◌∷◌, ◌++◌, length, All, ok, ◌==◌, ==→eq, bit_and, arith,
}
use msx_ai.Base.Bits.{tests_below, tests_below_sound}
use msx_ai.Base.Bytes.{IsByte, le16, le16-u16, byte_at, word}
use msx_ai.Base.Int.{pos}
use msx_ai.Cpu.{
  CpuSnapshot, Z80Flags, has_bits, z80_flags, decode_z80_flags, check_context_header, registers_of,
  check_fields, snapshot_of, parse_agent_cpu_context,
}

-- The value of a flag register, from its bits.
abbrev pub weight : Bool → ℕ → ℕ
weight true w = w
weight false w = 0

abbrev pub flags_value : Z80Flags → ℕ
flags_value f =
    weight f.s 128
    + weight f.z 64
    + weight f.y 32
    + weight f.h 16
    + weight f.x 8
    + weight f.pv 4
    + weight f.n 2
    + weight f.c 1

flags_table : tests_below (λ v. flags_value (z80_flags v) == v) 256 ≡ true
unfolding tests_below z80_flags has_bits
flags_table = refl

decoded :
    (value : ℕ) (flags : Z80Flags)
    → decode_z80_flags (pos value) ≡ some flags
    → (value < 256) × (flags ≡ z80_flags value)
unfolding decode_z80_flags
decoded value flags e = ground (arith, e)

-- The decoded flags of a byte are its bits: their weights sum up to it. A number outside a byte is
-- refused.
pub decode_z80_flags-value :
    (value : ℕ) (flags : Z80Flags)
    → decode_z80_flags (pos value) ≡ some flags
    → flags_value flags ≡ value
unfolding decode_z80_flags
decode_z80_flags-value value flags e =
    let (small, same) = decoded value flags e in
    rw same (==→eq _ value (tests_below_sound _ 256 flags_table value small))

-- The layout of a context, as the agent sends it: a fixed header, the state, ten words of registers,
-- and what the service adds.
abbrev pub context_bytes : CpuSnapshot → List ℕ
context_bytes c =
    1
      ∷ 1
      ∷ 40
      ∷ 0x3f
      ∷ c.agent_state_code
      ∷ 1
      ∷ c.runtime_mode_id
      ∷ c.transport_id
      ∷ le16 c.registers.hl_alt
    ++ le16 c.registers.de_alt
    ++ le16 c.registers.bc_alt
    ++ le16 c.registers.af_alt
    ++ le16 c.registers.iy
    ++ le16 c.registers.ix
    ++ le16 c.registers.hl
    ++ le16 c.registers.de
    ++ le16 c.registers.bc
    ++ le16 c.registers.af
    ++ le16 c.hook_entry_service_sp
    ++ le16 c.callback_return_address
    ++ c.service_i ∷ c.service_r ∷ le16 c.jiffy
    ++ c.screen_mode ∷ c.control_level ∷ c.service_flags ∷ 0 ∷ []

-- The first so many bytes, one after the other.
bytes_from : List ℕ → (count start : ℕ) → List ℕ
bytes_from payload zero start = []
bytes_from payload (suc count) start = byte_at payload start ∷ bytes_from payload count (suc start)

bytes_from-past :
    (b : ℕ) (payload : List ℕ) (count start : ℕ)
    → bytes_from (b ∷ payload) count (suc start) ≡ bytes_from payload count start
unfolding bytes_from
bytes_from-past b payload zero start = refl
bytes_from-past b payload (suc count) start =
    ap (λ r. byte_at payload start ∷ r) (bytes_from-past b payload count (suc start))

bytes_from-all : (payload : List ℕ) → bytes_from payload (length payload) 0 ≡ payload
unfolding bytes_from
bytes_from-all [] = refl
bytes_from-all (b ∷ payload) =
    ap (λ r. b ∷ r) (bytes_from-past b payload (length payload) 0 ∙ bytes_from-all payload)

byte_at-IsByte : (payload : List ℕ) (i : ℕ) → All IsByte payload → IsByte (byte_at payload i)
byte_at-IsByte [] i h = omega arith
byte_at-IsByte (b ∷ payload) zero h = h.0
byte_at-IsByte (b ∷ payload) (suc i) h = byte_at-IsByte payload i h.1

validity_table :
    tests_below (λ v. not ((bit_and v 0x3f == 0x3f) && (bit_and v 0xc0 == 0)) || (v == 0x3f)) 256
    ≡ true
unfolding tests_below
validity_table = refl

validity-only : (v : ℕ) → v < 256 → bit_and v 0x3f ≡ 0x3f → bit_and v 0xc0 ≡ 0 → v ≡ 0x3f
validity-only v h a b =
    let tested = tests_below_sound _ 256 validity_table v h in ground (arith, tested, a, b)

module _ (payload : List ℕ) (c : CpuSnapshot) (e : parse_agent_cpu_context payload ≡ ok c) where
  parsed-fixed :
      (length payload ≡ 40)
      × (byte_at payload 0 ≡ 1)
      × (byte_at payload 1 ≡ 1)
      × (byte_at payload 2 ≡ 40)
      × (bit_and (byte_at payload 3) 0x3f ≡ 0x3f)
      × (bit_and (byte_at payload 3) 0xc0 ≡ 0)
      × (byte_at payload 39 ≡ 0)
  unfolding parse_agent_cpu_context check_context_header has_bits
  parsed-fixed = ground (arith, e)

  parsed-hook : (byte_at payload 5 ≡ 1) × (c ≡ snapshot_of payload)
  unfolding parse_agent_cpu_context check_fields
  parsed-hook = ground (arith, e)

-- The layout of what was read is what was read, where the fixed bytes are in place.
read-again :
    (payload : List ℕ)
    → ((i : ℕ) → IsByte (byte_at payload i))
    → byte_at payload 0 ≡ 1
    → byte_at payload 1 ≡ 1
    → byte_at payload 2 ≡ 40
    → byte_at payload 3 ≡ 0x3f
    → byte_at payload 5 ≡ 1
    → byte_at payload 39 ≡ 0
    → bytes_from payload 40 0 ≡ context_bytes (snapshot_of payload)
unfolding snapshot_of registers_of bytes_from
read-again payload byte version kind declared validity hook reserved =
    let low : (i : ℕ) → word payload i % 256 ≡ byte_at payload i =
      λ i. (le16-u16 (byte_at payload i) (byte_at payload (suc i)) (byte i) (byte (suc i))).0 in
    let high : (i : ℕ) → word payload i / 256 % 256 ≡ byte_at payload (suc i) =
      λ i. (le16-u16 (byte_at payload i) (byte_at payload (suc i)) (byte i) (byte (suc i))).1 in
    rw (version, kind, declared, validity, hook, reserved)
      (rw
        (
          low 8,
          high 8,
          low 10,
          high 10,
          low 12,
          high 12,
          low 14,
          high 14,
          low 16,
          high 16,
          low 18,
          high 18,
          low 20,
          high 20,
          low 22,
          high 22,
          low 24,
          high 24,
          low 26,
          high 26,
          low 28,
          high 28,
          low 30,
          high 30,
          low 34,
          high 34,
        )
        refl)

-- A payload of bytes that is parsed is the context with the fields of the result: nothing of it is
-- lost, and no other payload has the same result.
pub parse_agent_cpu_context_sound :
    (payload : List ℕ) (c : CpuSnapshot)
    → All IsByte payload
    → parse_agent_cpu_context payload ≡ ok c
    → payload ≡ context_bytes c
unfolding snapshot_of registers_of bytes_from
parse_agent_cpu_context_sound payload c h e =
    let (size, version, kind, declared, required, others, reserved) = parsed-fixed payload c e in
    let (hook, same) = parsed-hook payload c e in
    let byte : (i : ℕ) → IsByte (byte_at payload i) = λ i. byte_at-IsByte payload i h in
    let validity = validity-only (byte_at payload 3) (byte 3) required others in
    let whole = ap (λ n. bytes_from payload n 0) (sym size) ∙ bytes_from-all payload in
    sym whole
    ∙ read-again payload byte version kind declared validity hook reserved
    ∙ ap context_bytes (sym same)

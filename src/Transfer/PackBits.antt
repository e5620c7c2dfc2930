-- ===== src/Transfer/PackBits.antt =====
-- The PackBits encoder `_deterministic_packbits` of server/msx_transfer.py. The source is the list
-- of the blocks that its reads return; the staged file is the list of bytes written. `crc32` is
-- zlib's `crc32(data, value)`. Progress, cancellation and the temporary file are not modelled.
pub mod Format
pub mod Steps
pub mod RoundTrip
pub mod Total
use msx_ai.Base.{
  ℕ, zero, suc, ◌+◌, ◌-◌, Bool, true, false, not, ◌&&◌, ◌||◌, List, [], ◌∷◌, ◌++◌, length, take,
  drop, replicate, min, Result, ok, err, ◌>>=◌, ◌>>◌, raise_if, ltb, leb, ◌==◌, if◌then◌else◌,
}
use msx_ai.Transfer.Types.{TransferError, transfer_error, wire_limit}

-- The local variables. `run_byte` is read only where `run_length` is not zero; Python's None is 0.
pub record PackBits : Type 0 where
  pub final_size : ℕ
  pub final_crc : ℕ
  pub wire : List ℕ
  pub wire_size : ℕ
  pub wire_crc : ℕ
  pub literal : List ℕ
  pub run_byte : ℕ
  pub run_length : ℕ

abbrev pub start : PackBits
start = record {
  final_size = 0;
  final_crc = 0;
  wire = [];
  wire_size = 0;
  wire_crc = 0;
  literal = [];
  run_byte = 0;
  run_length = 0;
}

abbrev pub flushes : Bool → PackBits → Bool
flushes final s = leb 128 (length s.literal) || (final && not (length s.literal == 0))

abbrev pub no_run : PackBits → PackBits
no_run s = record s { run_byte = 0; run_length = 0 }

abbrev pub begin_run : ℕ → PackBits → PackBits
begin_run value s = record s { run_byte = value; run_length = 1 }

module _ (crc32 : List ℕ → ℕ → ℕ) (max_size : ℕ) where
  unfoldable pub emit : List ℕ → PackBits → Result TransferError PackBits
  emit packet s =
      if ltb (max_size - s.wire_size) (length packet)
      then err wire_limit
      else ok (record s {
        wire = s.wire ++ packet;
        wire_size = s.wire_size + length packet;
        wire_crc = crc32 packet s.wire_crc;
      })

  -- One round of the loop of `flush_literals`.
  unfoldable pub flush_packet : PackBits → Result TransferError PackBits
  flush_packet s =
      let count = min 128 (length s.literal) in
      emit ((count - 1) ∷ take count s.literal) (record s { literal = drop count s.literal })

  -- The loop, with fuel for one round more than there are literals.
  unfoldable pub flush_loop : ℕ → Bool → PackBits → Result TransferError PackBits
  flush_loop zero final s = ok s
  flush_loop (suc fuel) final s =
      let rest = (do t ← flush_packet s; flush_loop fuel final t) in
      if flushes final s then rest else ok s

  unfoldable pub flush_literals : Bool → PackBits → Result TransferError PackBits
  flush_literals final s = flush_loop (suc (length s.literal)) final s

  unfoldable pub settle_run : PackBits → Result TransferError PackBits
  settle_run s =
      if leb 3 s.run_length
      then (do
        t ← flush_literals true s
        u ← emit ((257 - s.run_length) ∷ s.run_byte ∷ []) t
        ok (no_run u))
      else if ltb 0 s.run_length
      then (do
        t ←
            flush_literals false
              (record s { literal = s.literal ++ replicate s.run_length s.run_byte })
        ok (no_run t))
      else ok (no_run s)

  -- The body of the loop over a block.
  unfoldable pub push : ℕ → PackBits → Result TransferError PackBits
  push value s =
      if ltb 0 s.run_length && (value == s.run_byte)
      then if s.run_length == 128
        then (do t ← settle_run s; ok (begin_run value t))
        else ok (record s { run_length = s.run_length + 1 })
      else (do t ← settle_run s; ok (begin_run value t))

  unfoldable pub push_all : List ℕ → PackBits → Result TransferError PackBits
  push_all [] s = ok s
  push_all (b ∷ bs) s = do t ← push b s; push_all bs t

  -- The loop over the blocks that the source returns.
  unfoldable pub read_blocks : List (List ℕ) → PackBits → Result TransferError PackBits
  read_blocks [] s = ok s
  read_blocks (block ∷ blocks) s = do
    raise_if (ltb (max_size - s.final_size) (length block)) (transfer_error "source size")
    t ←
        push_all block (record s {
          final_size = s.final_size + length block;
          final_crc = crc32 block s.final_crc;
        })
    read_blocks blocks t

  unfoldable pub deterministic_packbits : List (List ℕ) → Result TransferError PackBits
  deterministic_packbits blocks = do
    s ← read_blocks blocks start
    t ← settle_run s
    flush_literals true t

-- ===== src/Transfer/Basic.antt =====
-- `_normalize_msx_basic_stream` and `normalize_msx_basic_text` of server/msx_transfer.py: an ASCII
-- BASIC listing becomes canonical MSX-DOS text. The output stream is the list of its bytes, and the
-- source stream the list of the blocks that its reads give. No callback is installed.
mod Views
pub mod Chunks
use msx_ai.Base.{
  ℕ, suc, ◌+◌, Bool, true, false, not, ◌&&◌, ◌||◌, List, [], ◌∷◌, ◌++◌, length, take, Result, ok,
  err, ◌>>=◌, ◌>>◌, raise_if, ltb, leb, ◌==◌, if◌then◌else◌,
}
use msx_ai.Transfer.Types.{TransferError, transfer_error}
use msx_ai.Transfer.PackBits.{read_blocks}

-- The variables of the loop.
pub record Basic : Type 0 where
  pub output : List ℕ
  pub line_start : ℕ
  pub line_numbered : Bool
  pub saw_statement : Bool
  pub pending_cr : Bool
  pub eof_seen : Bool
  pub pending_output : List ℕ
  pub source_size : ℕ

abbrev pub start_basic : Basic
start_basic = record {
  output = [];
  line_start = 0;
  line_numbered = false;
  saw_statement = false;
  pending_cr = false;
  eof_seen = false;
  pending_output = [];
  source_size = 0;
}

unfoldable pub flush_pending : Basic → Basic
flush_pending s = record s { output = s.output ++ s.pending_output; pending_output = [] }

-- The end of a numbered line is CR LF, and the whitespace of any other line is cut off again.
unfoldable pub close_line : Basic → Basic
close_line s =
    if s.line_numbered
    then record (flush_pending s) {
      output = (flush_pending s).output ++ (13 ∷ 10 ∷ []);
      saw_statement = true;
    }
    else record s { output = take s.line_start s.output }

unfoldable pub finish_line : Basic → Basic
finish_line s = record (close_line s) {
  line_start = length (close_line s).output;
  line_numbered = false;
}

-- A byte of a numbered line: it waits until `chunk_size` bytes do.
unfoldable pub append_pending : ℕ → Basic → ℕ → Basic
append_pending chunk_size s value =
    let t : Basic = record s { pending_output = s.pending_output ++ (value ∷ []) } in
    if leb chunk_size (length t.pending_output) then flush_pending t else t

-- A byte that is no control byte but the tab.
unfoldable pub text_byte : ℕ → Basic → ℕ → Result TransferError Basic
text_byte chunk_size s value =
    if s.line_numbered
    then ok (append_pending chunk_size s value)
    else if (value == 0x09) || (value == 0x20)
    then ok (record s { output = s.output ++ (value ∷ []) })
    else if leb 0x30 value && leb value 0x39
    then ok (append_pending chunk_size (record s { line_numbered = true }) value)
    else err (transfer_error "BASIC line number")

-- A byte, once a carriage return before it is settled.
unfoldable pub line_byte : ℕ → Basic → ℕ → Result TransferError Basic
line_byte chunk_size s value =
    if value == 0x1a
    then ok (record (finish_line s) { eof_seen = true })
    else if value == 0x0d
    then ok (record s { pending_cr = true })
    else if value == 0x0a
    then ok (finish_line s)
    else if ltb value 0x20 && not (value == 0x09)
    then err (transfer_error "BASIC control byte")
    else text_byte chunk_size s value

-- The carriage return that waits ends its line.
unfoldable pub settle_cr : Basic → Basic
settle_cr s = record (finish_line s) { pending_cr = false }

unfoldable pub normalize_byte : ℕ → Basic → ℕ → Result TransferError Basic
normalize_byte chunk_size s value =
    if s.eof_seen
    then if value == 0x1a then ok s else err (transfer_error "BASIC data after EOF")
    else if s.pending_cr
    then if value == 0x0a then ok (settle_cr s) else line_byte chunk_size (settle_cr s) value
    else line_byte chunk_size s value

unfoldable pub normalize_block : ℕ → Basic → List ℕ → Result TransferError Basic
normalize_block chunk_size s [] = ok s
normalize_block chunk_size s (value ∷ rest) =
    normalize_byte chunk_size s value >>= λ t. normalize_block chunk_size t rest

unfoldable pub count_block : Basic → List ℕ → Basic
count_block s block = record s { source_size = s.source_size + length block }

unfoldable pub normalize_blocks : ℕ → Basic → List (List ℕ) → Result TransferError Basic
normalize_blocks chunk_size s [] = ok s
normalize_blocks chunk_size s (block ∷ rest) =
    normalize_block chunk_size (count_block s block) block >>= λ t.
    normalize_blocks chunk_size t rest

-- What follows the loop: the last line, the check for a statement and the 0x1A.
unfoldable pub end_basic : Basic → Result TransferError (ℕ × List ℕ)
end_basic s = do
  t ← ok (if s.pending_cr || not s.eof_seen then finish_line s else s)
  raise_if (not t.saw_statement) (transfer_error "BASIC without lines")
  ok (t.source_size, t.output ++ (0x1a ∷ []))

-- The size of the source and the normalized text, for the blocks that the reads give.
unfoldable pub normalize_msx_basic_stream : ℕ → List (List ℕ) → Result TransferError (ℕ × List ℕ)
normalize_msx_basic_stream chunk_size blocks = do
  raise_if (chunk_size == 0) (transfer_error "chunk_size")
  s ← normalize_blocks chunk_size start_basic blocks
  end_basic s

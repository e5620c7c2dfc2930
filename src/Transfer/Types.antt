-- ===== src/Transfer/Types.antt =====
-- The enumerations, errors and field checks of server/msx_transfer.py. A message of an exception is
-- represented by the name of the field or payload that it is about.
use msx_ai.Base.{
  ℕ, String, Bool, true, false, ◌||◌, List, [], ◌∷◌, length, take, drop, Result, ok, err, ◌>>◌,
  raise_if, ltb, leb, ◌==◌, if◌then◌else◌,
}
use msx_ai.Base.Bytes.{u16, u32}
use msx_ai.Base.Int.{ℤ, pos, negsuc}

-- TransferError and its subclasses; `struct_error` is raised by `struct.unpack` on a short buffer.
pub data TransferError : Type 0 where
  transfer_error : String → TransferError
  payload_error : String → TransferError
  binding_error : String → TransferError
  cancelled_error : String → TransferError
  journal_error : String → TransferError
  wire_limit : TransferError
  struct_error : TransferError

abbrev pub uint32_max : ℕ
uint32_max = 0xffffffff

abbrev pub max_path_bytes : ℕ
max_path_bytes = 255

pub data TransferDirection : Type 0 where
  put get : TransferDirection

pub data TransferEncoding : Type 0 where
  raw packbits : TransferEncoding

pub data TransferState : Type 0 where
  idle staged opening ready transferring verifying postprocess complete suspended failed cancelled :
      TransferState

pub data TransferRemoteError : Type 0 where
  none binding io crc exists timeout unsupported metadata range : TransferRemoteError

abbrev pub direction_value : TransferDirection → ℕ
direction_value put = 0
direction_value get = 1

abbrev pub encoding_value : TransferEncoding → ℕ
encoding_value raw = 0
encoding_value packbits = 1

abbrev pub state_value : TransferState → ℕ
state_value idle = 0
state_value staged = 1
state_value opening = 2
state_value ready = 3
state_value transferring = 4
state_value verifying = 5
state_value postprocess = 6
state_value complete = 7
state_value suspended = 8
state_value failed = 9
state_value cancelled = 10

abbrev pub remote_error_value : TransferRemoteError → ℕ
remote_error_value none = 0
remote_error_value binding = 1
remote_error_value io = 2
remote_error_value crc = 3
remote_error_value exists = 4
remote_error_value timeout = 5
remote_error_value unsupported = 6
remote_error_value metadata = 7
remote_error_value range = 8

abbrev pub is_get : TransferDirection → Bool
is_get put = false
is_get get = true

abbrev pub is_raw : TransferEncoding → Bool
is_raw raw = true
is_raw packbits = false

-- `TransferDirection(value)` and `TransferEncoding(value)`.
unfoldable pub direction_of : TransferError → ℕ → Result TransferError TransferDirection
direction_of e v = if v == 0 then ok put else if v == 1 then ok get else err e

unfoldable pub encoding_of : TransferError → ℕ → Result TransferError TransferEncoding
encoding_of e v = if v == 0 then ok raw else if v == 1 then ok packbits else err e

-- `_reply_state` and `_reply_error`, of the reply with this name.
unfoldable pub reply_state : ℕ → String → Result TransferError TransferState
reply_state v name =
    if v == 0
    then ok idle
    else if v == 1
    then ok staged
    else if v == 2
    then ok opening
    else if v == 3
    then ok ready
    else if v == 4
    then ok transferring
    else if v == 5
    then ok verifying
    else if v == 6
    then ok postprocess
    else if v == 7
    then ok complete
    else if v == 8
    then ok suspended
    else if v == 9
    then ok failed
    else if v == 10
    then ok cancelled
    else err (payload_error name)

unfoldable pub reply_error : ℕ → String → Result TransferError TransferRemoteError
reply_error v name =
    if v == 0
    then ok none
    else if v == 1
    then ok binding
    else if v == 2
    then ok io
    else if v == 3
    then ok crc
    else if v == 4
    then ok exists
    else if v == 5
    then ok timeout
    else if v == 6
    then ok unsupported
    else if v == 7
    then ok metadata
    else if v == 8
    then ok range
    else err (payload_error name)

unfoldable pub u32_field : String → ℤ → Result TransferError ℕ
u32_field name (pos v) = if leb v uint32_max then ok v else err (transfer_error name)
u32_field name (negsuc v) = err (transfer_error name)

unfoldable pub u16_field : String → ℤ → Result TransferError ℕ
u16_field name (pos v) = if leb v 0xffff then ok v else err (transfer_error name)
u16_field name (negsuc v) = err (transfer_error name)

unfoldable pub transfer_id_field : List ℕ → Result TransferError (List ℕ)
transfer_id_field value =
    if length value == 16 then ok value else err (transfer_error "transfer_id")

-- `any(...)` over the characters of a path.
unfoldable pub any_outside : (low high : ℕ) → List ℕ → Bool
any_outside low high [] = false
any_outside low high (b ∷ bs) = (ltb b low || ltb high b) || any_outside low high bs

-- `_path_bytes`: a path is the list of its code points.
unfoldable pub path_bytes : List ℕ → Result TransferError (List ℕ)
path_bytes path = do
  raise_if (any_outside 0 0x7f path) (transfer_error "path ascii")
  raise_if (length path == 0) (transfer_error "path empty")
  raise_if (ltb max_path_bytes (length path)) (transfer_error "path length")
  raise_if (any_outside 0x20 0x7e path) (transfer_error "path printable")
  ok path

-- The fields of `struct.unpack("<...")`, read one after the other.
unfoldable pub read8 : List ℕ → Result TransferError (ℕ × List ℕ)
read8 (a ∷ r) = ok (a, r)
read8 _ = err struct_error

unfoldable pub read16 : List ℕ → Result TransferError (ℕ × List ℕ)
read16 (a ∷ b ∷ r) = ok (u16 a b, r)
read16 _ = err struct_error

unfoldable pub read32 : List ℕ → Result TransferError (ℕ × List ℕ)
read32 (a ∷ b ∷ c ∷ d ∷ r) = ok (u32 a b c d, r)
read32 _ = err struct_error

unfoldable pub read_id : List ℕ → Result TransferError (List ℕ × List ℕ)
read_id bs = if ltb (length bs) 16 then err struct_error else ok (take 16 bs, drop 16 bs)

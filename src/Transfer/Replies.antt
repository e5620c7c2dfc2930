-- ===== src/Transfer/Replies.antt =====
-- The reply parsers of server/msx_transfer.py. Flag sets are the numbers that carry them.
pub mod Status
use msx_ai.Base.{
  ℕ, ◌+◌, Bool, true, false, not, ◌&&◌, ◌||◌, Option, none, some, String, List, [], ◌∷◌, length,
  Result, ok, err, ◌>>=◌, ◌>>◌, raise_if, ltb, ◌==◌, if◌then◌else◌, bit_and,
}
use msx_ai.Transfer.Types.{
  TransferError, payload_error, binding_error, TransferState, TransferRemoteError,
  TransferDirection, TransferEncoding, direction_of, encoding_of, reply_state, reply_error,
  transfer_id_field, read8, read16, read32, read_id,
}

pub record CapabilitiesReply : Type 0 where
  pub version : ℕ
  pub capabilities : ℕ
  pub max_put_chunk : ℕ
  pub max_get_chunk : ℕ
  pub max_path : ℕ

pub record FastCapabilitiesReply : Type 0 where
  pub version : ℕ
  pub capabilities : ℕ
  pub max_put_chunk : ℕ
  pub max_get_chunk : ℕ

-- TransferOpenReply and TransferTerminalReply.
pub record StateReply : Type 0 where
  pub state : TransferState
  pub error : TransferRemoteError

pub record ProgressReply : Type 0 where
  pub accepted : ℕ
  pub accepted_end : ℕ
  pub durable_end : ℕ
  pub credit : ℕ
  pub state : TransferState
  pub error : TransferRemoteError

pub record DataReply : Type 0 where
  pub offset : ℕ
  pub bytes : List ℕ
  pub state : TransferState
  pub error : TransferRemoteError

pub record AckReply : Type 0 where
  pub durable_offset : ℕ
  pub state : TransferState
  pub error : TransferRemoteError

pub record StatusReply : Type 0 where
  pub state : TransferState
  pub direction : TransferDirection
  pub encoding : TransferEncoding
  pub error : TransferRemoteError
  pub flags : ℕ
  pub transfer_id : List ℕ
  pub wire_size : ℕ
  pub wire_crc32 : ℕ
  pub final_size : ℕ
  pub final_crc32 : ℕ
  pub durable_offset : ℕ
  pub accepted_offset : ℕ
  pub prefix_crc32 : ℕ
  pub credit : ℕ

-- `_payload`: a reply of a fixed size.
unfoldable pub exact_payload : List ℕ → ℕ → String → Result TransferError (List ℕ)
exact_payload payload size name = do
  raise_if (not (length payload == size)) (payload_error name)
  ok payload

unfoldable pub bytes_equal : List ℕ → List ℕ → Bool
bytes_equal [] [] = true
bytes_equal (x ∷ xs) (y ∷ ys) = (x == y) && bytes_equal xs ys
bytes_equal _ _ = false

-- `_expected_id`.
unfoldable pub expected_id : List ℕ → Option (List ℕ) → Result TransferError (List ℕ)
expected_id actual none = transfer_id_field actual
expected_id actual (some expected) = do
  a ← transfer_id_field actual
  e ← transfer_id_field expected
  raise_if (not (bytes_equal a e)) (binding_error "transfer ID")
  ok a

-- `_reply_flags`: the known flags are the five lowest bits.
unfoldable pub reply_flags : ℕ → String → Result TransferError ℕ
reply_flags value name = do raise_if (not (bit_and value 0xe0 == 0)) (payload_error name); ok value

-- The capability bits PUT 2 and GET 4 are read; seven bits are known.
unfoldable pub parse_capabilities_reply : List ℕ → Result TransferError CapabilitiesReply
parse_capabilities_reply payload = do
  r ← exact_payload payload 11 "CAPABILITIES"
  (version, r) ← read8 r
  (bits, r) ← read32 r
  (put_chunk, r) ← read16 r
  (get_chunk, r) ← read16 r
  (max_path, r) ← read16 r
  raise_if (not (version == 1)) (payload_error "version")
  raise_if (not (bit_and bits 0xffffff80 == 0)) (payload_error "unknown bits")
  raise_if (not (bit_and bits 2 == 0) && (put_chunk == 0)) (payload_error "PUT chunk")
  raise_if (not (bit_and bits 4 == 0) && (get_chunk == 0)) (payload_error "GET chunk")
  raise_if (not (bit_and bits 6 == 0) && (max_path == 0)) (payload_error "path limit")
  ok (record {
    version = version;
    capabilities = bits;
    max_put_chunk = put_chunk;
    max_get_chunk = get_chunk;
    max_path = max_path;
  })

unfoldable pub parse_fast_capabilities_reply : List ℕ → Result TransferError FastCapabilitiesReply
parse_fast_capabilities_reply payload = do
  r ← exact_payload payload 6 "FAST_CAPABILITIES"
  (version, r) ← read8 r
  (bits, r) ← read8 r
  (put_chunk, r) ← read16 r
  (get_chunk, r) ← read16 r
  raise_if (not (version == 1)) (payload_error "version")
  raise_if (not (bit_and bits 0xfc == 0)) (payload_error "unknown bits")
  raise_if (not (bit_and bits 1 == 0) && ((put_chunk == 0) || (get_chunk == 0)))
      (payload_error "chunk")
  ok (record {
    version = version;
    capabilities = bits;
    max_put_chunk = put_chunk;
    max_get_chunk = get_chunk;
  })

-- `parse_open_reply`, and `_parse_terminal_reply` for CLOSE and CANCEL.
unfoldable pub parse_state_reply : String → List ℕ → Result TransferError StateReply
parse_state_reply name payload = do
  r ← exact_payload payload 2 name
  (state, r) ← read8 r
  (error, r) ← read8 r
  s ← reply_state state name
  e ← reply_error error name
  ok (record { state = s; error = e })

unfoldable pub parse_put_data_reply : List ℕ → Result TransferError ProgressReply
parse_put_data_reply payload = do
  r ← exact_payload payload 14 "PUT_DATA"
  (accepted, r) ← read16 r
  (accepted_end, r) ← read32 r
  (durable_end, r) ← read32 r
  (credit, r) ← read16 r
  (state, r) ← read8 r
  (error, r) ← read8 r
  raise_if (ltb accepted_end durable_end) (payload_error "PUT_DATA durable_end")
  s ← reply_state state "PUT_DATA"
  e ← reply_error error "PUT_DATA"
  ok (record {
    accepted = accepted;
    accepted_end = accepted_end;
    durable_end = durable_end;
    credit = credit;
    state = s;
    error = e;
  })

unfoldable pub parse_get_read_reply : List ℕ → Result TransferError DataReply
parse_get_read_reply payload = do
  raise_if (ltb (length payload) 8) (payload_error "GET_READ")
  (offset, r) ← read32 payload
  (size, r) ← read16 r
  (state, r) ← read8 r
  (error, bytes) ← read8 r
  raise_if (not (length payload == 8 + size)) (payload_error "GET_READ length")
  s ← reply_state state "GET_READ"
  e ← reply_error error "GET_READ"
  ok (record { offset = offset; bytes = bytes; state = s; error = e })

unfoldable pub parse_get_ack_reply : List ℕ → Result TransferError AckReply
parse_get_ack_reply payload = do
  r ← exact_payload payload 6 "GET_ACK"
  (durable, r) ← read32 r
  (state, r) ← read8 r
  (error, r) ← read8 r
  s ← reply_state state "GET_ACK"
  e ← reply_error error "GET_ACK"
  ok (record { durable_offset = durable; state = s; error = e })

unfoldable pub parse_status_reply : List ℕ → Option (List ℕ) → Result TransferError StatusReply
parse_status_reply payload expected_transfer_id = do
  r ← exact_payload payload 51 "STATUS"
  (state, r) ← read8 r
  (direction, r) ← read8 r
  (encoding, r) ← read8 r
  (error, r) ← read8 r
  (flags, r) ← read8 r
  (transfer_id, r) ← read_id r
  (wire_size, r) ← read32 r
  (wire_crc, r) ← read32 r
  (final_size, r) ← read32 r
  (final_crc, r) ← read32 r
  (durable, r) ← read32 r
  (accepted, r) ← read32 r
  (prefix_crc, r) ← read32 r
  (credit, r) ← read16 r
  d ← direction_of (payload_error "STATUS direction") direction
  c ← encoding_of (payload_error "STATUS encoding") encoding
  raise_if (ltb accepted durable) (payload_error "STATUS durable offset")
  raise_if (ltb wire_size accepted) (payload_error "STATUS accepted offset")
  s ← reply_state state "STATUS"
  e ← reply_error error "STATUS"
  f ← reply_flags flags "STATUS"
  i ← expected_id transfer_id expected_transfer_id
  ok (record {
    state = s;
    direction = d;
    encoding = c;
    error = e;
    flags = f;
    transfer_id = i;
    wire_size = wire_size;
    wire_crc32 = wire_crc;
    final_size = final_size;
    final_crc32 = final_crc;
    durable_offset = durable;
    accepted_offset = accepted;
    prefix_crc32 = prefix_crc;
    credit = credit;
  })

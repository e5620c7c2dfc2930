-- ===== src/Transfer/Requests.antt =====
-- The request encoders of server/msx_transfer.py beside OPEN.
use msx_ai.Base.{ℕ, ◌-◌, List, [], ◌∷◌, ◌++◌, length, Result, ok, ◌>>=◌, ◌>>◌, raise_if, ltb, ◌==◌}
use msx_ai.Base.Bytes.{le16, le32}
use msx_ai.Base.Int.{ℤ}
use msx_ai.Transfer.Types.{TransferError, transfer_error, transfer_id_field, u16_field, u32_field}

unfoldable pub encode_capabilities_request : List ℕ
encode_capabilities_request = 0 ∷ []

unfoldable pub encode_fast_capabilities_request : List ℕ
encode_fast_capabilities_request = 8 ∷ []

-- `_ID_REQUEST.pack(subcommand, transfer_id)`.
unfoldable pub id_request : ℕ → List ℕ → Result TransferError (List ℕ)
id_request subcommand transfer_id = do i ← transfer_id_field transfer_id; ok (subcommand ∷ i)

unfoldable pub encode_fast_begin : List ℕ → Result TransferError (List ℕ)
encode_fast_begin transfer_id = id_request 9 transfer_id

unfoldable pub encode_status : List ℕ → Result TransferError (List ℕ)
encode_status transfer_id = id_request 2 transfer_id

unfoldable pub encode_cancel : List ℕ → Result TransferError (List ℕ)
encode_cancel transfer_id = id_request 7 transfer_id

-- 21 is the size of the fixed part of the request.
unfoldable pub encode_put_data : List ℕ → ℤ → List ℕ → Result TransferError (List ℕ)
encode_put_data transfer_id offset bytes = do
  raise_if (length bytes == 0) (transfer_error "PUT_DATA empty")
  raise_if (ltb (0xffff - 21) (length bytes)) (transfer_error "PUT_DATA limit")
  i ← transfer_id_field transfer_id
  o ← u32_field "offset" offset
  ok (3 ∷ (i ++ (le32 o ++ bytes)))

unfoldable pub encode_get_read : List ℕ → ℤ → ℤ → Result TransferError (List ℕ)
encode_get_read transfer_id offset maximum = do
  m ← u16_field "maximum" maximum
  raise_if (m == 0) (transfer_error "GET_READ maximum")
  i ← transfer_id_field transfer_id
  o ← u32_field "offset" offset
  ok (4 ∷ (i ++ (le32 o ++ le16 m)))

unfoldable pub encode_get_ack : List ℕ → ℤ → ℤ → Result TransferError (List ℕ)
encode_get_ack transfer_id next_offset prefix_crc32 = do
  i ← transfer_id_field transfer_id
  o ← u32_field "next_offset" next_offset
  c ← u32_field "prefix_crc32" prefix_crc32
  ok (5 ∷ (i ++ (le32 o ++ le32 c)))

unfoldable pub encode_close : List ℕ → ℤ → Result TransferError (List ℕ)
encode_close transfer_id rate_bps = do
  i ← transfer_id_field transfer_id
  r ← u16_field "rate_bps" rate_bps
  ok (6 ∷ (i ++ le16 r))

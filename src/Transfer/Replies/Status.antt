-- ===== src/Transfer/Replies/Status.antt =====
-- The STATUS reply of server/msx_transfer.py, against the 51 bytes that a receiver sends for it.
use msx_ai.Base.{
  ℕ, ◌+◌, ◌*◌, ◌<◌, ◌≤◌, ◌≡◌, refl, sym, ap, Bool, true, false, not, ◌&&◌, Option, none, some, List,
  [], ◌∷◌, ◌++◌, length, Result, ok, err, ◌>>=◌, ◌>>◌, raise_if, ltb, ◌==◌, if◌then◌else◌, bit_and,
  arith, length-append, String,
}
use msx_ai.Base.Bits.{tests_below_sound}
use msx_ai.Base.Bytes.{le16, le32}
use msx_ai.Transfer.Types.{
  TransferError, idle, staged, opening, ready, transferring, verifying, postprocess, complete,
  suspended, failed, cancelled, binding, io, crc, exists, timeout, unsupported, metadata, range,
  TransferState, TransferRemoteError, payload_error, state_value, remote_error_value,
  direction_value, encoding_value, direction_of, encoding_of, reply_state, reply_error, read8,
  transfer_id_field,
}
use msx_ai.Transfer.Open.Laws.{
  direction_of-value, encoding_of-value, read_id-append, read32-le32, read16-le16,
}
use msx_ai.Transfer.Replies.{
  StatusReply, exact_payload, bytes_equal, expected_id, reply_flags, parse_status_reply,
}

-- No ID is expected, or this one.
unfoldable pub Agrees : Option (List ℕ) → List ℕ → Type 0
Agrees none i = Unit
Agrees (some e) i = e ≡ i

-- What a receiver's STATUS reply is made of.
pub record IsStatus (r : StatusReply) : Type 0 where
  pub flags_known : r.flags < 32
  pub id_length : length r.transfer_id ≡ 16
  pub durable_le : r.durable_offset ≤ r.accepted_offset
  pub accepted_le : r.accepted_offset ≤ r.wire_size
  pub wire_size_fits : r.wire_size < 4294967296
  pub wire_crc32_fits : r.wire_crc32 < 4294967296
  pub final_size_fits : r.final_size < 4294967296
  pub final_crc32_fits : r.final_crc32 < 4294967296
  pub prefix_crc32_fits : r.prefix_crc32 < 4294967296
  pub credit_fits : r.credit < 65536

-- The numbers and the ID of a reply, behind its five one-byte fields.
unfoldable pub status_tail : StatusReply → List ℕ
status_tail r =
    r.transfer_id
    ++ (le32 r.wire_size
        ++ (le32 r.wire_crc32
            ++ (le32 r.final_size
                ++ (le32 r.final_crc32
                    ++ (le32 r.durable_offset
                        ++ (le32 r.accepted_offset ++ (le32 r.prefix_crc32 ++ le16 r.credit)))))))

-- The bytes of a reply.
unfoldable pub status_bytes : StatusReply → List ℕ
status_bytes r =
    state_value r.state
    ∷ direction_value r.direction
    ∷ encoding_value r.encoding
    ∷ remote_error_value r.error
    ∷ r.flags
    ∷ status_tail r

reply_state-value : (s : TransferState) (name : String) → reply_state (state_value s) name ≡ ok s
unfolding reply_state
reply_state-value idle name = refl
reply_state-value staged name = refl
reply_state-value opening name = refl
reply_state-value ready name = refl
reply_state-value transferring name = refl
reply_state-value verifying name = refl
reply_state-value postprocess name = refl
reply_state-value complete name = refl
reply_state-value suspended name = refl
reply_state-value failed name = refl
reply_state-value cancelled name = refl

reply_error-value :
    (e : TransferRemoteError) (name : String) → reply_error (remote_error_value e) name ≡ ok e
unfolding reply_error
reply_error-value msx_ai.Transfer.Types.none name = refl
reply_error-value binding name = refl
reply_error-value io name = refl
reply_error-value crc name = refl
reply_error-value exists name = refl
reply_error-value timeout name = refl
reply_error-value unsupported name = refl
reply_error-value metadata name = refl
reply_error-value range name = refl

reply_flags-ok : (f : ℕ) (name : String) → f < 32 → reply_flags f name ≡ ok f
unfolding reply_flags msx_ai.Base.Bits.tests_below
reply_flags-ok f name h =
    let known = tests_below_sound (λ n. bit_and n 0xe0 == 0) 32 refl f h in rw known

pub bytes_equal_refl : (xs : List ℕ) → bytes_equal xs xs ≡ true
unfolding bytes_equal
bytes_equal_refl [] = refl
bytes_equal_refl (x ∷ xs) = ground (arith, bytes_equal_refl xs)

expected_id-ok :
    (i : List ℕ) (expected : Option (List ℕ))
    → length i ≡ 16
    → Agrees expected i
    → expected_id i expected ≡ ok i
unfolding expected_id transfer_id_field Agrees
expected_id-ok i none h a = ground (arith, h)
expected_id-ok i (some e) h a = ground (arith, h, a, bytes_equal_refl i)

-- What stands behind the ID.
abbrev status_numbers : StatusReply → List ℕ
status_numbers r =
    le32 r.wire_size
    ++ (le32 r.wire_crc32
        ++ (le32 r.final_size
            ++ (le32 r.final_crc32
                ++ (le32 r.durable_offset
                    ++ (le32 r.accepted_offset ++ (le32 r.prefix_crc32 ++ le16 r.credit))))))

length-status_bytes : (r : StatusReply) → IsStatus r → length (status_bytes r) ≡ 51
unfolding status_bytes status_tail
length-status_bytes r v =
    ground (arith, v.id_length, length-append r.transfer_id (status_numbers r))

exact_payload-ok :
    (payload : List ℕ) (size : ℕ) (name : String)
    → length payload ≡ size
    → exact_payload payload size name ≡ ok payload
unfolding exact_payload
exact_payload-ok payload size name h = ground (arith, h)

not_below : (m n : ℕ) → n ≤ m → ltb m n ≡ false
not_below m n h = ground (arith, h)

-- Each reply that a receiver may send is parsed to itself, when no transfer ID or the ID of the
-- reply is expected.
pub parse_status_reply-status_bytes :
    (r : StatusReply) (expected : Option (List ℕ))
    → IsStatus r
    → Agrees expected r.transfer_id
    → parse_status_reply (status_bytes r) expected ≡ ok r
unfolding parse_status_reply status_bytes status_tail read8
parse_status_reply-status_bytes r expected v a = rw (
  exact_payload-ok (status_bytes r) 51 "STATUS" (length-status_bytes r v),
  read_id-append r.transfer_id (status_numbers r) v.id_length,
  read32-le32 r.wire_size _ v.wire_size_fits,
  read32-le32 r.wire_crc32 _ v.wire_crc32_fits,
  read32-le32 r.final_size _ v.final_size_fits,
  read32-le32 r.final_crc32 _ v.final_crc32_fits,
  read32-le32 r.durable_offset _ (omega (arith, v.durable_le, v.accepted_le, v.wire_size_fits)),
  read32-le32 r.accepted_offset _ (omega (arith, v.accepted_le, v.wire_size_fits)),
  read32-le32 r.prefix_crc32 _ v.prefix_crc32_fits,
  read16-le16 r.credit [] v.credit_fits,
  direction_of-value (payload_error "STATUS direction") r.direction,
  encoding_of-value (payload_error "STATUS encoding") r.encoding,
  not_below r.accepted_offset r.durable_offset v.durable_le,
  not_below r.wire_size r.accepted_offset v.accepted_le,
  reply_state-value r.state "STATUS",
  reply_error-value r.error "STATUS",
  reply_flags-ok r.flags "STATUS" v.flags_known,
  expected_id-ok r.transfer_id expected v.id_length a,
)

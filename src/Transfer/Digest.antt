-- ===== src/Transfer/Digest.antt =====
-- The digests of server/msx_transfer.py, and the test for files that are compressed already. A file is
-- the list of the blocks that its reads give; `crc32` is zlib's `crc32(data, value)`.
use msx_ai.Base.{
  ℕ, ◌+◌, ◌-◌, Bool, false, ◌||◌, List, [], ◌∷◌, length, take, Result, ok, err, ◌>>=◌, ◌>>◌,
  raise_if, ltb, bit_and, if◌then◌else◌,
}
use msx_ai.Base.Int.{pos}
use msx_ai.Transfer.Types.{TransferError, transfer_error, uint32_max, u32_field}
use msx_ai.Transfer.Replies.{bytes_equal}

pub record FileDigest : Type 0 where
  pub size : ℕ
  pub crc32 : ℕ

-- `_COMPRESSED_EXTENSIONS`, as code points.
abbrev pub compressed_extensions : List (List ℕ)
compressed_extensions =
    (46 ∷ 55 ∷ 122 ∷ [])
    ∷ (46 ∷ 97 ∷ 118 ∷ 105 ∷ [])
    ∷ (46 ∷ 98 ∷ 122 ∷ 50 ∷ [])
    ∷ (46 ∷ 102 ∷ 108 ∷ 97 ∷ 99 ∷ [])
    ∷ (46 ∷ 103 ∷ 105 ∷ 102 ∷ [])
    ∷ (46 ∷ 103 ∷ 122 ∷ [])
    ∷ (46 ∷ 106 ∷ 112 ∷ 101 ∷ 103 ∷ [])
    ∷ (46 ∷ 106 ∷ 112 ∷ 103 ∷ [])
    ∷ (46 ∷ 108 ∷ 122 ∷ 52 ∷ [])
    ∷ (46 ∷ 109 ∷ 107 ∷ 118 ∷ [])
    ∷ (46 ∷ 109 ∷ 111 ∷ 118 ∷ [])
    ∷ (46 ∷ 109 ∷ 112 ∷ 51 ∷ [])
    ∷ (46 ∷ 109 ∷ 112 ∷ 52 ∷ [])
    ∷ (46 ∷ 111 ∷ 103 ∷ 103 ∷ [])
    ∷ (46 ∷ 112 ∷ 110 ∷ 103 ∷ [])
    ∷ (46 ∷ 114 ∷ 97 ∷ 114 ∷ [])
    ∷ (46 ∷ 116 ∷ 103 ∷ 122 ∷ [])
    ∷ (46 ∷ 119 ∷ 101 ∷ 98 ∷ 109 ∷ [])
    ∷ (46 ∷ 119 ∷ 101 ∷ 98 ∷ 112 ∷ [])
    ∷ (46 ∷ 120 ∷ 122 ∷ [])
    ∷ (46 ∷ 122 ∷ 105 ∷ 112 ∷ [])
    ∷ (46 ∷ 122 ∷ 115 ∷ 116 ∷ [])
    ∷ []

-- `_COMPRESSED_MAGIC`.
abbrev pub compressed_magic : List (List ℕ)
compressed_magic =
    (31 ∷ 139 ∷ [])
    ∷ (80 ∷ 75 ∷ 3 ∷ 4 ∷ [])
    ∷ (80 ∷ 75 ∷ 5 ∷ 6 ∷ [])
    ∷ (80 ∷ 75 ∷ 7 ∷ 8 ∷ [])
    ∷ (66 ∷ 90 ∷ 104 ∷ [])
    ∷ (253 ∷ 55 ∷ 122 ∷ 88 ∷ 90 ∷ 0 ∷ [])
    ∷ (55 ∷ 122 ∷ 188 ∷ 175 ∷ 39 ∷ 28 ∷ [])
    ∷ (82 ∷ 97 ∷ 114 ∷ 33 ∷ 26 ∷ 7 ∷ [])
    ∷ (137 ∷ 80 ∷ 78 ∷ 71 ∷ 13 ∷ 10 ∷ 26 ∷ 10 ∷ [])
    ∷ (255 ∷ 216 ∷ 255 ∷ [])
    ∷ (71 ∷ 73 ∷ 70 ∷ 56 ∷ 55 ∷ 97 ∷ [])
    ∷ (71 ∷ 73 ∷ 70 ∷ 56 ∷ 57 ∷ 97 ∷ [])
    ∷ (40 ∷ 181 ∷ 47 ∷ 253 ∷ [])
    ∷ (4 ∷ 34 ∷ 77 ∷ 24 ∷ [])
    ∷ []

unfoldable pub is_one_of : List ℕ → List (List ℕ) → Bool
is_one_of text [] = false
is_one_of text (name ∷ names) = bytes_equal text name || is_one_of text names

unfoldable pub starts_with_one_of : List ℕ → List (List ℕ) → Bool
starts_with_one_of head [] = false
starts_with_one_of head (name ∷ names) =
    bytes_equal (take (length name) head) name || starts_with_one_of head names

-- `looks_already_compressed`, of a file with this lower-case suffix and these bytes; 8 is the length of
-- the longest magic.
unfoldable pub looks_already_compressed : List ℕ → List ℕ → Bool
looks_already_compressed suffix file =
    is_one_of suffix compressed_extensions || starts_with_one_of (take 8 file) compressed_magic

module _ (crc : List ℕ → ℕ → ℕ) where
  unfoldable pub crc32_update : List ℕ → ℕ → Result TransferError ℕ
  crc32_update bytes checksum = do
    c ← u32_field "checksum" (pos checksum)
    ok (bit_and (crc bytes c) uint32_max)

  -- The loop of `crc32_stream`.
  unfoldable pub digest_blocks :
      (max_size : ℕ) → List (List ℕ) → FileDigest → Result TransferError FileDigest
  digest_blocks max_size [] d = ok d
  digest_blocks max_size (block ∷ blocks) d = do
    raise_if (ltb (max_size - d.size) (length block)) (transfer_error "stream size")
    checksum ← crc32_update block d.crc32
    digest_blocks max_size blocks (record { size = d.size + length block; crc32 = checksum })

  unfoldable pub crc32_stream : (max_size : ℕ) → List (List ℕ) → Result TransferError FileDigest
  crc32_stream max_size blocks = do
    m ← u32_field "max_size" (pos max_size)
    d ← digest_blocks m blocks (record { size = 0; crc32 = 0 })
    ok (record { size = d.size; crc32 = bit_and d.crc32 uint32_max })

  -- The loop of `crc32_file_prefix`: no read returns more than what is left of the prefix, and the end
  -- of the file is the end of the blocks.
  unfoldable pub digest_prefix :
      (wanted : ℕ) → List (List ℕ) → FileDigest → Result TransferError FileDigest
  digest_prefix wanted [] d = if ltb d.size wanted then err (transfer_error "file ended") else ok d
  digest_prefix wanted (block ∷ blocks) d =
      let rest = (do
        checksum ← crc32_update block d.crc32
        digest_prefix wanted blocks (record { size = d.size + length block; crc32 = checksum })) in
      if ltb d.size wanted then rest else ok d

  unfoldable pub crc32_file_prefix : (wanted : ℕ) → List (List ℕ) → Result TransferError FileDigest
  crc32_file_prefix wanted blocks = do
    w ← u32_field "length" (pos wanted)
    digest_prefix w blocks (record { size = 0; crc32 = 0 })

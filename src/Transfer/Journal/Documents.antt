-- ===== src/Transfer/Journal/Documents.antt =====
-- The documents of `TransferJournal` in server/msx_transfer.py: their values, what `_document` writes,
-- and the checks of one value each.
use msx_ai.Base.{
  ℕ, ◌-◌, String, leb, Bool, false, not, ◌&&◌, ◌||◌, Option, none, some, List, [], ◌∷◌, length,
  Result, ok, err, ◌>>=◌, ◌>>◌, raise_if, ltb, ◌==◌, if◌then◌else◌,
}
use msx_ai.Base.Int.{ℤ, pos}
use msx_ai.Transfer.Hex.{hex, hex_digits, hex_number, all_hex}
use msx_ai.Transfer.Types.{
  TransferError, journal_error, TransferDirection, put, get, TransferEncoding, raw, packbits,
}
use msx_ai.Transfer.Descriptor.{TransferDescriptor}
use msx_ai.Transfer.Replies.{bytes_equal}

-- A value in a JSON document. A text is the list of its code points; `other_value` is a float, a list
-- or an object.
pub data Value : Type 0 where
  text : List ℕ → Value
  int : ℤ → Value
  flag : Bool → Value
  null : Value
  other_value : Value

-- An object with the keys of the current version, and with no others.
pub record Document : Type 0 where
  pub version : Value
  pub transfer_id : Value
  pub direction : Value
  pub encoding : Value
  pub wire_size : Value
  pub wire_crc32 : Value
  pub final_size : Value
  pub final_crc32 : Value
  pub path : Value
  pub confirmed_offset : Value
  pub prefix_crc32 : Value
  pub caller_binding : Value
  pub close_intent : Value

-- What `json.loads` makes of a file: an exception, a value that is no object with these keys, or one.
pub data Content : Type 0 where
  no_json : Content
  other_json : Content
  object : Document → Content

-- A file: its name without `.json`, the length of its text, and the text.
pub record File : Type 0 where
  pub stem : List ℕ
  pub size : ℕ
  pub content : Content

-- `MAX_JOURNAL_BYTES`.
abbrev pub max_journal_bytes : ℕ
max_journal_bytes = 4096

-- `path_for`, without the directory and `.json`.
unfoldable pub path_for : List ℕ → List ℕ
path_for id = hex id

unfoldable pub has_nul : List ℕ → Bool
has_nul [] = false
has_nul (x ∷ r) = (x == 0) || has_nul r

-- `_caller_binding`.
unfoldable pub check_caller : Option (List ℕ) → Result TransferError (Option (List ℕ))
check_caller none = ok none
check_caller (some value) =
    if (length value == 0) || (ltb 2048 (length value) || has_nul value)
    then err (journal_error "caller_binding")
    else ok (some value)

-- The names of the enumerations in lower case, as code points, and `.upper()` on ASCII letters.
unfoldable pub direction_name : TransferDirection → List ℕ
direction_name put = 112 ∷ 117 ∷ 116 ∷ []
direction_name get = 103 ∷ 101 ∷ 116 ∷ []

unfoldable pub encoding_name : TransferEncoding → List ℕ
encoding_name raw = 114 ∷ 97 ∷ 119 ∷ []
encoding_name packbits = 112 ∷ 97 ∷ 99 ∷ 107 ∷ 98 ∷ 105 ∷ 116 ∷ 115 ∷ []

unfoldable pub upper : List ℕ → List ℕ
upper [] = []
upper (c ∷ cs) = (if leb 97 c && leb c 122 then c - 32 else c) ∷ upper cs

-- `TransferDirection[name.upper()]` and `TransferEncoding[name.upper()]`.
unfoldable pub direction_named : List ℕ → Result TransferError TransferDirection
direction_named name =
    if bytes_equal (upper name) (80 ∷ 85 ∷ 84 ∷ [])
    then ok put
    else if bytes_equal (upper name) (71 ∷ 69 ∷ 84 ∷ [])
    then ok get
    else err (journal_error "direction")

unfoldable pub encoding_named : List ℕ → Result TransferError TransferEncoding
encoding_named name =
    if bytes_equal (upper name) (82 ∷ 65 ∷ 87 ∷ [])
    then ok raw
    else if bytes_equal (upper name) (80 ∷ 65 ∷ 67 ∷ 75 ∷ 66 ∷ 73 ∷ 84 ∷ 83 ∷ [])
    then ok packbits
    else err (journal_error "encoding")

unfoldable pub caller_document : Option (List ℕ) → Value
caller_document none = null
caller_document (some caller) = text caller

-- `_document`; a checksum of 32 bits has eight digits.
unfoldable pub document_of : TransferDescriptor → ℕ → ℕ → Option (List ℕ) → Bool → Document
document_of d offset crc caller close_intent = record {
  version = int (pos 4);
  transfer_id = text (hex d.transfer_id);
  direction = text (direction_name d.direction);
  encoding = text (encoding_name d.encoding);
  wire_size = int (pos d.wire_size);
  wire_crc32 = text (hex_digits 8 d.wire_crc32);
  final_size = int (pos d.final_size);
  final_crc32 = text (hex_digits 8 d.final_crc32);
  path = text d.path;
  confirmed_offset = int (pos offset);
  prefix_crc32 = text (hex_digits 8 crc);
  caller_binding = caller_document caller;
  close_intent = flag close_intent;
}

-- The checks of a value's type.
unfoldable pub text_value : String → Value → Result TransferError (List ℕ)
text_value name (text t) = ok t
text_value name _ = err (journal_error name)

unfoldable pub int_value : String → Value → Result TransferError ℤ
int_value name (int z) = ok z
int_value name _ = err (journal_error name)

unfoldable pub flag_value : String → Value → Result TransferError Bool
flag_value name (flag b) = ok b
flag_value name _ = err (journal_error name)

unfoldable pub caller_value : Value → Result TransferError (Option (List ℕ))
caller_value null = check_caller none
caller_value (text t) = check_caller (some t)
caller_value _ = err (journal_error "caller_binding")

-- A text of so many hexadecimal digits in lower case.
unfoldable pub hex_text : String → ℕ → Value → Result TransferError (List ℕ)
hex_text name count v = do
  t ← text_value name v
  raise_if (not (length t == count) || not (all_hex t)) (journal_error name)
  ok t

-- `_hex_crc`.
unfoldable pub hex_crc : String → Value → Result TransferError ℕ
hex_crc name v = do t ← hex_text name 8 v; ok (hex_number t)

-- ===== src/Transfer/Journal.antt =====
-- `TransferJournal` of server/msx_transfer.py: `save`, `load` and `remove`. The directory is the list
-- of its journals. The text of a file is what `json.loads` makes of it, with its length: JSON itself
-- and the atomic replacement of the file are not modelled, nor are documents of earlier versions.
pub mod Documents
pub mod Reading
pub mod SaveLoad
pub mod Find
use msx_ai.Base.{
  ℕ, ◌-◌, ◌≤◌, String, leb, Bool, true, false, not, ◌&&◌, ◌||◌, Option, none, some, List, [], ◌∷◌,
  length, Result, ok, err, ◌>>=◌, ◌>>◌, raise_if, ltb, ◌==◌, if◌then◌else◌,
}
use msx_ai.Base.Int.{ℤ, pos, negsuc}
use msx_ai.Transfer.Hex.{hex, from_hex, hex_digits, hex_number, all_hex}
use msx_ai.Transfer.Types.{
  TransferError, journal_error, binding_error, TransferDirection, put, get, TransferEncoding, raw,
  packbits, is_get, is_raw, u32_field,
}
use msx_ai.Transfer.Descriptor.{
  TransferDescriptor, DescriptorArgs, args_of, new_descriptor, get_metadata_unknown,
}
use msx_ai.Transfer.Replies.{bytes_equal}
use msx_ai.Transfer.Journal.Documents.{
  Content, Document, File, caller_value, check_caller, direction_named, document_of, encoding_named,
  flag_value, hex_crc, hex_text, int_value, max_journal_bytes, no_json, object, other_json,
  path_for, text, text_value,
}

pub record TransferJournalRecord : Type 0 where
  pub descriptor : TransferDescriptor
  pub confirmed_offset : ℕ
  pub prefix_crc32 : ℕ
  pub caller_binding : Option (List ℕ)
  pub close_intent : Bool

-- The files, in any order.
abbrev pub Directory : Type 0
Directory = List File

unfoldable pub find_file : List ℕ → Directory → Option File
find_file id [] = none
find_file id (f ∷ fs) = if bytes_equal (path_for id) f.stem then some f else find_file id fs

-- `os.replace` and `unlink`.
unfoldable pub without_file : List ℕ → Directory → Directory
without_file id [] = []
without_file id (f ∷ fs) =
    let rest = without_file id fs in if bytes_equal (path_for id) f.stem then rest else f ∷ rest

abbrev pub same_direction : TransferDirection → TransferDirection → Bool
same_direction a b = (is_get a && is_get b) || (not (is_get a) && not (is_get b))

abbrev pub same_encoding : TransferEncoding → TransferEncoding → Bool
same_encoding a b = (is_raw a && is_raw b) || (not (is_raw a) && not (is_raw b))

-- `a.binding() == b.binding()`.
unfoldable pub same_binding : TransferDescriptor → TransferDescriptor → Bool
same_binding a b =
    same_direction a.direction b.direction
    && (same_encoding a.encoding b.encoding
        && (bytes_equal a.transfer_id b.transfer_id
            && ((a.wire_size == b.wire_size)
                && ((a.wire_crc32 == b.wire_crc32)
                    && ((a.final_size == b.final_size)
                        && ((a.final_crc32 == b.final_crc32) && bytes_equal a.path b.path))))))

unfoldable pub same_caller : Option (List ℕ) → Option (List ℕ) → Bool
same_caller none none = true
same_caller (some a) (some b) = bytes_equal a b
same_caller _ _ = false

-- The checks that `save` and `_load_path` make on an offset, its checksum and the intent to close.
unfoldable pub check_progress : TransferDescriptor → ℕ → ℕ → Bool → Result TransferError (Unit {0})
check_progress d offset crc close_intent = do
  raise_if (ltb d.wire_size offset && not (get_metadata_unknown d))
      (journal_error "confirmed_offset")
  raise_if ((offset == 0) && not (crc == 0)) (journal_error "prefix_crc32")
  raise_if
      (close_intent
        && (is_get d.direction || (not (offset == d.wire_size) || not (crc == d.wire_crc32))))
      (journal_error "close_intent")

-- An error of the values becomes a journal error.
abbrev pub as_journal_error {ℓ} : {A : Type ℓ} → Result TransferError A → Result TransferError A
as_journal_error (ok a) = ok a
as_journal_error (err e) = err (journal_error "journal value")

-- The descriptor that `_load_path` makes of a document: what belongs to a resumption is not saved.
abbrev pub saved_args :
    TransferDirection → TransferEncoding → List ℕ → ℤ → ℕ → ℤ → ℕ → List ℕ → DescriptorArgs
saved_args direction encoding id wire_size wire_crc32 final_size final_crc32 path = record {
  direction = direction;
  encoding = encoding;
  transfer_id = id;
  wire_size = wire_size;
  wire_crc32 = pos wire_crc32;
  final_size = final_size;
  final_crc32 = pos final_crc32;
  path = path;
  resume_offset = pos 0;
  resume_prefix_crc32 = pos 0;
  resume = false;
  receiptless_replay = false;
}

unfoldable pub is_version : ℤ → Bool
is_version (pos v) = v == 4
is_version (negsuc v) = false

-- The fields of the descriptor.
unfoldable pub load_descriptor : List ℕ → Document → Result TransferError TransferDescriptor
load_descriptor stem d = do
  id ← hex_text "transfer_id" 32 d.transfer_id
  raise_if ((length stem == 32) && not (bytes_equal stem id)) (journal_error "filename")
  direction_text ← text_value "direction" d.direction
  encoding_text ← text_value "encoding" d.encoding
  direction ← direction_named direction_text
  encoding ← encoding_named encoding_text
  wire_size ← int_value "wire_size" d.wire_size
  final_size ← int_value "final_size" d.final_size
  wire_crc ← hex_crc "wire_crc32" d.wire_crc32
  final_crc ← hex_crc "final_crc32" d.final_crc32
  path ← text_value "path" d.path
  as_journal_error (
      new_descriptor
        (saved_args direction encoding (from_hex id) wire_size wire_crc final_size final_crc path))

-- `_load_path` from the document on. Where several values are wrong, the order of the checks decides
-- only which message its journal error has.
unfoldable pub load_document : List ℕ → Document → Result TransferError TransferJournalRecord
load_document stem d = do
  version ← int_value "version" d.version
  raise_if (not (is_version version)) (journal_error "version")
  close_intent ← flag_value "close_intent" d.close_intent
  offset_value ← int_value "confirmed_offset" d.confirmed_offset
  caller ← caller_value d.caller_binding
  saved ← load_descriptor stem d
  crc ← hex_crc "prefix_crc32" d.prefix_crc32
  offset ← as_journal_error (u32_field "confirmed_offset" offset_value)
  check_progress saved offset crc close_intent
  ok (record {
    descriptor = saved;
    confirmed_offset = offset;
    prefix_crc32 = crc;
    caller_binding = caller;
    close_intent = close_intent;
  })

unfoldable pub load_content : List ℕ → Content → Result TransferError TransferJournalRecord
load_content stem no_json = err (journal_error "JSON")
load_content stem other_json = err (journal_error "fields")
load_content stem (object d) = load_document stem d

-- `_load_path`.
unfoldable pub load_path : File → Result TransferError TransferJournalRecord
load_path f = do
  raise_if (ltb max_journal_bytes f.size) (journal_error "journal size")
  load_content f.stem f.content

-- `get_metadata_promotion`: a GET learns its size and checksums.
unfoldable pub promotes : TransferDescriptor → TransferDescriptor → Bool
promotes old d =
    (is_get old.direction && is_get d.direction)
    && (same_encoding old.encoding d.encoding
        && (bytes_equal old.transfer_id d.transfer_id
            && (bytes_equal old.path d.path && get_metadata_unknown old)))

-- What `save` demands of the file that it replaces.
unfoldable pub check_replaced :
    TransferDescriptor
    → Option (List ℕ)
    → Bool
    → TransferJournalRecord
    → Result TransferError (Unit {0})
check_replaced d caller close_intent old = do
  raise_if
      ((not (same_binding old.descriptor d) && not (promotes old.descriptor d))
        || not (same_caller old.caller_binding caller))
      (binding_error "journal")
  raise_if (old.close_intent && not close_intent) (journal_error "clear close_intent")

unfoldable pub check_existing :
    TransferDescriptor → Option (List ℕ) → Bool → Option File → Result TransferError (Unit {0})
check_existing d caller close_intent none = ok tt
check_existing d caller close_intent (some f) = do
  old ← load_path f
  check_replaced d caller close_intent old

-- `json_size` is the length of the text that `json.dumps` makes of a document, with its line end.
module _ (json_size : Document → ℕ) where
  unfoldable pub file_of : TransferDescriptor → Document → File
  file_of d document = record {
    stem = path_for d.transfer_id;
    size = json_size document;
    content = object document;
  }

  unfoldable pub save :
      TransferDescriptor
      → ℤ
      → ℤ
      → Option (List ℕ)
      → Bool
      → Directory
      → Result TransferError Directory
  save d confirmed_offset prefix_crc32 caller_binding close_intent files = do
    offset ← u32_field "confirmed_offset" confirmed_offset
    crc ← u32_field "prefix_crc32" prefix_crc32
    check_progress d offset crc close_intent
    caller ← check_caller caller_binding
    check_existing d caller close_intent (find_file d.transfer_id files)
    raise_if (ltb max_journal_bytes (json_size (document_of d offset crc caller close_intent)))
        (journal_error "journal size")
    ok (file_of d (document_of d offset crc caller close_intent) ∷ without_file d.transfer_id files)

-- What `load` demands of the record that it read.
unfoldable pub check_loaded :
    TransferDescriptor → Option (List ℕ) → TransferJournalRecord → Result TransferError (Unit {0})
check_loaded expected caller_binding r = do
  raise_if (not (same_binding r.descriptor expected)) (binding_error "journal descriptor")
  caller ← check_caller caller_binding
  raise_if (elim caller [ none ↦ false | some c ↦ not (same_caller r.caller_binding (some c)) ])
      (binding_error "journal caller")

unfoldable pub load :
    TransferDescriptor
    → Option (List ℕ)
    → Directory
    → Result TransferError (Option TransferJournalRecord)
load expected caller_binding files = elim (find_file expected.transfer_id files) [
  | none ↦ ok none
  | some f ↦ (do r ← load_path f; check_loaded expected caller_binding r; ok (some r))
]

unfoldable pub remove :
    TransferDescriptor → Option (List ℕ) → Directory → Result TransferError (Bool × Directory)
remove expected caller_binding files = do
  r ← load expected caller_binding files
  elim r [ none ↦ ok (false, files) | some _ ↦ ok (true, without_file expected.transfer_id files) ]

-- `TransferJournalRecord.resumed_descriptor`.
unfoldable pub resumed_descriptor : TransferJournalRecord → Result TransferError TransferDescriptor
resumed_descriptor r = new_descriptor (record (args_of r.descriptor) {
  resume_offset = pos r.confirmed_offset;
  resume_prefix_crc32 = pos r.prefix_crc32;
  resume = true;
  receiptless_replay = r.close_intent;
})

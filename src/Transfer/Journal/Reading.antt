-- ===== src/Transfer/Journal/Reading.antt =====
-- What `_load_path` of server/msx_transfer.py makes of a file that `save` wrote.
use msx_ai.Base.{
  ℕ, ◌<◌, ◌≤◌, ◌≡◌, String, All, length, refl, sym, ◌∙◌, Bool, true, false, Option, none, some,
  List, ok, ok-injective, arith,
}
use msx_ai.Base.Bytes.{IsByte}
use msx_ai.Transfer.Hex.{
  hex, from_hex-hex, length-hex, all_hex, all_hex-hex, hex_digits, length-hex_digits,
  all_hex-hex_digits, hex_number-hex_digits,
}
use msx_ai.Transfer.Types.{put, get, raw, packbits, u32_field, TransferDirection, TransferEncoding}
use msx_ai.Transfer.Descriptor.{TransferDescriptor, get_metadata_unknown}
use msx_ai.Transfer.Descriptor.Laws.{IsConsistent, IsDescriptor, new_descriptor_iff}
use msx_ai.Transfer.Replies.{bytes_equal}
use msx_ai.Transfer.Replies.Status.{bytes_equal_refl}
use msx_ai.Transfer.Journal.{
  TransferJournalRecord, is_version, load_descriptor, load_document, load_content, file_of,
  same_direction, same_encoding, same_binding, same_caller, check_progress, load_path,
}
use msx_ai.Transfer.Journal.Documents.{
  Document, text, path_for, direction_name, encoding_name, upper, direction_named, encoding_named,
  caller_document, text_value, int_value, flag_value, caller_value, hex_text, hex_crc, check_caller,
  document_of,
}

-- A descriptor without what belongs to one resumption of it.
abbrev pub unresumed : TransferDescriptor → TransferDescriptor
unresumed d = record d {
  resume_offset = 0;
  resume_prefix_crc32 = 0;
  resume = false;
  receiptless_replay = false;
}

unresumed-IsConsistent : (d : TransferDescriptor) → IsConsistent d → IsConsistent (unresumed d)
unfolding get_metadata_unknown
unresumed-IsConsistent d c = record {
  offset_le = λ _. omega arith;
  no_prefix = λ _. refl;
  get_is_raw = c.get_is_raw;
  raw_sizes = c.raw_sizes;
  replay_complete = λ t. absurd cc;
}

unresumed-IsDescriptor : (d : TransferDescriptor) → IsDescriptor d → IsDescriptor (unresumed d)
unresumed-IsDescriptor d v = record {
  id_length = v.id_length;
  wire_size_fits = v.wire_size_fits;
  wire_crc32_fits = v.wire_crc32_fits;
  final_size_fits = v.final_size_fits;
  final_crc32_fits = v.final_crc32_fits;
  resume_offset_fits = omega arith;
  resume_crc_fits = omega arith;
  path_valid = v.path_valid;
  resume_set = λ h. absurd (omega (arith, h));
  consistent = unresumed-IsConsistent d v.consistent;
}

pub same_direction_refl : (x : TransferDirection) → same_direction x x ≡ true
same_direction_refl put = refl
same_direction_refl get = refl

pub same_encoding_refl : (x : TransferEncoding) → same_encoding x x ≡ true
same_encoding_refl raw = refl
same_encoding_refl packbits = refl

pub same_binding-unresumed : (d : TransferDescriptor) → same_binding (unresumed d) d ≡ true
unfolding same_binding
same_binding-unresumed d = ground (
  arith,
  same_direction_refl d.direction,
  same_encoding_refl d.encoding,
  bytes_equal_refl d.transfer_id,
  bytes_equal_refl d.path,
)

pub same_caller_refl : (c : Option (List ℕ)) → same_caller c c ≡ true
unfolding same_caller
same_caller_refl none = refl
same_caller_refl (some c) = bytes_equal_refl c

pub check_caller_same : (c e : Option (List ℕ)) → check_caller c ≡ ok e → e ≡ c
unfolding check_caller
check_caller_same none e h = sym (ok-injective h)
check_caller_same (some c) e h = ground (arith, h)

check_progress-unresumed :
    (d : TransferDescriptor) (o c : ℕ) (close : Bool)
    → check_progress (unresumed d) o c close ≡ check_progress d o c close
unfolding check_progress get_metadata_unknown
check_progress-unresumed d o c close = refl

-- The record that a save of `d` leaves to be loaded.
abbrev pub record_of : TransferDescriptor → ℕ → ℕ → Option (List ℕ) → Bool → TransferJournalRecord
record_of d o c caller close = record {
  descriptor = unresumed d;
  confirmed_offset = o;
  prefix_crc32 = c;
  caller_binding = caller;
  close_intent = close;
}

-- The texts that a document is made of are read back.
direction_named-name : (x : TransferDirection) → direction_named (direction_name x) ≡ ok x
unfolding direction_named direction_name upper bytes_equal
direction_named-name put = refl
direction_named-name get = refl

encoding_named-name : (x : TransferEncoding) → encoding_named (encoding_name x) ≡ ok x
unfolding encoding_named encoding_name upper bytes_equal
encoding_named-name raw = refl
encoding_named-name packbits = refl

caller_value-document : (c : Option (List ℕ)) → caller_value (caller_document c) ≡ check_caller c
unfolding caller_value caller_document
caller_value-document none = refl
caller_value-document (some c) = refl

hex_text-digits :
    (name : String) (count : ℕ) (t : List ℕ)
    → length t ≡ count
    → all_hex t ≡ true
    → hex_text name count (text t) ≡ ok t
unfolding hex_text text_value
hex_text-digits name count t len digits = ground (arith, len, digits)

hex_crc-digits :
    (name : String) (n : ℕ) → n < 4294967296 → hex_crc name (text (hex_digits 8 n)) ≡ ok n
unfolding hex_crc
hex_crc-digits name n lt =
    let read =
      hex_text-digits name 8 (hex_digits 8 n) (length-hex_digits 8 n) (all_hex-hex_digits 8 n) in
    let number = hex_number-hex_digits 8 n (omega (arith, lt)) in ground (arith, read, number)

load_descriptor-document_of :
    (d : TransferDescriptor) (o c : ℕ) (caller : Option (List ℕ)) (close : Bool)
    → IsDescriptor d
    → All IsByte d.transfer_id
    → load_descriptor (path_for d.transfer_id) (document_of d o c caller close) ≡ ok (unresumed d)
unfolding load_descriptor document_of path_for text_value int_value
load_descriptor-document_of d o c caller close v bytes =
    let made = (new_descriptor_iff (unresumed d)).1 (unresumed-IsDescriptor d v) in
    let id =
      hex_text-digits "transfer_id" 32 (hex d.transfer_id)
        (omega (arith, length-hex d.transfer_id, v.id_length)) (all_hex-hex d.transfer_id bytes) in
    let same_id = from_hex-hex d.transfer_id bytes in
    let stem = bytes_equal_refl (hex d.transfer_id) in
    let way = direction_named-name d.direction in
    let code = encoding_named-name d.encoding in
    let wire = hex_crc-digits "wire_crc32" d.wire_crc32 v.wire_crc32_fits in
    let final = hex_crc-digits "final_crc32" d.final_crc32 v.final_crc32_fits in
    rw (id, stem, way, code, wire, final, same_id, made) (ground arith)

load_document-document_of :
    (d : TransferDescriptor) (o c : ℕ) (caller : Option (List ℕ)) (close : Bool)
    → IsDescriptor d
    → All IsByte d.transfer_id
    → o < 4294967296
    → c < 4294967296
    → check_caller caller ≡ ok caller
    → check_progress d o c close ≡ ok tt
    → load_document (path_for d.transfer_id) (document_of d o c caller close)
      ≡ ok (record_of d o c caller close)
unfolding load_document document_of int_value flag_value is_version u32_field
load_document-document_of d o c caller close v bytes lt lt_crc called progress =
    let made = load_descriptor-document_of d o c caller close v bytes in
    let checked = check_progress-unresumed d o c close ∙ progress in
    let named = caller_value-document caller ∙ called in
    let crc = hex_crc-digits "prefix_crc32" c lt_crc in
    ground (arith, lt, named, made, crc, checked)

pub load_path-file_of :
    (json_size : Document → ℕ) (d : TransferDescriptor) (o c : ℕ) (caller : Option (List ℕ))
    (close : Bool)
    → IsDescriptor d
    → All IsByte d.transfer_id
    → o < 4294967296
    → c < 4294967296
    → check_caller caller ≡ ok caller
    → check_progress d o c close ≡ ok tt
    → json_size (document_of d o c caller close) ≤ 4096
    → load_path (file_of json_size d (document_of d o c caller close))
      ≡ ok (record_of d o c caller close)
unfolding load_path load_content file_of
load_path-file_of json_size d o c caller close v bytes lt lt_crc called progress small =
    let read = load_document-document_of d o c caller close v bytes lt lt_crc called progress in
    ground (arith, small, read)

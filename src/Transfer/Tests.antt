-- ===== src/Transfer/Tests.antt =====
-- The theorems on server/msx_transfer.py's model at concrete inputs, and runs of it.
use msx_ai.Base.{
  ◌*◌, ◌≤◌, All, ℕ, ◌+◌, ◌≡◌, ◌↔◌, refl, true, false, none, some, List, [], ◌∷◌, ◌++◌, length,
  replicate, concat, ok, err, arith,
}
use msx_ai.Base.Int.{pos}
use msx_ai.Transfer.Types.{TransferError, transfer_error, put, get, raw, packbits, transferring}
use msx_ai.Transfer.Descriptor.{
  TransferDescriptor, args_of, new_descriptor, check_descriptor, check_relations,
  get_metadata_unknown, settled,
}
use msx_ai.Transfer.Descriptor.Laws.{IsConsistent, IsDescriptor, new_descriptor_iff}
use msx_ai.Transfer.Open.{OpenHeader, unpack_open, encode_open, decode_open, build_open}
use msx_ai.Transfer.Open.Laws.{decode_open-encode_open, decode_open-IsDescriptor}
use msx_ai.Transfer.PackBits.{
  PackBits, deterministic_packbits, read_blocks, push_all, push, settle_run, flush_literals,
}
use msx_ai.Transfer.PackBits.Format.{unpackbits}
use msx_ai.Transfer.PackBits.RoundTrip.{unpackbits-deterministic_packbits}
use msx_ai.Transfer.PackBits.Total.{deterministic_packbits_total}
use msx_ai.Transfer.Digest.{FileDigest, looks_already_compressed}
use msx_ai.Transfer.Payload.{
  auto, PreparedPayload, check_sizes, check_chunk_size, prepare_put_payload, prepare_auto, choose,
  saves_enough, required_savings,
}
use msx_ai.Transfer.Payload.Sound.{received, prepare_put_payload_sound, prepare_put_payload_chooses}
use msx_ai.Transfer.Journal.{
  file_of, Directory, save, load, remove, find_file, without_file, check_progress, check_existing,
  load_path,
}
use msx_ai.Transfer.Journal.Documents.{File, document_of}
use msx_ai.Transfer.Journal.Find.{find_matching, scan, is_match, matches_without_id, only_match}
use msx_ai.Transfer.Journal.Find.Match.{Matches}
use msx_ai.Transfer.Journal.Find.Scan.{IsOther, find_matching_sound}
use msx_ai.Transfer.Journal.SaveLoad.{load-save, load-remove}
use msx_ai.Transfer.Journal.Reading.{record_of}
use msx_ai.Transfer.Replies.{StatusReply, parse_status_reply}
use msx_ai.Transfer.Replies.Status.{Agrees, IsStatus, status_bytes, parse_status_reply-status_bytes}
use msx_ai.Transfer.Basic.{normalize_msx_basic_stream}
use msx_ai.Transfer.Basic.Chunks.{normalize_msx_basic_stream-concat}

abbrev some_id : List ℕ
some_id = replicate 16 0xa5

-- A PUT of ten bytes in four, four of them confirmed, to `A.BIN`.
abbrev upload : TransferDescriptor
upload = record {
  direction = put;
  encoding = packbits;
  transfer_id = some_id;
  wire_size = 4;
  wire_crc32 = 77;
  final_size = 10;
  final_crc32 = 0xdeadbeef;
  path = 0x41 ∷ 0x2e ∷ 0x42 ∷ 0x49 ∷ 0x4e ∷ [];
  resume_offset = 4;
  resume_prefix_crc32 = 77;
  resume = true;
  receiptless_replay = false;
}

upload-IsConsistent : IsConsistent upload
unfolding get_metadata_unknown
upload-IsConsistent = record {
  offset_le = λ _. omega arith;
  no_prefix = λ z. absurd (omega arith);
  get_is_raw = λ g. absurd cc;
  raw_sizes = λ r _. absurd cc;
  replay_complete = λ t. absurd cc;
}

upload-IsDescriptor : IsDescriptor upload
upload-IsDescriptor = record {
  id_length = refl;
  wire_size_fits = omega arith;
  wire_crc32_fits = omega arith;
  final_size_fits = omega arith;
  final_crc32_fits = omega arith;
  resume_offset_fits = omega arith;
  resume_crc_fits = omega arith;
  path_valid = record {
    some_length = omega arith;
    length_le = omega arith;
    printable = omega arith;
  };
  resume_set = λ _. refl;
  consistent = upload-IsConsistent;
}

new_descriptor_iff_example : (new_descriptor (args_of upload) ≡ ok upload) ↔ IsDescriptor upload
new_descriptor_iff_example = new_descriptor_iff upload

decode_open-encode_open_example :
    (payload : List ℕ) × (encode_open upload ≡ ok payload) × (decode_open payload ≡ ok upload)
decode_open-encode_open_example = decode_open-encode_open upload upload-IsDescriptor

abbrev upload_bytes : List ℕ
upload_bytes =
    1
    ∷ 1
    ∷ 0
    ∷ 1
    ∷ 5
    ∷ (some_id
        ++ (4 ∷ 0 ∷ 0 ∷ 0 ∷ 77 ∷ 0 ∷ 0 ∷ 0 ∷ 10 ∷ 0 ∷ 0 ∷ 0 ∷ 0xef ∷ 0xbe ∷ 0xad ∷ 0xde ∷ 4 ∷ 0 ∷ 0
            ∷ 0 ∷ 77 ∷ 0 ∷ 0 ∷ 0 ∷ 5 ∷ 0 ∷ 0x41 ∷ 0x2e ∷ 0x42 ∷ 0x49 ∷ 0x4e ∷ []))

decode_upload_bytes : decode_open upload_bytes ≡ ok upload
unfolding decode_open unpack_open build_open msx_ai.Transfer.Types.read8
    msx_ai.Transfer.Types.read_id msx_ai.Transfer.Types.read32 msx_ai.Transfer.Types.read16
    msx_ai.Transfer.Types.any_outside msx_ai.Transfer.Types.direction_of
    msx_ai.Transfer.Types.encoding_of new_descriptor msx_ai.Transfer.Types.transfer_id_field
    msx_ai.Transfer.Types.u32_field msx_ai.Transfer.Types.path_bytes check_descriptor
    check_relations settled
decode_upload_bytes = refl

decode_open-IsDescriptor_example :
    IsDescriptor upload × ((h : OpenHeader) × (unpack_open upload_bytes ≡ ok (h, upload.path)))
decode_open-IsDescriptor_example = decode_open-IsDescriptor upload_bytes upload decode_upload_bytes

-- The wrong size of a raw PUT is refused.
raw_sizes_refused :
    new_descriptor (record (args_of upload) { encoding = raw }) ≡ err (transfer_error "raw sizes")
unfolding new_descriptor check_descriptor check_relations settled get_metadata_unknown
    msx_ai.Transfer.Types.transfer_id_field msx_ai.Transfer.Types.u32_field
    msx_ai.Transfer.Types.path_bytes msx_ai.Transfer.Types.any_outside
raw_sizes_refused = refl

-- A checksum to run the encoder with.
abbrev toy_crc : List ℕ → ℕ → ℕ
toy_crc bytes value = value + length bytes

abbrev source_blocks : List (List ℕ)
source_blocks = (1 ∷ 2 ∷ 7 ∷ []) ∷ (7 ∷ 7 ∷ 7 ∷ 9 ∷ []) ∷ []

abbrev packed : PackBits
packed = record {
  final_size = 7;
  final_crc = 7;
  wire = 1 ∷ 1 ∷ 2 ∷ 253 ∷ 7 ∷ 0 ∷ 9 ∷ [];
  wire_size = 7;
  wire_crc = 7;
  literal = [];
  run_byte = 0;
  run_length = 0;
}

packs : deterministic_packbits toy_crc 1000 source_blocks ≡ ok packed
unfolding deterministic_packbits read_blocks push_all push settle_run flush_literals
    msx_ai.Transfer.PackBits.flush_loop msx_ai.Transfer.PackBits.flush_packet
    msx_ai.Transfer.PackBits.emit
packs = refl

unpackbits-deterministic_packbits_example : unpackbits packed.wire ≡ some (concat source_blocks)
unpackbits-deterministic_packbits_example =
    unpackbits-deterministic_packbits toy_crc 1000 source_blocks packed packs

abbrev running : StatusReply
running = record {
  state = transferring;
  direction = put;
  encoding = packbits;
  error = msx_ai.Transfer.Types.none;
  flags = 3;
  transfer_id = some_id;
  wire_size = 4000;
  wire_crc32 = 77;
  final_size = 100000;
  final_crc32 = 0xdeadbeef;
  durable_offset = 512;
  accepted_offset = 1024;
  prefix_crc32 = 99;
  credit = 512;
}

running-IsStatus : IsStatus running
running-IsStatus = omega arith

running-Agrees : Agrees (some some_id) some_id
unfolding Agrees
running-Agrees = refl

parse_status_reply-status_bytes_example :
    parse_status_reply (status_bytes running) (some some_id) ≡ ok running
parse_status_reply-status_bytes_example =
    parse_status_reply-status_bytes running (some some_id) running-IsStatus running-Agrees

-- `10 A`, CR LF, a blank line, `20 B` and the end marker, in two cuts.
abbrev listing_whole : List (List ℕ)
listing_whole =
    (0x31 ∷ 0x30 ∷ 0x20 ∷ 0x41 ∷ 13 ∷ 10 ∷ 0x20 ∷ 10 ∷ 0x32 ∷ 0x30 ∷ 0x42 ∷ 0x1a ∷ []) ∷ []

abbrev listing_cut : List (List ℕ)
listing_cut =
    (0x31 ∷ 0x30 ∷ 0x20 ∷ 0x41 ∷ 13 ∷ [])
    ∷ (10 ∷ 0x20 ∷ 10 ∷ 0x32 ∷ [])
    ∷ (0x30 ∷ 0x42 ∷ 0x1a ∷ [])
    ∷ []

normalized :
    normalize_msx_basic_stream 5 listing_cut
    ≡ ok (12, 0x31 ∷ 0x30 ∷ 0x20 ∷ 0x41 ∷ 13 ∷ 10 ∷ 0x32 ∷ 0x30 ∷ 0x42 ∷ 13 ∷ 10 ∷ 0x1a ∷ [])
unfolding normalize_msx_basic_stream msx_ai.Transfer.Basic.normalize_blocks
    msx_ai.Transfer.Basic.normalize_block msx_ai.Transfer.Basic.normalize_byte
    msx_ai.Transfer.Basic.count_block msx_ai.Transfer.Basic.line_byte
    msx_ai.Transfer.Basic.text_byte msx_ai.Transfer.Basic.append_pending
    msx_ai.Transfer.Basic.settle_cr msx_ai.Transfer.Basic.finish_line
    msx_ai.Transfer.Basic.close_line msx_ai.Transfer.Basic.flush_pending
    msx_ai.Transfer.Basic.end_basic
normalized = refl

normalize_msx_basic_stream-concat_example :
    normalize_msx_basic_stream 4096 listing_whole ≡ normalize_msx_basic_stream 5 listing_cut
normalize_msx_basic_stream-concat_example =
    normalize_msx_basic_stream-concat 4096 5 listing_whole listing_cut (omega arith) (omega arith)
      refl

deterministic_packbits_total_example :
    (t : PackBits) × (deterministic_packbits toy_crc 1000 source_blocks ≡ ok t)
    × (t.final_size ≡ length (concat source_blocks))
    × (t.wire_size ≡ length t.wire)
    × (length t.wire ≤ 2 * length (concat source_blocks))
deterministic_packbits_total_example =
    deterministic_packbits_total toy_crc 1000 source_blocks (omega arith)

-- A file of five runs of 128 bytes, which PackBits makes 10 bytes of.
abbrev long_blocks : List (List ℕ)
long_blocks = replicate 5 (replicate 128 7)

abbrev long_payload : PreparedPayload
long_payload = record {
  encoding = packbits;
  wire = 129 ∷ 7 ∷ 129 ∷ 7 ∷ 129 ∷ 7 ∷ 129 ∷ 7 ∷ 129 ∷ 7 ∷ [];
  final_digest = record { size = 640; crc32 = 640 };
  wire_digest = record { size = 10; crc32 = 10 };
  temporary = true;
}

prepares : prepare_put_payload toy_crc 5000 [] long_blocks (pos 128) auto ≡ ok long_payload
unfolding prepare_put_payload check_sizes check_chunk_size msx_ai.Transfer.Types.u32_field
    prepare_auto msx_ai.Transfer.Digest.looks_already_compressed msx_ai.Transfer.Digest.is_one_of
    msx_ai.Transfer.Replies.bytes_equal msx_ai.Transfer.Digest.starts_with_one_of
    deterministic_packbits read_blocks push_all push settle_run flush_literals
    msx_ai.Transfer.PackBits.flush_loop msx_ai.Transfer.PackBits.flush_packet
    msx_ai.Transfer.PackBits.emit choose saves_enough required_savings
prepares = refl

prepare_put_payload_sound_example :
    (received long_payload ≡ some (concat long_blocks))
    × (auto ≡ auto → packbits ≡ packbits → (10 + 256 ≤ 640) × (100 * 10 + 3 * 640 ≤ 100 * 640))
prepare_put_payload_sound_example =
    prepare_put_payload_sound toy_crc 5000 [] long_blocks (pos 128) auto long_payload prepares

abbrev long_packed : PackBits
long_packed = record {
  final_size = 640;
  final_crc = 640;
  wire = long_payload.wire;
  wire_size = 10;
  wire_crc = 10;
  literal = [];
  run_byte = 0;
  run_length = 0;
}

long_packs : deterministic_packbits toy_crc 5000 long_blocks ≡ ok long_packed
unfolding deterministic_packbits read_blocks push_all push settle_run flush_literals
    msx_ai.Transfer.PackBits.flush_loop msx_ai.Transfer.PackBits.flush_packet
    msx_ai.Transfer.PackBits.emit
long_packs = refl

plain_looking : looks_already_compressed [] (concat long_blocks) ≡ false
unfolding looks_already_compressed msx_ai.Transfer.Digest.is_one_of
    msx_ai.Transfer.Replies.bytes_equal msx_ai.Transfer.Digest.starts_with_one_of
plain_looking = refl

prepare_put_payload_chooses_example :
    (packbits ≡ packbits → (10 + 256 ≤ 640) × (100 * 10 + 3 * 640 ≤ 100 * 640))
    × ((10 + 256 ≤ 640) × (100 * 10 + 3 * 640 ≤ 100 * 640) → packbits ≡ packbits)
prepare_put_payload_chooses_example =
    prepare_put_payload_chooses toy_crc 5000 [] long_blocks (pos 128) long_packed long_payload
      prepares plain_looking long_packs

-- The directory after the first two confirmed bytes of `upload`.
abbrev half_way : Directory
half_way = file_of (λ _. 300) upload (document_of upload 2 55 (some (1 ∷ [])) false) ∷ []

saves : save (λ _. 300) upload (pos 2) (pos 55) (some (1 ∷ [])) false [] ≡ ok half_way
unfolding save find_file without_file check_progress check_existing get_metadata_unknown
    msx_ai.Transfer.Journal.Documents.check_caller msx_ai.Transfer.Journal.Documents.has_nul
    msx_ai.Transfer.Types.u32_field
saves = refl

load-save_example :
    (a b : ℕ) × (pos 2 ≡ pos a)
    × (pos 55 ≡ pos b)
    × (load upload (some (1 ∷ [])) half_way
        ≡ ok (some (record_of upload a b (some (1 ∷ [])) false)))
load-save_example =
    load-save (λ _. 300) upload (pos 2) (pos 55) (some (1 ∷ [])) false [] half_way
      upload-IsDescriptor (omega arith) saves

removes : remove upload none half_way ≡ ok (true, [])
unfolding remove load find_file without_file msx_ai.Transfer.Replies.bytes_equal load_path
    msx_ai.Transfer.Journal.load_content msx_ai.Transfer.Journal.load_document
    msx_ai.Transfer.Journal.load_descriptor msx_ai.Transfer.Journal.is_version
    msx_ai.Transfer.Journal.Documents.hex_crc msx_ai.Transfer.Journal.Documents.hex_text
    msx_ai.Transfer.Journal.Documents.caller_value msx_ai.Transfer.Journal.Documents.flag_value
    msx_ai.Transfer.Journal.Documents.int_value msx_ai.Transfer.Journal.Documents.text_value
    msx_ai.Transfer.Journal.Documents.caller_document
    msx_ai.Transfer.Journal.Documents.direction_named
    msx_ai.Transfer.Journal.Documents.encoding_named msx_ai.Transfer.Journal.Documents.upper
    msx_ai.Transfer.Journal.Documents.direction_name msx_ai.Transfer.Journal.Documents.encoding_name
    msx_ai.Transfer.Journal.Documents.path_for file_of document_of msx_ai.Transfer.Hex.hex
    msx_ai.Transfer.Hex.from_hex msx_ai.Transfer.Hex.hex_digits msx_ai.Transfer.Hex.hex_number
    msx_ai.Transfer.Hex.hex_number_from msx_ai.Transfer.Hex.all_hex msx_ai.Transfer.Hex.is_hex_digit
    msx_ai.Transfer.Hex.hex_digit msx_ai.Transfer.Hex.digit_value
    msx_ai.Transfer.Journal.Documents.check_caller msx_ai.Transfer.Journal.Documents.has_nul
    new_descriptor msx_ai.Transfer.Types.transfer_id_field msx_ai.Transfer.Types.u32_field
    msx_ai.Transfer.Types.path_bytes msx_ai.Transfer.Types.any_outside check_descriptor
    check_relations settled get_metadata_unknown check_progress msx_ai.Transfer.Journal.check_loaded
    msx_ai.Transfer.Journal.same_binding msx_ai.Transfer.Journal.same_caller
removes = refl

load-remove_example : load upload (some (9 ∷ [])) [] ≡ ok none
load-remove_example = load-remove upload none (some (9 ∷ [])) half_way [] removes

-- The journal is found for a transfer with another ID.
abbrev restarted : TransferDescriptor
restarted = record upload { transfer_id = replicate 16 0x5a }

finds :
    find_matching restarted (some (1 ∷ [])) 256 half_way
    ≡ ok (some (record_of upload 2 55 (some (1 ∷ [])) false))
unfolding find_matching scan is_match matches_without_id only_match
    msx_ai.Transfer.Replies.bytes_equal load_path msx_ai.Transfer.Journal.load_content
    msx_ai.Transfer.Journal.load_document msx_ai.Transfer.Journal.load_descriptor
    msx_ai.Transfer.Journal.is_version msx_ai.Transfer.Journal.Documents.hex_crc
    msx_ai.Transfer.Journal.Documents.hex_text msx_ai.Transfer.Journal.Documents.caller_value
    msx_ai.Transfer.Journal.Documents.flag_value msx_ai.Transfer.Journal.Documents.int_value
    msx_ai.Transfer.Journal.Documents.text_value msx_ai.Transfer.Journal.Documents.caller_document
    msx_ai.Transfer.Journal.Documents.direction_named
    msx_ai.Transfer.Journal.Documents.encoding_named msx_ai.Transfer.Journal.Documents.upper
    msx_ai.Transfer.Journal.Documents.direction_name msx_ai.Transfer.Journal.Documents.encoding_name
    msx_ai.Transfer.Journal.Documents.path_for file_of document_of msx_ai.Transfer.Hex.hex
    msx_ai.Transfer.Hex.from_hex msx_ai.Transfer.Hex.hex_digits msx_ai.Transfer.Hex.hex_number
    msx_ai.Transfer.Hex.hex_number_from msx_ai.Transfer.Hex.all_hex msx_ai.Transfer.Hex.is_hex_digit
    msx_ai.Transfer.Hex.hex_digit msx_ai.Transfer.Hex.digit_value
    msx_ai.Transfer.Journal.Documents.check_caller msx_ai.Transfer.Journal.Documents.has_nul
    new_descriptor msx_ai.Transfer.Types.transfer_id_field msx_ai.Transfer.Types.u32_field
    msx_ai.Transfer.Types.path_bytes msx_ai.Transfer.Types.any_outside check_descriptor
    check_relations settled get_metadata_unknown check_progress msx_ai.Transfer.Journal.same_caller
finds = refl

find_matching_sound_example :
    (length half_way ≤ 256)
    × ((before : Directory) × (f : File) × (after : Directory) × (half_way ≡ before ++ f ∷ after)
        × (load_path f ≡ ok (record_of upload 2 55 (some (1 ∷ [])) false))
        × Matches restarted (some (1 ∷ [])) (record_of upload 2 55 (some (1 ∷ [])) false)
        × All (IsOther restarted (some (1 ∷ []))) (before ++ after))
find_matching_sound_example =
    find_matching_sound restarted (some (1 ∷ [])) 256 half_way
      (record_of upload 2 55 (some (1 ∷ [])) false) finds

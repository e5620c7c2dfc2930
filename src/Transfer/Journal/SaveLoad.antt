-- ===== src/Transfer/Journal/SaveLoad.antt =====
-- The journal of server/msx_transfer.py: saving, loading and removing.
use msx_ai.Base.{
  ℕ, ◌<◌, ◌≤◌, ◌≡◌, String, All, ltb, raise_if, refl, ap, Bool, true, false, Option, none, some,
  List, [], ◌∷◌, Result, ok, >>=-eq-ok, ok-injective, Bool-cases, inl, inr, arith,
}
use msx_ai.Base.Int.{ℤ, pos, negsuc}
use msx_ai.Base.Bytes.{IsByte}
use msx_ai.Transfer.Types.{TransferError, journal_error, u32_field}
use msx_ai.Transfer.Descriptor.{TransferDescriptor}
use msx_ai.Transfer.Descriptor.Laws.{IsDescriptor}
use msx_ai.Transfer.Replies.{bytes_equal}
use msx_ai.Transfer.Replies.Status.{bytes_equal_refl}
use msx_ai.Transfer.Journal.{
  TransferJournalRecord, file_of, Directory, find_file, without_file, check_progress,
  check_existing, save, check_loaded, load, remove,
}
use msx_ai.Transfer.Journal.Documents.{Document, path_for, check_caller, document_of}
use msx_ai.Transfer.Journal.Reading.{
  check_caller_same, load_path-file_of, record_of, same_binding-unresumed, same_caller_refl,
}

u32_field_inv :
    (name : String) (z : ℤ) (v : ℕ) → u32_field name z ≡ ok v → (z ≡ pos v) × (v < 4294967296)
unfolding u32_field
u32_field_inv name (pos n) v h = (ap pos (ground (arith, h)), ground (arith, h))
u32_field_inv name (negsuc n) v h = absurd cc

check_loaded-record_of :
    (d : TransferDescriptor) (o c : ℕ) (caller : Option (List ℕ)) (close : Bool)
    → check_caller caller ≡ ok caller
    → check_loaded d caller (record_of d o c caller close) ≡ ok tt
unfolding check_loaded
check_loaded-record_of d o c none close called = ground (arith, called, same_binding-unresumed d)
check_loaded-record_of d o c (some k) close called =
    ground (arith, called, same_binding-unresumed d, same_caller_refl (some k))

find_file-file_of :
    (json_size : Document → ℕ) (d : TransferDescriptor) (document : Document) (fs : Directory)
    → find_file d.transfer_id (file_of json_size d document ∷ fs)
      ≡ some (file_of json_size d document)
unfolding find_file file_of
find_file-file_of json_size d document fs = rw (bytes_equal_refl (path_for d.transfer_id)) refl

load-saved :
    (json_size : Document → ℕ) (d : TransferDescriptor) (o c : ℕ) (caller : Option (List ℕ))
    (close : Bool) (fs : Directory)
    → IsDescriptor d
    → All IsByte d.transfer_id
    → o < 4294967296
    → c < 4294967296
    → check_caller caller ≡ ok caller
    → check_progress d o c close ≡ ok tt
    → json_size (document_of d o c caller close) ≤ 4096
    → load d caller (file_of json_size d (document_of d o c caller close) ∷ fs)
      ≡ ok (some (record_of d o c caller close))
unfolding load
load-saved json_size d o c caller close fs v bytes lt lt_crc called progress small =
    let found = find_file-file_of json_size d (document_of d o c caller close) fs in
    let read =
      load_path-file_of json_size d o c caller close v bytes lt lt_crc called progress small in
    let checked = check_loaded-record_of d o c caller close called in
    ground (arith, found, read, checked)

-- After a save of a well-formed descriptor, whose ID holds bytes, that returns, a load with this
-- descriptor and caller reads the digits, names and numbers of the document back: it returns the
-- descriptor without its resumption, the offset, checksum, caller and intent saved.
pub load-save :
    (json_size : Document → ℕ) (d : TransferDescriptor) (o c : ℤ) (caller : Option (List ℕ))
    (close : Bool) (files saved : Directory)
    → IsDescriptor d
    → All IsByte d.transfer_id
    → save json_size d o c caller close files ≡ ok saved
    → (a b : ℕ) × (o ≡ pos a)
      × (c ≡ pos b)
      × (load d caller saved ≡ ok (some (record_of d a b caller close)))
unfolding save
load-save json_size d o c caller close files saved v bytes e =
    let (a, ea, e1) = >>=-eq-ok (u32_field "confirmed_offset" o) _ e in
    let (b, eb, e2) = >>=-eq-ok (u32_field "prefix_crc32" c) _ e1 in
    let (_, progress, e3) = >>=-eq-ok (check_progress d a b close) _ e2 in
    let (k, called, e4) = >>=-eq-ok (check_caller caller) _ e3 in
    let (_, _, e5) = >>=-eq-ok (check_existing d k close (find_file d.transfer_id files)) _ e4 in
    let same : k ≡ caller = check_caller_same caller k called in
    let (_, fits, wrote) =
      >>=-eq-ok
        (raise_if (ltb 4096 (json_size (document_of d a b caller close)))
          (journal_error "journal size"))
        _ (rw same at e5) in
    let (oa, lt) = u32_field_inv "confirmed_offset" o a ea in
    let (cb, lt_crc) = u32_field_inv "prefix_crc32" c b eb in
    (
      a,
      b,
      oa,
      cb,
      rw (← ok-injective wrote) (
          load-saved json_size d a b caller close (without_file d.transfer_id files) v bytes lt
            lt_crc (rw same at called) progress (ground (arith, fits))),
    )

find_file-without_file : (id : List ℕ) (fs : Directory) → find_file id (without_file id fs) ≡ none
unfolding find_file without_file
find_file-without_file id [] = refl
find_file-without_file id (f ∷ fs) = elim (Bool-cases (bytes_equal (path_for id) f.stem)) [
  | inl here ↦ rw here (find_file-without_file id fs)
  | inr other ↦ rw (other, other) (find_file-without_file id fs)
]

load_missing :
    (d : TransferDescriptor) (caller : Option (List ℕ)) (fs : Directory)
    → find_file d.transfer_id fs ≡ none
    → load d caller fs ≡ ok none
unfolding load
load_missing d caller fs h = ground (arith, h)

-- A removal that finds the journal leaves none to be loaded, for any caller.
pub load-remove :
    (d : TransferDescriptor) (caller any_caller : Option (List ℕ)) (files left : Directory)
    → remove d caller files ≡ ok (true, left)
    → load d any_caller left ≡ ok none
unfolding remove load
load-remove d caller any_caller files left e =
    let (r, er, e1) = >>=-eq-ok (load d caller files) _ e in
    let gone = find_file-without_file d.transfer_id files in
    let same : left ≡ without_file d.transfer_id files = removed r e1 in
    rw same (load_missing d any_caller (without_file d.transfer_id files) gone)
  where
    removed :
        (r : Option TransferJournalRecord)
        → elim r as (λ _. Result TransferError (Bool × Directory)) [
          | none ↦ ok (false, files)
          | some _ ↦ ok (true, without_file d.transfer_id files)
        ]
          ≡ ok (true, left)
        → left ≡ without_file d.transfer_id files
    removed none h = absurd cc
    removed (some r) h = ground (arith, h)

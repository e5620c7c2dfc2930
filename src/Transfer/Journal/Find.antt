-- ===== src/Transfer/Journal/Find.antt =====
-- `TransferJournal.find_matching` of server/msx_transfer.py, on the files in the order of the scan,
-- each a regular file with the name of its transfer ID.
pub mod Match
pub mod Scan
use msx_ai.Base.{
  ℕ, ◌+◌, ◌≡◌, refl, Bool, true, ◌&&◌, ◌||◌, Option, none, some, List, [], ◌∷◌, All, Result, ok,
  err, ◌>>=◌, ◌>>◌, raise_if, >>=-eq-ok, ok-injective, Bool-cases, inl, inr, ltb, ◌==◌,
  if◌then◌else◌,
}
use msx_ai.Transfer.Types.{TransferError, journal_error}
use msx_ai.Transfer.Descriptor.{TransferDescriptor, get_metadata_unknown}
use msx_ai.Transfer.Replies.{bytes_equal}
use msx_ai.Transfer.Journal.{
  TransferJournalRecord, Directory, same_direction, same_encoding, same_caller, load_path,
}
use msx_ai.Transfer.Journal.Documents.{check_caller}

-- `_matches_without_id`.
unfoldable pub matches_without_id : TransferDescriptor → TransferDescriptor → Bool
matches_without_id saved expected =
    (same_direction saved.direction expected.direction
      && (same_encoding saved.encoding expected.encoding && bytes_equal saved.path expected.path))
    && (get_metadata_unknown expected
        || ((saved.wire_size == expected.wire_size)
            && ((saved.wire_crc32 == expected.wire_crc32)
                && ((saved.final_size == expected.final_size)
                    && (saved.final_crc32 == expected.final_crc32)))))

-- A record that the scan keeps.
unfoldable pub is_match : TransferDescriptor → Option (List ℕ) → TransferJournalRecord → Bool
is_match expected none r = matches_without_id r.descriptor expected
is_match expected (some caller) r =
    matches_without_id r.descriptor expected && same_caller r.caller_binding (some caller)

module _ (expected : TransferDescriptor) (caller : Option (List ℕ)) (max_entries : ℕ) where
  unfoldable pub scan : ℕ → Directory → Result TransferError (List TransferJournalRecord)
  scan inspected [] = ok []
  scan inspected (f ∷ fs) = do
    raise_if (ltb max_entries (inspected + 1)) (journal_error "scan limit")
    r ← load_path f
    rest ← scan (inspected + 1) fs
    ok (if is_match expected caller r then r ∷ rest else rest)

unfoldable pub only_match :
    List TransferJournalRecord → Result TransferError (Option TransferJournalRecord)
only_match [] = ok none
only_match (r ∷ []) = ok (some r)
only_match (r ∷ s ∷ rest) = err (journal_error "several journals")

unfoldable pub find_matching :
    TransferDescriptor
    → Option (List ℕ)
    → ℕ
    → Directory
    → Result TransferError (Option TransferJournalRecord)
find_matching expected caller_binding max_entries files = do
  raise_if (ltb max_entries 1 || ltb 256 max_entries) (journal_error "max_entries")
  caller ← check_caller caller_binding
  found ← scan expected caller max_entries 0 files
  only_match found

-- ===== src/Transfer/Journal/Find/Scan.antt =====
-- What the scan of `TransferJournal.find_matching` in server/msx_transfer.py finds.
use msx_ai.Base.{
  ℕ, ◌+◌, ◌≤◌, ◌≡◌, refl, ap, false, ◌||◌, Option, some, List, [], ◌∷◌, ◌++◌, length, All, ok,
  raise_if, >>=-eq-ok, ok-injective, Bool-cases, inl, inr, ltb, if◌then◌else◌, arith,
}
use msx_ai.Transfer.Types.{journal_error}
use msx_ai.Transfer.Descriptor.{TransferDescriptor}
use msx_ai.Transfer.Journal.{TransferJournalRecord, Directory, load_path}
use msx_ai.Transfer.Journal.Documents.{File, check_caller}
use msx_ai.Transfer.Journal.Reading.{check_caller_same}
use msx_ai.Transfer.Journal.Find.Match.{Matches, is_match-Matches, Matches-is_match}
use msx_ai.Transfer.Journal.Find.{is_match, scan, only_match, find_matching}

module _ (expected : TransferDescriptor) (caller : Option (List ℕ)) where
  -- A file that is read, and is no journal of the transfer.
  abbrev pub IsOther : File → Type 0
  IsOther f = (q : TransferJournalRecord) × (load_path f ≡ ok q) × ¬ Matches expected caller q

  module _ (max_entries : ℕ) where
    -- One step of the scan that returns.
    scan-cons :
        (inspected : ℕ) (f : File) (fs : Directory) (found : List TransferJournalRecord)
        → scan expected caller max_entries inspected (f ∷ fs) ≡ ok found
        → (q : TransferJournalRecord) × (rest : List TransferJournalRecord) × (load_path f ≡ ok q)
          × (scan expected caller max_entries (inspected + 1) fs ≡ ok rest)
          × ((if is_match expected caller q then q ∷ rest else rest) ≡ found)
          × (inspected + 1 ≤ max_entries)
    unfolding scan
    scan-cons inspected f fs found e =
        let (_, small, e1) =
          >>=-eq-ok (raise_if (ltb max_entries (inspected + 1)) (journal_error "scan limit")) _ e in
        let (q, eq, e2) = >>=-eq-ok (load_path f) _ e1 in
        let (rest, er, e3) = >>=-eq-ok (scan expected caller max_entries (inspected + 1) fs) _ e2 in
        (q, rest, eq, er, ok-injective e3, ground (arith, small))

    other :
        (f : File) (q : TransferJournalRecord)
        → load_path f ≡ ok q
        → is_match expected caller q ≡ false
        → IsOther f
    other f q e rejected = (q, e, λ m. absurd (cc (rejected, Matches-is_match expected q caller m)))

    scan-none :
        (inspected : ℕ) (files : Directory)
        → scan expected caller max_entries inspected files ≡ ok []
        → All IsOther files
    scan-none inspected [] e = tt
    scan-none inspected (f ∷ fs) e =
        let (q, rest, eq, er, kept, _) = scan-cons inspected f fs [] e in
        elim (Bool-cases (is_match expected caller q)) [
          | inl y ↦ let impossible : q ∷ rest ≡ [] = rw y at kept in absurd (cc (impossible))
          | inr n ↦
              let empty : rest ≡ [] = rw n at kept in
              (other f q eq n, scan-none (inspected + 1) fs (rw empty at er))
        ]

    -- The file that is found, between the others.
    abbrev Found : TransferJournalRecord → Directory → Type 0
    Found r files =
        (before : Directory) × (f : File) × (after : Directory) × (files ≡ before ++ f ∷ after)
        × (load_path f ≡ ok r)
        × Matches expected caller r
        × All IsOther (before ++ after)

    scan-one :
        (inspected : ℕ) (files : Directory) (r : TransferJournalRecord)
        → scan expected caller max_entries inspected files ≡ ok (r ∷ [])
        → Found r files
    scan-one inspected [] r e = absurd (unfold scan in cc)
    scan-one inspected (f ∷ fs) r e =
        let (q, rest, eq, er, kept, _) = scan-cons inspected f fs (r ∷ []) e in
        elim (Bool-cases (is_match expected caller q)) [
          | inl y ↦
              let both : q ∷ rest ≡ r ∷ [] = rw y at kept in
              let same : q ≡ r = cc (both) in
              let empty : rest ≡ [] = cc (both) in
              (
                [],
                f,
                fs,
                refl,
                rw same at eq,
                rw same at (is_match-Matches expected q caller y),
                scan-none (inspected + 1) fs (rw empty at er),
              )
          | inr n ↦
              let only : rest ≡ r ∷ [] = rw n at kept in
              let (before, g, after, split, eg, m, others) =
                scan-one (inspected + 1) fs r (rw only at er) in
              (f ∷ before, g, after, ap (λ l. f ∷ l) split, eg, m, (other f q eq n, others))
        ]

    scan-length :
        (inspected : ℕ) (files : Directory) (found : List TransferJournalRecord)
        → scan expected caller max_entries inspected files ≡ ok found
        → inspected ≤ max_entries
        → inspected + length files ≤ max_entries
    scan-length inspected [] found e le = omega (arith, le)
    scan-length inspected (f ∷ fs) found e le =
        let (q, rest, eq, er, kept, small) = scan-cons inspected f fs found e in
        omega (arith, scan-length (inspected + 1) fs rest er small)

only_match_sound :
    (found : List TransferJournalRecord) (r : TransferJournalRecord)
    → only_match found ≡ ok (some r)
    → found ≡ r ∷ []
unfolding only_match
only_match_sound [] r e = absurd cc
only_match_sound (s ∷ []) r e = let same : s ≡ r = cc in rw same refl
only_match_sound (s ∷ t ∷ rest) r e = absurd cc

-- A journal that is found is that of one file of the directory, which has at most `max_entries` files;
-- it has the direction, the encoding and the path of the transfer, its sizes and checksums unless the
-- transfer is a GET that knows none of its own, and the caller if one is given. Each other file has been
-- read and is no such journal.
pub find_matching_sound :
    (expected : TransferDescriptor) (caller : Option (List ℕ)) (max_entries : ℕ) (files : Directory)
    (r : TransferJournalRecord)
    → find_matching expected caller max_entries files ≡ ok (some r)
    → (length files ≤ max_entries)
      × ((before : Directory) × (f : File) × (after : Directory) × (files ≡ before ++ f ∷ after)
          × (load_path f ≡ ok r)
          × Matches expected caller r
          × All (IsOther expected caller) (before ++ after))
unfolding find_matching
find_matching_sound expected caller max_entries files r e =
    let (_, _, e1) =
      >>=-eq-ok (raise_if (ltb max_entries 1 || ltb 256 max_entries) (journal_error "max_entries"))
        _ e in
    let (c, ec, e2) = >>=-eq-ok (check_caller caller) _ e1 in
    let (found, ef, e3) = >>=-eq-ok (scan expected c max_entries 0 files) _ e2 in
    let one = only_match_sound found r e3 in
    let same : c ≡ caller = check_caller_same caller c ec in
    let scanned : scan expected caller max_entries 0 files ≡ ok (r ∷ []) = rw (one, same) at ef in
    (
      omega (arith, scan-length expected caller max_entries 0 files (r ∷ []) scanned (omega arith)),
      scan-one expected caller max_entries 0 files r scanned,
    )

-- ===== src/Transfer/Journal/Find/Match.antt =====
-- The test of `TransferJournal.find_matching` in server/msx_transfer.py, and what it stands for.
use msx_ai.Base.{
  ℕ, ◌≡◌, refl, ap, ◌∙◌, ◌⊎◌, true, Option, none, some, List, [], ◌∷◌, Bool-cases, inl, inr, arith,
}
use msx_ai.Transfer.Types.{TransferDirection, put, get, TransferEncoding, raw, packbits}
use msx_ai.Transfer.Descriptor.{TransferDescriptor, get_metadata_unknown}
use msx_ai.Transfer.Replies.{bytes_equal}
use msx_ai.Transfer.Replies.Status.{bytes_equal_refl}
use msx_ai.Transfer.Journal.{TransferJournalRecord, same_direction, same_encoding, same_caller}
use msx_ai.Transfer.Journal.Reading.{same_direction_refl, same_encoding_refl, same_caller_refl}
use msx_ai.Transfer.Journal.Find.{matches_without_id, is_match}

-- A GET that does not know yet what it will receive.
pub record Discovers (d : TransferDescriptor) : Type 0 where
  pub receives : d.direction ≡ get
  pub no_wire_size : d.wire_size ≡ 0
  pub no_wire_crc32 : d.wire_crc32 ≡ 0
  pub no_final_size : d.final_size ≡ 0
  pub no_final_crc32 : d.final_crc32 ≡ 0

-- The same sizes and checksums, before and after the encoding.
pub record SameContents (a b : TransferDescriptor) : Type 0 where
  pub wire_size_eq : a.wire_size ≡ b.wire_size
  pub wire_crc32_eq : a.wire_crc32 ≡ b.wire_crc32
  pub final_size_eq : a.final_size ≡ b.final_size
  pub final_crc32_eq : a.final_crc32 ≡ b.final_crc32

-- A journal of the transfer that is asked for, whatever its ID; the caller counts where one is given.
pub record Matches (expected : TransferDescriptor) (caller : Option (List ℕ))
    (r : TransferJournalRecord) : Type 0 where
  pub direction_eq : r.descriptor.direction ≡ expected.direction
  pub encoding_eq : r.descriptor.encoding ≡ expected.encoding
  pub path_eq : r.descriptor.path ≡ expected.path
  pub contents : Discovers expected ⊎ SameContents r.descriptor expected
  pub caller_eq : (caller ≡ none) ⊎ (r.caller_binding ≡ caller)

bytes_equal_sound : (xs ys : List ℕ) → bytes_equal xs ys ≡ true → xs ≡ ys
unfolding bytes_equal
bytes_equal_sound [] [] h = refl
bytes_equal_sound [] (y ∷ ys) h = absurd cc
bytes_equal_sound (x ∷ xs) [] h = absurd cc
bytes_equal_sound (x ∷ xs) (y ∷ ys) h =
    let head : x ≡ y = ground (arith, h) in
    let rest : bytes_equal xs ys ≡ true = ground (arith, h) in
    rw head (ap (λ l. y ∷ l) (bytes_equal_sound xs ys rest))

same_direction_sound : (a b : TransferDirection) → same_direction a b ≡ true → a ≡ b
same_direction_sound put put h = refl
same_direction_sound get get h = refl
same_direction_sound put get h = absurd cc
same_direction_sound get put h = absurd cc

same_encoding_sound : (a b : TransferEncoding) → same_encoding a b ≡ true → a ≡ b
same_encoding_sound raw raw h = refl
same_encoding_sound packbits packbits h = refl
same_encoding_sound raw packbits h = absurd cc
same_encoding_sound packbits raw h = absurd cc

same_caller_sound : (a b : Option (List ℕ)) → same_caller a b ≡ true → a ≡ b
unfolding same_caller
same_caller_sound none none h = refl
same_caller_sound (some a) (some b) h = ap some (bytes_equal_sound a b h)
same_caller_sound none (some b) h = absurd cc
same_caller_sound (some a) none h = absurd cc

is_get_sound : (a : TransferDirection) → same_direction a get ≡ true → a ≡ get
is_get_sound a h = same_direction_sound a get h

unknown-Discovers : (d : TransferDescriptor) → get_metadata_unknown d ≡ true → Discovers d
unfolding get_metadata_unknown
unknown-Discovers d h = record {
  receives = is_get_sound d.direction (ground (arith, h));
  no_wire_size = ground (arith, h);
  no_wire_crc32 = ground (arith, h);
  no_final_size = ground (arith, h);
  no_final_crc32 = ground (arith, h);
}

Discovers-unknown : (d : TransferDescriptor) → Discovers d → get_metadata_unknown d ≡ true
unfolding get_metadata_unknown
Discovers-unknown d h =
    rw (h.receives, h.no_wire_size, h.no_wire_crc32, h.no_final_size, h.no_final_crc32) refl

module _ (expected : TransferDescriptor) (r : TransferJournalRecord) where
  contents_sound :
      matches_without_id r.descriptor expected ≡ true
      → Discovers expected ⊎ SameContents r.descriptor expected
  unfolding matches_without_id
  contents_sound h = elim (Bool-cases (get_metadata_unknown expected)) [
    | inl unknown ↦ inl (unknown-Discovers expected unknown)
    | inr known ↦ inr (record {
      wire_size_eq = ground (arith, h, known);
      wire_crc32_eq = ground (arith, h, known);
      final_size_eq = ground (arith, h, known);
      final_crc32_eq = ground (arith, h, known);
    })
  ]

  matches_without_id-Matches :
      (caller : Option (List ℕ))
      → matches_without_id r.descriptor expected ≡ true
      → (caller ≡ none) ⊎ (r.caller_binding ≡ caller)
      → Matches expected caller r
  unfolding matches_without_id
  matches_without_id-Matches caller h called = record {
    direction_eq =
        same_direction_sound r.descriptor.direction expected.direction (ground (arith, h));
    encoding_eq = same_encoding_sound r.descriptor.encoding expected.encoding (ground (arith, h));
    path_eq = bytes_equal_sound r.descriptor.path expected.path (ground (arith, h));
    contents = contents_sound h;
    caller_eq = called;
  }

  pub is_match-Matches :
      (caller : Option (List ℕ)) → is_match expected caller r ≡ true → Matches expected caller r
  unfolding is_match
  is_match-Matches none h = matches_without_id-Matches none h (inl refl)
  is_match-Matches (some c) h =
      matches_without_id-Matches (some c) (ground (arith, h))
        (inr (same_caller_sound r.caller_binding (some c) (ground (arith, h))))

  Matches-matches_without_id :
      (caller : Option (List ℕ))
      → Matches expected caller r
      → matches_without_id r.descriptor expected ≡ true
  unfolding matches_without_id
  Matches-matches_without_id caller m =
      let same_ways =
        ap (λ x. same_direction x expected.direction) m.direction_eq
        ∙ same_direction_refl expected.direction in
      let same_codes =
        ap (λ x. same_encoding x expected.encoding) m.encoding_eq
        ∙ same_encoding_refl expected.encoding in
      let same_paths =
        ap (λ x. bytes_equal x expected.path) m.path_eq ∙ bytes_equal_refl expected.path in
      elim m.contents [
        | inl d ↦ ground (arith, same_ways, same_codes, same_paths, Discovers-unknown expected d)
        | inr c ↦ ground (
          arith, same_ways, same_codes, same_paths, c.wire_size_eq, c.wire_crc32_eq,
          c.final_size_eq, c.final_crc32_eq,
        )
      ]

  caller_complete :
      (c : List ℕ)
      → (some c ≡ none) ⊎ (r.caller_binding ≡ some c)
      → same_caller r.caller_binding (some c) ≡ true
  caller_complete c (inl e) = absurd cc
  caller_complete c (inr e) = ap (λ x. same_caller x (some c)) e ∙ same_caller_refl (some c)

  pub Matches-is_match :
      (caller : Option (List ℕ)) → Matches expected caller r → is_match expected caller r ≡ true
  unfolding is_match
  Matches-is_match none m = Matches-matches_without_id none m
  Matches-is_match (some c) m =
      ground (arith, Matches-matches_without_id (some c) m, caller_complete c m.caller_eq)

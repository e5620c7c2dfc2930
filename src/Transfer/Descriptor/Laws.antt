-- ===== src/Transfer/Descriptor/Laws.antt =====
-- What the constructor of `TransferDescriptor` of server/msx_transfer.py accepts.
use msx_ai.Base.{
  ℕ, ◌<◌, ◌≤◌, ◌≡◌, ◌↔◌, true, false, String, >>=-eq-ok, sym, List, [], ◌∷◌, length, All, ok, arith,
  refl,
}
use msx_ai.Base.Int.{ℤ, pos, negsuc}
use msx_ai.Transfer.Types.{put, get, raw, u32_field, transfer_id_field, path_bytes, any_outside}
use msx_ai.Transfer.Descriptor.{
  DescriptorArgs, TransferDescriptor, args_of, get_metadata_unknown, settled, check_relations,
  check_descriptor, new_descriptor,
}

settled-settled : (d : TransferDescriptor) → settled (settled d) ≡ settled d
unfolding settled
settled-settled d = ground arith

check_descriptor-eq-settled : (d e : TransferDescriptor) → check_descriptor d ≡ ok e → e ≡ settled d
unfolding check_descriptor
check_descriptor-eq-settled d e h = ground arith

-- The checks pass again on what they return.
check_descriptor_again :
    (d e : TransferDescriptor) → check_descriptor d ≡ ok e → check_descriptor e ≡ ok e
check_descriptor_again d e h =
    rw (check_descriptor-eq-settled d e h)
      (unfold check_descriptor in ground (arith, h, settled-settled d))

-- The relations between the fields, in plain terms.
pub record IsConsistent (d : TransferDescriptor) : Type 0 where
  pub offset_le : get_metadata_unknown d ≡ false → d.resume_offset ≤ d.wire_size
  pub no_prefix : d.resume_offset ≡ 0 → d.resume_prefix_crc32 ≡ 0
  pub get_is_raw : d.direction ≡ get → d.encoding ≡ raw
  pub raw_sizes :
      d.encoding ≡ raw
      → get_metadata_unknown d ≡ false
      → (d.wire_size ≡ d.final_size) × (d.wire_crc32 ≡ d.final_crc32)
  pub replay_complete :
      d.receiptless_replay ≡ true
      → (d.direction ≡ put)
        × (d.resume ≡ true)
        × (d.resume_offset ≡ d.wire_size)
        × (d.resume_prefix_crc32 ≡ d.wire_crc32)

pub check_relations-IsConsistent :
    (d : TransferDescriptor) → check_relations d ≡ ok tt → IsConsistent d
unfolding check_relations
check_relations-IsConsistent d h = record {
  offset_le = λ u. ground arith;
  no_prefix = λ z. ground arith;
  get_is_raw = λ g. ground arith;
  raw_sizes = λ r u. ground arith;
  replay_complete = λ t. ground arith;
}

pub IsConsistent-check_relations :
    (d : TransferDescriptor) → IsConsistent d → check_relations d ≡ ok tt
unfolding check_relations
IsConsistent-check_relations d c =
    ground (arith, c.offset_le, c.no_prefix, c.get_is_raw, c.raw_sizes, c.replay_complete)

-- A path: 1 to 255 printable ASCII characters.
pub record IsPath (p : List ℕ) : Type 0 where
  pub some_length : 0 < length p
  pub length_le : length p ≤ 255
  pub printable : All (λ b. (0x20 ≤ b) × (b ≤ 0x7e)) p

any_outside-false :
    (low high : ℕ) (p : List ℕ)
    → any_outside low high p ≡ false
    → All (λ b. (low ≤ b) × (b ≤ high)) p
unfolding any_outside
any_outside-false low high [] h = tt
any_outside-false low high (b ∷ p) h = ground (arith, any_outside-false low high p)

All-any_outside :
    (low high l h : ℕ) (p : List ℕ)
    → l ≤ low
    → high ≤ h
    → All (λ b. (low ≤ b) × (b ≤ high)) p
    → any_outside l h p ≡ false
unfolding any_outside
All-any_outside low high l h [] hl hh a = refl
All-any_outside low high l h (b ∷ p) hl hh a =
    ground (arith, All-any_outside low high l h p hl hh a.1)

pub path_bytes-IsPath : (p q : List ℕ) → path_bytes p ≡ ok q → IsPath p
unfolding path_bytes
path_bytes-IsPath p q h = record {
  some_length = ground arith;
  length_le = ground arith;
  printable = any_outside-false 0x20 0x7e p (ground arith);
}

pub IsPath-path_bytes : (p : List ℕ) → IsPath p → path_bytes p ≡ ok p
unfolding path_bytes
IsPath-path_bytes p h = ground (
  arith,
  All-any_outside 0x20 0x7e 0 0x7f p (omega arith) (omega arith) h.printable,
  All-any_outside 0x20 0x7e 0x20 0x7e p (omega arith) (omega arith) h.printable,
)

pub IsPath-ascii : (p : List ℕ) → IsPath p → any_outside 0 0x7f p ≡ false
IsPath-ascii p h = All-any_outside 0x20 0x7e 0 0x7f p (omega arith) (omega arith) h.printable

-- A descriptor as the constructor leaves it.
pub record IsDescriptor (d : TransferDescriptor) : Type 0 where
  pub id_length : length d.transfer_id ≡ 16
  pub wire_size_fits : d.wire_size < 4294967296
  pub wire_crc32_fits : d.wire_crc32 < 4294967296
  pub final_size_fits : d.final_size < 4294967296
  pub final_crc32_fits : d.final_crc32 < 4294967296
  pub resume_offset_fits : d.resume_offset < 4294967296
  pub resume_crc_fits : d.resume_prefix_crc32 < 4294967296
  pub path_valid : IsPath d.path
  pub resume_set : 0 < d.resume_offset → d.resume ≡ true
  pub consistent : IsConsistent d

resume_set-settled :
    (d : TransferDescriptor) → (0 < d.resume_offset → d.resume ≡ true) → settled d ≡ d
unfolding settled
resume_set-settled d h = ground (arith, h)

settled-resume_set :
    (d : TransferDescriptor) → d ≡ settled d → 0 < d.resume_offset → d.resume ≡ true
unfolding settled
settled-resume_set d h l = ground arith

u32_field_fits : (name : String) (z : ℤ) (v : ℕ) → u32_field name z ≡ ok v → v < 4294967296
unfolding u32_field
u32_field_fits name (pos n) v h = ground arith
u32_field_fits name (negsuc n) v h = absurd cc

transfer_id_field_fits : (xs ys : List ℕ) → transfer_id_field xs ≡ ok ys → length ys ≡ 16
unfolding transfer_id_field
transfer_id_field_fits xs ys h = ground arith

check_descriptor-checked :
    (d e : TransferDescriptor) → check_descriptor d ≡ ok e → check_relations (settled d) ≡ ok tt
unfolding check_descriptor
check_descriptor-checked d e h = ground arith

-- Whatever the constructor returns is a descriptor in this sense.
pub new_descriptor-IsDescriptor :
    (a : DescriptorArgs) (d : TransferDescriptor) → new_descriptor a ≡ ok d → IsDescriptor d
unfolding new_descriptor settled
new_descriptor-IsDescriptor a d h =
    let (i, ei, h1) = >>=-eq-ok _ _ h in
    let (ws, e1, h2) = >>=-eq-ok _ _ h1 in
    let (wc, e2, h3) = >>=-eq-ok _ _ h2 in
    let (fs, e3, h4) = >>=-eq-ok _ _ h3 in
    let (fc, e4, h5) = >>=-eq-ok _ _ h4 in
    let (ro, e5, h6) = >>=-eq-ok _ _ h5 in
    let (rc, e6, h7) = >>=-eq-ok _ _ h6 in
    let (p, ep, h8) = >>=-eq-ok _ _ h7 in
    let e : TransferDescriptor = record {
      direction = a.direction;
      encoding = a.encoding;
      transfer_id = i;
      wire_size = ws;
      wire_crc32 = wc;
      final_size = fs;
      final_crc32 = fc;
      path = a.path;
      resume_offset = ro;
      resume_prefix_crc32 = rc;
      resume = a.resume;
      receiptless_replay = a.receiptless_replay;
    } in
    let same = check_descriptor-eq-settled e d h8 in
    record {
      id_length = rw same (transfer_id_field_fits a.transfer_id i ei);
      wire_size_fits = rw same (u32_field_fits _ a.wire_size ws e1);
      wire_crc32_fits = rw same (u32_field_fits _ a.wire_crc32 wc e2);
      final_size_fits = rw same (u32_field_fits _ a.final_size fs e3);
      final_crc32_fits = rw same (u32_field_fits _ a.final_crc32 fc e4);
      resume_offset_fits = rw same (u32_field_fits _ a.resume_offset ro e5);
      resume_crc_fits = rw same (u32_field_fits _ a.resume_prefix_crc32 rc e6);
      path_valid = rw same (path_bytes-IsPath a.path p ep);
      resume_set = settled-resume_set d (rw same (sym (settled-settled e)));
      consistent = check_relations-IsConsistent d (rw same (check_descriptor-checked e d h8));
    }

-- The constructor changes no field but `resume`.
pub new_descriptor-path :
    (a : DescriptorArgs) (d : TransferDescriptor) → new_descriptor a ≡ ok d → d.path ≡ a.path
unfolding new_descriptor check_descriptor settled
new_descriptor-path a d h = ground arith

-- A descriptor is accepted, and returned as it is, exactly when its fields have their sizes and are
-- consistent with one another.
pub new_descriptor_iff :
    (d : TransferDescriptor) → (new_descriptor (args_of d) ≡ ok d) ↔ IsDescriptor d
new_descriptor_iff d = (new_descriptor-IsDescriptor (args_of d) d, accepted)
  where
    accepted : IsDescriptor d → new_descriptor (args_of d) ≡ ok d
    accepted v =
        unfold new_descriptor u32_field transfer_id_field check_descriptor in
        ground (
          arith,
          v.id_length,
          IsPath-path_bytes d.path v.path_valid,
          resume_set-settled d v.resume_set,
          IsConsistent-check_relations d v.consistent,
        )

-- ===== src/Transfer/Payload/Sound.antt =====
-- What `prepare_put_payload` of server/msx_transfer.py prepares.
use msx_ai.Base.{
  ℕ, ◌+◌, ◌*◌, ◌/◌, ◌≤◌, ◌≡◌, refl, true, false, max, length, Option, some, List, leb→le, le→leb,
  concat, Result, ok, err, >>=-eq-ok, Result-cases, ok-injective, Bool-cases, inl, inr, arith,
}
use msx_ai.Base.Int.{ℤ}
use msx_ai.Transfer.Types.{
  TransferError, transfer_error, wire_limit, payload_error, binding_error, cancelled_error,
  journal_error, struct_error, raw, packbits,
}
use msx_ai.Transfer.PackBits.{PackBits, deterministic_packbits}
use msx_ai.Transfer.PackBits.Format.{unpackbits}
use msx_ai.Transfer.PackBits.RoundTrip.{
  deterministic_packbits-Encoded, unpackbits-deterministic_packbits,
}
use msx_ai.Transfer.Digest.{crc32_stream, looks_already_compressed}
use msx_ai.Transfer.Payload.{
  PutMode, auto, only_raw, only_packbits, unknown_mode, PreparedPayload, packed_payload,
  raw_payload, required_savings, check_sizes, saves_enough, raw_result, choose, prepare_auto,
  prepare_put_payload,
}

-- What a receiver makes of the bytes sent.
unfoldable pub received : PreparedPayload → Option (List ℕ)
received p = elim p.encoding [ raw ↦ some p.wire | packbits ↦ unpackbits p.wire ]

module _ (crc : List ℕ → ℕ → ℕ) (max_size : ℕ) (suffix : List ℕ) (blocks : List (List ℕ)) where
  abbrev Restores : PreparedPayload → Type 0
  Restores p = received p ≡ some (concat blocks)

  raw_result-Restores :
      (p : PreparedPayload)
      → raw_result crc max_size suffix blocks ≡ ok p
      → Restores p × (p.encoding ≡ raw)
  unfolding raw_result received
  raw_result-Restores p e = elim (Result-cases (crc32_stream crc max_size blocks)) [
    | inl (d, ed) ↦
        let same : raw_payload blocks d ≡ p = ground (arith, ed, e) in rw (← same) (refl, refl)
    | inr (x, ex) ↦ absurd (ground (arith, ex, e))
  ]

  packed-Restores :
      (s : PackBits)
      → deterministic_packbits crc max_size blocks ≡ ok s
      → Restores (packed_payload s)
  unfolding received
  packed-Restores s e = unpackbits-deterministic_packbits crc max_size blocks s e

  -- The bytes are fewer than those of the source by 256 and by three percent.
  abbrev pub Saves : List ℕ → Type 0
  Saves wire =
      (length wire + 256 ≤ length (concat blocks))
      × (100 * length wire + 3 * length (concat blocks) ≤ 100 * length (concat blocks))

  -- The threshold of the code, in these terms.
  saves_enough-Saves :
      (s : PackBits)
      → deterministic_packbits crc max_size blocks ≡ ok s
      → saves_enough (packed_payload s) ≡ true
      → Saves s.wire
  unfolding saves_enough required_savings
  saves_enough-Saves s es enough =
      let (_, counted, sized) = deterministic_packbits-Encoded crc max_size blocks s es in
      let le : s.wire_size + max 256 ((s.final_size * 3 + 99) / 100) ≤ s.final_size =
        leb→le _ _ enough in
      (omega (arith, le, counted, sized), omega (arith, le, counted, sized))

  Saves-saves_enough :
      (s : PackBits)
      → deterministic_packbits crc max_size blocks ≡ ok s
      → Saves s.wire
      → saves_enough (packed_payload s) ≡ true
  unfolding saves_enough required_savings
  Saves-saves_enough s es (few, little) =
      let (_, counted, sized) = deterministic_packbits-Encoded crc max_size blocks s es in
      le→leb _ _ (omega (arith, few, little, counted, sized))

  -- In mode `auto` the PackBits encoding is chosen only where it saves enough.
  abbrev Worth : PreparedPayload → Type 0
  Worth p = p.encoding ≡ packbits → Saves p.wire

  choose-Restores :
      (s : PackBits) (p : PreparedPayload)
      → deterministic_packbits crc max_size blocks ≡ ok s
      → choose crc max_size suffix blocks (packed_payload s) ≡ ok p
      → Restores p × Worth p
  unfolding choose received
  choose-Restores s p es e = elim (Bool-cases (saves_enough (packed_payload s))) [
    | inl yes_enough ↦
        let same : packed_payload s ≡ p = ground (arith, yes_enough, e) in
        rw (← same) (packed-Restores s es, λ _. saves_enough-Saves s es yes_enough)
    | inr too_little ↦
        let same : raw_payload blocks (packed_payload s).final_digest ≡ p =
          ground (arith, too_little, e) in
        rw (← same) (refl, λ x. absurd cc)
  ]

  raw_result-Worth :
      (p : PreparedPayload) → raw_result crc max_size suffix blocks ≡ ok p → Restores p × Worth p
  raw_result-Worth p e =
      let (restores, is_raw) = raw_result-Restores p e in (restores, λ x. absurd (cc (is_raw, x)))

  prepare_auto-Restores :
      (p : PreparedPayload) → prepare_auto crc max_size suffix blocks ≡ ok p → Restores p × Worth p
  unfolding prepare_auto
  prepare_auto-Restores p e = elim (Bool-cases (looks_already_compressed suffix (concat blocks))) [
    | inl compressed ↦ raw_result-Worth p (rw compressed at e)
    | inr other ↦ elim (Result-cases (deterministic_packbits crc max_size blocks)) [
      | inl (s, es) ↦ choose-Restores s p es (rw (other, es) at e)
      | inr (x, ex) ↦ by_error x (rw (other, ex) at e)
    ]
  ]
    where
      by_error :
          (x : TransferError)
          → elim x as (λ _. Result TransferError PreparedPayload) [
            | wire_limit ↦ raw_result crc max_size suffix blocks
            | other ↦ err other
          ]
            ≡ ok p
          → Restores p × Worth p
      by_error wire_limit h = raw_result-Worth p h
      by_error (transfer_error n) h = absurd cc
      by_error (payload_error n) h = absurd cc
      by_error (binding_error n) h = absurd cc
      by_error (cancelled_error n) h = absurd cc
      by_error (journal_error n) h = absurd cc
      by_error struct_error h = absurd cc

-- Whatever `prepare_put_payload` returns, what a receiver makes of its bytes is the source; in mode
-- `auto` it is PackBits only where its bytes are fewer than those of the source by at least 256 and by
-- at least three percent.
pub prepare_put_payload_sound :
    (crc : List ℕ → ℕ → ℕ) (max_size : ℕ) (suffix : List ℕ) (blocks : List (List ℕ))
    (chunk_size : ℤ) (mode : PutMode) (p : PreparedPayload)
    → prepare_put_payload crc max_size suffix blocks chunk_size mode ≡ ok p
    → (received p ≡ some (concat blocks))
      × (mode ≡ auto
          → p.encoding ≡ packbits
          → (length p.wire + 256 ≤ length (concat blocks))
            × (100 * length p.wire + 3 * length (concat blocks) ≤ 100 * length (concat blocks)))
unfolding prepare_put_payload
prepare_put_payload_sound crc max_size suffix blocks chunk_size unknown_mode p e = absurd cc
prepare_put_payload_sound crc max_size suffix blocks chunk_size only_raw p e =
    let (_, _, returned) = >>=-eq-ok (check_sizes chunk_size max_size) _ e in
    ((raw_result-Restores crc max_size suffix blocks p returned).0, λ m. absurd cc)
prepare_put_payload_sound crc max_size suffix blocks chunk_size only_packbits p e =
    let (_, _, returned) = >>=-eq-ok (check_sizes chunk_size max_size) _ e in
    let (s, es, same) = >>=-eq-ok (deterministic_packbits crc max_size blocks) _ returned in
    (rw (← ok-injective same) (packed-Restores crc max_size suffix blocks s es), λ m. absurd cc)
prepare_put_payload_sound crc max_size suffix blocks chunk_size auto p e =
    let (_, _, returned) = >>=-eq-ok (check_sizes chunk_size max_size) _ e in
    let (restores, worth) = prepare_auto-Restores crc max_size suffix blocks p returned in
    (restores, λ _. worth)

-- In mode `auto`, of a file that does not look compressed and that the encoder returns on, what
-- `prepare_put_payload` returns is PackBits exactly where the encoder's bytes are fewer than those of
-- the source by at least 256 and by at least three percent.
pub prepare_put_payload_chooses :
    (crc : List ℕ → ℕ → ℕ) (max_size : ℕ) (suffix : List ℕ) (blocks : List (List ℕ))
    (chunk_size : ℤ) (s : PackBits) (p : PreparedPayload)
    → prepare_put_payload crc max_size suffix blocks chunk_size auto ≡ ok p
    → looks_already_compressed suffix (concat blocks) ≡ false
    → deterministic_packbits crc max_size blocks ≡ ok s
    → (p.encoding ≡ packbits → Saves crc max_size suffix blocks s.wire)
      × (Saves crc max_size suffix blocks s.wire → p.encoding ≡ packbits)
unfolding prepare_put_payload prepare_auto choose
prepare_put_payload_chooses crc max_size suffix blocks chunk_size s p e plain es =
    let (_, _, returned) = >>=-eq-ok (check_sizes chunk_size max_size) _ e in
    let chosen : choose crc max_size suffix blocks (packed_payload s) ≡ ok p =
      rw (plain, es) at returned in
    elim (Bool-cases (saves_enough (packed_payload s))) [
      | inl enough ↦
          let same : packed_payload s ≡ p = ground (arith, enough, chosen) in
          rw (← same) (λ _. saves_enough-Saves crc max_size suffix blocks s es enough, λ _. refl)
      | inr little ↦
          let same : raw_payload blocks (packed_payload s).final_digest ≡ p =
            ground (arith, little, chosen) in
          rw (← same) (
            λ x. absurd cc,
            λ saves. absurd (cc (little, Saves-saves_enough crc max_size suffix blocks s es saves)),
          )
    ]

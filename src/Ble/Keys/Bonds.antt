-- ===== src/Ble/Keys/Bonds.antt =====
-- What tasks/ble/auth.rs does with a bond: the client that it belongs to is let in.
use sleep_environment_monito.Prelude.{
  ℕ, zero, suc, ◌%◌, ◌^◌, ◌-◌, ◌≤◌, ◌<◌, ◌≡◌, refl, inl, inr, List, [], ◌∷◌, Bool, true, Option,
  none, some, arith, ok, All, All-take, Bool-cases, ◌==◌, if◌then◌else◌, ltb, min, length, take,
  set, get_or, replicate, length-take, take-length-append,
}
use sleep_environment_monito.Flash.{FlashStorage, IsNor}
use sleep_environment_monito.Auth.Record.{BleAuthRecord, valid, empty_record}
use sleep_environment_monito.Auth.Record.RoundTrip.{IsAuthRecord}
use sleep_environment_monito.Auth.Upsert.{
  BleAuthRecordUpsert, updated, appended, replaced_oldest, no_capacity, find_auth_record_index,
  upsert_at, upsert_auth_record,
}
use sleep_environment_monito.Auth.Upsert.Laws.{place, Placed, upsert_places}
use sleep_environment_monito.Auth.Store.{store_auth_records, load_auth_records}
use sleep_environment_monito.Auth.Store.RoundTrip.{load-store_auth_records}
use sleep_environment_monito.Ble.Pairing.{BlePairingState, is_open}
use sleep_environment_monito.Ble.Keys.{
  Workspace, Connection, any_match, saved_auth_matches_connection, is_encrypted, is_valid,
  ensure_ble_authorized, filled, restore_ble_auth_records, store_upserted,
  persist_ble_bond_information, auth_record_capacity, auth_records_version, auth_records_checksum,
  ble_auth_workspace_len,
}

set-All :
    {A : Type 0} (P : A → Type 0) (xs : List A) (i : ℕ) (x : A)
    → All P xs
    → P x
    → All P (set xs i x)
set-All P [] i x h p = tt
set-All P (y ∷ xs) zero x (_, h) p = (p, h)
set-All P (y ∷ xs) (suc i) x (q, h) p = (q, set-All P xs i x h p)

upsert_at-All :
    (P : BleAuthRecord → Type 0) (records : List BleAuthRecord) (active : ℕ)
    (candidate : BleAuthRecord) (found : Option ℕ)
    → All P records
    → P candidate
    → All P (upsert_at records active candidate found).1
unfolding upsert_at
upsert_at-All P records active candidate (some index) h p = set-All P records index candidate h p
upsert_at-All P records active candidate none h p =
    elim (Bool-cases (ltb active (length records))) [
      | inl more ↦ rw more (set-All P records active candidate h p)
      | inr full ↦ rw full (elim (Bool-cases (length records == 0)) [
        | inl z ↦ rw z h
        | inr z ↦ rw z (set-All P records 0 candidate h p)
      ])
    ]

-- A match at a place in use is found.
any_match-at :
    (test : BleAuthRecord → Bool) (n i : ℕ) (records : List BleAuthRecord)
    → i < n
    → n ≤ length records
    → test (get_or records i empty_record) ≡ true
    → any_match test (take n records) ≡ true
unfolding any_match
any_match-at test (suc n) i [] h k e = absurd (omega (arith, k))
any_match-at test (suc n) zero (r ∷ records) h k e = rw (e, any_match) refl
any_match-at test (suc n) (suc i) (r ∷ records) h k e =
    let later = any_match-at test n i records (omega (arith, h)) (omega (arith, k)) e in
    elim (Bool-cases (test r)) [ inl t ↦ rw t refl | inr t ↦ rw (t, later) refl ]
any_match-at test zero i records h k e = absurd (omega (arith, h))

-- A client whose connection is encrypted and whose peer a record in use names is let in.
matched_authorized :
    (pairing : BlePairingState) (c : Connection) (w : Workspace) (version count : ℕ)
    → is_encrypted c.security_level ≡ true
    → w.status ≡ valid version count
    → any_match c.match_identity (take w.record_count w.records) ≡ true
    → ensure_ble_authorized pairing c w ≡ ok tt
unfolding ensure_ble_authorized saved_auth_matches_connection
matched_authorized pairing c w version count level status matched =
    elim (Bool-cases (is_open pairing)) [
      | inl o ↦ rw (o, ensure_ble_authorized) refl
      | inr o ↦
          rw (o, ensure_ble_authorized, level, saved_auth_matches_connection, status, matched) refl
    ]

-- The arrays of the workspace have the lengths of the source and hold bytes.
pub record IsWorkspace (w : Workspace) : Type 0 where
  pub array_len : length w.records ≡ auth_record_capacity
  pub are_records : All IsAuthRecord w.records

-- The workspace after `count` records are stored.
abbrev bonded : List BleAuthRecord → ℕ → Workspace
bonded records count = record {
  records = records;
  status = valid auth_records_version (count % 2 ^ 16);
  record_count = count;
}

module _ {S : Type 0} (F : FlashStorage S) where
  stored_upsert :
      (u : (ℕ × BleAuthRecordUpsert) × List BleAuthRecord) (index : ℕ) (w : Workspace) (s s' : S)
      → place u.0.1 ≡ some index
      → store_auth_records F auth_records_version auth_records_checksum
          (take u.0.0 u.1)
          ble_auth_workspace_len
          s
        ≡ (ok tt, s')
      → store_upserted F u w s ≡ (bonded u.1 u.0.0, s')
  unfolding store_upserted
  stored_upsert ((count, updated i), records) index w s s' p e = rw (e, store_upserted) (rw e refl)
  stored_upsert ((count, appended i), records) index w s s' p e = rw (e, store_upserted) (rw e refl)
  stored_upsert ((count, replaced_oldest i), records) index w s s' p e =
      rw (e, store_upserted) (rw e refl)
  stored_upsert ((count, no_capacity), records) index w s s' p e = ground (arith, p)

  restored_load :
      (w : Workspace) (s : S) (count : ℕ) (records : List BleAuthRecord)
      → load_auth_records F auth_records_version auth_records_checksum auth_record_capacity
          ble_auth_workspace_len s
        ≡ ok (record { status = valid auth_records_version count; record_count = count }, records)
      → count ≡ length records
      → restore_ble_auth_records F w s ≡ (
        record {
          records = filled F records;
          status = valid auth_records_version count;
          record_count = count;
        },
        records,
      )
  unfolding restore_ble_auth_records
  restored_load w s count records e k =
      rw
        (
          e,
          restore_ble_auth_records,
          take-length-append count records
              (replicate (auth_record_capacity - length records) empty_record) k,
        )
        refl

module _ {S : Type 0} (F : FlashStorage S) (IsValid : S → Type 0) (bytes : S → List ℕ)
    (nor : IsNor F IsValid bytes) where
  -- `u` is what the upsert makes of the records.
  upserted_reconnects :
      (pairing : BlePairingState) (c : Connection) (bond : BleAuthRecord) (w blank : Workspace)
      (s : S) (u : (ℕ × BleAuthRecordUpsert) × List BleAuthRecord) (index : ℕ)
      → length w.records ≡ auth_record_capacity
      → All IsAuthRecord u.1
      → place u.0.1 ≡ some index
      → Placed w.records bond index u.0.0 u.1
      → IsValid s
      → 0 < F.sector_size s
      → length (bytes s) % F.sector_size s ≡ 0
      → ble_auth_workspace_len ≤ length (bytes s)
      → is_encrypted c.security_level ≡ true
      → c.match_identity bond ≡ true
      → IsWorkspace (store_upserted F u w s).0
        × (ensure_ble_authorized pairing c (store_upserted F u w s).0 ≡ ok tt)
        × (ensure_ble_authorized pairing c
              (restore_ble_auth_records F blank (store_upserted F u w s).1).0
            ≡ ok tt)
        × (any_match c.match_identity
              (restore_ble_auth_records F blank (store_upserted F u w s).1).1
            ≡ true)
  upserted_reconnects pairing c bond w blank s u index array records p at valid_flash has_sectors
        sectors room level matches =
      let count : ℕ = u.0.0 in
      let used : List BleAuthRecord = take count u.1 in
      let long : length used ≡ count =
        omega (arith, length-take count u.1, at.within, at.same_length) in
      let small : count ≤ 10 = omega (arith, at.within, array) in
      let found : any_match c.match_identity used ≡ true =
        any_match-at c.match_identity count index u.1 at.used
          (omega (arith, at.within, at.same_length)) (rw at.at_place matches) in
      let (s', stored, loaded) =
        load-store_auth_records F IsValid bytes nor auth_records_version auth_records_checksum
          auth_record_capacity ble_auth_workspace_len used s
          (All-take IsAuthRecord count u.1 records) (omega arith) (omega (arith, at.used))
          (omega arith) (omega arith) valid_flash has_sectors sectors (omega arith) (omega arith)
          (omega arith) in
      let pad : List BleAuthRecord = replicate (auth_record_capacity - length used) empty_record in
      let restored : Workspace = record {
        records = filled F used;
        status = valid auth_records_version (length used);
        record_count = length used;
      } in
      rw
        (
          stored_upsert F u index w s s' p stored,
          restored_load F blank s' (length used) used loaded refl,
        )
        (
          record { array_len = omega (arith, at.same_length, array); are_records = records },
          matched_authorized pairing c (bonded u.1 count) auth_records_version (count % 2 ^ 16)
              level refl found,
          matched_authorized pairing c restored auth_records_version (length used) level refl
              (rw (take-length-append (length used) used pad refl) found),
          found,
        )

  -- After a bond is stored in a workspace whose array has the source's length and sound records,
  -- over a valid NOR flash of whole sectors with room for all of them, the workspace is so again,
  -- and an encrypted client that the bond names is let in, with the pairing window open or not: at
  -- once, and after a reboot, whatever the workspace was before it; and a record that names the
  -- client is given to the stack then.
  pub bond_reconnects :
      (pairing : BlePairingState) (c : Connection) (bond : BleAuthRecord) (w blank : Workspace)
      (s : S)
      → IsWorkspace w
      → IsAuthRecord bond
      → IsValid s
      → 0 < F.sector_size s
      → length (bytes s) % F.sector_size s ≡ 0
      → ble_auth_workspace_len ≤ length (bytes s)
      → is_encrypted c.security_level ≡ true
      → c.match_identity bond ≡ true
      → IsWorkspace (persist_ble_bond_information F bond w s).0
        × (ensure_ble_authorized pairing c (persist_ble_bond_information F bond w s).0 ≡ ok tt)
        × (ensure_ble_authorized pairing c
              (restore_ble_auth_records F blank (persist_ble_bond_information F bond w s).1).0
            ≡ ok tt)
        × (any_match c.match_identity
              (restore_ble_auth_records F blank (persist_ble_bond_information F bond w s).1).1
            ≡ true)
  unfolding persist_ble_bond_information upsert_auth_record
  bond_reconnects pairing c bond w blank s sound bond_sound valid_flash has_sectors sectors room
        level matches =
      let in_use : ℕ = if is_valid w.status then w.record_count else 0 in
      let active : ℕ = min in_use (length w.records) in
      let (index, at, placed) =
        upsert_places w.records in_use bond (omega (arith, sound.array_len)) in
      upserted_reconnects pairing c bond w blank s (upsert_auth_record w.records in_use bond) index
        sound.array_len
        (upsert_at-All IsAuthRecord w.records active bond
          (find_auth_record_index (take active w.records) bond) sound.are_records bond_sound)
        at placed valid_flash has_sectors sectors room level matches

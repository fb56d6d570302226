-- ===== src/Ble/Keys.antt =====
-- firmware/src/tasks/ble/auth.rs: the keys in memory and in the flash, and who may use the record
-- transfer. The BLE stack is a parameter: the security level of a connection, and whether a record
-- names the peer of the connection. Opening the region of the keys does not fail, as the layout of
-- board.rs passes its check.
pub mod Bonds
mod Tests
use sleep_environment_monito.Prelude.{
  ℕ, ◌+◌, ◌*◌, ◌-◌, ◌%◌, ◌^◌, List, [], ◌∷◌, ◌++◌, Bool, true, false, ◌&&◌, ◌||◌, Option, none,
  some, ltb, if◌then◌else◌, Result, ok, err, length, take, replicate,
}
use sleep_environment_monito.Flash.{FlashStorage}
use sleep_environment_monito.Auth.Record.{
  BleAuthRecord, BleAuthRecordStatus, BleAuthSecurityLevel, missing, valid, empty_record,
  no_encryption, encrypted, encrypted_authenticated, auth_header_len, auth_record_len,
  should_auto_open_pairing_window,
}
use sleep_environment_monito.Auth.Upsert.{BleAuthRecordUpsert, no_capacity, upsert_auth_record}
use sleep_environment_monito.Auth.Store.{load_auth_records, store_auth_records, clear_auth_records}
use sleep_environment_monito.Ble.Pairing.{BlePairingState, is_open}

abbrev pub auth_record_capacity : ℕ
auth_record_capacity = 10

abbrev pub auth_records_version : ℕ
auth_records_version = 1

abbrev pub auth_records_checksum : ℕ
auth_records_checksum = 0

abbrev pub ble_auth_workspace_len : ℕ
ble_auth_workspace_len = auth_header_len + auth_record_len * auth_record_capacity

-- `BleAuthFlashWorkspace`: an array of records, of which `record_count` are in use.
pub record Workspace : Type 0 where
  pub records : List BleAuthRecord
  pub status : BleAuthRecordStatus
  pub record_count : ℕ

abbrev pub empty_records : List BleAuthRecord
empty_records = replicate auth_record_capacity empty_record

unfoldable pub new : Workspace
new = record { records = empty_records; status = missing; record_count = 0 }

-- `matches!(status, BleAuthRecordStatus::Valid { .. })`
abbrev pub is_valid : BleAuthRecordStatus → Bool
is_valid (valid _ _) = true
is_valid _ = false

-- The error codes of the ATT protocol that the firmware answers with.
pub data AttErrorCode : Type 0 where
  insufficient_encryption insufficient_authorisation attribute_not_found : AttErrorCode
  value_not_allowed invalid_attribute_value_length : AttErrorCode
  out_of_range insufficient_resources unlikely_error : AttErrorCode

-- A connection: its security level if the stack knows it, and whether a record names its peer.
pub record Connection : Type 0 where
  pub security_level : Option BleAuthSecurityLevel
  pub match_identity : BleAuthRecord → Bool

unfoldable pub any_match : (BleAuthRecord → Bool) → List BleAuthRecord → Bool
any_match test [] = false
any_match test (r ∷ records) = test r || any_match test records

unfoldable pub saved_auth_matches_connection : Connection → Workspace → Bool
unfolding any_match
saved_auth_matches_connection connection w =
    is_valid w.status && any_match connection.match_identity (take w.record_count w.records)

abbrev pub is_encrypted : Option BleAuthSecurityLevel → Bool
is_encrypted none = false
is_encrypted (some no_encryption) = false
is_encrypted (some encrypted) = true
is_encrypted (some encrypted_authenticated) = true

unfoldable pub ensure_ble_authorized :
    BlePairingState → Connection → Workspace → Result AttErrorCode (Unit {0})
unfolding saved_auth_matches_connection
ensure_ble_authorized pairing connection w =
    if is_open pairing
    then ok tt
    else if is_encrypted connection.security_level && saved_auth_matches_connection connection w
    then ok tt
    else if is_valid w.status && ltb 0 w.record_count
    then err insufficient_encryption
    else err insufficient_authorisation

module _ {S : Type 0} (F : FlashStorage S) where
  -- The records as the array that the source fills.
  abbrev pub filled : List BleAuthRecord → List BleAuthRecord
  filled records = records ++ replicate (auth_record_capacity - length records) empty_record

  unfoldable pub clear_saved_ble_auth_records : Workspace → S → Bool × Workspace × S
  unfolding new
  clear_saved_ble_auth_records w s =
      let (cleared, s') = clear_auth_records F s in
      elim cleared [ ok _ ↦ (true, new, s') | err _ ↦ (false, w, s') ]

  -- `enabled` is `AUTO_PAIR_ON_AUTH_RECORD_RESET`, a feature of the build.
  unfoldable pub should_auto_open_pairing_window_on_boot : Bool → S → Bool
  should_auto_open_pairing_window_on_boot enabled s =
      elim (load_auth_records F auth_records_version auth_records_checksum auth_record_capacity
        ble_auth_workspace_len s) [
          | err _ ↦ false
          | ok (load, _) ↦ should_auto_open_pairing_window enabled load.status
        ]

  -- The workspace after a boot, and the records that are given to the stack.
  unfoldable pub restore_ble_auth_records : Workspace → S → Workspace × List BleAuthRecord
  restore_ble_auth_records w s =
      elim (load_auth_records F auth_records_version auth_records_checksum auth_record_capacity
        ble_auth_workspace_len s) [
          | err _ ↦ (record w { status = missing; record_count = 0 }, [])
          | ok (load, records) ↦ (
            record {
              records = filled records;
              status = load.status;
              record_count = load.record_count;
            },
            take load.record_count (filled records),
          )
        ]

  -- From the upsert on.
  unfoldable pub store_upserted :
      (ℕ × BleAuthRecordUpsert) × List BleAuthRecord → Workspace → S → Workspace × S
  store_upserted ((store_count, no_capacity), records) w s = (w, s)
  store_upserted ((store_count, _), records) w s =
      let (stored, s') =
        store_auth_records F auth_records_version auth_records_checksum (take store_count records)
          ble_auth_workspace_len s in
      elim stored [
        | err _ ↦ (w, s')
        | ok _ ↦ (
          record {
            records = records;
            status = valid auth_records_version (store_count % 2 ^ 16);
            record_count = store_count;
          },
          s',
        )
      ]

  -- The record is what `auth_record_from_bond` makes of the stack's bond.
  unfoldable pub persist_ble_bond_information : BleAuthRecord → Workspace → S → Workspace × S
  unfolding store_upserted
  persist_ble_bond_information bond w s =
      let store_count : ℕ = if is_valid w.status then w.record_count else 0 in
      store_upserted (upsert_auth_record w.records store_count bond) w s

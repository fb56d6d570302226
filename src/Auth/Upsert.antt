-- ===== src/Auth/Upsert.antt =====
-- firmware/src/storage/ble_auth/upsert.rs: putting a record into an array of `record_count` records
-- in use. The array comes back with the result.
pub mod Laws
use sleep_environment_monito.Prelude.{
  ℕ, ◌+◌, List, [], ◌∷◌, Bool, true, false, ◌&&◌, ◌||◌, Option, none, some, ◌==◌, ltb, min,
  if◌then◌else◌, length, take, set,
}
use sleep_environment_monito.Auth.Record.{BleAuthRecord}

pub data BleAuthRecordUpsert : Type 0 where
  updated appended replaced_oldest : ℕ → BleAuthRecordUpsert
  no_capacity : BleAuthRecordUpsert

unfoldable pub same_bytes : List ℕ → List ℕ → Bool
same_bytes [] [] = true
same_bytes (x ∷ xs) (y ∷ ys) = x == y && same_bytes xs ys
same_bytes _ _ = false

unfoldable pub same_keys : Option (List ℕ) → Option (List ℕ) → Bool
unfolding same_bytes
same_keys (some left) (some right) = same_bytes left right
same_keys _ _ = false

unfoldable pub auth_records_match : BleAuthRecord → BleAuthRecord → Bool
unfolding same_keys same_bytes
auth_records_match left right =
    same_bytes left.identity_address right.identity_address
    || same_keys left.identity_resolving_key right.identity_resolving_key

unfoldable pub find_auth_record_index : List BleAuthRecord → BleAuthRecord → Option ℕ
unfolding auth_records_match
find_auth_record_index [] candidate = none
find_auth_record_index (r ∷ records) candidate =
    let rest = find_auth_record_index records candidate in
    if auth_records_match r candidate
    then some 0
    else elim rest [ none ↦ none | some index ↦ some (index + 1) ]

-- `upsert_auth_record` with the index that it has found.
unfoldable pub upsert_at :
    List BleAuthRecord
    → ℕ
    → BleAuthRecord
    → Option ℕ
    → (ℕ × BleAuthRecordUpsert) × List BleAuthRecord
upsert_at records active_count candidate (some index) =
    ((active_count, updated index), set records index candidate)
upsert_at records active_count candidate none =
    if ltb active_count (length records)
    then ((active_count + 1, appended active_count), set records active_count candidate)
    else if length records == 0
    then ((0, no_capacity), records)
    else ((active_count, replaced_oldest 0), set records 0 candidate)

unfoldable pub upsert_auth_record :
    List BleAuthRecord → ℕ → BleAuthRecord → (ℕ × BleAuthRecordUpsert) × List BleAuthRecord
unfolding find_auth_record_index upsert_at
upsert_auth_record records record_count candidate =
    let active_count = min record_count (length records) in
    upsert_at records active_count candidate
      (find_auth_record_index (take active_count records) candidate)

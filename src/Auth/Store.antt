-- ===== src/Auth/Store.antt =====
-- firmware/src/storage/ble_auth/flash.rs: reading the records from the flash region and writing
-- them to it. `capacity` is the length of the array that `load_auth_records` fills, and `scratch`
-- the length of the caller's buffer; the records read are given with the result.
pub mod RoundTrip
use sleep_environment_monito.Prelude.{
  ℕ, zero, suc, ◌+◌, ◌*◌, ◌%◌, ◌^◌, List, [], ◌∷◌, ◌++◌, Bool, not, ◌||◌, Option, none, some, ◌==◌,
  ltb, min, if◌then◌else◌, Result, ok, err, length, take, drop, u16_max, usize_max, checked_add,
  checked_mul,
}
use sleep_environment_monito.Prelude.Bytes.{le_at}
use sleep_environment_monito.Flash.{FlashStorage}
use sleep_environment_monito.Spool.Crc.{crc32}
use sleep_environment_monito.Auth.Record.{
  BleAuthRecord, BleAuthRecordStatus, BleAuthStorageError, valid, record_count_too_large,
  record_region_too_large, record_set_checksum_mismatch, buffer_too_small, too_many_records,
  region_too_large, unaligned_flash, flash, auth_header_len, auth_record_len, inspect_auth_header,
  decode_auth_record, with_record_index, header_bytes, auth_record_bytes,
}

pub record BleAuthLoadResult : Type 0 where
  pub status : BleAuthRecordStatus
  pub record_count : ℕ

unfoldable pub auth_records_encoded_len : ℕ → Result BleAuthStorageError ℕ
auth_records_encoded_len count = elim (checked_mul usize_max count auth_record_len) [
  | none ↦ err region_too_large
  | some len ↦ ok len
]

-- The chunks of 64 bytes from `index` on, `count` of them.
unfoldable pub decode_chunks : ℕ → ℕ → List ℕ → Result BleAuthRecordStatus (List BleAuthRecord)
decode_chunks zero index input = ok []
decode_chunks (suc count) index input =
    let rest = decode_chunks count (index + 1) (drop auth_record_len input) in
    elim (decode_auth_record (take auth_record_len input)) [
      | err status ↦ err (with_record_index (min index u16_max) status)
      | ok r ↦ elim rest [ err status ↦ err status | ok records ↦ ok (r ∷ records) ]
    ]

abbrev pub refused : BleAuthRecordStatus → BleAuthLoadResult × List BleAuthRecord
refused status = (record { status = status; record_count = 0 }, [])

-- The records as the source lays them out in its buffer.
unfoldable pub encoded_records : List BleAuthRecord → List ℕ
encoded_records [] = []
encoded_records (r ∷ records) = auth_record_bytes r ++ encoded_records records

module _ {S : Type 0} (F : FlashStorage S) where
  -- `load_auth_records` behind the header that names `count` records.
  unfoldable pub load_records :
      ℕ
      → ℕ
      → List ℕ
      → BleAuthRecordStatus
      → ℕ
      → S
      → Result BleAuthStorageError (BleAuthLoadResult × List BleAuthRecord)
  unfolding decode_chunks auth_records_encoded_len
  load_records capacity scratch header status count s =
      if ltb capacity count
      then ok (refused (record_count_too_large count (min capacity u16_max)))
      else elim (auth_records_encoded_len count) [
        | err e ↦ err e
        | ok records_len ↦ elim (checked_add usize_max auth_header_len records_len) [
          | none ↦ err region_too_large
          | some records_end ↦
              if ltb (F.len s) records_end
              then ok (refused record_region_too_large)
              else if ltb scratch records_len
              then err buffer_too_small
              else elim (F.read s auth_header_len records_len) [
                | err e ↦ err (flash e)
                | ok encoded ↦
                    if not (le_at header 16 4 == crc32 encoded)
                    then ok
                        (refused (record_set_checksum_mismatch (le_at header 16 4) (crc32 encoded)))
                    else elim (decode_chunks count 0 encoded) [
                      | err fault ↦ ok (refused fault)
                      | ok records ↦ ok (record { status = status; record_count = count }, records)
                    ]
              ]
        ]
      ]

  -- `load_auth_records` with the status of the header that it has read.
  unfoldable pub load_inspected :
      ℕ
      → ℕ
      → List ℕ
      → BleAuthRecordStatus
      → S
      → Result BleAuthStorageError (BleAuthLoadResult × List BleAuthRecord)
  unfolding load_records
  load_inspected capacity scratch header (valid version count) s =
      load_records capacity scratch header (valid version count) count s
  load_inspected capacity scratch header status s = ok (refused status)

  unfoldable pub load_auth_records :
      ℕ → ℕ → ℕ → ℕ → S → Result BleAuthStorageError (BleAuthLoadResult × List BleAuthRecord)
  unfolding load_inspected
  load_auth_records expected_version expected_checksum capacity scratch s =
      elim (F.read s 0 auth_header_len) [
        | err e ↦ err (flash e)
        | ok header ↦
            load_inspected capacity scratch header
              (inspect_auth_header header expected_version expected_checksum) s
      ]

  unfoldable pub store_auth_records :
      ℕ → ℕ → List BleAuthRecord → ℕ → S → Result BleAuthStorageError (Unit {0}) × S
  unfolding encoded_records auth_records_encoded_len
  store_auth_records version checksum records scratch s =
      if ltb u16_max (length records)
      then (err too_many_records, s)
      else if not (F.len s % F.sector_size s == 0)
      then (err unaligned_flash, s)
      else elim (auth_records_encoded_len (length records)) [
        | err e ↦ (err e, s)
        | ok records_len ↦ elim (checked_add usize_max auth_header_len records_len) [
          | none ↦ (err region_too_large, s)
          | some used_len ↦
              if ltb (F.len s) used_len
              then (err region_too_large, s)
              else if ltb scratch used_len
              then (err buffer_too_small, s)
              else let encoded = encoded_records records in
                let image =
                  header_bytes version (length records % 2 ^ 16) (crc32 encoded) checksum
                  ++ encoded in
                let (cleared, s') = F.erase s 0 (F.len s) in
                elim cleared [
                  | err e ↦ (err (flash e), s')
                  | ok _ ↦
                      let (written, s'') = F.write s' 0 image in
                      elim written [ err e ↦ (err (flash e), s'') | ok _ ↦ (ok tt, s'') ]
                ]
        ]
      ]

  unfoldable pub clear_auth_records : S → Result BleAuthStorageError (Unit {0}) × S
  clear_auth_records s =
      let (cleared, s') = F.erase s 0 (F.len s) in
      elim cleared [ err e ↦ (err (flash e), s') | ok _ ↦ (ok tt, s') ]

-- ===== src/Auth/Record.antt =====
-- firmware/src/storage/ble_auth/types.rs, header.rs and record.rs: the header and the records as
-- bytes. The arrays of six and of sixteen bytes are lists of that length. A buffer that the source
-- fills is an argument and comes back with the length.
pub mod RoundTrip
pub mod Header
use sleep_environment_monito.Prelude.{
  ℕ, ◌+◌, ◌%◌, ◌^◌, List, [], ◌∷◌, ◌++◌, Bool, true, false, not, ◌&&◌, Option, none, some, ◌==◌,
  ltb, bit_and, bit_or, if◌then◌else◌, Result, ok, err, length, get_or, slice, take, drop,
  replicate,
}
use sleep_environment_monito.Prelude.Bytes.{to_le, le_at}
use sleep_environment_monito.Flash.{FlashError}
use sleep_environment_monito.Spool.Crc.{crc32}

abbrev pub auth_header_magic : ℕ
auth_header_magic = 0x5345_4241

abbrev pub auth_header_format_version : ℕ
auth_header_format_version = 2

abbrev pub auth_header_len : ℕ
auth_header_len = 32

abbrev pub auth_record_magic : ℕ
auth_record_magic = 0x5345_4252

abbrev pub auth_record_format_version : ℕ
auth_record_format_version = 1

abbrev pub auth_record_len : ℕ
auth_record_len = 64

-- What is wrong with a stored record.
pub data RecordFault : Type 0 where
  bad_record_magic : RecordFault
  unsupported_record_format bad_record_length : ℕ → ℕ → RecordFault
  bad_record_address_kind bad_record_security_level : ℕ → RecordFault
  record_crc_mismatch : ℕ → ℕ → RecordFault

-- The statuses of the source, with its fields in their order; those that concern one record are
-- `bad_record`, with its index.
pub data BleAuthRecordStatus : Type 0 where
  missing bad_magic no_records record_region_too_large : BleAuthRecordStatus
  unsupported_format bad_header_length checksum_mismatch : ℕ → ℕ → BleAuthRecordStatus
  records_version_mismatch compatibility_checksum_mismatch : ℕ → ℕ → BleAuthRecordStatus
  record_count_too_large record_set_checksum_mismatch : ℕ → ℕ → BleAuthRecordStatus
  bad_record : ℕ → RecordFault → BleAuthRecordStatus
  valid : ℕ → ℕ → BleAuthRecordStatus

abbrev pub requires_pairing_window : BleAuthRecordStatus → Bool
requires_pairing_window (valid _ _) = false
requires_pairing_window _ = true

abbrev pub should_auto_open_pairing_window : Bool → BleAuthRecordStatus → Bool
should_auto_open_pairing_window enabled status = enabled && requires_pairing_window status

-- `with_record_index`
abbrev pub with_record_index : ℕ → BleAuthRecordStatus → BleAuthRecordStatus
with_record_index index (bad_record _ fault) = bad_record index fault
with_record_index index status = status

pub data BleAuthStorageError : Type 0 where
  buffer_too_small too_many_records region_too_large unaligned_flash : BleAuthStorageError
  flash : FlashError → BleAuthStorageError

pub data BleAuthAddressKind : Type 0 where
  public random : BleAuthAddressKind

abbrev pub address_code : BleAuthAddressKind → ℕ
address_code public = 0
address_code random = 1

abbrev pub address_from_code : ℕ → Option BleAuthAddressKind
address_from_code code = if code == 0 then some public else if code == 1 then some random else none

pub data BleAuthSecurityLevel : Type 0 where
  no_encryption encrypted encrypted_authenticated : BleAuthSecurityLevel

abbrev pub security_code : BleAuthSecurityLevel → ℕ
security_code no_encryption = 0
security_code encrypted = 1
security_code encrypted_authenticated = 2

abbrev pub security_from_code : ℕ → Option BleAuthSecurityLevel
security_from_code code =
    if code == 0
    then some no_encryption
    else if code == 1
    then some encrypted
    else if code == 2
    then some encrypted_authenticated
    else none

pub record BleAuthRecord : Type 0 where
  pub address_kind : BleAuthAddressKind
  pub identity_address : List ℕ
  pub long_term_key : List ℕ
  pub identity_resolving_key : Option (List ℕ)
  pub security_level : BleAuthSecurityLevel
  pub bonded : Bool

abbrev pub empty_record : BleAuthRecord
empty_record = record {
  address_kind = public;
  identity_address = replicate 6 0;
  long_term_key = replicate 16 0;
  identity_resolving_key = none;
  security_level = no_encryption;
  bonded = false;
}

-- The first 28 bytes of a header.
unfoldable pub header_fields : ℕ → ℕ → ℕ → ℕ → List ℕ
header_fields records_version record_count records_checksum compatibility_checksum =
    to_le 4 auth_header_magic
    ++ (to_le 2 auth_header_format_version
        ++ (to_le 2 auth_header_len
            ++ (to_le 4 records_version
                ++ (to_le 2 record_count
                    ++ (to_le 2 0
                        ++ (to_le 4 records_checksum
                            ++ (to_le 4 compatibility_checksum ++ to_le 4 0)))))))

abbrev pub header_bytes : ℕ → ℕ → ℕ → ℕ → List ℕ
header_bytes records_version record_count records_checksum compatibility_checksum =
    let fields =
      header_fields records_version record_count records_checksum compatibility_checksum in
    fields ++ to_le 4 (crc32 fields)

pub data BleAuthHeaderError : Type 0 where
  header_buffer_too_small : BleAuthHeaderError

unfoldable pub encode_auth_header : ℕ → ℕ → ℕ → ℕ → List ℕ → Result BleAuthHeaderError (ℕ × List ℕ)
encode_auth_header records_version record_count records_checksum compatibility_checksum out =
    if ltb (length out) auth_header_len
    then err header_buffer_too_small
    else ok (
      auth_header_len,
      header_bytes records_version record_count records_checksum compatibility_checksum
          ++ drop auth_header_len out,
    )

unfoldable pub all_erased : List ℕ → Bool
all_erased [] = true
all_erased (b ∷ bs) = b == 255 && all_erased bs

unfoldable pub inspect_auth_header : List ℕ → ℕ → ℕ → BleAuthRecordStatus
unfolding all_erased
inspect_auth_header input expected_version expected_checksum =
    if ltb (length input) auth_header_len
    then bad_header_length (length input % 2 ^ 16) auth_header_len
    else if all_erased (take auth_header_len input)
    then missing
    else if not (le_at input 0 4 == auth_header_magic)
    then bad_magic
    else if not (le_at input 4 2 == auth_header_format_version)
    then unsupported_format (le_at input 4 2) auth_header_format_version
    else if not (le_at input 6 2 == auth_header_len)
    then bad_header_length (le_at input 6 2) auth_header_len
    else if not (le_at input 28 4 == crc32 (take 28 input))
    then checksum_mismatch (le_at input 28 4) (crc32 (take 28 input))
    else if not (le_at input 8 4 == expected_version)
    then records_version_mismatch (le_at input 8 4) expected_version
    else if not (le_at input 20 4 == expected_checksum)
    then compatibility_checksum_mismatch (le_at input 20 4) expected_checksum
    else if le_at input 12 2 == 0
    then no_records
    else valid (le_at input 8 4) (le_at input 12 2)

-- `bonded_flag | irk_flag`
abbrev pub flags_byte : Bool → Option (List ℕ) → ℕ
flags_byte bonded irk = bit_or (if bonded then 1 else 0) (elim irk [ none ↦ 0 | some _ ↦ 2 ])

abbrev pub irk_bytes : Option (List ℕ) → List ℕ
irk_bytes none = replicate 16 0
irk_bytes (some irk) = irk

-- The first 60 bytes of a record.
unfoldable pub record_fields : BleAuthRecord → List ℕ
record_fields r =
    to_le 4 auth_record_magic
    ++ (to_le 2 auth_record_format_version
        ++ (to_le 2 auth_record_len
            ++ (address_code r.address_kind
                ∷ security_code r.security_level
                ∷ flags_byte r.bonded r.identity_resolving_key
                ∷ 0
                ∷ (r.identity_address
                    ++ (r.long_term_key
                        ++ (irk_bytes r.identity_resolving_key ++ replicate 10 0))))))

abbrev pub auth_record_bytes : BleAuthRecord → List ℕ
auth_record_bytes r = record_fields r ++ to_le 4 (crc32 (record_fields r))

unfoldable pub encode_auth_record : BleAuthRecord → List ℕ → Result BleAuthStorageError (ℕ × List ℕ)
encode_auth_record r out =
    if ltb (length out) auth_record_len
    then err buffer_too_small
    else ok (auth_record_len, auth_record_bytes r ++ drop auth_record_len out)

-- The faults of a record that `decode_auth_record` names are those of the index 0.
unfoldable pub decode_auth_record : List ℕ → Result BleAuthRecordStatus BleAuthRecord
decode_auth_record input =
    if ltb (length input) auth_record_len
    then err (bad_record 0 (bad_record_length (length input % 2 ^ 16) auth_record_len))
    else if not (le_at input 60 4 == crc32 (take 60 input))
    then err (bad_record 0 (record_crc_mismatch (le_at input 60 4) (crc32 (take 60 input))))
    else if not (le_at input 0 4 == auth_record_magic)
    then err (bad_record 0 bad_record_magic)
    else if not (le_at input 4 2 == auth_record_format_version)
    then err (bad_record 0 (unsupported_record_format (le_at input 4 2) auth_record_format_version))
    else if not (le_at input 6 2 == auth_record_len)
    then err (bad_record 0 (bad_record_length (le_at input 6 2) auth_record_len))
    else elim (address_from_code (get_or input 8 0)) [
      | none ↦ err (bad_record 0 (bad_record_address_kind (get_or input 8 0)))
      | some address_kind ↦ elim (security_from_code (get_or input 9 0)) [
        | none ↦ err (bad_record 0 (bad_record_security_level (get_or input 9 0)))
        | some security_level ↦
            let flags = get_or input 10 0 in
            ok (record {
              address_kind = address_kind;
              identity_address = slice input 12 6;
              long_term_key = slice input 18 16;
              identity_resolving_key =
                  if not (bit_and flags 2 == 0) then some (slice input 34 16) else none;
              security_level = security_level;
              bonded = not (bit_and flags 1 == 0);
            })
      ]
    ]

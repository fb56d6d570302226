-- ===== src/Spool/Codec.antt =====
-- firmware/src/storage/spool/codec.rs, and the constants and records of spool/memory.rs that it
-- uses. A buffer that the source fills is an argument and comes back with the length.
pub mod RoundTrip
pub mod Acks
pub mod Lengths
use sleep_environment_monito.Prelude.{
  ℕ, ◌+◌, ◌-◌, ◌%◌, ◌≡◌, List, [], ◌∷◌, ◌++◌, Bool, not, ◌||◌, Option, none, some, ◌==◌, ltb, leb,
  if◌then◌else◌, Result, ok, err, ◌>>=◌, length, get_or, slice, take, drop, replicate, usize_max,
  u16_max, checked_add,
}
use sleep_environment_monito.Prelude.Bytes.{to_le, le_at}
use sleep_environment_monito.Flash.{FlashError}
use sleep_environment_monito.Spool.Crc.{crc32}

abbrev pub record_magic : ℕ
record_magic = 0x5345_4d53

abbrev pub ack_magic : ℕ
ack_magic = 0x5345_414b

abbrev pub record_version : ℕ
record_version = 1

abbrev pub record_header_len : ℕ
record_header_len = 22

abbrev pub ack_record_len : ℕ
ack_record_len = 14

abbrev pub flash_write_alignment : ℕ
flash_write_alignment = 4

abbrev pub flash_entry_buffer_len : ℕ
flash_entry_buffer_len = 512

abbrev pub max_payload_len : ℕ
max_payload_len = u16_max

abbrev pub align_up : ℕ → ℕ → ℕ
align_up value alignment =
    if alignment == 0
    then value
    else let remainder = value % alignment in
      if remainder == 0 then value else value + (alignment - remainder)

abbrev pub encoded_record_header_len : ℕ
encoded_record_header_len = align_up record_header_len flash_write_alignment

abbrev pub encoded_ack_len : ℕ
encoded_ack_len = align_up ack_record_len flash_write_alignment

pub data SpoolError : Type 0 where
  buffer_too_small payload_too_large bad_magic unsupported_version : SpoolError
  bad_header_length bad_payload_length bad_crc flash_full : SpoolError
  flash : FlashError → SpoolError

pub record SpoolRecord : Type 0 where
  pub sequence : ℕ
  pub flags : ℕ
  pub payload : List ℕ

-- `AckRecord` holds nothing else.
pub record AckRecord : Type 0 where
  pub sequence : ℕ

unfoldable pub encoded_record_len : ℕ → Result SpoolError ℕ
encoded_record_len payload_len =
    if ltb max_payload_len payload_len
    then err payload_too_large
    else elim (checked_add usize_max record_header_len payload_len) [
      | none ↦ err payload_too_large
      | some len ↦ ok (align_up len flash_write_alignment)
    ]

unfoldable pub encoded_log_entry_len : List ℕ → Result SpoolError ℕ
encoded_log_entry_len input =
    if ltb (length input) 4
    then err buffer_too_small
    else let magic = le_at input 0 4 in
      if magic == record_magic
      then (if ltb (length input) record_header_len
          then err buffer_too_small
          else encoded_record_len (le_at input 16 2))
      else if magic == ack_magic
      then ok encoded_ack_len
      else err bad_magic

-- The fields that the source copies to `out[0..22]`, in their order.
unfoldable pub record_header : SpoolRecord → List ℕ
record_header r =
    to_le 4 record_magic
    ++ (record_version
        ∷ r.flags
        ∷ (to_le 2 record_header_len
            ++ (to_le 8 r.sequence ++ (to_le 2 (length r.payload) ++ to_le 4 (crc32 r.payload)))))

unfoldable pub encode_record : SpoolRecord → List ℕ → Result SpoolError (ℕ × List ℕ)
encode_record r out =
    if ltb max_payload_len (length r.payload)
    then err payload_too_large
    else encoded_record_len (length r.payload) >>= λ len.
        if ltb (length out) len
        then err buffer_too_small
        else let payload_end = record_header_len + length r.payload in
          ok (
            len,
            record_header r ++ (r.payload ++ (replicate (len - payload_end) 255 ++ drop len out)),
          )

unfoldable pub decode_record : List ℕ → Result SpoolError SpoolRecord
decode_record input =
    if ltb (length input) record_header_len
    then err buffer_too_small
    else if not (le_at input 0 4 == record_magic)
    then err bad_magic
    else if not (get_or input 4 0 == record_version)
    then err unsupported_version
    else if not (le_at input 6 2 == record_header_len)
    then err bad_header_length
    else let payload_len = le_at input 16 2 in
      let end = record_header_len + payload_len in
      if ltb usize_max end || ltb (length input) end
      then err bad_payload_length
      else let payload = slice input record_header_len payload_len in
        if not (crc32 payload == le_at input 18 4)
        then err bad_crc
        else ok (record { sequence = le_at input 8 8; flags = get_or input 5 0; payload = payload })

-- The fields that the source copies to `out[0..14]`.
unfoldable pub ack_header : ℕ → List ℕ
ack_header sequence = to_le 4 ack_magic ++ (record_version ∷ 0 ∷ to_le 8 sequence)

unfoldable pub encode_ack : ℕ → List ℕ → Result SpoolError (ℕ × List ℕ)
encode_ack sequence out =
    let len = encoded_ack_len in
    if ltb (length out) len
    then err buffer_too_small
    else ok (len, ack_header sequence ++ (replicate (len - ack_record_len) 255 ++ drop len out))

unfoldable pub decode_ack : List ℕ → Result SpoolError AckRecord
decode_ack input =
    if ltb (length input) ack_record_len
    then err buffer_too_small
    else if not (le_at input 0 4 == ack_magic)
    then err bad_magic
    else if not (get_or input 4 0 == record_version)
    then err unsupported_version
    else ok (record { sequence = le_at input 6 8 })

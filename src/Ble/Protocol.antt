-- ===== src/Ble/Protocol.antt =====
-- firmware/src/tasks/ble/protocol.rs: the metadata, fragments and control frames of the transfer
-- protocol. A buffer that the source fills is an argument and comes back with the length.
pub mod RoundTrip
use sleep_environment_monito.Prelude.{
  ℕ, ◌+◌, ◌%◌, ◌^◌, List, [], ◌∷◌, ◌++◌, Bool, true, false, not, Option, none, some, ◌==◌, ltb,
  if◌then◌else◌, Result, ok, err, length, get_or, drop, checked_add, usize_max, u16_max,
}
use sleep_environment_monito.Prelude.Bytes.{to_le, le_at}

pub data BleProtocolError : Type 0 where
  buffer_too_small fragment_too_large fragment_out_of_bounds bad_length : BleProtocolError
  unsupported_version unknown_opcode : BleProtocolError

abbrev pub protocol_version : ℕ
protocol_version = 1

abbrev pub max_fragment_payload_len : ℕ
max_fragment_payload_len = 128

pub record RecordMetadata : Type 0 where
  pub sequence : ℕ
  pub payload_len : ℕ
  pub payload_flags : ℕ
  pub payload_crc32 : ℕ
  pub current_boot : Bool

abbrev pub bool_byte : Bool → ℕ
bool_byte true = 1
bool_byte false = 0

unfoldable pub metadata_bytes : RecordMetadata → List ℕ
metadata_bytes m =
    protocol_version
    ∷ (to_le 8 m.sequence
        ++ (to_le 2 m.payload_len
            ++ (m.payload_flags ∷ (to_le 4 m.payload_crc32 ++ (bool_byte m.current_boot ∷ [])))))

unfoldable pub encode_metadata : RecordMetadata → List ℕ → Result BleProtocolError (ℕ × List ℕ)
encode_metadata m out =
    if ltb (length out) 17 then err buffer_too_small else ok (17, metadata_bytes m ++ drop 17 out)

pub record RecordFragment : Type 0 where
  pub sequence : ℕ
  pub offset : ℕ
  pub total_len : ℕ
  pub payload : List ℕ

unfoldable pub new_fragment : ℕ → ℕ → ℕ → List ℕ → Result BleProtocolError RecordFragment
new_fragment sequence offset total_len payload =
    if ltb max_fragment_payload_len (length payload)
    then err fragment_too_large
    else if ltb u16_max (length payload)
    then err fragment_too_large
    else if ltb total_len (offset + length payload)
    then err fragment_out_of_bounds
    else ok
        (record { sequence = sequence; offset = offset; total_len = total_len; payload = payload })

unfoldable pub encode_fragment : RecordFragment → List ℕ → Result BleProtocolError (ℕ × List ℕ)
encode_fragment f out = elim (checked_add usize_max 13 (length f.payload)) [
  | none ↦ err fragment_too_large
  | some encoded_len ↦
      if ltb (length out) encoded_len
      then err buffer_too_small
      else ok (
        encoded_len,
        protocol_version
            ∷ (to_le 8 f.sequence
                ++ (to_le 2 f.offset
                    ++ (to_le 2 (length f.payload % 2 ^ 16)
                        ++ (f.payload ++ drop encoded_len out)))),
      )
]

pub data ControlOpcode : Type 0 where
  request_metadata request_fragment complete_record ack_record : ControlOpcode

abbrev pub opcode_byte : ControlOpcode → ℕ
opcode_byte request_metadata = 1
opcode_byte request_fragment = 2
opcode_byte complete_record = 3
opcode_byte ack_record = 4

pub record ControlFrame : Type 0 where
  pub opcode : ControlOpcode
  pub sequence : ℕ
  pub offset : ℕ
  pub length : ℕ

abbrev pub frame_len : ℕ
frame_len = 14

unfoldable pub frame_bytes : ControlFrame → List ℕ
frame_bytes f =
    protocol_version
    ∷ opcode_byte f.opcode
    ∷ (to_le 8 f.sequence ++ (to_le 2 f.offset ++ to_le 2 f.length))

unfoldable pub encode : ControlFrame → List ℕ → Result BleProtocolError (ℕ × List ℕ)
unfolding frame_bytes
encode f out =
    if ltb (length out) frame_len
    then err buffer_too_small
    else ok (frame_len, frame_bytes f ++ drop frame_len out)

abbrev pub opcode_of : ℕ → Option ControlOpcode
opcode_of byte =
    if byte == 1
    then some request_metadata
    else if byte == 2
    then some request_fragment
    else if byte == 3
    then some complete_record
    else if byte == 4
    then some ack_record
    else none

unfoldable pub decode : List ℕ → Result BleProtocolError ControlFrame
decode input =
    if not (length input == frame_len)
    then err bad_length
    else if not (get_or input 0 0 == protocol_version)
    then err unsupported_version
    else elim (opcode_of (get_or input 1 0)) [
      | none ↦ err unknown_opcode
      | some opcode ↦ ok (record {
        opcode = opcode;
        sequence = le_at input 2 8;
        offset = le_at input 10 2;
        length = le_at input 12 2;
      })
    ]

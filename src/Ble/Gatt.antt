-- ===== src/Ble/Gatt.antt =====
-- firmware/src/tasks/ble/gatt.rs and storage_bridge.rs: what the device does on a read or a write of
-- a client. An event is a step of the transfer and of the values in the attribute table; the GATT
-- server of the stack is a parameter: whether it takes a value. The answers of the storage task and
-- the rest of what the event meets are in `Env`.
pub mod Guard
pub mod Runs
pub mod Quiet
pub mod Asked
pub mod Acks
mod Tests
use sleep_environment_monito.Prelude.{
  ℕ, ◌+◌, ◌-◌, List, [], ◌∷◌, ◌++◌, Bool, true, false, Option, none, some, ◌==◌, if◌then◌else◌,
  Result, ok, err, map_err, ◌>>=◌, length, take, replicate,
}
use sleep_environment_monito.Types.{NetworkState, UploadResult}
use sleep_environment_monito.Storage.Backlog.{StoredPayload}
use sleep_environment_monito.Storage.Protocol.{StorageResponse, peeked, acked, error}
use sleep_environment_monito.Ble.Protocol.{
  BleProtocolError, buffer_too_small, fragment_too_large, bad_length, unsupported_version,
  unknown_opcode, RecordMetadata, RecordFragment, ControlFrame, ControlOpcode, request_metadata,
  request_fragment, ack_record, max_fragment_payload_len, encode_metadata, encode_fragment, decode,
}
use sleep_environment_monito.Ble.Protocol
use sleep_environment_monito.Ble.Transfer.{
  BleTransferError, payload_too_large, no_active_record, sequence_mismatch, unexpected_opcode,
  invalid_fragment_length, fragment_out_of_order, transfer_incomplete, BleTransferState, idle,
  BleAckAction, suppress, send_storage_ack, metadata_from_payload, start_record,
  fragment_for_request, ack_action,
}
use sleep_environment_monito.Ble.Transfer
use sleep_environment_monito.Ble.Pairing.{BlePairingState}
use sleep_environment_monito.Ble.Keys.{
  Workspace, Connection, AttErrorCode, attribute_not_found, value_not_allowed,
  invalid_attribute_value_length, out_of_range, insufficient_resources, unlikely_error,
  ensure_ble_authorized,
}

-- `RecordFragment::HEADER_LEN + MAX_FRAGMENT_PAYLOAD_LEN`
abbrev pub fragment_value_len : ℕ
fragment_value_len = 13 + max_fragment_payload_len

abbrev pub metadata_value_len : ℕ
metadata_value_len = 17

unfoldable pub att_error_from_protocol : BleProtocolError → AttErrorCode
att_error_from_protocol buffer_too_small = insufficient_resources
att_error_from_protocol fragment_too_large = invalid_attribute_value_length
att_error_from_protocol Protocol.fragment_out_of_bounds = out_of_range
att_error_from_protocol bad_length = invalid_attribute_value_length
att_error_from_protocol unsupported_version = value_not_allowed
att_error_from_protocol unknown_opcode = value_not_allowed

unfoldable pub att_error_from_transfer : BleTransferError → AttErrorCode
att_error_from_transfer payload_too_large = insufficient_resources
att_error_from_transfer no_active_record = value_not_allowed
att_error_from_transfer sequence_mismatch = value_not_allowed
att_error_from_transfer unexpected_opcode = value_not_allowed
att_error_from_transfer invalid_fragment_length = invalid_attribute_value_length
att_error_from_transfer Transfer.fragment_out_of_bounds = out_of_range
att_error_from_transfer fragment_out_of_order = value_not_allowed
att_error_from_transfer transfer_incomplete = value_not_allowed

-- `BleRecordTransferRuntime`
pub record RecordTransfer : Type 0 where
  pub payload : Option StoredPayload
  pub session : BleTransferState
  pub last_fragment : List ℕ
  pub last_fragment_len : ℕ

abbrev pub no_fragment : List ℕ
no_fragment = replicate fragment_value_len 0

unfoldable pub new : RecordTransfer
new = record { payload = none; session = idle; last_fragment = no_fragment; last_fragment_len = 0 }

unfoldable pub reset_after_disconnect : RecordTransfer → RecordTransfer
reset_after_disconnect t = record {
  payload = none;
  session = Transfer.reset_after_disconnect t.session;
  last_fragment = no_fragment;
  last_fragment_len = 0;
}

-- The values of the two characteristics that the events set.
pub record Values : Type 0 where
  pub metadata : List ℕ
  pub fragment : List ℕ

pub record Env : Type 0 where
  pub pairing : BlePairingState
  pub connection : Connection
  pub workspace : Workspace
  pub server_sets : Bool
  pub peek : StorageResponse
  pub ack : StorageResponse
  pub network_state : NetworkState
  pub upload_result : UploadResult

-- The answer to the client, the state after the event, whether the storage task was asked for a
-- record, and the sequence that was sent to it to be acknowledged.
pub record Done : Type 0 where
  pub reply : Result AttErrorCode (Unit {0})
  pub transfer : RecordTransfer
  pub values : Values
  pub asked : Bool
  pub acknowledged : Option ℕ

abbrev pub done : Result AttErrorCode (Unit {0}) → RecordTransfer → Values → Done
done reply t v = record {
  reply = reply;
  transfer = t;
  values = v;
  asked = false;
  acknowledged = none;
}

unfoldable pub peek_ble_payload : StorageResponse → Option StoredPayload
peek_ble_payload (peeked payload) = payload
peek_ble_payload (acked _) = none
peek_ble_payload (error _) = none

unfoldable pub acknowledge_ble_payload : StorageResponse → Result AttErrorCode Bool
acknowledge_ble_payload (acked b) = ok b
acknowledge_ble_payload (peeked _) = err unlikely_error
acknowledge_ble_payload (error _) = err unlikely_error

-- `handles.….set(…)`
abbrev pub set_result : Env → Result AttErrorCode (Unit {0})
set_result env = if env.server_sets then ok tt else err unlikely_error

unfoldable pub set_metadata_value :
    Env → RecordMetadata → Values → Result AttErrorCode (Unit {0}) × Values
unfolding att_error_from_protocol
set_metadata_value env metadata v =
    elim (encode_metadata metadata (replicate metadata_value_len 0)) [
      | err e ↦ (err (att_error_from_protocol e), v)
      | ok (_, encoded) ↦
          (set_result env, if env.server_sets then record v { metadata = encoded } else v)
    ]

-- From the answer of `start_record` on.
unfoldable pub metadata_started :
    Env
    → StoredPayload
    → RecordTransfer
    → Values
    → Result BleTransferError RecordMetadata × BleTransferState
    → Done
unfolding att_error_from_transfer set_metadata_value
metadata_started env payload t v (err e, session) =
    done (err (att_error_from_transfer e)) (record t { session = session }) v
metadata_started env payload t v (ok metadata, session) =
    let (result, v') = set_metadata_value env metadata v in
    elim result [
      | err e ↦ done (err e) (record t { session = session }) v'
      | ok _ ↦
          done (ok tt)
            (record {
              payload = some payload;
              session = session;
              last_fragment = no_fragment;
              last_fragment_len = 0;
            })
            v'
    ]

unfoldable pub start_metadata_request : Env → RecordTransfer → Values → Done
unfolding peek_ble_payload metadata_started reset_after_disconnect
start_metadata_request env t v = elim (peek_ble_payload env.peek) [
  | none ↦ record (done (err attribute_not_found) (reset_after_disconnect t) v) { asked = true }
  | some payload ↦ record (metadata_started env payload t v (start_record payload t.session)) {
    asked = true;
  }
]

unfoldable pub prepare_metadata_read : Env → RecordTransfer → Values → Done
unfolding start_metadata_request set_metadata_value att_error_from_transfer
prepare_metadata_read env t v =
    elim (ensure_ble_authorized env.pairing env.connection env.workspace) [
      | err e ↦ done (err e) t v
      | ok _ ↦ elim t.payload [
        | none ↦ start_metadata_request env t v
        | some payload ↦ elim (metadata_from_payload payload) [
          | err e ↦ done (err (att_error_from_transfer e)) t v
          | ok metadata ↦ let (result, v') = set_metadata_value env metadata v in done result t v'
        ]
      ]
    ]

unfoldable pub prepare_fragment_read : Env → RecordTransfer → Values → Done
prepare_fragment_read env t v =
    elim (ensure_ble_authorized env.pairing env.connection env.workspace) [
      | err e ↦ done (err e) t v
      | ok _ ↦
          if t.last_fragment_len == 0
          then done (err value_not_allowed) t v
          else done (set_result env) t
              (if env.server_sets then record v { fragment = t.last_fragment } else v)
    ]

-- From the answer of `fragment_for_request` on. The session keeps what it has marked.
unfoldable pub fragment_prepared :
    Env → RecordTransfer → Values → Result BleTransferError RecordFragment × BleTransferState → Done
unfolding att_error_from_transfer att_error_from_protocol
fragment_prepared env t v (err e, session) =
    done (err (att_error_from_transfer e)) (record t { session = session }) v
fragment_prepared env t v (ok fragment, session) = elim (encode_fragment fragment no_fragment) [
  | err e ↦ done (err (att_error_from_protocol e)) (record t { session = session }) v
  | ok (encoded_len, encoded) ↦
      let last : List ℕ =
        take encoded_len encoded ++ replicate (fragment_value_len - encoded_len) 0 in
      done (set_result env)
        (record t { session = session; last_fragment = last; last_fragment_len = encoded_len })
        (if env.server_sets then record v { fragment = last } else v)
]

unfoldable pub prepare_fragment_request : Env → ControlFrame → RecordTransfer → Values → Done
unfolding fragment_prepared
prepare_fragment_request env request t v = elim t.payload [
  | none ↦ done (err value_not_allowed) t v
  | some payload ↦ fragment_prepared env t v (fragment_for_request payload request t.session)
]

unfoldable pub complete_record_request : ControlFrame → RecordTransfer → Values → Done
unfolding att_error_from_transfer
complete_record_request request t v = elim t.payload [
  | none ↦ done (err value_not_allowed) t v
  | some payload ↦
      let (result, session) = Transfer.complete_record payload request t.session in
      done (map_err att_error_from_transfer result) (record t { session = session }) v
]

-- The two actions, with the session after `ack_action`.
unfoldable pub acted :
    Env → RecordTransfer → Values → Result BleTransferError BleAckAction × BleTransferState → Done
unfolding att_error_from_transfer acknowledge_ble_payload
acted env t v (err e, session) =
    done (err (att_error_from_transfer e)) (record t { session = session }) v
acted env t v (ok suppress, session) = done (ok tt) (record t { session = session }) v
acted env t v (ok (send_storage_ack sequence), session) = record {
  reply = acknowledge_ble_payload env.ack >>= λ _. ok tt;
  transfer = record t { session = session };
  values = v;
  asked = false;
  acknowledged = some sequence;
}

unfoldable pub ack_record_request : Env → ControlFrame → RecordTransfer → Values → Done
unfolding acted
ack_record_request env request t v = elim t.payload [
  | none ↦ done (err value_not_allowed) t v
  | some payload ↦
      acted env t v (ack_action payload request env.network_state env.upload_result t.session)
]

-- The `match` on the opcode.
unfoldable pub dispatch : Env → ControlFrame → RecordTransfer → Values → Done
unfolding start_metadata_request prepare_fragment_request complete_record_request ack_record_request
dispatch env request t v = elim request.opcode [
  | request_metadata ↦ start_metadata_request env t v
  | request_fragment ↦ prepare_fragment_request env request t v
  | Protocol.complete_record ↦ complete_record_request request t v
  | ack_record ↦ ack_record_request env request t v
]

unfoldable pub handle_control_write : Env → List ℕ → RecordTransfer → Values → Done
unfolding dispatch att_error_from_protocol
handle_control_write env bytes t v =
    elim (ensure_ble_authorized env.pairing env.connection env.workspace) [
      | err e ↦ done (err e) t v
      | ok _ ↦ elim (decode bytes) [
        | err e ↦ done (err (att_error_from_protocol e)) t v
        | ok request ↦ dispatch env request t v
      ]
    ]

-- The reads and writes of a client, by the characteristic they name. A read of the status sets a
-- value of its own, and any other event is accepted.
pub data GattEvent : Type 0 where
  read_metadata read_fragment read_status other_event : GattEvent
  write_control : List ℕ → GattEvent

unfoldable pub handle_gatt_event : Env → GattEvent → RecordTransfer → Values → Done
unfolding prepare_metadata_read prepare_fragment_read handle_control_write
handle_gatt_event env read_metadata t v = prepare_metadata_read env t v
handle_gatt_event env read_fragment t v = prepare_fragment_read env t v
handle_gatt_event env read_status t v = done (ok tt) t v
handle_gatt_event env other_event t v = done (ok tt) t v
handle_gatt_event env (write_control bytes) t v = handle_control_write env bytes t v

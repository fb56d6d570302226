-- ===== src/Ble/Transfer.antt =====
-- firmware/src/tasks/ble/transfer.rs: `BleTransferSession`, the transfer of the oldest record to a
-- client in fragments, and the acknowledgement that frees it. A method that takes `&mut self`
-- gives its result and the session after the call.
pub mod Delivery
pub mod Once
pub mod Reassembly
use sleep_environment_monito.Prelude.{
  ℕ, ◌+◌, ◌-◌, ◌%◌, ◌^◌, List, Bool, true, false, not, ◌&&◌, ◌||◌, Option, none, some, ◌==◌, ltb,
  min, max, if◌then◌else◌, Result, ok, err, map_err, slice, u16_max, saturating_add,
}
use sleep_environment_monito.Types.{
  NetworkState, disconnected, connecting, connected, ip_ready, UploadResult, success,
}
use sleep_environment_monito.Spool.Crc.{crc32}
use sleep_environment_monito.Storage.Backlog.{StoredPayload, as_slice}
use sleep_environment_monito.Ble.Protocol.{
  BleProtocolError, buffer_too_small, fragment_too_large, bad_length, unsupported_version,
  unknown_opcode, RecordMetadata, RecordFragment, new_fragment, ControlOpcode, ControlFrame,
  request_metadata, request_fragment, ack_record, max_fragment_payload_len,
}
use sleep_environment_monito.Ble.Protocol

pub data BleTransferError : Type 0 where
  payload_too_large no_active_record sequence_mismatch unexpected_opcode : BleTransferError
  invalid_fragment_length fragment_out_of_bounds fragment_out_of_order : BleTransferError
  transfer_incomplete : BleTransferError

-- The fields of the source's `BleTransferState::Active`.
pub record Active : Type 0 where
  pub sequence : ℕ
  pub total_len : ℕ
  pub delivered_until : ℕ
  pub complete : Bool
  pub ack_sent : Bool

pub data BleTransferState : Type 0 where
  idle : BleTransferState
  active : Active → BleTransferState

pub data BleAckAction : Type 0 where
  suppress : BleAckAction
  send_storage_ack : ℕ → BleAckAction

pub data BleAckPolicy : Type 0 where
  copy_only can_ack_oldest_record : BleAckPolicy

abbrev pub same_opcode : ControlOpcode → ControlOpcode → Bool
same_opcode a b = Protocol.opcode_byte a == Protocol.opcode_byte b

-- `RecordMetadata::from_payload`
unfoldable pub metadata_from_payload : StoredPayload → Result BleTransferError RecordMetadata
metadata_from_payload p =
    if ltb u16_max p.payload_len
    then err payload_too_large
    else ok (record {
      sequence = p.sequence;
      payload_len = p.payload_len;
      payload_flags = p.payload_flags;
      payload_crc32 = crc32 (as_slice p);
      current_boot = p.current_boot;
    })

abbrev pub transfer_error_from_protocol : BleProtocolError → BleTransferError
transfer_error_from_protocol BleProtocolError.fragment_out_of_bounds = fragment_out_of_bounds
transfer_error_from_protocol _ = invalid_fragment_length

abbrev pub ack_policy : NetworkState → UploadResult → BleAckPolicy
ack_policy connected success = copy_only
ack_policy ip_ready success = copy_only
ack_policy _ _ = can_ack_oldest_record

abbrev pub is_copy_only : BleAckPolicy → Bool
is_copy_only copy_only = true
is_copy_only can_ack_oldest_record = false

-- `new` and `reset_after_disconnect`
abbrev pub reset_after_disconnect : BleTransferState → BleTransferState
reset_after_disconnect s = idle

-- `start_record` from its metadata on.
abbrev pub started :
    BleTransferState
    → Result BleTransferError RecordMetadata
    → Result BleTransferError RecordMetadata × BleTransferState
started s (err e) = (err e, s)
started s (ok m) = (
  ok m,
  active (record {
    sequence = m.sequence;
    total_len = m.payload_len;
    delivered_until = 0;
    complete = m.payload_len == 0;
    ack_sent = false;
  }),
)

unfoldable pub start_record :
    StoredPayload → BleTransferState → Result BleTransferError RecordMetadata × BleTransferState
unfolding metadata_from_payload
start_record p s = started s (metadata_from_payload p)

-- `mark_delivered`
abbrev pub mark_delivered : ℕ → Active → Active
mark_delivered delivered a = record a { delivered_until = max a.delivered_until delivered }

abbrev pub sequences_match : StoredPayload → ControlFrame → Active → Bool
sequences_match p request a = request.sequence == a.sequence && p.sequence == a.sequence

abbrev pub fragment_len : StoredPayload → ControlFrame → ℕ
fragment_len p request =
    min (min (p.payload_len - request.offset) request.length) max_fragment_payload_len

-- `fragment_for_request` from where the active record is known on.
unfoldable pub fragment_of_active :
    StoredPayload
    → ControlFrame
    → Active
    → Result BleTransferError RecordFragment × BleTransferState
fragment_of_active p request a =
    let n = fragment_len p request in
    if not (sequences_match p request a)
    then (err sequence_mismatch, active a)
    else if ltb p.payload_len request.offset || ltb a.total_len request.offset
    then (err fragment_out_of_bounds, active a)
    else if ltb a.delivered_until request.offset
    then (err fragment_out_of_order, active a)
    else if n == 0 && not (request.offset == p.payload_len)
    then (err invalid_fragment_length, active a)
    else elim (new_fragment a.sequence request.offset a.total_len
        (slice (as_slice p) request.offset n)) [
          | err e ↦ (err (transfer_error_from_protocol e), active a)
          | ok fragment ↦ (
            ok fragment,
            active (mark_delivered (saturating_add u16_max request.offset (n % 2 ^ 16)) a),
          )
        ]

unfoldable pub fragment_for_request :
    StoredPayload
    → ControlFrame
    → BleTransferState
    → Result BleTransferError RecordFragment × BleTransferState
unfolding fragment_of_active
fragment_for_request p request s =
    if not (same_opcode request.opcode request_fragment)
    then (err unexpected_opcode, s)
    else if request.length == 0
    then (err invalid_fragment_length, s)
    else elim s [ idle ↦ (err no_active_record, idle) | active a ↦ fragment_of_active p request a ]

unfoldable pub complete_record :
    StoredPayload
    → ControlFrame
    → BleTransferState
    → Result BleTransferError (Unit {0}) × BleTransferState
complete_record p request s =
    if not (same_opcode request.opcode Protocol.complete_record)
    then (err unexpected_opcode, s)
    else elim s [
      | idle ↦ (err no_active_record, idle)
      | active a ↦
          if not (sequences_match p request a)
          then (err sequence_mismatch, active a)
          else if ltb a.delivered_until a.total_len || not (p.payload_len == a.total_len)
          then (err transfer_incomplete, active a)
          else (ok tt, active (record a { complete = true }))
    ]

unfoldable pub ack_action :
    StoredPayload
    → ControlFrame
    → NetworkState
    → UploadResult
    → BleTransferState
    → Result BleTransferError BleAckAction × BleTransferState
ack_action p request network_state upload_result s =
    if not (same_opcode request.opcode ack_record) then (err unexpected_opcode, s) else elim s [
      | idle ↦ (err no_active_record, idle)
      | active a ↦
          if not (sequences_match p request a)
          then (err sequence_mismatch, active a)
          else if not a.complete
          then (err transfer_incomplete, active a)
          else if is_copy_only (ack_policy network_state upload_result) || a.ack_sent
          then (ok suppress, active a)
          else (ok (send_storage_ack a.sequence), active (record a { ack_sent = true }))
    ]

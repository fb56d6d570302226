-- ===== src/Ble/Status.antt =====
-- firmware/src/tasks/ble/status.rs: the status frame that a client reads.
pub mod RoundTrip
mod Tests
use sleep_environment_monito.Prelude.{
  ℕ, List, [], ◌∷◌, ◌++◌, ltb, if◌then◌else◌, Result, ok, err, length, drop, u32_max,
}
use sleep_environment_monito.Prelude.Bytes.{to_le}
use sleep_environment_monito.Types.{
  NetworkState, disconnected, connecting, connected, ip_ready, UploadResult, idle, success, failed,
  discovery_failed, time_failed, transport_failed, http_failed,
}
use sleep_environment_monito.Types.ErrorFlags.{Flags}
use sleep_environment_monito.Types.Snapshot.{NetworkUploadStatus, FirmwareStatusSnapshot}
use sleep_environment_monito.Ble.Protocol.{BleProtocolError, buffer_too_small, protocol_version}
use sleep_environment_monito.Ble.Pairing.{
  BootButtonState, pressed, released, BlePairingState, closed, opened,
}

pub data BleRuntimeState : Type 0 where
  disabled controller_ready host_pending advertising client_connected error : BleRuntimeState

-- `self.runtime_state as u8`
unfoldable pub runtime_state_code : BleRuntimeState → ℕ
runtime_state_code disabled = 0
runtime_state_code controller_ready = 1
runtime_state_code host_pending = 2
runtime_state_code advertising = 3
runtime_state_code client_connected = 4
runtime_state_code error = 5

pub record BleStatus : Type 0 where
  pub runtime_state : BleRuntimeState
  pub network_state : NetworkState
  pub upload_result : UploadResult
  pub pending_record_count : ℕ
  pub error_flags : Flags
  pub boot_button_state : BootButtonState
  pub pairing_state : BlePairingState
  pub boot_pressed_millis : ℕ

abbrev pub encoded_len : ℕ
encoded_len = 20

unfoldable pub new : BleRuntimeState → NetworkState → UploadResult → ℕ → Flags → BleStatus
new runtime_state network_state upload_result pending_record_count error_flags = record {
  runtime_state = runtime_state;
  network_state = network_state;
  upload_result = upload_result;
  pending_record_count = pending_record_count;
  error_flags = error_flags;
  boot_button_state = released;
  pairing_state = closed;
  boot_pressed_millis = 0;
}

unfoldable pub with_pairing : BleStatus → BootButtonState → BlePairingState → ℕ → BleStatus
with_pairing self boot_button_state pairing_state boot_pressed_millis = record self {
  boot_button_state = boot_button_state;
  pairing_state = pairing_state;
  boot_pressed_millis = boot_pressed_millis;
}

unfoldable pub network_state_code : NetworkState → ℕ
network_state_code disconnected = 0
network_state_code connecting = 1
network_state_code connected = 2
network_state_code ip_ready = 3

unfoldable pub upload_result_code : UploadResult → ℕ
upload_result_code idle = 0
upload_result_code success = 1
upload_result_code failed = 2
upload_result_code discovery_failed = 3
upload_result_code time_failed = 4
upload_result_code transport_failed = 5
upload_result_code http_failed = 6

unfoldable pub pairing_state_code : BlePairingState → ℕ
pairing_state_code closed = 0
pairing_state_code (opened _) = 1

unfoldable pub boot_button_state_code : BootButtonState → ℕ
boot_button_state_code released = 0
boot_button_state_code pressed = 1

unfoldable pub pairing_remaining_millis : BlePairingState → ℕ
pairing_remaining_millis closed = 0
pairing_remaining_millis (opened remaining_millis) =
    if ltb u32_max remaining_millis then u32_max else remaining_millis

abbrev pub frame : BleStatus → List ℕ
frame s =
    (protocol_version
      ∷ runtime_state_code s.runtime_state
      ∷ network_state_code s.network_state
      ∷ upload_result_code s.upload_result
      ∷ [])
    ++ (to_le 2 s.pending_record_count
        ++ (to_le 4 s.error_flags
            ++ (pairing_state_code s.pairing_state
                ∷ boot_button_state_code s.boot_button_state
                ∷ (to_le 4 (pairing_remaining_millis s.pairing_state)
                    ++ to_le 4 s.boot_pressed_millis))))

unfoldable pub encode : BleStatus → List ℕ → Result BleProtocolError (ℕ × List ℕ)
unfolding runtime_state_code network_state_code upload_result_code pairing_state_code
    boot_button_state_code pairing_remaining_millis
encode s out =
    if ltb (length out) encoded_len
    then err buffer_too_small
    else ok (encoded_len, frame s ++ drop encoded_len out)

unfoldable pub status_from_snapshots :
    BleRuntimeState → NetworkUploadStatus → FirmwareStatusSnapshot → BleStatus
unfolding new
status_from_snapshots runtime_state network_upload_status firmware_status =
    new runtime_state network_upload_status.network_state network_upload_status.upload_result
      firmware_status.pending_record_count firmware_status.error_flags

unfoldable pub status_from_snapshots_and_pairing :
    BleRuntimeState
    → NetworkUploadStatus
    → FirmwareStatusSnapshot
    → BootButtonState
    → BlePairingState
    → ℕ
    → BleStatus
unfolding status_from_snapshots with_pairing
status_from_snapshots_and_pairing runtime_state network_upload_status firmware_status
      boot_button_state pairing_state boot_pressed_millis =
    with_pairing (status_from_snapshots runtime_state network_upload_status firmware_status)
      boot_button_state pairing_state boot_pressed_millis

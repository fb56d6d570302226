-- ===== src/Types/Snapshot.antt =====
-- firmware/src/types.rs: the two snapshots of the status that the tasks share behind a mutex.
use sleep_environment_monito.Prelude.{ℕ}
use sleep_environment_monito.Types.{NetworkState, UploadResult}
use sleep_environment_monito.Types.ErrorFlags.{Flags}

pub record NetworkUploadStatus : Type 0 where
  pub network_state : NetworkState
  pub upload_result : UploadResult

unfoldable pub with_network_state : NetworkUploadStatus → NetworkState → NetworkUploadStatus
with_network_state self network_state = record self { network_state = network_state }

unfoldable pub with_upload_result : NetworkUploadStatus → UploadResult → NetworkUploadStatus
with_upload_result self upload_result = record self { upload_result = upload_result }

pub record FirmwareStatusSnapshot : Type 0 where
  pub pending_record_count : ℕ
  pub error_flags : Flags

unfoldable pub with_pending_record_count : FirmwareStatusSnapshot → ℕ → FirmwareStatusSnapshot
with_pending_record_count self pending_record_count = record self {
  pending_record_count = pending_record_count;
}

unfoldable pub with_error_flags : FirmwareStatusSnapshot → Flags → FirmwareStatusSnapshot
with_error_flags self error_flags = record self { error_flags = error_flags }

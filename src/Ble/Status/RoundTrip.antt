-- ===== src/Ble/Status/RoundTrip.antt =====
-- The frame of tasks/ble/status.rs, read back by a client.
use sleep_environment_monito.Prelude.{
  ℕ, ◌^◌, ◌<◌, ◌≤◌, ◌≡◌, refl, List, [], ◌∷◌, ◌++◌, Option, none, some, arith, ltb, ◌==◌, le→ltb,
  if◌then◌else◌, ok, length, take, drop, u16_max, u32_max,
}
use sleep_environment_monito.Prelude.Bytes.{le_at, from_le, to_le, from_le-to_le}
use sleep_environment_monito.Types.{
  NetworkState, disconnected, connecting, connected, ip_ready, UploadResult, idle, success, failed,
  discovery_failed, time_failed, transport_failed, http_failed,
}
use sleep_environment_monito.Ble.Pairing.{
  BootButtonState, pressed, released, BlePairingState, closed, opened,
}
use sleep_environment_monito.Ble.Status.{
  BleRuntimeState, disabled, controller_ready, host_pending, advertising, client_connected, error,
  BleStatus, frame, encode, runtime_state_code, network_state_code, upload_result_code,
  pairing_state_code, boot_button_state_code, pairing_remaining_millis,
}

unfoldable runtime_state_of : ℕ → Option BleRuntimeState
runtime_state_of code =
    if code == 0
    then some disabled
    else if code == 1
    then some controller_ready
    else if code == 2
    then some host_pending
    else if code == 3
    then some advertising
    else if code == 4
    then some client_connected
    else if code == 5
    then some error
    else none

unfoldable network_state_of : ℕ → Option NetworkState
network_state_of code =
    if code == 0
    then some disconnected
    else if code == 1
    then some connecting
    else if code == 2
    then some connected
    else if code == 3
    then some ip_ready
    else none

unfoldable upload_result_of : ℕ → Option UploadResult
upload_result_of code =
    if code == 0
    then some idle
    else if code == 1
    then some success
    else if code == 2
    then some failed
    else if code == 3
    then some discovery_failed
    else if code == 4
    then some time_failed
    else if code == 5
    then some transport_failed
    else if code == 6
    then some http_failed
    else none

abbrev pairing_state_of : ℕ → ℕ → BlePairingState
pairing_state_of code millis = if code == 0 then closed else opened millis

abbrev boot_button_state_of : ℕ → BootButtonState
boot_button_state_of code = if code == 0 then released else pressed

-- What a client makes of a frame of four bytes and the rest.
unfoldable pub read_frame : List ℕ → Option BleStatus
unfolding runtime_state_of network_state_of upload_result_of
read_frame (version ∷ runtime ∷ network ∷ upload ∷ rest) = elim (runtime_state_of runtime) [
  | none ↦ none
  | some runtime_state ↦ elim (network_state_of network) [
    | none ↦ none
    | some network_state ↦ elim (upload_result_of upload) [
      | none ↦ none
      | some upload_result ↦ some (record {
        runtime_state = runtime_state;
        network_state = network_state;
        upload_result = upload_result;
        pending_record_count = le_at rest 0 2;
        error_flags = le_at rest 2 4;
        pairing_state = pairing_state_of (le_at rest 6 1) (le_at rest 8 4);
        boot_button_state = boot_button_state_of (le_at rest 7 1);
        boot_pressed_millis = le_at rest 12 4;
      })
    ]
  ]
]
read_frame _ = none

runtime_state_lem : (s : BleRuntimeState) → runtime_state_of (runtime_state_code s) ≡ some s
unfolding runtime_state_of runtime_state_code
runtime_state_lem disabled = refl
runtime_state_lem controller_ready = refl
runtime_state_lem host_pending = refl
runtime_state_lem advertising = refl
runtime_state_lem client_connected = refl
runtime_state_lem error = refl

network_state_lem : (s : NetworkState) → network_state_of (network_state_code s) ≡ some s
unfolding network_state_of network_state_code
network_state_lem disconnected = refl
network_state_lem connecting = refl
network_state_lem connected = refl
network_state_lem ip_ready = refl

upload_result_lem : (s : UploadResult) → upload_result_of (upload_result_code s) ≡ some s
unfolding upload_result_of upload_result_code
upload_result_lem idle = refl
upload_result_lem success = refl
upload_result_lem failed = refl
upload_result_lem discovery_failed = refl
upload_result_lem time_failed = refl
upload_result_lem transport_failed = refl
upload_result_lem http_failed = refl

-- The remaining time has 32 bits in the frame.
abbrev pub shown : BlePairingState → BlePairingState
shown closed = closed
shown (opened millis) = opened (if ltb u32_max millis then u32_max else millis)

pairing_state_lem :
    (s : BlePairingState)
    → pairing_state_of (from_le (pairing_state_code s ∷ [])) (pairing_remaining_millis s) ≡ shown s
unfolding pairing_state_code pairing_remaining_millis from_le
pairing_state_lem closed = refl
pairing_state_lem (opened millis) = refl

boot_button_state_lem :
    (s : BootButtonState) → boot_button_state_of (from_le (boot_button_state_code s ∷ [])) ≡ s
unfolding boot_button_state_code from_le
boot_button_state_lem released = refl
boot_button_state_lem pressed = refl

remaining_fits : (s : BlePairingState) → pairing_remaining_millis s < 256 ^ 4
unfolding pairing_remaining_millis
remaining_fits closed = omega arith
remaining_fits (opened millis) = ground arith

-- A status whose numbers have their widths, encoded into a buffer of 20 bytes or more, is read back
-- from the first 20 bytes as it is, but for a remaining time of more than 32 bits, which is
-- read as the largest of 32 bits.
pub read_frame-encode :
    (s : BleStatus) (out : List ℕ)
    → s.pending_record_count ≤ u16_max
    → s.error_flags ≤ u32_max
    → s.boot_pressed_millis ≤ u32_max
    → 20 ≤ length out
    → (buf : List ℕ) × (encode s out ≡ ok (20, buf))
      × (read_frame (take 20 buf) ≡ some (record s { pairing_state = shown s.pairing_state }))
unfolding encode read_frame to_le
read_frame-encode s out hp he hb room = (
  frame s ++ drop 20 out,
  rw (le→ltb (length out) 20 room) refl,
  rw
      (
        runtime_state_lem s.runtime_state,
        network_state_lem s.network_state,
        upload_result_lem s.upload_result,
        from_le-to_le 2 s.pending_record_count (omega arith),
        from_le-to_le 4 s.error_flags (omega arith),
        from_le-to_le 4 (pairing_remaining_millis s.pairing_state) (remaining_fits s.pairing_state),
        from_le-to_le 4 s.boot_pressed_millis (omega arith),
        pairing_state_lem s.pairing_state,
        boot_button_state_lem s.boot_button_state,
        read_frame,
      )
      refl,
)

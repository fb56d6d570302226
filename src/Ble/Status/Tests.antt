-- ===== src/Ble/Status/Tests.antt =====
-- The status frame of tasks/ble/status.rs while the pairing window is open.
use sleep_environment_monito.Prelude.{ℕ, ◌≡◌, List, arith, some, ok, take, replicate}
use sleep_environment_monito.Types.{ip_ready, http_failed}
use sleep_environment_monito.Ble.Pairing.{pressed, opened}
use sleep_environment_monito.Ble.Status.{BleStatus, advertising, encode}
use sleep_environment_monito.Ble.Status.RoundTrip.{shown, read_frame, read_frame-encode}

abbrev waiting : BleStatus
waiting = record {
  runtime_state = advertising;
  network_state = ip_ready;
  upload_result = http_failed;
  pending_record_count = 300;
  error_flags = 1056;
  boot_button_state = pressed;
  pairing_state = opened 59000;
  boot_pressed_millis = 2050;
}

read_frame-encode_example :
    (buf : List ℕ) × (encode waiting (replicate 24 0) ≡ ok (20, buf))
    × (read_frame (take 20 buf)
        ≡ some (record waiting { pairing_state = shown waiting.pairing_state }))
read_frame-encode_example =
    read_frame-encode waiting (replicate 24 0) (omega arith) (omega arith) (omega arith)
      (omega arith)

-- ===== src/Ble/PairingTask.antt =====
-- firmware/src/tasks/ble/runtime.rs: the pairing task, and the status value. A turn of the task is
-- a step of the gesture, the keys in memory and the flash; it publishes what the other tasks read.
-- Whether the button is pressed is an argument. The logs are left out.
pub mod Clear
mod Tests
use sleep_environment_monito.Prelude.{
  ℕ, ◌*◌, List, Bool, Option, none, some, if◌then◌else◌, Result, ok, err, replicate, min, u32_max,
  ltb,
}
use sleep_environment_monito.Types.Snapshot.{NetworkUploadStatus, FirmwareStatusSnapshot}
use sleep_environment_monito.Flash.{FlashStorage}
use sleep_environment_monito.Led.{BleLedPairingStatus}
use sleep_environment_monito.Ble.Pairing.{
  BootButtonState, from_active_low, is_pressed, BlePairingState, is_open, BlePairingEvent,
  window_opened, window_expired, auth_records_clear_requested, BlePairingGesture, open_window,
  update,
}
use sleep_environment_monito.Ble.Pairing
use sleep_environment_monito.Ble.Status.{
  BleRuntimeState, status_from_snapshots_and_pairing, encode, encoded_len,
}
use sleep_environment_monito.Ble.Keys.{
  Workspace, clear_saved_ble_auth_records, should_auto_open_pairing_window_on_boot,
}

abbrev pub pairing_button_poll_millis : ℕ
pairing_button_poll_millis = 50

abbrev pub pairing_hold_millis : ℕ
pairing_hold_millis = 2000

abbrev pub auth_clear_hold_millis : ℕ
auth_clear_hold_millis = 8000

abbrev pub pairing_window_secs : ℕ
pairing_window_secs = 60

abbrev pub saturating_u64_to_u32 : ℕ → ℕ
saturating_u64_to_u32 value = if ltb u32_max value then u32_max else value

-- What the other tasks read: the signal of the LED and the three values behind locks.
pub record Snapshot : Type 0 where
  pub led_pairing_status : BleLedPairingStatus
  pub boot_button_state : BootButtonState
  pub boot_pressed_millis : ℕ
  pub pairing_state : BlePairingState

unfoldable pub publish_pairing_snapshot : BlePairingGesture → BootButtonState → Snapshot
publish_pairing_snapshot g button = record {
  led_pairing_status = record { window_open = is_open g.state; button_pressed = is_pressed button };
  boot_button_state = button;
  boot_pressed_millis = saturating_u64_to_u32 g.pressed_millis;
  pairing_state = g.state;
}

-- The gesture of the constants of config.rs.
unfoldable pub new_gesture : BlePairingGesture
unfolding Pairing.new
new_gesture = Pairing.new pairing_hold_millis auth_clear_hold_millis (pairing_window_secs * 1000)

module _ {S : Type 0} (F : FlashStorage S) where
  -- Before the loop: the gesture, and what is published if the window opens by itself.
  unfoldable pub start : Bool → BootButtonState → S → BlePairingGesture × Option Snapshot
  unfolding new_gesture publish_pairing_snapshot open_window
  start enabled button s =
      if should_auto_open_pairing_window_on_boot F enabled s
      then (let g = (open_window new_gesture).1 in (g, some (publish_pairing_snapshot g button)))
      else (new_gesture, none)

  -- From the event of the gesture on.
  unfoldable pub after_event :
      BlePairingEvent → BlePairingGesture → Workspace → S → BlePairingGesture × Workspace × S
  unfolding open_window clear_saved_ble_auth_records
  after_event auth_records_clear_requested g w s =
      let (cleared, w', s') = clear_saved_ble_auth_records F w s in
      (if cleared then (open_window g).1 else g, w', s')
  after_event window_opened g w s = (g, w, s)
  after_event window_expired g w s = (g, w, s)
  after_event BlePairingEvent.none g w s = (g, w, s)

  unfoldable pub turn :
      BootButtonState
      → BlePairingGesture
      → Workspace
      → S
      → Snapshot × BlePairingGesture × Workspace × S
  unfolding update after_event publish_pairing_snapshot
  turn button g w s =
      let (event, updated) = update button pairing_button_poll_millis g in
      let (g', w', s') = after_event event updated w s in
      (publish_pairing_snapshot g' button, g', w', s')

-- A value that cannot be encoded is left as zeros.
unfoldable pub encode_status :
    BleRuntimeState
    → NetworkUploadStatus
    → FirmwareStatusSnapshot
    → BootButtonState
    → BlePairingState
    → ℕ
    → List ℕ
encode_status runtime network firmware button pairing pressed_millis =
    elim (encode
      (status_from_snapshots_and_pairing runtime network firmware button pairing pressed_millis)
      (replicate encoded_len 0)) [ ok (_, out) ↦ out | err _ ↦ replicate encoded_len 0 ]

-- ===== src/Led.antt =====
-- firmware/src/util/status.rs: what the two LEDs show of the state of the device.
pub mod Task
mod Tests
use sleep_environment_monito.Prelude.{
  ℕ, ◌+◌, ◌*◌, ◌≤◌, ◌≡◌, refl, Bool, true, false, not, ◌||◌, Option, none, some, ltb, if◌then◌else◌,
  u64_max, saturating_add, saturating_mul, bit_or, arith,
}
use sleep_environment_monito.Types.{
  UploadResult, idle, success, failed, discovery_failed, time_failed, transport_failed, http_failed,
}
use sleep_environment_monito.Types.ErrorFlags
use sleep_environment_monito.Types.ErrorFlags.{Flags, intersects, contains, insert}

pub data LedPattern : Type 0 where
  off on slow_blink fast_blink heartbeat : LedPattern

pub record LedState : Type 0 where
  pub red_led2 : LedPattern
  pub blue_led3 : LedPattern

pub data BleLedRuntimeState : Type 0 where
  disabled idle_state advertising connected_state error : BleLedRuntimeState

pub record BleLedPairingStatus : Type 0 where
  pub window_open : Bool
  pub button_pressed : Bool

unfoldable pub runtime_pattern : BleLedRuntimeState → LedPattern
runtime_pattern advertising = slow_blink
runtime_pattern connected_state = slow_blink
runtime_pattern error = on
runtime_pattern disabled = off
runtime_pattern idle_state = off

unfoldable pub ble_status_to_led :
    BleLedRuntimeState → BleLedPairingStatus → Bool → Option LedPattern
unfolding runtime_pattern
ble_status_to_led runtime pairing indication_active =
    if pairing.window_open
    then some fast_blink
    else if not indication_active
    then none
    else some (runtime_pattern runtime)

unfoldable pub initial_ble_indication_until_millis : Bool → ℕ → ℕ
initial_ble_indication_until_millis ble_enabled boot_window_secs =
    if ble_enabled then saturating_mul u64_max boot_window_secs 1000 else 0

unfoldable pub update_ble_indication_until_millis : ℕ → ℕ → BleLedPairingStatus → ℕ → ℕ
update_ble_indication_until_millis current elapsed pairing trigger_window_secs =
    let trigger =
      saturating_add u64_max elapsed (saturating_mul u64_max trigger_window_secs 1000) in
    if not (pairing.button_pressed || pairing.window_open)
    then current
    else if ltb current trigger
    then trigger
    else current

unfoldable pub status_to_leds : Flags → Bool → LedState
unfolding intersects contains
status_to_leds flags wifi_unready_visible = record {
  red_led2 = heartbeat;
  blue_led3 =
      if intersects flags ErrorFlags.sensor_mask
      then fast_blink
      else if contains flags ErrorFlags.storage
          || (intersects flags ErrorFlags.upload_mask || contains flags ErrorFlags.time)
      then on
      else if intersects flags ErrorFlags.network_mask || wifi_unready_visible
      then slow_blink
      else off;
}

unfoldable pub status_error_flags : Flags → UploadResult → Flags
unfolding insert
status_error_flags flags idle = flags
status_error_flags flags success = flags
status_error_flags flags failed = insert flags ErrorFlags.upload
status_error_flags flags discovery_failed = insert flags ErrorFlags.discovery
status_error_flags flags time_failed = insert flags ErrorFlags.time
status_error_flags flags transport_failed =
    insert flags (bit_or ErrorFlags.upload ErrorFlags.transport)
status_error_flags flags http_failed = insert flags (bit_or ErrorFlags.upload ErrorFlags.http)

-- An update never shortens the time that the BLE state is shown for; with the button held or the
-- window open, it is shown for the trigger's time from now on at least, or to the end of the clock.
pub indication_extends :
    (current elapsed secs : ℕ) (pairing : BleLedPairingStatus)
    → (current ≤ update_ble_indication_until_millis current elapsed pairing secs)
      × ((if pairing.button_pressed || pairing.window_open
            then saturating_add u64_max elapsed (saturating_mul u64_max secs 1000)
            else 0)
          ≤ update_ble_indication_until_millis current elapsed pairing secs)
unfolding update_ble_indication_until_millis
indication_extends current elapsed secs pairing = (ground arith, ground arith)

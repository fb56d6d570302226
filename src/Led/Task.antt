-- ===== src/Led/Task.antt =====
-- firmware/src/tasks/led.rs: `status_task`, which drives the blue LED. A turn of its loop is a step
-- of its state over the signals that came since the last turn. The pins and `heartbeat_task`, which
-- only waits between two levels of a pin, are not modelled.
use sleep_environment_monito.Prelude.{
  ℕ, ◌/◌, ◌%◌, ◌^◌, List, [], ◌∷◌, Bool, true, false, not, ◌&&◌, ◌||◌, Option, none, some, ◌==◌,
  ltb, u64_max, saturating_add, saturating_mul, wrapping_add,
}
use sleep_environment_monito.Types.{
  NetworkState, disconnected, connecting, connected, ip_ready, UploadResult, idle,
}
use sleep_environment_monito.Types.ErrorFlags
use sleep_environment_monito.Types.ErrorFlags.{Flags}
use sleep_environment_monito.Led.{
  LedPattern, off, on, slow_blink, fast_blink, heartbeat, BleLedRuntimeState, disabled,
  BleLedPairingStatus, ble_status_to_led, initial_ble_indication_until_millis,
  update_ble_indication_until_millis, status_to_leds, status_error_flags,
}

abbrev pub slow_blink_ticks : ℕ
slow_blink_ticks = 5

abbrev pub fast_blink_ticks : ℕ
fast_blink_ticks = 2

abbrev pub heartbeat_ticks : ℕ
heartbeat_ticks = 10

abbrev pub status_tick_millis : ℕ
status_tick_millis = 100

abbrev pub ble_boot_status_window_secs : ℕ
ble_boot_status_window_secs = 180

abbrev pub ble_trigger_status_window_secs : ℕ
ble_trigger_status_window_secs = 10

abbrev pub wifi_unready_status_window_secs : ℕ
wifi_unready_status_window_secs = 0

unfoldable pub network_is_ready : NetworkState → Bool
network_is_ready ip_ready = true
network_is_ready disconnected = false
network_is_ready connecting = false
network_is_ready connected = false

unfoldable pub wifi_unready_status_visible : Bool → NetworkState → ℕ → ℕ → Bool
unfolding network_is_ready
wifi_unready_status_visible wifi_enabled state elapsed_millis status_window_secs =
    wifi_enabled
    && (not (network_is_ready state)
        && ltb elapsed_millis (saturating_mul u64_max status_window_secs 1000))

-- The level of `drive_active_low_led`: whether the LED is lit at a tick.
unfoldable pub lit : LedPattern → ℕ → Bool
lit off tick = false
lit on tick = true
lit slow_blink tick = tick / slow_blink_ticks % 2 == 0
lit fast_blink tick = tick % fast_blink_ticks == 0
lit heartbeat tick = tick % heartbeat_ticks == 0

pub record StatusTask : Type 0 where
  pub latest_flags : Flags
  pub latest_network : NetworkState
  pub latest_upload : UploadResult
  pub latest_ble_runtime : BleLedRuntimeState
  pub latest_ble_pairing : BleLedPairingStatus
  pub elapsed_millis : ℕ
  pub ble_indication_until_millis : ℕ
  pub tick : ℕ

-- What `try_take` gives on each signal.
pub record Signals : Type 0 where
  pub error_flags : Option Flags
  pub network_state : Option NetworkState
  pub upload_result : Option UploadResult
  pub ble_runtime_state : Option BleLedRuntimeState
  pub ble_pairing_status : Option BleLedPairingStatus

unfoldable pub start : Bool → StatusTask
unfolding initial_ble_indication_until_millis
start ble_enabled = record {
  latest_flags = ErrorFlags.none;
  latest_network = disconnected;
  latest_upload = idle;
  latest_ble_runtime = disabled;
  latest_ble_pairing = record { window_open = false; button_pressed = false };
  elapsed_millis = 0;
  ble_indication_until_millis =
      initial_ble_indication_until_millis ble_enabled ble_boot_status_window_secs;
  tick = 0;
}

abbrev or_latest {ℓ} : {A : Type ℓ} → Option A → A → A
or_latest none latest = latest
or_latest (some a) latest = a

abbrev until_millis : Option BleLedPairingStatus → StatusTask → ℕ
until_millis none t = t.ble_indication_until_millis
until_millis (some pairing_status) t =
    update_ble_indication_until_millis t.ble_indication_until_millis t.elapsed_millis pairing_status
      ble_trigger_status_window_secs

unfoldable pub take_signals : Signals → StatusTask → StatusTask
unfolding update_ble_indication_until_millis
take_signals s t = record t {
  latest_flags = or_latest s.error_flags t.latest_flags;
  latest_network = or_latest s.network_state t.latest_network;
  latest_upload = or_latest s.upload_result t.latest_upload;
  latest_ble_runtime = or_latest s.ble_runtime_state t.latest_ble_runtime;
  latest_ble_pairing = or_latest s.ble_pairing_status t.latest_ble_pairing;
  ble_indication_until_millis = until_millis s.ble_pairing_status t;
}

-- The pattern of a turn, after its signals.
unfoldable pub pattern : Bool → StatusTask → LedPattern
unfolding ble_status_to_led status_to_leds status_error_flags wifi_unready_status_visible
pattern wifi_enabled t =
    let leds = status_to_leds (status_error_flags t.latest_flags t.latest_upload) (
      wifi_unready_status_visible wifi_enabled t.latest_network t.elapsed_millis
        wifi_unready_status_window_secs) in
    let active =
      ltb t.elapsed_millis t.ble_indication_until_millis || t.latest_ble_pairing.window_open in
    or_latest (ble_status_to_led t.latest_ble_runtime t.latest_ble_pairing active) leds.blue_led3

-- A turn: the task after it, and whether the LED is lit till the next one.
unfoldable pub turn : Bool → Signals → StatusTask → StatusTask × Bool
unfolding take_signals pattern lit
turn wifi_enabled s t =
    let t' = take_signals s t in
    (
      record t' {
        tick = wrapping_add (2 ^ 32) t'.tick 1;
        elapsed_millis = saturating_add u64_max t'.elapsed_millis status_tick_millis;
      },
      lit (pattern wifi_enabled t') t'.tick,
    )

unfoldable pub run : Bool → List Signals → StatusTask → StatusTask
unfolding turn
run wifi_enabled [] t = t
run wifi_enabled (s ∷ signals) t = run wifi_enabled signals (turn wifi_enabled s t).0

-- ===== src/Ble/PairingTask/Tests.antt =====
-- The pairing task of tasks/ble/runtime.rs at a concrete press and region.
use sleep_environment_monito.Prelude.{◌≡◌, refl, arith, [], true, false, err, some, replicate}
use sleep_environment_monito.Flash.Model.{InMemoryFlash, storage}
use sleep_environment_monito.Flash.Model.Laws.{IsValid, storage-IsNor}
use sleep_environment_monito.Auth.Record.{encrypted}
use sleep_environment_monito.Ble.Pairing.{
  pressed, closed, opened, BlePairingGesture, auth_records_clear_requested, update,
}
use sleep_environment_monito.Ble.Keys.{
  Connection, new, insufficient_authorisation, ensure_ble_authorized, restore_ble_auth_records,
  should_auto_open_pairing_window_on_boot,
}
use sleep_environment_monito.Ble.PairingTask.{turn, pairing_button_poll_millis}
use sleep_environment_monito.Ble.PairingTask.Clear.{turn_clears}

-- The button is held for almost eight seconds.
abbrev held : BlePairingGesture
held = record {
  hold_millis = 2000;
  clear_hold_millis = 8000;
  window_millis = 60000;
  pressed_millis = 7950;
  opened_for_current_press = true;
  cleared_for_current_press = false;
  state = closed;
}

abbrev link : Connection
link = record { security_level = some encrypted; match_identity = λ _. true }

abbrev region : InMemoryFlash
region = record { cells = replicate 128 17 }

asked : (update pressed pairing_button_poll_millis held).0 ≡ auth_records_clear_requested
unfolding update
asked = refl

turn_clears_example :
    ((turn (storage 64) pressed held new region).0.pairing_state ≡ opened 60000)
    × ((turn (storage 64) pressed held new region).2 ≡ new)
    × ((restore_ble_auth_records (storage 64) new (turn (storage 64) pressed held new region).3).1
        ≡ [])
    × (should_auto_open_pairing_window_on_boot
          (storage 64)
          true
          (turn (storage 64) pressed held new region).3
        ≡ true)
    × (ensure_ble_authorized closed link (turn (storage 64) pressed held new region).2
        ≡ err insufficient_authorisation)
    × (ensure_ble_authorized closed link
          (restore_ble_auth_records
            (storage 64)
            new
            (turn (storage 64) pressed held new region).3).0
        ≡ err insufficient_authorisation)
turn_clears_example =
    turn_clears (storage 64) IsValid (λ m. m.cells) (storage-IsNor 64) pressed held new new region
      link true (omega arith) (omega arith) refl (omega arith) asked

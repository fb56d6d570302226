-- ===== src/Ble/Pairing.antt =====
-- firmware/src/tasks/ble/pairing.rs: `BlePairingGesture`, which opens the pairing window when the
-- button is held and asks to clear the stored keys when it is held for longer. A method that takes
-- `&mut self` gives its event and the gesture after the call.
pub mod Gesture
use sleep_environment_monito.Prelude.{
  ℕ, ◌-◌, Bool, true, false, not, ◌&&◌, ◌==◌, ltb, leb, if◌then◌else◌, u64_max, saturating_add,
}

pub data BootButtonState : Type 0 where
  pressed released : BootButtonState

abbrev pub from_active_low : Bool → BootButtonState
from_active_low true = pressed
from_active_low false = released

abbrev pub is_pressed : BootButtonState → Bool
is_pressed pressed = true
is_pressed released = false

-- `opened` holds the source's `remaining_millis`.
pub data BlePairingState : Type 0 where
  closed : BlePairingState
  opened : ℕ → BlePairingState

abbrev pub is_open : BlePairingState → Bool
is_open closed = false
is_open (opened _) = true

abbrev pub remaining_millis : BlePairingState → ℕ
remaining_millis closed = 0
remaining_millis (opened millis) = millis

pub data BlePairingEvent : Type 0 where
  none window_opened window_expired auth_records_clear_requested : BlePairingEvent

pub record BlePairingGesture : Type 0 where
  pub hold_millis : ℕ
  pub clear_hold_millis : ℕ
  pub window_millis : ℕ
  pub pressed_millis : ℕ
  pub opened_for_current_press : Bool
  pub cleared_for_current_press : Bool
  pub state : BlePairingState

unfoldable pub new : ℕ → ℕ → ℕ → BlePairingGesture
new hold_millis clear_hold_millis window_millis = record {
  hold_millis = hold_millis;
  clear_hold_millis = clear_hold_millis;
  window_millis = window_millis;
  pressed_millis = 0;
  opened_for_current_press = false;
  cleared_for_current_press = false;
  state = closed;
}

unfoldable pub open_window : BlePairingGesture → BlePairingEvent × BlePairingGesture
open_window g =
    (window_opened, record g { state = opened g.window_millis; opened_for_current_press = true })

unfoldable pub tick_pairing_window : ℕ → BlePairingGesture → Bool × BlePairingGesture
tick_pairing_window elapsed g = elim g.state [
  | closed ↦ (false, g)
  | opened millis ↦
      let left = millis - elapsed in
      if left == 0
      then (true, record g { state = closed })
      else (false, record g { state = opened left })
]

abbrev pub expiry_event : Bool → BlePairingEvent
expiry_event true = window_expired
expiry_event false = none

unfoldable pub update :
    BootButtonState → ℕ → BlePairingGesture → BlePairingEvent × BlePairingGesture
unfolding tick_pairing_window open_window
update button elapsed g =
    let (expired, ticked) = tick_pairing_window elapsed g in
    elim button [
      | pressed ↦
          let held = saturating_add u64_max ticked.pressed_millis elapsed in
          let g' : BlePairingGesture = record ticked { pressed_millis = held } in
          if ltb 0 g'.clear_hold_millis
            && not g'.cleared_for_current_press
            && leb g'.clear_hold_millis held
          then (auth_records_clear_requested, record g' { cleared_for_current_press = true })
          else if not g'.opened_for_current_press && leb g'.hold_millis held
          then open_window g'
          else (expiry_event expired, g')
      | released ↦ (
        expiry_event expired,
        record ticked {
          pressed_millis = 0;
          opened_for_current_press = false;
          cleared_for_current_press = false;
        },
      )
    ]

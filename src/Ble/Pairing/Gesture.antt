-- ===== src/Ble/Pairing/Gesture.antt =====
-- What tasks/ble/pairing.rs promises: how long a window stays open, and what a press of the button
-- gives. The pairing task opens the window by itself after a clear of the keys, in the same press;
-- that is in PairingTask.
use native.Mathlib.Decide.{dec_lt}
use sleep_environment_monito.Prelude.{
  le→leb, lt→leb, ℕ, ◌+◌, ◌-◌, ◌≤◌, ◌<◌, ◌≡◌, refl, ap, ◌∙◌, List, [], ◌∷◌, Bool, true, false, leb,
  if◌then◌else◌, arith,
}
use sleep_environment_monito.Ble.Pairing.{
  BootButtonState, pressed, released, closed, opened, BlePairingEvent, window_opened,
  window_expired, auth_records_clear_requested, BlePairingGesture, update, open_window,
  tick_pairing_window, expiry_event,
}

-- The gesture after updates, each with the button and the time since the one before.
unfoldable pub run : List (BootButtonState × ℕ) → BlePairingGesture → BlePairingGesture
run [] g = g
run ((button, elapsed) ∷ updates) g = run updates (update button elapsed g).1

-- How often an event is given.
abbrev pub opens : BlePairingEvent → ℕ
opens window_opened = 1
opens _ = 0

abbrev pub clears : BlePairingEvent → ℕ
clears auth_records_clear_requested = 1
clears _ = 0

unfoldable pub count : (BlePairingEvent → ℕ) → List (BootButtonState × ℕ) → BlePairingGesture → ℕ
count f [] g = 0
count f ((button, elapsed) ∷ updates) g =
    f (update button elapsed g).0 + count f updates (update button elapsed g).1

-- How often the button goes down, when `last` is how it was before.
unfoldable pub presses : BootButtonState → List (BootButtonState × ℕ) → ℕ
presses last [] = 0
presses last ((released, _) ∷ updates) = presses released updates
presses released ((pressed, _) ∷ updates) = 1 + presses pressed updates
presses pressed ((pressed, _) ∷ updates) = presses pressed updates

-- What is left of a quota for the press that goes on.
abbrev left_of : BootButtonState → ℕ → ℕ
left_of released quota = 0
left_of pressed quota = quota

abbrev open_quota : BlePairingGesture → ℕ
open_quota g = if g.opened_for_current_press then 0 else 1

abbrev clear_quota : BlePairingGesture → ℕ
clear_quota g = if g.cleared_for_current_press then 0 else 1

quotas_small : (g : BlePairingGesture) → (open_quota g ≤ 1) × (clear_quota g ≤ 1)
quotas_small g = (ground arith, ground arith)

ticked_flags :
    (elapsed : ℕ) (g : BlePairingGesture)
    → ((tick_pairing_window elapsed g).1.opened_for_current_press ≡ g.opened_for_current_press)
      × ((tick_pairing_window elapsed g).1.cleared_for_current_press ≡ g.cleared_for_current_press)
unfolding tick_pairing_window
ticked_flags elapsed g = (ground arith, ground arith)

opens_expiry : (b : Bool) → (opens (expiry_event b) ≡ 0) × (clears (expiry_event b) ≡ 0)
opens_expiry true = (refl, refl)
opens_expiry false = (refl, refl)

pressed_quota :
    (elapsed : ℕ) (g : BlePairingGesture)
    → (opens (update pressed elapsed g).0 + open_quota (update pressed elapsed g).1 ≤ open_quota g)
      × (clears (update pressed elapsed g).0 + clear_quota (update pressed elapsed g).1
          ≤ clear_quota g)
unfolding update open_window
pressed_quota elapsed g =
    ground (arith, opens_expiry (tick_pairing_window elapsed g).0, ticked_flags elapsed g)

released_quota :
    (elapsed : ℕ) (g : BlePairingGesture)
    → (opens (update released elapsed g).0 ≡ 0) × (clears (update released elapsed g).0 ≡ 0)
unfolding update
released_quota elapsed g = opens_expiry (tick_pairing_window elapsed g).0

count-presses :
    (last : BootButtonState) (updates : List (BootButtonState × ℕ)) (g : BlePairingGesture)
    → (count opens updates g ≤ left_of last (open_quota g) + presses last updates)
      × (count clears updates g ≤ left_of last (clear_quota g) + presses last updates)
unfolding count presses
count-presses last [] g = (omega arith, omega arith)
count-presses last ((released, elapsed) ∷ updates) g =
    let q = released_quota elapsed g in
    let r = count-presses released updates (update released elapsed g).1 in
    (omega (arith, q, r), omega (arith, q, r))
count-presses released ((pressed, elapsed) ∷ updates) g =
    let q = pressed_quota elapsed g in
    let r = count-presses pressed updates (update pressed elapsed g).1 in
    let small = quotas_small g in (omega (arith, q, r, small), omega (arith, q, r, small))
count-presses pressed ((pressed, elapsed) ∷ updates) g =
    let q = pressed_quota elapsed g in
    let r = count-presses pressed updates (update pressed elapsed g).1 in
    (omega (arith, q, r), omega (arith, q, r))

-- However the button is held and released, from a released button on, `update` tells that the
-- window opens at most once for each time that the button goes down, and asks to clear the stored
-- keys at most once for each.
pub press_once :
    (updates : List (BootButtonState × ℕ)) (g : BlePairingGesture)
    → (count opens updates g ≤ presses released updates)
      × (count clears updates g ≤ presses released updates)
press_once updates g =
    let r = count-presses released updates g in (omega (arith, r), omega (arith, r))

-- The updates of a button that is not held.
abbrev pub idle : List ℕ → List (BootButtonState × ℕ)
idle [] = []
idle (elapsed ∷ times) = (released, elapsed) ∷ idle times

abbrev pub total : List ℕ → ℕ
total [] = 0
total (elapsed ∷ times) = elapsed + total times

abbrev pub expiries : BlePairingEvent → ℕ
expiries window_expired = 1
expiries _ = 0

released_tick :
    (elapsed millis : ℕ) (g : BlePairingGesture)
    → g.state ≡ opened millis
    → (update released elapsed g).1.state
      ≡ (if leb millis elapsed then closed else opened (millis - elapsed))
unfolding update tick_pairing_window
released_tick elapsed millis g h = rw h (ground arith)

released_expiry :
    (elapsed millis : ℕ) (g : BlePairingGesture)
    → g.state ≡ opened millis
    → expiries (update released elapsed g).0 ≡ (if leb millis elapsed then 1 else 0)
unfolding update tick_pairing_window
released_expiry elapsed millis g h = rw h (ground arith)

released_closed :
    (elapsed : ℕ) (g : BlePairingGesture)
    → g.state ≡ closed
    → ((update released elapsed g).1.state ≡ closed) × (expiries (update released elapsed g).0 ≡ 0)
unfolding update tick_pairing_window
released_closed elapsed g h = (ground (arith, h), ground (arith, h))

idle_closed :
    (times : List ℕ) (g : BlePairingGesture)
    → g.state ≡ closed
    → ((run (idle times) g).state ≡ closed) × (count expiries (idle times) g ≡ 0)
unfolding run count
idle_closed [] g h = (h, refl)
idle_closed (elapsed ∷ times) g h =
    let now = released_closed elapsed g h in
    let rest = idle_closed times (update released elapsed g).1 now.0 in
    (rest.0, omega (arith, now.1, rest.1))

-- With the button released, an open window closes when its time has passed in all, however the
-- time is cut, and not before; this is told once, and until then the time that is left is right.
pub window_deadline :
    (times : List ℕ) (millis : ℕ) (g : BlePairingGesture)
    → g.state ≡ opened millis
    → 0 < millis
    → ((run (idle times) g).state
        ≡ (if leb millis (total times) then closed else opened (millis - total times)))
      × (count expiries (idle times) g ≡ (if leb millis (total times) then 1 else 0))
unfolding run count
window_deadline [] millis g h pos = rw (lt→leb millis 0 pos) (h ∙ ap opened (omega arith), refl)
window_deadline (elapsed ∷ times) millis g h pos =
    let state = released_tick elapsed millis g h in
    let told = released_expiry elapsed millis g h in
    elim (dec_lt elapsed millis) [
      | no late ↦
          let test = le→leb millis elapsed (omega arith) in
          let rest = idle_closed times (update released elapsed g).1 (rw test at state) in
          rw (le→leb millis (elapsed + total times) (omega arith))
            (rest.0, omega (arith, rw test at told, rest.1))
      | yes early ↦
          let test = lt→leb millis elapsed early in
          let rest =
            window_deadline times (millis - elapsed) (update released elapsed g).1
              (rw test at state) (omega arith) in
          let same : leb (millis - elapsed) (total times) ≡ leb millis (elapsed + total times) =
            ground arith in
          let left : millis - elapsed - total times ≡ millis - (elapsed + total times) =
            omega arith in
          (rw (same, left) at rest.0, omega (arith, rw test at told, rw same at rest.1))
    ]

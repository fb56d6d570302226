-- ===== src/Wifi.antt =====
-- firmware/src/tasks/wifi.rs: the states of the connection and the time to wait before the next
-- attempt. The task that drives the radio is not modelled.
mod Tests
use sleep_environment_monito.Prelude.{
  ℕ, ◌+◌, ◌≤◌, ◌≡◌, refl, List, [], ◌∷◌, ◌==◌, leb, if◌then◌else◌, u8_max, saturating_add, arith,
}

-- `backoff` holds the source's `attempt`.
pub data WifiState : Type 0 where
  init connecting connected : WifiState
  backoff : ℕ → WifiState

pub data WifiEvent : Type 0 where
  start connect_ok connect_failed disconnected retry_timer_expired : WifiEvent

unfoldable pub next_wifi_state : WifiState → WifiEvent → WifiState
next_wifi_state init start = connecting
next_wifi_state init _ = init
next_wifi_state connecting connect_ok = connected
next_wifi_state connecting connect_failed = backoff 1
next_wifi_state connecting _ = connecting
next_wifi_state connected disconnected = backoff 1
next_wifi_state connected _ = connected
next_wifi_state (backoff attempt) retry_timer_expired = connecting
next_wifi_state (backoff attempt) connect_failed = backoff (saturating_add u8_max attempt 1)
next_wifi_state (backoff attempt) disconnected = backoff (saturating_add u8_max attempt 1)
next_wifi_state (backoff attempt) _ = backoff attempt

unfoldable pub backoff_seconds : ℕ → ℕ
backoff_seconds attempt =
    if leb attempt 1
    then 1
    else if attempt == 2
    then 2
    else if attempt == 3
    then 5
    else if attempt == 4
    then 10
    else 30

unfoldable pub run : WifiState → List WifiEvent → WifiState
run state [] = state
run state (event ∷ events) = run (next_wifi_state state event) events

-- An attempt is counted from 1, within its byte.
abbrev pub IsState : WifiState → Type 0
IsState (backoff attempt) = (1 ≤ attempt) × (attempt ≤ u8_max)
IsState _ = Unit

next-IsState :
    (state : WifiState) (event : WifiEvent) → IsState state → IsState (next_wifi_state state event)
unfolding next_wifi_state
next-IsState init start v = tt
next-IsState init connect_ok v = tt
next-IsState init connect_failed v = tt
next-IsState init disconnected v = tt
next-IsState init retry_timer_expired v = tt
next-IsState connecting start v = tt
next-IsState connecting connect_ok v = tt
next-IsState connecting connect_failed v = (omega arith, omega arith)
next-IsState connecting disconnected v = tt
next-IsState connecting retry_timer_expired v = tt
next-IsState connected start v = tt
next-IsState connected connect_ok v = tt
next-IsState connected connect_failed v = tt
next-IsState connected disconnected v = (omega arith, omega arith)
next-IsState connected retry_timer_expired v = tt
next-IsState (backoff attempt) start v = v
next-IsState (backoff attempt) connect_ok v = v
next-IsState (backoff attempt) connect_failed v = (ground (arith, v), ground (arith, v))
next-IsState (backoff attempt) disconnected v = (ground (arith, v), ground (arith, v))
next-IsState (backoff attempt) retry_timer_expired v = tt

run-IsState :
    (state : WifiState) (events : List WifiEvent) → IsState state → IsState (run state events)
unfolding run
run-IsState state [] v = v
run-IsState state (event ∷ events) v =
    run-IsState (next_wifi_state state event) events (next-IsState state event v)

-- Whatever happens from the start on, a state that waits has counted an attempt from 1 to 255.
pub wifi_attempts : (events : List WifiEvent) → IsState (run init events)
wifi_attempts events = run-IsState init events tt

-- The wait grows with the attempts, is at least one second and at most thirty.
pub backoff_grows :
    (attempt later : ℕ)
    → attempt ≤ later
    → (backoff_seconds attempt ≤ backoff_seconds later)
      × (1 ≤ backoff_seconds attempt)
      × (backoff_seconds later ≤ 30)
unfolding backoff_seconds
backoff_grows attempt later h = (ground (arith, h), ground arith, ground arith)

-- ===== src/Wifi/Tests.antt =====
-- The states of tasks/wifi.rs after some events.
use sleep_environment_monito.Prelude.{◌≡◌, refl, List, [], ◌∷◌}
use sleep_environment_monito.Wifi.{
  WifiEvent, start, connect_failed, disconnected, init, backoff, run, next_wifi_state, IsState,
  wifi_attempts,
}

abbrev failures : List WifiEvent
failures = start ∷ connect_failed ∷ disconnected ∷ connect_failed ∷ []

after_failures : run init failures ≡ backoff 3
unfolding run next_wifi_state
after_failures = refl

wifi_attempts_example : IsState (run init failures)
wifi_attempts_example = wifi_attempts failures

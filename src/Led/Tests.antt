-- ===== src/Led/Tests.antt =====
-- What util/status.rs shows for some states.
use sleep_environment_monito.Prelude.{◌≡◌, refl, false, bit_or}
use sleep_environment_monito.Types.ErrorFlags
use sleep_environment_monito.Led.{fast_blink, status_to_leds}

multiple_errors_use_sensor_priority :
    (status_to_leds
      (bit_or ErrorFlags.sht40 (bit_or ErrorFlags.upload ErrorFlags.storage))
      false).blue_led3
    ≡ fast_blink
unfolding status_to_leds
multiple_errors_use_sensor_priority = refl

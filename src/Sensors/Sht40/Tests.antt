-- ===== src/Sensors/Sht40/Tests.antt =====
-- Frames of drivers/sht40.rs.
use sleep_environment_monito.Prelude.{ℕ, ◌≡◌, refl, arith, [], ◌∷◌, ok, err}
use sleep_environment_monito.Sensors.Sht40.{Sht40Error, crc8, parse_measurement}
use sleep_environment_monito.Sensors.Sht40.Detects.{single_byte_detected}

crc_matches_known_vector : crc8 (0xbe ∷ 0xef ∷ []) ≡ 0x92
unfolding crc8
crc_matches_known_vector = refl

-- The values as they are read.
abbrev as_read : ℕ → ℕ
as_read raw = raw

accepted :
    parse_measurement as_read as_read (0xbe ∷ 0xef ∷ 0x92 ∷ 0xbe ∷ 0xef ∷ 0x92 ∷ [])
    ≡ ok (0xbeef, 0xbeef)
unfolding parse_measurement crc8
accepted = refl

single_byte_detected_example :
    (fault : Sht40Error) × (parse_measurement as_read as_read
        (0xbe ∷ 0xef ∷ 0x92 ∷ 0xbe ∷ 0xee ∷ 0x92 ∷ [])
      ≡ err fault)
single_byte_detected_example =
    single_byte_detected as_read as_read 0xbe 0xef 0x92 0xbe 0xef 0x92 (0xbeef, 0xbeef) 4 0xee
      (omega arith, (omega arith, (omega arith, (omega arith, (omega arith, (omega arith, tt))))))
      accepted (omega arith) (omega arith) (λ e. ground (arith, e))

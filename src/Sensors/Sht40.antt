-- ===== src/Sensors/Sht40.antt =====
-- firmware/src/drivers/sht40.rs: the temperature and humidity sensor. The values are floating point:
-- what a raw value stands for is an argument, and so is what the bus does.
pub mod Detects
mod Tests
use sleep_environment_monito.Prelude.{
  ℕ, zero, suc, ◌+◌, ◌*◌, ◌%◌, List, [], ◌∷◌, Option, none, some, bit_and, bit_xor, not, ◌==◌,
  if◌then◌else◌, Result, ok, err, get_or,
}

pub data Sht40Error : Type 0 where
  i2c invalid_temperature_crc invalid_humidity_crc : Sht40Error

-- One of the eight rounds, on a byte.
unfoldable pub crc8_round : ℕ → ℕ
crc8_round crc = if not (bit_and crc 0x80 == 0) then bit_xor (crc * 2 % 256) 0x31 else crc * 2 % 256

unfoldable pub crc8_rounds : ℕ → ℕ → ℕ
unfolding crc8_round
crc8_rounds zero crc = crc
crc8_rounds (suc n) crc = crc8_rounds n (crc8_round crc)

unfoldable pub crc8_from : ℕ → List ℕ → ℕ
unfolding crc8_rounds
crc8_from crc [] = crc
crc8_from crc (byte ∷ rest) = crc8_from (crc8_rounds 8 (bit_xor crc byte)) rest

unfoldable pub crc8 : List ℕ → ℕ
unfolding crc8_from
crc8 bytes = crc8_from 0xff bytes

-- `u16::from_be_bytes`
abbrev pub from_be_word : ℕ → ℕ → ℕ
from_be_word msb lsb = msb * 256 + lsb

-- `Float` is `f32`; the two functions are what a raw value stands for.
module _ {Float : Type 0} (convert_temperature convert_humidity : ℕ → Float) where
  -- `buf` is an array of 6 bytes.
  unfoldable pub parse_measurement : List ℕ → Result Sht40Error (Float × Float)
  parse_measurement buf =
      if not (crc8 (get_or buf 0 0 ∷ get_or buf 1 0 ∷ []) == get_or buf 2 0)
      then err invalid_temperature_crc
      else if not (crc8 (get_or buf 3 0 ∷ get_or buf 4 0 ∷ []) == get_or buf 5 0)
      then err invalid_humidity_crc
      else ok (
        convert_temperature (from_be_word (get_or buf 0 0) (get_or buf 1 0)),
        convert_humidity (from_be_word (get_or buf 3 0) (get_or buf 4 0)),
      )

  -- `read` is the answer of the bus: the six bytes, or nothing if it fails.
  unfoldable pub read_measurement : Option (List ℕ) → Result Sht40Error (Float × Float)
  unfolding parse_measurement
  read_measurement none = err i2c
  read_measurement (some buf) = parse_measurement buf

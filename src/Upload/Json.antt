-- ===== src/Upload/Json.antt =====
-- firmware/src/tasks/upload/json.rs: a measurement as the fields of a JSON object, and the object
-- that is sent. `display` is the text of an `f32`, which the language prints, and `finite` its
-- `is_finite`.
pub mod Escape
pub mod Texts
use sleep_environment_monito.Prelude.{
  ℕ, List, [], ◌∷◌, ◌++◌, map, Bool, ◌&&◌, Option, none, some, leb, ◌==◌, if◌then◌else◌, Result,
}
use sleep_environment_monito.Prelude.Texts.{codes}
use sleep_environment_monito.Upload.{EncodeError}
use sleep_environment_monito.Upload.Decimal.{decimal}
use sleep_environment_monito.Upload.Writer.{written}
use sleep_environment_monito.Upload.Time.{TimestampSelection}
use sleep_environment_monito.Types.Samples.{Measurement, as_json_str}

abbrev pub schema_version : ℕ
schema_version = 1

-- One turn of the loop of `write_json_escaped_str`.
unfoldable pub escaped : ℕ → List ℕ
escaped b =
    if b == b'"'
    then codes "\\\""
    else if b == b'\\'
    then codes "\\\\"
    else if leb 32 b && leb b 126
    then b ∷ []
    else b'?' ∷ []

unfoldable pub write_json_escaped_str : List ℕ → List (List ℕ)
unfolding escaped
write_json_escaped_str = map escaped

abbrev pub wall_clock_field : Option ℕ → List (List ℕ)
wall_clock_field none = []
wall_clock_field (some unix_ms) = codes ",\"wall_clock_unix_ms\":" ∷ decimal unix_ms ∷ []

unfoldable pub measurement_pieces : List ℕ → ℕ → List ℕ → TimestampSelection → List (List ℕ)
unfolding write_json_escaped_str as_json_str
measurement_pieces device_id sequence measurement_fields timestamp =
    (codes "{\"schema_version\":" ∷ decimal schema_version ∷ codes ",\"device_id\":\"" ∷ [])
    ++ (write_json_escaped_str device_id
        ++ ((codes "\",\"sequence\":"
              ∷ decimal sequence
              ∷ codes ",\"time_status\":\""
              ∷ as_json_str timestamp.status
              ∷ codes "\""
              ∷ [])
            ++ (wall_clock_field timestamp.wall_clock_unix_ms
                ++ codes "," ∷ measurement_fields ∷ codes "}" ∷ [])))

unfoldable pub build_measurement_json :
    List ℕ → ℕ → List ℕ → TimestampSelection → List ℕ → Result EncodeError (ℕ × List ℕ)
unfolding measurement_pieces written
build_measurement_json device_id sequence measurement_fields timestamp out =
    written (measurement_pieces device_id sequence measurement_fields timestamp) out

module _ {R : Type 0} (display : R → List ℕ) (finite : R → Bool) where
  unfoldable pub write_optional_json_f32 : Option R → List ℕ
  write_optional_json_f32 none = codes "null"
  write_optional_json_f32 (some value) = if finite value then display value else codes "null"

  unfoldable pub field_pieces : Measurement R → List (List ℕ)
  unfolding write_optional_json_f32
  field_pieces m =
      (codes "\"uptime_ms\":"
        ∷ decimal m.uptime_ms
        ∷ codes ","
        ∷ codes "\"temperature_c\":"
        ∷ write_optional_json_f32 m.temperature_c
        ∷ codes ",\"humidity_percent\":"
        ∷ write_optional_json_f32 m.humidity_percent
        ∷ codes ",\"lux\":"
        ∷ write_optional_json_f32 m.lux
        ∷ codes ",\"mic_mean\":"
        ∷ display m.mic_mean
        ∷ codes ",\"mic_rms\":"
        ∷ display m.mic_rms
        ∷ codes ",\"mic_peak\":"
        ∷ display m.mic_peak
        ∷ codes ",\"mic_db_rel\":"
        ∷ display m.mic_db_rel
        ∷ codes ",\"mic_clip_count\":"
        ∷ decimal m.mic_clip_count
        ∷ codes ",\"error_flags\":"
        ∷ decimal m.error_flags
        ∷ [])

  unfoldable pub measurement_to_json_fields :
      Measurement R → List ℕ → Result EncodeError (ℕ × List ℕ)
  unfolding field_pieces written
  measurement_to_json_fields m out = written (field_pieces m) out

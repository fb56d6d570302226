-- ===== src/Upload/Json/Texts.antt =====
-- The texts of tasks/upload/json.rs: what is read from them, and that they fit their buffers.
use sleep_environment_monito.Prelude.{
  ℕ, ◌+◌, ◌≤◌, ◌≡◌, refl, List, [], ◌∷◌, ◌++◌, Bool, Option, none, some, ok, arith, length, take,
  length-append, u64_max, usize_max,
}
use sleep_environment_monito.Prelude.Texts.{codes}
use sleep_environment_monito.Types.Samples.{
  Measurement, TimeStatus, unknown, uptime_only, wall_clock_synced, as_json_str,
}
use sleep_environment_monito.Upload.Decimal.{decimal, length-digits}
use sleep_environment_monito.Upload.Writer.{concat, written_sound}
use sleep_environment_monito.Upload.Json.{
  measurement_to_json_fields, field_pieces, measurement_pieces, wall_clock_field,
  write_json_escaped_str, escaped, schema_version,
}
use sleep_environment_monito.Upload.Parse.{field_value, after_first, starts_with}
use sleep_environment_monito.Upload.Parse.Fields.{parse_json_u64_lem, trim-decimal}
use sleep_environment_monito.Upload.Time.{TimestampSelection}
use sleep_environment_monito.Upload.Runtime.{stored_payload_uptime, device_id}

uptime_found :
    (n : ℕ) (rest : List ℕ)
    → field_value (codes "\"uptime_ms\":" ++ (decimal n ++ (b',' ∷ rest))) (codes "uptime_ms")
      ≡ some (decimal n ++ (b',' ∷ rest))
unfolding field_value after_first starts_with
uptime_found n rest = rw (trim-decimal n (b',' ∷ rest)) refl

uptime_read :
    (n : ℕ) (rest : List ℕ)
    → n ≤ u64_max
    → stored_payload_uptime (codes "\"uptime_ms\":" ++ (decimal n ++ (b',' ∷ rest))) ≡ n
unfolding stored_payload_uptime
uptime_read n rest h =
    rw
      (
        parse_json_u64_lem (codes "\"uptime_ms\":" ++ (decimal n ++ (b',' ∷ rest)))
            (codes "uptime_ms") n b',' rest (uptime_found n rest) refl h,
        stored_payload_uptime,
      )
      refl

module _ {R : Type 0} (display : R → List ℕ) (finite : R → Bool) where
  -- The uptime that the uploader reads from the stored fields of a measurement, whatever its other
  -- fields hold, is the uptime of the measurement, if the fields were written to a buffer.
  pub stored_payload_uptime-fields :
      (m : Measurement R) (out : List ℕ) (len : ℕ) (buf : List ℕ)
      → m.uptime_ms ≤ u64_max
      → length out ≤ usize_max
      → measurement_to_json_fields display finite m out ≡ ok (len, buf)
      → stored_payload_uptime (take len buf) ≡ m.uptime_ms
  unfolding measurement_to_json_fields field_pieces concat
  stored_payload_uptime-fields m out len buf h small done =
      rw (written_sound (field_pieces display finite m) out len buf small done).1
        (uptime_read m.uptime_ms _ h)

unfoldable pub total : List (List ℕ) → ℕ
total [] = 0
total (piece ∷ pieces) = length piece + total pieces

pub length-concat : (pieces : List (List ℕ)) → length (concat pieces) ≡ total pieces
unfolding concat total
length-concat [] = refl
length-concat (piece ∷ pieces) =
    omega (arith, length-append piece (concat pieces), length-concat pieces)

pub total-append : (a b : List (List ℕ)) → total (a ++ b) ≡ total a + total b
unfolding total
total-append [] b = omega arith
total-append (piece ∷ a) b = omega (arith, total-append a b)

length-as_json_str : (status : TimeStatus) → length (as_json_str status) ≤ 17
unfolding as_json_str
length-as_json_str unknown = omega arith
length-as_json_str uptime_only = omega arith
length-as_json_str wall_clock_synced = omega arith

wall_clock_total : (o : Option ℕ) → total (wall_clock_field o) ≤ 42
unfolding total
wall_clock_total none = omega arith
wall_clock_total (some unix_ms) = omega (arith, length-digits 20 unix_ms)

device_total : total (write_json_escaped_str device_id) ≡ 17
unfolding total write_json_escaped_str escaped
device_total = refl

-- The text of a measurement is at most 185 bytes longer than its stored fields.
pub measurement_length :
    (sequence : ℕ) (fields : List ℕ) (timestamp : TimestampSelection)
    → length (concat (measurement_pieces device_id sequence fields timestamp)) ≤ 185 + length fields
unfolding measurement_pieces total
measurement_length sequence fields timestamp =
    let clock = wall_clock_field timestamp.wall_clock_unix_ms in
    rw (length-concat (measurement_pieces device_id sequence fields timestamp)) (
      omega (
        arith,
        total-append clock (codes "," ∷ fields ∷ codes "}" ∷ []),
        length-digits 20 schema_version,
        length-digits 20 sequence,
        length-as_json_str timestamp.status,
        wall_clock_total timestamp.wall_clock_unix_ms,
      ))

-- ===== src/Upload/Tests.antt =====
-- The texts and the clock of tasks/upload, and a turn of the uploader that posts a record.
use sleep_environment_monito.Prelude.{
  ℕ, ◌+◌, ◌-◌, ◌≤◌, ◌≡◌, ◌↔◌, refl, arith, List, [], ◌∷◌, ◌++◌, map, Bool, true, false, none, some,
  ok, length, take, replicate, u64_max,
}
use sleep_environment_monito.Prelude.Texts.{codes}
use sleep_environment_monito.Types.{disconnected, idle}
use sleep_environment_monito.Types.Samples.{Measurement}
use sleep_environment_monito.Types.Snapshot.{NetworkUploadStatus}
use sleep_environment_monito.Storage.Backlog.{StoredPayload, as_slice}
use sleep_environment_monito.Storage.Protocol.{peeked}
use sleep_environment_monito.Upload.{discovered}
use sleep_environment_monito.Upload.Decimal.{digits}
use sleep_environment_monito.Upload.Writer.{concat}
use sleep_environment_monito.Upload.Json.{measurement_to_json_fields, write_json_escaped_str}
use sleep_environment_monito.Upload.Json.Escape.{read_string, printable, read_string-escaped}
use sleep_environment_monito.Upload.Json.Texts.{stored_payload_uptime-fields}
use sleep_environment_monito.Upload.Parse.{parse_discovery_endpoint}
use sleep_environment_monito.Upload.Parse.Fields.{discovery_answer, parse_discovery_endpoint-answer}
use sleep_environment_monito.Upload.Parse.Ipv4.{dotted}
use sleep_environment_monito.Upload.Time.{
  TimeSyncState, select_payload_timestamp, select_payload_timestamp_iff,
}
use sleep_environment_monito.Upload.Runtime.{
  payload_body, encode_request, measurement_path, request_buffer_size, stored_payload_uptime, got,
}
use sleep_environment_monito.Upload.Runtime.Fits.{at, post_fits}
use sleep_environment_monito.Upload.Runtime.Task.{
  Uploader, Turn, turn, current_endpoint, IsPosted, begin_turn, discovery_turn, time_turn,
  acks_after_post,
}

abbrev sample : Measurement (List ℕ)
sample = record {
  uptime_ms = 120;
  temperature_c = some (codes "22.5");
  humidity_percent = none;
  lux = none;
  mic_mean = codes "2048";
  mic_rms = codes "12.5";
  mic_peak = codes "40";
  mic_db_rel = codes "21.9";
  mic_clip_count = 2;
  error_flags = 1;
}

shown : List ℕ → List ℕ
shown text = text

always : List ℕ → Bool
always _ = true

abbrev sample_text : List ℕ
sample_text =
    codes
      "\"uptime_ms\":120,\"temperature_c\":22.5,\"humidity_percent\":null,\"lux\":null,\"mic_mean\":2048,\"mic_rms\":12.5,\"mic_peak\":40,\"mic_db_rel\":21.9,\"mic_clip_count\":2,\"error_flags\":1"

sample_written :
    measurement_to_json_fields shown always sample (replicate 200 0)
    ≡ ok (length sample_text, sample_text ++ replicate (200 - length sample_text) 0)
unfolding measurement_to_json_fields shown always digits
sample_written = refl

stored_payload_uptime-fields_example :
    stored_payload_uptime
      (take (length sample_text) (sample_text ++ replicate (200 - length sample_text) 0))
    ≡ 120
stored_payload_uptime-fields_example =
    stored_payload_uptime-fields shown always sample (replicate 200 0) (length sample_text)
      (sample_text ++ replicate (200 - length sample_text) 0) (omega arith) (omega arith)
      sample_written

parse_discovery_endpoint-answer_example :
    parse_discovery_endpoint
      (discovery_answer (dotted 192 168 1 44) 8080 (codes "\"api_base\":\"/api/v1\"}"))
    ≡ ok (record { ipv4 = 192 ∷ 168 ∷ 1 ∷ 44 ∷ []; port = 8080; source = discovered })
parse_discovery_endpoint-answer_example =
    parse_discovery_endpoint-answer 192 168 1 44 8080 (codes "\"api_base\":\"/api/v1\"}")
      (omega arith) (omega arith) (omega arith) (omega arith) (omega arith)

read_string-escaped_example :
    read_string false (concat (write_json_escaped_str (codes "a\"b\\\n")) ++ (b'"' ∷ codes ",1"))
    ≡ some (map printable (codes "a\"b\\\n"), codes ",1")
read_string-escaped_example = read_string-escaped (codes "a\"b\\\n") (codes ",1")

abbrev synced : TimeSyncState
synced = record { boot_ms_at_sync = 1000; unix_ms_at_sync = 1700000000000 }

select_payload_timestamp_iff_example :
    ((select_payload_timestamp true (some synced) 400).wall_clock_unix_ms ≡ some 1699999999400)
    ↔ ((true ≡ true) × (1699999999400 + 1000 ≡ 1700000000000 + 400) × (1699999999400 ≤ u64_max))
select_payload_timestamp_iff_example =
    select_payload_timestamp_iff true synced 400 1699999999400 (omega arith)

abbrev payload : StoredPayload
payload = record {
  sequence = 7;
  payload = codes "\"uptime_ms\":120,\"lux\":null";
  payload_len = 26;
  payload_flags = 1;
  current_boot = true;
}

post_fits_example :
    (body : List ℕ) × (request : List ℕ) × (payload_body payload (some synced) ≡ ok body)
    × (encode_request
          (at 192 168 1 44 8080 discovered)
          (codes "POST")
          measurement_path
          (some (codes "application/json"))
          body
        ≡ ok request)
    × (length request ≤ request_buffer_size)
unfolding as_slice
post_fits_example =
    post_fits payload (some synced) 192 168 1 44 8080 discovered (omega arith) (omega arith)
      (omega arith) (omega arith) (omega arith) (omega arith)

abbrev fresh : Uploader
fresh = record {
  upload_success_count = 0;
  discovered_endpoint = none;
  time_sync = none;
  last_discovery_attempt_ms = none;
  last_time_attempt_ms = none;
}

abbrev status : NetworkUploadStatus
status = record { network_state = disconnected; upload_result = idle }

abbrev created : List ℕ
created = codes "HTTP/1.1 201 Created\r\nContent-Length: 0\r\n\r\n"

abbrev accepting : Turn
accepting = record {
  now_ms = 500;
  synced_ms = 500;
  discovery = none;
  sntp = none;
  server = λ endpoint request. record {
    connect = ok tt;
    write_all = true;
    flush = true;
    reads = got created ∷ [];
  };
  peek = peeked (some payload);
}

accepted : (turn accepting fresh status).acknowledged ≡ some 7
unfolding turn digits current_endpoint as_slice
accepted = refl

acks_after_post_example :
    (p : StoredPayload) × (accepting.peek ≡ peeked (some p))
    × (p.sequence ≡ 7)
    × IsPosted accepting
        (time_turn accepting (discovery_turn accepting (begin_turn fresh status)))
        p
acks_after_post_example = acks_after_post accepting fresh status 7 accepted

-- ===== src/Upload/Runtime.antt =====
-- firmware/src/tasks/upload/runtime.rs: `uploader_task`. A turn of its loop is a step of its state;
-- what the network stack and the storage task answer in the turn is an argument.
pub mod Fits
pub mod Task
use sleep_environment_monito.Prelude.{
  ℕ, zero, suc, ◌+◌, ◌-◌, ◌*◌, ◌^◌, ◌≤◌, ◌≡◌, List, [], ◌∷◌, ◌++◌, Bool, true, false, not, Option,
  none, some, leb, ◌==◌, if◌then◌else◌, Result, ok, err, ◌>>=◌, map_err, length, take, replicate,
  u64_max, saturating_mul, wrapping_add,
}
use sleep_environment_monito.Prelude.Texts.{codes}
use sleep_environment_monito.Types.{
  NetworkState, ip_ready, UploadResult, failed, discovery_failed, time_failed, transport_failed,
  http_failed,
}
use sleep_environment_monito.Types
use sleep_environment_monito.Types.Snapshot.{
  NetworkUploadStatus, with_network_state, with_upload_result,
}
use sleep_environment_monito.Storage.Backlog.{StoredPayload, as_slice}
use sleep_environment_monito.Storage.Protocol.{StorageResponse, peeked, acked, error}
use sleep_environment_monito.Upload.{
  EncodeError, ParseError, Endpoint, EndpointCandidates, resolve_endpoint, fallback_endpoint,
}
use sleep_environment_monito.Upload.Decimal.{decimal}
use sleep_environment_monito.Upload.Writer.{written}
use sleep_environment_monito.Upload.Json.{build_measurement_json}
use sleep_environment_monito.Upload.Parse.{
  parse_json_u64, parse_discovery_endpoint, parse_rest_time_unix_ms,
}
use sleep_environment_monito.Upload.Time.{
  TimeSyncState, select_payload_timestamp, parse_sntp_unix_ms,
}
use sleep_environment_monito.Upload.Http.{
  build_http_request, http_response_is_success, http_response_total_len,
}

pub data UploadError : Type 0 where
  encode discovery time connect_invalid_state connect_reset connect_timed_out no_route write read
        timeout response :
      UploadError

-- `ConnectError` of the network stack.
pub data ConnectError : Type 0 where
  invalid_state connection_reset timed_out unreachable : ConnectError

abbrev pub device_id : List ℕ
device_id = codes "sleep-env-esp32c3"

abbrev pub measurement_path : List ℕ
measurement_path = codes "/api/v1/measurements"

abbrev pub time_path : List ℕ
time_path = codes "/api/v1/time"

abbrev pub request_buffer_size : ℕ
request_buffer_size = 1024

abbrev pub response_buffer_size : ℕ
response_buffer_size = 512

abbrev pub discovery_retry_secs : ℕ
discovery_retry_secs = 30

abbrev pub time_sync_retry_secs : ℕ
time_sync_retry_secs = 60

-- `now_ms.saturating_sub(last)` is the subtraction of ℕ.
unfoldable pub should_retry : Option ℕ → ℕ → ℕ → Bool
should_retry none now_ms interval_secs = true
should_retry (some last) now_ms interval_secs =
    leb (saturating_mul u64_max interval_secs 1000) (now_ms - last)

unfoldable pub upload_result_for_error : UploadError → UploadResult
upload_result_for_error discovery = discovery_failed
upload_result_for_error time = time_failed
upload_result_for_error response = http_failed
upload_result_for_error encode = failed
upload_result_for_error connect_invalid_state = transport_failed
upload_result_for_error connect_reset = transport_failed
upload_result_for_error connect_timed_out = transport_failed
upload_result_for_error no_route = transport_failed
upload_result_for_error write = transport_failed
upload_result_for_error read = transport_failed
upload_result_for_error timeout = transport_failed

unfoldable pub map_connect_error : ConnectError → UploadError
map_connect_error invalid_state = connect_invalid_state
map_connect_error connection_reset = connect_reset
map_connect_error timed_out = connect_timed_out
map_connect_error unreachable = no_route

unfoldable pub stored_payload_uptime : List ℕ → ℕ
unfolding parse_json_u64
stored_payload_uptime payload = elim (parse_json_u64 payload (codes "uptime_ms")) [
  | err _ ↦ 0
  | ok uptime_ms ↦ uptime_ms
]

-- `[a, b, c, d]`; the array has four bytes.
abbrev pub host_pieces : List ℕ → ℕ → List (List ℕ)
host_pieces (a ∷ b ∷ c ∷ d ∷ []) port =
    decimal a
    ∷ codes "."
    ∷ decimal b
    ∷ codes "."
    ∷ decimal c
    ∷ codes "."
    ∷ decimal d
    ∷ codes ":"
    ∷ decimal port
    ∷ []
host_pieces _ port = []

unfoldable pub endpoint_host_header : Endpoint → List ℕ → Result EncodeError (ℕ × List ℕ)
unfolding written
endpoint_host_header endpoint out = written (host_pieces endpoint.ipv4 endpoint.port) out

-- What a read of the socket comes to: no answer in time, an error, or bytes (none at the end).
pub data Read : Type 0 where
  late broken : Read
  got : List ℕ → Read

-- A connection: whether it opens, whether the request is written and flushed, and the reads.
pub record Connection : Type 0 where
  pub connect : Result ConnectError (Unit {0})
  pub write_all : Bool
  pub flush : Bool
  pub reads : List Read

-- The loop of `read_http_response` over the bytes read so far and `expected_len`, in a buffer of
-- `size` bytes. A read gives no more than the buffer has left.
unfoldable pub read_loop : ℕ → List ℕ → Option ℕ → List Read → Result UploadError (List ℕ)
unfolding http_response_total_len
read_loop size so_far expected_len [] = if length so_far == size then ok so_far else err timeout
read_loop size so_far expected_len (late ∷ reads) =
    if length so_far == size then ok so_far else err timeout
read_loop size so_far expected_len (broken ∷ reads) =
    if length so_far == size then ok so_far else err read
read_loop size so_far expected_len (got bytes ∷ reads) =
    let chunk = take (size - length so_far) bytes in
    let more = so_far ++ chunk in
    let expected : Option ℕ = elim expected_len [
      | none ↦ http_response_total_len more
      | some len ↦ some len
    ] in
    let later = read_loop size more expected reads in
    if length so_far == size
    then ok so_far
    else if length chunk == 0
    then ok so_far
    else elim expected [
      | none ↦ later
      | some len ↦ if leb len (length more) then ok more else later
    ]

-- `read_http_response`, and the check of its length in `send_http_request`.
unfoldable pub read_http_response : ℕ → List Read → Result UploadError (List ℕ)
unfolding read_loop
read_http_response size reads =
    read_loop size [] none reads >>= λ bytes. if length bytes == 0 then err response else ok bytes

abbrev encoded : Result EncodeError (ℕ × List ℕ) → Result UploadError (List ℕ)
encoded (err _) = err encode
encoded (ok (len, out)) = ok (take len out)

-- The calls of the socket.
unfoldable pub exchange : Connection → Result UploadError (List ℕ)
unfolding map_connect_error read_http_response
exchange connection = elim connection.connect [
  | err e ↦ err (map_connect_error e)
  | ok _ ↦
      if not connection.write_all
      then err write
      else if not connection.flush
      then err write
      else read_http_response response_buffer_size connection.reads
]

-- The network: the connection that an endpoint gives for a request.
abbrev pub Server : Type 0
Server = Endpoint → List ℕ → Connection

-- The request as text: every byte is printed ASCII or a byte of the body.
unfoldable pub encode_request :
    Endpoint → List ℕ → List ℕ → Option (List ℕ) → List ℕ → Result UploadError (List ℕ)
unfolding endpoint_host_header build_http_request
encode_request endpoint method path content_type body =
    encoded (endpoint_host_header endpoint (replicate 22 0)) >>= λ host_header.
    encoded (
      build_http_request method host_header path content_type body
        (replicate request_buffer_size 0))

unfoldable pub send_http_request :
    Server → Endpoint → List ℕ → List ℕ → Option (List ℕ) → List ℕ → Result UploadError (List ℕ)
unfolding encode_request exchange
send_http_request server endpoint method path content_type body =
    encode_request endpoint method path content_type body >>= λ request.
    exchange (server endpoint request)

unfoldable pub payload_body : StoredPayload → Option TimeSyncState → Result UploadError (List ℕ)
unfolding select_payload_timestamp stored_payload_uptime build_measurement_json
payload_body payload time_sync = encoded (
    build_measurement_json device_id payload.sequence (as_slice payload)
      (select_payload_timestamp payload.current_boot time_sync
        (stored_payload_uptime (as_slice payload)))
      (replicate request_buffer_size 0))

unfoldable pub post_json_payload :
    Server → Endpoint → StoredPayload → Option TimeSyncState → Result UploadError (Unit {0})
unfolding payload_body send_http_request http_response_is_success
post_json_payload server endpoint payload time_sync = payload_body payload time_sync >>= λ body.
    send_http_request server endpoint (codes "POST") measurement_path
      (some (codes "application/json")) body
    >>= λ answer. if http_response_is_success answer then ok tt else err response

-- `none` is a datagram that was not sent or not answered.
unfoldable pub discover_endpoint : Option (List ℕ) → Result UploadError Endpoint
unfolding parse_discovery_endpoint
discover_endpoint none = err discovery
discover_endpoint (some datagram) = map_err (λ _. discovery) (parse_discovery_endpoint datagram)

unfoldable pub sync_time_sntp : Option (List ℕ) → Result UploadError ℕ
unfolding parse_sntp_unix_ms
sync_time_sntp none = err time
sync_time_sntp (some packet) = map_err (λ _. time) (parse_sntp_unix_ms packet)

unfoldable pub sync_time_rest : Server → Endpoint → Result UploadError ℕ
unfolding send_http_request http_response_is_success parse_rest_time_unix_ms
sync_time_rest server endpoint =
    send_http_request server endpoint (codes "GET") time_path none [] >>= λ answer.
    if not (http_response_is_success answer)
    then err time
    else map_err (λ _. time) (parse_rest_time_unix_ms answer)

unfoldable pub sync_time : Option (List ℕ) → Server → Endpoint → Result UploadError ℕ
unfolding sync_time_sntp sync_time_rest
sync_time packet server endpoint = elim (sync_time_sntp packet) [
  | ok unix_ms ↦ ok unix_ms
  | err _ ↦ sync_time_rest server endpoint
]

-- ===== src/Upload/Runtime/Fits.antt =====
-- The buffers of tasks/upload/runtime.rs are large enough for what is posted.
use sleep_environment_monito.Prelude.{
  ℕ, ◌+◌, ◌≤◌, ◌<◌, ◌≡◌, refl, List, [], ◌∷◌, Option, some, ok, arith, length, drop, replicate,
  length-replicate, take-length-append, u16_max, usize_max,
}
use sleep_environment_monito.Prelude.Texts.{codes}
use sleep_environment_monito.Storage.Backlog.{StoredPayload, as_slice}
use sleep_environment_monito.Upload.{Endpoint, EndpointSource}
use sleep_environment_monito.Upload.Decimal.{length-digits, length-digits_le}
use sleep_environment_monito.Upload.Writer.{concat, written, written_fits}
use sleep_environment_monito.Upload.Json.{build_measurement_json, measurement_pieces}
use sleep_environment_monito.Upload.Json.Texts.{total, length-concat, measurement_length}
use sleep_environment_monito.Upload.Time.{TimeSyncState, select_payload_timestamp}
use sleep_environment_monito.Upload.Http.{build_http_request, request_pieces}
use sleep_environment_monito.Upload.Runtime.{
  encoded, payload_body, encode_request, endpoint_host_header, host_pieces, measurement_path,
  device_id, stored_payload_uptime, request_buffer_size,
}

-- A text that fits the buffer is what is sent.
encoded_fits :
    (pieces : List (List ℕ)) (size : ℕ)
    → length (concat pieces) ≤ size
    → size ≤ usize_max
    → encoded (written pieces (replicate size 0)) ≡ ok (concat pieces)
encoded_fits pieces size h small =
    rw
      (
        written_fits pieces (replicate size 0) (omega (arith, length-replicate {A = ℕ} size 0))
            (omega (arith, length-replicate {A = ℕ} size 0)),
        take-length-append (length (concat pieces)) (concat pieces)
            (drop (length (concat pieces)) (replicate size 0)) refl,
      )
      refl

abbrev pub at : ℕ → ℕ → ℕ → ℕ → ℕ → EndpointSource → Endpoint
at a b c d port source = record { ipv4 = a ∷ b ∷ c ∷ d ∷ []; port = port; source = source }

host_length :
    (a b c d port : ℕ)
    → a < 256
    → b < 256
    → c < 256
    → d < 256
    → port ≤ u16_max
    → length (concat (host_pieces (a ∷ b ∷ c ∷ d ∷ []) port)) ≤ 22
unfolding total
host_length a b c d port ha hb hc hd hp =
    rw (length-concat (host_pieces (a ∷ b ∷ c ∷ d ∷ []) port)) (
      omega (
        arith,
        length-digits_le 2 20 a (omega arith),
        length-digits_le 2 20 b (omega arith),
        length-digits_le 2 20 c (omega arith),
        length-digits_le 2 20 d (omega arith),
        length-digits_le 4 20 port (omega arith),
      ))

post_length :
    (host body : List ℕ)
    → length (
        concat (
          request_pieces
            (codes "POST")
            host
            measurement_path
            (some (codes "application/json"))
            body))
      ≤ 205 + length host + length body
unfolding request_pieces total
post_length host body =
    rw
      (length-concat (
        request_pieces (codes "POST") host measurement_path (some (codes "application/json")) body))
      (omega (arith, length-digits 20 (length body)))

-- Nothing that is stored is too long to send: the text of a stored payload of at most 384 bytes,
-- whatever its sequence and whatever the clock says, and the request that posts it to an address of
-- four bytes with a port of 16 bits, are written in full to their buffers of 1024 bytes.
pub post_fits :
    (payload : StoredPayload) (time_sync : Option TimeSyncState) (a b c d port : ℕ)
    (source : EndpointSource)
    → length (as_slice payload) ≤ 384
    → a < 256
    → b < 256
    → c < 256
    → d < 256
    → port ≤ u16_max
    → (body : List ℕ) × (request : List ℕ) × (payload_body payload time_sync ≡ ok body)
      × (encode_request
            (at a b c d port source)
            (codes "POST")
            measurement_path
            (some (codes "application/json"))
            body
          ≡ ok request)
      × (length request ≤ request_buffer_size)
unfolding payload_body build_measurement_json encode_request endpoint_host_header build_http_request
post_fits payload time_sync a b c d port source h ha hb hc hd hp = (
  body,
  concat (posting body),
  encoded_fits pieces request_buffer_size (omega (arith, body_length)) (omega arith),
  rw
      (
        encoded_fits (host_pieces (a ∷ b ∷ c ∷ d ∷ []) port) 22 host_fits (omega arith),
        encoded_fits (posting body) request_buffer_size long_enough (omega arith),
      )
      refl,
  long_enough,
)
  where
    pieces : List (List ℕ)
    pieces = measurement_pieces device_id payload.sequence (as_slice payload) (
        select_payload_timestamp payload.current_boot time_sync
          (stored_payload_uptime (as_slice payload)))

    body : List ℕ
    body = concat pieces

    host : List ℕ
    host = concat (host_pieces (a ∷ b ∷ c ∷ d ∷ []) port)

    posting : List ℕ → List (List ℕ)
    posting = request_pieces (codes "POST") host measurement_path (some (codes "application/json"))

    body_length : length body ≤ 185 + length (as_slice payload)
    body_length = measurement_length payload.sequence (as_slice payload) (
        select_payload_timestamp payload.current_boot time_sync
          (stored_payload_uptime (as_slice payload)))

    host_fits : length host ≤ 22
    host_fits = host_length a b c d port ha hb hc hd hp

    long_enough : length (concat (posting body)) ≤ request_buffer_size
    long_enough = omega (arith, post_length host body, body_length, host_fits, h)

-- ===== src/Upload/Runtime/Task.antt =====
-- firmware/src/tasks/upload/runtime.rs: a turn of the loop of `uploader_task`, and when it
-- acknowledges a record.
use sleep_environment_monito.Prelude.{
  ℕ, ◌^◌, ◌≡◌, refl, ◌∙◌, inl, inr, List, [], ◌∷◌, ◌++◌, true, Option, none, some, Result, ok, err,
  if◌then◌else◌, arith, wrapping_add, Result-cases,
}
use sleep_environment_monito.Prelude.Texts.{codes}
use sleep_environment_monito.Types.{UploadResult, success, discovery_failed, time_failed, ip_ready}
use sleep_environment_monito.Types.Snapshot.{
  NetworkUploadStatus, with_network_state, with_upload_result,
}
use sleep_environment_monito.Storage.Backlog.{StoredPayload}
use sleep_environment_monito.Storage.Protocol.{StorageResponse, peeked, acked, error}
use sleep_environment_monito.Upload.{Endpoint, resolve_endpoint, fallback_endpoint}
use sleep_environment_monito.Upload.Time.{TimeSyncState}
use sleep_environment_monito.Upload.Http.{http_response_is_success}
use sleep_environment_monito.Upload.Runtime.{
  UploadError, Server, should_retry, discovery_retry_secs, time_sync_retry_secs, discover_endpoint,
  sync_time, post_json_payload, payload_body, send_http_request, measurement_path,
  upload_result_for_error,
}

-- The variables of the loop; `logged_network_config` is for the log alone.
pub record Uploader : Type 0 where
  pub upload_success_count : ℕ
  pub discovered_endpoint : Option Endpoint
  pub time_sync : Option TimeSyncState
  pub last_discovery_attempt_ms : Option ℕ
  pub last_time_attempt_ms : Option ℕ

-- What the turn meets: the clock at its start and after a sync, the datagrams that come, the
-- server, and the answers of the storage task.
pub record Turn : Type 0 where
  pub now_ms : ℕ
  pub synced_ms : ℕ
  pub discovery : Option (List ℕ)
  pub sntp : Option (List ℕ)
  pub server : Server
  pub peek : StorageResponse

-- The state after the turn, the shared status, the results that it published in order, and the
-- sequence that it acknowledged.
pub record Done : Type 0 where
  pub uploader : Uploader
  pub status : NetworkUploadStatus
  pub published : List UploadResult
  pub acknowledged : Option ℕ

-- `publish_upload_result`: the signal, and the status.
unfoldable pub publish_upload_result : UploadResult → Done → Done
unfolding with_upload_result
publish_upload_result result d = record d {
  status = with_upload_result d.status result;
  published = d.published ++ result ∷ [];
}

unfoldable pub begin_turn : Uploader → NetworkUploadStatus → Done
unfolding with_network_state
begin_turn u status = record {
  uploader = u;
  status = with_network_state status ip_ready;
  published = [];
  acknowledged = none;
}

abbrev discovered_in : Done → Result UploadError Endpoint → Done
discovered_in d (ok endpoint) = record d {
  uploader = record d.uploader { discovered_endpoint = some endpoint };
}
discovered_in d (err _) = publish_upload_result discovery_failed d

unfoldable pub discovery_turn : Turn → Done → Done
unfolding should_retry discover_endpoint publish_upload_result
discovery_turn t d =
    if should_retry d.uploader.last_discovery_attempt_ms t.now_ms discovery_retry_secs
    then discovered_in
        (record d { uploader = record d.uploader { last_discovery_attempt_ms = some t.now_ms } })
        (discover_endpoint t.discovery)
    else d

unfoldable pub current_endpoint : Done → Endpoint
unfolding resolve_endpoint
current_endpoint d = resolve_endpoint (record {
  from_provisioning = none;
  from_discovery = d.uploader.discovered_endpoint;
  from_config = fallback_endpoint;
})

abbrev synced_in : Turn → Done → Result UploadError ℕ → Done
synced_in t d (ok unix_ms) = record d {
  uploader = record d.uploader {
    time_sync = some (record { boot_ms_at_sync = t.synced_ms; unix_ms_at_sync = unix_ms });
  };
}
synced_in t d (err _) = publish_upload_result time_failed d

unfoldable pub time_turn : Turn → Done → Done
unfolding should_retry sync_time publish_upload_result
time_turn t d =
    let endpoint = current_endpoint d in
    if should_retry d.uploader.last_time_attempt_ms t.now_ms time_sync_retry_secs
    then synced_in t
        (record d { uploader = record d.uploader { last_time_attempt_ms = some t.now_ms } })
        (sync_time t.sntp t.server endpoint)
    else d

-- `peek_payload`
unfoldable pub peek_payload : StorageResponse → Option StoredPayload
peek_payload (peeked payload) = payload
peek_payload (acked _) = none
peek_payload (error _) = none

unfoldable pub posted : Done → StoredPayload → Result UploadError (Unit {0}) → Done
unfolding publish_upload_result upload_result_for_error
posted d payload (ok _) =
    let d' : Done = record d { acknowledged = some payload.sequence } in
    let d'' = publish_upload_result success d' in
    record d'' {
      uploader = record d''.uploader {
        upload_success_count = wrapping_add (2 ^ 32) d''.uploader.upload_success_count 1;
      };
    }
posted d payload (err e) = publish_upload_result (upload_result_for_error e) d

-- With nothing to upload the turn only waits.
unfoldable pub payload_turn : Turn → Done → Done
unfolding posted peek_payload post_json_payload
payload_turn t d = elim (peek_payload t.peek) [
  | none ↦ d
  | some payload ↦
      posted d payload
        (post_json_payload t.server (current_endpoint d) payload d.uploader.time_sync)
]

unfoldable pub turn : Turn → Uploader → NetworkUploadStatus → Done
unfolding begin_turn discovery_turn time_turn payload_turn
turn t u status = payload_turn t (time_turn t (discovery_turn t (begin_turn u status)))

-- The server answered the post of the payload with a status from 200 to 299.
pub record IsPosted (t : Turn) (d : Done) (payload : StoredPayload) : Type 0 where
  pub body : List ℕ
  pub answer : List ℕ
  pub body_lem : payload_body payload d.uploader.time_sync ≡ ok body
  pub sent :
      send_http_request t.server
        (current_endpoint d)
        (codes "POST")
        measurement_path
        (some (codes "application/json"))
        body
      ≡ ok answer
  pub is_success : http_response_is_success answer ≡ true

post_success :
    (t : Turn) (d : Done) (payload : StoredPayload)
    → post_json_payload t.server (current_endpoint d) payload d.uploader.time_sync ≡ ok tt
    → IsPosted t d payload
unfolding post_json_payload
post_success t d payload h = elim (Result-cases (payload_body payload d.uploader.time_sync)) [
  | inr (e, failed) ↦ absurd (ground (arith, rw (failed, post_json_payload) at h))
  | inl (body, built) ↦
      elim (Result-cases (
        send_http_request t.server (current_endpoint d) (codes "POST") measurement_path
          (some (codes "application/json")) body)) [
            | inr (e, failed) ↦ absurd (ground (arith, rw (built, failed, post_json_payload) at h))
            | inl (answer, sent) ↦ record {
              body = body;
              answer = answer;
              body_lem = built;
              sent = sent;
              is_success = ground (arith, rw (built, sent, post_json_payload) at h);
            }
          ]
]

discovery_acks_none : (t : Turn) (d : Done) → (discovery_turn t d).acknowledged ≡ d.acknowledged
unfolding discovery_turn publish_upload_result
discovery_acks_none t d = ground arith

time_acks_none : (t : Turn) (d : Done) → (time_turn t d).acknowledged ≡ d.acknowledged
unfolding time_turn publish_upload_result
time_acks_none t d = ground arith

payload_acks :
    (t : Turn) (d : Done) (sequence : ℕ) (payload : StoredPayload)
    → d.acknowledged ≡ none
    → (posted d payload
        (post_json_payload t.server (current_endpoint d) payload d.uploader.time_sync)).acknowledged
      ≡ some sequence
    → (payload.sequence ≡ sequence)
      × (post_json_payload t.server (current_endpoint d) payload d.uploader.time_sync ≡ ok tt)
unfolding posted publish_upload_result
payload_acks t d sequence payload none_yet h =
    elim (Result-cases
      (post_json_payload t.server (current_endpoint d) payload d.uploader.time_sync)) [
        | inl (_, e) ↦ (ground (arith, rw (e, posted) at h), e)
        | inr (_, e) ↦ absurd (ground (arith, none_yet, rw (e, posted) at h))
      ]

turn_acks :
    (t : Turn) (d : Done) (sequence : ℕ) (r : StorageResponse)
    → t.peek ≡ r
    → d.acknowledged ≡ none
    → (payload_turn t d).acknowledged ≡ some sequence
    → (payload : StoredPayload) × (t.peek ≡ peeked (some payload))
      × (payload.sequence ≡ sequence)
      × (post_json_payload t.server (current_endpoint d) payload d.uploader.time_sync ≡ ok tt)
unfolding payload_turn peek_payload
turn_acks t d sequence (peeked (some payload)) e none_yet h =
    let (same, done) =
      payload_acks t d sequence payload none_yet (rw (e, payload_turn, peek_payload) at h) in
    (payload, e, same, done)
turn_acks t d sequence (peeked none) e none_yet h = absurd (ground (arith, e, none_yet, h))
turn_acks t d sequence (acked _) e none_yet h = absurd (ground (arith, e, none_yet, h))
turn_acks t d sequence (error _) e none_yet h = absurd (ground (arith, e, none_yet, h))

-- A turn that acknowledges a sequence had it from the storage task as the oldest record, built the
-- text of the measurement for it, and got an answer with a status from 200 to 299 when it posted
-- this text.
pub acks_after_post :
    (t : Turn) (u : Uploader) (status : NetworkUploadStatus) (sequence : ℕ)
    → (turn t u status).acknowledged ≡ some sequence
    → (payload : StoredPayload) × (t.peek ≡ peeked (some payload))
      × (payload.sequence ≡ sequence)
      × IsPosted t (time_turn t (discovery_turn t (begin_turn u status))) payload
unfolding turn begin_turn
acks_after_post t u status sequence h =
    let d = time_turn t (discovery_turn t (begin_turn u status)) in
    let (payload, peek, same, posted) =
      turn_acks t d sequence t.peek refl
        (time_acks_none t _ ∙ discovery_acks_none t (begin_turn u status)) h in
    (payload, peek, same, post_success t d payload posted)

-- ===== src/Storage/Task.antt =====
-- firmware/src/tasks/storage/runtime.rs: `storage_task`. A command that the task receives is a step
-- of its state. What it signals to the other tasks and logs in the step is a list of outputs, in
-- the order of the source; the status behind the mutex, which other tasks write as well, goes in
-- and out of a step.
pub mod Runs
mod Tests
use sleep_environment_monito.Prelude.{
  ℕ, zero, ◌+◌, ◌%◌, ◌^◌, List, [], ◌∷◌, ◌++◌, Bool, true, false, not, ◌&&◌, Option, none, some,
  ◌==◌, ltb, leb, bit_or, if◌then◌else◌, Result, ok, err, u16_max, wrapping_add,
}
use sleep_environment_monito.Flash.{FlashStorage, FlashError, out_of_bounds}
use sleep_environment_monito.Types.ErrorFlags
use sleep_environment_monito.Types.ErrorFlags.{Flags}
use sleep_environment_monito.Types.Snapshot.{
  FirmwareStatusSnapshot, with_pending_record_count, with_error_flags,
}
use sleep_environment_monito.Spool.Codec.{flash}
use sleep_environment_monito.Storage.Backlog
use sleep_environment_monito.Storage.Backlog.{
  StorageBacklog, StorageError, StorageMetrics, StoredPayload, spool_error, append_measurement,
  peek_payload, acknowledge_sequence,
}
use sleep_environment_monito.Storage.Protocol.{
  StorageClient, StorageCommand, StorageResponse, append, peek, ack, peeked, acked, error,
}

abbrev pub metrics_log_every_events : ℕ
metrics_log_every_events = 16

-- A response on the client's signal, error flags on theirs, and the metrics in the log.
pub data Output : Type 0 where
  answer : StorageClient → StorageResponse → Output
  raise : Flags → Output
  logged : StorageMetrics → Output

abbrev pub Status : Type 0
Status = FirmwareStatusSnapshot

unfoldable pub publish_pending_record_count : StorageMetrics → Status → Status
unfolding with_pending_record_count
publish_pending_record_count metrics status =
    with_pending_record_count status
      (if leb metrics.pending_record_count u16_max then metrics.pending_record_count else u16_max)

-- `publish_storage_error`: the signal, and the status.
abbrev pub storage_signal : Output
storage_signal = raise ErrorFlags.storage

unfoldable pub publish_storage_error : Status → Status
unfolding with_error_flags
publish_storage_error status =
    with_error_flags status (bit_or status.error_flags ErrorFlags.storage)

abbrev pub is_none {ℓ} : {A : Type ℓ} → Option A → Bool
is_none none = true
is_none (some _) = false

abbrev pub is_some {ℓ} : {A : Type ℓ} → Option A → Bool
is_some o = not (is_none o)

unfoldable pub log_storage_metrics : StorageMetrics → Bool → ℕ → List Output
log_storage_metrics metrics force event_count =
    if not force
      && not (event_count == 1)
      && not (event_count % metrics_log_every_events == 0)
      && is_none metrics.last_error
    then []
    else logged metrics ∷ []

abbrev pub no_flash : StorageError
no_flash = spool_error (flash out_of_bounds)

-- `storage_unavailable_error.unwrap_or(…)`
abbrev pub unavailable_response : Option StorageError → StorageResponse
unavailable_response none = error no_flash
unavailable_response (some e) = error e

abbrev pub count_event : ℕ → ℕ
count_event count = wrapping_add (2 ^ 32) count 1

-- The variables of the loop: the backlog or why there is none, the count of events, and the flash.
pub record Task (S : Type 0) : Type 0 where
  pub backlog : Option StorageBacklog
  pub storage_unavailable_error : Option StorageError
  pub storage_event_count : ℕ
  pub flash : S

-- The task in one of its two loops: without a flash, or with one.
pub data Server (S : Type 0) : Type 0 where
  without_flash : Server S
  with_flash : Task S → Server S

module _ {M S : Type 0} (json : M → Result (Unit {0}) (List ℕ)) (F : FlashStorage S)
    (capacity size : ℕ) where
  abbrev pub Step : Type 0
  Step = Task S × Status × List Output

  -- The task after a call of the backlog.
  abbrev pub counted : Task S → StorageBacklog → S → Task S
  counted task backlog s = record {
    backlog = some backlog;
    storage_unavailable_error = task.storage_unavailable_error;
    storage_event_count = count_event task.storage_event_count;
    flash = s;
  }

  -- The two arms on the result of `append_measurement`; `before` is `dropped_oldest_before`.
  unfoldable pub appended :
      ℕ → Task S → Status → Result StorageError (Unit {0}) × StorageBacklog × S → Step
  unfolding publish_pending_record_count publish_storage_error log_storage_metrics
  appended before task status (ok _, b, s) = (
    counted task b s,
    publish_pending_record_count b.metrics status,
    log_storage_metrics b.metrics (before == 0 && ltb 0 b.metrics.dropped_oldest_count)
        (count_event task.storage_event_count),
  )
  appended before task status (err _, b, s) = (
    counted task b s,
    publish_storage_error (publish_pending_record_count b.metrics status),
    log_storage_metrics b.metrics true (count_event task.storage_event_count)
        ++ storage_signal ∷ [],
  )

  -- The two arms on the result of `acknowledge_sequence`.
  unfoldable pub acknowledged :
      StorageClient
      → Task S
      → Status
      → Result StorageError (Option StoredPayload) × StorageBacklog × S
      → Step
  unfolding publish_pending_record_count publish_storage_error log_storage_metrics
  acknowledged client task status (ok record_freed, b, s) = (
    counted task b s,
    publish_pending_record_count b.metrics status,
    log_storage_metrics b.metrics false (count_event task.storage_event_count)
        ++ answer client (acked (is_some record_freed)) ∷ [],
  )
  acknowledged client task status (err e, b, s) = (
    counted task b s,
    publish_storage_error status,
    log_storage_metrics b.metrics true (count_event task.storage_event_count)
        ++ answer client (error e) ∷ storage_signal ∷ [],
  )

  -- A round of the loop with a backlog.
  unfoldable pub serve : StorageBacklog → Task S → Status → StorageCommand M → Step
  unfolding appended acknowledged
  serve b task status (append measurement) =
      appended b.metrics.dropped_oldest_count task status
        (append_measurement F capacity size (json measurement) b task.flash)
  serve b task status (peek client) =
      (task, status, answer client (peeked (peek_payload F capacity size b)) ∷ [])
  serve b task status (ack client sequence) =
      acknowledged client task status (acknowledge_sequence F capacity size sequence b task.flash)

  -- A round of the loop without one.
  unfoldable pub serve_unavailable : Task S → Status → StorageCommand M → Step
  unfolding publish_storage_error
  serve_unavailable task status (append measurement) =
      (task, publish_storage_error status, storage_signal ∷ [])
  serve_unavailable task status (peek client) =
      (task, status, answer client (unavailable_response task.storage_unavailable_error) ∷ [])
  serve_unavailable task status (ack client sequence) = (
    task,
    publish_storage_error status,
    answer client (unavailable_response task.storage_unavailable_error) ∷ storage_signal ∷ [],
  )

  abbrev pub round_on : Option StorageBacklog → Task S → Status → StorageCommand M → Step
  round_on none = serve_unavailable
  round_on (some b) = serve b

  unfoldable pub round : Task S → Status → StorageCommand M → Step
  unfolding serve serve_unavailable
  round task = round_on task.backlog task

  -- What happens before the loop, once the flash is opened. `none` is the recovery out of fuel.
  unfoldable pub start : S → Status → Option Step
  unfolding publish_pending_record_count publish_storage_error log_storage_metrics
  start s status = elim (Backlog.recover F capacity size s) [
    | none ↦ none
    | some (ok b, s') ↦ some (
      record {
        backlog = some b;
        storage_unavailable_error = none;
        storage_event_count = 0;
        flash = s';
      },
      publish_pending_record_count b.metrics status,
      log_storage_metrics b.metrics true 0,
    )
    | some (err e, s') ↦ some (
      record {
        backlog = none;
        storage_unavailable_error = some e;
        storage_event_count = 0;
        flash = s';
      },
      publish_storage_error status,
      storage_signal ∷ [],
    )
  ]

  -- The loop that stands in when there is no flash to open.
  unfoldable pub round_without_flash : Status → StorageCommand M → Status × List Output
  unfolding publish_storage_error
  round_without_flash status (append measurement) =
      (publish_storage_error status, storage_signal ∷ [])
  round_without_flash status (peek client) = (status, answer client (error no_flash) ∷ [])
  round_without_flash status (ack client sequence) = (status, answer client (error no_flash) ∷ [])

  -- The whole of `storage_task` before its loops. `opened` is the flash, if it can be opened.
  unfoldable pub boot : Option S → Status → Option (Server S × Status × List Output)
  unfolding start publish_storage_error
  boot none status = some (without_flash, publish_storage_error status, storage_signal ∷ [])
  boot (some s) status = elim (start s status) [
    | none ↦ none
    | some (task, status', outputs) ↦ some (with_flash task, status', outputs)
  ]

  -- A round of the loop that the task is in.
  unfoldable pub serve_command :
      Server S → Status → StorageCommand M → Server S × Status × List Output
  unfolding round round_without_flash
  serve_command without_flash status command =
      let (status', outputs) = round_without_flash status command in
      (without_flash, status', outputs)
  serve_command (with_flash task) status command =
      let (task', status', outputs) = round task status command in
      (with_flash task', status', outputs)

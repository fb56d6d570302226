-- ===== src/Storage/Task/Runs.antt =====
-- What the storage task of tasks/storage/runtime.rs keeps to over a run, with the writes that the
-- aggregator makes to the status between the steps (`publish_error_flags` of tasks/aggregator.rs).
use sleep_environment_monito.Prelude.{
  ℕ, ◌≡◌, refl, ap, ap₂, ◌∙◌, List, [], ◌∷◌, ◌++◌, Option, none, some, leb, Result, ok, err,
  u16_max, if◌then◌else◌, arith,
}
use sleep_environment_monito.Flash.{FlashStorage}
use sleep_environment_monito.Types.ErrorFlags.{Flags}
use sleep_environment_monito.Types.Snapshot.{with_error_flags}
use sleep_environment_monito.Storage.Backlog
use sleep_environment_monito.Storage.Backlog.{
  StorageBacklog, StorageMetrics, StorageError, append_measurement,
}
use sleep_environment_monito.Storage.Protocol.{StorageClient, StorageCommand, append, peek, ack}
use sleep_environment_monito.Storage.Task.{
  Output, answer, raise, logged, Status, Task, log_storage_metrics, appended, acknowledged, serve,
  serve_unavailable, round_on, round, round_without_flash, Server, without_flash, with_flash,
  serve_command,
}

pub data Event (M : Type 0) : Type 0 where
  request : StorageCommand M → Event M
  publish_error_flags : Flags → Event M

-- The clients that outputs answer, in order.
unfoldable pub answered : List Output → List StorageClient
answered [] = []
answered (answer client _ ∷ outputs) = client ∷ answered outputs
answered (raise _ ∷ outputs) = answered outputs
answered (logged _ ∷ outputs) = answered outputs

-- The clients that wait for an answer, in order.
unfoldable pub waiting : {M : Type 0} → List (Event M) → List StorageClient
waiting [] = []
waiting (request (append _) ∷ events) = waiting events
waiting (request (peek client) ∷ events) = client ∷ waiting events
waiting (request (ack client _) ∷ events) = client ∷ waiting events
waiting (publish_error_flags _ ∷ events) = waiting events

answered-append : (a b : List Output) → answered (a ++ b) ≡ answered a ++ answered b
unfolding answered
answered-append [] b = refl
answered-append (answer client _ ∷ a) b = ap (λ l. client ∷ l) (answered-append a b)
answered-append (raise _ ∷ a) b = answered-append a b
answered-append (logged _ ∷ a) b = answered-append a b

abbrev pub saturated : ℕ → ℕ
saturated n = if leb n u16_max then n else u16_max

abbrev pub IsPublishedOf : Option StorageBacklog → Status → Type 0
IsPublishedOf none status = Unit
IsPublishedOf (some b) status =
    status.pending_record_count ≡ saturated b.metrics.pending_record_count

-- The published count is that of the backlog.
abbrev pub IsPublishedTask : {S : Type 0} → Task S → Status → Type 0
IsPublishedTask task status = IsPublishedOf task.backlog status

abbrev pub IsPublished : {S : Type 0} → Server S → Status → Type 0
IsPublished without_flash status = Unit
IsPublished (with_flash task) status = IsPublishedTask task status

module _ {M S : Type 0} (json : M → Result (Unit {0}) (List ℕ)) (F : FlashStorage S)
    (capacity size : ℕ) where
  unfoldable pub run : List (Event M) → Server S → Status → Server S × Status × List Output
  unfolding with_error_flags serve_command
  run [] server status = (server, status, [])
  run (request command ∷ events) server status =
      let (server', status', outputs) = serve_command json F capacity size server status command in
      let (server'', status'', more) = run events server' status' in
      (server'', status'', outputs ++ more)
  run (publish_error_flags flags ∷ events) server status =
      run events server (with_error_flags status flags)

  appended_answers_none :
      (before : ℕ) (task : Task S) (status : Status)
      (r : Result StorageError (Unit {0}) × StorageBacklog × S)
      → answered (appended json F capacity size before task status r).2 ≡ []
  unfolding appended answered log_storage_metrics
  appended_answers_none before task status (ok _, b, s) = ground arith
  appended_answers_none before task status (err _, b, s) = ground arith

  acknowledged_answers :
      (client : StorageClient) (task : Task S) (status : Status)
      (r : Result StorageError (Option Backlog.StoredPayload) × StorageBacklog × S)
      → answered (acknowledged json F capacity size client task status r).2 ≡ client ∷ []
  unfolding acknowledged answered log_storage_metrics
  acknowledged_answers client task status (ok _, b, s) = ground arith
  acknowledged_answers client task status (err _, b, s) = ground arith

  round_answers :
      (o : Option StorageBacklog) (task : Task S) (status : Status) (command : StorageCommand M)
      → answered (round_on json F capacity size o task status command).2
        ≡ waiting (request command ∷ [])
  unfolding serve serve_unavailable answered waiting
  round_answers none task status (append m) = refl
  round_answers none task status (peek client) = refl
  round_answers none task status (ack client sequence) = refl
  round_answers (some b) task status (append m) =
      appended_answers_none b.metrics.dropped_oldest_count task status
        (append_measurement F capacity size (json m) b task.flash)
  round_answers (some b) task status (peek client) = refl
  round_answers (some b) task status (ack client sequence) =
      acknowledged_answers client task status _

  waiting_cons :
      (command : StorageCommand M) (events : List (Event M))
      → waiting (request command ∷ events) ≡ waiting (request command ∷ []) ++ waiting events
  unfolding waiting
  waiting_cons (append m) events = refl
  waiting_cons (peek client) events = refl
  waiting_cons (ack client sequence) events = refl

  command_answers :
      (server : Server S) (status : Status) (command : StorageCommand M)
      → answered (serve_command json F capacity size server status command).2
        ≡ waiting (request command ∷ [])
  unfolding serve_command round round_without_flash answered waiting
  command_answers without_flash status (append m) = refl
  command_answers without_flash status (peek client) = refl
  command_answers without_flash status (ack client sequence) = refl
  command_answers (with_flash task) status command = round_answers task.backlog task status command

  -- Over any run, in either loop of the task, whether there is a flash and a backlog or not and
  -- whatever fails, each request for a record or for an acknowledgement is answered once, to the
  -- client that made it, in the order of the requests; an append is not answered.
  pub run_answers :
      (events : List (Event M)) (server : Server S) (status : Status)
      → answered (run events server status).2 ≡ waiting events
  unfolding run answered waiting
  run_answers [] server status = refl
  run_answers (request command ∷ events) server status =
      let (server', status', outputs) = serve_command json F capacity size server status command in
      rw (waiting_cons command events) (
        answered-append outputs (run events server' status').2
        ∙ ap₂ (λ a b. a ++ b) (command_answers server status command)
            (run_answers events server' status'))
  run_answers (publish_error_flags flags ∷ events) server status =
      run_answers events server (with_error_flags status flags)

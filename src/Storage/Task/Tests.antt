-- ===== src/Storage/Task/Tests.antt =====
-- The storage task over a region of 64 erased cells, where a measurement is a byte.
use sleep_environment_monito.Prelude.{ℕ, ◌≡◌, refl, List, [], ◌∷◌, none, some, Result, ok}
use sleep_environment_monito.Flash.Model.{InMemoryFlash, storage}
use sleep_environment_monito.Flash.Model
use sleep_environment_monito.Queue
use sleep_environment_monito.Spool.Codec.{encoded_record_len}
use sleep_environment_monito.Spool.Memory
use sleep_environment_monito.Spool.Backed
use sleep_environment_monito.Spool.Backed.Recover.{recover_with_report, scan_round}
use sleep_environment_monito.Storage.Backlog
use sleep_environment_monito.Storage.Protocol.{append, peek, ack, wifi, ble}
use sleep_environment_monito.Storage.Task.{Task, Status, logged, start, with_flash, boot}
use sleep_environment_monito.Storage.Task.Runs.{
  Event, request, publish_error_flags, answered, waiting, run, run_answers,
}

abbrev byte_json : ℕ → Result (Unit {0}) (List ℕ)
byte_json m = ok (m ∷ [])

abbrev opened : Task InMemoryFlash
opened = record {
  backlog = some (Backlog.new 2);
  storage_unavailable_error = none;
  storage_event_count = 0;
  flash = Model.new 64;
}

abbrev status : Status
status = record { pending_record_count = 0; error_flags = 0 }

abbrev events : List (Event ℕ)
events =
    request (peek wifi)
    ∷ request (append 65)
    ∷ publish_error_flags 4
    ∷ request (ack ble 0)
    ∷ request (peek ble)
    ∷ []

waiting_clients : waiting events ≡ wifi ∷ ble ∷ ble ∷ []
unfolding waiting
waiting_clients = refl

opening :
    boot byte_json (storage 64) 2 8 (some (Model.new 64)) status
    ≡ some (with_flash opened, status, logged Backlog.no_metrics ∷ [])
unfolding boot start Backlog.recover recover_with_report encoded_record_len Model.new scan_round
    Model.read Memory.recover_with_next_sequence Queue.new Memory.peek Queue.front Backlog.new
    Backlog.refresh_pending_count Backed.new
opening = refl

run_answers_example :
    answered (run byte_json (storage 64) 2 8 events (with_flash opened) status).2 ≡ waiting events
run_answers_example = run_answers byte_json (storage 64) 2 8 events (with_flash opened) status

-- ===== src/Storage/Backlog/Tests.antt =====
-- The theorems on tasks/storage/backlog.rs: the metrics after an append that does not fit, and the
-- recovery of a region that holds no log.
use sleep_environment_monito.Prelude.{◌≢◌, none, ok, replicate}
use sleep_environment_monito.Flash.Model.{InMemoryFlash, new, storage}
use sleep_environment_monito.Storage.Backlog
use sleep_environment_monito.Storage.Backlog.{append_measurement, recover}
use sleep_environment_monito.Storage.Backlog.Reports.{IsReported, append-IsReported}
use sleep_environment_monito.Storage.Backlog.Total.{backlog_total}

append-IsReported_example :
    IsReported
      (append_measurement (storage 64) 2 8 (ok (replicate 9 65)) (Backlog.new 2) (new 64)).0
      (append_measurement (storage 64) 2 8 (ok (replicate 9 65)) (Backlog.new 2) (new 64)).1
append-IsReported_example =
    append-IsReported (storage 64) 2 8 (ok (replicate 9 65)) (Backlog.new 2) (new 64)

abbrev garbage : InMemoryFlash
garbage = record { cells = replicate 64 17 }

backlog_total_example : recover (storage 64) 2 8 garbage ≢ none
backlog_total_example = backlog_total (storage 64) 2 8 garbage

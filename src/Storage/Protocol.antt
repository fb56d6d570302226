-- ===== src/Storage/Protocol.antt =====
-- firmware/src/tasks/storage/protocol.rs: what the other tasks ask of the storage task and what
-- it answers. `M` is the type of a measurement.
use sleep_environment_monito.Prelude.{ℕ, Bool, Option}
use sleep_environment_monito.Storage.Backlog.{StorageError, StoredPayload}

pub data StorageClient : Type 0 where
  wifi ble : StorageClient

pub data StorageCommand (M : Type 0) : Type 0 where
  append : M → StorageCommand M
  peek : StorageClient → StorageCommand M
  ack : StorageClient → ℕ → StorageCommand M

pub data StorageResponse : Type 0 where
  peeked : Option StoredPayload → StorageResponse
  acked : Bool → StorageResponse
  error : StorageError → StorageResponse

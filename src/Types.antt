-- ===== src/Types.antt =====
-- firmware/src/types.rs: the error flags and the states that the tasks share.
pub mod ErrorFlags
pub mod Samples
pub mod Snapshot

pub data NetworkState : Type 0 where
  disconnected connecting connected ip_ready : NetworkState

pub data UploadResult : Type 0 where
  idle success failed discovery_failed time_failed transport_failed http_failed : UploadResult

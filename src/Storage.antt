-- ===== src/Storage.antt =====
-- firmware/src/tasks/storage: the backlog that the storage task keeps, and the task over it.
pub mod Backlog
pub mod Protocol
pub mod Task

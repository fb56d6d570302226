-- ===== src/Spool.antt =====
-- firmware/src/storage/spool: the queue of measurements that survives a reboot. `Codec` is the
-- byte format, `Memory` the queue in memory, `Log` what the flash holds, `Flash` the two together.
pub mod Crc
pub mod Codec
pub mod Memory
pub mod Backed
pub mod Log
mod Tests

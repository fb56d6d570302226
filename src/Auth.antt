-- ===== src/Auth.antt =====
-- firmware/src/storage/ble_auth: the stored keys of paired clients, a header with checksums and a
-- list of records in a flash region of their own.
pub mod Record
pub mod Upsert
pub mod Store
mod Tests

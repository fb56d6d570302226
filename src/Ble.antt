-- ===== src/Ble.antt =====
-- firmware/src/tasks/ble: the frames of the transfer protocol, the transfer of a record to a
-- client, and the gesture that opens the pairing window.
pub mod Protocol
pub mod Transfer
pub mod Pairing
pub mod Keys
pub mod PairingTask
pub mod Gatt
pub mod Status
mod Tests

-- ===== src/Sensors.antt =====
-- firmware/src/drivers: the sensors.
pub mod Sht40

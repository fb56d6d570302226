-- ===== src/Types/Samples.antt =====
-- firmware/src/types.rs: the samples, the measurement that is made of them, and the status of the
-- clock. `R` is `f32`, whose arithmetic is not modelled.
use sleep_environment_monito.Prelude.{ℕ, List, Option}
use sleep_environment_monito.Prelude.Texts.{codes}
use sleep_environment_monito.Types.ErrorFlags.{Flags}

pub record EnvSample (R : Type 0) : Type 0 where
  pub uptime_ms : ℕ
  pub temperature_c : Option R
  pub humidity_percent : Option R
  pub lux : Option R
  pub error_flags : Flags

pub record MicSample (R : Type 0) : Type 0 where
  pub uptime_ms : ℕ
  pub mean : R
  pub rms : R
  pub peak : R
  pub db_rel : R
  pub clip_count : ℕ
  pub error_flags : Flags

pub record Measurement (R : Type 0) : Type 0 where
  pub uptime_ms : ℕ
  pub temperature_c : Option R
  pub humidity_percent : Option R
  pub lux : Option R
  pub mic_mean : R
  pub mic_rms : R
  pub mic_peak : R
  pub mic_db_rel : R
  pub mic_clip_count : ℕ
  pub error_flags : Flags

pub data TimeStatus : Type 0 where
  unknown uptime_only wall_clock_synced : TimeStatus

unfoldable pub as_json_str : TimeStatus → List ℕ
as_json_str unknown = codes "unknown"
as_json_str uptime_only = codes "uptime_only"
as_json_str wall_clock_synced = codes "wall_clock_synced"

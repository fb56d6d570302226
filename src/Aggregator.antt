-- ===== src/Aggregator.antt =====
-- firmware/src/tasks/aggregator.rs: `aggregator_task`, which merges the samples of the sensors into
-- measurements for the storage task, and firmware/src/util/logging.rs. `R` is `f32`.
use sleep_environment_monito.Prelude.{
  ℕ, ◌%◌, ◌^◌, Bool, not, ◌||◌, Option, none, some, ◌==◌, max, bit_or, if◌then◌else◌, wrapping_add,
}
use sleep_environment_monito.Types.ErrorFlags
use sleep_environment_monito.Types.ErrorFlags.{Flags, insert}
use sleep_environment_monito.Types.Samples.{EnvSample, MicSample, Measurement}
use sleep_environment_monito.Types.Snapshot.{FirmwareStatusSnapshot, with_error_flags}
use sleep_environment_monito.Storage.Protocol.{StorageCommand, append}

-- `ErrorFlags::is_empty` is the test for 0; every number is a multiple of the period 0 only if it
-- is 0, and the period 0 logs every sample.
unfoldable pub should_log_sample : ℕ → ℕ → Flags → Bool
should_log_sample sample_index period flags =
    not (flags == 0) || (period == 0 || (sample_index == 0 || sample_index % period == 0))

abbrev pub measurement_log_every_samples : ℕ
measurement_log_every_samples = 60

module _ {R : Type 0} where
  unfoldable pub merge_measurement : EnvSample R → MicSample R → Measurement R
  merge_measurement env mic = record {
    uptime_ms = max env.uptime_ms mic.uptime_ms;
    temperature_c = env.temperature_c;
    humidity_percent = env.humidity_percent;
    lux = env.lux;
    mic_mean = mic.mean;
    mic_rms = mic.rms;
    mic_peak = mic.peak;
    mic_db_rel = mic.db_rel;
    mic_clip_count = mic.clip_count;
    error_flags = bit_or env.error_flags mic.error_flags;
  }

-- The variables of the loop.
pub record Aggregator (R : Type 0) : Type 0 where
  pub latest_env : EnvSample R
  pub latest_mic : MicSample R
  pub measurement_count : ℕ

-- What a turn does: the command that it offers to the channel, whether it logs the measurement, and
-- the flags that it signals.
pub record Done (R : Type 0) : Type 0 where
  pub aggregator : Aggregator R
  pub status : FirmwareStatusSnapshot
  pub offered : StorageCommand (Measurement R)
  pub logged : Bool
  pub raised : Flags

module _ {R : Type 0} where
  -- `try_take` of the sensor's samples
  abbrev latest : Option (EnvSample R) → EnvSample R → EnvSample R
  latest none env = env
  latest (some env') env = env'

  -- A turn over what the turn meets: the sensor's sample if there is one, whether the channel of
  -- the storage task takes the command, and the microphone's next sample.
  unfoldable pub turn :
      Option (EnvSample R) → Bool → MicSample R → Aggregator R → FirmwareStatusSnapshot → Done R
  unfolding merge_measurement should_log_sample insert with_error_flags
  turn env stored next_mic a status =
      let latest_env = latest env a.latest_env in
      let measurement = merge_measurement latest_env a.latest_mic in
      let flags =
        if not stored
        then insert measurement.error_flags ErrorFlags.storage
        else measurement.error_flags in
      record {
        aggregator = record {
          latest_env = latest_env;
          latest_mic = next_mic;
          measurement_count = wrapping_add (2 ^ 32) a.measurement_count 1;
        };
        status = with_error_flags status flags;
        offered = append measurement;
        logged =
            should_log_sample a.measurement_count measurement_log_every_samples
              measurement.error_flags;
        raised = flags;
      }

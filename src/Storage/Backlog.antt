-- ===== src/Storage/Backlog.antt =====
-- firmware/src/tasks/storage/backlog.rs and types.rs: `StorageBacklog`, the spool of the storage
-- task with its metrics. A method that gets the flash gives its result, the backlog and the flash
-- after the call. The JSON text of a measurement, or the failure to write it, is an argument.
pub mod Reports
pub mod Total
mod Tests
use sleep_environment_monito.Prelude.{
  ℕ, zero, suc, ◌+◌, ◌-◌, ◌/◌, ◌^◌, List, ◌++◌, Bool, Option, none, some, ◌==◌, ltb, bit_and, min,
  if◌then◌else◌, Result, ok, err, length, take, replicate, usize_max, u64_max, saturating_add,
  wrapping_sub,
}
use sleep_environment_monito.Flash.{FlashStorage}
use sleep_environment_monito.Types.ErrorFlags
use sleep_environment_monito.Types.ErrorFlags.{Flags}
use sleep_environment_monito.Spool.Codec.{SpoolRecord, SpoolError}
use sleep_environment_monito.Spool.Memory
use sleep_environment_monito.Spool.Memory.{StoredRecord, AppendResult, as_record}
use sleep_environment_monito.Spool.Backed
use sleep_environment_monito.Spool.Backed.{BackedSpool}
use sleep_environment_monito.Spool.Backed.Recover.{recover_with_report}

pub data StorageError : Type 0 where
  encode : StorageError
  spool_error : SpoolError → StorageError

pub record StorageMetrics : Type 0 where
  pub pending_record_count : ℕ
  pub dropped_oldest_count : ℕ
  pub recovered_record_count : ℕ
  pub skipped_legacy_record_count : ℕ
  pub corrupt_record_count : ℕ
  pub last_error : Option StorageError

pub record StoredPayload : Type 0 where
  pub sequence : ℕ
  pub payload : List ℕ
  pub payload_len : ℕ
  pub payload_flags : ℕ
  pub current_boot : Bool

abbrev pub payload_flag_json_fields : ℕ
payload_flag_json_fields = 1

-- `StoredPayload::from_record`: the payload goes to the front of `size` zeroed bytes.
unfoldable pub from_record : ℕ → SpoolRecord → Bool → StoredPayload
from_record size r current_boot =
    let payload_len = min (length r.payload) size in
    record {
      sequence = r.sequence;
      payload = take payload_len r.payload ++ replicate (size - payload_len) 0;
      payload_len = payload_len;
      payload_flags = r.flags;
      current_boot = current_boot;
    }

unfoldable pub as_slice : StoredPayload → List ℕ
as_slice p = take p.payload_len p.payload

pub record StorageBacklog : Type 0 where
  pub spool : BackedSpool
  pub metrics : StorageMetrics
  pub current_boot_first_sequence : ℕ

abbrev pub no_metrics : StorageMetrics
no_metrics = record {
  pending_record_count = 0;
  dropped_oldest_count = 0;
  recovered_record_count = 0;
  skipped_legacy_record_count = 0;
  corrupt_record_count = 0;
  last_error = none;
}

unfoldable pub new : ℕ → StorageBacklog
new capacity = record {
  spool = Backed.new capacity;
  metrics = no_metrics;
  current_boot_first_sequence = 0;
}

unfoldable pub refresh_pending_count : StorageBacklog → StorageBacklog
refresh_pending_count b = record b {
  metrics = record b.metrics { pending_record_count = Backed.len b.spool };
}

unfoldable pub clear_error : StorageBacklog → StorageBacklog
clear_error b = record b { metrics = record b.metrics { last_error = none } }

unfoldable pub set_error : StorageError → StorageBacklog → StorageBacklog
set_error error b = record b { metrics = record b.metrics { last_error = some error } }

unfoldable pub sequence_is_from_current_boot : StorageBacklog → ℕ → Bool
sequence_is_from_current_boot b sequence =
    ltb (wrapping_sub (2 ^ 64) sequence b.current_boot_first_sequence) (u64_max / 2)

unfoldable pub payload_flags_are_supported : ℕ → Bool
payload_flags_are_supported flags =
    bit_and flags payload_flag_json_fields == payload_flag_json_fields

unfoldable pub error_flags : StorageBacklog → Flags
error_flags b = elim b.metrics.last_error [ none ↦ ErrorFlags.none | some _ ↦ ErrorFlags.storage ]

module _ {S : Type 0} (F : FlashStorage S) (capacity size : ℕ) where
  abbrev pub Outcome : Type 0 → Type 0
  Outcome A = Result StorageError A × StorageBacklog × S

  unfoldable pub append_measurement :
      Result (Unit {0}) (List ℕ) → StorageBacklog → S → Outcome (Unit {0})
  append_measurement json b s = elim json [
    | err _ ↦ (err encode, set_error encode b, s)
    | ok payload ↦
        let (result, spool, s') =
          Backed.append F capacity size payload_flag_json_fields payload b.spool s in
        let b' : StorageBacklog = record b { spool = spool } in
        elim result [
          | err e ↦ (err (spool_error e), set_error (spool_error e) b', s')
          | ok appended ↦
              let counted : StorageBacklog = record b' {
                metrics = record b'.metrics {
                  dropped_oldest_count =
                      saturating_add usize_max b'.metrics.dropped_oldest_count
                        appended.dropped_count;
                };
              } in
              (ok tt, clear_error (refresh_pending_count counted), s')
        ]
  ]

  unfoldable pub peek_payload : StorageBacklog → Option StoredPayload
  peek_payload b = elim (Memory.peek capacity b.spool.spool) [
    | none ↦ none
    | some r ↦ some (from_record size r (sequence_is_from_current_boot b r.sequence))
  ]

  unfoldable pub acknowledge : StorageBacklog → S → Outcome (Option StoredPayload)
  acknowledge b s =
      let (result, spool, s') = Backed.acknowledge F capacity size b.spool s in
      let b' : StorageBacklog = record b { spool = spool } in
      elim result [
        | err e ↦ (err (spool_error e), set_error (spool_error e) b', s')
        | ok oldest ↦ (
          ok (elim oldest [
            | none ↦ none
            | some r ↦
                some (from_record size (as_record r) (sequence_is_from_current_boot b' r.sequence))
          ]),
          clear_error (refresh_pending_count b'),
          s',
        )
      ]

  unfoldable pub acknowledge_sequence : ℕ → StorageBacklog → S → Outcome (Option StoredPayload)
  unfolding acknowledge
  acknowledge_sequence sequence b s = elim (Memory.peek capacity b.spool.spool) [
    | none ↦ (ok none, b, s)
    | some r ↦ if r.sequence == sequence then acknowledge b s else (ok none, b, s)
  ]

  -- The loop of `discard_unsupported_front_payloads`; `none` is out of fuel.
  unfoldable pub discard_unsupported_front_payloads :
      ℕ → ℕ → StorageBacklog → S → Option (Outcome ℕ)
  discard_unsupported_front_payloads zero skipped b s = none
  discard_unsupported_front_payloads (suc fuel) skipped b s =
      elim (Memory.peek capacity b.spool.spool) [
        | none ↦ some (ok skipped, b, s)
        | some r ↦
            let (result, spool, s') = Backed.acknowledge F capacity size b.spool s in
            let b' : StorageBacklog = record b { spool = spool } in
            let rest = discard_unsupported_front_payloads fuel (skipped + 1) b' s' in
            if payload_flags_are_supported r.flags then some (ok skipped, b, s) else elim result [
              | ok (some _) ↦ rest
              | ok none ↦ some (ok skipped, b', s')
              | err e ↦ some (err (spool_error e), set_error (spool_error e) b', s')
            ]
      ]

  -- An error drops the backlog, the flash stays as it is then.
  unfoldable pub recover : S → Option (Result StorageError StorageBacklog × S)
  unfolding discard_unsupported_front_payloads
  recover s = elim (recover_with_report F capacity size s) [
    | none ↦ none
    | some (err e) ↦ some (err (spool_error e), s)
    | some (ok (spool, report)) ↦
        let b : StorageBacklog = record {
          spool = spool;
          metrics = record no_metrics {
            pending_record_count = Backed.len spool;
            recovered_record_count = report.recovered_record_count;
            corrupt_record_count = report.corrupt_record_count;
          };
          current_boot_first_sequence = spool.spool.next_sequence;
        } in
        elim (discard_unsupported_front_payloads (Backed.len spool + 1) 0 b s) [
          | none ↦ none
          | some (err e, b', s') ↦ some (err e, s')
          | some (ok skipped, b', s') ↦ some (
            ok (
                refresh_pending_count (record b' {
                  metrics = record b'.metrics { skipped_legacy_record_count = skipped };
                })),
            s',
          )
        ]
  ]

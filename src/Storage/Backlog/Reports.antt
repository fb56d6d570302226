-- ===== src/Storage/Backlog/Reports.antt =====
-- What the metrics of tasks/storage/backlog.rs say after a call.
use sleep_environment_monito.Prelude.{
  ℕ, ◌≡◌, refl, inl, inr, List, none, some, Result, ok, err, Result-cases,
}
use sleep_environment_monito.Flash.{FlashStorage}
use sleep_environment_monito.Types.ErrorFlags
use sleep_environment_monito.Spool.Backed
use sleep_environment_monito.Storage.Backlog
use sleep_environment_monito.Storage.Backlog.{
  StorageBacklog, StorageError, Outcome, payload_flag_json_fields, append_measurement, error_flags,
  refresh_pending_count, clear_error, set_error,
}

-- After an error the metrics hold it, and the flag of the storage is up. After a success they hold
-- none, no flag is up, and the pending count is that of the spool.
abbrev pub IsReported {ℓ} : {A : Type ℓ} → Result StorageError A → StorageBacklog → Type 0
IsReported (err e) b = (b.metrics.last_error ≡ some e) × (error_flags b ≡ ErrorFlags.storage)
IsReported (ok _) b =
    (b.metrics.last_error ≡ none)
    × (error_flags b ≡ ErrorFlags.none)
    × (b.metrics.pending_record_count ≡ Backed.len b.spool)

module _ {S : Type 0} (F : FlashStorage S) (capacity size : ℕ) where
  -- After an append of a measurement, whether it succeeds or fails and wherever it fails, the
  -- metrics and the flags tell its outcome and the pending count, as `IsReported` says.
  pub append-IsReported :
      (json : Result (Unit {0}) (List ℕ)) (b : StorageBacklog) (s : S)
      → IsReported
          (append_measurement F capacity size json b s).0
          (append_measurement F capacity size json b s).1
  unfolding append_measurement set_error clear_error refresh_pending_count error_flags
  append-IsReported (err e) b s = (refl, refl)
  append-IsReported (ok payload) b s =
      elim (Result-cases
        (Backed.append F capacity size payload_flag_json_fields payload b.spool s).0) [
          | inl (r, e) ↦ rw (e, append_measurement) (refl, refl, refl)
          | inr (e, h) ↦ rw (h, append_measurement) (refl, refl)
        ]

  -- After an acknowledgement, whether it succeeds or fails, the metrics and the flags tell its
  -- outcome and the pending count, as `IsReported` says.
  pub acknowledge-IsReported :
      (b : StorageBacklog) (s : S)
      → IsReported
          (Backlog.acknowledge F capacity size b s).0
          (Backlog.acknowledge F capacity size b s).1
  unfolding Backlog.acknowledge set_error clear_error refresh_pending_count error_flags
  acknowledge-IsReported b s =
      elim (Result-cases (Backed.acknowledge F capacity size b.spool s).0) [
        | inl (r, e) ↦ rw (e, Backlog.acknowledge) (refl, refl, refl)
        | inr (e, h) ↦ rw (h, Backlog.acknowledge) (refl, refl)
      ]

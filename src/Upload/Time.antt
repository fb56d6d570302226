-- ===== src/Upload/Time.antt =====
-- firmware/src/tasks/upload/time.rs: the time from an SNTP packet, and the wall clock of a sample.
use sleep_environment_monito.Prelude.{
  ℕ, ◌+◌, ◌-◌, ◌*◌, ◌/◌, ◌^◌, ◌≤◌, ◌≡◌, ◌↔◌, refl, List, [], ◌∷◌, Bool, true, false, not, ◌&&◌,
  Option, none, some, arith, ltb, leb, ◌==◌, if◌then◌else◌, Result, ok, err, length, slice, get_or,
  u64_max, checked_add, checked_sub, checked_mul, bit_and,
}
use sleep_environment_monito.Upload.{ParseError, invalid_field}
use sleep_environment_monito.Types.Samples.{TimeStatus, uptime_only, wall_clock_synced}

abbrev pub ntp_unix_epoch_delta_secs : ℕ
ntp_unix_epoch_delta_secs = 2208988800

-- `u32::from_be_bytes`, over the bytes and the value of those before
unfoldable pub from_be : ℕ → List ℕ → ℕ
from_be n [] = n
from_be n (b ∷ bytes) = from_be (n * 256 + b) bytes

unfoldable pub parse_sntp_unix_ms : List ℕ → Result ParseError ℕ
unfolding from_be
parse_sntp_unix_ms packet =
    let mode = bit_and (get_or packet 0 0) 7 in
    let seconds = from_be 0 (slice packet 40 4) in
    let fraction = from_be 0 (slice packet 44 4) in
    let millis = fraction * 1000 / 2 ^ 32 in
    if ltb (length packet) 48
    then err invalid_field
    else if not (mode == 4) && not (mode == 5)
    then err invalid_field
    else if ltb seconds ntp_unix_epoch_delta_secs
    then err invalid_field
    else elim (checked_mul u64_max (seconds - ntp_unix_epoch_delta_secs) 1000) [
      | none ↦ err invalid_field
      | some base ↦ elim (checked_add u64_max base millis) [
        | none ↦ err invalid_field
        | some unix_ms ↦ ok unix_ms
      ]
    ]

pub record TimeSyncState : Type 0 where
  pub boot_ms_at_sync : ℕ
  pub unix_ms_at_sync : ℕ

unfoldable pub wall_clock_for_uptime : TimeSyncState → ℕ → Option ℕ
wall_clock_for_uptime sync uptime_ms =
    if leb sync.boot_ms_at_sync uptime_ms
    then checked_add u64_max sync.unix_ms_at_sync (uptime_ms - sync.boot_ms_at_sync)
    else checked_sub sync.unix_ms_at_sync (sync.boot_ms_at_sync - uptime_ms)

pub record TimestampSelection : Type 0 where
  pub status : TimeStatus
  pub wall_clock_unix_ms : Option ℕ

abbrev selection : Option ℕ → TimestampSelection
selection (some unix_ms) = record { status = wall_clock_synced; wall_clock_unix_ms = some unix_ms }
selection none = record { status = uptime_only; wall_clock_unix_ms = none }

unfoldable pub select_timestamp : Option TimeSyncState → ℕ → TimestampSelection
unfolding wall_clock_for_uptime
select_timestamp none uptime_ms = selection none
select_timestamp (some sync) uptime_ms = selection (wall_clock_for_uptime sync uptime_ms)

unfoldable pub select_payload_timestamp : Bool → Option TimeSyncState → ℕ → TimestampSelection
unfolding select_timestamp
select_payload_timestamp current_boot sync uptime_ms =
    let kept : Option TimeSyncState = if current_boot then sync else none in
    select_timestamp kept uptime_ms

selection_clock : (o : Option ℕ) → (selection o).wall_clock_unix_ms ≡ o
selection_clock none = refl
selection_clock (some unix_ms) = refl

clock_iff :
    (sync : TimeSyncState) (uptime_ms unix_ms : ℕ)
    → sync.unix_ms_at_sync ≤ u64_max
    → (wall_clock_for_uptime sync uptime_ms ≡ some unix_ms)
      ↔ ((unix_ms + sync.boot_ms_at_sync ≡ sync.unix_ms_at_sync + uptime_ms) × (unix_ms ≤ u64_max))
unfolding wall_clock_for_uptime
clock_iff sync uptime_ms unix_ms h = (λ e. ground (arith, e), λ e. ground (arith, e))

-- A record has the time `unix_ms` exactly if it is of this boot, the time differs from that of the
-- sync as the uptime of the record does, before the sync as after it, and it has 64 bits.
pub select_payload_timestamp_iff :
    (current_boot : Bool) (sync : TimeSyncState) (uptime_ms unix_ms : ℕ)
    → sync.unix_ms_at_sync ≤ u64_max
    → ((select_payload_timestamp current_boot (some sync) uptime_ms).wall_clock_unix_ms
        ≡ some unix_ms)
      ↔ ((current_boot ≡ true)
          × (unix_ms + sync.boot_ms_at_sync ≡ sync.unix_ms_at_sync + uptime_ms)
          × (unix_ms ≤ u64_max))
unfolding select_payload_timestamp select_timestamp
select_payload_timestamp_iff true sync uptime_ms unix_ms h =
    rw (selection_clock (wall_clock_for_uptime sync uptime_ms)) (
      let (to, back) = clock_iff sync uptime_ms unix_ms h in
      (λ e. (refl, (to e).0, (to e).1), λ e. back (e.1, e.2)))
select_payload_timestamp_iff false sync uptime_ms unix_ms h =
    (λ e. absurd (cc (e)), λ e. absurd (cc (e.0)))

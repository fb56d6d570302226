-- ===== src/Spool/Log/Stored.antt =====
-- The record that an append of spool/flash.rs builds.
use mathlib.Core.Path.{subst}
use sleep_environment_monito.Prelude.{
  ℕ, ◌-◌, ◌^◌, ◌≤◌, ◌<◌, ◌≡◌, refl, ap, sym, ◌∙◌, List, ◌++◌, arith, le→ltb, ok, length, replicate,
  take-length-append,
}
use sleep_environment_monito.Prelude.Bytes.{IsByte, IsBytes}
use sleep_environment_monito.Spool.Memory.{StoredRecord, new_record, as_record}
use sleep_environment_monito.Spool.Log.Entries.{IsStored}

-- The record that `StoredRecord::new` builds when the payload fits.
abbrev pub stored : ℕ → ℕ → ℕ → List ℕ → StoredRecord
stored size sequence flags payload = record {
  sequence = sequence;
  flags = flags;
  payload = payload ++ replicate (size - length payload) 0;
  payload_len = length payload;
}

pub new_record_lem :
    (size sequence flags : ℕ) (payload : List ℕ)
    → length payload ≤ size
    → new_record size sequence flags payload ≡ ok (stored size sequence flags payload)
unfolding new_record
new_record_lem size sequence flags payload h = rw (le→ltb size (length payload) h) refl

pub stored_payload :
    (size sequence flags : ℕ) (payload : List ℕ)
    → (as_record (stored size sequence flags payload)).payload ≡ payload
stored_payload size sequence flags payload =
    take-length-append (length payload) payload (replicate (size - length payload) 0) refl

pub stored-IsStored :
    (size sequence flags : ℕ) (payload : List ℕ)
    → size ≤ 490
    → length payload ≤ size
    → sequence < 2 ^ 64
    → IsByte flags
    → IsBytes payload
    → IsStored size (stored size sequence flags payload)
stored-IsStored size sequence flags payload hs h fits byte bytes =
    let same = stored_payload size sequence flags payload in
    record {
      built =
          ap (new_record size sequence flags) same ∙ new_record_lem size sequence flags payload h;
      fits = record {
        sequence_fits = omega (arith, fits);
        flags_fit = byte;
        payload_fits = omega (arith, ap length same);
        payload_bytes = subst IsBytes (sym same) bytes;
      };
    }

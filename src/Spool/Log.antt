-- ===== src/Spool/Log.antt =====
-- What the flash of spool/flash.rs holds: a log of records and acknowledgements, and what reading
-- it from the start gives.
pub mod Slots
pub mod Entries
pub mod Recovery
pub mod Write
pub mod Sequences
pub mod Stored
pub mod Durable
pub mod Append
pub mod Acknowledge
use sleep_environment_monito.Prelude.{
  ℕ, ◌≡◌, refl, List, [], ◌∷◌, ◌++◌, Option, none, some, ◌==◌, if◌then◌else◌, length,
}
use sleep_environment_monito.Queue.Fifo
use sleep_environment_monito.Spool.Memory.{StoredRecord, later_sequence, next_of}

pub data Entry : Type 0 where
  put : StoredRecord → Entry
  ack : ℕ → Entry

-- The pending records, oldest first, and the greatest sequence seen.
pub record View : Type 0 where
  pub pending : List StoredRecord
  pub seen : Option ℕ

unfoldable pub remove_first : ℕ → List StoredRecord → List StoredRecord
remove_first sequence [] = []
remove_first sequence (r ∷ records) =
    let rest = r ∷ remove_first sequence records in if r.sequence == sequence then records else rest

abbrev pub replay_entry : ℕ → View → Entry → View
replay_entry capacity v (put r) = record {
  pending = (Fifo.push capacity v.pending r).1;
  seen = some (later_sequence v.seen r.sequence);
}
replay_entry capacity v (ack sequence) = record {
  pending = remove_first sequence v.pending;
  seen = some (later_sequence v.seen sequence);
}

unfoldable pub replay : ℕ → View → List Entry → View
replay capacity v [] = v
replay capacity v (e ∷ log) = replay capacity (replay_entry capacity v e) log

-- The sequence after the greatest one seen.
abbrev pub after : Option ℕ → ℕ
after none = 0
after (some sequence) = next_of sequence

abbrev pub start : View
start = record { pending = []; seen = none }

pub replay-append :
    (capacity : ℕ) (v : View) (log : List Entry) (e : Entry)
    → replay capacity v (log ++ e ∷ []) ≡ replay_entry capacity (replay capacity v log) e
unfolding replay
replay-append capacity v [] e = refl
replay-append capacity v (d ∷ log) e = replay-append capacity (replay_entry capacity v d) log e

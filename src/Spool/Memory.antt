-- ===== src/Spool/Memory.antt =====
-- firmware/src/storage/spool/memory.rs: `PersistentSpool<CAPACITY, PAYLOAD_SIZE>`, the pending
-- records in memory. The two constants are the arguments `capacity` and `size`.
pub mod Refine
use sleep_environment_monito.Prelude.{
  ℕ, ◌+◌, ◌-◌, ◌^◌, List, [], ◌∷◌, ◌++◌, Bool, true, false, Option, none, some, ltb, if◌then◌else◌,
  Result, ok, err, ◌>>=◌, length, take, replicate, wrapping_add,
}
use sleep_environment_monito.Queue
use sleep_environment_monito.Queue.{DropOldestQueue}
use sleep_environment_monito.Spool.Codec.{SpoolRecord, SpoolError, buffer_too_small}

pub record StoredRecord : Type 0 where
  pub sequence : ℕ
  pub flags : ℕ
  pub payload : List ℕ
  pub payload_len : ℕ

-- `StoredRecord::<N>::new`: the payload goes to the front of `N` zeroed bytes.
unfoldable pub new_record : ℕ → ℕ → ℕ → List ℕ → Result SpoolError StoredRecord
new_record size sequence flags payload =
    if ltb size (length payload)
    then err buffer_too_small
    else ok (record {
      sequence = sequence;
      flags = flags;
      payload = payload ++ replicate (size - length payload) 0;
      payload_len = length payload;
    })

abbrev pub as_record : StoredRecord → SpoolRecord
as_record r = record {
  sequence = r.sequence;
  flags = r.flags;
  payload = take r.payload_len r.payload;
}

pub record AppendResult : Type 0 where
  pub sequence : ℕ
  pub dropped : Option StoredRecord
  pub dropped_count : ℕ

pub record PersistentSpool : Type 0 where
  pub queue : DropOldestQueue StoredRecord
  pub next_sequence : ℕ

abbrev pub next_of : ℕ → ℕ
next_of sequence = wrapping_add (2 ^ 64) sequence 1

-- `usize::from(dropped.is_some())`
abbrev pub count_some {ℓ} : {A : Type ℓ} → Option A → ℕ
count_some none = 0
count_some (some x) = 1

-- `Some(current) if current > record.sequence => current, _ => record.sequence`
abbrev pub later_sequence : Option ℕ → ℕ → ℕ
later_sequence none sequence = sequence
later_sequence (some current) sequence = if ltb sequence current then current else sequence

module _ (capacity : ℕ) where
  unfoldable pub new : PersistentSpool
  new = record { queue = Queue.new StoredRecord capacity; next_sequence = 0 }

  unfoldable pub peek : PersistentSpool → Option SpoolRecord
  peek s = elim (Queue.front capacity s.queue) [ none ↦ none | some r ↦ some (as_record r) ]

  unfoldable pub acknowledge : PersistentSpool → Option StoredRecord × PersistentSpool
  acknowledge s =
      let (oldest, queue) = Queue.pop capacity s.queue in (oldest, record s { queue = queue })

  unfoldable pub append :
      ℕ → PersistentSpool → ℕ → List ℕ → Result SpoolError AppendResult × PersistentSpool
  append size s flags payload = elim (new_record size s.next_sequence flags payload) [
    | err e ↦ (err e, s)
    | ok r ↦
        let (dropped, queue) = Queue.push capacity s.queue r in
        (
          ok (record {
            sequence = s.next_sequence;
            dropped = dropped;
            dropped_count = count_some dropped;
          }),
          record { queue = queue; next_sequence = next_of s.next_sequence },
        )
  ]

  -- The loop of `recover_from_records`, over the queue and `max_sequence`.
  unfoldable pub push_all :
      DropOldestQueue StoredRecord
      → Option ℕ
      → List StoredRecord
      → DropOldestQueue StoredRecord × Option ℕ
  push_all q seen [] = (q, seen)
  push_all q seen (r ∷ records) =
      push_all (Queue.push capacity q r).1 (some (later_sequence seen r.sequence)) records

  unfoldable pub recover_from_records : List StoredRecord → PersistentSpool
  unfolding new push_all
  recover_from_records records =
      let (queue, seen) = push_all (Queue.new StoredRecord capacity) none records in
      record {
        queue = queue;
        next_sequence = elim seen [ none ↦ 0 | some sequence ↦ next_of sequence ];
      }

  unfoldable pub recover_with_next_sequence : List StoredRecord → ℕ → PersistentSpool
  unfolding recover_from_records
  recover_with_next_sequence records next_sequence = record (recover_from_records records) {
    next_sequence = next_sequence;
  }

unfoldable pub len : PersistentSpool → ℕ
len s = s.queue.len

unfoldable pub is_empty : PersistentSpool → Bool
is_empty s = Queue.is_empty s.queue

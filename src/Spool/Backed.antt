-- ===== src/Spool/Backed.antt =====
-- firmware/src/storage/spool/flash.rs: `FlashBackedSpool`, the pending records in memory together
-- with a log of records and acknowledgements in a flash region. A method that gets the flash gives
-- its result, the spool and the flash after the call, also on an error. `Recover` reads the log
-- back after a reboot.
-- The sums of offsets are plain: they stay below the region's size plus one entry.
pub mod Recover
pub mod Total
use sleep_environment_monito.Prelude.{
  ℕ, zero, suc, ◌+◌, List, [], ◌∷◌, Bool, true, false, Option, none, some, leb, ltb, ◌==◌,
  if◌then◌else◌, Result, ok, err, ◌>>=◌, length, take, replicate, usize_max, checked_add,
}
use sleep_environment_monito.Queue
use sleep_environment_monito.Queue.{DropOldestQueue}
use sleep_environment_monito.Flash.{FlashStorage}
use sleep_environment_monito.Spool.Codec.{
  SpoolRecord, SpoolError, flash, flash_full, payload_too_large, flash_entry_buffer_len,
  encoded_ack_len, encoded_record_len, encode_record, encode_ack,
}
use sleep_environment_monito.Spool.Memory
use sleep_environment_monito.Spool.Memory.{
  StoredRecord, AppendResult, PersistentSpool, new_record, as_record, next_of, count_some,
}

pub record BackedSpool : Type 0 where
  pub spool : PersistentSpool
  pub write_offset : ℕ

-- `[0_u8; FLASH_ENTRY_BUFFER_LEN]`
abbrev pub entry_buffer : List ℕ
entry_buffer = replicate flash_entry_buffer_len 0

unfoldable pub new : ℕ → BackedSpool
new capacity = record { spool = Memory.new capacity; write_offset = 0 }

-- The loops over `queue.get(index)` for `index` in `index .. index + count`.
unfoldable pub items_from : ℕ → DropOldestQueue StoredRecord → ℕ → ℕ → List StoredRecord
items_from capacity q index zero = []
items_from capacity q index (suc count) =
    let rest = items_from capacity q (index + 1) count in
    elim (Queue.get capacity q index) [ none ↦ rest | some r ↦ r ∷ rest ]

unfoldable pub queue_items : ℕ → DropOldestQueue StoredRecord → List StoredRecord
unfolding items_from
queue_items capacity q = items_from capacity q 0 q.len

-- `records_encoded_len`, with the sum so far.
unfoldable pub encoded_len_from : ℕ → List StoredRecord → Result SpoolError ℕ
encoded_len_from total [] = ok total
encoded_len_from total (r ∷ records) = encoded_record_len r.payload_len >>= λ len.
    elim (checked_add usize_max total len) [
      | none ↦ err payload_too_large
      | some sum ↦ encoded_len_from sum records
    ]

unfoldable pub records_encoded_len : List StoredRecord → Result SpoolError ℕ
unfolding encoded_len_from
records_encoded_len records = encoded_len_from 0 records

unfoldable pub queue_encoded_len : ℕ → DropOldestQueue StoredRecord → Result SpoolError ℕ
unfolding records_encoded_len queue_items
queue_encoded_len capacity q = records_encoded_len (queue_items capacity q)

-- The `while` loop of `append_with_compaction` over `compacted`, `dropped` and `dropped_count`.
-- Each round takes a record off and a loop that empties the queue ends, so that a round for each
-- record is enough: `none` is out of fuel.
pub record Shrunk : Type 0 where
  pub queue : DropOldestQueue StoredRecord
  pub dropped : Option StoredRecord
  pub dropped_count : ℕ

abbrev pub or_else {ℓ} : {A : Type ℓ} → Option A → Option A → Option A
or_else none o = o
or_else (some x) o = some x

abbrev pub take_off : ℕ → Shrunk → Shrunk
take_off capacity s =
    let (removed, queue) = Queue.pop capacity s.queue in
    record {
      queue = queue;
      dropped = or_else s.dropped removed;
      dropped_count = s.dropped_count + count_some removed;
    }

unfoldable pub shrink : ℕ → ℕ → ℕ → Shrunk → Option (Result SpoolError Shrunk)
shrink zero capacity limit s = none
shrink (suc fuel) capacity limit s = elim (queue_encoded_len capacity s.queue) [
  | err e ↦ some (err e)
  | ok total ↦
      let rest = shrink fuel capacity limit (take_off capacity s) in
      if leb total limit
      then some (ok s)
      else if Queue.is_empty (take_off capacity s).queue
      then some (err flash_full)
      else rest
]

unfoldable pub copy_queue : ℕ → DropOldestQueue StoredRecord → DropOldestQueue StoredRecord
unfolding queue_items
copy_queue capacity q =
    (Memory.push_all capacity (Queue.new StoredRecord capacity) none (queue_items capacity q)).0

module _ {S : Type 0} (F : FlashStorage S) (capacity size : ℕ) where
  abbrev pub Outcome : Type 0 → Type 0
  Outcome A = Result SpoolError A × BackedSpool × S

  -- The loop of `rewrite_records` over the records to write; the offset is the spool's.
  unfoldable pub write_records : List StoredRecord → BackedSpool → S → Outcome (Unit {0})
  write_records [] b s = (ok tt, b, s)
  write_records (r ∷ records) b s = elim (encode_record (as_record r) entry_buffer) [
    | err e ↦ (err e, b, s)
    | ok (len, encoded) ↦
        let (written, s') = F.write s b.write_offset (take len encoded) in
        elim written [
          | err e ↦ (err (flash e), b, s')
          | ok _ ↦ write_records records (record b { write_offset = b.write_offset + len }) s'
        ]
  ]

  unfoldable pub rewrite_records : List StoredRecord → ℕ → BackedSpool → S → Outcome (Unit {0})
  unfolding write_records
  rewrite_records records next_sequence b s = elim (records_encoded_len records) [
    | err e ↦ (err e, b, s)
    | ok total ↦
        if ltb (F.len s) total
        then (err flash_full, b, s)
        else let (cleared, s') = F.erase s 0 (F.len s) in
          elim cleared [
            | err e ↦ (err (flash e), b, s')
            | ok _ ↦
                let (done, b', s'') = write_records records (record b { write_offset = 0 }) s' in
                elim done [
                  | err e ↦ (err e, b', s'')
                  | ok _ ↦ (
                    ok tt,
                    record b' {
                      spool = Memory.recover_with_next_sequence capacity records next_sequence;
                    },
                    s'',
                  )
                ]
          ]
  ]

  -- `copy_spool_records` fills an array of `capacity` records.
  unfoldable pub rewrite_pending_records : BackedSpool → S → Outcome (Unit {0})
  unfolding rewrite_records queue_items
  rewrite_pending_records b s =
      rewrite_records (take capacity (queue_items capacity b.spool.queue)) b.spool.next_sequence b s

  unfoldable pub append_with_compaction : StoredRecord → BackedSpool → S → Outcome AppendResult
  unfolding rewrite_records queue_items copy_queue shrink
  append_with_compaction incoming b s = elim (encoded_record_len incoming.payload_len) [
    | err e ↦ (err e, b, s)
    | ok len ↦
        if ltb (F.len s) len
        then (err flash_full, b, s)
        else let (removed, queue) =
            Queue.push capacity (copy_queue capacity b.spool.queue) incoming in
          let start : Shrunk = record {
            queue = queue;
            dropped = removed;
            dropped_count = count_some removed;
          } in
          elim (shrink (queue.len + 1) capacity (F.len s) start) [
            | none ↦ (err flash_full, b, s)
            | some (err e) ↦ (err e, b, s)
            | some (ok shrunk) ↦
                let records = take capacity (queue_items capacity shrunk.queue) in
                let (done, b', s') = rewrite_records records (next_of incoming.sequence) b s in
                elim done [
                  | err e ↦ (err e, b', s')
                  | ok _ ↦ (
                    ok (record {
                      sequence = incoming.sequence;
                      dropped = shrunk.dropped;
                      dropped_count = shrunk.dropped_count;
                    }),
                    b',
                    s',
                  )
                ]
          ]
  ]

  unfoldable pub append : ℕ → List ℕ → BackedSpool → S → Outcome AppendResult
  unfolding append_with_compaction
  append flags payload b s = elim (new_record size b.spool.next_sequence flags payload) [
    | err e ↦ (err e, b, s)
    | ok stored ↦ elim (encode_record (as_record stored) entry_buffer) [
      | err e ↦ (err e, b, s)
      | ok (len, encoded) ↦
          if leb (b.write_offset + len) (F.len s)
          then (let (written, s') = F.write s b.write_offset (take len encoded) in
              elim written [
                | err e ↦ (err (flash e), b, s')
                | ok _ ↦
                    let (result, spool) = Memory.append capacity size b.spool flags payload in
                    (result, record { spool = spool; write_offset = b.write_offset + len }, s')
              ])
          else append_with_compaction stored b s
    ]
  ]

  unfoldable pub acknowledge : BackedSpool → S → Outcome (Option StoredRecord)
  unfolding rewrite_pending_records
  acknowledge b s = elim (Memory.peek capacity b.spool) [
    | none ↦ (ok none, b, s)
    | some oldest ↦ elim (encode_ack oldest.sequence (replicate encoded_ack_len 0)) [
      | err e ↦ (err e, b, s)
      | ok (len, encoded) ↦
          let (acknowledged, spool) = Memory.acknowledge capacity b.spool in
          if leb (b.write_offset + len) (F.len s)
          then (let (written, s') = F.write s b.write_offset (take len encoded) in
              elim written [
                | err e ↦ (err (flash e), b, s')
                | ok _ ↦ (
                  ok acknowledged,
                  record { spool = spool; write_offset = b.write_offset + len },
                  s',
                )
              ])
          else let (done, b', s') = rewrite_pending_records (record b { spool = spool }) s in
            elim done [ err e ↦ (err e, b', s') | ok _ ↦ (ok acknowledged, b', s') ]
    ]
  ]

abbrev pub len : BackedSpool → ℕ
len b = b.spool.queue.len

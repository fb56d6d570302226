-- ===== src/Spool/Tests.antt =====
-- The theorems on storage/spool at a region of 128 bytes with one record of three bytes.
use sleep_environment_monito.Prelude.{
  ℕ, ◌≡◌, ◌≢◌, refl, arith, List, [], ◌∷◌, ◌++◌, Option, none, some, Result, ok, length, replicate,
  take, All,
}
use sleep_environment_monito.Prelude.Bytes.{to_le, from_le}
use sleep_environment_monito.Flash.Model
use sleep_environment_monito.Spool.Memory
use sleep_environment_monito.Spool.Crc.{crc32}
use sleep_environment_monito.Spool.Backed.Recover
use sleep_environment_monito.Spool.Codec.{encoded_record_len, ack_header, encoded_log_entry_len}
use sleep_environment_monito.Flash.Model.{InMemoryFlash, storage}
use sleep_environment_monito.Flash.Model.Laws.{IsValid, storage-IsNor}
use sleep_environment_monito.Queue
use sleep_environment_monito.Queue.Fifo
use sleep_environment_monito.Queue.Refine.{Stores, Stores-new, push_refines}
use sleep_environment_monito.Spool.Codec.{
  SpoolRecord, SpoolError, record_header, encode_record, decode_record, encode_ack, decode_ack,
}
use sleep_environment_monito.Spool.Codec.RoundTrip.{IsRecord, decode-encode_record}
use sleep_environment_monito.Spool.Codec.Acks.{decode-encode_ack}
use sleep_environment_monito.Spool.Memory.{StoredRecord, count_some}
use sleep_environment_monito.Spool.Backed
use sleep_environment_monito.Spool.Backed.{BackedSpool, Shrunk, shrink}
use sleep_environment_monito.Spool.Backed.Recover.{FlashRecoverReport, recover_with_report}
use sleep_environment_monito.Spool.Backed.Total.{recover_total, shrink_total}
use sleep_environment_monito.Spool.Log.{Entry, put, ack, replay, start, after}
use sleep_environment_monito.Spool.Log.Entries.{IsEntry, entry_bytes}
use sleep_environment_monito.Spool.Log.Recovery.{log_bytes, recover_replays}
use sleep_environment_monito.Spool.Log.Stored.{stored, stored-IsStored}
use sleep_environment_monito.Spool.Log.Durable.{IsDurable}
use sleep_environment_monito.Spool.Log.Append.{append-IsDurable}
use sleep_environment_monito.Spool.Log.Acknowledge.{acknowledge-IsDurable}

abbrev record_7 : SpoolRecord
record_7 = record { sequence = 7; flags = 1; payload = 10 ∷ 11 ∷ 12 ∷ [] }

record_7-IsRecord : IsRecord record_7
record_7-IsRecord = record {
  sequence_fits = omega arith;
  flags_fit = omega arith;
  payload_fits = omega arith;
  payload_bytes = ((omega arith), ((omega arith), ((omega arith), tt)));
}

decode-encode_record_example :
    (n : ℕ) × (out' : List ℕ) × (encode_record record_7 (replicate 30 0) ≡ ok (n, out'))
    × (length out' ≡ 30)
    × (decode_record (take n out') ≡ ok record_7)
decode-encode_record_example =
    decode-encode_record record_7 (replicate 30 0) record_7-IsRecord (omega arith)

decode-encode_ack_example :
    (n : ℕ) × (out' : List ℕ) × (encode_ack 7 (replicate 16 0) ≡ ok (n, out'))
    × (length out' ≡ 16)
    × (decode_ack (take n out') ≡ ok (record { sequence = 7 }))
decode-encode_ack_example = decode-encode_ack 7 (replicate 16 0) (omega arith) (omega arith)

abbrev first : StoredRecord
first = stored 8 0 1 (10 ∷ 11 ∷ 12 ∷ [])

abbrev log : List Entry
log = put first ∷ []

abbrev region : InMemoryFlash
region = record { cells = log_bytes log ++ replicate 100 255 }

abbrev spool : BackedSpool
spool = record {
  spool = record { queue = (Queue.push 2 (Queue.new StoredRecord 2) first).1; next_sequence = 1 };
  write_offset = 28;
}

first-IsEntry : All (IsEntry 8) log
first-IsEntry = (
  stored-IsStored 8 0 1 (10 ∷ 11 ∷ 12 ∷ []) (omega arith) (omega arith) (omega arith) (omega arith)
      ((omega arith), ((omega arith), ((omega arith), tt))),
  tt,
)

spool-IsDurable :
    IsDurable
      (storage 64)
      IsValid
      (λ m. m.cells)
      (storage-IsNor 64)
      2
      8
      (omega arith)
      spool
      region
      log
unfolding replay entry_bytes record_header to_le
spool-IsDurable = record {
  held = record {
    valid = omega arith;
    entries = first-IsEntry;
    free = 100;
    layout = refl;
    readable = ((omega arith), tt);
  };
  offset = refl;
  queue = (push_refines 2 (Queue.new StoredRecord 2) [] first (Stores-new 2)).1;
  sequence = refl;
  no_wrap = omega arith;
}

append-IsDurable_example :
    (dropped : Option StoredRecord) × (b' : BackedSpool) × (s' : InMemoryFlash) × (Backed.append
        (storage 64)
        2
        8
        1
        (4 ∷ 5 ∷ [])
        spool
        region
      ≡ (
        ok (record { sequence = 1; dropped = dropped; dropped_count = count_some dropped }),
        b',
        s',
      ))
    × (dropped ≡ (Fifo.push 2 (replay 2 start log).pending (stored 8 1 1 (4 ∷ 5 ∷ []))).0)
    × IsDurable
        (storage 64)
        IsValid
        (λ m. m.cells)
        (storage-IsNor 64)
        2
        8
        (omega arith)
        b'
        s'
        (log ++ put (stored 8 1 1 (4 ∷ 5 ∷ [])) ∷ [])
unfolding entry_bytes record_header to_le
append-IsDurable_example =
    append-IsDurable (storage 64) IsValid (λ m. m.cells) (storage-IsNor 64) 2 8 (omega arith) 1
      (4 ∷ 5 ∷ []) spool region log spool-IsDurable (omega arith) (omega arith)
      ((omega arith), ((omega arith), tt)) (omega arith) (omega arith)

acknowledge-IsDurable_example :
    (b' : BackedSpool) × (s' : InMemoryFlash) × (Backed.acknowledge (storage 64) 2 8 spool region
      ≡ (ok (some first), b', s'))
    × Stores 2 b'.spool.queue []
    × IsDurable
        (storage 64)
        IsValid
        (λ m. m.cells)
        (storage-IsNor 64)
        2
        8
        (omega arith)
        b'
        s'
        (log ++ ack 0 ∷ [])
unfolding replay entry_bytes record_header to_le
acknowledge-IsDurable_example =
    acknowledge-IsDurable (storage 64) IsValid (λ m. m.cells) (storage-IsNor 64) 2 8 (omega arith)
      spool region log first [] spool-IsDurable refl (omega arith)

recover_replays_example :
    (b : BackedSpool) × (report : FlashRecoverReport) × (recover_with_report (storage 64) 2 8 region
      ≡ some (ok (b, report)))
    × Stores 2 b.spool.queue (replay 2 start log).pending
    × (b.spool.next_sequence ≡ after (replay 2 start log).seen)
    × (b.write_offset ≡ length (log_bytes log))
    × (report.recovered_record_count ≡ length (replay 2 start log).pending)
    × (report.corrupt_record_count ≡ 0)
unfolding entry_bytes record_header to_le
recover_replays_example =
    recover_replays (storage 64) IsValid (λ m. m.cells) (storage-IsNor 64) 2 8 region log 100
      (omega arith) (omega arith) first-IsEntry refl ((omega arith), tt)

recover_total_example :
    recover_with_report (storage 64) 2 8 (record { cells = replicate 64 7 }) ≢ none
recover_total_example = recover_total (storage 64) 2 8 (record { cells = replicate 64 7 })

shrink_total_example :
    (r : Result SpoolError Shrunk) × (shrink 2 2 20
        (record { queue = spool.spool.queue; dropped = none; dropped_count = 0 })
      ≡ some r)
unfolding replay
shrink_total_example =
    shrink_total 2 2 20 (record { queue = spool.spool.queue; dropped = none; dropped_count = 0 })
      (first ∷ []) spool-IsDurable.queue (omega arith)

-- A region that has room for one acknowledgement behind the record, but not for the 24 bytes that
-- the scan reads.
abbrev tight : InMemoryFlash
tight = record { cells = log_bytes log ++ replicate 16 255 }

abbrev counts : Option (Result SpoolError (BackedSpool × FlashRecoverReport)) → ℕ × ℕ
counts (some (ok (b, report))) = (report.recovered_record_count, report.corrupt_record_count)
counts _ = (0, 0)

last_acknowledgement_lost :
    counts
      (recover_with_report (storage 44) 2 8 (Backed.acknowledge (storage 44) 2 8 spool tight).2)
    ≡ (1, 1)
unfolding recover_with_report Backed.acknowledge entry_bytes record_header to_le encode_ack
    encoded_record_len Memory.peek Queue.front Queue.push Queue.new Model.write ack_header
    Recover.scan_round Model.read encoded_log_entry_len from_le decode_record crc32
    Memory.new_record Recover.push_stored_record
last_acknowledgement_lost = refl

-- A region with no room for an acknowledgement: the last pending record goes by a compaction.
abbrev full : InMemoryFlash
full = record { cells = log_bytes log ++ replicate 12 255 }

abbrev next_read : Option (Result SpoolError (BackedSpool × FlashRecoverReport)) → ℕ
next_read (some (ok (b, report))) = b.spool.next_sequence
next_read _ = 9

sequence_restarts :
    ((Backed.acknowledge (storage 40) 2 8 spool full).1.spool.next_sequence ≡ 1)
    × (next_read
          (recover_with_report (storage 40) 2 8 (Backed.acknowledge (storage 40) 2 8 spool full).2)
        ≡ 0)
unfolding recover_with_report Backed.acknowledge entry_bytes record_header to_le encode_ack
    encoded_record_len Memory.peek Queue.front Queue.push Queue.new Model.write ack_header
    Recover.scan_round Model.read encoded_log_entry_len from_le decode_record crc32
    Memory.new_record Recover.push_stored_record Model.erase Backed.rewrite_pending_records
    Memory.acknowledge Queue.pop Memory.recover_with_next_sequence Backed.records_encoded_len
sequence_restarts = (refl, refl)

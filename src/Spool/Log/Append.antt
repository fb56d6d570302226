-- ===== src/Spool/Log/Append.antt =====
-- `append` of spool/flash.rs where the region has room, against the log.
use sleep_environment_monito.Prelude.{
  ℕ, ◌+◌, ◌^◌, ◌≤◌, ◌<◌, ◌≡◌, refl, ap, sym, ◌∙◌, List, [], ◌∷◌, ◌++◌, Option, arith, le→leb, ok,
  length, drop, length-append, length-replicate, take-length-append,
}
use sleep_environment_monito.Prelude.Bytes.{IsByte, IsBytes}
use sleep_environment_monito.Flash.{FlashStorage, IsNor}
use sleep_environment_monito.Queue
use sleep_environment_monito.Queue.Fifo
use sleep_environment_monito.Queue.Refine.{Stores, push_refines}
use sleep_environment_monito.Spool.Codec.{align_up}
use sleep_environment_monito.Spool.Codec.RoundTrip.{
  record_len, record_bytes, encode_record_lem, length-record_bytes, align_up_bounds,
}
use sleep_environment_monito.Spool.Memory
use sleep_environment_monito.Spool.Memory.{
  StoredRecord, AppendResult, PersistentSpool, new_record, as_record, next_of, count_some,
  later_sequence,
}
use sleep_environment_monito.Spool.Backed
use sleep_environment_monito.Spool.Backed.{BackedSpool, Outcome, entry_buffer}
use sleep_environment_monito.Spool.Log.{Entry, put, replay, replay_entry, start, replay-append}
use sleep_environment_monito.Spool.Log.Entries.{IsStored, entry_bytes}
use sleep_environment_monito.Spool.Log.Sequences.{later_next}
use sleep_environment_monito.Spool.Log.Recovery.{log_bytes}
use sleep_environment_monito.Spool.Log.Write.{write_entry, Holds-write, log_bytes-append}
use sleep_environment_monito.Spool.Log.Durable.{IsDurable}
use sleep_environment_monito.Spool.Log.Stored.{
  stored, new_record_lem, stored_payload, stored-IsStored,
}

module _ {S : Type 0} (F : FlashStorage S) (IsValid : S → Type 0) (bytes : S → List ℕ)
    (nor : IsNor F IsValid bytes) (capacity size : ℕ) (small : size ≤ 490) where
  -- The result of an append that has room.
  abbrev pub appended : ℕ → List ℕ → BackedSpool → S → Outcome F capacity size AppendResult
  appended flags payload b s =
      let r = stored size b.spool.next_sequence flags payload in
      let (dropped, queue) = Queue.push capacity b.spool.queue r in
      (
        ok (record {
          sequence = b.spool.next_sequence;
          dropped = dropped;
          dropped_count = count_some dropped;
        }),
        record {
          spool = record { queue = queue; next_sequence = next_of b.spool.next_sequence };
          write_offset = b.write_offset + record_len (as_record r);
        },
        (F.write s b.write_offset (record_bytes (as_record r))).1,
      )

  append_in_place :
      (flags : ℕ) (payload : List ℕ) (b : BackedSpool) (s : S)
      → length payload ≤ size
      → b.write_offset + record_len (as_record (stored size b.spool.next_sequence flags payload))
        ≤ F.len s
      → (F.write s b.write_offset
          (record_bytes (as_record (stored size b.spool.next_sequence flags payload)))).0
        ≡ ok tt
      → Backed.append F capacity size flags payload b s ≡ appended flags payload b s
  unfolding Backed.append Memory.append
  append_in_place flags payload b s h room written =
      let r = stored size b.spool.next_sequence flags payload in
      let built = new_record_lem size b.spool.next_sequence flags payload h in
      let n = record_len (as_record r) in
      let payload_len = ap length (stored_payload size b.spool.next_sequence flags payload) in
      let cut =
        take-length-append n (record_bytes (as_record r)) (drop n entry_buffer)
          (sym (length-record_bytes (as_record r))) in
      rw
        (
          built,
          encode_record_lem (as_record r) entry_buffer (omega (arith, payload_len)) (
              omega (
                arith,
                payload_len,
                align_up_bounds (22 + length (as_record r).payload),
                length-replicate {A = ℕ} 512 0,
              )),
          le→leb (b.write_offset + n) (F.len s) room,
          cut,
          written,
          cut,
          built,
          Backed.append,
          Memory.append,
        )
        refl

  -- An append of a payload that fits, when the region has room for it and the sequences do not
  -- run out, succeeds: it gives the next sequence and the record that it drops, the oldest of a
  -- full queue; and the spool in memory is again what reading the flash back would give, with the
  -- new record as the last entry of the log.
  pub append-IsDurable :
      (flags : ℕ) (payload : List ℕ) (b : BackedSpool) (s : S) (log : List Entry)
      → IsDurable F IsValid bytes nor capacity size small b s log
      → length payload ≤ size
      → IsByte flags
      → IsBytes payload
      → b.spool.next_sequence + 1 < 2 ^ 64
      → b.write_offset + align_up (22 + length payload) 4 ≤ F.len s
      → (dropped : Option StoredRecord) × (b' : BackedSpool) × (s' : S) × (Backed.append F capacity
            size flags payload b s
          ≡ (
            ok (record {
              sequence = b.spool.next_sequence;
              dropped = dropped;
              dropped_count = count_some dropped;
            }),
            b',
            s',
          ))
        × (dropped
            ≡ (Fifo.push capacity
                (replay capacity start log).pending
                (stored size b.spool.next_sequence flags payload)).0)
        × IsDurable F IsValid bytes nor capacity size small b' s'
            (log ++ put (stored size b.spool.next_sequence flags payload) ∷ [])
  unfolding entry_bytes
  append-IsDurable flags payload b s log v h byte are_bytes last room = (
    (Queue.push capacity b.spool.queue r).0,
    (appended flags payload b s).1,
    (appended flags payload b s).2,
    append_in_place flags payload b s h
        (omega (arith, entry_len, length-record_bytes (as_record r), room)) written,
    pushed.0,
    durable,
  )
    where
      r : StoredRecord
      r = stored size b.spool.next_sequence flags payload

      payload_len : length (as_record r).payload ≡ length payload
      payload_len = ap length (stored_payload size b.spool.next_sequence flags payload)

      is_stored : IsStored size r
      is_stored =
          stored-IsStored size b.spool.next_sequence flags payload small h (omega arith) byte
            are_bytes

      entry_len : length (record_bytes (as_record r)) ≡ align_up (22 + length payload) 4
      entry_len = length-record_bytes (as_record r) ∙ ap (λ n. align_up (22 + n) 4) payload_len

      fits : b.write_offset + length (record_bytes (as_record r)) ≤ length (bytes s)
      fits = omega (arith, nor.size s, entry_len)

      written : (F.write s b.write_offset (record_bytes (as_record r))).0 ≡ ok tt
      written =
          write_entry F IsValid bytes nor size small s log (put r) b.write_offset v.held is_stored
            v.offset fits

      pushed :
          ((Queue.push capacity b.spool.queue r).0
            ≡ (Fifo.push capacity (replay capacity start log).pending r).0)
          × Stores capacity
              (Queue.push capacity b.spool.queue r).1
              (Fifo.push capacity (replay capacity start log).pending r).1
      pushed = push_refines capacity b.spool.queue (replay capacity start log).pending r v.queue

      replayed :
          replay capacity start (log ++ put r ∷ [])
          ≡ replay_entry capacity (replay capacity start log) (put r)
      replayed = replay-append capacity start log (put r)

      later :
          later_sequence (replay capacity start log).seen b.spool.next_sequence
          ≡ b.spool.next_sequence
      later =
          ap (later_sequence (replay capacity start log).seen) v.sequence
          ∙ later_next (replay capacity start log).seen v.no_wrap
          ∙ sym v.sequence

      durable :
          IsDurable F IsValid bytes nor capacity size small
            (appended flags payload b s).1
            (appended flags payload b s).2
            (log ++ put r ∷ [])
      durable = record {
        held =
            Holds-write F IsValid bytes nor size small s log (put r) b.write_offset v.held is_stored
              v.offset fits (omega (arith, fits, entry_len, align_up_bounds (22 + length payload)));
        offset = omega (
          arith,
          v.offset,
          ap length (log_bytes-append log (put r)),
          length-append (log_bytes log) (record_bytes (as_record r)),
          length-record_bytes (as_record r),
        );
        queue = rw replayed pushed.1;
        sequence = rw (replayed, later) refl;
        no_wrap = rw (replayed, later) last;
      }

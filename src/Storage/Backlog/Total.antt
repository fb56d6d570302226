-- ===== src/Storage/Backlog/Total.antt =====
-- The loop of tasks/storage/backlog.rs that discards records ends: a round for each pending record
-- and one more is enough, whatever the flash holds and however it answers.
use sleep_environment_monito.Prelude.{
  ℕ, zero, suc, ◌+◌, ◌≤◌, ◌<◌, ◌≡◌, ◌≢◌, List, [], ◌∷◌, Option, none, some, arith, ok, length, take,
  length-take,
}
use sleep_environment_monito.Flash.{FlashStorage}
use sleep_environment_monito.Queue
use sleep_environment_monito.Queue.{DropOldestQueue}
use sleep_environment_monito.Spool.Memory
use sleep_environment_monito.Spool.Memory.{StoredRecord, PersistentSpool, push_all}
use sleep_environment_monito.Spool.Backed
use sleep_environment_monito.Spool.Backed.{
  BackedSpool, items_from, queue_items, records_encoded_len, write_records, rewrite_records,
  rewrite_pending_records,
}
use sleep_environment_monito.Spool.Backed.Total.{recover_total}
use sleep_environment_monito.Storage.Backlog.{
  StorageBacklog, discard_unsupported_front_payloads, recover,
}

length-items_from :
    (n : ℕ) (q : DropOldestQueue StoredRecord) (index count : ℕ)
    → length (items_from n q index count) ≤ count
unfolding items_from
length-items_from n q index zero = omega arith
length-items_from n q index (suc count) = ground (arith, length-items_from n q (index + 1) count)

len-push :
    (n : ℕ) (q : DropOldestQueue StoredRecord) (r : StoredRecord)
    → (Queue.push n q r).1.len ≤ q.len + 1
unfolding Queue.push
len-push n q r = ground arith

len-push_all :
    (n : ℕ) (q : DropOldestQueue StoredRecord) (seen : Option ℕ) (xs : List StoredRecord)
    → (push_all n q seen xs).0.len ≤ q.len + length xs
unfolding push_all
len-push_all n q seen [] = omega arith
len-push_all n q seen (x ∷ xs) =
    omega (arith, len-push n q x, len-push_all n (Queue.push n q x).1 _ xs)

len-recover :
    (n : ℕ) (xs : List StoredRecord) (next_sequence : ℕ)
    → (Memory.recover_with_next_sequence n xs next_sequence).queue.len ≤ length xs
unfolding Memory.recover_with_next_sequence Queue.new
len-recover n xs next_sequence = omega (arith, len-push_all n (Queue.new StoredRecord n) none xs)

-- The memory after the oldest record is taken.
len-acknowledge :
    (n : ℕ) (m : PersistentSpool) (r : StoredRecord)
    → (Memory.acknowledge n m).0 ≡ some r
    → (Memory.acknowledge n m).1.queue.len < m.queue.len
unfolding Memory.acknowledge Queue.pop
len-acknowledge n m r h = ground (arith, h)

module _ {S : Type 0} (F : FlashStorage S) (capacity size : ℕ) where
  rewritten :
      (records : List StoredRecord) (next_sequence : ℕ) (b : BackedSpool) (s : S)
      → (rewrite_records F capacity size records next_sequence b s).0 ≡ ok tt
      → Backed.len (rewrite_records F capacity size records next_sequence b s).1 ≤ length records
  unfolding rewrite_records
  rewritten records next_sequence b s h =
      ground (arith, h, len-recover capacity records next_sequence)

  rewritten_pending :
      (b : BackedSpool) (s : S)
      → (rewrite_pending_records F capacity size b s).0 ≡ ok tt
      → Backed.len (rewrite_pending_records F capacity size b s).1 ≤ Backed.len b
  unfolding rewrite_pending_records queue_items
  rewritten_pending b s h =
      let items = queue_items capacity b.spool.queue in
      omega (
        arith,
        rewritten (take capacity items) b.spool.next_sequence b s h,
        length-take capacity items,
        length-items_from capacity b.spool.queue 0 b.spool.queue.len,
      )

  -- An acknowledgement of a record leaves fewer records.
  acknowledge_shortens :
      (b : BackedSpool) (s : S) (r : StoredRecord)
      → (Backed.acknowledge F capacity size b s).0 ≡ ok (some r)
      → Backed.len (Backed.acknowledge F capacity size b s).1 < Backed.len b
  unfolding Backed.acknowledge
  acknowledge_shortens b s r h =
      let spool = (Memory.acknowledge capacity b.spool).1 in
      ground (
        arith,
        h,
        len-acknowledge capacity b.spool r,
        rewritten_pending (record b { spool = spool }) s,
      )

  discard_total :
      (fuel skipped : ℕ) (b : StorageBacklog) (s : S)
      → Backed.len b.spool < fuel
      → discard_unsupported_front_payloads F capacity size fuel skipped b s ≢ none
  unfolding discard_unsupported_front_payloads
  discard_total zero skipped b s h e = absurd (omega (arith, h))
  discard_total (suc fuel) skipped b s h e =
      let answer = Backed.acknowledge F capacity size b.spool s in
      let b' : StorageBacklog = record b { spool = answer.1 } in
      grind (
        arith,
        e,
        λ (r : StoredRecord) (a : answer.0 ≡ ok (some r)).
            discard_total fuel (skipped + 1) b' answer.2
              (omega (arith, h, acknowledge_shortens b.spool s r a)),
      )

  -- The recovery of the backlog ends, with a backlog or with an error, whatever the flash holds and
  -- however it answers.
  pub backlog_total : (s : S) → recover F capacity size s ≢ none
  unfolding recover
  backlog_total s e = grind (
    arith,
    e,
    recover_total F capacity size s,
    λ (b : StorageBacklog). discard_total (Backed.len b.spool + 1) 0 b s (omega arith),
  )

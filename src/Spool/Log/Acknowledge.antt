-- ===== src/Spool/Log/Acknowledge.antt =====
-- `acknowledge` of spool/flash.rs where the region has room, against the log.
use mathlib.Core.Path.{subst}
use sleep_environment_monito.Prelude.{
  ℕ, ◌+◌, ◌^◌, ◌≤◌, ◌<◌, ◌≡◌, refl, ap, sym, ◌∙◌, List, [], ◌∷◌, ◌++◌, Option, none, some, arith,
  eq_test, le→leb, ok, length, drop, replicate, All, length-append, take-length-append,
}
use sleep_environment_monito.Flash.{FlashStorage, IsNor}
use sleep_environment_monito.Queue
use sleep_environment_monito.Queue.Fifo
use sleep_environment_monito.Queue.Refine.{Stores, pop_refines, front_refines}
use sleep_environment_monito.Spool.Codec.Acks.{ack_bytes, encode_ack_lem, length-ack_bytes}
use sleep_environment_monito.Spool.Memory
use sleep_environment_monito.Spool.Memory.{
  StoredRecord, AppendResult, PersistentSpool, new_record, as_record, next_of, count_some,
  later_sequence,
}
use sleep_environment_monito.Spool.Backed
use sleep_environment_monito.Spool.Backed.{BackedSpool, Outcome, entry_buffer}
use sleep_environment_monito.Spool.Log.{
  Entry, ack, View, replay, replay_entry, start, after, remove_first, replay-append,
}
use sleep_environment_monito.Spool.Log.Entries.{entry_bytes}
use sleep_environment_monito.Spool.Log.Sequences.{AtMost, NoWrap, later_old, replay-IsBounded}
use sleep_environment_monito.Spool.Log.Recovery.{log_bytes}
use sleep_environment_monito.Spool.Log.Write.{write_entry, Holds-write, log_bytes-append}
use sleep_environment_monito.Spool.Log.Durable.{IsDurable}

below : (o : Option ℕ) {n : ℕ} → AtMost o n → NoWrap o → n < 2 ^ 64
below none h w = absurd (omega (arith, h))
below (some m) h w = omega (arith, h, w)

module _ {S : Type 0} (F : FlashStorage S) (IsValid : S → Type 0) (bytes : S → List ℕ)
    (nor : IsNor F IsValid bytes) (capacity size : ℕ) (small : size ≤ 490) where
  acknowledge_in_place :
      (b : BackedSpool) (s : S) (oldest : StoredRecord)
      → Queue.front capacity b.spool.queue ≡ some oldest
      → b.write_offset + 16 ≤ F.len s
      → (F.write s b.write_offset (ack_bytes oldest.sequence)).0 ≡ ok tt
      → Backed.acknowledge F capacity size b s ≡ (
        ok (Queue.pop capacity b.spool.queue).0,
        record {
          spool = record b.spool { queue = (Queue.pop capacity b.spool.queue).1 };
          write_offset = b.write_offset + 16;
        },
        (F.write s b.write_offset (ack_bytes oldest.sequence)).1,
      )
  unfolding Backed.acknowledge Memory.acknowledge Memory.peek
  acknowledge_in_place b s oldest front room written =
      let cut =
        take-length-append 16 (ack_bytes oldest.sequence) (drop 16 (replicate 16 0))
          (sym (length-ack_bytes oldest.sequence)) in
      rw
        (
          front,
          encode_ack_lem oldest.sequence (replicate 16 0) (omega arith),
          le→leb (b.write_offset + 16) (F.len s) room,
          cut,
          written,
          cut,
          Backed.acknowledge,
        )
        refl

  -- An acknowledgement of a spool that has a record pending, `oldest` at the front, when the region
  -- has 24 bytes more, succeeds: it gives this record, `rest` stays pending, and the spool in memory
  -- is again what reading the flash back would give, with the acknowledgement as the last entry.
  pub acknowledge-IsDurable :
      (b : BackedSpool) (s : S) (log : List Entry) (oldest : StoredRecord)
      (rest : List StoredRecord)
      → IsDurable F IsValid bytes nor capacity size small b s log
      → (replay capacity start log).pending ≡ oldest ∷ rest
      → b.write_offset + 24 ≤ F.len s
      → (b' : BackedSpool) × (s' : S) × (Backed.acknowledge F capacity size b s
          ≡ (ok (some oldest), b', s'))
        × Stores capacity b'.spool.queue rest
        × IsDurable F IsValid bytes nor capacity size small b' s' (log ++ ack oldest.sequence ∷ [])
  unfolding entry_bytes remove_first
  acknowledge-IsDurable b s log oldest rest v pending room = (
    b',
    (F.write s b.write_offset (ack_bytes oldest.sequence)).1,
    acknowledge_in_place b s oldest front (omega arith) written
        ∙ ap (λ o. (ok o, b', (F.write s b.write_offset (ack_bytes oldest.sequence)).1))
            (popped.0 ∙ ap Fifo.front pending),
    rw pending at popped.1,
    durable,
  )
    where
      view : View
      view = replay capacity start log

      b' : BackedSpool
      b' = record {
        spool = record b.spool { queue = (Queue.pop capacity b.spool.queue).1 };
        write_offset = b.write_offset + 16;
      }

      front : Queue.front capacity b.spool.queue ≡ some oldest
      front = front_refines capacity b.spool.queue view.pending v.queue ∙ ap Fifo.front pending

      popped :
          ((Queue.pop capacity b.spool.queue).0 ≡ Fifo.front view.pending)
          × Stores capacity (Queue.pop capacity b.spool.queue).1 (Fifo.rest view.pending)
      popped = pop_refines capacity b.spool.queue view.pending v.queue

      bounded : AtMost view.seen oldest.sequence
      bounded =
          (subst (All (λ r. AtMost view.seen r.sequence)) pending
            (replay-IsBounded capacity start log tt)).0

      fits : oldest.sequence < 2 ^ 64
      fits = below view.seen bounded v.no_wrap

      entry_len : length (ack_bytes oldest.sequence) ≡ 16
      entry_len = length-ack_bytes oldest.sequence

      written : (F.write s b.write_offset (ack_bytes oldest.sequence)).0 ≡ ok tt
      written =
          write_entry F IsValid bytes nor size small s log (ack oldest.sequence) b.write_offset
            v.held fits v.offset (omega (arith, entry_len, nor.size s))

      replayed :
          replay capacity start (log ++ ack oldest.sequence ∷ [])
          ≡ replay_entry capacity view (ack oldest.sequence)
      replayed = replay-append capacity start log (ack oldest.sequence)

      removed : remove_first oldest.sequence view.pending ≡ rest
      removed =
          ap (remove_first oldest.sequence) pending
          ∙ rw (eq_test oldest.sequence oldest.sequence refl) refl

      seen : some (later_sequence view.seen oldest.sequence) ≡ view.seen
      seen = later_old view.seen oldest.sequence bounded

      durable :
          IsDurable F IsValid bytes nor capacity size small b'
            (F.write s b.write_offset (ack_bytes oldest.sequence)).1
            (log ++ ack oldest.sequence ∷ [])
      durable = record {
        held =
            Holds-write F IsValid bytes nor size small s log (ack oldest.sequence) b.write_offset
              v.held fits v.offset (omega (arith, entry_len, nor.size s))
              (omega (arith, nor.size s));
        offset = omega (
          arith,
          v.offset,
          ap length (log_bytes-append log (ack oldest.sequence)),
          length-append (log_bytes log) (ack_bytes oldest.sequence),
          entry_len,
        );
        queue =
            subst (Stores capacity b'.spool.queue) (sym (ap (λ w. w.pending) replayed ∙ removed))
              (rw pending at popped.1);
        sequence = v.sequence ∙ sym (ap after (ap (λ w. w.seen) replayed ∙ seen));
        no_wrap = subst NoWrap (sym (ap (λ w. w.seen) replayed ∙ seen)) v.no_wrap;
      }

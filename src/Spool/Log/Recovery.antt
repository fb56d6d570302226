-- ===== src/Spool/Log/Recovery.antt =====
-- `recover_with_report` of spool/flash.rs on a flash that holds a log.
use mathlib.Core.Path.{subst}
use sleep_environment_monito.Prelude.{
  ℕ, zero, suc, ◌+◌, ◌%◌, ◌≤◌, ◌<◌, ◌≡◌, refl, ap, sym, ◌∙◌, List, [], ◌∷◌, ◌++◌, Option, none,
  some, arith, le→ltb, ok, length, replicate, All, length-append, append_assoc,
}
use sleep_environment_monito.Flash.{FlashStorage, IsNor}
use sleep_environment_monito.Queue.Refine.{Stores}
use sleep_environment_monito.Spool.Codec.{align_up}
use sleep_environment_monito.Spool.Codec.RoundTrip.{align_up_bounds, encoded_record_len_lem}
use sleep_environment_monito.Spool.Memory.{later_sequence, next_of}
use sleep_environment_monito.Spool.Memory.Refine.{
  length-push, recover_Stores, recover-next_sequence,
}
use sleep_environment_monito.Spool.Backed.{BackedSpool}
use sleep_environment_monito.Spool.Backed.Recover.{
  Scan, scan, blank, recovered, recover_with_report, flatten, max_sequence, FlashRecoverReport,
}
use sleep_environment_monito.Spool.Log.{Entry, put, ack, View, replay, replay_entry, start, after}
use sleep_environment_monito.Spool.Log.Slots.{
  pack, flatten-pack, push_stored_record-pack, remove_stored_record-pack, length-remove_first,
}
use sleep_environment_monito.Spool.Log.Entries.{
  IsEntry, entry_bytes, entry_bytes_bounds, scanned, scan_round-entry, scan_round-erased,
}

-- The log as it lies in the flash.
abbrev pub log_bytes : List Entry → List ℕ
log_bytes [] = []
log_bytes (e ∷ log) = entry_bytes e ++ log_bytes log

-- The scan reads 24 bytes at each entry, the entry of 16 bytes included: all entries of the log,
-- which begins at `at`, begin 24 bytes before the end of the region or earlier.
abbrev pub Readable : ℕ → ℕ → List Entry → Type 0
Readable total at [] = Unit
Readable total at (e ∷ log) = (at + 24 ≤ total) × Readable total (at + length (entry_bytes e)) log

abbrev scanned_all : ℕ → Scan → List Entry → Scan
scanned_all capacity sc [] = sc
scanned_all capacity sc (e ∷ log) = scanned_all capacity (scanned capacity sc e) log

-- The slots and the sequence that the scan keeps are those of the view.
record Tracks (capacity : ℕ) (sc : Scan) (v : View) : Type 0 where
  slots : sc.slots ≡ pack capacity v.pending
  seen : sc.seen ≡ v.seen
  fits : length v.pending ≤ capacity

max_sequence-later :
    (o : Option ℕ) (sequence : ℕ) → max_sequence o sequence ≡ later_sequence o sequence
max_sequence-later none sequence = refl
max_sequence-later (some current) sequence = ground arith

Tracks-entry :
    (capacity : ℕ) (sc : Scan) (v : View) (e : Entry)
    → Tracks capacity sc v
    → Tracks capacity (scanned capacity sc e) (replay_entry capacity v e)
Tracks-entry capacity sc v (put r) t = record {
  slots = rw t.slots (push_stored_record-pack capacity v.pending r t.fits);
  seen = rw t.seen (ap some (max_sequence-later v.seen r.sequence));
  fits = length-push capacity v.pending r t.fits;
}
Tracks-entry capacity sc v (ack sequence) t = record {
  slots = rw t.slots (remove_stored_record-pack capacity v.pending sequence t.fits);
  seen = rw t.seen (ap some (max_sequence-later v.seen sequence));
  fits = omega (arith, length-remove_first sequence v.pending, t.fits);
}

Tracks-log :
    (capacity : ℕ) (sc : Scan) (v : View) (log : List Entry)
    → Tracks capacity sc v
    → Tracks capacity (scanned_all capacity sc log) (replay capacity v log)
unfolding replay
Tracks-log capacity sc v [] t = t
Tracks-log capacity sc v (e ∷ log) t =
    Tracks-log capacity (scanned capacity sc e) (replay_entry capacity v e) log
      (Tracks-entry capacity sc v e t)

Tracks-start :
    (capacity : ℕ)
    → Tracks capacity
        (record { slots = replicate capacity none; seen = none; cursor = 0; corrupt = 0 })
        start
Tracks-start capacity = record {
  slots = ap (λ n. replicate n none) {x = capacity} (omega arith);
  seen = refl;
  fits = omega arith;
}

abbrev after_seen : Option ℕ → ℕ
after_seen o = elim o [ none ↦ 0 | some sequence ↦ next_of sequence ]

after_lem : (o : Option ℕ) → after_seen o ≡ after o
after_lem none = refl
after_lem (some sequence) = refl

scanned-cursor :
    (capacity : ℕ) (sc : Scan) (e : Entry)
    → ((scanned capacity sc e).cursor ≡ sc.cursor + length (entry_bytes e))
      × ((scanned capacity sc e).corrupt ≡ sc.corrupt)
scanned-cursor capacity sc (put r) = (refl, refl)
scanned-cursor capacity sc (ack sequence) = (refl, refl)

scanned_all-cursor :
    (capacity : ℕ) (sc : Scan) (log : List Entry)
    → ((scanned_all capacity sc log).cursor ≡ sc.cursor + length (log_bytes log))
      × ((scanned_all capacity sc log).corrupt ≡ sc.corrupt)
scanned_all-cursor capacity sc [] = (omega arith, refl)
scanned_all-cursor capacity sc (e ∷ log) = omega (
  arith,
  scanned-cursor capacity sc e,
  scanned_all-cursor capacity (scanned capacity sc e) log,
  length-append (entry_bytes e) (log_bytes log),
)

module _ {S : Type 0} (F : FlashStorage S) (IsValid : S → Type 0) (bytes : S → List ℕ)
    (nor : IsNor F IsValid bytes) where
  scan_log :
      (capacity size fuel : ℕ) (s : S) (sc : Scan) (before : List ℕ) (log : List Entry) (free : ℕ)
      → IsValid s
      → size ≤ 490
      → All (IsEntry size) log
      → bytes s ≡ before ++ (log_bytes log ++ replicate free 255)
      → sc.cursor ≡ length before
      → length before % 4 ≡ 0
      → Readable (length (bytes s)) sc.cursor log
      → length log < fuel
      → scan F capacity size fuel s sc ≡ some (ok (scanned_all capacity sc log))
  unfolding scan
  scan_log capacity size zero s sc before log free v hs es layout at aligned room h =
      absurd (omega arith)
  scan_log capacity size (suc fuel) s sc before [] free v hs es layout at aligned room h =
      rw
        (
          scan_round-erased F IsValid bytes nor capacity size s sc before free v layout at aligned,
          scan,
        )
        refl
  scan_log capacity size (suc fuel) s sc before (e ∷ log) free v hs es layout at aligned room h =
      rw
        (
          scan_round-entry F IsValid bytes nor capacity size s sc before
              (log_bytes log ++ replicate free 255) e v hs es.0
              (layout ∙ ap (λ l. before ++ l) (append_assoc (entry_bytes e) (log_bytes log) _)) at
              aligned room.0,
          scan,
        )
        (scan_log capacity size fuel s (scanned capacity sc e) (before ++ entry_bytes e) log free v
          hs es.1
          (layout
            ∙ ap (λ l. before ++ l) (append_assoc (entry_bytes e) (log_bytes log) _)
            ∙ sym (append_assoc before (entry_bytes e) _))
          (omega (arith, moved, length-append before (entry_bytes e)))
          (omega (arith, length-append before (entry_bytes e), entry_bytes_bounds size e hs es.0))
          (subst (λ n. Readable (length (bytes s)) n log) (sym moved) room.1) (omega arith))
    where
      moved : (scanned capacity sc e).cursor ≡ sc.cursor + length (entry_bytes e)
      moved = (scanned-cursor capacity sc e).0

  log_len :
      (size : ℕ) (log : List Entry)
      → size ≤ 490
      → All (IsEntry size) log
      → length log ≤ length (log_bytes log)
  log_len size [] hs es = omega arith
  log_len size (e ∷ log) hs es = omega (
    arith,
    entry_bytes_bounds size e hs es.0,
    log_len size log hs es.1,
    length-append (entry_bytes e) (log_bytes log),
  )

  -- Reading a log back gives the records that it leaves pending, in their order, the sequence after
  -- the greatest one seen, and the end of the log as the place of the next write; nothing counts as
  -- corrupt. The log is one of well-formed entries in a valid region, erased behind it, that the
  -- scan can read, and `PAYLOAD_SIZE` is one that the entry buffer takes.
  pub recover_replays :
      (capacity size : ℕ) (s : S) (log : List Entry) (free : ℕ)
      → IsValid s
      → size ≤ 490
      → All (IsEntry size) log
      → bytes s ≡ log_bytes log ++ replicate free 255
      → Readable (length (bytes s)) 0 log
      → (b : BackedSpool) × (report : FlashRecoverReport) × (recover_with_report F capacity size s
          ≡ some (ok (b, report)))
        × Stores capacity b.spool.queue (replay capacity start log).pending
        × (b.spool.next_sequence ≡ after (replay capacity start log).seen)
        × (b.write_offset ≡ length (log_bytes log))
        × (report.recovered_record_count ≡ length (replay capacity start log).pending)
        × (report.corrupt_record_count ≡ 0)
  unfolding recover_with_report
  recover_replays capacity size s log free v hs es layout room = (
    (recovered F capacity size sc).0,
    (recovered F capacity size sc).1,
    run,
    rw records (recover_Stores capacity view.pending _ t.fits),
    recover-next_sequence capacity (flatten sc.slots) (after_seen sc.seen)
        ∙ after_lem sc.seen
        ∙ ap after t.seen,
    omega (arith, scanned_all-cursor capacity (blank F capacity size) log),
    ap length records,
    (scanned_all-cursor capacity (blank F capacity size) log).1,
  )
    where
      sc : Scan
      sc = scanned_all capacity (blank F capacity size) log

      view : View
      view = replay capacity start log

      t : Tracks capacity sc view
      t = Tracks-log capacity (blank F capacity size) start log (Tracks-start capacity)

      records : flatten sc.slots ≡ view.pending
      records = ap flatten t.slots ∙ flatten-pack capacity view.pending

      enough : length log < F.len s + 1
      enough = omega (
        arith,
        nor.size s,
        ap length layout,
        length-append (log_bytes log) (replicate free 255),
        log_len size log hs es,
      )

      run : recover_with_report F capacity size s ≡ some (ok (recovered F capacity size sc))
      run =
          rw
            (
              encoded_record_len_lem size (omega arith),
              le→ltb 512 (align_up (22 + size) 4) (omega (arith, align_up_bounds (22 + size))),
              scan_log capacity size (F.len s + 1) s (blank F capacity size) [] log free v hs es
                  layout refl refl room enough,
              recover_with_report,
            )
            refl

-- ===== src/Spool/Backed/Total.antt =====
-- The loops of spool/flash.rs end: the fuel that the model gives them is enough, whatever the flash
-- and the queue hold.
use sleep_environment_monito.Prelude.{
  ℕ, zero, suc, ◌+◌, ◌-◌, ◌≤◌, ◌<◌, ◌≡◌, ◌≢◌, refl, ◌⊎◌, inl, inr, List, [], ◌∷◌, false, none, some,
  arith, leb, Result, ok, err, length, Bool-cases, Result-cases,
}
use sleep_environment_monito.Flash.{FlashStorage}
use sleep_environment_monito.Spool.Memory.{StoredRecord}
use sleep_environment_monito.Queue
use sleep_environment_monito.Queue.{DropOldestQueue}
use sleep_environment_monito.Queue.Fifo
use sleep_environment_monito.Queue.Refine.{Stores, pop_refines}
use sleep_environment_monito.Spool.Codec.{
  SpoolError, flash_full, encoded_record_len, encoded_log_entry_len,
}
use sleep_environment_monito.Spool.Backed.{Shrunk, shrink, take_off, queue_encoded_len}
use sleep_environment_monito.Spool.Backed.Recover.{
  Scan, Round, stop, go, scan_entry, scan_round, scan, recover_with_report, blank,
}

entry_len_positive : (input : List ℕ) (n : ℕ) → encoded_log_entry_len input ≡ ok n → 0 < n
unfolding encoded_log_entry_len encoded_record_len
entry_len_positive input n h = ground (arith, h)

scan_entry_cursor :
    (capacity size : ℕ) (sc sc' : Scan) (len : ℕ) (entry : List ℕ)
    → scan_entry capacity size sc len entry ≡ go sc'
    → sc'.cursor ≡ sc.cursor + len
unfolding scan_entry
scan_entry_cursor capacity size sc sc' len entry h = ground (arith, h)

Round-cases :
    (r : Round) → ((x : Result SpoolError Scan) × (r ≡ stop x)) ⊎ ((sc : Scan) × (r ≡ go sc))
Round-cases (stop x) = inl (x, refl)
Round-cases (go sc) = inr (sc, refl)

module _ {S : Type 0} (F : FlashStorage S) (capacity size : ℕ) where
  scan_round_cursor :
      (s : S) (sc sc' : Scan)
      → scan_round F capacity size s sc ≡ go sc'
      → (sc.cursor < sc'.cursor) × (sc.cursor + 4 ≤ F.len s)
  unfolding scan_round
  scan_round_cursor s sc sc' h =
      grind (arith, h, scan_entry_cursor capacity size sc sc', entry_len_positive)

  scan_total :
      (fuel : ℕ) (s : S) (sc : Scan)
      → F.len s - sc.cursor < fuel
      → (r : Result SpoolError Scan) × (scan F capacity size fuel s sc ≡ some r)
  unfolding scan
  scan_total zero s sc h = absurd (omega arith)
  scan_total (suc fuel) s sc h = elim (Round-cases (scan_round F capacity size s sc)) [
    | inl (r, e) ↦ (r, rw (e, scan) refl)
    | inr (sc', e) ↦
        let (r, run) = scan_total fuel s sc' (omega (arith, scan_round_cursor s sc sc' e)) in
        (r, rw (e, scan) run)
  ]

  -- Reading the flash back ends, with a spool or with an error, whatever the flash holds and
  -- however its reads answer.
  pub recover_total : (s : S) → recover_with_report F capacity size s ≢ none
  unfolding recover_with_report
  recover_total s h =
      let (r, run) = scan_total (F.len s + 1) s (blank F capacity size) (omega arith) in
      grind (arith, h, run)

not_empty : (q : DropOldestQueue StoredRecord) → Queue.is_empty q ≡ false → q.len ≢ 0
unfolding Queue.is_empty
not_empty q h = ground (arith, h)

left :
    {fuel : ℕ} (xs : List StoredRecord)
    → length (Fifo.rest xs) ≢ 0
    → length xs < suc fuel
    → length (Fifo.rest xs) < fuel
left [] ne h = absurd (ne refl)
left (x ∷ xs) ne h = omega (arith, h)

-- The loop that takes records off until the rest fits ends within a round for each record and one
-- more, with what it kept or with an error.
pub shrink_total :
    (fuel capacity limit : ℕ) (s : Shrunk) (xs : List StoredRecord)
    → Stores capacity s.queue xs
    → length xs < fuel
    → (r : Result SpoolError Shrunk) × (shrink fuel capacity limit s ≡ some r)
unfolding shrink
shrink_total zero capacity limit s xs v h = absurd (omega arith)
shrink_total (suc fuel) capacity limit s xs v h =
    let popped = pop_refines capacity s.queue xs v in
    elim (Result-cases (queue_encoded_len capacity s.queue)) [
      | inr (e, failed) ↦ (err e, rw (failed, shrink) refl)
      | inl (total, known) ↦ elim (Bool-cases (leb total limit)) [
        | inl fits ↦ (ok s, rw (known, fits, shrink) refl)
        | inr long ↦ elim (Bool-cases (Queue.is_empty (take_off capacity s).queue)) [
          | inl empty ↦ (err flash_full, rw (known, long, empty, shrink) refl)
          | inr more ↦
              let (r, run) =
                shrink_total fuel capacity limit (take_off capacity s) (Fifo.rest xs) popped.1 (
                  left xs
                    (omega (arith, popped.1.len_eq, not_empty (take_off capacity s).queue more))
                    h) in
              (r, rw (known, long, more, shrink) run)
        ]
      ]
    ]

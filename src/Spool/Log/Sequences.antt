-- ===== src/Spool/Log/Sequences.antt =====
-- The sequences that the log of spool/flash.rs holds: none is later than the greatest one seen.
use sleep_environment_monito.Prelude.{
  ℕ, ◌+◌, ◌^◌, ◌≤◌, ◌<◌, ◌≡◌, refl, ap, List, [], ◌∷◌, Option, none, some, arith, ◌==◌, length, All,
  All-append, Bool-cases, inl, inr,
}
use sleep_environment_monito.Queue.Fifo
use sleep_environment_monito.Spool.Memory.{StoredRecord, later_sequence}
use sleep_environment_monito.Spool.Log.{
  Entry, put, ack, View, replay, replay_entry, after, remove_first,
}

-- No record of the log is later than the greatest sequence seen, which is not the last one.
abbrev pub AtMost : Option ℕ → ℕ → Type 0
AtMost none n = 1 ≤ 0
AtMost (some m) n = n ≤ m

abbrev pub NoWrap : Option ℕ → Type 0
NoWrap none = Unit
NoWrap (some m) = m + 1 < 2 ^ 64

pub later_next : (o : Option ℕ) → NoWrap o → later_sequence o (after o) ≡ after o
later_next none h = refl
later_next (some m) h = ground (arith, h)

pub later_old : (o : Option ℕ) (n : ℕ) → AtMost o n → some (later_sequence o n) ≡ o
later_old none n h = absurd (omega (arith, h))
later_old (some m) n h = ap some (ground (arith, h))

AtMost-later : (o : Option ℕ) (m n : ℕ) → AtMost o n → AtMost (some (later_sequence o m)) n
AtMost-later none m n h = absurd (omega (arith, h))
AtMost-later (some k) m n h = ground (arith, h)

AtMost-self : (o : Option ℕ) (n : ℕ) → AtMost (some (later_sequence o n)) n
AtMost-self none n = omega arith
AtMost-self (some k) n = ground arith

abbrev IsBounded : Option ℕ → List StoredRecord → Type 0
IsBounded o = All (λ r. AtMost o r.sequence)

IsBounded-later :
    (o : Option ℕ) (m : ℕ) (xs : List StoredRecord)
    → IsBounded o xs
    → IsBounded (some (later_sequence o m)) xs
IsBounded-later o m [] h = tt
IsBounded-later o m (x ∷ xs) h = (AtMost-later o m x.sequence h.0, IsBounded-later o m xs h.1)

IsBounded-rest :
    (o : Option ℕ) (xs : List StoredRecord) → IsBounded o xs → IsBounded o (Fifo.rest xs)
IsBounded-rest o [] h = tt
IsBounded-rest o (x ∷ xs) h = h.1

IsBounded-remove_first :
    (o : Option ℕ) (sequence : ℕ) (xs : List StoredRecord)
    → IsBounded o xs
    → IsBounded o (remove_first sequence xs)
unfolding remove_first
IsBounded-remove_first o sequence [] h = tt
IsBounded-remove_first o sequence (x ∷ xs) h = elim (Bool-cases (x.sequence == sequence)) [
  | inl e ↦ rw e h.1
  | inr e ↦ rw e (h.0, IsBounded-remove_first o sequence xs h.1)
]

IsBounded-push :
    (o : Option ℕ) (capacity : ℕ) (xs : List StoredRecord) (x : StoredRecord)
    → IsBounded o xs
    → AtMost o x.sequence
    → IsBounded o (Fifo.push capacity xs x).1
IsBounded-push o capacity xs x h hx = elim (Bool-cases (capacity == 0)) [
  | inl z ↦ rw z h
  | inr z ↦ elim (Bool-cases (length xs == capacity)) [
    | inl full ↦
        rw (z, full)
          (All-append (λ r. AtMost o r.sequence) (Fifo.rest xs) (x ∷ []) (IsBounded-rest o xs h)
            (hx, tt))
    | inr room ↦ rw (z, room) (All-append (λ r. AtMost o r.sequence) xs (x ∷ []) h (hx, tt))
  ]
]

pub replay-IsBounded :
    (capacity : ℕ) (v : View) (log : List Entry)
    → All (λ r. AtMost v.seen r.sequence) v.pending
    → All (λ r. AtMost (replay capacity v log).seen r.sequence) (replay capacity v log).pending
unfolding replay
replay-IsBounded capacity v [] h = h
replay-IsBounded capacity v (put r ∷ log) h =
    replay-IsBounded capacity (replay_entry capacity v (put r)) log (
      IsBounded-push (some (later_sequence v.seen r.sequence)) capacity v.pending r
        (IsBounded-later v.seen r.sequence v.pending h) (AtMost-self v.seen r.sequence))
replay-IsBounded capacity v (ack sequence ∷ log) h =
    replay-IsBounded capacity (replay_entry capacity v (ack sequence)) log (
      IsBounded-remove_first (some (later_sequence v.seen sequence)) sequence v.pending
        (IsBounded-later v.seen sequence v.pending h))

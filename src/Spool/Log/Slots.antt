-- ===== src/Spool/Log/Slots.antt =====
-- The array of optional records of `recover_with_report` is a list with free slots behind it.
use sleep_environment_monito.Prelude.{
  ℕ, zero, suc, ◌+◌, ◌-◌, ◌≤◌, ◌≡◌, ◌≢◌, refl, ap, sym, ◌∙◌, inl, inr, List, [], ◌∷◌, ◌++◌,
  Bool-cases, true, false, Option, none, some, Option-cases, arith, ◌==◌, ==_ne, ==_eq, length, set,
  take, drop, replicate, length-append,
}
use sleep_environment_monito.Queue.Fifo
use sleep_environment_monito.Queue.Cells.{length-rest}
use sleep_environment_monito.Spool.Memory.{StoredRecord}
use sleep_environment_monito.Spool.Backed.Recover.{
  Slots, rotate_left, fill_slot, push_stored_record, position, remove_stored_record, flatten,
}
use sleep_environment_monito.Spool.Log.{remove_first}

-- The records `xs` with `free` slots behind them.
abbrev packed : List StoredRecord → ℕ → Slots
packed [] free = replicate free none
packed (x ∷ xs) free = some x ∷ packed xs free

abbrev pub pack : ℕ → List StoredRecord → Slots
pack capacity xs = packed xs (capacity - length xs)

flatten-replicate : (n : ℕ) → flatten (replicate n none) ≡ []
unfolding flatten
flatten-replicate zero = refl
flatten-replicate (suc n) = flatten-replicate n

flatten-packed : (xs : List StoredRecord) (free : ℕ) → flatten (packed xs free) ≡ xs
unfolding flatten
flatten-packed [] free = flatten-replicate free
flatten-packed (x ∷ xs) free = ap (λ l. x ∷ l) (flatten-packed xs free)

pub flatten-pack : (capacity : ℕ) (xs : List StoredRecord) → flatten (pack capacity xs) ≡ xs
flatten-pack capacity xs = flatten-packed xs (capacity - length xs)

fill_slot_free :
    (xs : List StoredRecord) (free : ℕ) (r : StoredRecord)
    → fill_slot (packed xs (suc free)) r ≡ some (packed (xs ++ r ∷ []) free)
unfolding fill_slot
fill_slot_free [] free r = refl
fill_slot_free (x ∷ xs) free r = rw (fill_slot_free xs free r) refl

fill_slot_full : (xs : List StoredRecord) (r : StoredRecord) → fill_slot (packed xs 0) r ≡ none
unfolding fill_slot
fill_slot_full [] r = refl
fill_slot_full (x ∷ xs) r = rw (fill_slot_full xs r) refl

length-packed : (xs : List StoredRecord) (free : ℕ) → length (packed xs free) ≡ length xs + free
length-packed [] zero = omega arith
length-packed [] (suc free) = omega (arith, length-packed [] free)
length-packed (x ∷ xs) free = omega (arith, length-packed xs free)

packed-append :
    (xs : List StoredRecord) (r : StoredRecord)
    → packed (xs ++ r ∷ []) 0 ≡ packed xs 0 ++ some r ∷ []
packed-append [] r = refl
packed-append (x ∷ xs) r = ap (λ l. some x ∷ l) (packed-append xs r)

packed_more :
    (xs : List StoredRecord) (free : ℕ) → packed xs free ++ none ∷ [] ≡ packed xs (suc free)
packed_more [] zero = refl
packed_more [] (suc free) = ap (λ l. none ∷ l) (packed_more [] free)
packed_more (x ∷ xs) free = ap (λ l. some x ∷ l) (packed_more xs free)

set_last {ℓ} :
    {A : Type ℓ} (xs : List A) (i : ℕ) (x y : A)
    → i ≡ length xs
    → set (xs ++ x ∷ []) i y ≡ xs ++ y ∷ []
set_last [] zero x y h = refl
set_last [] (suc i) x y h = absurd (omega arith)
set_last (z ∷ xs) zero x y h = absurd (omega arith)
set_last (z ∷ xs) (suc i) x y h = ap (λ l. z ∷ l) (set_last xs i x y (omega arith))

push_full :
    (capacity : ℕ) (xs : List StoredRecord) (r : StoredRecord)
    → length xs ≡ capacity
    → capacity ≢ 0
    → set (rotate_left (packed xs 0)) (capacity - 1) (some r) ≡ packed (Fifo.rest xs ++ r ∷ []) 0
push_full capacity [] r h ne = absurd (omega arith)
push_full capacity (x ∷ xs) r h ne =
    set_last (packed xs 0) (capacity - 1) (some x) (some r) (omega (arith, length-packed xs 0))
    ∙ sym (packed-append xs r)

-- `push_stored_record` drops the oldest record of a full array, as the queue does.
pub push_stored_record-pack :
    (capacity : ℕ) (xs : List StoredRecord) (r : StoredRecord)
    → length xs ≤ capacity
    → push_stored_record capacity (pack capacity xs) r ≡ pack capacity (Fifo.push capacity xs r).1
unfolding push_stored_record
push_stored_record-pack capacity xs r h = elim (Bool-cases (capacity == 0)) [
  | inl z ↦ rw z refl
  | inr nz ↦ elim (Bool-cases (length xs == capacity)) [
    | inl full ↦
        let e = ==_eq (length xs) capacity full in
        let no_room : capacity - length xs ≡ 0 = omega arith in
        rw (nz, full, no_room, fill_slot_full xs r)
          (ap (λ k. set (rotate_left (packed xs k)) (capacity - 1) (some r)) no_room
            ∙ push_full capacity xs r e (==_ne capacity 0 nz)
            ∙ ap (packed (Fifo.rest xs ++ r ∷ [])) {x = 0} (
                omega (
                  arith,
                  length-append (Fifo.rest xs) (r ∷ []),
                  length-rest xs,
                  ==_ne capacity 0 nz,
                )))
    | inr room ↦
        let ne = ==_ne (length xs) capacity room in
        let some_room : capacity - length xs ≡ suc (capacity - length xs - 1) = omega arith in
        rw (nz, room, some_room, fill_slot_free xs (capacity - length xs - 1) r)
          (ap (packed (xs ++ r ∷ [])) (omega (arith, length-append xs (r ∷ []))))
  ]
]

-- The array after the record at `i` is moved to its end, before the end is cleared.
moved : Slots → ℕ → Slots
moved slots i = take i slots ++ rotate_left (drop i slots)

position_free : (free sequence : ℕ) → position (packed [] free) sequence ≡ none
unfolding position
position_free zero sequence = refl
position_free (suc free) sequence = rw (position_free free sequence) refl

position_here :
    (sequence : ℕ) (x : StoredRecord) (slots : Slots)
    → (x.sequence == sequence) ≡ true
    → position (some x ∷ slots) sequence ≡ some 0
unfolding position
position_here sequence x slots h = rw h refl

position_later :
    (sequence : ℕ) (x : StoredRecord) (slots : Slots) {o : Option ℕ}
    → (x.sequence == sequence) ≡ false
    → position slots sequence ≡ o
    → position (some x ∷ slots) sequence ≡ elim o [ none ↦ none | some i ↦ some (i + 1) ]
unfolding position
position_later sequence x slots h e = rw (h, e) refl

moved-suc :
    (slots : Slots) (x : Option StoredRecord) (i : ℕ)
    → moved (x ∷ slots) (i + 1) ≡ x ∷ moved slots i
unfolding moved
moved-suc slots x i = ap (moved (x ∷ slots)) {x = i + 1} {y = suc i} (omega arith)

-- The first record with the sequence comes to the end, and the others keep their order.
moved_first :
    (sequence : ℕ) (xs : List StoredRecord) (free i : ℕ)
    → position (packed xs free) sequence ≡ some i
    → (last : StoredRecord) × (moved (packed xs free) i
        ≡ packed (remove_first sequence xs) free ++ some last ∷ [])
      × (length (remove_first sequence xs) + 1 ≡ length xs)
unfolding moved remove_first
moved_first sequence [] free i h = cc (position_free free sequence)
moved_first sequence (x ∷ xs) free i h = elim (Bool-cases (x.sequence == sequence)) [
  | inl here ↦
      let e : 0 ≡ i = cc (position_here sequence x (packed xs free) here) in
      rw (here, ← e) (x, refl, omega arith)
  | inr other ↦ elim (Option-cases (position (packed xs free) sequence)) [
    | inl missing ↦ cc (position_later sequence x (packed xs free) other missing)
    | inr (j, found) ↦
        let e : j + 1 ≡ i = cc (position_later sequence x (packed xs free) other found) in
        let (last, shape, count) = moved_first sequence xs free j found in
        rw (other, ← e)
          (last, moved-suc (packed xs free) (some x) j ∙ ap (λ l. some x ∷ l) shape, omega arith)
  ]
]

-- Without the sequence there is nothing to remove.
remove_missing :
    (sequence : ℕ) (xs : List StoredRecord) (free : ℕ)
    → position (packed xs free) sequence ≡ none
    → remove_first sequence xs ≡ xs
unfolding remove_first
remove_missing sequence [] free h = refl
remove_missing sequence (x ∷ xs) free h = elim (Bool-cases (x.sequence == sequence)) [
  | inl here ↦ cc (position_here sequence x (packed xs free) here)
  | inr other ↦ elim (Option-cases (position (packed xs free) sequence)) [
    | inl missing ↦ rw other (ap (λ l. x ∷ l) (remove_missing sequence xs free missing))
    | inr (j, found) ↦ cc (position_later sequence x (packed xs free) other found)
  ]
]

-- `remove_stored_record_by_sequence` takes the first record with the sequence off the list.
pub remove_stored_record-pack :
    (capacity : ℕ) (xs : List StoredRecord) (sequence : ℕ)
    → length xs ≤ capacity
    → remove_stored_record capacity (pack capacity xs) sequence
      ≡ pack capacity (remove_first sequence xs)
unfolding remove_stored_record moved
remove_stored_record-pack capacity xs sequence h =
    elim (Option-cases (position (pack capacity xs) sequence)) [
      | inl missing ↦
          rw
            (
              missing,
              remove_missing sequence xs (capacity - length xs) missing,
              remove_stored_record,
            )
            refl
      | inr (i, found) ↦
          let (last, shape, count) = moved_first sequence xs (capacity - length xs) i found in
          rw (found, remove_stored_record)
            (ap (λ l. set l (capacity - 1) none) shape
              ∙ set_last (packed (remove_first sequence xs) (capacity - length xs)) (capacity - 1)
                  (some last) none
                  (omega (arith, length-packed (remove_first sequence xs) (capacity - length xs)))
              ∙ packed_more (remove_first sequence xs) (capacity - length xs)
              ∙ ap (packed (remove_first sequence xs)) {x = suc (capacity - length xs)}
                  (omega arith))
    ]

pub length-remove_first :
    (sequence : ℕ) (xs : List StoredRecord) → length (remove_first sequence xs) ≤ length xs
unfolding remove_first
length-remove_first sequence [] = omega arith
length-remove_first sequence (x ∷ xs) = ground (arith, length-remove_first sequence xs)

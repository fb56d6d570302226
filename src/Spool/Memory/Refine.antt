-- ===== src/Spool/Memory/Refine.antt =====
-- The pending records of spool/memory.rs as a list.
use sleep_environment_monito.Prelude.{
  ℕ, ◌+◌, ◌≤◌, ◌<◌, ◌≡◌, refl, sym, List, [], ◌∷◌, ◌++◌, Option, none, arith, ne_test, length,
  length-append, append_assoc, append-nil,
}
use sleep_environment_monito.Queue
use sleep_environment_monito.Queue.{DropOldestQueue}
use sleep_environment_monito.Queue.Fifo
use sleep_environment_monito.Queue.Refine.{Stores, Stores-new, push_refines}
use sleep_environment_monito.Spool.Memory
use sleep_environment_monito.Spool.Memory.{
  StoredRecord, PersistentSpool, AppendResult, new_record, as_record, count_some, next_of, push_all,
}

-- A list with room takes an item at its end.
pub push_room {ℓ} :
    {T : Type ℓ} (n : ℕ) (xs : List T) (x : T)
    → length xs < n
    → Fifo.push n xs x ≡ (none, xs ++ x ∷ [])
push_room n xs x h = rw (ne_test n 0 (omega arith), ne_test (length xs) n (omega arith)) refl

-- What the queue promises keeps to its capacity.
pub length-push {ℓ} :
    {T : Type ℓ} (n : ℕ) (xs : List T) (x : T) → length xs ≤ n → length (Fifo.push n xs x).1 ≤ n
length-push n [] x h = ground arith
length-push n (y ∷ xs) x h = ground (arith, length-append xs (x ∷ []))

pub push_all-Stores :
    (n : ℕ) (q : DropOldestQueue StoredRecord) (seen : Option ℕ) (ys xs : List StoredRecord)
    → Stores n q ys
    → length ys + length xs ≤ n
    → Stores n (push_all n q seen xs).0 (ys ++ xs)
unfolding push_all
push_all-Stores n q seen ys [] v h = rw append-nil v
push_all-Stores n q seen ys (x ∷ xs) v h =
    let (out, v') = push_refines n q ys x v in
    let room = push_room n ys x (omega arith) in
    rw (sym (append_assoc ys (x ∷ []) xs)) (
      push_all-Stores n (Queue.push n q x).1 _ (ys ++ x ∷ []) xs (rw room at v')
        (omega (arith, length-append ys (x ∷ []))))

-- `recover_from_records` restores records that fit, in their order.
pub recover_Stores :
    (n : ℕ) (xs : List StoredRecord) (next_sequence : ℕ)
    → length xs ≤ n
    → Stores n (Memory.recover_with_next_sequence n xs next_sequence).queue xs
unfolding Memory.recover_with_next_sequence
recover_Stores n xs next_sequence h =
    push_all-Stores n (Queue.new StoredRecord n) none [] xs (Stores-new n) (omega arith)

pub recover-next_sequence :
    (n : ℕ) (xs : List StoredRecord) (next_sequence : ℕ)
    → (Memory.recover_with_next_sequence n xs next_sequence).next_sequence ≡ next_sequence
unfolding Memory.recover_with_next_sequence
recover-next_sequence n xs next_sequence = refl

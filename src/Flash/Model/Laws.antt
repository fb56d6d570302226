-- ===== src/Flash/Model/Laws.antt =====
-- The in-memory region of flash_model.rs: what its calls do, and that it is NOR flash.
use native.Mathlib.Nat.{mod-eq_of_lt}
use sleep_environment_monito.Prelude.{
  ℕ, zero, suc, ◌+◌, ◌%◌, ◌≤◌, ◌<◌, ◌≡◌, refl, ap, ap₂, ◌∙◌, List, [], ◌∷◌, ◌++◌, true, arith,
  eq_test, ne_test, ok, err, length, slice, take, drop, length-append, length-take, length-drop,
  length-replicate, take-length-append, drop-length-append, append-nil, usize_max,
}
use sleep_environment_monito.Prelude.Bytes.{IsBytes, and_erased}
use sleep_environment_monito.Flash.{FlashError, IsNor, overwrite, erased}
use sleep_environment_monito.Flash.Model.{
  InMemoryFlash, checked_range, can_program, program, read, write, erase, storage,
}

-- Offsets into an array of the target fit `usize`.
abbrev pub IsValid : InMemoryFlash → Type 0
IsValid m = length m.cells ≤ usize_max

range_ok :
    (m : InMemoryFlash) (at n : ℕ)
    → IsValid m
    → at + n ≤ length m.cells
    → checked_range m at n ≡ ok (at + n)
unfolding checked_range
range_ok m at n v h = ground arith

-- Where a program step is allowed its result is the new bytes.
program_new :
    (old new : List ℕ)
    → length old ≡ length new
    → can_program old new ≡ true
    → program old new ≡ new
unfolding can_program program
program_new [] [] e h = refl
program_new [] (b ∷ new) e h = absurd (omega arith)
program_new (x ∷ old) [] e h = absurd (omega arith)
program_new (x ∷ old) (b ∷ new) e h =
    ap₂ (λ y ys. y ∷ ys) (ground arith) (program_new old new (omega arith) (ground arith))

can_program-erased : (new : List ℕ) → IsBytes new → can_program (erased (length new)) new ≡ true
unfolding can_program
can_program-erased [] h = refl
can_program-erased (b ∷ new) h =
    rw (and_erased b h.0, eq_test b b refl) (can_program-erased new h.1)

pub length-slice :
    {A : Type 0} (xs : List A) (at n : ℕ) → at + n ≤ length xs → length (slice xs at n) ≡ n
length-slice xs at n h = omega (arith, length-take n (drop at xs), length-drop at xs)

pub length-overwrite :
    (xs : List ℕ) (at : ℕ) (new : List ℕ)
    → at + length new ≤ length xs
    → length (overwrite xs at new) ≡ length xs
length-overwrite xs at new h = omega (
  arith,
  length-append (take at xs) (new ++ drop (at + length new) xs),
  length-append new (drop (at + length new) xs),
  length-take at xs,
  length-drop (at + length new) xs,
)

-- What was written is read back.
pub slice-overwrite :
    (xs : List ℕ) (at : ℕ) (new : List ℕ)
    → at + length new ≤ length xs
    → slice (overwrite xs at new) at (length new) ≡ new
slice-overwrite xs at new h =
    ap (take (length new)) (drop-length-append at (take at xs) _ (omega (arith, length-take at xs)))
    ∙ take-length-append (length new) new _ refl

write_ok :
    (m : InMemoryFlash) (at : ℕ) (new : List ℕ)
    → IsValid m
    → at + length new ≤ length m.cells
    → can_program (slice m.cells at (length new)) new ≡ true
    → write m at new ≡ (ok tt, record m { cells = overwrite m.cells at new })
unfolding write
write_ok m at new v h p =
    rw (range_ok m at (length new) v h, write)
      (rw p (
        rw
          (program_new (slice m.cells at (length new)) new (length-slice m.cells at (length new) h)
            p)
          refl))

-- In a region no larger than `usize` counts, a write within the region that needs no bit set
-- succeeds: the new bytes then stand in its range and are what a read of it gives, and all other
-- bytes are as before.
pub write-read :
    (m : InMemoryFlash) (at : ℕ) (new : List ℕ)
    → IsValid m
    → at + length new ≤ length m.cells
    → can_program (slice m.cells at (length new)) new ≡ true
    → ((write m at new).0 ≡ ok tt)
      × ((write m at new).1.cells ≡ overwrite m.cells at new)
      × (read (write m at new).1 at (length new) ≡ ok new)
unfolding read
write-read m at new v h p = rw (write_ok m at new v h p) (
  refl,
  refl,
  rw
      (
        range_ok (record m { cells = overwrite m.cells at new }) at (length new)
            (omega (arith, length-overwrite m.cells at new h))
            (omega (arith, length-overwrite m.cells at new h)),
        read,
      )
      (ap ok (slice-overwrite m.cells at new h)),
)

-- A write that fails leaves the region as it was; so does an erase, below.
pub write_fails :
    (m : InMemoryFlash) (at : ℕ) (new : List ℕ) (e : FlashError)
    → (write m at new).0 ≡ err e
    → (write m at new).1 ≡ m
unfolding write
write_fails m at new e h = ground arith

erase_fails :
    (sector : ℕ) (m : InMemoryFlash) (at n : ℕ) (e : FlashError)
    → (erase sector m at n).0 ≡ err e
    → (erase sector m at n).1 ≡ m
unfolding erase
erase_fails sector m at n e h = ground arith

read_ok :
    (m : InMemoryFlash) (at n : ℕ)
    → IsValid m
    → at + n ≤ length m.cells
    → read m at n ≡ ok (slice m.cells at n)
unfolding read
read_ok m at n v h = rw (range_ok m at n v h, read) refl

write_erased :
    (m : InMemoryFlash) (at : ℕ) (new : List ℕ)
    → IsValid m
    → at + length new ≤ length m.cells
    → slice m.cells at (length new) ≡ erased (length new)
    → IsBytes new
    → write m at new ≡ (ok tt, record m { cells = overwrite m.cells at new })
write_erased m at new v h e b = write_ok m at new v h (rw e (can_program-erased new b))

drop-all : (n : ℕ) (xs : List ℕ) → length xs ≤ n → drop n xs ≡ []
drop-all zero [] h = refl
drop-all zero (x ∷ xs) h = absurd (omega arith)
drop-all (suc n) [] h = refl
drop-all (suc n) (x ∷ xs) h = drop-all n xs (omega arith)

length-splice :
    (xs : List ℕ) (at : ℕ) (mid : List ℕ) (end : ℕ)
    → at + length mid ≡ end
    → end ≤ length xs
    → length (take at xs ++ (mid ++ drop end xs)) ≡ length xs
length-splice xs at mid end e h = omega (
  arith,
  length-append (take at xs) (mid ++ drop end xs),
  length-append mid (drop end xs),
  length-take at xs,
  length-drop end xs,
)

length-program : (old new : List ℕ) → length (program old new) ≡ length old
unfolding program
length-program [] [] = refl
length-program [] (b ∷ new) = refl
length-program (x ∷ old) [] = refl
length-program (x ∷ old) (b ∷ new) = ap suc (length-program old new)

erase_all :
    (sector : ℕ) (m : InMemoryFlash)
    → IsValid m
    → 0 < length m.cells
    → 0 < sector
    → length m.cells % sector ≡ 0
    → erase sector m 0 (length m.cells) ≡ (ok tt, record m { cells = erased (length m.cells) })
unfolding erase
erase_all sector m v h hs d =
    rw
      (
        ne_test sector 0 (omega arith),
        eq_test (length m.cells % sector) 0 d,
        eq_test (0 % sector) 0 (mod-eq_of_lt hs),
        ne_test (length m.cells) 0 (omega arith),
        range_ok m 0 (length m.cells) v (omega arith),
        erase,
      )
      (ap (λ xs. (ok tt, record m { cells = xs }))
        (ap (λ ys. erased (length m.cells) ++ ys) nothing_left
          ∙ append-nil (erased (length m.cells))))
  where
    nothing_left : drop (0 + length m.cells) m.cells ≡ []
    nothing_left = drop-all (0 + length m.cells) m.cells (omega arith)

-- The calls change no region's size.
pub length-write :
    (m : InMemoryFlash) (at : ℕ) (new : List ℕ) → length (write m at new).1.cells ≡ length m.cells
unfolding write
length-write m at new = ground (
  arith,
  length-splice m.cells at (program (slice m.cells at (length new)) new) (at + length new),
  length-program (slice m.cells at (length new)) new,
  length-slice m.cells at (length new),
)

pub length-erase :
    (sector : ℕ) (m : InMemoryFlash) (at n : ℕ)
    → length (erase sector m at n).1.cells ≡ length m.cells
unfolding erase
length-erase sector m at n =
    ground (arith, length-splice m.cells at (erased n) (at + n), length-replicate {A = ℕ} n 255)

-- The in-memory region with a sector size is NOR flash.
pub storage-IsNor : (sector : ℕ) → IsNor (storage sector) IsValid (λ m. m.cells)
storage-IsNor sector = record {
  size = λ m. refl;
  small = λ m v. v;
  read_lem = λ m at n v _ _ h. read_ok m at n v h;
  write_ok = λ m at new v _ _ h e b. ap (λ p. p.0) (write_erased m at new v h e b);
  write_bytes = λ m at new v _ _ h e b. ap (λ p. p.1.cells) (write_erased m at new v h e b);
  write_valid = λ m at new v. omega (arith, length-write m at new);
  sectors = λ m at new. refl;
  erase_ok = λ m v h hs d. ap (λ p. p.0) (erase_all sector m v h hs d);
  erase_bytes = λ m v h hs d. ap (λ p. p.1.cells) (erase_all sector m v h hs d);
  erase_valid = λ m at n v. omega (arith, length-erase sector m at n);
}

-- ===== src/Flash/Model.antt =====
-- firmware/src/storage/flash_model.rs, `InMemoryFlash<N, SECTOR_SIZE>`. An array `[u8; N]` is a
-- list of `N` bytes, so `N` is the length of `cells`; the sector size is an argument.
pub mod Laws
use sleep_environment_monito.Prelude.{
  ℕ, ◌+◌, ◌%◌, List, [], ◌∷◌, ◌++◌, Bool, true, false, not, ◌&&◌, ◌||◌, some, none, bit_and, ◌==◌,
  ltb, leb, if◌then◌else◌, Result, ok, err, ◌>>=◌, length, slice, take, drop, usize_max,
  checked_add,
}
use sleep_environment_monito.Flash.{
  FlashError, out_of_bounds, unaligned_erase, invalid_erase_range, write_requires_erase,
  FlashStorage, erased,
}

pub record InMemoryFlash : Type 0 where
  pub cells : List ℕ

unfoldable pub new : ℕ → InMemoryFlash
new n = record { cells = erased n }

-- The range `offset .. offset + len` as its end.
unfoldable pub checked_range : InMemoryFlash → ℕ → ℕ → Result FlashError ℕ
checked_range m offset len = elim (checked_add usize_max offset len) [
  | none ↦ err out_of_bounds
  | some end ↦ if ltb (length m.cells) end then err out_of_bounds else ok end
]

unfoldable pub read : InMemoryFlash → ℕ → ℕ → Result FlashError (List ℕ)
unfolding checked_range
read m offset n = do end ← checked_range m offset n; ok (slice m.cells offset n)

-- No bit of `new` is set where the cell's is clear.
unfoldable pub can_program : List ℕ → List ℕ → Bool
can_program (existing ∷ old) (byte ∷ new) = bit_and existing byte == byte && can_program old new
can_program _ _ = true

unfoldable pub program : List ℕ → List ℕ → List ℕ
program (existing ∷ old) (byte ∷ new) = bit_and existing byte ∷ program old new
program old _ = old

unfoldable pub write : InMemoryFlash → ℕ → List ℕ → Result FlashError (Unit {0}) × InMemoryFlash
unfolding checked_range can_program program
write m offset new = elim (checked_range m offset (length new)) [
  | err e ↦ (err e, m)
  | ok end ↦
      let old = slice m.cells offset (length new) in
      if not (can_program old new) then (err write_requires_erase, m) else (
        ok tt,
        record m { cells = take offset m.cells ++ (program old new ++ drop end m.cells) },
      )
]

module _ (sector : ℕ) where
  unfoldable pub erase : InMemoryFlash → ℕ → ℕ → Result FlashError (Unit {0}) × InMemoryFlash
  unfolding checked_range
  erase m offset len =
      if sector == 0 || not (offset % sector == 0) || not (len % sector == 0)
      then (err unaligned_erase, m)
      else if len == 0
      then (err invalid_erase_range, m)
      else elim (checked_range m offset len) [
        | err e ↦ (err e, m)
        | ok end ↦
            (ok tt, record m { cells = take offset m.cells ++ (erased len ++ drop end m.cells) })
      ]

  -- `impl FlashStorage for InMemoryFlash`
  abbrev pub storage : FlashStorage InMemoryFlash
  storage = record {
    len = λ m. length m.cells;
    sector_size = λ m. sector;
    read = read;
    write = write;
    erase = erase;
  }

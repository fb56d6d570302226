-- ===== src/Region/Rom.antt =====
-- firmware/src/drivers/flash.rs: `RomSpoolFlash` and `RomBleAuthFlash`, a region of the chip behind
-- the flash calls of the ROM, which are a parameter. The ROM moves words of 32 bits, at most
-- sixteen in a call.
pub mod Loops
pub mod Chip
pub mod Nor
pub mod Smoke
mod Tests
use sleep_environment_monito.Prelude.{
  ℕ, zero, suc, ◌+◌, ◌-◌, ◌*◌, ◌/◌, ◌%◌, List, [], ◌∷◌, ◌++◌, Bool, not, ◌||◌, ◌&&◌, Option, none,
  some, ◌==◌, if◌then◌else◌, Result, ok, err, ◌>>=◌, map_err, length, take, drop, min,
}
use sleep_environment_monito.Prelude.Bytes.{from_le, to_le}
use sleep_environment_monito.Flash.{
  FlashStorage, FlashError, unaligned_erase, invalid_erase_range, write_requires_erase,
}
use sleep_environment_monito.Flash
use sleep_environment_monito.Region.{
  FlashRange, FlashRegionLayout, FlashRegionError, default_spool, is_aligned, check_flash_subrange,
  validate_flash_region_layout,
}

-- The ROM's calls on the chip: a code of failure, or the words read; a write or an erase of the
-- sector with a number, and the chip after it.
pub record Rom (S : Type 0) : Type 0 where
  pub read : S → ℕ → ℕ → Result ℕ (List ℕ)
  pub write : S → ℕ → List ℕ → Result ℕ (Unit {0}) × S
  pub erase_sector : S → ℕ → Result ℕ (Unit {0}) × S

pub data RomFlashError : Type 0 where
  region : FlashRegionError → RomFlashError
  out_of_bounds unaligned no_range : RomFlashError
  read_failed write_failed erase_failed : ℕ → RomFlashError

unfoldable pub rom_to_flash_error : RomFlashError → FlashError
rom_to_flash_error out_of_bounds = Flash.out_of_bounds
rom_to_flash_error (region _) = Flash.out_of_bounds
rom_to_flash_error unaligned = unaligned_erase
rom_to_flash_error no_range = invalid_erase_range
rom_to_flash_error (read_failed _) = write_requires_erase
rom_to_flash_error (write_failed _) = write_requires_erase
rom_to_flash_error (erase_failed _) = write_requires_erase

abbrev pub rom_flash_word_chunk : ℕ
rom_flash_word_chunk = 16

-- The words of `chunks_exact(4)`, each by `from_le_bytes`.
unfoldable pub words_of : List ℕ → List ℕ
words_of (a ∷ b ∷ c ∷ d ∷ bytes) = from_le (a ∷ b ∷ c ∷ d ∷ []) ∷ words_of bytes
words_of _ = []

unfoldable pub bytes_of : List ℕ → List ℕ
bytes_of [] = []
bytes_of (word ∷ words) = to_le 4 word ++ bytes_of words

abbrev pub subrange : FlashRange → ℕ → ℕ → Result RomFlashError ℕ
subrange range offset len = elim (check_flash_subrange range offset len) [
  | none ↦ err out_of_bounds
  | some absolute ↦ ok absolute
]

-- `byte_len` of a round with `remaining` bytes to go.
abbrev pub chunk : ℕ → ℕ
chunk remaining = min remaining (rom_flash_word_chunk * 4) / 4 * 4

module _ {S : Type 0} (rom : Rom S) where
  abbrev pub Outcome : Type 0
  Outcome = Result RomFlashError (Unit {0}) × S

  -- The loop of `rom_flash_write_range`. The lengths are multiples of four, so that a round for
  -- each byte is enough.
  unfoldable pub write_loop : ℕ → ℕ → List ℕ → S → Outcome
  unfolding words_of
  write_loop zero absolute remaining s = (ok tt, s)
  write_loop (suc fuel) absolute [] s = (ok tt, s)
  write_loop (suc fuel) absolute (b ∷ remaining) s =
      let byte_len = chunk (suc (length remaining)) in
      let (result, s') = rom.write s absolute (words_of (take byte_len (b ∷ remaining))) in
      elim result [
        | err code ↦ (err (write_failed code), s')
        | ok _ ↦ write_loop fuel (absolute + byte_len) (drop byte_len (b ∷ remaining)) s'
      ]

  unfoldable pub rom_flash_write_range : FlashRange → ℕ → List ℕ → S → Outcome
  unfolding write_loop
  rom_flash_write_range range offset bytes s =
      if not (offset % 4 == 0) || not (length bytes % 4 == 0)
      then (err unaligned, s)
      else elim (check_flash_subrange range offset (length bytes)) [
        | none ↦ (err out_of_bounds, s)
        | some absolute ↦ write_loop (length bytes) absolute bytes s
      ]

  -- The loop of `rom_flash_erase_range` over the sectors to go.
  unfoldable pub erase_loop : ℕ → ℕ → S → Outcome
  erase_loop zero sector s = (ok tt, s)
  erase_loop (suc sectors) sector s =
      let (result, s') = rom.erase_sector s sector in
      elim result [
        | err code ↦ (err (erase_failed code), s')
        | ok _ ↦ erase_loop sectors (sector + 1) s'
      ]

  unfoldable pub rom_flash_erase_range : FlashRange → ℕ → ℕ → ℕ → S → Outcome
  unfolding erase_loop is_aligned
  rom_flash_erase_range range sector_size offset len s =
      if len == 0
      then (err no_range, s)
      else if not (is_aligned offset sector_size) || not (is_aligned len sector_size)
      then (err unaligned, s)
      else elim (check_flash_subrange range offset len) [
        | none ↦ (err out_of_bounds, s)
        | some absolute ↦ erase_loop (len / sector_size) (absolute / sector_size) s
      ]

  -- The loop of `rom_flash_read_range` over the count of bytes to go.
  unfoldable pub read_loop : ℕ → ℕ → ℕ → S → Result RomFlashError (List ℕ)
  unfolding bytes_of
  read_loop zero absolute remaining s = ok []
  read_loop (suc fuel) absolute zero s = ok []
  read_loop (suc fuel) absolute (suc remaining) s =
      let byte_len = chunk (suc remaining) in
      elim (rom.read s absolute (byte_len / 4)) [
        | err code ↦ err (read_failed code)
        | ok words ↦ read_loop fuel (absolute + byte_len) (suc remaining - byte_len) s >>= λ rest.
            ok (bytes_of words ++ rest)
      ]

  unfoldable pub rom_flash_read_range : FlashRange → ℕ → ℕ → S → Result RomFlashError (List ℕ)
  unfolding read_loop
  rom_flash_read_range range offset n s =
      if not (offset % 4 == 0) || not (n % 4 == 0)
      then err unaligned
      else elim (check_flash_subrange range offset n) [
        | none ↦ err out_of_bounds
        | some absolute ↦ read_loop n absolute n s
      ]

  abbrev flash_outcome : Outcome → Result FlashError (Unit {0}) × S
  flash_outcome (result, s) = (map_err rom_to_flash_error result, s)

  -- The trait's operations of `RomSpoolFlash` and `RomBleAuthFlash`, over the region's range.
  unfoldable pub rom_flash : FlashRange → ℕ → FlashStorage S
  unfolding rom_to_flash_error rom_flash_read_range rom_flash_write_range rom_flash_erase_range
  rom_flash range sector_size = record {
    len = λ s. range.size;
    sector_size = λ s. sector_size;
    read = λ s offset n. map_err rom_to_flash_error (rom_flash_read_range range offset n s);
    write = λ s offset bytes. flash_outcome (rom_flash_write_range range offset bytes s);
    erase = λ s offset len. flash_outcome (rom_flash_erase_range range sector_size offset len s);
  }

  -- `RomSpoolFlash::new` and `RomBleAuthFlash::new`, with the range that they take.
  unfoldable pub open_region :
      (FlashRegionLayout → FlashRange) → Result RomFlashError (FlashStorage S)
  unfolding rom_flash validate_flash_region_layout
  open_region range = map_err region (validate_flash_region_layout default_spool) >>= λ _.
      ok (rom_flash (range default_spool) default_spool.sector_size)

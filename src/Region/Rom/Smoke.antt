-- ===== src/Region/Rom/Smoke.antt =====
-- firmware/src/drivers/flash.rs: `run_flash_smoke_test`, which tries the first sector of the spool's
-- region.
use sleep_environment_monito.Prelude.{
  ℕ, List, [], ◌∷◌, Bool, true, false, not, ◌&&◌, ◌==◌, if◌then◌else◌, Result, ok, err, length,
}
use sleep_environment_monito.Region.{FlashRange}
use sleep_environment_monito.Region.Rom.{
  Rom, RomFlashError, rom_flash_read_range, rom_flash_write_range, rom_flash_erase_range,
}

pub data FlashSmokeError : Type 0 where
  flash_failed cleanup_erase_failed : RomFlashError → FlashSmokeError
  erase_verify_failed readback_mismatch : FlashSmokeError

abbrev pub flash_smoke_pattern : List ℕ
flash_smoke_pattern =
    0x53 ∷ 0x45 ∷ 0x46 ∷ 0x54 ∷ 0x18 ∷ 0x0b ∷ 0x5a ∷ 0xa5 ∷ 0x00 ∷ 0x3c ∷ 0x00 ∷ 0x00 ∷ 0x5a ∷ 0xa5
    ∷ 0xc3 ∷ 0x3c ∷ []

-- `readback != FLASH_SMOKE_PATTERN` compares the arrays byte by byte.
unfoldable pub same_bytes : List ℕ → List ℕ → Bool
same_bytes [] [] = true
same_bytes [] (b ∷ right) = false
same_bytes (a ∷ left) [] = false
same_bytes (a ∷ left) (b ∷ right) = a == b && same_bytes left right

unfoldable pub is_blank : List ℕ → Bool
is_blank [] = true
is_blank (b ∷ bytes) = b == 255 && is_blank bytes

module _ {S : Type 0} (rom : Rom S) (range : FlashRange) (sector_size : ℕ) where
  abbrev pub Tried : Type 0
  Tried = Result FlashSmokeError ℕ × S

  -- From the last erase on.
  unfoldable pub clean_up : S → Tried
  clean_up s =
      let (cleaned, s') = rom_flash_erase_range rom range sector_size 0 sector_size s in
      elim cleaned [ err e ↦ (err (cleanup_erase_failed e), s') | ok _ ↦ (ok range.offset, s') ]

  -- From the write of the pattern on.
  unfoldable pub try_pattern : S → Tried
  unfolding clean_up same_bytes
  try_pattern s =
      let (stored, s') = rom_flash_write_range rom range 0 flash_smoke_pattern s in
      elim stored [
        | err e ↦ (err (flash_failed e), s')
        | ok _ ↦ elim (rom_flash_read_range rom range 0 (length flash_smoke_pattern) s') [
          | err e ↦ (err (flash_failed e), s')
          | ok readback ↦
              if not (same_bytes readback flash_smoke_pattern)
              then (err readback_mismatch, s')
              else clean_up s'
        ]
      ]

  unfoldable pub run_flash_smoke_test : S → Tried
  unfolding try_pattern is_blank
  run_flash_smoke_test s =
      let (cleared, s') = rom_flash_erase_range rom range sector_size 0 sector_size s in
      elim cleared [
        | err e ↦ (err (flash_failed e), s')
        | ok _ ↦ elim (rom_flash_read_range rom range 0 (length flash_smoke_pattern) s') [
          | err e ↦ (err (flash_failed e), s')
          | ok blank ↦
              if not (is_blank blank) then (err erase_verify_failed, s') else try_pattern s'
        ]
      ]

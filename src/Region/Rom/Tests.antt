-- ===== src/Region/Rom/Tests.antt =====
-- The region of drivers/flash.rs over a chip of three sectors in memory.
use sleep_environment_monito.Prelude.{arith}
use sleep_environment_monito.Flash.{IsNor}
use sleep_environment_monito.Region.{FlashRange}
use sleep_environment_monito.Region.Rom.{rom_flash}
use sleep_environment_monito.Region.Rom.Chip.{chip, chip-IsRom}
use sleep_environment_monito.Region.Rom.Nor.{AnyState, region_bytes, rom_flash-IsNor}

abbrev two_sectors : FlashRange
two_sectors = record { offset = 4096; size = 8192 }

rom_flash-IsNor_example :
    IsNor
      (rom_flash (chip 12288) two_sectors 4096)
      AnyState
      (region_bytes (λ s. s.cells) two_sectors)
rom_flash-IsNor_example =
    rom_flash-IsNor (chip 12288) (λ s. s.cells) 12288 (chip-IsRom 12288) two_sectors (omega arith)
      (omega arith) (omega arith)

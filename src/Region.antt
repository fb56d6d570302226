-- ===== src/Region.antt =====
-- firmware/src/drivers/flash.rs and board.rs: the layout of the flash, its check, and the check of
-- an access to a region. The ROM's flash calls are not modelled.
pub mod Rom
pub mod Safety
mod Tests
use sleep_environment_monito.Prelude.{
  ℕ, ◌+◌, ◌-◌, ◌*◌, ◌%◌, List, [], ◌∷◌, Bool, true, false, not, ◌&&◌, ◌||◌, Option, none, some,
  ◌==◌, ltb, if◌then◌else◌, Result, ok, err, ◌>>=◌, u32_max, checked_add,
}

pub record FlashRange : Type 0 where
  pub offset : ℕ
  pub size : ℕ

unfoldable pub end : FlashRange → Option ℕ
end r = checked_add u32_max r.offset r.size

unfoldable pub overlaps : FlashRange → FlashRange → Bool
unfolding end
overlaps a b = elim (end a) [
  | none ↦ true
  | some a_end ↦ elim (end b) [
    | none ↦ true
    | some b_end ↦ ltb a.offset b_end && ltb b.offset a_end
  ]
]

pub record FlashRegionLayout : Type 0 where
  pub flash_size : ℕ
  pub sector_size : ℕ
  pub ble_auth : FlashRange
  pub spool : FlashRange
  pub protected : List (Option FlashRange)

abbrev pub default_spool : FlashRegionLayout
default_spool = record {
  flash_size = 4 * 1024 * 1024;
  sector_size = 4096;
  ble_auth = record { offset = 0x003b_f000; size = 0x0000_1000 };
  spool = record { offset = 0x003c_0000; size = 0x0004_0000 };
  protected =
      some (record { offset = 0; size = 0x0001_0000 })
      ∷ some (record { offset = 0x0001_0000; size = 0x003b_f000 - 0x0001_0000 })
      ∷ none
      ∷ none
      ∷ [];
}

pub data FlashRegionError : Type 0 where
  zero_flash zero_sector zero_ble_auth zero_spool : FlashRegionError
  out_of_bounds unaligned protected_overlap ble_auth_spool_overlap : FlashRegionError

-- `value.is_multiple_of(alignment)`, which only 0 is of 0
unfoldable pub is_aligned : ℕ → ℕ → Bool
is_aligned value alignment = if alignment == 0 then value == 0 else value % alignment == 0

unfoldable pub validate_flash_data_range :
    FlashRange → FlashRegionLayout → FlashRegionError → Result FlashRegionError (Unit {0})
unfolding end is_aligned
validate_flash_data_range range layout zero_error =
    if range.size == 0
    then err zero_error
    else if not (is_aligned range.offset layout.sector_size)
        || not (is_aligned range.size layout.sector_size)
    then err unaligned
    else elim (end range) [
      | none ↦ err out_of_bounds
      | some range_end ↦ if ltb layout.flash_size range_end then err out_of_bounds else ok tt
    ]

-- The loop of `validate_flash_region_layout` over the protected ranges.
unfoldable pub validate_protected :
    FlashRegionLayout → List (Option FlashRange) → Result FlashRegionError (Unit {0})
unfolding overlaps end
validate_protected layout [] = ok tt
validate_protected layout (none ∷ ranges) = validate_protected layout ranges
validate_protected layout (some range ∷ ranges) =
    let rest = validate_protected layout ranges in
    elim (end range) [
      | none ↦ err out_of_bounds
      | some range_end ↦
          if ltb layout.flash_size range_end
          then err out_of_bounds
          else if overlaps layout.ble_auth range || overlaps layout.spool range
          then err protected_overlap
          else rest
    ]

unfoldable pub validate_flash_region_layout : FlashRegionLayout → Result FlashRegionError (Unit {0})
unfolding validate_flash_data_range validate_protected overlaps
validate_flash_region_layout layout =
    if layout.flash_size == 0
    then err zero_flash
    else if layout.sector_size == 0
    then err zero_sector
    else validate_flash_data_range layout.ble_auth layout zero_ble_auth >>= λ _.
        validate_flash_data_range layout.spool layout zero_spool >>= λ _.
        if overlaps layout.ble_auth layout.spool
        then err ble_auth_spool_overlap
        else validate_protected layout layout.protected

-- `check_flash_subrange`: the absolute offset of an access, or its `RomFlashError::OutOfBounds`.
unfoldable pub check_flash_subrange : FlashRange → ℕ → ℕ → Option ℕ
check_flash_subrange range offset len =
    if ltb u32_max offset || ltb u32_max len then none else elim (checked_add u32_max offset len) [
      | none ↦ none
      | some access_end ↦
          if ltb range.size access_end then none else checked_add u32_max range.offset offset
    ]

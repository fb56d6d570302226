-- ===== src/Region/Safety.antt =====
-- An access to a region that drivers/flash.rs lets pass stays off the other regions.
use sleep_environment_monito.Prelude.{
  ℕ, ◌+◌, ◌≤◌, ◌≡◌, ◌⊎◌, List, [], ◌∷◌, false, Option, none, some, arith, ok, All,
}
use sleep_environment_monito.Region.{
  FlashRange, FlashRegionLayout, FlashRegionError, zero_spool, end, overlaps,
  validate_flash_data_range, validate_protected, validate_flash_region_layout, check_flash_subrange,
}

-- The `len` bytes at `at` and the range have no byte in common.
abbrev pub Apart : ℕ → ℕ → FlashRange → Type 0
Apart at len r = (at + len ≤ r.offset) ⊎ (r.offset + r.size ≤ at)

subrange_inside :
    (range : FlashRange) (offset len at : ℕ)
    → check_flash_subrange range offset len ≡ some at
    → (at ≡ range.offset + offset) × (offset + len ≤ range.size)
unfolding check_flash_subrange
subrange_inside range offset len at h = (ground (arith, h), ground (arith, h))

overlaps_apart :
    (a b : FlashRange)
    → overlaps a b ≡ false
    → (a.offset + a.size ≤ b.offset) ⊎ (b.offset + b.size ≤ a.offset)
unfolding overlaps end
overlaps_apart a b h = ground (arith, h)

data_range_inside :
    (range : FlashRange) (layout : FlashRegionLayout) (e : FlashRegionError)
    → validate_flash_data_range range layout e ≡ ok tt
    → range.offset + range.size ≤ layout.flash_size
unfolding validate_flash_data_range end
data_range_inside range layout e h = ground (arith, h)

abbrev IsOff : FlashRegionLayout → Option FlashRange → Type 0
IsOff layout none = Unit
IsOff layout (some r) = (overlaps layout.ble_auth r ≡ false) × (overlaps layout.spool r ≡ false)

protected-IsOff :
    (layout : FlashRegionLayout) (ranges : List (Option FlashRange))
    → validate_protected layout ranges ≡ ok tt
    → All (IsOff layout) ranges
unfolding validate_protected
protected-IsOff layout [] h = tt
protected-IsOff layout (none ∷ ranges) h = (tt, protected-IsOff layout ranges h)
protected-IsOff layout (some r ∷ ranges) h =
    ((ground (arith, h), ground (arith, h)), protected-IsOff layout ranges (ground (arith, h)))

-- The checks that a layout has passed.
record IsChecked (layout : FlashRegionLayout) : Type 0 where
  spool_inside : layout.spool.offset + layout.spool.size ≤ layout.flash_size
  regions : overlaps layout.ble_auth layout.spool ≡ false
  off : All (IsOff layout) layout.protected

layout-IsChecked :
    (layout : FlashRegionLayout) → validate_flash_region_layout layout ≡ ok tt → IsChecked layout
unfolding validate_flash_region_layout
layout-IsChecked layout h = record {
  spool_inside = data_range_inside layout.spool layout zero_spool (ground (arith, h));
  regions = ground (arith, h);
  off = protected-IsOff layout layout.protected (ground (arith, h));
}

abbrev pub IsApart : ℕ → ℕ → Option FlashRange → Type 0
IsApart at len none = Unit
IsApart at len (some r) = Apart at len r

All-IsApart :
    (layout : FlashRegionLayout) (offset len at : ℕ) (ranges : List (Option FlashRange))
    → check_flash_subrange layout.spool offset len ≡ some at
    → All (IsOff layout) ranges
    → All (IsApart at len) ranges
All-IsApart layout offset len at [] h off = tt
All-IsApart layout offset len at (none ∷ ranges) h off =
    (tt, All-IsApart layout offset len at ranges h off.1)
All-IsApart layout offset len at (some r ∷ ranges) h off = (
  ground
      (arith, subrange_inside layout.spool offset len at h, overlaps_apart layout.spool r off.0.1),
  All-IsApart layout offset len at ranges h off.1,
)

-- With a layout that passes its check, an access to the spool's region that passes the check of
-- its offset and length is at the place that the offset names, stays within the flash, and touches
-- neither the region of the stored keys nor a protected range.
pub access-Apart :
    (layout : FlashRegionLayout) (offset len at : ℕ)
    → validate_flash_region_layout layout ≡ ok tt
    → check_flash_subrange layout.spool offset len ≡ some at
    → (at ≡ layout.spool.offset + offset)
      × (at + len ≤ layout.flash_size)
      × Apart at len layout.ble_auth
      × All (IsApart at len) layout.protected
access-Apart layout offset len at valid h =
    let c = layout-IsChecked layout valid in
    let inside = subrange_inside layout.spool offset len at h in
    (
      inside.0,
      omega (arith, inside, c.spool_inside),
      ground (arith, inside, overlaps_apart layout.ble_auth layout.spool c.regions),
      All-IsApart layout offset len at layout.protected h c.off,
    )

-- ===== src/Region/Tests.antt =====
-- The layout of board.rs passes the check of drivers/flash.rs.
use sleep_environment_monito.Prelude.{◌≡◌, refl, ◌+◌, ◌≤◌, All, some, ok}
use sleep_environment_monito.Region.{
  default_spool, validate_flash_region_layout, check_flash_subrange,
}
use sleep_environment_monito.Region.Safety.{Apart, IsApart, access-Apart}

default_layout_valid : validate_flash_region_layout default_spool ≡ ok tt
unfolding validate_flash_region_layout
default_layout_valid = refl

last_sector : check_flash_subrange default_spool.spool 0x3f000 4096 ≡ some 0x3ff000
unfolding check_flash_subrange
last_sector = refl

access-Apart_example :
    (0x3ff000 ≡ default_spool.spool.offset + 0x3f000)
    × (0x3ff000 + 4096 ≤ default_spool.flash_size)
    × Apart 0x3ff000 4096 default_spool.ble_auth
    × All (IsApart 0x3ff000 4096) default_spool.protected
access-Apart_example =
    access-Apart default_spool 0x3f000 4096 0x3ff000 default_layout_valid last_sector

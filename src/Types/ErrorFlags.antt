-- ===== src/Types/ErrorFlags.antt =====
-- `ErrorFlags` of firmware/src/types.rs, its word of 32 bits.
use sleep_environment_monito.Prelude.{ℕ, Bool, not, ◌==◌, bit_and, bit_or}

abbrev pub Flags : Type 0
Flags = ℕ

abbrev pub none : Flags
none = 0

abbrev pub sht40 : Flags
sht40 = 1

abbrev pub opt3001 : Flags
opt3001 = 2

abbrev pub mic : Flags
mic = 4

abbrev pub wifi : Flags
wifi = 8

abbrev pub upload : Flags
upload = 16

abbrev pub storage : Flags
storage = 32

abbrev pub ip : Flags
ip = 64

abbrev pub discovery : Flags
discovery = 128

abbrev pub time : Flags
time = 256

abbrev pub transport : Flags
transport = 512

abbrev pub http : Flags
http = 1024

abbrev pub sensor_mask : Flags
sensor_mask = bit_or (bit_or sht40 opt3001) mic

abbrev pub network_mask : Flags
network_mask = bit_or (bit_or wifi ip) discovery

abbrev pub upload_mask : Flags
upload_mask = bit_or (bit_or upload transport) http

unfoldable pub insert : Flags → Flags → Flags
insert self flags = bit_or self flags

unfoldable pub contains : Flags → Flags → Bool
contains self flags = bit_and self flags == flags

unfoldable pub intersects : Flags → Flags → Bool
intersects self flags = not (bit_and self flags == 0)

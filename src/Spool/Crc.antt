-- ===== src/Spool/Crc.antt =====
-- firmware/src/storage/spool/flash.rs, `crc32`.
use sleep_environment_monito.Prelude.{
  ℕ, zero, suc, ◌-◌, ◌/◌, ◌^◌, ◌<◌, ◌≡◌, refl, List, [], ◌∷◌, bit_and, bit_xor, arith, u32_max,
  wrapping_sub,
}

-- One bit: `mask` is all ones if the lowest bit is set, and 0 if not.
crc_bit : ℕ → ℕ
crc_bit crc =
    let mask = wrapping_sub (2 ^ 32) 0 (bit_and crc 1) in
    bit_xor (crc / 2) (bit_and 0xedb8_8320 mask)

crc_bits : ℕ → ℕ → ℕ
crc_bits zero crc = crc
crc_bits (suc n) crc = crc_bits n (crc_bit crc)

crc_bytes : ℕ → List ℕ → ℕ
crc_bytes crc [] = crc
crc_bytes crc (byte ∷ rest) = crc_bytes (crc_bits 8 (bit_xor crc byte)) rest

-- `!crc` on 32 bits
unfoldable pub crc32 : List ℕ → ℕ
unfolding crc_bit crc_bits crc_bytes
crc32 bytes = u32_max - crc_bytes 0xffff_ffff bytes

pub crc32-lt : (bytes : List ℕ) → crc32 bytes < 256 ^ 4
unfolding crc32
crc32-lt bytes = omega arith

crc32_matches_standard_check_value :
    crc32 (49 ∷ 50 ∷ 51 ∷ 52 ∷ 53 ∷ 54 ∷ 55 ∷ 56 ∷ 57 ∷ []) ≡ 0xcbf4_3926
unfolding crc32
crc32_matches_standard_check_value = refl

-- ===== src/Auth/Record/Header.antt =====
-- The header of storage/ble_auth/header.rs is read back as it was written.
use sleep_environment_monito.Prelude.{
  ℕ, ◌^◌, ◌<◌, ◌≡◌, ◌≢◌, refl, false, arith, eq_test, ne_test, le→ltb, length, take, All-append,
}
use sleep_environment_monito.Prelude.Bytes.{
  IsByte, IsBytes, to_le-IsBytes, to_le, le_at, from_le-to_le,
}
use sleep_environment_monito.Spool.Crc.{crc32, crc32-lt}
use sleep_environment_monito.Auth.Record.{
  valid, auth_header_magic, header_fields, header_bytes, inspect_auth_header, all_erased,
}

module _ (version count records_crc compatibility : ℕ) where
  pub length-header_bytes : length (header_bytes version count records_crc compatibility) ≡ 32
  unfolding header_fields to_le
  length-header_bytes = refl

  checksum :
      le_at (header_bytes version count records_crc compatibility) 28 4
      ≡ crc32 (header_fields version count records_crc compatibility)
  unfolding header_fields to_le
  checksum =
      from_le-to_le 4 (crc32 (header_fields version count records_crc compatibility)) (crc32-lt _)

  fields :
      take 28 (header_bytes version count records_crc compatibility)
      ≡ header_fields version count records_crc compatibility
  unfolding header_fields to_le
  fields = refl

  not_erased : all_erased (take 32 (header_bytes version count records_crc compatibility)) ≡ false
  unfolding header_fields to_le all_erased
  not_erased = refl

  magic : le_at (header_bytes version count records_crc compatibility) 0 4 ≡ auth_header_magic
  unfolding header_fields to_le
  magic = from_le-to_le 4 auth_header_magic (omega arith)

  format : le_at (header_bytes version count records_crc compatibility) 4 2 ≡ 2
  unfolding header_fields to_le
  format = from_le-to_le 2 2 (omega arith)

  len : le_at (header_bytes version count records_crc compatibility) 6 2 ≡ 32
  unfolding header_fields to_le
  len = from_le-to_le 2 32 (omega arith)

  pub records_crc_read :
      records_crc < 2 ^ 32
      → le_at (header_bytes version count records_crc compatibility) 16 4 ≡ records_crc
  unfolding header_fields to_le
  records_crc_read h = from_le-to_le 4 records_crc h

  version_read :
      version < 2 ^ 32 → le_at (header_bytes version count records_crc compatibility) 8 4 ≡ version
  unfolding header_fields to_le
  version_read h = from_le-to_le 4 version h

  count_read :
      count < 2 ^ 16 → le_at (header_bytes version count records_crc compatibility) 12 2 ≡ count
  unfolding header_fields to_le
  count_read h = from_le-to_le 2 count h

  compatibility_read :
      compatibility < 2 ^ 32
      → le_at (header_bytes version count records_crc compatibility) 20 4 ≡ compatibility
  unfolding header_fields to_le
  compatibility_read h = from_le-to_le 4 compatibility h

  pub header_bytes-IsBytes : IsBytes (header_bytes version count records_crc compatibility)
  unfolding header_fields
  header_bytes-IsBytes =
      All-append IsByte (header_fields version count records_crc compatibility) _
        (All-append IsByte (to_le 4 auth_header_magic) _ (to_le-IsBytes 4 auth_header_magic) (
          All-append IsByte (to_le 2 2) _ (to_le-IsBytes 2 2) (
            All-append IsByte (to_le 2 32) _ (to_le-IsBytes 2 32) (
              All-append IsByte (to_le 4 version) _ (to_le-IsBytes 4 version) (
                All-append IsByte (to_le 2 count) _ (to_le-IsBytes 2 count) (
                  All-append IsByte (to_le 2 0) _ (to_le-IsBytes 2 0) (
                    All-append IsByte (to_le 4 records_crc) _ (to_le-IsBytes 4 records_crc) (
                      All-append IsByte (to_le 4 compatibility) _ (to_le-IsBytes 4 compatibility)
                        (to_le-IsBytes 4 0)))))))))
        (to_le-IsBytes 4 _)

  pub inspect-header_bytes :
      version < 2 ^ 32
      → count < 2 ^ 16
      → compatibility < 2 ^ 32
      → count ≢ 0
      → inspect_auth_header
          (header_bytes version count records_crc compatibility)
          version
          compatibility
        ≡ valid version count
  unfolding inspect_auth_header
  inspect-header_bytes hv hc hk some_records =
      rw
        (
          le→ltb (length (header_bytes version count records_crc compatibility)) 32
              (omega (arith, length-header_bytes)),
          not_erased,
          magic,
          format,
          len,
          checksum,
          fields,
          eq_test (crc32 (header_fields version count records_crc compatibility)) _ refl,
          version_read hv,
          eq_test version version refl,
          compatibility_read hk,
          eq_test compatibility compatibility refl,
          count_read hc,
          ne_test count 0 some_records,
          inspect_auth_header,
        )
        refl

-- ===== src/Auth/Store/RoundTrip.antt =====
-- What storage/ble_auth/flash.rs stores it loads.
use sleep_environment_monito.Prelude.{
  ℕ, ◌+◌, ◌*◌, ◌%◌, ◌^◌, ◌≤◌, ◌<◌, ◌≡◌, ◌≢◌, refl, ap, sym, ◌∙◌, List, [], ◌∷◌, ◌++◌, arith,
  eq_test, le→ltb, le→leb, ok, length, take, drop, slice, All, All-append, length-append,
  length-drop, length-replicate, take-replicate, take-length-append, drop-length-append,
  append_assoc, u16_max, usize_max,
}
use sleep_environment_monito.Prelude.Bytes.{IsByte, IsBytes}
use sleep_environment_monito.Flash.{FlashStorage, IsNor, erased}
use sleep_environment_monito.Spool.Crc.{crc32, crc32-lt}
use sleep_environment_monito.Auth.Record.{BleAuthRecord, valid, header_bytes, auth_record_bytes}
use sleep_environment_monito.Auth.Record.RoundTrip.{
  IsAuthRecord, length-auth_record_bytes, decode-auth_record_bytes, auth_record_bytes-IsBytes,
}
use sleep_environment_monito.Auth.Record.Header.{
  length-header_bytes, records_crc_read, header_bytes-IsBytes, inspect-header_bytes,
}
use sleep_environment_monito.Auth.Store.{
  auth_records_encoded_len, decode_chunks, load_records, load_inspected, load_auth_records,
  encoded_records, store_auth_records,
}

length-encoded_records :
    (records : List BleAuthRecord)
    → All IsAuthRecord records
    → length (encoded_records records) ≡ 64 * length records
unfolding encoded_records
length-encoded_records [] v = omega arith
length-encoded_records (r ∷ records) v = omega (
  arith,
  length-append (auth_record_bytes r) (encoded_records records),
  length-auth_record_bytes r v.0,
  length-encoded_records records v.1,
)

encoded_records-IsBytes :
    (records : List BleAuthRecord) → All IsAuthRecord records → IsBytes (encoded_records records)
unfolding encoded_records
encoded_records-IsBytes [] v = tt
encoded_records-IsBytes (r ∷ records) v =
    All-append IsByte (auth_record_bytes r) (encoded_records records)
      (auth_record_bytes-IsBytes r v.0) (encoded_records-IsBytes records v.1)

decode-encoded_records :
    (records : List BleAuthRecord) (index : ℕ)
    → All IsAuthRecord records
    → decode_chunks (length records) index (encoded_records records) ≡ ok records
unfolding decode_chunks encoded_records
decode-encoded_records [] index v = refl
decode-encoded_records (r ∷ records) index v =
    let size = sym (length-auth_record_bytes r v.0) in
    rw
      (
        take-length-append 64 (auth_record_bytes r) (encoded_records records) size,
        decode-auth_record_bytes r v.0,
        drop-length-append 64 (auth_record_bytes r) (encoded_records records) size,
        decode-encoded_records records (index + 1) v.1,
        decode_chunks,
      )
      refl

encoded_len : (n : ℕ) → n ≤ u16_max → auth_records_encoded_len n ≡ ok (n * 64)
unfolding auth_records_encoded_len
encoded_len n h = ground arith

module _ {S : Type 0} (F : FlashStorage S) (IsValid : S → Type 0) (bytes : S → List ℕ)
    (nor : IsNor F IsValid bytes) (version checksum : ℕ) (records : List BleAuthRecord)
    (v : All IsAuthRecord records) (few : length records ≤ u16_max) where
  header : List ℕ
  header = header_bytes version (length records) (crc32 (encoded_records records)) checksum

  image : List ℕ
  image = header ++ encoded_records records

  length-image : length image ≡ 32 + 64 * length records
  unfolding image header
  length-image = omega (
    arith,
    length-append header (encoded_records records),
    length-header_bytes version (length records) (crc32 (encoded_records records)) checksum,
    length-encoded_records records v,
  )

  image-IsBytes : IsBytes image
  unfolding image header
  image-IsBytes =
      All-append IsByte header (encoded_records records)
        (header_bytes-IsBytes version (length records) (crc32 (encoded_records records)) checksum)
        (encoded_records-IsBytes records v)

  module _ (s : S) (valid_flash : IsValid s) (has_sectors : 0 < F.sector_size s)
      (sectors : length (bytes s) % F.sector_size s ≡ 0)
      (room : 32 + 64 * length records ≤ length (bytes s)) where
    cleared : S
    cleared = (F.erase s 0 (F.len s)).1

    stored : S
    stored = (F.write cleared 0 image).1

    cleared_ok : (F.erase s 0 (F.len s)).0 ≡ ok tt
    cleared_ok = rw (nor.size s) (nor.erase_ok s valid_flash (omega arith) has_sectors sectors)

    cleared_bytes : bytes cleared ≡ erased (length (bytes s))
    unfolding cleared
    cleared_bytes =
        ap (λ n. bytes (F.erase s 0 n).1) (nor.size s)
        ∙ (nor.erase_bytes s valid_flash (omega arith) has_sectors sectors)

    cleared_valid : IsValid cleared
    unfolding cleared
    cleared_valid = nor.erase_valid s 0 (F.len s) valid_flash

    cleared_len : length (bytes cleared) ≡ length (bytes s)
    cleared_len = ap length cleared_bytes ∙ length-replicate {A = ℕ} (length (bytes s)) 255

    blank : slice (bytes cleared) 0 (length image) ≡ erased (length image)
    blank =
        ap (λ l. take (length image) l) cleared_bytes
        ∙ take-replicate {A = ℕ} (length image) (length (bytes s)) 255 (omega (arith, length-image))

    stored_ok : (F.write cleared 0 image).0 ≡ ok tt
    stored_ok =
        nor.write_ok cleared 0 image cleared_valid (omega arith) (omega (arith, length-image))
          (omega (arith, length-image, cleared_len)) blank image-IsBytes

    stored_bytes : bytes stored ≡ image ++ drop (length image) (bytes cleared)
    unfolding stored
    stored_bytes =
        nor.write_bytes cleared 0 image cleared_valid (omega arith) (omega (arith, length-image))
          (omega (arith, length-image, cleared_len)) blank image-IsBytes
        ∙ ap (λ n. image ++ drop n (bytes cleared)) {x = 0 + length image} (omega arith)

    stored_valid : IsValid stored
    unfolding stored
    stored_valid = nor.write_valid cleared 0 image cleared_valid

    stored_len : length (bytes stored) ≡ length (bytes s)
    stored_len = omega (
      arith,
      ap length stored_bytes,
      length-append image (drop (length image) (bytes cleared)),
      length-drop (length image) (bytes cleared),
      cleared_len,
      length-image,
    )

    layout :
        bytes stored ≡ header ++ (encoded_records records ++ drop (length image) (bytes cleared))
    unfolding image
    layout = stored_bytes ∙ append_assoc header (encoded_records records) _

    length-header : length header ≡ 32
    unfolding header
    length-header =
        length-header_bytes version (length records) (crc32 (encoded_records records)) checksum

    header_read : F.read stored 0 32 ≡ ok header
    header_read =
        nor.read_lem stored 0 32 stored_valid (omega arith) (omega arith)
          (omega (arith, stored_len))
        ∙ ap (λ l. ok (take 32 l)) layout
        ∙ ap ok (take-length-append 32 header _ (sym length-header))

    records_read : F.read stored 32 (length records * 64) ≡ ok (encoded_records records)
    records_read =
        nor.read_lem stored 32 (length records * 64) stored_valid (omega arith) (omega arith)
          (omega (arith, stored_len))
        ∙ ap (λ l. ok (take (length records * 64) (drop 32 l))) layout
        ∙ ap (λ l. ok (take (length records * 64) l))
            (drop-length-append 32 header _ (sym length-header))
        ∙ ap ok (
            take-length-append (length records * 64) (encoded_records records) _
              (omega (arith, length-encoded_records records v)))

    load_run :
        length records ≢ 0
        → version < 2 ^ 32
        → checksum < 2 ^ 32
        → (capacity scratch : ℕ) → length records ≤ capacity
        → 64 * length records ≤ scratch
        → load_auth_records F version checksum capacity scratch stored
          ≡ ok (
            record { status = valid version (length records); record_count = length records },
            records,
          )
    unfolding load_auth_records load_inspected load_records header
    load_run some_records hv hk capacity scratch hc hb =
        rw
          (
            load_auth_records,
            header_read,
            inspect-header_bytes version (length records) (crc32 (encoded_records records)) checksum
                hv (omega (arith, few)) hk some_records,
            le→ltb capacity (length records) hc,
            encoded_len (length records) few,
            le→leb (32 + length records * 64) usize_max (omega (arith, few)),
            le→ltb (F.len stored) (32 + length records * 64)
                (omega (arith, nor.size stored, stored_len)),
            le→ltb scratch (length records * 64) (omega arith),
            records_read,
            records_crc_read version (length records) (crc32 (encoded_records records)) checksum
                (crc32-lt (encoded_records records)),
            eq_test (crc32 (encoded_records records)) _ refl,
            decode-encoded_records records 0 v,
            load_records,
          )
          refl

    store_run :
        (scratch : ℕ)
        → 32 + 64 * length records ≤ scratch
        → store_auth_records F version checksum records scratch s ≡ (ok tt, stored)
    unfolding store_auth_records cleared stored header image
    store_run scratch hb =
        rw
          (
            le→ltb u16_max (length records) few,
            eq_test (F.len s % F.sector_size s) 0
                (ap (λ n. n % F.sector_size s) (nor.size s) ∙ sectors),
            encoded_len (length records) few,
            le→leb (32 + length records * 64) usize_max (omega (arith, few)),
            le→ltb (F.len s) (32 + length records * 64) (omega (arith, nor.size s)),
            le→ltb scratch (32 + length records * 64) (omega arith),
            cleared_ok,
            count_word,
            stored_ok,
            count_word,
            store_auth_records,
          )
          refl
      where
        count_word : length records % 2 ^ 16 ≡ length records
        count_word = omega (arith, few)

-- On a valid NOR flash of whole sectors that holds a header and the records, records of the right
-- shape, at least one and at most 65535 of them, are stored by a caller with a large enough buffer,
-- and are then loaded, in their order, by a caller that expects the same versions and has room for
-- them; the status that is loaded names the version and their number.
pub load-store_auth_records :
    {S : Type 0} (F : FlashStorage S) (IsValid : S → Type 0) (bytes : S → List ℕ)
    → IsNor F IsValid bytes
    → (version checksum capacity scratch : ℕ) (records : List BleAuthRecord) (s : S)
    → All IsAuthRecord records
    → length records ≤ u16_max
    → length records ≢ 0
    → version < 2 ^ 32
    → checksum < 2 ^ 32
    → IsValid s
    → 0 < F.sector_size s
    → length (bytes s) % F.sector_size s ≡ 0
    → 32 + 64 * length records ≤ length (bytes s)
    → 32 + 64 * length records ≤ scratch
    → length records ≤ capacity
    → (s' : S) × (store_auth_records F version checksum records scratch s ≡ (ok tt, s'))
      × (load_auth_records F version checksum capacity scratch s'
          ≡ ok (
            record { status = valid version (length records); record_count = length records },
            records,
          ))
load-store_auth_records F IsValid bytes nor version checksum capacity scratch records s v few
      some_records hv hk valid_flash has_sectors sectors room hb hc =
    (
      stored F IsValid bytes nor version checksum records v few s valid_flash has_sectors sectors
          room,
      store_run F IsValid bytes nor version checksum records v few s valid_flash has_sectors sectors
          room scratch hb,
      load_run F IsValid bytes nor version checksum records v few s valid_flash has_sectors sectors
          room some_records hv hk capacity scratch hc (omega arith),
    )

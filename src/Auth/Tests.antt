-- ===== src/Auth/Tests.antt =====
-- The theorems on storage/ble_auth at concrete records and regions.
use sleep_environment_monito.Prelude.{
  ℕ, ◌≡◌, refl, arith, List, [], ◌∷◌, ok, some, true, replicate, take,
}
use sleep_environment_monito.Flash.Model.{InMemoryFlash, storage}
use sleep_environment_monito.Flash.Model.Laws.{IsValid, storage-IsNor}
use sleep_environment_monito.Auth.Record.{
  BleAuthRecord, random, encrypted, valid, empty_record, auth_record_len, encode_auth_record,
  decode_auth_record,
}
use sleep_environment_monito.Auth.Record.RoundTrip.{
  IsAuthRecord, all_zeros, decode-encode_auth_record,
}
use sleep_environment_monito.Auth.Store.{store_auth_records, load_auth_records}
use sleep_environment_monito.Auth.Store.RoundTrip.{load-store_auth_records}
use sleep_environment_monito.Auth.Upsert.{upsert_auth_record}
use sleep_environment_monito.Auth.Upsert.Laws.{place, Placed, upsert_places}

abbrev client : BleAuthRecord
client = record {
  address_kind = random;
  identity_address = replicate 6 0;
  long_term_key = replicate 16 0;
  identity_resolving_key = some (replicate 16 0);
  security_level = encrypted;
  bonded = true;
}

client-IsAuthRecord : IsAuthRecord client
client-IsAuthRecord = record {
  address_len = refl;
  key_len = refl;
  irk_len = refl;
  address_bytes = all_zeros 6;
  key_bytes = all_zeros 16;
  irk_are_bytes = all_zeros 16;
}

decode-encode_auth_record_example :
    (out' : List ℕ) × (encode_auth_record client (replicate 64 9) ≡ ok (auth_record_len, out'))
    × (decode_auth_record (take auth_record_len out') ≡ ok client)
decode-encode_auth_record_example =
    decode-encode_auth_record client (replicate 64 9) client-IsAuthRecord (omega arith)

abbrev region : InMemoryFlash
region = record { cells = replicate 128 17 }

load-store_auth_records_example :
    (s' : InMemoryFlash) × (store_auth_records (storage 64) 3 5 (client ∷ []) 128 region
      ≡ (ok tt, s'))
    × (load_auth_records (storage 64) 3 5 4 128 s'
        ≡ ok (record { status = valid 3 1; record_count = 1 }, client ∷ []))
load-store_auth_records_example =
    load-store_auth_records (storage 64) IsValid (λ m. m.cells) (storage-IsNor 64) 3 5 4 128
      (client ∷ []) region (client-IsAuthRecord, tt) (omega arith) (omega arith) (omega arith)
      (omega arith) (omega arith) (omega arith) refl (omega arith) (omega arith) (omega arith)

upsert_places_example :
    (index : ℕ) × (place (upsert_auth_record (client ∷ empty_record ∷ []) 1 client).0.1
      ≡ some index)
    × Placed
        (client ∷ empty_record ∷ [])
        client
        index
        (upsert_auth_record (client ∷ empty_record ∷ []) 1 client).0.0
        (upsert_auth_record (client ∷ empty_record ∷ []) 1 client).1
upsert_places_example = upsert_places (client ∷ empty_record ∷ []) 1 client (omega arith)

-- ===== src/Ble/Keys/Tests.antt =====
-- The theorems on tasks/ble/auth.rs at a concrete bond and region.
use sleep_environment_monito.Prelude.{
  ℕ, zero, suc, ◌≡◌, ◌==◌, refl, arith, List, [], ◌∷◌, Bool, true, false, ok, some, All, replicate,
}
use sleep_environment_monito.Flash.Model.{InMemoryFlash, storage}
use sleep_environment_monito.Flash.Model.Laws.{IsValid, storage-IsNor}
use sleep_environment_monito.Auth.Record.{BleAuthRecord, random, encrypted, empty_record}
use sleep_environment_monito.Auth.Record.RoundTrip.{IsAuthRecord, all_zeros}
use sleep_environment_monito.Ble.Pairing.{closed}
use sleep_environment_monito.Ble.Keys.{
  Connection, new, any_match, ensure_ble_authorized, persist_ble_bond_information,
  restore_ble_auth_records,
}
use sleep_environment_monito.Ble.Keys.Bonds.{IsWorkspace, bond_reconnects}

abbrev phone : BleAuthRecord
phone = record {
  address_kind = random;
  identity_address = 1 ∷ replicate 5 0;
  long_term_key = replicate 16 0;
  identity_resolving_key = some (replicate 16 0);
  security_level = encrypted;
  bonded = true;
}

phone-IsAuthRecord : IsAuthRecord phone
phone-IsAuthRecord = record {
  address_len = refl;
  key_len = refl;
  irk_len = refl;
  address_bytes = (omega arith, all_zeros 5);
  key_bytes = all_zeros 16;
  irk_are_bytes = all_zeros 16;
}

All-empty : (n : ℕ) → All IsAuthRecord (replicate n empty_record)
All-empty zero = tt
All-empty (suc n) = (
  record {
    address_len = refl;
    key_len = refl;
    irk_len = refl;
    address_bytes = all_zeros 6;
    key_bytes = all_zeros 16;
    irk_are_bytes = all_zeros 16;
  },
  All-empty n,
)

new-IsWorkspace : IsWorkspace new
unfolding new
new-IsWorkspace = record { array_len = refl; are_records = All-empty 10 }

-- The first byte of an address tells the phone.
abbrev starts_with_one : List ℕ → Bool
starts_with_one [] = false
starts_with_one (b ∷ bytes) = b == 1

abbrev link : Connection
link = record {
  security_level = some encrypted;
  match_identity = λ r. starts_with_one r.identity_address;
}

abbrev region : InMemoryFlash
region = record { cells = replicate 704 17 }

bond_reconnects_example :
    IsWorkspace (persist_ble_bond_information (storage 64) phone new region).0
    × (ensure_ble_authorized closed link
          (persist_ble_bond_information (storage 64) phone new region).0
        ≡ ok tt)
    × (ensure_ble_authorized closed link
          (restore_ble_auth_records
            (storage 64)
            new
            (persist_ble_bond_information (storage 64) phone new region).1).0
        ≡ ok tt)
    × (any_match link.match_identity
          (restore_ble_auth_records
            (storage 64)
            new
            (persist_ble_bond_information (storage 64) phone new region).1).1
        ≡ true)
bond_reconnects_example =
    bond_reconnects (storage 64) IsValid (λ m. m.cells) (storage-IsNor 64) closed link phone new new
      region new-IsWorkspace phone-IsAuthRecord (omega arith) (omega arith) refl (omega arith) refl
      refl

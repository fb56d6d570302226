-- ===== src/Auth/Record/RoundTrip.antt =====
-- What storage/ble_auth/record.rs and header.rs encode they read back.
use sleep_environment_monito.Prelude.{
  ℕ, zero, suc, ◌≤◌, ◌≡◌, refl, ap, sym, ◌∙◌, List, ◌++◌, Bool, true, false, not, Option, none,
  some, arith, ◌==◌, eq_test, le→ltb, bit_and, if◌then◌else◌, ok, length, get_or, slice, take, drop,
  replicate, length-append, append_assoc, take-length-append, drop-length-append, drop-drop,
  All-append,
}
use sleep_environment_monito.Prelude.Bytes.{
  IsByte, IsBytes, to_le-IsBytes, to_le, le_at, from_le, from_le-to_le, length-to_le,
}
use sleep_environment_monito.Spool.Crc.{crc32, crc32-lt}
use sleep_environment_monito.Auth.Record.{
  BleAuthRecord, BleAuthAddressKind, BleAuthSecurityLevel, public, random, no_encryption, encrypted,
  encrypted_authenticated, auth_record_len, auth_record_magic, address_code, address_from_code,
  security_code, security_from_code, flags_byte, irk_bytes, record_fields, auth_record_bytes,
  encode_auth_record, decode_auth_record,
}

-- The arrays of a record are bytes, and have the lengths of the source.
pub record IsAuthRecord (r : BleAuthRecord) : Type 0 where
  pub address_len : length r.identity_address ≡ 6
  pub key_len : length r.long_term_key ≡ 16
  pub irk_len : length (irk_bytes r.identity_resolving_key) ≡ 16
  pub address_bytes : IsBytes r.identity_address
  pub key_bytes : IsBytes r.long_term_key
  pub irk_are_bytes : IsBytes (irk_bytes r.identity_resolving_key)

address_read : (k : BleAuthAddressKind) → address_from_code (address_code k) ≡ some k
address_read public = refl
address_read random = refl

security_read : (l : BleAuthSecurityLevel) → security_from_code (security_code l) ≡ some l
security_read no_encryption = refl
security_read encrypted = refl
security_read encrypted_authenticated = refl

bonded_read : (b : Bool) (o : Option (List ℕ)) → not (bit_and (flags_byte b o) 1 == 0) ≡ b
bonded_read true none = refl
bonded_read true (some x) = refl
bonded_read false none = refl
bonded_read false (some x) = refl

irk_read :
    (b : Bool) (o : Option (List ℕ)) (xs : List ℕ)
    → xs ≡ irk_bytes o
    → (if not (bit_and (flags_byte b o) 2 == 0) then some xs else none) ≡ o
irk_read true none xs e = refl
irk_read true (some x) xs e = ap some e
irk_read false none xs e = refl
irk_read false (some x) xs e = ap some e

pub all_zeros : (n : ℕ) → IsBytes (replicate n 0)
all_zeros zero = tt
all_zeros (suc n) = (omega arith, all_zeros n)

module _ (r : BleAuthRecord) (v : IsAuthRecord r) where
  crc : List ℕ
  crc = to_le 4 (crc32 (record_fields r))

  pub length-record_fields : length (record_fields r) ≡ 60
  unfolding record_fields to_le
  length-record_fields = omega (
    arith,
    length-append r.identity_address
        (r.long_term_key ++ (irk_bytes r.identity_resolving_key ++ replicate 10 0)),
    length-append r.long_term_key (irk_bytes r.identity_resolving_key ++ replicate 10 0),
    length-append (irk_bytes r.identity_resolving_key) (replicate 10 0),
    v.address_len,
    v.key_len,
    v.irk_len,
  )

  pub length-auth_record_bytes : length (auth_record_bytes r) ≡ 64
  length-auth_record_bytes = omega (
    arith,
    length-record_fields,
    length-append (record_fields r) (to_le 4 (crc32 (record_fields r))),
    length-to_le 4 (crc32 (record_fields r)),
  )

  behind_address :
      drop 12 (auth_record_bytes r)
      ≡ r.identity_address
        ++ (r.long_term_key ++ (irk_bytes r.identity_resolving_key ++ (replicate 10 0 ++ crc)))
  unfolding record_fields to_le crc
  behind_address = simp append_assoc

  behind_key :
      drop 18 (auth_record_bytes r)
      ≡ r.long_term_key ++ (irk_bytes r.identity_resolving_key ++ (replicate 10 0 ++ crc))
  behind_key =
      sym (drop-drop 12 6 (auth_record_bytes r))
      ∙ ap (drop 6) behind_address
      ∙ drop-length-append 6 r.identity_address _ (sym v.address_len)

  behind_irk :
      drop 34 (auth_record_bytes r) ≡ irk_bytes r.identity_resolving_key ++ (replicate 10 0 ++ crc)
  behind_irk =
      sym (drop-drop 18 16 (auth_record_bytes r))
      ∙ ap (drop 16) behind_key
      ∙ drop-length-append 16 r.long_term_key _ (sym v.key_len)

  address : slice (auth_record_bytes r) 12 6 ≡ r.identity_address
  address =
      ap (take 6) behind_address ∙ take-length-append 6 r.identity_address _ (sym v.address_len)

  key : slice (auth_record_bytes r) 18 16 ≡ r.long_term_key
  key = ap (take 16) behind_key ∙ take-length-append 16 r.long_term_key _ (sym v.key_len)

  irk : slice (auth_record_bytes r) 34 16 ≡ irk_bytes r.identity_resolving_key
  irk =
      ap (take 16) behind_irk
      ∙ take-length-append 16 (irk_bytes r.identity_resolving_key) _ (sym v.irk_len)

  checksum : le_at (auth_record_bytes r) 60 4 ≡ crc32 (record_fields r)
  unfolding to_le
  checksum =
      ap (λ l. from_le (take 4 l))
        (drop-length-append 60 (record_fields r) (to_le 4 (crc32 (record_fields r)))
          (sym length-record_fields))
      ∙ from_le-to_le 4 (crc32 (record_fields r)) (crc32-lt (record_fields r))

  magic : le_at (auth_record_bytes r) 0 4 ≡ auth_record_magic
  unfolding record_fields to_le
  magic = from_le-to_le 4 auth_record_magic (omega arith)

  version : le_at (auth_record_bytes r) 4 2 ≡ 1
  unfolding record_fields to_le
  version = from_le-to_le 2 1 (omega arith)

  len : le_at (auth_record_bytes r) 6 2 ≡ auth_record_len
  unfolding record_fields to_le
  len = from_le-to_le 2 64 (omega arith)

  kind : get_or (auth_record_bytes r) 8 0 ≡ address_code r.address_kind
  unfolding record_fields to_le
  kind = refl

  level : get_or (auth_record_bytes r) 9 0 ≡ security_code r.security_level
  unfolding record_fields to_le
  level = refl

  flags : get_or (auth_record_bytes r) 10 0 ≡ flags_byte r.bonded r.identity_resolving_key
  unfolding record_fields to_le
  flags = refl

  pub decode-auth_record_bytes : decode_auth_record (auth_record_bytes r) ≡ ok r
  unfolding decode_auth_record
  decode-auth_record_bytes =
      rw
        (
          le→ltb (length (auth_record_bytes r)) 64 (omega (arith, length-auth_record_bytes)),
          checksum,
          take-length-append 60 (record_fields r) (to_le 4 (crc32 (record_fields r)))
              (sym length-record_fields),
          eq_test (crc32 (record_fields r)) (crc32 (record_fields r)) refl,
          magic,
          version,
          len,
          kind,
          address_read r.address_kind,
          level,
          security_read r.security_level,
          flags,
          address,
          key,
          irk_read r.bonded r.identity_resolving_key _ irk,
          bonded_read r.bonded r.identity_resolving_key,
          decode_auth_record,
        )
        refl

  flags-IsByte : (b : Bool) (o : Option (List ℕ)) → IsByte (flags_byte b o)
  flags-IsByte true none = omega arith
  flags-IsByte true (some x) = omega arith
  flags-IsByte false none = omega arith
  flags-IsByte false (some x) = omega arith

  kind-IsByte : (k : BleAuthAddressKind) → IsByte (address_code k)
  kind-IsByte public = omega arith
  kind-IsByte random = omega arith

  level-IsByte : (l : BleAuthSecurityLevel) → IsByte (security_code l)
  level-IsByte no_encryption = omega arith
  level-IsByte encrypted = omega arith
  level-IsByte encrypted_authenticated = omega arith

  arrays-IsBytes : IsBytes (
      r.identity_address
      ++ (r.long_term_key ++ (irk_bytes r.identity_resolving_key ++ replicate 10 0)))
  arrays-IsBytes = All-append IsByte r.identity_address _ v.address_bytes (
      All-append IsByte r.long_term_key _ v.key_bytes (
        All-append IsByte (irk_bytes r.identity_resolving_key) (replicate 10 0) v.irk_are_bytes
          zeros))
    where
      zeros : IsBytes (replicate 10 0)
      zeros = all_zeros 10

  pub auth_record_bytes-IsBytes : IsBytes (auth_record_bytes r)
  unfolding record_fields
  auth_record_bytes-IsBytes =
      All-append IsByte (record_fields r) _
        (All-append IsByte (to_le 4 auth_record_magic) _ (to_le-IsBytes 4 auth_record_magic) (
          All-append IsByte (to_le 2 1) _ (to_le-IsBytes 2 1) (
            All-append IsByte (to_le 2 64) _ (to_le-IsBytes 2 64) (
              kind-IsByte r.address_kind,
              (
                level-IsByte r.security_level,
                (flags-IsByte r.bonded r.identity_resolving_key, ((omega arith), arrays-IsBytes)),
              ),
            ))))
        (to_le-IsBytes 4 (crc32 (record_fields r)))

-- A record whose arrays are bytes and have their lengths, encoded into a buffer of 64 bytes or
-- more, is decoded from the 64 bytes written: address, keys, security level and bonding, with or
-- without a resolving key.
pub decode-encode_auth_record :
    (r : BleAuthRecord) (out : List ℕ)
    → IsAuthRecord r
    → auth_record_len ≤ length out
    → (out' : List ℕ) × (encode_auth_record r out ≡ ok (auth_record_len, out'))
      × (decode_auth_record (take auth_record_len out') ≡ ok r)
unfolding encode_auth_record
decode-encode_auth_record r out v h = (
  auth_record_bytes r ++ drop auth_record_len out,
  rw (le→ltb (length out) auth_record_len h) refl,
  rw
      (take-length-append 64 (auth_record_bytes r) (drop 64 out)
        (sym (length-auth_record_bytes r v)))
      (decode-auth_record_bytes r v),
)

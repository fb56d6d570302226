-- ===== src/Spool/Codec/Lengths.antt =====
-- How spool/codec.rs finds an entry's length and kind from its first bytes.
use sleep_environment_monito.Prelude.{
  ℕ, ◌+◌, ◌≤◌, ◌≡◌, refl, List, ◌++◌, arith, eq_test, ne_test, le→ltb, ok, length, take,
}
use sleep_environment_monito.Prelude.Bytes.{to_le, le_at, from_le-to_le}
use sleep_environment_monito.Spool.Codec.{
  SpoolRecord, record_magic, ack_magic, max_payload_len, align_up, encoded_log_entry_len,
  record_header, ack_header,
}
use sleep_environment_monito.Spool.Codec.RoundTrip.{record_len}
use sleep_environment_monito.Spool.Codec.RoundTrip.{encoded_record_len_lem}

record_len_fields :
    (input : List ℕ) (n : ℕ)
    → 22 ≤ length input
    → le_at input 0 4 ≡ record_magic
    → le_at input 16 2 ≡ n
    → n ≤ max_payload_len
    → encoded_log_entry_len input ≡ ok (align_up (22 + n) 4)
unfolding encoded_log_entry_len
record_len_fields input n h magic len fits =
    rw
      (
        le→ltb (length input) 4 (omega arith),
        eq_test (le_at input 0 4) record_magic magic,
        le→ltb (length input) 22 h,
        len,
        encoded_log_entry_len,
      )
      (encoded_record_len_lem n fits)

ack_len_fields :
    (input : List ℕ)
    → 4 ≤ length input
    → le_at input 0 4 ≡ ack_magic
    → encoded_log_entry_len input ≡ ok 16
unfolding encoded_log_entry_len
ack_len_fields input h magic =
    rw
      (
        le→ltb (length input) 4 h,
        ne_test (le_at input 0 4) record_magic (omega (arith, magic)),
        eq_test (le_at input 0 4) ack_magic magic,
        encoded_log_entry_len,
      )
      refl

-- The entry's length is found from its first 24 bytes.
pub entry_len-record :
    (r : SpoolRecord) (rest : List ℕ)
    → length r.payload ≤ max_payload_len
    → encoded_log_entry_len (take 24 (record_header r ++ rest)) ≡ ok (record_len r)
unfolding record_header to_le
entry_len-record r rest h =
    record_len_fields (take 24 (record_header r ++ rest)) (length r.payload) (omega arith)
      (from_le-to_le 4 record_magic (omega arith))
      (from_le-to_le 2 (length r.payload) (omega arith)) h

pub entry_len-ack :
    (sequence : ℕ) (rest : List ℕ)
    → encoded_log_entry_len (take 24 (ack_header sequence ++ rest)) ≡ ok 16
unfolding ack_header to_le
entry_len-ack sequence rest =
    ack_len_fields (take 24 (ack_header sequence ++ rest)) (omega arith)
      (from_le-to_le 4 ack_magic (omega arith))

-- The magic numbers, as the scan reads them from the front of an entry.
pub magic-record_header :
    (r : SpoolRecord) (rest : List ℕ) → le_at (record_header r ++ rest) 0 4 ≡ record_magic
unfolding record_header to_le
magic-record_header r rest = from_le-to_le 4 record_magic (omega arith)

pub magic-ack_header :
    (sequence : ℕ) (rest : List ℕ) → le_at (ack_header sequence ++ rest) 0 4 ≡ ack_magic
unfolding ack_header to_le
magic-ack_header sequence rest = from_le-to_le 4 ack_magic (omega arith)

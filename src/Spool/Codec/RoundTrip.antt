-- ===== src/Spool/Codec/RoundTrip.antt =====
-- What spool/codec.rs encodes it decodes, also with more bytes behind.
use sleep_environment_monito.Prelude.{
  ℕ, ◌+◌, ◌-◌, ◌%◌, ◌^◌, ◌≤◌, ◌<◌, ◌≡◌, refl, ap, sym, List, ◌++◌, arith, eq_test, le→ltb, ok,
  length, get_or, slice, take, drop, replicate, length-append, length-replicate, length-drop,
  take-length-append, append_assoc, usize_max,
}
use sleep_environment_monito.Prelude.Bytes.{IsByte, IsBytes, to_le, le_at, from_le-to_le}
use sleep_environment_monito.Spool.Crc.{crc32, crc32-lt}
use sleep_environment_monito.Spool.Codec.{
  SpoolRecord, record_magic, record_version, record_header_len, max_payload_len, align_up,
  encoded_record_len, record_header, encode_record, decode_record,
}

-- The fields of a record fit the integers of the source.
pub record IsRecord (r : SpoolRecord) : Type 0 where
  pub sequence_fits : r.sequence < 256 ^ 8
  pub flags_fit : IsByte r.flags
  pub payload_fits : length r.payload ≤ max_payload_len
  pub payload_bytes : IsBytes r.payload

pub length-record_header : (r : SpoolRecord) → length (record_header r) ≡ 22
unfolding record_header to_le
length-record_header r = refl

-- What the fields say is what is decoded.
decode_fields :
    (input : List ℕ) (r : SpoolRecord)
    → 22 + length r.payload ≤ length input
    → length r.payload ≤ max_payload_len
    → le_at input 0 4 ≡ record_magic
    → get_or input 4 0 ≡ record_version
    → get_or input 5 0 ≡ r.flags
    → le_at input 6 2 ≡ record_header_len
    → le_at input 8 8 ≡ r.sequence
    → le_at input 16 2 ≡ length r.payload
    → le_at input 18 4 ≡ crc32 r.payload
    → slice input 22 (length r.payload) ≡ r.payload
    → decode_record input ≡ ok r
unfolding decode_record
decode_fields input r hl hp magic version flags header sequence len crc payload =
    rw
      (
        le→ltb (length input) 22 (omega arith),
        eq_test (le_at input 0 4) record_magic magic,
        eq_test (get_or input 4 0) record_version version,
        eq_test (le_at input 6 2) record_header_len header,
        len,
        le→ltb usize_max (22 + length r.payload) (omega arith),
        le→ltb (length input) (22 + length r.payload) hl,
        payload,
        crc,
        eq_test (crc32 r.payload) (crc32 r.payload) refl,
        sequence,
        flags,
        decode_record,
      )
      refl

-- A record is decoded from its header and payload, whatever stands behind them.
pub decode-encoded :
    (r : SpoolRecord) (rest : List ℕ)
    → IsRecord r
    → decode_record (record_header r ++ (r.payload ++ rest)) ≡ ok r
unfolding record_header to_le
decode-encoded r rest v =
    decode_fields (record_header r ++ (r.payload ++ rest)) r
      (omega (arith, length-append r.payload rest)) v.payload_fits
      (from_le-to_le 4 record_magic (omega arith)) refl refl
      (from_le-to_le 2 record_header_len (omega arith)) (from_le-to_le 8 r.sequence v.sequence_fits)
      (from_le-to_le 2 (length r.payload) (omega (arith, v.payload_fits)))
      (from_le-to_le 4 (crc32 r.payload) (crc32-lt r.payload))
      (take-length-append (length r.payload) r.payload rest refl)

-- The bytes of an entry, with the padding behind it.
abbrev pub record_len : SpoolRecord → ℕ
record_len r = align_up (record_header_len + length r.payload) 4

abbrev pub record_bytes : SpoolRecord → List ℕ
record_bytes r =
    record_header r
    ++ (r.payload ++ replicate (record_len r - (record_header_len + length r.payload)) 255)

pub align_up_bounds : (n : ℕ) → (n ≤ align_up n 4) × (align_up n 4 < n + 4) × (align_up n 4 % 4 ≡ 0)
align_up_bounds n = ground arith

pub length-record_bytes : (r : SpoolRecord) → length (record_bytes r) ≡ record_len r
length-record_bytes r =
    let pad = record_len r - (record_header_len + length r.payload) in
    omega (
      arith,
      length-append (record_header r) (r.payload ++ replicate pad 255),
      length-record_header r,
      length-append r.payload (replicate pad 255),
      length-replicate {A = ℕ} pad 255,
      align_up_bounds (22 + length r.payload),
    )

pub encoded_record_len_lem :
    (n : ℕ) → n ≤ max_payload_len → encoded_record_len n ≡ ok (align_up (22 + n) 4)
unfolding encoded_record_len
encoded_record_len_lem n h = ground arith

-- `encode_record` fills the front of a buffer with the entry, and leaves the rest of it.
pub encode_record_lem :
    (r : SpoolRecord) (out : List ℕ)
    → length r.payload ≤ max_payload_len
    → record_len r ≤ length out
    → encode_record r out ≡ ok (record_len r, record_bytes r ++ drop (record_len r) out)
unfolding encode_record
encode_record_lem r out hp ho =
    rw
      (
        le→ltb max_payload_len (length r.payload) hp,
        encoded_record_len_lem (length r.payload) hp,
        le→ltb (length out) (record_len r) ho,
        encode_record,
      )
      (ap (λ l. ok (record_len r, l)) regroup)
  where
    pad : List ℕ
    pad = replicate (record_len r - (record_header_len + length r.payload)) 255

    regroup :
        record_header r ++ (r.payload ++ (pad ++ drop (record_len r) out))
        ≡ record_bytes r ++ drop (record_len r) out
    regroup = simp append_assoc

-- A record in the integer ranges of the source that is encoded into a large enough buffer of any
-- contents is decoded from the bytes that `encode_record` says it wrote, and the buffer keeps its
-- size.
pub decode-encode_record :
    (r : SpoolRecord) (out : List ℕ)
    → IsRecord r
    → record_len r ≤ length out
    → (n : ℕ) × (out' : List ℕ) × (encode_record r out ≡ ok (n, out'))
      × (length out' ≡ length out)
      × (decode_record (take n out') ≡ ok r)
decode-encode_record r out v h = (
  record_len r,
  record_bytes r ++ drop (record_len r) out,
  encode_record_lem r out v.payload_fits h,
  omega (
    arith,
    length-append (record_bytes r) (drop (record_len r) out),
    length-record_bytes r,
    length-drop (record_len r) out,
  ),
  rw
      (take-length-append (record_len r) (record_bytes r) (drop (record_len r) out)
        (sym (length-record_bytes r)))
      (decode-encoded r (replicate (record_len r - (record_header_len + length r.payload)) 255) v),
)

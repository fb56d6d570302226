-- ===== src/Spool/Codec/Acks.antt =====
-- An acknowledgement that spool/codec.rs encodes it decodes.
use sleep_environment_monito.Prelude.{
  ℕ, ◌^◌, ◌≤◌, ◌<◌, ◌≡◌, refl, ap, sym, List, [], ◌∷◌, ◌++◌, arith, eq_test, le→ltb, ok, length,
  get_or, take, drop, length-append, length-drop, take-length-append, append_assoc,
}
use sleep_environment_monito.Prelude.Bytes.{to_le, le_at, from_le-to_le}
use sleep_environment_monito.Spool.Codec.{
  ack_magic, record_version, ack_header, encode_ack, decode_ack,
}

abbrev pub ack_bytes : ℕ → List ℕ
ack_bytes sequence = ack_header sequence ++ (255 ∷ 255 ∷ [])

pub length-ack_bytes : (sequence : ℕ) → length (ack_bytes sequence) ≡ 16
unfolding ack_header to_le
length-ack_bytes sequence = refl

pub encode_ack_lem :
    (sequence : ℕ) (out : List ℕ)
    → 16 ≤ length out
    → encode_ack sequence out ≡ ok (16, ack_bytes sequence ++ drop 16 out)
unfolding encode_ack
encode_ack_lem sequence out h =
    rw (le→ltb (length out) 16 h, encode_ack) (ap (λ l. ok (16, l)) (simp append_assoc))

ack_fields :
    (input : List ℕ) (sequence : ℕ)
    → 14 ≤ length input
    → le_at input 0 4 ≡ ack_magic
    → get_or input 4 0 ≡ record_version
    → le_at input 6 8 ≡ sequence
    → decode_ack input ≡ ok (record { sequence = sequence })
unfolding decode_ack
ack_fields input sequence h magic version fields =
    rw
      (
        le→ltb (length input) 14 h,
        eq_test (le_at input 0 4) ack_magic magic,
        eq_test (get_or input 4 0) record_version version,
        fields,
        decode_ack,
      )
      refl

pub decode_ack-bytes :
    (sequence : ℕ) (rest : List ℕ)
    → sequence < 256 ^ 8
    → decode_ack (ack_header sequence ++ rest) ≡ ok (record { sequence = sequence })
unfolding ack_header to_le
decode_ack-bytes sequence rest h =
    ack_fields (ack_header sequence ++ rest) sequence (omega arith)
      (from_le-to_le 4 ack_magic (omega arith)) refl (from_le-to_le 8 sequence h)

-- An acknowledgement is decoded from what `encode_ack` wrote to a large enough buffer.
pub decode-encode_ack :
    (sequence : ℕ) (out : List ℕ)
    → sequence < 2 ^ 64
    → 16 ≤ length out
    → (n : ℕ) × (out' : List ℕ) × (encode_ack sequence out ≡ ok (n, out'))
      × (length out' ≡ length out)
      × (decode_ack (take n out') ≡ ok (record { sequence = sequence }))
decode-encode_ack sequence out hs h = (
  16,
  ack_bytes sequence ++ drop 16 out,
  encode_ack_lem sequence out h,
  omega (
    arith,
    length-append (ack_bytes sequence) (drop 16 out),
    length-ack_bytes sequence,
    length-drop 16 out,
  ),
  rw (take-length-append 16 (ack_bytes sequence) (drop 16 out) (sym (length-ack_bytes sequence)))
      (decode_ack-bytes sequence (255 ∷ 255 ∷ []) hs),
)

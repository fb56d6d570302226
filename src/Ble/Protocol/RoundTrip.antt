-- ===== src/Ble/Protocol/RoundTrip.antt =====
-- The control frames of tasks/ble/protocol.rs are read back as they were written.
use sleep_environment_monito.Prelude.{
  ℕ, ◌^◌, ◌<◌, ◌≡◌, refl, List, ◌++◌, take, some, ok, le→ltb, length, drop, ◌≤◌,
}
use sleep_environment_monito.Prelude.Bytes.{to_le, from_le-to_le}
use sleep_environment_monito.Ble.Protocol.{
  ControlOpcode, ControlFrame, frame_len, frame_bytes, opcode_of, opcode_byte, encode, decode,
  request_metadata, request_fragment, complete_record, ack_record,
}

opcode_of-opcode_byte : (o : ControlOpcode) → opcode_of (opcode_byte o) ≡ some o
opcode_of-opcode_byte request_metadata = refl
opcode_of-opcode_byte request_fragment = refl
opcode_of-opcode_byte complete_record = refl
opcode_of-opcode_byte ack_record = refl

-- A control frame of integers in their ranges, encoded into a buffer of 14 bytes or more, takes
-- 14 bytes, and these are decoded to the frame.
pub decode-encode :
    (f : ControlFrame) (out : List ℕ)
    → f.sequence < 2 ^ 64
    → f.offset < 2 ^ 16
    → f.length < 2 ^ 16
    → frame_len ≤ length out
    → (encode f out ≡ ok (frame_len, frame_bytes f ++ drop frame_len out))
      × (decode (take frame_len (frame_bytes f ++ drop frame_len out)) ≡ ok f)
unfolding encode decode frame_bytes to_le
decode-encode f out hs ho hl room = (
  rw (le→ltb (length out) frame_len room) refl,
  rw
      (
        opcode_of-opcode_byte f.opcode,
        from_le-to_le 8 f.sequence hs,
        from_le-to_le 2 f.offset ho,
        from_le-to_le 2 f.length hl,
      )
      refl,
)

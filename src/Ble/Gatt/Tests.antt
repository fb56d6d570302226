-- ===== src/Ble/Gatt/Tests.antt =====
-- The theorems on tasks/ble/gatt.rs at a concrete record and a concrete client.
use sleep_environment_monito.Prelude.{
  ℕ, ◌≡◌, refl, arith, List, [], ◌∷◌, true, false, none, some, err,
}
use sleep_environment_monito.Prelude.Bytes.{to_le, from_le}
use sleep_environment_monito.Types.{connecting, failed}
use sleep_environment_monito.Storage.Backlog.{StoredPayload, as_slice}
use sleep_environment_monito.Storage.Protocol.{peeked, acked}
use sleep_environment_monito.Ble.Protocol.{
  ControlOpcode, request_fragment, ack_record, frame_bytes, decode, encode_metadata,
  encode_fragment,
}
use sleep_environment_monito.Ble.Protocol
use sleep_environment_monito.Ble.Transfer.{
  start_record, metadata_from_payload, fragment_for_request, ack_action,
}
use sleep_environment_monito.Ble.Transfer
use sleep_environment_monito.Ble.Pairing.{BlePairingState, closed, opened}
use sleep_environment_monito.Ble.Keys.{
  Connection, insufficient_authorisation, ensure_ble_authorized,
}
use sleep_environment_monito.Ble.Keys
use sleep_environment_monito.Ble.Gatt.{
  Env, Values, done, GattEvent, read_metadata, write_control, handle_gatt_event, new,
  peek_ble_payload,
}
use sleep_environment_monito.Ble.Gatt.Guard.{unauthorized_inert}
use sleep_environment_monito.Ble.Gatt.Runs.{Happening, disconnect, event, happens, run, IsFed}
use sleep_environment_monito.Ble.Gatt.Asked.{asked_over}
use sleep_environment_monito.Ble.Gatt.Acks.{IsTaken, acked-IsTaken}

abbrev payload : StoredPayload
payload = record {
  sequence = 7;
  payload = 10 ∷ 11 ∷ 12 ∷ [];
  payload_len = 3;
  payload_flags = 1;
  current_boot = true;
}

abbrev stranger : Connection
stranger = record { security_level = none; match_identity = λ _. false }

abbrev env : BlePairingState → Env
env pairing = record {
  pairing = pairing;
  connection = stranger;
  workspace = Keys.new;
  server_sets = true;
  peek = peeked (some payload);
  ack = acked true;
  network_state = connecting;
  upload_result = failed;
}

abbrev values : Values
values = record { metadata = []; fragment = [] }

abbrev control : ControlOpcode → ℕ → GattEvent
control opcode length =
    write_control
      (frame_bytes (record { opcode = opcode; sequence = 7; offset = 0; length = length }))

refused :
    ensure_ble_authorized (env closed).pairing (env closed).connection (env closed).workspace
    ≡ err insufficient_authorisation
unfolding ensure_ble_authorized Keys.new
refused = refl

unauthorized_inert_example :
    handle_gatt_event (env closed) (control ack_record 0) new values
    ≡ done (err insufficient_authorisation) new values
unauthorized_inert_example =
    unauthorized_inert (env closed) (control ack_record 0) new values insufficient_authorisation tt
      refused

-- A client that reads the whole record, acknowledges it, and reads it again after a disconnect.
abbrev happened : List Happening
happened =
    event (env (opened 60000)) read_metadata
    ∷ event (env (opened 59000)) (control request_fragment 3)
    ∷ event (env (opened 58000)) (control Protocol.complete_record 0)
    ∷ event (env (opened 57000)) (control ack_record 0)
    ∷ disconnect
    ∷ event (env (opened 50000)) read_metadata
    ∷ event (env (opened 40000)) (control request_fragment 3)
    ∷ event (env (opened 30000)) (control Protocol.complete_record 0)
    ∷ []

next_sent :
    (handle_gatt_event
      (env (opened 20000))
      (control ack_record 0)
      (run happened (new, values)).0
      (run happened (new, values)).1).acknowledged
    ≡ some 7
unfolding run handle_gatt_event new ensure_ble_authorized decode frame_bytes to_le happens
    start_record encode_metadata fragment_for_request from_le Protocol.new_fragment as_slice
    encode_fragment ack_action Transfer.complete_record
next_sent = refl

happened-IsFed : IsFed happened
unfolding peek_ble_payload
happened-IsFed = (
  omega arith,
  (omega arith, (omega arith, (omega arith, (omega arith, (omega arith, (omega arith, tt)))))),
)

acked-IsTaken_example :
    IsTaken (env (opened 20000)) (run happened (new, values)).0 7
    × (asked_over happened (new, values) false ≡ true)
acked-IsTaken_example =
    acked-IsTaken happened (env (opened 20000)) (control ack_record 0) values 7 happened-IsFed
      next_sent

-- ===== src/Ble/Gatt/Runs.antt =====
-- What a client can reach by the events of tasks/ble/gatt.rs, one after the other, with
-- disconnects between them.
use sleep_environment_monito.Prelude.{
  ℕ, ◌≡◌, refl, inl, inr, List, [], ◌∷◌, Option-cases, Result-cases, Bool-cases, ◌==◌,
}
use sleep_environment_monito.Ble.Protocol.{
  ControlFrame, ControlOpcode, request_metadata, request_fragment, ack_record, decode,
}
use sleep_environment_monito.Ble.Protocol
use sleep_environment_monito.Ble.Transfer.{metadata_from_payload}
use sleep_environment_monito.Ble.Keys.{ensure_ble_authorized}
use sleep_environment_monito.Ble.Gatt.{
  RecordTransfer, Values, Env, Done, GattEvent, read_metadata, read_fragment, read_status,
  other_event, write_control, handle_gatt_event, prepare_metadata_read, prepare_fragment_read,
  handle_control_write, dispatch, peek_ble_payload, reset_after_disconnect,
}
use sleep_environment_monito.Ble.Gatt.Guard.{
  IsTransfer, IsWholeIf, start-IsTransfer, request-IsTransfer,
}

dispatch-IsTransfer :
    (env : Env) (request : ControlFrame) (t : RecordTransfer) (v : Values) (o : ControlOpcode)
    → request.opcode ≡ o
    → IsWholeIf (peek_ble_payload env.peek)
    → IsTransfer t
    → IsTransfer (dispatch env request t v).transfer
unfolding dispatch
dispatch-IsTransfer env request t v request_metadata e w h =
    rw (e, dispatch) (start-IsTransfer env t v w h)
dispatch-IsTransfer env request t v request_fragment e w h =
    rw (e, dispatch) (request-IsTransfer env request t v t.payload refl h).0
dispatch-IsTransfer env request t v Protocol.complete_record e w h =
    rw (e, dispatch) (request-IsTransfer env request t v t.payload refl h).1
dispatch-IsTransfer env request t v ack_record e w h =
    rw (e, dispatch) (request-IsTransfer env request t v t.payload refl h).2

write-IsTransfer :
    (env : Env) (bytes : List ℕ) (t : RecordTransfer) (v : Values)
    → IsWholeIf (peek_ble_payload env.peek)
    → IsTransfer t
    → IsTransfer (handle_control_write env bytes t v).transfer
unfolding handle_control_write
write-IsTransfer env bytes t v w h =
    elim (Result-cases (ensure_ble_authorized env.pairing env.connection env.workspace)) [
      | inr (_, e) ↦ rw (e, handle_control_write) h
      | inl (_, e) ↦ elim (Result-cases (decode bytes)) [
        | inr (_, d) ↦ rw (e, d, handle_control_write) h
        | inl (request, d) ↦
            rw (e, d, handle_control_write)
              (dispatch-IsTransfer env request t v request.opcode refl w h)
      ]
    ]

metadata-IsTransfer :
    (env : Env) (t : RecordTransfer) (v : Values)
    → IsWholeIf (peek_ble_payload env.peek)
    → IsTransfer t
    → IsTransfer (prepare_metadata_read env t v).transfer
unfolding prepare_metadata_read
metadata-IsTransfer env t v w h =
    elim (Result-cases (ensure_ble_authorized env.pairing env.connection env.workspace)) [
      | inr (_, e) ↦ rw (e, prepare_metadata_read) h
      | inl (_, e) ↦ elim (Option-cases t.payload) [
        | inl n ↦ rw (e, n, prepare_metadata_read) (start-IsTransfer env t v w h)
        | inr (p, n) ↦ elim (Result-cases (metadata_from_payload p)) [
          | inr (_, m) ↦ rw (e, n, m, prepare_metadata_read) h
          | inl (_, m) ↦ rw (e, n, m, prepare_metadata_read) h
        ]
      ]
    ]

fragment-IsTransfer :
    (env : Env) (t : RecordTransfer) (v : Values)
    → IsTransfer t
    → IsTransfer (prepare_fragment_read env t v).transfer
unfolding prepare_fragment_read
fragment-IsTransfer env t v h =
    elim (Result-cases (ensure_ble_authorized env.pairing env.connection env.workspace)) [
      | inr (_, e) ↦ rw (e, prepare_fragment_read) h
      | inl (_, e) ↦ elim (Bool-cases (t.last_fragment_len == 0)) [
        | inl z ↦ rw (e, z, prepare_fragment_read) h
        | inr z ↦ rw (e, z, prepare_fragment_read) h
      ]
    ]

event-IsTransfer :
    (env : Env) (event : GattEvent) (t : RecordTransfer) (v : Values)
    → IsWholeIf (peek_ble_payload env.peek)
    → IsTransfer t
    → IsTransfer (handle_gatt_event env event t v).transfer
unfolding handle_gatt_event
event-IsTransfer env read_metadata t v w h = metadata-IsTransfer env t v w h
event-IsTransfer env read_fragment t v w h = fragment-IsTransfer env t v h
event-IsTransfer env read_status t v w h = h
event-IsTransfer env other_event t v w h = h
event-IsTransfer env (write_control bytes) t v w h = write-IsTransfer env bytes t v w h

-- What happens to the transfer of a device: a connection ends, or a client reads or writes.
pub data Happening : Type 0 where
  disconnect : Happening
  event : Env → GattEvent → Happening

unfoldable pub happens : Happening → RecordTransfer × Values → RecordTransfer × Values
happens disconnect (t, v) = (reset_after_disconnect t, v)
happens (event env e) (t, v) =
    let after : Done = handle_gatt_event env e t v in (after.transfer, after.values)

unfoldable pub run : List Happening → RecordTransfer × Values → RecordTransfer × Values
run [] s = s
run (h ∷ hs) s = run hs (happens h s)

-- The payloads that the storage task answers with are whole.
abbrev pub IsFed : List Happening → Type 0
IsFed [] = Unit {0}
IsFed (disconnect ∷ hs) = IsFed hs
IsFed (event env e ∷ hs) = IsWholeIf (peek_ble_payload env.peek) × IsFed hs

-- The transfer keeps to its invariant through whatever happens.
pub run-IsTransfer :
    (hs : List Happening) (t : RecordTransfer) (v : Values)
    → IsFed hs
    → IsTransfer t
    → IsTransfer (run hs (t, v)).0
unfolding run happens reset_after_disconnect
run-IsTransfer [] t v fed h = h
run-IsTransfer (disconnect ∷ hs) t v fed h =
    run-IsTransfer hs (reset_after_disconnect t) v fed (tt, tt)
run-IsTransfer (event env e ∷ hs) t v (w, fed) h =
    run-IsTransfer hs (handle_gatt_event env e t v).transfer (handle_gatt_event env e t v).values
      fed (event-IsTransfer env e t v w h)

-- ===== src/Ble/Gatt/Asked.antt =====
-- How the acknowledgements of tasks/ble/gatt.rs follow its requests for a record, over a run.
use sleep_environment_monito.Prelude.{
  ℕ, ◌+◌, ◌≤◌, ◌≡◌, refl, inl, inr, List, [], ◌∷◌, Bool, true, false, none, some, Result, ok, err,
  arith, Option-cases, Result-cases, Bool-cases, ◌==◌, if◌then◌else◌,
}
use sleep_environment_monito.Ble.Protocol.{
  ControlFrame, ControlOpcode, RecordMetadata, RecordFragment, request_metadata, request_fragment,
  ack_record, decode, encode_fragment,
}
use sleep_environment_monito.Ble.Protocol
use sleep_environment_monito.Ble.Transfer.{
  BleTransferError, BleTransferState, idle, active, BleAckAction, suppress, send_storage_ack,
  ack_action, metadata_from_payload, fragment_for_request,
}
use sleep_environment_monito.Ble.Transfer.Once.{
  quota, sends, ack_quota, finish_quota, fragment_quota,
}
use sleep_environment_monito.Ble.Keys.{ensure_ble_authorized}
use sleep_environment_monito.Ble.Gatt.{
  RecordTransfer, Values, Env, Done, GattEvent, read_metadata, read_fragment, read_status,
  other_event, write_control, handle_gatt_event, prepare_metadata_read, prepare_fragment_read,
  handle_control_write, dispatch, ack_record_request, acted, complete_record_request,
  prepare_fragment_request, fragment_prepared, start_metadata_request, peek_ble_payload,
  no_fragment, reset_after_disconnect,
}
use sleep_environment_monito.Ble.Gatt.Quiet.{start-quiet}
use sleep_environment_monito.Ble.Gatt.Runs.{Happening, disconnect, event, happens, run}

-- Whether the storage task was asked for a record since it was last sent an acknowledgement, after
-- an event that gives `d`.
abbrev pub asked_since : Bool → Done → Bool
asked_since b d = elim d.acknowledged [ some _ ↦ false | none ↦ if d.asked then true else b ]

-- The same after a run.
unfoldable pub asked_over : List Happening → RecordTransfer × Values → Bool → Bool
unfolding happens
asked_over [] s b = b
asked_over (disconnect ∷ hs) s b = asked_over hs (happens disconnect s) b
asked_over (event env e ∷ hs) s b =
    asked_over hs (happens (event env e) s) (asked_since b (handle_gatt_event env e s.0 s.1))

-- A session that may send an acknowledgement has been asked for since the last one.
abbrev pub IsAllowed : Bool → RecordTransfer → Type 0
IsAllowed b t = quota t.session ≤ (if b then 1 else 0)

abbrev IsAllowedAfter : Bool → Done → Type 0
IsAllowedAfter b d = IsAllowed (asked_since b d) d.transfer

quota-small : (s : BleTransferState) → quota s ≤ 1
quota-small idle = omega arith
quota-small (active a) = ground arith

start-asked :
    (env : Env) (t : RecordTransfer) (v : Values) → (start_metadata_request env t v).asked ≡ true
unfolding start_metadata_request
start-asked env t v = elim (Option-cases (peek_ble_payload env.peek)) [
  | inl e ↦ rw (e, start_metadata_request) refl
  | inr (p, e) ↦ rw (e, start_metadata_request) refl
]

start-IsAllowed :
    (env : Env) (t : RecordTransfer) (v : Values) (b : Bool)
    → IsAllowedAfter b (start_metadata_request env t v)
start-IsAllowed env t v b =
    rw (start-quiet env t v, start-asked env t v)
      (quota-small (start_metadata_request env t v).transfer.session)

fragment_prepared-IsAllowed :
    (env : Env) (t : RecordTransfer) (v : Values) (b : Bool)
    (r : Result BleTransferError RecordFragment × BleTransferState)
    → quota r.1 ≤ (if b then 1 else 0)
    → IsAllowedAfter b (fragment_prepared env t v r)
unfolding fragment_prepared
fragment_prepared-IsAllowed env t v b (err e, session) s = s
fragment_prepared-IsAllowed env t v b (ok f, session) s =
    elim (Result-cases (encode_fragment f no_fragment)) [
      | inl (_, e) ↦ rw (e, fragment_prepared) s
      | inr (_, e) ↦ rw (e, fragment_prepared) s
    ]

acted-IsAllowed :
    (env : Env) (t : RecordTransfer) (v : Values) (b : Bool)
    (r : Result BleTransferError BleAckAction × BleTransferState)
    → sends r.0 + quota r.1 ≤ (if b then 1 else 0)
    → IsAllowedAfter b (acted env t v r)
unfolding acted
acted-IsAllowed env t v b (err e, session) s = omega (arith, s)
acted-IsAllowed env t v b (ok suppress, session) s = omega (arith, s)
acted-IsAllowed env t v b (ok (send_storage_ack n), session) s = ground (arith, s)

request-IsAllowed :
    (env : Env) (request : ControlFrame) (t : RecordTransfer) (v : Values) (b : Bool)
    → IsAllowed b t
    → IsAllowedAfter b (prepare_fragment_request env request t v)
      × IsAllowedAfter b (complete_record_request request t v)
      × IsAllowedAfter b (ack_record_request env request t v)
unfolding prepare_fragment_request complete_record_request ack_record_request
request-IsAllowed env request t v b h = elim (Option-cases t.payload) [
  | inl e ↦ (
    rw (e, prepare_fragment_request) h,
    rw (e, complete_record_request) h,
    rw (e, ack_record_request) h,
  )
  | inr (p, e) ↦ (
    rw (e, prepare_fragment_request)
        (fragment_prepared-IsAllowed env t v b (fragment_for_request p request t.session)
          (omega (arith, h, fragment_quota p request t.session))),
    rw (e, complete_record_request) (omega (arith, h, finish_quota p request t.session)),
    rw (e, ack_record_request)
        (acted-IsAllowed env t v b
          (ack_action p request env.network_state env.upload_result t.session)
          (omega (arith, h, ack_quota p request env.network_state env.upload_result t.session))),
  )
]

dispatch-IsAllowed :
    (env : Env) (request : ControlFrame) (t : RecordTransfer) (v : Values) (b : Bool)
    (o : ControlOpcode)
    → request.opcode ≡ o
    → IsAllowed b t
    → IsAllowedAfter b (dispatch env request t v)
unfolding dispatch
dispatch-IsAllowed env request t v b request_metadata e h =
    rw (e, dispatch) (start-IsAllowed env t v b)
dispatch-IsAllowed env request t v b request_fragment e h =
    rw (e, dispatch) (request-IsAllowed env request t v b h).0
dispatch-IsAllowed env request t v b Protocol.complete_record e h =
    rw (e, dispatch) (request-IsAllowed env request t v b h).1
dispatch-IsAllowed env request t v b ack_record e h =
    rw (e, dispatch) (request-IsAllowed env request t v b h).2

write-IsAllowed :
    (env : Env) (bytes : List ℕ) (t : RecordTransfer) (v : Values) (b : Bool)
    → IsAllowed b t
    → IsAllowedAfter b (handle_control_write env bytes t v)
unfolding handle_control_write
write-IsAllowed env bytes t v b h =
    elim (Result-cases (ensure_ble_authorized env.pairing env.connection env.workspace)) [
      | inr (_, e) ↦ rw (e, handle_control_write) h
      | inl (_, e) ↦ elim (Result-cases (decode bytes)) [
        | inr (_, d) ↦ rw (e, d, handle_control_write) h
        | inl (request, d) ↦
            rw (e, d, handle_control_write)
              (dispatch-IsAllowed env request t v b request.opcode refl h)
      ]
    ]

metadata_read-IsAllowed :
    (env : Env) (t : RecordTransfer) (v : Values) (b : Bool)
    → IsAllowed b t
    → IsAllowedAfter b (prepare_metadata_read env t v)
unfolding prepare_metadata_read
metadata_read-IsAllowed env t v b h =
    elim (Result-cases (ensure_ble_authorized env.pairing env.connection env.workspace)) [
      | inr (_, e) ↦ rw (e, prepare_metadata_read) h
      | inl (_, e) ↦ elim (Option-cases t.payload) [
        | inl n ↦ rw (e, n, prepare_metadata_read) (start-IsAllowed env t v b)
        | inr (p, n) ↦ elim (Result-cases (metadata_from_payload p)) [
          | inr (_, m) ↦ rw (e, n, m, prepare_metadata_read) h
          | inl (_, m) ↦ rw (e, n, m, prepare_metadata_read) h
        ]
      ]
    ]

fragment_read-IsAllowed :
    (env : Env) (t : RecordTransfer) (v : Values) (b : Bool)
    → IsAllowed b t
    → IsAllowedAfter b (prepare_fragment_read env t v)
unfolding prepare_fragment_read
fragment_read-IsAllowed env t v b h =
    elim (Result-cases (ensure_ble_authorized env.pairing env.connection env.workspace)) [
      | inr (_, e) ↦ rw (e, prepare_fragment_read) h
      | inl (_, e) ↦ elim (Bool-cases (t.last_fragment_len == 0)) [
        | inl z ↦ rw (e, z, prepare_fragment_read) h
        | inr z ↦ rw (e, z, prepare_fragment_read) h
      ]
    ]

event-IsAllowed :
    (env : Env) (e : GattEvent) (t : RecordTransfer) (v : Values) (b : Bool)
    → IsAllowed b t
    → IsAllowedAfter b (handle_gatt_event env e t v)
unfolding handle_gatt_event
event-IsAllowed env read_metadata t v b h = metadata_read-IsAllowed env t v b h
event-IsAllowed env read_fragment t v b h = fragment_read-IsAllowed env t v b h
event-IsAllowed env read_status t v b h = h
event-IsAllowed env other_event t v b h = h
event-IsAllowed env (write_control bytes) t v b h = write-IsAllowed env bytes t v b h

pub run-IsAllowed :
    (hs : List Happening) (t : RecordTransfer) (v : Values) (b : Bool)
    → IsAllowed b t
    → IsAllowed (asked_over hs (t, v) b) (run hs (t, v)).0
unfolding run happens asked_over reset_after_disconnect
run-IsAllowed [] t v b h = h
run-IsAllowed (disconnect ∷ hs) t v b h =
    run-IsAllowed hs (reset_after_disconnect t) v b (omega arith)
run-IsAllowed (event env e ∷ hs) t v b h =
    let after : Done = handle_gatt_event env e t v in
    run-IsAllowed hs after.transfer after.values (asked_since b after)
      (event-IsAllowed env e t v b h)

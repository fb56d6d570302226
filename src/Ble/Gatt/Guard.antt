-- ===== src/Ble/Gatt/Guard.antt =====
-- What tasks/ble/gatt.rs lets a client do.
use sleep_environment_monito.Prelude.{
  ◌≡◌, refl, inl, inr, Option, none, some, Result, ok, err, Option-cases, Result-cases,
}
use sleep_environment_monito.Storage.Backlog.{StoredPayload}
use sleep_environment_monito.Ble.Protocol.{
  RecordMetadata, RecordFragment, ControlFrame, encode_fragment,
}
use sleep_environment_monito.Ble.Transfer.{
  BleTransferError, BleTransferState, BleAckAction, suppress, send_storage_ack, start_record,
  fragment_for_request, ack_action,
}
use sleep_environment_monito.Ble.Transfer.Delivery.{
  IsSession, IsWhole, start, fragment, finish, ack, call-IsSession,
}
use sleep_environment_monito.Ble.Keys.{AttErrorCode, ensure_ble_authorized}
use sleep_environment_monito.Ble.Gatt.{
  RecordTransfer, Values, Env, done, GattEvent, read_metadata, read_fragment, read_status,
  other_event, write_control, handle_gatt_event, prepare_metadata_read, prepare_fragment_read,
  handle_control_write, ack_record_request, acted, complete_record_request,
  prepare_fragment_request, fragment_prepared, start_metadata_request, metadata_started,
  set_metadata_value, peek_ble_payload, no_fragment, reset_after_disconnect,
}

-- The events that read or move a record.
abbrev pub TouchesRecord : GattEvent → Type 0
TouchesRecord read_status = ⊥
TouchesRecord other_event = ⊥
TouchesRecord _ = Unit {0}

-- Without authorisation a read of the metadata or of a fragment, and every write to the control
-- characteristic, whatever it holds, is refused with the error of the check: the transfer and the
-- values stay as they are, and nothing is acknowledged.
pub unauthorized_inert :
    (env : Env) (event : GattEvent) (t : RecordTransfer) (v : Values) (e : AttErrorCode)
    → TouchesRecord event
    → ensure_ble_authorized env.pairing env.connection env.workspace ≡ err e
    → handle_gatt_event env event t v ≡ done (err e) t v
unfolding handle_gatt_event prepare_metadata_read prepare_fragment_read handle_control_write
unauthorized_inert env read_metadata t v e h refused = rw (refused, prepare_metadata_read) refl
unauthorized_inert env read_fragment t v e h refused = rw (refused, prepare_fragment_read) refl
unauthorized_inert env read_status t v e h refused = absurd h
unauthorized_inert env other_event t v e h refused = absurd h
unauthorized_inert env (write_control bytes) t v e h refused =
    rw (refused, handle_control_write) refl

abbrev pub IsWholeIf : Option StoredPayload → Type 0
IsWholeIf none = Unit {0}
IsWholeIf (some p) = IsWhole p

-- The session keeps to `IsSession`, and the array of the record's payload is as long as its length
-- says.
abbrev pub IsTransfer : RecordTransfer → Type 0
IsTransfer t = IsSession t.session × IsWholeIf t.payload

metadata_started-IsTransfer :
    (env : Env) (p : StoredPayload) (t : RecordTransfer) (v : Values)
    (r : Result BleTransferError RecordMetadata × BleTransferState)
    → IsSession r.1
    → IsWhole p
    → IsWholeIf t.payload
    → IsTransfer (metadata_started env p t v r).transfer
unfolding metadata_started
metadata_started-IsTransfer env p t v (err e, session) s w k = (s, k)
metadata_started-IsTransfer env p t v (ok metadata, session) s w k =
    elim (Result-cases (set_metadata_value env metadata v).0) [
      | inl (_, e) ↦ rw (e, metadata_started) (s, w)
      | inr (_, e) ↦ rw (e, metadata_started) (s, k)
    ]

pub start-IsTransfer :
    (env : Env) (t : RecordTransfer) (v : Values)
    → IsWholeIf (peek_ble_payload env.peek)
    → IsTransfer t
    → IsTransfer (start_metadata_request env t v).transfer
unfolding start_metadata_request reset_after_disconnect
start-IsTransfer env t v w (s, k) = elim (Option-cases (peek_ble_payload env.peek)) [
  | inl e ↦ rw (e, start_metadata_request) (tt, tt)
  | inr (p, e) ↦
      let whole : IsWhole p = rw e at w in
      rw (e, start_metadata_request)
        (metadata_started-IsTransfer env p t v (start_record p t.session)
          (call-IsSession (start p) t.session tt s) whole k)
]

fragment_prepared-IsTransfer :
    (env : Env) (t : RecordTransfer) (v : Values)
    (r : Result BleTransferError RecordFragment × BleTransferState)
    → IsSession r.1
    → IsWholeIf t.payload
    → IsTransfer (fragment_prepared env t v r).transfer
unfolding fragment_prepared
fragment_prepared-IsTransfer env t v (err e, session) s k = (s, k)
fragment_prepared-IsTransfer env t v (ok f, session) s k =
    elim (Result-cases (encode_fragment f no_fragment)) [
      | inl (_, e) ↦ rw (e, fragment_prepared) (s, k)
      | inr (_, e) ↦ rw (e, fragment_prepared) (s, k)
    ]

acted-IsTransfer :
    (env : Env) (t : RecordTransfer) (v : Values)
    (r : Result BleTransferError BleAckAction × BleTransferState)
    → IsSession r.1
    → IsWholeIf t.payload
    → IsTransfer (acted env t v r).transfer
unfolding acted
acted-IsTransfer env t v (err e, session) s k = (s, k)
acted-IsTransfer env t v (ok suppress, session) s k = (s, k)
acted-IsTransfer env t v (ok (send_storage_ack sequence), session) s k = (s, k)

-- The handlers that need a record at hand.
pub request-IsTransfer :
    (env : Env) (request : ControlFrame) (t : RecordTransfer) (v : Values)
    (o : Option StoredPayload)
    → t.payload ≡ o
    → IsTransfer t
    → IsTransfer (prepare_fragment_request env request t v).transfer
      × IsTransfer (complete_record_request request t v).transfer
      × IsTransfer (ack_record_request env request t v).transfer
unfolding prepare_fragment_request complete_record_request ack_record_request
request-IsTransfer env request t v none e h = (
  rw (e, prepare_fragment_request) h,
  rw (e, complete_record_request) h,
  rw (e, ack_record_request) h,
)
request-IsTransfer env request t v (some p) e (s, k) =
    let whole : IsWhole p = rw e at k in
    (
      rw (e, prepare_fragment_request)
          (fragment_prepared-IsTransfer env t v (fragment_for_request p request t.session)
            (call-IsSession (fragment p request) t.session whole s) k),
      rw (e, complete_record_request) ((call-IsSession (finish p request) t.session tt s, k)),
      rw (e, ack_record_request)
          (acted-IsTransfer env t v
            (ack_action p request env.network_state env.upload_result t.session)
            (call-IsSession (ack p request env.network_state env.upload_result) t.session tt s) k),
    )

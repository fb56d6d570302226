-- ===== src/Ble/Gatt/Acks.antt =====
-- When tasks/ble/gatt.rs lets a client take a record out of the storage.
use sleep_environment_monito.Prelude.{
  ℕ, ◌≤◌, Bool, true, ◌≡◌, refl, inl, inr, List, false, none, some, Result, ok, err, arith,
  Option-cases, Result-cases,
}
use sleep_environment_monito.Storage.Backlog.{StoredPayload}
use sleep_environment_monito.Ble.Protocol.{
  ControlFrame, ControlOpcode, RecordMetadata, RecordFragment, request_metadata, request_fragment,
  ack_record, decode, encode_fragment,
}
use sleep_environment_monito.Ble.Protocol
use sleep_environment_monito.Ble.Transfer.{
  BleTransferError, BleTransferState, Active, active, BleAckAction, suppress, send_storage_ack,
  can_ack_oldest_record, ack_policy, ack_action,
}
use sleep_environment_monito.Ble.Transfer.Once.{ack_delivered}
use sleep_environment_monito.Ble.Keys.{ensure_ble_authorized}
use sleep_environment_monito.Ble.Gatt.{
  RecordTransfer, Values, Env, GattEvent, read_metadata, read_fragment, read_status, other_event,
  write_control, handle_gatt_event, handle_control_write, dispatch, ack_record_request, acted, new,
}
use sleep_environment_monito.Ble.Gatt.Quiet.{
  start-quiet, request-quiet, metadata_read-quiet, fragment_read-quiet,
}
use sleep_environment_monito.Ble.Gatt.Asked.{asked_over, IsAllowed, run-IsAllowed}
use sleep_environment_monito.Ble.Gatt.Guard.{IsTransfer}
use sleep_environment_monito.Ble.Gatt.Runs.{Happening, run, IsFed, run-IsTransfer}

acted-sends :
    (env : Env) (t : RecordTransfer) (v : Values)
    (r : Result BleTransferError BleAckAction × BleTransferState) (sequence : ℕ)
    → (acted env t v r).acknowledged ≡ some sequence
    → r.0 ≡ ok (send_storage_ack sequence)
unfolding acted
acted-sends env t v (err e, session) sequence h = ground (arith, h)
acted-sends env t v (ok suppress, session) sequence h = ground (arith, h)
acted-sends env t v (ok (send_storage_ack n), session) sequence h = ground (arith, h)

-- The client names the record at hand, all of whose bytes it has read, that is not acknowledged
-- yet and that the network does not upload.
abbrev pub IsDelivered : Env → RecordTransfer → ℕ → Type 0
IsDelivered env t sequence =
    (p : StoredPayload) × (t.payload ≡ some p)
    × (p.sequence ≡ sequence)
    × ((a : Active) × (t.session ≡ active a)
        × (a.sequence ≡ sequence)
        × (a.delivered_until ≡ a.total_len)
        × (a.ack_sent ≡ false))
    × (ack_policy env.network_state env.upload_result ≡ can_ack_oldest_record)

ack_request-IsDelivered :
    (env : Env) (request : ControlFrame) (t : RecordTransfer) (v : Values) (sequence : ℕ)
    → IsTransfer t
    → (ack_record_request env request t v).acknowledged ≡ some sequence
    → IsDelivered env t sequence
unfolding ack_record_request
ack_request-IsDelivered env request t v sequence (s, k) h = elim (Option-cases t.payload) [
  | inl e ↦
      let none_sent : none ≡ some sequence = rw (e, ack_record_request) at h in
      ground (arith, none_sent)
  | inr (p, e) ↦
      let result : Result BleTransferError BleAckAction × BleTransferState =
        ack_action p request env.network_state env.upload_result t.session in
      let sent : (acted env t v result).acknowledged ≡ some sequence =
        rw (e, ack_record_request) at h in
      let (a, active_a, named, front, _, whole, fresh, policy) =
        ack_delivered p request env.network_state env.upload_result t.session sequence s
          (acted-sends env t v result sequence sent) in
      (p, e, front, (a, active_a, named, whole, fresh), policy)
]

dispatch-IsDelivered :
    (env : Env) (request : ControlFrame) (t : RecordTransfer) (v : Values) (o : ControlOpcode)
    (sequence : ℕ)
    → request.opcode ≡ o
    → IsTransfer t
    → (dispatch env request t v).acknowledged ≡ some sequence
    → IsDelivered env t sequence
unfolding dispatch
dispatch-IsDelivered env request t v request_metadata sequence e s h =
    let sent = rw (e, dispatch) at h in ground (arith, sent, start-quiet env t v)
dispatch-IsDelivered env request t v request_fragment sequence e s h =
    let sent = rw (e, dispatch) at h in ground (arith, sent, (request-quiet env request t v).0)
dispatch-IsDelivered env request t v Protocol.complete_record sequence e s h =
    let sent = rw (e, dispatch) at h in ground (arith, sent, (request-quiet env request t v).1)
dispatch-IsDelivered env request t v ack_record sequence e s h =
    ack_request-IsDelivered env request t v sequence s (rw (e, dispatch) at h)

-- The answer of the check, and the record that the client has taken.
abbrev pub IsTaken : Env → RecordTransfer → ℕ → Type 0
IsTaken env t sequence =
    (ensure_ble_authorized env.pairing env.connection env.workspace ≡ ok tt)
    × IsDelivered env t sequence

write-IsTaken :
    (env : Env) (bytes : List ℕ) (t : RecordTransfer) (v : Values) (sequence : ℕ)
    → IsTransfer t
    → (handle_control_write env bytes t v).acknowledged ≡ some sequence
    → IsTaken env t sequence
unfolding handle_control_write
write-IsTaken env bytes t v sequence s h =
    elim (Result-cases (ensure_ble_authorized env.pairing env.connection env.workspace)) [
      | inr (_, e) ↦
          let sent : none ≡ some sequence = rw (e, handle_control_write) at h in
          ground (arith, sent)
      | inl (_, e) ↦ elim (Result-cases (decode bytes)) [
        | inr (_, d) ↦
            let sent : none ≡ some sequence = rw (e, d, handle_control_write) at h in
            ground (arith, sent)
        | inl (request, d) ↦ (
          e,
          dispatch-IsDelivered env request t v request.opcode sequence refl s
              (rw (e, d, handle_control_write) at h),
        )
      ]
    ]

event-IsTaken :
    (env : Env) (event : GattEvent) (t : RecordTransfer) (v : Values) (sequence : ℕ)
    → IsTransfer t
    → (handle_gatt_event env event t v).acknowledged ≡ some sequence
    → IsTaken env t sequence
unfolding handle_gatt_event
event-IsTaken env read_metadata t v sequence s h = ground (arith, h, metadata_read-quiet env t v)
event-IsTaken env read_fragment t v sequence s h = ground (arith, h, fragment_read-quiet env t v)
event-IsTaken env read_status t v sequence s h = ground (arith, h)
event-IsTaken env other_event t v sequence s h = ground (arith, h)
event-IsTaken env (write_control bytes) t v sequence s h = write-IsTaken env bytes t v sequence s h

taken-asked :
    (env : Env) (t : RecordTransfer) (sequence : ℕ) (b : Bool)
    → IsTaken env t sequence
    → IsAllowed b t
    → b ≡ true
taken-asked env t sequence true taken h = refl
taken-asked env t sequence false (_, (_, _, _, (a, session, _, _, fresh), _)) h =
    let full : 1 ≤ 0 = rw (session, fresh) at h in absurd (omega (arith, full))

-- From the transfer of a boot, whatever clients read and write and however often they disconnect,
-- while the storage task answers with whole payloads: if the next event sends the storage task an
-- acknowledgement, then its client is authorised; the acknowledgement is for the record at hand,
-- all of whose bytes the session has handed out and which is not marked as acknowledged; the policy
-- on the network and the upload allows it; and since the last acknowledgement that was sent in all
-- that happened, if there was one, the storage task was asked for a record again.
pub acked-IsTaken :
    (happened : List Happening) (env : Env) (event : GattEvent) (v : Values) (sequence : ℕ)
    → IsFed happened
    → (handle_gatt_event env event (run happened (new, v)).0 (run happened (new, v)).1).acknowledged
      ≡ some sequence
    → IsTaken env (run happened (new, v)).0 sequence × (asked_over happened (new, v) false ≡ true)
unfolding new
acked-IsTaken happened env event v sequence fed h =
    let t = (run happened (new, v)).0 in
    let taken : IsTaken env t sequence =
      event-IsTaken env event t (run happened (new, v)).1 sequence
        (run-IsTransfer happened new v fed (tt, tt)) h in
    (
      taken,
      taken-asked env t sequence (asked_over happened (new, v) false) taken
          (run-IsAllowed happened new v false (omega arith)),
    )

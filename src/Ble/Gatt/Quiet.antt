-- ===== src/Ble/Gatt/Quiet.antt =====
-- What the handlers of tasks/ble/gatt.rs do not send to the storage task.
use sleep_environment_monito.Prelude.{
  ◌≡◌, refl, inl, inr, none, Result, ok, err, Option-cases, Result-cases, Bool-cases, ◌==◌,
}
use sleep_environment_monito.Storage.Backlog.{StoredPayload}
use sleep_environment_monito.Ble.Protocol.{
  ControlFrame, RecordMetadata, RecordFragment, encode_fragment,
}
use sleep_environment_monito.Ble.Transfer.{
  BleTransferError, BleTransferState, metadata_from_payload, start_record, fragment_for_request,
}
use sleep_environment_monito.Ble.Keys.{ensure_ble_authorized}
use sleep_environment_monito.Ble.Gatt.{
  RecordTransfer, Values, Env, prepare_metadata_read, prepare_fragment_read,
  complete_record_request, prepare_fragment_request, fragment_prepared, start_metadata_request,
  metadata_started, set_metadata_value, peek_ble_payload, no_fragment,
}

pub metadata_started-quiet :
    (env : Env) (p : StoredPayload) (t : RecordTransfer) (v : Values)
    (r : Result BleTransferError RecordMetadata × BleTransferState)
    → (metadata_started env p t v r).acknowledged ≡ none
unfolding metadata_started
metadata_started-quiet env p t v (err e, session) = refl
metadata_started-quiet env p t v (ok metadata, session) =
    elim (Result-cases (set_metadata_value env metadata v).0) [
      | inl (_, e) ↦ rw (e, metadata_started) refl
      | inr (_, e) ↦ rw (e, metadata_started) refl
    ]

pub start-quiet :
    (env : Env) (t : RecordTransfer) (v : Values)
    → (start_metadata_request env t v).acknowledged ≡ none
unfolding start_metadata_request
start-quiet env t v = elim (Option-cases (peek_ble_payload env.peek)) [
  | inl e ↦ rw (e, start_metadata_request) refl
  | inr (p, e) ↦
      rw (e, start_metadata_request) (metadata_started-quiet env p t v (start_record p t.session))
]

fragment_prepared-quiet :
    (env : Env) (t : RecordTransfer) (v : Values)
    (r : Result BleTransferError RecordFragment × BleTransferState)
    → (fragment_prepared env t v r).acknowledged ≡ none
unfolding fragment_prepared
fragment_prepared-quiet env t v (err e, session) = refl
fragment_prepared-quiet env t v (ok f, session) =
    elim (Result-cases (encode_fragment f no_fragment)) [
      | inl (_, e) ↦ rw (e, fragment_prepared) refl
      | inr (_, e) ↦ rw (e, fragment_prepared) refl
    ]

pub request-quiet :
    (env : Env) (request : ControlFrame) (t : RecordTransfer) (v : Values)
    → ((prepare_fragment_request env request t v).acknowledged ≡ none)
      × ((complete_record_request request t v).acknowledged ≡ none)
unfolding prepare_fragment_request complete_record_request
request-quiet env request t v = elim (Option-cases t.payload) [
  | inl e ↦ (rw (e, prepare_fragment_request) refl, rw (e, complete_record_request) refl)
  | inr (p, e) ↦ (
    rw (e, prepare_fragment_request)
        (fragment_prepared-quiet env t v (fragment_for_request p request t.session)),
    rw (e, complete_record_request) refl,
  )
]

pub metadata_read-quiet :
    (env : Env) (t : RecordTransfer) (v : Values)
    → (prepare_metadata_read env t v).acknowledged ≡ none
unfolding prepare_metadata_read
metadata_read-quiet env t v =
    elim (Result-cases (ensure_ble_authorized env.pairing env.connection env.workspace)) [
      | inr (_, e) ↦ rw (e, prepare_metadata_read) refl
      | inl (_, e) ↦ elim (Option-cases t.payload) [
        | inl n ↦ rw (e, n, prepare_metadata_read) (start-quiet env t v)
        | inr (p, n) ↦ elim (Result-cases (metadata_from_payload p)) [
          | inr (_, m) ↦ rw (e, n, m, prepare_metadata_read) refl
          | inl (_, m) ↦ rw (e, n, m, prepare_metadata_read) refl
        ]
      ]
    ]

pub fragment_read-quiet :
    (env : Env) (t : RecordTransfer) (v : Values)
    → (prepare_fragment_read env t v).acknowledged ≡ none
unfolding prepare_fragment_read
fragment_read-quiet env t v =
    elim (Result-cases (ensure_ble_authorized env.pairing env.connection env.workspace)) [
      | inr (_, e) ↦ rw (e, prepare_fragment_read) refl
      | inl (_, e) ↦ elim (Bool-cases (t.last_fragment_len == 0)) [
        | inl z ↦ rw (e, z, prepare_fragment_read) refl
        | inr z ↦ rw (e, z, prepare_fragment_read) refl
      ]
    ]

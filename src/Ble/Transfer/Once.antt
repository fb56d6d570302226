-- ===== src/Ble/Transfer/Once.antt =====
-- How often, and when, tasks/ble/transfer.rs sends an acknowledgement to the storage.
use sleep_environment_monito.Prelude.{
  ℕ, ◌+◌, ◌≤◌, ◌≡◌, refl, List, [], ◌∷◌, false, if◌then◌else◌, Result, ok, err, arith,
}
use sleep_environment_monito.Types.{NetworkState, UploadResult}
use sleep_environment_monito.Storage.Backlog.{StoredPayload}
use sleep_environment_monito.Ble.Protocol.{ControlFrame, RecordMetadata}
use sleep_environment_monito.Ble.Transfer.{
  BleTransferState, BleTransferError, Active, idle, active, BleAckAction, suppress,
  send_storage_ack, BleAckPolicy, can_ack_oldest_record, copy_only, started, start_record,
  metadata_from_payload, fragment_for_request, fragment_of_active, complete_record, ack_action,
  is_copy_only, ack_policy,
}
use sleep_environment_monito.Ble.Transfer.Delivery.{
  Call, start, fragment, finish, ack, disconnect, after_call, IsSession,
}

-- How many acknowledgements the calls send to the storage.
unfoldable pub acks_sent : BleTransferState → List Call → ℕ
acks_sent s [] = 0
acks_sent s (ack p request network upload ∷ calls) =
    let rest = acks_sent (ack_action p request network upload s).1 calls in
    elim (ack_action p request network upload s).0 [
      | ok (send_storage_ack _) ↦ 1 + rest
      | ok suppress ↦ rest
      | err _ ↦ rest
    ]
acks_sent s (start p ∷ calls) = acks_sent (after_call (start p) s) calls
acks_sent s (fragment p request ∷ calls) = acks_sent (after_call (fragment p request) s) calls
acks_sent s (finish p request ∷ calls) = acks_sent (after_call (finish p request) s) calls
acks_sent s (disconnect ∷ calls) = acks_sent (after_call disconnect s) calls

-- How many acknowledgements the state allows.
abbrev pub quota : BleTransferState → ℕ
quota idle = 0
quota (active a) = if a.ack_sent then 0 else 1

unfoldable pub starts : List Call → ℕ
starts [] = 0
starts (start p ∷ calls) = 1 + starts calls
starts (c ∷ calls) = starts calls

abbrev pub sends : Result BleTransferError BleAckAction → ℕ
sends (ok (send_storage_ack _)) = 1
sends (ok suppress) = 0
sends (err _) = 0

pub ack_quota :
    (p : StoredPayload) (request : ControlFrame) (network : NetworkState) (upload : UploadResult)
    (s : BleTransferState)
    → sends (ack_action p request network upload s).0
        + quota (ack_action p request network upload s).1
      ≤ quota s
unfolding ack_action
ack_quota p request network upload idle = ground arith
ack_quota p request network upload (active a) = ground arith

pub finish_quota :
    (p : StoredPayload) (request : ControlFrame) (s : BleTransferState)
    → quota (complete_record p request s).1 ≤ quota s
unfolding complete_record
finish_quota p request idle = ground arith
finish_quota p request (active a) = ground arith

pub start_quota :
    (p : StoredPayload) (s : BleTransferState) → quota (start_record p s).1 ≤ quota s + 1
unfolding start_record
start_quota p s = result (metadata_from_payload p)
  where
    result : (r : Result BleTransferError RecordMetadata) → quota (started s r).1 ≤ quota s + 1
    result (ok m) = omega arith
    result (err e) = omega arith

pub fragment_quota :
    (p : StoredPayload) (request : ControlFrame) (s : BleTransferState)
    → quota (fragment_for_request p request s).1 ≤ quota s
unfolding fragment_for_request fragment_of_active
fragment_quota p request idle = ground arith
fragment_quota p request (active a) = ground arith

acks_step :
    (p : StoredPayload) (request : ControlFrame) (network : NetworkState) (upload : UploadResult)
    (s : BleTransferState) (calls : List Call)
    → acks_sent s (ack p request network upload ∷ calls)
      ≡ sends (ack_action p request network upload s).0
        + acks_sent (ack_action p request network upload s).1 calls
unfolding acks_sent
acks_step p request network upload s calls =
    result (ack_action p request network upload s).0
      (acks_sent (ack_action p request network upload s).1 calls)
  where
    result :
        (r : Result BleTransferError BleAckAction) (rest : ℕ)
        → (elim r as (λ x. ℕ) [
          | ok a ↦ elim a [ send_storage_ack _ ↦ 1 + rest | suppress ↦ rest ]
          | err _ ↦ rest
        ])
          ≡ sends r + rest
    result (ok (send_storage_ack n)) rest = refl
    result (ok suppress) rest = omega arith
    result (err e) rest = omega arith

acks_quota : (s : BleTransferState) (calls : List Call) → acks_sent s calls ≤ quota s + starts calls
unfolding acks_sent starts
acks_quota s [] = omega arith
acks_quota s (start p ∷ calls) =
    omega (arith, start_quota p s, acks_quota (start_record p s).1 calls)
acks_quota s (fragment p request ∷ calls) =
    omega (arith, fragment_quota p request s, acks_quota (fragment_for_request p request s).1 calls)
acks_quota s (finish p request ∷ calls) =
    omega (arith, finish_quota p request s, acks_quota (complete_record p request s).1 calls)
acks_quota s (ack p request network upload ∷ calls) = omega (
  arith,
  acks_step p request network upload s calls,
  ack_quota p request network upload s,
  acks_quota (ack_action p request network upload s).1 calls,
)
acks_quota s (disconnect ∷ calls) = omega (arith, acks_quota idle calls)

-- From a new session, whatever a client calls and in whatever order, at most one acknowledgement
-- goes to the storage for each time that a record is started.
pub acks_once : (calls : List Call) → acks_sent idle calls ≤ starts calls
acks_once calls = omega (arith, acks_quota idle calls)

not_copy : (x : BleAckPolicy) → is_copy_only x ≡ false → x ≡ can_ack_oldest_record
not_copy copy_only h = ground (arith, h)
not_copy can_ack_oldest_record h = refl

-- In a session that keeps to `IsSession`, an acknowledgement goes to the storage only for the
-- active record, which is the one at the front and the one that the client names, when all of its
-- bytes are delivered, it is not marked as acknowledged, and the policy allows it.
pub ack_delivered :
    (p : StoredPayload) (request : ControlFrame) (network : NetworkState) (upload : UploadResult)
    (s : BleTransferState) (sequence : ℕ)
    → IsSession s
    → (ack_action p request network upload s).0 ≡ ok (send_storage_ack sequence)
    → (a : Active) × (s ≡ active a)
      × (a.sequence ≡ sequence)
      × (p.sequence ≡ sequence)
      × (request.sequence ≡ sequence)
      × (a.delivered_until ≡ a.total_len)
      × (a.ack_sent ≡ false)
      × (ack_policy network upload ≡ can_ack_oldest_record)
unfolding ack_action
ack_delivered p request network upload idle sequence v h = ground (arith, h)
ack_delivered p request network upload (active a) sequence v h = (
  a,
  refl,
  ground (arith, h),
  ground (arith, h),
  ground (arith, h),
  v.whole (ground (arith, h)),
  ground (arith, h),
  not_copy (ack_policy network upload) (ground (arith, h)),
)

-- ===== src/Ble/Transfer/Delivery.antt =====
-- The calls of a session of tasks/ble/transfer.rs, and what a session keeps to.
use sleep_environment_monito.Prelude.{
  ℕ, ◌+◌, ◌%◌, ◌^◌, ◌≤◌, ◌≡◌, refl, sym, inl, inr, List, true, false, not, ◌&&◌, ◌||◌, Bool-cases,
  ==_eq, ◌==◌, ltb, Result, ok, err, u16_max, slice, saturating_add, arith, length, length-take,
  length-drop, drop,
}
use sleep_environment_monito.Types.{NetworkState, UploadResult}
use sleep_environment_monito.Storage.Backlog.{StoredPayload, as_slice}
use sleep_environment_monito.Ble.Protocol
use sleep_environment_monito.Ble.Protocol.{
  ControlFrame, BleProtocolError, ack_record, request_fragment, new_fragment,
  max_fragment_payload_len, RecordFragment, RecordMetadata,
}
use sleep_environment_monito.Ble.Transfer.{
  BleTransferState, BleTransferError, transfer_error_from_protocol, no_active_record, Active, idle,
  active, start_record, started, metadata_from_payload, fragment_for_request, fragment_of_active,
  complete_record, ack_action, reset_after_disconnect, same_opcode, sequences_match, is_copy_only,
  ack_policy, mark_delivered, fragment_len,
}

-- No more is delivered than there is, a complete record is delivered, and an acknowledged one is
-- complete.
pub record IsActive (a : Active) : Type 0 where
  pub within : a.delivered_until ≤ a.total_len
  pub fits : a.total_len ≤ u16_max
  pub whole : a.complete ≡ true → a.delivered_until ≡ a.total_len
  pub acked : a.ack_sent ≡ true → a.complete ≡ true

abbrev pub IsSession : BleTransferState → Type 0
IsSession idle = Unit
IsSession (active a) = IsActive a

-- The calls of a client's session.
pub data Call : Type 0 where
  start : StoredPayload → Call
  fragment : StoredPayload → ControlFrame → Call
  finish : StoredPayload → ControlFrame → Call
  ack : StoredPayload → ControlFrame → NetworkState → UploadResult → Call
  disconnect : Call

abbrev pub after_call : Call → BleTransferState → BleTransferState
after_call (start p) s = (start_record p s).1
after_call (fragment p request) s = (fragment_for_request p request s).1
after_call (finish p request) s = (complete_record p request s).1
after_call (ack p request network upload) s = (ack_action p request network upload s).1
after_call disconnect s = reset_after_disconnect s

metadata_bound :
    (p : StoredPayload) (m : RecordMetadata)
    → metadata_from_payload p ≡ ok m
    → m.payload_len ≤ u16_max
unfolding metadata_from_payload
metadata_bound p m h = ground (arith, h)

started-IsSession :
    (p : StoredPayload) (s : BleTransferState) (r : Result BleTransferError RecordMetadata)
    → IsSession s
    → metadata_from_payload p ≡ r
    → IsSession (started s r).1
started-IsSession p s (err e) v h = v
started-IsSession p s (ok m) v h = record {
  within = omega arith;
  fits = metadata_bound p m h;
  whole = λ e. omega (arith, ==_eq m.payload_len 0 e);
  acked = λ e. ground (arith, e);
}

start-IsSession :
    (p : StoredPayload) (s : BleTransferState) → IsSession s → IsSession (start_record p s).1
unfolding start_record
start-IsSession p s v = started-IsSession p s (metadata_from_payload p) v refl

new_fragment_bound :
    (sequence offset total : ℕ) (xs : List ℕ) (f : RecordFragment)
    → new_fragment sequence offset total xs ≡ ok f
    → offset + length xs ≤ total
unfolding new_fragment
new_fragment_bound sequence offset total xs f h = ground (arith, h)

finished-IsActive :
    (p : StoredPayload) (a : Active)
    → IsActive a
    → ltb a.delivered_until a.total_len || not (p.payload_len == a.total_len) ≡ false
    → IsActive (record a { complete = true })
finished-IsActive p a v h = record {
  within = v.within;
  fits = v.fits;
  whole = λ _. ground (arith, h, v.within);
  acked = λ _. refl;
}

sent-IsActive :
    (a : Active) → IsActive a → a.complete ≡ true → IsActive (record a { ack_sent = true })
sent-IsActive a v h = record { within = v.within; fits = v.fits; whole = v.whole; acked = λ _. h }

finish-IsSession :
    (p : StoredPayload) (request : ControlFrame) (s : BleTransferState)
    → IsSession s
    → IsSession (complete_record p request s).1
unfolding complete_record
finish-IsSession p request idle v =
    elim (Bool-cases (same_opcode request.opcode Protocol.complete_record)) [
      | inl e ↦ rw e tt
      | inr e ↦ rw e tt
    ]
finish-IsSession p request (active a) v =
    elim (Bool-cases (same_opcode request.opcode Protocol.complete_record)) [
      | inr e ↦ rw e v
      | inl e ↦ elim (Bool-cases (sequences_match p request a)) [
        | inr m ↦ rw (e, m) v
        | inl m ↦
            elim (Bool-cases
              (ltb a.delivered_until a.total_len || not (p.payload_len == a.total_len))) [
                | inl h ↦ rw (e, m, h) v
                | inr h ↦ rw (e, m, h) (finished-IsActive p a v h)
              ]
      ]
    ]

ack-IsSession :
    (p : StoredPayload) (request : ControlFrame) (network : NetworkState) (upload : UploadResult)
    (s : BleTransferState)
    → IsSession s
    → IsSession (ack_action p request network upload s).1
unfolding ack_action
ack-IsSession p request network upload idle v =
    elim (Bool-cases (same_opcode request.opcode ack_record)) [ inl e ↦ rw e tt | inr e ↦ rw e tt ]
ack-IsSession p request network upload (active a) v =
    elim (Bool-cases (same_opcode request.opcode ack_record)) [
      | inr e ↦ rw e v
      | inl e ↦ elim (Bool-cases (sequences_match p request a)) [
        | inr m ↦ rw (e, m) v
        | inl m ↦ elim (Bool-cases (not a.complete)) [
          | inl h ↦ rw (e, m, h) v
          | inr h ↦ elim (Bool-cases (is_copy_only (ack_policy network upload) || a.ack_sent)) [
            | inl k ↦ rw (e, m, h, k) v
            | inr k ↦ rw (e, m, h, k) (sent-IsActive a v (ground (arith, h)))
          ]
        ]
      ]
    ]

slice_bound : (xs : List ℕ) (a n : ℕ) → length (slice xs a n) ≤ n
slice_bound xs a n = omega (arith, length-take n (drop a xs))

-- The payload's array is as long as its length says.
abbrev pub IsWhole : StoredPayload → Type 0
IsWhole p = p.payload_len ≤ length p.payload

pub length-slice_payload :
    (p : StoredPayload) (a n : ℕ)
    → IsWhole p
    → a + n ≤ p.payload_len
    → length (slice (as_slice p) a n) ≡ n
unfolding as_slice
length-slice_payload p a n w h = omega (
  arith,
  length-take n (drop a (as_slice p)),
  length-drop a (as_slice p),
  length-take p.payload_len p.payload,
)

marked-IsActive :
    (p : StoredPayload) (request : ControlFrame) (a : Active)
    → IsWhole p
    → IsActive a
    → ltb p.payload_len request.offset || ltb a.total_len request.offset ≡ false
    → request.offset + length (slice (as_slice p) request.offset (fragment_len p request))
      ≤ a.total_len
    → IsActive
        (mark_delivered (saturating_add u16_max request.offset (fragment_len p request % 2 ^ 16)) a)
marked-IsActive p request a w v h bound =
    let n = fragment_len p request in
    let inside : request.offset ≤ p.payload_len = ground (arith, h) in
    let exact = length-slice_payload p request.offset n w (omega (arith, inside)) in
    let reach : saturating_add u16_max request.offset (n % 2 ^ 16) ≤ a.total_len =
      ground (arith, bound, exact, v.fits) in
    record {
      within = omega (arith, v.within, reach);
      fits = v.fits;
      whole = λ e. omega (arith, v.whole e, reach);
      acked = v.acked;
    }

abbrev cut_result :
    StoredPayload
    → ControlFrame
    → Active
    → Result BleProtocolError RecordFragment
    → Result BleTransferError RecordFragment × BleTransferState
cut_result p request a (err e) = (err (transfer_error_from_protocol e), active a)
cut_result p request a (ok f) = (
  ok f,
  active
      (mark_delivered (saturating_add u16_max request.offset (fragment_len p request % 2 ^ 16)) a),
)

cut_result-IsSession :
    (p : StoredPayload) (request : ControlFrame) (a : Active)
    (r : Result BleProtocolError RecordFragment)
    → IsWhole p
    → IsActive a
    → ltb p.payload_len request.offset || ltb a.total_len request.offset ≡ false
    → r
      ≡ new_fragment a.sequence request.offset a.total_len
          (slice (as_slice p) request.offset (fragment_len p request))
    → IsSession (cut_result p request a r).1
cut_result-IsSession p request a (err e) w v h same = v
cut_result-IsSession p request a (ok f) w v h same =
    marked-IsActive p request a w v h
      (new_fragment_bound a.sequence request.offset a.total_len _ f (sym same))

fragment_of_active-IsSession :
    (p : StoredPayload) (request : ControlFrame) (a : Active)
    → IsWhole p
    → IsActive a
    → IsSession (fragment_of_active p request a).1
unfolding fragment_of_active
fragment_of_active-IsSession p request a w v = elim (Bool-cases (sequences_match p request a)) [
  | inr m ↦ rw m v
  | inl m ↦ elim (Bool-cases (ltb p.payload_len request.offset || ltb a.total_len request.offset)) [
    | inl h ↦ rw (m, h) v
    | inr h ↦ elim (Bool-cases (ltb a.delivered_until request.offset)) [
      | inl k ↦ rw (m, h, k) v
      | inr k ↦
          elim (Bool-cases (fragment_len p request == 0 && not (request.offset == p.payload_len))) [
            | inl z ↦ rw (m, h, k, z) v
            | inr z ↦ rw (m, h, k, z) (cut_result-IsSession p request a _ w v h refl)
          ]
    ]
  ]
]

requested-IsSession :
    (p : StoredPayload) (request : ControlFrame) (s : BleTransferState)
    → IsWhole p
    → IsSession s
    → IsSession
        (elim s as (λ x. Result BleTransferError RecordFragment × BleTransferState) [
          | idle ↦ (err no_active_record, idle)
          | active a ↦ fragment_of_active p request a
        ]).1
requested-IsSession p request idle w v = tt
requested-IsSession p request (active a) w v = fragment_of_active-IsSession p request a w v

fragment-IsSession :
    (p : StoredPayload) (request : ControlFrame) (s : BleTransferState)
    → IsWhole p
    → IsSession s
    → IsSession (fragment_for_request p request s).1
unfolding fragment_for_request
fragment-IsSession p request s w v =
    elim (Bool-cases (same_opcode request.opcode request_fragment)) [
      | inr e ↦ rw e v
      | inl e ↦ elim (Bool-cases (request.length == 0)) [
        | inl z ↦ rw (e, z) v
        | inr z ↦ rw (e, z) (requested-IsSession p request s w v)
      ]
    ]

-- The payloads that the calls bring in have the length that they name.
abbrev pub IsCall : Call → Type 0
IsCall (fragment p request) = IsWhole p
IsCall _ = Unit

-- In a session, at most the whole record is delivered, the record counts as complete only when all
-- of it is, and is acknowledged only when it is complete: every call keeps this, also one that is
-- refused, when a payload's array is as long as its length says.
pub call-IsSession :
    (c : Call) (s : BleTransferState) → IsCall c → IsSession s → IsSession (after_call c s)
call-IsSession (start p) s w v = start-IsSession p s v
call-IsSession (fragment p request) s w v = fragment-IsSession p request s w v
call-IsSession (finish p request) s w v = finish-IsSession p request s v
call-IsSession (ack p request network upload) s w v = ack-IsSession p request network upload s v
call-IsSession disconnect s w v = tt

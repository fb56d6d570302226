-- ===== src/Ble/Tests.antt =====
-- The theorems on tasks/ble at concrete records, sessions and gestures.
use sleep_environment_monito.Prelude.{
  ℕ, ◌≤◌, ◌≡◌, refl, arith, List, [], ◌∷◌, ◌++◌, take, drop, true, false, some, ok,
}
use sleep_environment_monito.Types.{connecting, failed}
use sleep_environment_monito.Storage.Backlog.{StoredPayload, as_slice}
use sleep_environment_monito.Ble.Protocol.{
  ControlFrame, request_fragment, ack_record, frame_len, frame_bytes, encode, decode,
}
use sleep_environment_monito.Ble.Protocol.RoundTrip.{decode-encode}
use sleep_environment_monito.Ble.Transfer.{Active, idle, active}
use sleep_environment_monito.Ble.Transfer.Delivery.{
  IsActive, IsSession, Call, start, fragment, finish, ack, disconnect, after_call, call-IsSession,
}
use sleep_environment_monito.Ble.Transfer.Once.{acks_sent, starts, acks_once}
use sleep_environment_monito.Ble.Transfer.Reassembly.{Serves, download, download_lem}
use sleep_environment_monito.Ble.Pairing
use sleep_environment_monito.Ble.Pairing.{
  BootButtonState, pressed, released, BlePairingGesture, closed, opened,
}
use sleep_environment_monito.Ble.Pairing.Gesture.{
  run, count, opens, clears, expiries, presses, total, press_once, window_deadline,
}
use sleep_environment_monito.Ble.Pairing.Gesture

abbrev payload : StoredPayload
payload = record {
  sequence = 7;
  payload = 10 ∷ 11 ∷ 12 ∷ 0 ∷ [];
  payload_len = 3;
  payload_flags = 1;
  current_boot = true;
}

abbrev partly : Active
partly = record {
  sequence = 7;
  total_len = 3;
  delivered_until = 1;
  complete = false;
  ack_sent = false;
}

abbrev delivered : Active
delivered = record {
  sequence = 7;
  total_len = 3;
  delivered_until = 3;
  complete = true;
  ack_sent = false;
}

partly-IsActive : IsActive partly
partly-IsActive = record {
  within = omega arith;
  fits = omega arith;
  whole = λ e. ground (arith, e);
  acked = λ e. ground (arith, e);
}

delivered-IsActive : IsActive delivered
delivered-IsActive = record {
  within = omega arith;
  fits = omega arith;
  whole = λ e. refl;
  acked = λ e. refl;
}

abbrev ask : ControlFrame
ask = record { opcode = request_fragment; sequence = 7; offset = 1; length = 2 }

abbrev ack_frame : ControlFrame
ack_frame = record { opcode = ack_record; sequence = 7; offset = 0; length = 0 }

abbrev frame_room : List ℕ
frame_room = 0 ∷ 0 ∷ 0 ∷ 0 ∷ 0 ∷ 0 ∷ 0 ∷ 0 ∷ 0 ∷ 0 ∷ 0 ∷ 0 ∷ 0 ∷ 0 ∷ 9 ∷ []

decode-encode_example :
    (encode ask frame_room ≡ ok (frame_len, frame_bytes ask ++ drop frame_len frame_room))
    × (decode (take frame_len (frame_bytes ask ++ drop frame_len frame_room)) ≡ ok ask)
decode-encode_example =
    decode-encode ask frame_room (omega arith) (omega arith) (omega arith) (omega arith)

call-IsSession_example : IsSession (after_call (fragment payload ask) (active partly))
call-IsSession_example =
    call-IsSession (fragment payload ask) (active partly) (omega arith) partly-IsActive

abbrev calls : List Call
calls =
    start payload
    ∷ fragment payload ask
    ∷ finish payload ask
    ∷ ack payload ack_frame connecting failed
    ∷ ack payload ack_frame connecting failed
    ∷ disconnect
    ∷ []

acks_once_example : acks_sent idle calls ≤ starts calls
acks_once_example = acks_once calls

partly-Serves : Serves payload partly
partly-Serves = record {
  session = partly-IsActive;
  whole = omega arith;
  same_sequence = refl;
  same_length = refl;
}

download_lem_example :
    download 3 1 payload (take 1 (as_slice payload)) (active partly) ≡ some (as_slice payload)
download_lem_example = download_lem 3 1 payload partly partly-Serves (omega arith) (omega arith)

abbrev held : List (BootButtonState × ℕ)
held = (pressed, 3000) ∷ (pressed, 3000) ∷ (released, 100) ∷ (pressed, 6000) ∷ []

press_once_example :
    (count opens held (Pairing.new 5000 0 60000) ≤ presses released held)
    × (count clears held (Pairing.new 5000 0 60000) ≤ presses released held)
press_once_example = press_once held (Pairing.new 5000 0 60000)

abbrev waiting : BlePairingGesture
waiting = record {
  hold_millis = 5000;
  clear_hold_millis = 0;
  window_millis = 60000;
  pressed_millis = 0;
  opened_for_current_press = false;
  cleared_for_current_press = false;
  state = opened 250;
}

window_deadline_example :
    ((run (Gesture.idle (100 ∷ 100 ∷ 100 ∷ [])) waiting).state ≡ closed)
    × (count expiries (Gesture.idle (100 ∷ 100 ∷ 100 ∷ [])) waiting ≡ 1)
window_deadline_example = window_deadline (100 ∷ 100 ∷ 100 ∷ []) 250 waiting refl (omega arith)

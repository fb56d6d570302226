-- ===== src/Ble/Transfer/Reassembly.antt =====
-- A client of tasks/ble/transfer.rs that asks for fragment after fragment gets the record.
use native.Mathlib.Decide.{dec_lt}
use sleep_environment_monito.Prelude.{
  leb, le→leb, lt→leb, ℕ, zero, suc, ◌+◌, ◌-◌, ◌%◌, ◌^◌, ◌<◌, ◌≡◌, ◌≢◌, refl, ap, sym, ◌∙◌, List,
  [], ◌∷◌, ◌++◌, Option, none, some, max, if◌then◌else◌, Result, ok, err, u16_max, slice,
  saturating_add, arith, length, take, length-take, take-ge, eq_test, ne_test, le→ltb,
}
use sleep_environment_monito.Storage.Backlog.{StoredPayload, as_slice}
use sleep_environment_monito.Ble.Protocol.{
  ControlFrame, RecordFragment, request_fragment, new_fragment,
}
use sleep_environment_monito.Ble.Transfer.{
  BleTransferState, BleTransferError, Active, idle, active, fragment_for_request,
  fragment_of_active, fragment_len,
}
use sleep_environment_monito.Ble.Transfer.Delivery.{IsActive, IsWhole, length-slice_payload}

-- The client's request for the bytes behind those it has.
abbrev pub request_at : ℕ → ℕ → ℕ → ControlFrame
request_at sequence offset n = record {
  opcode = request_fragment;
  sequence = sequence;
  offset = offset;
  length = n;
}

-- An active record and the payload that it is about.
pub record Serves (p : StoredPayload) (a : Active) : Type 0 where
  pub session : IsActive a
  pub whole : IsWhole p
  pub same_sequence : p.sequence ≡ a.sequence
  pub same_length : p.payload_len ≡ a.total_len

module _ (p : StoredPayload) (a : Active) (n : ℕ) (v : Serves p a) (asked : n ≢ 0) where
  -- how far the next fragment reaches
  abbrev served : ℕ
  served = fragment_len p (request_at a.sequence a.delivered_until n)

  cut :
      new_fragment a.sequence a.delivered_until a.total_len
        (slice (as_slice p) a.delivered_until served)
      ≡ ok (record {
        sequence = a.sequence;
        offset = a.delivered_until;
        total_len = a.total_len;
        payload = slice (as_slice p) a.delivered_until served;
      })
  unfolding new_fragment
  cut =
      let exact =
        length-slice_payload p a.delivered_until served v.whole
          (omega (arith, v.session.within, v.same_length)) in
      ground (arith, exact, v.session.within, v.same_length)

  next : Active
  next = record a { delivered_until = a.delivered_until + served }

  reach : saturating_add u16_max a.delivered_until (served % 2 ^ 16) ≡ a.delivered_until + served
  reach = ground (arith, v.session.within, v.session.fits, v.same_length)

  furthest : max a.delivered_until (a.delivered_until + served) ≡ a.delivered_until + served
  furthest = omega arith

  fragment_next :
      a.delivered_until < a.total_len
      → fragment_for_request p (request_at a.sequence a.delivered_until n) (active a) ≡ (
        ok (record {
          sequence = a.sequence;
          offset = a.delivered_until;
          total_len = a.total_len;
          payload = slice (as_slice p) a.delivered_until served;
        }),
        active next,
      )
  unfolding fragment_for_request fragment_of_active next
  fragment_next more =
      rw
        (
          ne_test n 0 asked,
          eq_test a.sequence a.sequence refl,
          eq_test p.sequence a.sequence v.same_sequence,
          le→ltb p.payload_len a.delivered_until (omega (arith, v.same_length)),
          le→ltb a.total_len a.delivered_until (omega arith),
          le→ltb a.delivered_until a.delivered_until (omega arith),
          ne_test served 0 (omega (arith, v.same_length)),
          cut,
          fragment_of_active,
          fragment_for_request,
          reach,
          furthest,
        )
        refl

  next-Serves : Serves p next
  unfolding next
  next-Serves = record {
    session = record {
      within = omega (arith, v.session.within, v.same_length);
      fits = v.session.fits;
      whole = λ e. omega (arith, v.session.whole e, v.same_length);
      acked = v.session.acked;
    };
    whole = v.whole;
    same_sequence = v.same_sequence;
    same_length = v.same_length;
  }

abbrev received :
    (List ℕ → BleTransferState → Option (List ℕ))
    → List ℕ
    → Result BleTransferError RecordFragment × BleTransferState
    → Option (List ℕ)
received go got (err _, s) = none
received go got (ok f, s) = go (got ++ f.payload) s

-- A client that has `got` and asks for `n` bytes at a time until it has all of the record.
unfoldable pub download : ℕ → ℕ → StoredPayload → List ℕ → BleTransferState → Option (List ℕ)
download zero n p got s = none
download (suc fuel) n p got idle = none
download (suc fuel) n p got (active a) =
    let rest =
      received (download fuel n p) got
        (fragment_for_request p (request_at a.sequence (length got) n) (active a)) in
    if leb a.total_len (length got) then some got else rest

take_nil : (m : ℕ) → take {A = ℕ} m [] ≡ []
take_nil zero = refl
take_nil (suc m) = refl

slice-take : (xs : List ℕ) (d m : ℕ) → take d xs ++ slice xs d m ≡ take (d + m) xs
slice-take xs zero m = ap (λ k. take k xs) (omega arith)
slice-take [] (suc d) m = take_nil m ∙ sym (take_nil (suc d + m))
slice-take (x ∷ xs) (suc d) m =
    ap (λ l. x ∷ l) (slice-take xs d m) ∙ ap (λ k. take k (x ∷ xs)) {x = suc (d + m)} (omega arith)

length-as_slice : (p : StoredPayload) → IsWhole p → length (as_slice p) ≡ p.payload_len
unfolding as_slice
length-as_slice p w = omega (arith, length-take p.payload_len p.payload)

-- A client that has the first bytes of the active record, as many as were delivered, and asks for
-- the next `n` ones again and again, `n` not 0, gets all of its payload, in a round for each byte
-- that is left and one more.
pub download_lem :
    (fuel n : ℕ) (p : StoredPayload) (a : Active)
    → Serves p a
    → n ≢ 0
    → a.total_len - a.delivered_until < fuel
    → download fuel n p (take a.delivered_until (as_slice p)) (active a) ≡ some (as_slice p)
unfolding download next
download_lem zero n p a v asked h = absurd (omega arith)
download_lem (suc fuel) n p a v asked h =
    let whole = length-as_slice p v.whole in
    let have : length (take a.delivered_until (as_slice p)) ≡ a.delivered_until =
      omega (
        arith,
        whole,
        length-take a.delivered_until (as_slice p),
        v.session.within,
        v.same_length,
      ) in
    elim (dec_lt a.delivered_until a.total_len) [
      | no done ↦
          rw (have, le→leb a.total_len a.delivered_until (omega arith))
            (ap some (take-ge a.delivered_until (as_slice p) (omega (arith, whole, v.same_length))))
      | yes more ↦
          rw
            (
              have,
              lt→leb a.total_len a.delivered_until more,
              fragment_next p a n v asked more,
              slice-take (as_slice p) a.delivered_until (served p a n v asked),
              download,
            )
            (download_lem fuel n p (next p a n v asked) (next-Serves p a n v asked) asked
              (omega (arith, v.same_length)))
    ]

-- ===== src/Ble/PairingTask/Clear.antt =====
-- What a clear of the keys by the button leaves, in tasks/ble/runtime.rs and auth.rs.
use mathlib.Core.Path.{◌∙◌}
use sleep_environment_monito.Prelude.{
  ℕ, zero, suc, ◌%◌, ◌≤◌, ◌<◌, ◌≡◌, refl, ap, inl, inr, List, [], ◌∷◌, Bool, true, false,
  Bool-cases, arith, ok, err, length, take, length-replicate,
}
use sleep_environment_monito.Flash.{FlashStorage, IsNor, erased}
use sleep_environment_monito.Auth.Record.{missing, inspect_auth_header, all_erased}
use sleep_environment_monito.Auth.Store.{clear_auth_records, load_auth_records, load_inspected}
use sleep_environment_monito.Ble.Pairing.{
  BootButtonState, closed, opened, BlePairingEvent, tick_pairing_window,
  auth_records_clear_requested, BlePairingGesture, open_window, update,
}
use sleep_environment_monito.Ble.Keys.{
  Workspace, new, empty_records, is_encrypted, Connection, insufficient_authorisation,
  ensure_ble_authorized, saved_auth_matches_connection, clear_saved_ble_auth_records,
  restore_ble_auth_records, should_auto_open_pairing_window_on_boot, auth_record_capacity,
  auth_records_version, auth_records_checksum, ble_auth_workspace_len,
}
use sleep_environment_monito.Ble.PairingTask.{
  publish_pairing_snapshot, after_event, turn, pairing_button_poll_millis,
}

-- A header that is erased is no header.
erased_header : inspect_auth_header (erased 32) auth_records_version auth_records_checksum ≡ missing
unfolding inspect_auth_header all_erased
erased_header = refl

take-erased : (n m : ℕ) → n ≤ m → take n (erased m) ≡ erased n
take-erased zero m h = refl
take-erased (suc n) zero h = absurd (omega (arith, h))
take-erased (suc n) (suc m) h = ap (λ l. 255 ∷ l) (take-erased n m (omega (arith, h)))

-- Without valid keys and with the window closed nobody is let in.
keyless_refused :
    (c : Connection) (w : Workspace)
    → w.status ≡ missing
    → ensure_ble_authorized closed c w ≡ err insufficient_authorisation
unfolding ensure_ble_authorized saved_auth_matches_connection
keyless_refused c w e = elim (Bool-cases (is_encrypted c.security_level)) [
  | inl l ↦ rw (l, e, ensure_ble_authorized, saved_auth_matches_connection) refl
  | inr l ↦ rw (l, e, ensure_ble_authorized) refl
]

-- The window of a gesture stays as long as it is.
update_window :
    (button : BootButtonState) (elapsed : ℕ) (g : BlePairingGesture)
    → (update button elapsed g).1.window_millis ≡ g.window_millis
unfolding update tick_pairing_window open_window
update_window button elapsed g = ground arith

module _ {S : Type 0} (F : FlashStorage S) (IsValid : S → Type 0) (bytes : S → List ℕ)
    (nor : IsNor F IsValid bytes) where
  module _ (s : S) (valid_flash : IsValid s) (has_sectors : 0 < F.sector_size s)
      (sectors : length (bytes s) % F.sector_size s ≡ 0) (room : 32 ≤ length (bytes s)) where
    cleared : S
    cleared = (F.erase s 0 (F.len s)).1

    cleared_ok : (F.erase s 0 (F.len s)).0 ≡ ok tt
    cleared_ok = rw (nor.size s) (nor.erase_ok s valid_flash (omega arith) has_sectors sectors)

    cleared_bytes : bytes cleared ≡ erased (length (bytes s))
    unfolding cleared
    cleared_bytes =
        ap (λ n. bytes (F.erase s 0 n).1) (nor.size s)
        ∙ nor.erase_bytes s valid_flash (omega arith) has_sectors sectors

    cleared_valid : IsValid cleared
    unfolding cleared
    cleared_valid = nor.erase_valid s 0 (F.len s) valid_flash

    cleared_len : length (bytes cleared) ≡ length (bytes s)
    cleared_len = ap length cleared_bytes ∙ length-replicate {A = ℕ} (length (bytes s)) 255

    clears : clear_auth_records F s ≡ (ok tt, cleared)
    unfolding clear_auth_records cleared
    clears = rw (cleared_ok, clear_auth_records) refl

    header_read : F.read cleared 0 32 ≡ ok (erased 32)
    header_read =
        nor.read_lem cleared 0 32 cleared_valid (omega arith) (omega arith)
          (omega (arith, cleared_len))
        ∙ ap (λ l. ok (take 32 l)) cleared_bytes
        ∙ ap ok (take-erased 32 (length (bytes s)) room)

    loads_nothing :
        (capacity scratch : ℕ)
        → load_auth_records F auth_records_version auth_records_checksum capacity scratch cleared
          ≡ ok (record { status = missing; record_count = 0 }, [])
    unfolding load_auth_records load_inspected
    loads_nothing capacity scratch =
        rw (header_read, load_auth_records, erased_header, load_inspected) refl

    clears_keys : (w : Workspace) → clear_saved_ble_auth_records F w s ≡ (true, new, cleared)
    unfolding clear_saved_ble_auth_records new
    clears_keys w = rw (clears, clear_saved_ble_auth_records) (rw clears refl)

    restores_nothing :
        (w : Workspace)
        → restore_ble_auth_records F w cleared
          ≡ (record { records = empty_records; status = missing; record_count = 0 }, [])
    unfolding restore_ble_auth_records
    restores_nothing w =
        rw (loads_nothing auth_record_capacity ble_auth_workspace_len, restore_ble_auth_records)
          refl

    opens_on_boot :
        (enabled : Bool) → should_auto_open_pairing_window_on_boot F enabled cleared ≡ enabled
    unfolding should_auto_open_pairing_window_on_boot
    opens_on_boot true =
        rw
          (
            loads_nothing auth_record_capacity ble_auth_workspace_len,
            should_auto_open_pairing_window_on_boot,
          )
          refl
    opens_on_boot false =
        rw
          (
            loads_nothing auth_record_capacity ble_auth_workspace_len,
            should_auto_open_pairing_window_on_boot,
          )
          refl

    -- `event` and `g` are what the gesture gives.
    event_clears :
        (event : BlePairingEvent) (g : BlePairingGesture) (w : Workspace)
        → event ≡ auth_records_clear_requested
        → after_event F event g w s ≡ ((open_window g).1, new, cleared)
    unfolding after_event
    event_clears event g w e = rw (e, after_event, clears_keys w) refl

  -- On a valid NOR flash of whole sectors with room for a header, a turn whose gesture asks to
  -- clear the keys publishes an open window of its whole length. The keys in memory are none then,
  -- and a boot restores none and opens the window by itself if the build has it so; with the window
  -- closed, no client is let in, before the boot and after it.
  pub turn_clears :
      (button : BootButtonState) (g : BlePairingGesture) (w blank : Workspace) (s : S)
      (c : Connection) (enabled : Bool)
      → IsValid s
      → 0 < F.sector_size s
      → length (bytes s) % F.sector_size s ≡ 0
      → 32 ≤ length (bytes s)
      → (update button pairing_button_poll_millis g).0 ≡ auth_records_clear_requested
      → ((turn F button g w s).0.pairing_state ≡ opened g.window_millis)
        × ((turn F button g w s).2 ≡ new)
        × ((restore_ble_auth_records F blank (turn F button g w s).3).1 ≡ [])
        × (should_auto_open_pairing_window_on_boot F enabled (turn F button g w s).3 ≡ enabled)
        × (ensure_ble_authorized closed c (turn F button g w s).2 ≡ err insufficient_authorisation)
        × (ensure_ble_authorized closed c
              (restore_ble_auth_records F blank (turn F button g w s).3).0
            ≡ err insufficient_authorisation)
  unfolding turn publish_pairing_snapshot open_window new
  turn_clears button g w blank s c enabled valid_flash has_sectors sectors room asked =
      let updated : BlePairingGesture = (update button pairing_button_poll_millis g).1 in
      rw
        (
          event_clears s valid_flash has_sectors sectors room
              (update button pairing_button_poll_millis g).0 updated w asked,
          turn,
        )
        (
          ap opened (update_window button pairing_button_poll_millis g),
          refl,
          ap (λ x. x.1) (restores_nothing s valid_flash has_sectors sectors room blank),
          opens_on_boot s valid_flash has_sectors sectors room enabled,
          keyless_refused c new refl,
          rw (restores_nothing s valid_flash has_sectors sectors room blank) (
              keyless_refused c
                (record { records = empty_records; status = missing; record_count = 0 }) refl),
        )

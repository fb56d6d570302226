-- ===== src/Auth/Upsert/Laws.antt =====
-- What storage/ble_auth/upsert.rs promises.
use mathlib.Core.Path.{subst}
use sleep_environment_monito.Prelude.{
  ℕ, suc, ◌+◌, ◌≤◌, ◌<◌, ◌≡◌, ◌≢◌, refl, sym, inl, inr, List, [], ◌∷◌, Option, none, some, arith,
  ltb, min, Bool-cases, ne_test, length, take, set, get_or, length-set, length-take, ltb→lt,
}
use sleep_environment_monito.Queue.Cells.{get_or-set_self, get_or-set_ne}
use sleep_environment_monito.Auth.Record.{BleAuthRecord, empty_record}
use sleep_environment_monito.Auth.Upsert.{
  BleAuthRecordUpsert, updated, appended, replaced_oldest, no_capacity, auth_records_match,
  find_auth_record_index, upsert_at, upsert_auth_record,
}

abbrev IsBelow : Option ℕ → ℕ → Type 0
IsBelow none n = Unit
IsBelow (some index) n = index < n

IsBelow-next :
    (o : Option ℕ) (n : ℕ)
    → IsBelow o n
    → IsBelow (elim o as (λ x. Option ℕ) [ none ↦ none | some index ↦ some (index + 1) ]) (suc n)
IsBelow-next none n h = tt
IsBelow-next (some index) n h = omega (arith, h)

find-IsBelow :
    (records : List BleAuthRecord) (candidate : BleAuthRecord)
    → IsBelow (find_auth_record_index records candidate) (length records)
unfolding find_auth_record_index
find-IsBelow [] candidate = tt
find-IsBelow (r ∷ records) candidate = elim (Bool-cases (auth_records_match r candidate)) [
  | inl e ↦ rw e (omega arith)
  | inr e ↦ rw e (
      IsBelow-next (find_auth_record_index records candidate) (length records)
        (find-IsBelow records candidate))
]

-- The place of the candidate.
abbrev pub place : BleAuthRecordUpsert → Option ℕ
place (updated index) = some index
place (appended index) = some index
place (replaced_oldest index) = some index
place no_capacity = none

-- The array after a write at `index`, with `count` records in use.
pub record Placed (records : List BleAuthRecord) (candidate : BleAuthRecord) (index count : ℕ)
    (records' : List BleAuthRecord) : Type 0 where
  pub used : index < count
  pub within : count ≤ length records
  pub same_length : length records' ≡ length records
  pub at_place : get_or records' index empty_record ≡ candidate
  pub elsewhere :
      (j : ℕ) → j ≢ index → get_or records' j empty_record ≡ get_or records j empty_record

set-Placed :
    (records : List BleAuthRecord) (candidate : BleAuthRecord) (index count : ℕ)
    → index < count
    → count ≤ length records
    → Placed records candidate index count (set records index candidate)
set-Placed records candidate index count h k = record {
  used = h;
  within = k;
  same_length = length-set records index candidate;
  at_place = get_or-set_self records index candidate empty_record (omega (arith, h, k));
  elsewhere = λ j ne. get_or-set_ne records index j candidate empty_record (λ e. ne (sym e));
}

abbrev AtPlace :
    List BleAuthRecord → BleAuthRecord → (ℕ × BleAuthRecordUpsert) × List BleAuthRecord → Type 0
AtPlace records candidate result =
    (index : ℕ) × (place result.0.1 ≡ some index)
    × Placed records candidate index result.0.0 result.1

upsert_at-AtPlace :
    (records : List BleAuthRecord) (active : ℕ) (candidate : BleAuthRecord) (found : Option ℕ)
    → length records ≢ 0
    → active ≤ length records
    → IsBelow found active
    → AtPlace records candidate (upsert_at records active candidate found)
unfolding upsert_at
upsert_at-AtPlace records active candidate (some index) some_room h below =
    (index, refl, set-Placed records candidate index active below h)
upsert_at-AtPlace records active candidate none some_room h below =
    elim (Bool-cases (ltb active (length records))) [
      | inl more ↦ rw more (
        active,
        refl,
        set-Placed records candidate active (active + 1) (omega arith)
            (omega (arith, ltb→lt active (length records) more)),
      )
      | inr full ↦
          rw (full, ne_test (length records) 0 some_room)
            (0, refl, set-Placed records candidate 0 active (ground (arith, full, some_room)) h)
    ]

-- Into an array that is not empty, the candidate is put at the place that the result names, which
-- is in use then; every other place keeps its record, the array its length, and no more records
-- are in use than it has.
pub upsert_places :
    (records : List BleAuthRecord) (record_count : ℕ) (candidate : BleAuthRecord)
    → length records ≢ 0
    → (index : ℕ) × (place (upsert_auth_record records record_count candidate).0.1 ≡ some index)
      × Placed records candidate index
          (upsert_auth_record records record_count candidate).0.0
          (upsert_auth_record records record_count candidate).1
unfolding upsert_auth_record
upsert_places records record_count candidate some_room =
    let active = min record_count (length records) in
    upsert_at-AtPlace records active candidate
      (find_auth_record_index (take active records) candidate) some_room (omega arith)
      (subst (IsBelow (find_auth_record_index (take active records) candidate))
        (omega (arith, length-take active records)) (find-IsBelow (take active records) candidate))

-- ===== src/Spool/Backed/Recover.antt =====
-- firmware/src/storage/spool/flash.rs: `recover_with_report`, the scan of the log in the flash, and
-- the array of optional records that it fills.
-- The scan takes fuel. A round that does not end it moves the cursor on, so that a round for each
-- byte of the region is enough: `none` is out of fuel.
use sleep_environment_monito.Prelude.{
  ℕ, zero, suc, ◌+◌, ◌-◌, List, [], ◌∷◌, ◌++◌, Bool, true, ◌&&◌, Option, none, some, leb, ltb, ◌==◌,
  if◌then◌else◌, Result, ok, err, length, set, take, drop, replicate, max,
}
use sleep_environment_monito.Prelude.Bytes.{le_at}
use sleep_environment_monito.Flash.{FlashStorage}
use sleep_environment_monito.Spool.Codec.{
  SpoolError, bad_magic, buffer_too_small, flash, flash_entry_buffer_len, flash_write_alignment,
  record_magic, ack_magic, encoded_record_len, encoded_record_header_len, encoded_log_entry_len,
  decode_record, decode_ack,
}
use sleep_environment_monito.Spool.Memory
use sleep_environment_monito.Spool.Memory.{StoredRecord, new_record, next_of}
use sleep_environment_monito.Spool.Backed.{BackedSpool}

abbrev pub Slots : Type 0
Slots = List (Option StoredRecord)

-- `slice.rotate_left(1)`
abbrev pub rotate_left {ℓ} : {A : Type ℓ} → List A → List A
rotate_left [] = []
rotate_left (x ∷ xs) = xs ++ x ∷ []

-- The first free slot takes the record; `none` if no slot is free.
unfoldable pub fill_slot : Slots → StoredRecord → Option Slots
fill_slot [] r = none
fill_slot (none ∷ slots) r = some (some r ∷ slots)
fill_slot (some x ∷ slots) r = elim (fill_slot slots r) [
  | none ↦ none
  | some slots' ↦ some (some x ∷ slots')
]

unfoldable pub push_stored_record : ℕ → Slots → StoredRecord → Slots
unfolding fill_slot
push_stored_record capacity slots r = if capacity == 0 then slots else elim (fill_slot slots r) [
  | some slots' ↦ slots'
  | none ↦ set (rotate_left slots) (capacity - 1) (some r)
]

-- `current.map_or(sequence, |current| current.max(sequence))`
abbrev pub max_sequence : Option ℕ → ℕ → ℕ
max_sequence none sequence = sequence
max_sequence (some current) sequence = max current sequence

-- The place of the first record with the sequence.
unfoldable pub position : Slots → ℕ → Option ℕ
position [] sequence = none
position (none ∷ slots) sequence = elim (position slots sequence) [
  | none ↦ none
  | some i ↦ some (i + 1)
]
position (some r ∷ slots) sequence =
    let later : Option ℕ = elim (position slots sequence) [ none ↦ none | some i ↦ some (i + 1) ] in
    if r.sequence == sequence then some 0 else later

unfoldable pub remove_stored_record : ℕ → Slots → ℕ → Slots
unfolding position
remove_stored_record capacity slots sequence = elim (position slots sequence) [
  | none ↦ slots
  | some index ↦ set (take index slots ++ rotate_left (drop index slots)) (capacity - 1) none
]

-- `records.into_iter().flatten()`
unfoldable pub flatten : Slots → List StoredRecord
flatten [] = []
flatten (none ∷ slots) = flatten slots
flatten (some r ∷ slots) = r ∷ flatten slots

unfoldable pub all_erased : List ℕ → Bool
all_erased [] = true
all_erased (b ∷ bytes) = b == 255 && all_erased bytes

-- The variables of the loop; `corrupt` is `report.corrupt_record_count`.
pub record Scan : Type 0 where
  pub slots : Slots
  pub seen : Option ℕ
  pub cursor : ℕ
  pub corrupt : ℕ

pub data Round : Type 0 where
  stop : Result SpoolError Scan → Round
  go : Scan → Round

abbrev pub count_corrupt : Scan → Scan
count_corrupt sc = record sc { corrupt = sc.corrupt + 1 }

pub record FlashRecoverReport : Type 0 where
  pub recovered_record_count : ℕ
  pub corrupt_record_count : ℕ

module _ (capacity size : ℕ) where
  -- The `match magic` on an entry of `len` bytes.
  unfoldable pub scan_entry : Scan → ℕ → List ℕ → Round
  scan_entry sc len entry =
      let magic = le_at entry 0 4 in
      if magic == record_magic
      then elim (decode_record entry) [
        | err _ ↦ stop (ok (count_corrupt sc))
        | ok r ↦ elim (new_record size r.sequence r.flags r.payload) [
          | err e ↦ stop (err e)
          | ok stored ↦ go (record sc {
            slots = push_stored_record capacity sc.slots stored;
            seen = some (max_sequence sc.seen r.sequence);
            cursor = sc.cursor + len;
          })
        ]
      ]
      else if magic == ack_magic
      then elim (decode_ack entry) [
        | err _ ↦ stop (ok (count_corrupt sc))
        | ok ack ↦ go (record sc {
          slots = remove_stored_record capacity sc.slots ack.sequence;
          seen = some (max_sequence sc.seen ack.sequence);
          cursor = sc.cursor + len;
        })
      ]
      else stop (ok (count_corrupt sc))

module _ {S : Type 0} (F : FlashStorage S) (capacity size : ℕ) where
  unfoldable pub scan_round : S → Scan → Round
  unfolding scan_entry all_erased
  scan_round s sc =
      if ltb (F.len s) (sc.cursor + 4)
      then stop (ok sc)
      else elim (F.read s sc.cursor flash_write_alignment) [
        | err e ↦ stop (err (flash e))
        | ok head ↦
            if all_erased head
            then stop (ok sc)
            else if ltb (F.len s) (sc.cursor + encoded_record_header_len)
            then stop (ok (count_corrupt sc))
            else elim (F.read s sc.cursor encoded_record_header_len) [
              | err e ↦ stop (err (flash e))
              | ok header ↦ elim (encoded_log_entry_len header) [
                | ok len ↦
                    if leb (sc.cursor + len) (F.len s) && leb len flash_entry_buffer_len
                    then elim (F.read s sc.cursor len) [
                      | err e ↦ stop (err (flash e))
                      | ok entry ↦ scan_entry capacity size sc len entry
                    ]
                    else stop (ok (count_corrupt sc))
                | err bad_magic ↦
                    go (record (count_corrupt sc) { cursor = sc.cursor + flash_write_alignment })
                | err _ ↦ stop (ok (count_corrupt sc))
              ]
            ]
      ]

  unfoldable pub scan : ℕ → S → Scan → Option (Result SpoolError Scan)
  scan zero s sc = none
  scan (suc fuel) s sc = elim (scan_round s sc) [ stop r ↦ some r | go sc' ↦ scan fuel s sc' ]

  abbrev pub blank : Scan
  blank = record { slots = replicate capacity none; seen = none; cursor = 0; corrupt = 0 }

  abbrev pub recovered : Scan → BackedSpool × FlashRecoverReport
  recovered sc = (
    record {
      spool =
          Memory.recover_with_next_sequence capacity (flatten sc.slots)
            (elim sc.seen [ none ↦ 0 | some sequence ↦ next_of sequence ]);
      write_offset = sc.cursor;
    },
    record {
      recovered_record_count = length (flatten sc.slots);
      corrupt_record_count = sc.corrupt;
    },
  )

  -- `none` does not happen: `scan` has enough fuel.
  unfoldable pub recover_with_report :
      S → Option (Result SpoolError (BackedSpool × FlashRecoverReport))
  unfolding scan flatten
  recover_with_report s = elim (encoded_record_len size) [
    | err e ↦ some (err e)
    | ok longest ↦
        if ltb flash_entry_buffer_len longest
        then some (err buffer_too_small)
        else elim (scan (F.len s + 1) s blank) [
          | none ↦ none
          | some (err e) ↦ some (err e)
          | some (ok sc) ↦ some (ok (recovered sc))
        ]
  ]

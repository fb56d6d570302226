-- ===== src/Spool/Log/Entries.antt =====
-- The entries of the log in the flash, and a round of the scan at each of them.
use native.Mathlib.Decide.{dec_lt}
use sleep_environment_monito.Prelude.{
  ℕ, ◌+◌, ◌%◌, ◌^◌, ◌≤◌, ◌<◌, ◌≡◌, refl, ap, sym, ◌∙◌, List, [], ◌∷◌, ◌++◌, false, some, arith,
  eq_test, ne_test, le→ltb, lt→ltb, le→leb, take-replicate, ok, length, slice, take, drop,
  replicate, length-append, length-replicate, append_assoc, drop-length-append, take-length-append,
}
use sleep_environment_monito.Prelude.Bytes.{to_le, le_at}
use sleep_environment_monito.Flash.{FlashStorage, IsNor}
use sleep_environment_monito.Spool.Codec.{
  record_magic, ack_magic, record_header, ack_header, encoded_log_entry_len,
}
use sleep_environment_monito.Spool.Codec.RoundTrip.{
  IsRecord, record_bytes, align_up_bounds, length-record_bytes, decode-encoded,
}
use sleep_environment_monito.Spool.Codec.Acks.{ack_bytes, length-ack_bytes, decode_ack-bytes}
use sleep_environment_monito.Spool.Codec.Lengths.{
  entry_len-record, entry_len-ack, magic-record_header, magic-ack_header,
}
use sleep_environment_monito.Spool.Memory.{StoredRecord, new_record, as_record}
use sleep_environment_monito.Spool.Backed.Recover.{
  Scan, stop, go, scan_entry, scan_round, push_stored_record, remove_stored_record, max_sequence,
  all_erased,
}
use sleep_environment_monito.Spool.Log.{Entry, put, ack}

-- A record as `StoredRecord::new` builds it, of integers in their ranges.
pub record IsStored (size : ℕ) (r : StoredRecord) : Type 0 where
  pub built : new_record size r.sequence r.flags (as_record r).payload ≡ ok r
  pub fits : IsRecord (as_record r)

abbrev pub IsEntry : ℕ → Entry → Type 0
IsEntry size (put r) = IsStored size r
IsEntry size (ack sequence) = sequence < 2 ^ 64

abbrev pub entry_sequence : Entry → ℕ
entry_sequence (put r) = r.sequence
entry_sequence (ack sequence) = sequence

unfoldable pub entry_bytes : Entry → List ℕ
entry_bytes (put r) = record_bytes (as_record r)
entry_bytes (ack sequence) = ack_bytes sequence

-- A built record's payload is the part of the array that the length names, and fits the array.
pub payload-IsStored :
    (size : ℕ) (r : StoredRecord)
    → IsStored size r
    → (length (as_record r).payload ≤ size) × (length (as_record r).payload ≡ r.payload_len)
unfolding new_record
payload-IsStored size r v = ground (arith, v.built)

-- Entries are whole words, and fit the buffer of the scan.
pub entry_bytes_bounds :
    (size : ℕ) (e : Entry)
    → size ≤ 490
    → IsEntry size e
    → (length (entry_bytes e) % 4 ≡ 0)
      × (16 ≤ length (entry_bytes e))
      × (length (entry_bytes e) ≤ 512)
unfolding entry_bytes
entry_bytes_bounds size (put r) hs v = omega (
  arith,
  length-record_bytes (as_record r),
  align_up_bounds (22 + length (as_record r).payload),
  payload-IsStored size r v,
)
entry_bytes_bounds size (ack sequence) hs v = omega (arith, length-ack_bytes sequence)

-- What the scan does with an entry.
abbrev pub scanned : ℕ → Scan → Entry → Scan
scanned capacity sc (put r) = record sc {
  slots = push_stored_record capacity sc.slots r;
  seen = some (max_sequence sc.seen r.sequence);
  cursor = sc.cursor + length (entry_bytes (put r));
}
scanned capacity sc (ack sequence) = record sc {
  slots = remove_stored_record capacity sc.slots sequence;
  seen = some (max_sequence sc.seen sequence);
  cursor = sc.cursor + length (entry_bytes (ack sequence));
}

-- The first word of an entry is not erased.
first_word : (e : Entry) (rest : List ℕ) → all_erased (take 4 (entry_bytes e ++ rest)) ≡ false
unfolding entry_bytes record_header ack_header to_le all_erased
first_word (put r) rest = refl
first_word (ack sequence) rest = refl

entry_len_found :
    (size : ℕ) (e : Entry) (rest : List ℕ)
    → size ≤ 490
    → IsEntry size e
    → encoded_log_entry_len (take 24 (entry_bytes e ++ rest)) ≡ ok (length (entry_bytes e))
unfolding entry_bytes
entry_len_found size (put r) rest hs v =
    let r' = as_record r in
    ap (λ l. encoded_log_entry_len (take 24 l)) (append_assoc (record_header r') _ rest)
    ∙ entry_len-record r' _ v.fits.payload_fits
    ∙ ap ok (sym (length-record_bytes r'))
entry_len_found size (ack sequence) rest hs v =
    ap (λ l. encoded_log_entry_len (take 24 l)) (append_assoc (ack_header sequence) _ rest)
    ∙ entry_len-ack sequence _
    ∙ ap ok (sym (length-ack_bytes sequence))

scan_entry_lem :
    (capacity size : ℕ) (sc : Scan) (e : Entry)
    → size ≤ 490
    → IsEntry size e
    → scan_entry capacity size sc (length (entry_bytes e)) (entry_bytes e)
      ≡ go (scanned capacity sc e)
unfolding scan_entry entry_bytes
scan_entry_lem capacity size sc (put r) hs v =
    rw
      (
        eq_test (le_at (record_bytes (as_record r)) 0 4) record_magic
            (magic-record_header (as_record r) _),
        decode-encoded (as_record r) _ v.fits,
        v.built,
        scan_entry,
      )
      refl
scan_entry_lem capacity size sc (ack sequence) hs v =
    let magic = magic-ack_header sequence (255 ∷ 255 ∷ []) in
    rw
      (
        ne_test (le_at (ack_bytes sequence) 0 4) record_magic (omega (arith, magic)),
        eq_test (le_at (ack_bytes sequence) 0 4) ack_magic magic,
        decode_ack-bytes sequence (255 ∷ 255 ∷ []) v,
        scan_entry,
      )
      refl

module _ {S : Type 0} (F : FlashStorage S) (IsValid : S → Type 0) (bytes : S → List ℕ)
    (nor : IsNor F IsValid bytes) where
  -- With 24 bytes of the region left, a round at an entry takes it over and goes on behind it.
  pub scan_round-entry :
      (capacity size : ℕ) (s : S) (sc : Scan) (before rest : List ℕ) (e : Entry)
      → IsValid s
      → size ≤ 490
      → IsEntry size e
      → bytes s ≡ before ++ (entry_bytes e ++ rest)
      → sc.cursor ≡ length before
      → length before % 4 ≡ 0
      → sc.cursor + 24 ≤ length (bytes s)
      → scan_round F capacity size s sc ≡ go (scanned capacity sc e)
  unfolding scan_round
  scan_round-entry capacity size s sc before rest e v hs he layout at aligned room =
      rw
        (
          le→ltb (F.len s) (sc.cursor + 4) (omega (arith, nor.size s)),
          nor.read_lem s sc.cursor 4 v (omega arith) (omega arith) (omega arith),
          here 4,
          first_word e rest,
          le→ltb (F.len s) (sc.cursor + 24) (omega (arith, nor.size s)),
          nor.read_lem s sc.cursor 24 v (omega arith) (omega arith) room,
          here 24,
          entry_len_found size e rest hs he,
          le→leb (sc.cursor + length (entry_bytes e)) (F.len s) (omega (arith, nor.size s, inside)),
          le→leb (length (entry_bytes e)) 512 bounds.2,
          nor.read_lem s sc.cursor (length (entry_bytes e)) v (omega arith) bounds.0 inside,
          here (length (entry_bytes e)),
          take-length-append (length (entry_bytes e)) (entry_bytes e) rest refl,
          scan_round,
        )
        (scan_entry_lem capacity size sc e hs he)
    where
      bounds :
          (length (entry_bytes e) % 4 ≡ 0)
          × (16 ≤ length (entry_bytes e))
          × (length (entry_bytes e) ≤ 512)
      bounds = entry_bytes_bounds size e hs he

      inside : sc.cursor + length (entry_bytes e) ≤ length (bytes s)
      inside = omega (
        arith,
        ap length layout,
        length-append before (entry_bytes e ++ rest),
        length-append (entry_bytes e) rest,
      )

      here : (n : ℕ) → slice (bytes s) sc.cursor n ≡ take n (entry_bytes e ++ rest)
      here n =
          ap (λ l. take n (drop sc.cursor l)) layout
          ∙ ap (take n) (drop-length-append sc.cursor before (entry_bytes e ++ rest) at)

  -- A round at erased cells ends the scan, and so does one with less than a word left.
  pub scan_round-erased :
      (capacity size : ℕ) (s : S) (sc : Scan) (before : List ℕ) (free : ℕ)
      → IsValid s
      → bytes s ≡ before ++ replicate free 255
      → sc.cursor ≡ length before
      → length before % 4 ≡ 0
      → scan_round F capacity size s sc ≡ stop (ok sc)
  unfolding scan_round
  scan_round-erased capacity size s sc before free v layout at aligned = elim (dec_lt free 4) [
    | yes few ↦ rw (lt→ltb (F.len s) (sc.cursor + 4) (omega (arith, whole)), scan_round) refl
    | no many ↦
        rw
          (
            le→ltb (F.len s) (sc.cursor + 4) (omega (arith, whole)),
            nor.read_lem s sc.cursor 4 v (omega arith) (omega arith)
                (omega (arith, whole, nor.size s)),
            ap (λ l. take 4 (drop sc.cursor l)) layout,
            drop-length-append sc.cursor before (replicate free 255) at,
            take-replicate {A = ℕ} 4 free 255 (omega arith),
            scan_round,
          )
          refl
  ]
    where
      whole : F.len s ≡ sc.cursor + free
      whole = omega (
        arith,
        nor.size s,
        ap length layout,
        length-append before (replicate free 255),
        length-replicate {A = ℕ} free 255,
      )

-- ===== src/Spool/Log/Write.antt =====
-- Writing an entry behind the log in the flash.
use mathlib.Core.Path.{subst}
use sleep_environment_monito.Prelude.{
  ℕ, zero, suc, ◌+◌, ◌-◌, ◌%◌, ◌≤◌, ◌≡◌, refl, ap, ap₂, sym, ◌∙◌, List, [], ◌∷◌, ◌++◌, arith, ok,
  length, slice, take, drop, replicate, All, All-append, length-append, length-replicate,
  append_assoc, append-nil, drop-length-append, take-length-append, take-replicate, drop-replicate,
  drop-drop,
}
use sleep_environment_monito.Prelude.Bytes.{IsByte, IsBytes, to_le, to_le-IsBytes}
use sleep_environment_monito.Flash.{FlashStorage, IsNor, overwrite, erased}
use sleep_environment_monito.Spool.Codec.{
  record_magic, ack_magic, record_header_len, record_header, ack_header,
}
use sleep_environment_monito.Spool.Crc.{crc32}
use sleep_environment_monito.Spool.Memory.{as_record}
use sleep_environment_monito.Spool.Log.{Entry, put, ack}
use sleep_environment_monito.Spool.Log.Entries.{IsEntry, entry_bytes, entry_bytes_bounds}
use sleep_environment_monito.Spool.Log.Recovery.{log_bytes, Readable}

replicate-IsBytes : (n : ℕ) → IsBytes (replicate n 255)
replicate-IsBytes zero = tt
replicate-IsBytes (suc n) = (omega arith, replicate-IsBytes n)

-- Entries are bytes.
entry-IsBytes : (size : ℕ) (e : Entry) → IsEntry size e → IsBytes (entry_bytes e)
unfolding entry_bytes record_header ack_header
entry-IsBytes size (put r) v =
    let r' = as_record r in
    All-append IsByte (record_header r') _
      (All-append IsByte (to_le 4 record_magic) _ (to_le-IsBytes 4 record_magic) (
        (omega arith),
        (
          v.fits.flags_fit,
          All-append IsByte (to_le 2 record_header_len) _ (to_le-IsBytes 2 record_header_len) (
              All-append IsByte (to_le 8 r'.sequence) _ (to_le-IsBytes 8 r'.sequence) (
                All-append IsByte (to_le 2 (length r'.payload)) _
                  (to_le-IsBytes 2 (length r'.payload)) (to_le-IsBytes 4 (crc32 r'.payload)))),
        ),
      ))
      (All-append IsByte r'.payload _ v.fits.payload_bytes (replicate-IsBytes _))
entry-IsBytes size (ack sequence) v =
    All-append IsByte (ack_header sequence) _
      (All-append IsByte (to_le 4 ack_magic) _ (to_le-IsBytes 4 ack_magic)
        ((omega arith), ((omega arith), to_le-IsBytes 8 sequence)))
      ((omega arith), ((omega arith), tt))

pub log_bytes-append :
    (log : List Entry) (e : Entry) → log_bytes (log ++ e ∷ []) ≡ log_bytes log ++ entry_bytes e
log_bytes-append [] e = append-nil (entry_bytes e)
log_bytes-append (d ∷ log) e =
    ap (λ l. entry_bytes d ++ l) (log_bytes-append log e)
    ∙ sym (append_assoc (entry_bytes d) (log_bytes log) (entry_bytes e))

pub Readable-append :
    (total at : ℕ) (log : List Entry) (e : Entry)
    → Readable total at log
    → at + length (log_bytes log) + 24 ≤ total
    → Readable total at (log ++ e ∷ [])
Readable-append total at [] e h room = (omega arith, tt)
Readable-append total at (d ∷ log) e h room = (
  h.0,
  Readable-append total (at + length (entry_bytes d)) log e h.1
      (omega (arith, length-append (entry_bytes d) (log_bytes log))),
)

pub log_aligned :
    (size : ℕ) (log : List Entry)
    → size ≤ 490
    → All (IsEntry size) log
    → length (log_bytes log) % 4 ≡ 0
log_aligned size [] hs es = refl
log_aligned size (e ∷ log) hs es = omega (
  arith,
  entry_bytes_bounds size e hs es.0,
  log_aligned size log hs es.1,
  length-append (entry_bytes e) (log_bytes log),
)

-- A list with erased cells behind it, written over where they begin.
overwrite_end :
    (xs new : List ℕ) (free at : ℕ)
    → at ≡ length xs
    → overwrite (xs ++ replicate free 255) at new ≡ (xs ++ new) ++ replicate (free - length new) 255
overwrite_end xs new free at h =
    ap₂ (λ a b. a ++ (new ++ b)) (take-length-append at xs (replicate free 255) h)
      (sym (drop-drop at (length new) (xs ++ replicate free 255))
        ∙ ap (drop (length new)) (drop-length-append at xs (replicate free 255) h)
        ∙ drop-replicate {A = ℕ} (length new) free 255)
    ∙ sym (append_assoc xs new _)

module _ {S : Type 0} (F : FlashStorage S) (IsValid : S → Type 0) (bytes : S → List ℕ)
    (nor : IsNor F IsValid bytes) (size : ℕ) (small : size ≤ 490) where
  -- The region holds a log that the scan can read, and is erased behind it.
  pub record Holds (s : S) (log : List Entry) : Type 0 where
    pub valid : IsValid s
    pub entries : All (IsEntry size) log
    pub free : ℕ
    pub layout : bytes s ≡ log_bytes log ++ replicate free 255
    pub readable : Readable (length (bytes s)) 0 log

  pub Holds-total :
      {s : S} {log : List Entry} (h : Holds s log)
      → length (log_bytes log) + h.free ≡ length (bytes s)
  Holds-total {log = log} h = omega (
    arith,
    ap length h.layout,
    length-append (log_bytes log) (replicate h.free 255),
    length-replicate {A = ℕ} h.free 255,
  )

  module _ (s : S) (log : List Entry) (e : Entry) (at : ℕ) (h : Holds s log) (v : IsEntry size e)
      (end : at ≡ length (log_bytes log))
      (room : at + length (entry_bytes e) ≤ length (bytes s)) where
    erased_here : slice (bytes s) at (length (entry_bytes e)) ≡ erased (length (entry_bytes e))
    erased_here =
        ap (λ l. take (length (entry_bytes e)) (drop at l)) h.layout
        ∙ ap (take (length (entry_bytes e)))
            (drop-length-append at (log_bytes log) (replicate h.free 255) end)
        ∙ take-replicate {A = ℕ} (length (entry_bytes e)) h.free 255 (omega (arith, Holds-total h))

    pub write_entry : (F.write s at (entry_bytes e)).0 ≡ ok tt
    write_entry =
        nor.write_ok s at (entry_bytes e) h.valid
          (omega (arith, log_aligned size log small h.entries))
          (entry_bytes_bounds size e small v).0 room erased_here (entry-IsBytes size e v)

    written :
        bytes (F.write s at (entry_bytes e)).1
        ≡ (log_bytes log ++ entry_bytes e) ++ replicate (h.free - length (entry_bytes e)) 255
    written =
        nor.write_bytes s at (entry_bytes e) h.valid
          (omega (arith, log_aligned size log small h.entries))
          (entry_bytes_bounds size e small v).0 room erased_here (entry-IsBytes size e v)
        ∙ ap (λ l. overwrite l at (entry_bytes e)) h.layout
        ∙ overwrite_end (log_bytes log) (entry_bytes e) h.free at end

    length-written : length (bytes (F.write s at (entry_bytes e)).1) ≡ length (bytes s)
    length-written = omega (
      arith,
      ap length written,
      length-append (log_bytes log ++ entry_bytes e)
          (replicate (h.free - length (entry_bytes e)) 255),
      length-append (log_bytes log) (entry_bytes e),
      length-replicate {A = ℕ} (h.free - length (entry_bytes e)) 255,
      Holds-total h,
    )

    pub Holds-write :
        at + 24 ≤ length (bytes s) → Holds (F.write s at (entry_bytes e)).1 (log ++ e ∷ [])
    Holds-write readable = record {
      valid = nor.write_valid s at (entry_bytes e) h.valid;
      entries = All-append (IsEntry size) log (e ∷ []) h.entries (v, tt);
      free = h.free - length (entry_bytes e);
      layout =
          written
          ∙ ap (λ l. l ++ replicate (h.free - length (entry_bytes e)) 255)
              (sym (log_bytes-append log e));
      readable =
          subst (λ n. Readable n 0 (log ++ e ∷ [])) (sym length-written)
            (Readable-append (length (bytes s)) 0 log e h.readable (omega arith));
    }

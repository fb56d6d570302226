-- ===== src/Upload/Writer.antt =====
-- `FixedBufferWriter` of tasks/upload/json.rs. The functions that write through it give up at the
-- first write that fails, so that a text is the list of its writes, in order.
use sleep_environment_monito.Prelude.{
  ℕ, ◌+◌, ◌≤◌, ◌<◌, ◌≡◌, refl, ap₂, sym, ◌∙◌, List, [], ◌∷◌, ◌++◌, append_assoc, append-nil, none,
  some, arith, leb, if◌then◌else◌, Result, ok, err, ◌>>=◌, length, take, drop, checked_add,
  usize_max, length-append, length-drop, drop-drop, take-length-append, drop-length-append, le→leb,
}
use native.Mathlib.Decide.{dec_lt}
use sleep_environment_monito.Flash.{overwrite}
use sleep_environment_monito.Upload.{EncodeError, buffer_too_small}

pub record FixedBufferWriter : Type 0 where
  pub buf : List ℕ
  pub len : ℕ

abbrev pub new : List ℕ → FixedBufferWriter
new buf = record { buf = buf; len = 0 }

-- `write_bytes`, which `write_str` and `write_char` call too; every caller turns the error of the
-- formatter into `BufferTooSmall`.
unfoldable pub write_bytes : List ℕ → FixedBufferWriter → Result EncodeError FixedBufferWriter
write_bytes bytes w = elim (checked_add usize_max w.len (length bytes)) [
  | none ↦ err buffer_too_small
  | some end ↦
      if leb end (length w.buf)
      then ok (record { buf = overwrite w.buf w.len bytes; len = end })
      else err buffer_too_small
]

unfoldable pub write_all : List (List ℕ) → FixedBufferWriter → Result EncodeError FixedBufferWriter
unfolding write_bytes
write_all [] w = ok w
write_all (piece ∷ pieces) w = write_bytes piece w >>= λ w'. write_all pieces w'

-- What a function gives that writes the pieces to its buffer `out`: the length, and `out` after.
unfoldable pub written : List (List ℕ) → List ℕ → Result EncodeError (ℕ × List ℕ)
unfolding write_all
written pieces out = write_all pieces (new out) >>= λ w. ok (w.len, w.buf)

unfoldable pub concat : List (List ℕ) → List ℕ
concat [] = []
concat (piece ∷ pieces) = piece ++ concat pieces

overwrite_end :
    (done tail piece : List ℕ)
    → overwrite (done ++ tail) (length done) piece ≡ (done ++ piece) ++ drop (length piece) tail
overwrite_end done tail piece =
    rw
      (
        take-length-append (length done) done tail refl,
        sym (drop-drop (length done) (length piece) (done ++ tail)),
        drop-length-append (length done) done tail refl,
        append_assoc done piece (drop (length piece) tail),
      )
      refl

abbrev at_end : List ℕ → List ℕ → FixedBufferWriter
at_end done tail = record { buf = done ++ tail; len = length done }

write_bytes_lem :
    (done tail piece : List ℕ)
    → length piece ≤ length tail
    → length done + length tail ≤ usize_max
    → write_bytes piece (at_end done tail) ≡ ok (at_end (done ++ piece) (drop (length piece) tail))
unfolding write_bytes
write_bytes_lem done tail piece h small =
    rw
      (
        le→leb (length done + length piece) usize_max (omega arith),
        le→leb (length done + length piece) (length (done ++ tail))
            (omega (arith, length-append done tail)),
        overwrite_end done tail piece,
        length-append done piece,
        write_bytes,
      )
      refl

write_bytes_full :
    (done tail piece : List ℕ)
    → length tail < length piece
    → write_bytes piece (at_end done tail) ≡ err buffer_too_small
unfolding write_bytes
write_bytes_full done tail piece h = ground (arith, length-append done tail)

write_all_lem :
    (pieces : List (List ℕ)) (done tail : List ℕ)
    → length (concat pieces) ≤ length tail
    → length done + length tail ≤ usize_max
    → write_all pieces (at_end done tail)
      ≡ ok (at_end (done ++ concat pieces) (drop (length (concat pieces)) tail))
unfolding write_all concat
write_all_lem [] done tail h small = rw (append-nil done) refl
write_all_lem (piece ∷ pieces) done tail h small =
    let total = length-append piece (concat pieces) in
    rw
      (
        write_bytes_lem done tail piece (omega (arith, total)) small,
        write_all_lem pieces (done ++ piece) (drop (length piece) tail)
            (omega (arith, total, length-drop (length piece) tail))
            (omega (arith, total, length-drop (length piece) tail, length-append done piece)),
        drop-drop (length piece) (length (concat pieces)) tail,
        total,
        append_assoc done piece (concat pieces),
      )
      refl

write_all_full :
    (pieces : List (List ℕ)) (done tail : List ℕ)
    → length tail < length (concat pieces)
    → length done + length tail ≤ usize_max
    → write_all pieces (at_end done tail) ≡ err buffer_too_small
unfolding write_all concat
write_all_full [] done tail h small = absurd (omega arith)
write_all_full (piece ∷ pieces) done tail h small = elim (dec_lt (length tail) (length piece)) [
  | yes full ↦ rw (write_bytes_full done tail piece full) refl
  | no fits ↦
      let total = length-append piece (concat pieces) in
      rw (write_bytes_lem done tail piece (omega arith) small) (
        write_all_full pieces (done ++ piece) (drop (length piece) tail)
          (omega (arith, total, length-drop (length piece) tail))
          (omega (arith, total, length-drop (length piece) tail, length-append done piece)))
]

-- A text that fits is written to the front of the buffer, whose rest stays as it is.
pub written_fits :
    (pieces : List (List ℕ)) (out : List ℕ)
    → length (concat pieces) ≤ length out
    → length out ≤ usize_max
    → written pieces out
      ≡ ok (length (concat pieces), concat pieces ++ drop (length (concat pieces)) out)
unfolding written
written_fits pieces out h small = rw (write_all_lem pieces [] out h (omega arith)) refl

-- A text that does not fit is refused.
pub written_full :
    (pieces : List (List ℕ)) (out : List ℕ)
    → length out < length (concat pieces)
    → length out ≤ usize_max
    → written pieces out ≡ err buffer_too_small
unfolding written
written_full pieces out h small = rw (write_all_full pieces [] out h (omega arith)) refl

-- What was written is the text, in front of the rest of the buffer.
pub written_sound :
    (pieces : List (List ℕ)) (out : List ℕ) (len : ℕ) (buf : List ℕ)
    → length out ≤ usize_max
    → written pieces out ≡ ok (len, buf)
    → (len ≡ length (concat pieces)) × (take len buf ≡ concat pieces)
written_sound pieces out len buf small h = elim (dec_lt (length out) (length (concat pieces))) [
  | yes full ↦ absurd (cc (h, written_full pieces out full small))
  | no fits ↦
      let fit = written_fits pieces out (omega arith) small in
      let same_len : len ≡ length (concat pieces) = cc (h, fit) in
      let same_buf : buf ≡ concat pieces ++ drop (length (concat pieces)) out = cc (h, fit) in
      (
        same_len,
        ap₂ take same_len same_buf
            ∙ take-length-append (length (concat pieces)) (concat pieces) _ refl,
      )
]

-- ===== src/Region/Rom/Chip.antt =====
-- A chip in memory that keeps what `IsRom` asks of the ROM's calls.
use sleep_environment_monito.Prelude.{
  ℕ, zero, suc, ◌+◌, ◌*◌, ◌≡◌, refl, ap, ap₂, sym, ◌∙◌, List, [], ◌∷◌, ◌++◌, arith, ok, length,
  slice, take, drop, All-append, All-take, length-append, length-take, length-replicate,
  take-length-append, drop-length-append, drop-drop,
}
use sleep_environment_monito.Prelude.Bytes.{IsBytes, to_le, to_le-IsBytes, length-to_le}
use sleep_environment_monito.Flash.{overwrite, erased}
use sleep_environment_monito.Region.Rom.{Rom, words_of, bytes_of}
use sleep_environment_monito.Region.Rom.Loops.{IsRom, bytes_of-words_of, All-drop}

length-bytes_of : (words : List ℕ) → length (bytes_of words) ≡ length words * 4
unfolding bytes_of
length-bytes_of [] = refl
length-bytes_of (word ∷ words) = omega (
  arith,
  length-append (to_le 4 word) (bytes_of words),
  length-to_le 4 word,
  length-bytes_of words,
)

pub bytes_of-IsBytes : (words : List ℕ) → IsBytes (bytes_of words)
unfolding bytes_of
bytes_of-IsBytes [] = tt
bytes_of-IsBytes (word ∷ words) =
    All-append _ (to_le 4 word) (bytes_of words) (to_le-IsBytes 4 word) (bytes_of-IsBytes words)

pub erased-IsBytes : (n : ℕ) → IsBytes (erased n)
erased-IsBytes zero = tt
erased-IsBytes (suc n) = (omega arith, erased-IsBytes n)

-- Writing over a part of the same length.
overwrite_part :
    (front here back new : List ℕ)
    → length new ≡ length here
    → overwrite (front ++ (here ++ back)) (length front) new ≡ front ++ (new ++ back)
overwrite_part front here back new e =
    ap₂ (λ a b. a ++ (new ++ b)) (take-length-append (length front) front (here ++ back) refl)
      (sym (drop-drop (length front) (length new) (front ++ (here ++ back)))
        ∙ ap (drop (length new)) (drop-length-append (length front) front (here ++ back) refl)
        ∙ drop-length-append (length new) here back e)

module _ (n : ℕ) where
  pub record Chip : Type 0 where
    pub cells : List ℕ
    pub full : length cells ≡ n
    pub are_bytes : IsBytes cells

  -- The bytes as a chip, cut or filled up to its size.
  unfoldable pub fitted : List ℕ → List ℕ
  fitted bytes = take n (bytes ++ erased n)

  pub length-fitted : (bytes : List ℕ) → length (fitted bytes) ≡ n
  unfolding fitted
  length-fitted bytes = omega (
    arith,
    length-take n (bytes ++ erased n),
    length-append bytes (erased n),
    length-replicate {A = ℕ} n 255,
  )

  pub fitted-IsBytes : (bytes : List ℕ) → IsBytes bytes → IsBytes (fitted bytes)
  unfolding fitted
  fitted-IsBytes bytes h =
      All-take _ n (bytes ++ erased n) (All-append _ bytes (erased n) h (erased-IsBytes n))

  fitted_lem : (bytes : List ℕ) → length bytes ≡ n → fitted bytes ≡ bytes
  unfolding fitted
  fitted_lem bytes e = take-length-append n bytes (erased n) (sym e)

  abbrev pub fit : (bytes : List ℕ) → IsBytes bytes → Chip
  fit bytes h = record {
    cells = fitted bytes;
    full = length-fitted bytes;
    are_bytes = fitted-IsBytes bytes h;
  }

  pub over : (s : Chip) (at : ℕ) (new : List ℕ) → IsBytes new → IsBytes (overwrite s.cells at new)
  over s at new h =
      All-append _ (take at s.cells) _ (All-take _ at s.cells s.are_bytes)
        (All-append _ new _ h (All-drop (at + length new) s.cells s.are_bytes))

  abbrev pub chip : Rom Chip
  chip = record {
    read = λ s at count. ok (words_of (slice s.cells at (count * 4)));
    write = λ s at words. (
      ok tt,
      fit (overwrite s.cells at (bytes_of words))
          (over s at (bytes_of words) (bytes_of-IsBytes words)),
    );
    erase_sector = λ s sector. (
      ok tt,
      fit (overwrite s.cells (sector * 4096) (erased 4096))
          (over s (sector * 4096) (erased 4096) (erased-IsBytes 4096)),
    );
  }

  read_bytes :
      (s : Chip) (front here back : List ℕ) (count : ℕ)
      → s.cells ≡ front ++ (here ++ back)
      → length here ≡ count * 4
      → bytes_of (words_of (slice s.cells (length front) (count * 4))) ≡ here
  read_bytes s front here back count e whole =
      let part : slice s.cells (length front) (count * 4) ≡ here =
        ap (λ l. slice l (length front) (count * 4)) e
        ∙ ap (take (count * 4)) (drop-length-append (length front) front (here ++ back) refl)
        ∙ take-length-append (count * 4) here back (sym whole) in
      (bytes_of-words_of count (slice s.cells (length front) (count * 4)) (ap length part ∙ whole)
        (All-take _ (count * 4) _ (All-drop (length front) s.cells s.are_bytes))).0
      ∙ part

  replaced :
      (s : Chip) (at : ℕ) (front here back new : List ℕ)
      → s.cells ≡ front ++ (here ++ back)
      → at ≡ length front
      → length new ≡ length here
      → fitted (overwrite s.cells at new) ≡ front ++ (new ++ back)
  replaced s at front here back new e e_at same =
      ap₂ (λ l k. fitted (overwrite l k new)) e e_at
      ∙ ap fitted (overwrite_part front here back new same)
      ∙ fitted_lem (front ++ (new ++ back)) (
          omega (
            arith,
            length-append front (new ++ back),
            length-append new back,
            length-append front (here ++ back),
            length-append here back,
            ap length e,
            s.full,
          ))

  pub chip-IsRom : IsRom chip (λ s. s.cells) n 4096
  chip-IsRom = record {
    size = λ s. s.full;
    read_lem = λ s front here back count e aligned whole. (
      words_of (slice s.cells (length front) (count * 4)),
      refl,
      read_bytes s front here back count e whole,
    );
    write_lem = λ s front back words e aligned. (
      refl,
      replaced s (length front) front (erased (length words * 4)) back (bytes_of words) e refl
          (omega (arith, length-bytes_of words, length-replicate {A = ℕ} (length words * 4) 255)),
    );
    erase_lem = λ s front here back sector e first whole. (
      refl,
      replaced s (sector * 4096) front here back (erased 4096) e (sym first)
          (omega (arith, whole, length-replicate {A = ℕ} 4096 255)),
    );
  }

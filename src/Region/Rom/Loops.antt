-- ===== src/Region/Rom/Loops.antt =====
-- The loops of drivers/flash.rs over the ROM's calls, against one access to the cells of the chip.
use sleep_environment_monito.Prelude.{
  ℕ, zero, suc, ◌+◌, ◌-◌, ◌*◌, ◌/◌, ◌%◌, ◌≤◌, ◌<◌, ◌≡◌, refl, ap, ap₂, sym, ◌∙◌, List, [], ◌∷◌,
  ◌++◌, append_assoc, arith, ok, length, take, drop, length-append, length-take, length-drop,
  length-replicate, take-append-drop, take-replicate, drop-replicate, All-take,
}
use sleep_environment_monito.Prelude.Bytes.{IsBytes, from_le, to_le}
use sleep_environment_monito.Flash.{erased}
use sleep_environment_monito.Region.Rom.{
  Rom, words_of, bytes_of, chunk, write_loop, read_loop, erase_loop,
}

-- What the ROM documents of its calls, over the cells of the chip: where the cells at an address of
-- words are known, a read gives the words of these cells, a write to erased cells stores the bytes
-- of the words there, and an erase of a sector erases its cells. No call changes the chip's size.
pub record IsRom {S : Type 0} (rom : Rom S) (cells : S → List ℕ) (flash_size sector_size : ℕ)
    : Type 0 where
  pub size : (s : S) → length (cells s) ≡ flash_size
  pub read_lem :
      (s : S) (front here back : List ℕ) (n : ℕ)
      → cells s ≡ front ++ (here ++ back)
      → length front % 4 ≡ 0
      → length here ≡ n * 4
      → (words : List ℕ) × (rom.read s (length front) n ≡ ok words) × (bytes_of words ≡ here)
  pub write_lem :
      (s : S) (front back : List ℕ) (words : List ℕ)
      → cells s ≡ front ++ (erased (length words * 4) ++ back)
      → length front % 4 ≡ 0
      → ((rom.write s (length front) words).0 ≡ ok tt)
        × (cells (rom.write s (length front) words).1 ≡ front ++ (bytes_of words ++ back))
  pub erase_lem :
      (s : S) (front here back : List ℕ) (sector : ℕ)
      → cells s ≡ front ++ (here ++ back)
      → length front ≡ sector * sector_size
      → length here ≡ sector_size
      → ((rom.erase_sector s sector).0 ≡ ok tt)
        × (cells (rom.erase_sector s sector).1 ≡ front ++ (erased sector_size ++ back))

-- The words of bytes hold these bytes.
word_bytes :
    (a b c d : ℕ)
    → IsBytes (a ∷ b ∷ c ∷ d ∷ [])
    → to_le 4 (from_le (a ∷ b ∷ c ∷ d ∷ [])) ≡ a ∷ b ∷ c ∷ d ∷ []
unfolding to_le from_le
word_bytes a b c d (ha, (hb, (hc, (hd, _)))) =
    ap₂ (λ x l. x ∷ l) (omega arith)
      (ap₂ (λ x l. x ∷ l) (omega arith)
        (ap₂ (λ x l. x ∷ l) (omega arith) (ap₂ (λ x l. x ∷ l) (omega arith) refl)))

pub bytes_of-words_of :
    (n : ℕ) (bytes : List ℕ)
    → length bytes ≡ n * 4
    → IsBytes bytes
    → (bytes_of (words_of bytes) ≡ bytes) × (length (words_of bytes) ≡ n)
unfolding bytes_of words_of
bytes_of-words_of zero [] e h = (refl, refl)
bytes_of-words_of zero (a ∷ _) e h = absurd (omega arith)
bytes_of-words_of (suc n) [] e h = absurd (omega arith)
bytes_of-words_of (suc n) (a ∷ []) e h = absurd (omega arith)
bytes_of-words_of (suc n) (a ∷ b ∷ []) e h = absurd (omega arith)
bytes_of-words_of (suc n) (a ∷ b ∷ c ∷ []) e h = absurd (omega arith)
bytes_of-words_of (suc n) (a ∷ b ∷ c ∷ d ∷ bytes) e (ha, (hb, (hc, (hd, h)))) =
    let (same, count) = bytes_of-words_of n bytes (omega arith) h in
    (ap₂ (λ x y. x ++ y) (word_bytes a b c d (ha, (hb, (hc, (hd, tt))))) same, ap suc count)

-- The rounds: a chunk is some words, and no more than what is left.
chunk_bounds : (n : ℕ) → 0 < n → n % 4 ≡ 0 → (0 < chunk n) × (chunk n ≤ n) × (chunk n % 4 ≡ 0)
chunk_bounds n pos h = (omega arith, omega arith, omega arith)

erased_split : (m n : ℕ) → m ≤ n → erased n ≡ erased m ++ erased (n - m)
erased_split m n h =
    sym (take-append-drop m (erased n))
    ∙ ap₂ (λ a b. a ++ b) (take-replicate m n 255 h) (drop-replicate m n 255)

pub All-drop : (n : ℕ) (bytes : List ℕ) → IsBytes bytes → IsBytes (drop n bytes)
All-drop zero bytes h = h
All-drop (suc n) [] h = tt
All-drop (suc n) (b ∷ bytes) h = All-drop n bytes h.1

module _ {S : Type 0} (rom : Rom S) (cells : S → List ℕ) (flash_size sector_size : ℕ)
    (law : IsRom rom cells flash_size sector_size) where
  -- The rounds of a write store all bytes.
  pub write_loop_lem :
      (fuel absolute : ℕ) (bytes front back : List ℕ) (s : S)
      → cells s ≡ front ++ (erased (length bytes) ++ back)
      → absolute ≡ length front
      → length front % 4 ≡ 0
      → length bytes % 4 ≡ 0
      → length bytes ≤ fuel
      → IsBytes bytes
      → ((write_loop rom fuel absolute bytes s).0 ≡ ok tt)
        × (cells (write_loop rom fuel absolute bytes s).1 ≡ front ++ (bytes ++ back))
  unfolding write_loop
  write_loop_lem zero absolute [] front back s e at aligned words fuel_left h = (refl, e)
  write_loop_lem zero absolute (b ∷ bytes) front back s e at aligned words fuel_left h =
      absurd (omega arith)
  write_loop_lem (suc fuel) absolute [] front back s e at aligned words fuel_left h = (refl, e)
  write_loop_lem (suc fuel) absolute (b ∷ bytes) front back s e at aligned words fuel_left h =
      rw (stored.0, write_loop)
        (let ih =
            write_loop_lem fuel (absolute + n) (drop n all) (front ++ take n all) back
              (rom.write s absolute (words_of (take n all))).1
              (stored.1
                ∙ ap₂ (λ x y. front ++ (x ++ (erased y ++ back))) same.0 (sym (length-drop n all))
                ∙ sym (append_assoc front (take n all) (erased (length (drop n all)) ++ back)))
              (omega (arith, at, length-append front (take n all), length-take n all, bounds))
              (omega (arith, length-append front (take n all), length-take n all, bounds, aligned))
              (omega (arith, length-drop n all, bounds, words))
              (omega (arith, length-drop n all, bounds, fuel_left)) (All-drop n all h) in
          (ih.0, ih.1 ∙ joined))
    where
      all : List ℕ
      all = b ∷ bytes

      n : ℕ
      n = chunk (length all)

      bounds : (0 < n) × (n ≤ length all) × (n % 4 ≡ 0)
      bounds = chunk_bounds (length all) (omega arith) words

      same :
          (bytes_of (words_of (take n all)) ≡ take n all) × (length (words_of (take n all)) ≡ n / 4)
      same =
          bytes_of-words_of (n / 4) (take n all) (omega (arith, length-take n all, bounds))
            (All-take _ n all h)

      erased_front :
          cells s
          ≡ front
            ++ (erased (length (words_of (take n all)) * 4) ++ (erased (length all - n) ++ back))
      erased_front =
          e
          ∙ ap (λ l. front ++ (l ++ back)) (erased_split n (length all) bounds.1)
          ∙ ap (λ l. front ++ l) (append_assoc (erased n) (erased (length all - n)) back)
          ∙ ap (λ k. front ++ (erased k ++ (erased (length all - n) ++ back)))
              (omega (arith, same.1, bounds))

      stored :
          ((rom.write s absolute (words_of (take n all))).0 ≡ ok tt)
          × (cells (rom.write s absolute (words_of (take n all))).1
              ≡ front ++ (bytes_of (words_of (take n all)) ++ (erased (length all - n) ++ back)))
      stored = rw at (
          law.write_lem s front (erased (length all - n) ++ back) (words_of (take n all))
            erased_front aligned)

      joined : (front ++ take n all) ++ (drop n all ++ back) ≡ front ++ (all ++ back)
      joined =
          append_assoc front (take n all) (drop n all ++ back)
          ∙ ap (λ l. front ++ l)
              (sym (append_assoc (take n all) (drop n all) back)
                ∙ ap (λ l. l ++ back) (take-append-drop n all))

  -- The rounds of a read give all cells.
  pub read_loop_lem :
      (fuel absolute n : ℕ) (front here back : List ℕ) (s : S)
      → cells s ≡ front ++ (here ++ back)
      → absolute ≡ length front
      → n ≡ length here
      → length front % 4 ≡ 0
      → n % 4 ≡ 0
      → n ≤ fuel
      → read_loop rom fuel absolute n s ≡ ok here
  unfolding read_loop
  read_loop_lem zero absolute zero front [] back s e at same aligned words fuel_left = refl
  read_loop_lem zero absolute zero front (x ∷ here) back s e at same aligned words fuel_left =
      absurd (omega arith)
  read_loop_lem zero absolute (suc n) front here back s e at same aligned words fuel_left =
      absurd (omega arith)
  read_loop_lem (suc fuel) absolute zero front [] back s e at same aligned words fuel_left = refl
  read_loop_lem (suc fuel) absolute zero front (x ∷ here) back s e at same aligned words fuel_left =
      absurd (omega arith)
  read_loop_lem (suc fuel) absolute (suc n) front here back s e at same aligned words fuel_left =
      let (given, read_here, here_bytes) = chunk_read in
      rw
        (
          read_here,
          read_loop_lem fuel (absolute + m) (suc n - m) (front ++ take m here) (drop m here) back s
              (split ∙ sym (append_assoc front (take m here) (drop m here ++ back)))
              (omega
                (arith, at, length-append front (take m here), length-take m here, bounds, same))
              (omega (arith, length-drop m here, same))
              (omega (
                arith,
                length-append front (take m here),
                length-take m here,
                bounds,
                aligned,
                same,
              ))
              (omega (arith, bounds, words)) (omega (arith, bounds, fuel_left)),
          here_bytes,
          read_loop,
        )
        (ap ok (take-append-drop m here))
    where
      m : ℕ
      m = chunk (suc n)

      bounds : (0 < m) × (m ≤ suc n) × (m % 4 ≡ 0)
      bounds = chunk_bounds (suc n) (omega arith) words

      split : cells s ≡ front ++ (take m here ++ (drop m here ++ back))
      split =
          e
          ∙ ap (λ l. front ++ l)
              (ap (λ l. l ++ back) (sym (take-append-drop m here))
                ∙ append_assoc (take m here) (drop m here) back)

      chunk_read :
          (given : List ℕ) × (rom.read s absolute (m / 4) ≡ ok given)
          × (bytes_of given ≡ take m here)
      chunk_read = rw at (
          law.read_lem s front (take m here) (drop m here ++ back) (m / 4) split aligned
            (omega (arith, length-take m here, bounds, same)))

  -- The rounds of an erase erase their sectors.
  pub erase_loop_lem :
      (sectors sector : ℕ) (front here back : List ℕ) (s : S)
      → cells s ≡ front ++ (here ++ back)
      → length front ≡ sector * sector_size
      → length here ≡ sectors * sector_size
      → ((erase_loop rom sectors sector s).0 ≡ ok tt)
        × (cells (erase_loop rom sectors sector s).1 ≡ front ++ (erased (length here) ++ back))
  unfolding erase_loop
  erase_loop_lem zero sector front [] back s e first count = (refl, e)
  erase_loop_lem zero sector front (x ∷ here) back s e first count = absurd (omega arith)
  erase_loop_lem (suc sectors) sector front here back s e first count =
      rw (done.0, erase_loop)
        (let ih =
            erase_loop_lem sectors (sector + 1) (front ++ erased sector_size)
              (drop sector_size here) back (rom.erase_sector s sector).1
              (done.1
                ∙ sym (append_assoc front (erased sector_size) (drop sector_size here ++ back)))
              (omega (
                arith,
                length-append front (erased sector_size),
                length-replicate {A = ℕ} sector_size 255,
                first,
                ap (λ (k : ℕ). k * sector_size) {x = sector + 1} refl,
              ))
              (omega (arith, length-drop sector_size here, total)) in
          (ih.0, ih.1 ∙ joined))
    where
      total : length here ≡ sector_size + sectors * sector_size
      total = omega (arith, count)

      split : cells s ≡ front ++ (take sector_size here ++ (drop sector_size here ++ back))
      split =
          e
          ∙ ap (λ l. front ++ l)
              (ap (λ l. l ++ back) (sym (take-append-drop sector_size here))
                ∙ append_assoc (take sector_size here) (drop sector_size here) back)

      done :
          ((rom.erase_sector s sector).0 ≡ ok tt)
          × (cells (rom.erase_sector s sector).1
              ≡ front ++ (erased sector_size ++ (drop sector_size here ++ back)))
      done =
          law.erase_lem s front (take sector_size here) (drop sector_size here ++ back) sector split
            first (omega (arith, length-take sector_size here, total))

      joined :
          (front ++ erased sector_size) ++ (erased (length (drop sector_size here)) ++ back)
          ≡ front ++ (erased (length here) ++ back)
      joined =
          append_assoc front (erased sector_size) (erased (length (drop sector_size here)) ++ back)
          ∙ ap (λ l. front ++ l)
              (sym
                  (append_assoc (erased sector_size) (erased (length (drop sector_size here))) back)
                ∙ ap (λ l. l ++ back)
                    (ap (λ k. erased sector_size ++ erased k) (length-drop sector_size here)
                      ∙ sym (erased_split sector_size (length here) (omega (arith, total)))))

-- ===== src/Region/Rom/Nor.antt =====
-- A region behind the ROM's calls, as drivers/flash.rs opens it, keeps the laws of NOR flash that
-- the storage code relies on.
use sleep_environment_monito.Prelude.{
  ℕ, ◌+◌, ◌/◌, ◌%◌, ◌≤◌, ◌<◌, ◌≡◌, refl, ap, sym, ◌∙◌, List, ◌++◌, append_assoc, some, arith, ok,
  length, slice, take, drop, u32_max, length-append, length-take, length-drop, take-append-drop,
  take-length-append, drop-length-append, drop-drop, eq_test, ne_test, length-replicate,
}
use sleep_environment_monito.Prelude.Bytes.{IsBytes}
use sleep_environment_monito.Flash.{IsNor, overwrite, erased}
use sleep_environment_monito.Region.{FlashRange, check_flash_subrange, is_aligned}
use sleep_environment_monito.Region.Rom.{
  Rom, rom_flash, rom_flash_read_range, rom_flash_write_range, rom_flash_erase_range,
}
use sleep_environment_monito.Region.Rom.Loops.{IsRom, write_loop_lem, read_loop_lem, erase_loop_lem}

-- Every state of the chip is one of the region's.
abbrev pub AnyState : {S : Type 0} → S → Type 0
AnyState _ = Unit {0}

abbrev pub region_bytes : {S : Type 0} → (S → List ℕ) → FlashRange → S → List ℕ
region_bytes cells range s = slice (cells s) range.offset range.size

subrange_some :
    (range : FlashRange) (offset len : ℕ)
    → offset + len ≤ range.size
    → range.offset + range.size ≤ u32_max
    → check_flash_subrange range offset len ≡ some (range.offset + offset)
unfolding check_flash_subrange
subrange_some range offset len h small = ground arith

-- A list that is put together of three parts, the second from `at` on.
middle :
    (front here back all : List ℕ) (at n : ℕ)
    → all ≡ front ++ (here ++ back)
    → at ≡ length front
    → n ≡ length here
    → slice all at n ≡ here
middle front here back all at n e e_at e_n =
    ap (λ l. slice l at n) e
    ∙ ap (take n) (drop-length-append at front (here ++ back) e_at)
    ∙ take-length-append n here back e_n

module _ {S : Type 0} (rom : Rom S) (cells : S → List ℕ) (flash_size : ℕ)
    (law : IsRom rom cells flash_size 4096) (range : FlashRange)
    (inside : range.offset + range.size ≤ flash_size) (small : flash_size ≤ u32_max)
    (aligned : range.offset % 4096 ≡ 0) where
  held : S → List ℕ
  held = region_bytes cells range

  before : S → List ℕ
  before s = take range.offset (cells s)

  behind : S → List ℕ
  behind s = drop range.size (drop range.offset (cells s))

  -- The cells of the chip up to `at` of the region, and those from `at` on in the region.
  front : S → ℕ → List ℕ
  front s at = before s ++ take at (held s)

  back : S → ℕ → List ℕ
  back s at = drop at (held s) ++ behind s

  length-before : (s : S) → length (before s) ≡ range.offset
  unfolding before
  length-before s = omega (arith, length-take range.offset (cells s), law.size s, inside)

  length-held : (s : S) → length (held s) ≡ range.size
  unfolding held
  length-held s = omega (
    arith,
    length-take range.size (drop range.offset (cells s)),
    length-drop range.offset (cells s),
    law.size s,
    inside,
  )

  length-front : (s : S) (at : ℕ) → at ≤ range.size → length (front s at) ≡ range.offset + at
  unfolding front
  length-front s at h = omega (
    arith,
    length-append (before s) (take at (held s)),
    length-take at (held s),
    length-before s,
    length-held s,
  )

  parts : (s : S) → cells s ≡ before s ++ (held s ++ behind s)
  unfolding before held behind
  parts s =
      sym (take-append-drop range.offset (cells s))
      ∙ ap (λ l. take range.offset (cells s) ++ l)
          (sym (take-append-drop range.size (drop range.offset (cells s))))

  held_parts :
      (s : S) (at n : ℕ)
      → held s ≡ take at (held s) ++ (slice (held s) at n ++ drop (at + n) (held s))
  held_parts s at n =
      sym (take-append-drop at (held s))
      ∙ ap (λ l. take at (held s) ++ l)
          (sym (take-append-drop n (drop at (held s)))
            ∙ ap (λ l. slice (held s) at n ++ l) (drop-drop at n (held s)))

  cut : (s : S) (at n : ℕ) → cells s ≡ front s at ++ (slice (held s) at n ++ back s (at + n))
  unfolding front back
  cut s at n =
      parts s
      ∙ ap (λ l. before s ++ (l ++ behind s)) (held_parts s at n)
      ∙ ap (λ l. before s ++ l)
          (append_assoc (take at (held s)) (slice (held s) at n ++ drop (at + n) (held s))
              (behind s)
            ∙ ap (λ l. take at (held s) ++ l)
                (append_assoc (slice (held s) at n) (drop (at + n) (held s)) (behind s)))
      ∙ sym (append_assoc (before s) (take at (held s)) _)

  -- A chip that differs in `n` cells from `at` on holds them over the old ones in the region.
  held_after :
      (s s' : S) (at : ℕ) (new : List ℕ)
      → at + length new ≤ range.size
      → cells s' ≡ front s at ++ (new ++ back s (at + length new))
      → held s' ≡ overwrite (held s) at new
  unfolding front back held
  held_after s s' at new h e =
      middle (before s) (overwrite (held s) at new) (behind s) (cells s') range.offset range.size
        (e
          ∙ append_assoc (before s) (take at (held s)) _
          ∙ ap (λ l. before s ++ l)
              (ap (λ l. take at (held s) ++ l)
                  (sym (append_assoc new (drop (at + length new) (held s)) (behind s)))
                ∙ sym (
                    append_assoc (take at (held s)) (new ++ drop (at + length new) (held s))
                      (behind s))))
        (sym (length-before s))
        (omega (
          arith,
          length-append (take at (held s)) (new ++ drop (at + length new) (held s)),
          length-append new (drop (at + length new) (held s)),
          length-take at (held s),
          length-drop (at + length new) (held s),
          length-held s,
        ))

  read_region :
      (s : S) (at n : ℕ)
      → at % 4 ≡ 0
      → n % 4 ≡ 0
      → at + n ≤ range.size
      → (rom_flash rom range 4096).read s at n ≡ ok (slice (held s) at n)
  unfolding rom_flash rom_flash_read_range
  read_region s at n at_words n_words h =
      rw
        (
          eq_test (at % 4) 0 at_words,
          eq_test (n % 4) 0 n_words,
          subrange_some range at n h (omega arith),
          read_loop_lem rom cells flash_size 4096 law n (range.offset + at) n (front s at)
              (slice (held s) at n) (back s (at + n)) s (cut s at n)
              (sym (length-front s at (omega arith)))
              (omega
                (arith, length-take n (drop at (held s)), length-drop at (held s), length-held s))
              (omega (arith, length-front s at (omega arith))) n_words (omega arith),
          rom_flash_read_range,
        )
        refl

  write_region :
      (s : S) (at : ℕ) (new : List ℕ)
      → at % 4 ≡ 0
      → length new % 4 ≡ 0
      → at + length new ≤ range.size
      → slice (held s) at (length new) ≡ erased (length new)
      → IsBytes new
      → (((rom_flash rom range 4096).write s at new).0 ≡ ok tt)
        × (held ((rom_flash rom range 4096).write s at new).1 ≡ overwrite (held s) at new)
  unfolding rom_flash rom_flash_write_range
  write_region s at new at_words n_words h blank are_bytes =
      let (stored, after) =
        write_loop_lem rom cells flash_size 4096 law (length new) (range.offset + at) new
          (front s at) (back s (at + length new)) s
          (cut s at (length new) ∙ ap (λ l. front s at ++ (l ++ back s (at + length new))) blank)
          (sym (length-front s at (omega arith))) (omega (arith, length-front s at (omega arith)))
          n_words (omega arith) are_bytes in
      rw
        (
          eq_test (at % 4) 0 at_words,
          eq_test (length new % 4) 0 n_words,
          subrange_some range at (length new) h (omega arith),
          stored,
          rom_flash_write_range,
        )
        (refl, held_after s _ at new h after)

  erase_all :
      (s : S)
      → 0 < range.size
      → range.size % 4096 ≡ 0
      → (((rom_flash rom range 4096).erase s 0 range.size).0 ≡ ok tt)
        × (held ((rom_flash rom range 4096).erase s 0 range.size).1 ≡ erased range.size)
  unfolding rom_flash rom_flash_erase_range is_aligned held
  erase_all s pos sectors =
      let (done, after) =
        erase_loop_lem rom cells flash_size 4096 law (range.size / 4096) ((range.offset + 0) / 4096)
          (before s) (held s) (behind s) s (parts s) (omega (arith, length-before s))
          (omega (arith, length-held s)) in
      rw
        (
          ne_test range.size 0 (omega arith),
          eq_test (range.size % 4096) 0 sectors,
          subrange_some range 0 range.size (omega arith) (omega arith),
          done,
          rom_flash_erase_range,
        )
        (
          refl,
          middle (before s) (erased (length (held s))) (behind s) _ range.offset range.size after
                (sym (length-before s))
                (omega (arith, length-replicate {A = ℕ} (length (held s)) 255, length-held s))
              ∙ ap erased (length-held s),
        )

  erase_whole :
      (s : S) (n : ℕ)
      → n ≡ range.size
      → 0 < n
      → n % 4096 ≡ 0
      → (((rom_flash rom range 4096).erase s 0 n).0 ≡ ok tt)
        × (held ((rom_flash rom range 4096).erase s 0 n).1 ≡ erased n)
  erase_whole s n e pos sectors = rw e (erase_all s (omega arith) (rw e at sectors))

  -- A region of the chip that begins at a sector keeps the laws of NOR flash through the calls of
  -- the ROM, if these do what is documented of them: reads and writes of any length are put
  -- together of calls of sixteen words at most, and an erase of the region of calls for its sectors.
  pub rom_flash-IsNor : IsNor (rom_flash rom range 4096) AnyState (region_bytes cells range)
  unfolding held rom_flash
  rom_flash-IsNor = record {
    size = λ s. sym (length-held s);
    small = λ s _. omega (arith, length-held s);
    read_lem = λ s at n _ at_words n_words h.
        read_region s at n at_words n_words (omega (arith, length-held s));
    write_ok = λ s at new _ at_words n_words h blank are_bytes.
        (write_region s at new at_words n_words (omega (arith, length-held s)) blank are_bytes).0;
    write_bytes = λ s at new _ at_words n_words h blank are_bytes.
        (write_region s at new at_words n_words (omega (arith, length-held s)) blank are_bytes).1;
    write_valid = λ s at new _. tt;
    sectors = λ s at new. refl;
    erase_ok = λ s _ pos _ whole. (erase_whole s _ (length-held s) pos whole).0;
    erase_bytes = λ s _ pos _ whole. (erase_whole s _ (length-held s) pos whole).1;
    erase_valid = λ s at n _. tt;
  }

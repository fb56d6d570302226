-- ===== src/Flash/Tests.antt =====
-- The laws of storage/flash_model.rs at a region of eight cells.
use sleep_environment_monito.Prelude.{◌≡◌, refl, arith, [], ◌∷◌, true, ok}
use sleep_environment_monito.Flash.{IsNor, overwrite}
use sleep_environment_monito.Flash.Model.{InMemoryFlash, write, read, storage, can_program}
use sleep_environment_monito.Flash.Model.Laws.{IsValid, write-read, storage-IsNor}

abbrev half_used : InMemoryFlash
half_used = record { cells = 0xf0 ∷ 0 ∷ 255 ∷ 255 ∷ 255 ∷ 255 ∷ 255 ∷ 255 ∷ [] }

bits_clear : can_program (0xf0 ∷ 0 ∷ []) (0x30 ∷ 0 ∷ []) ≡ true
unfolding can_program
bits_clear = refl

write-read_example :
    ((write half_used 0 (0x30 ∷ 0 ∷ [])).0 ≡ ok tt)
    × ((write half_used 0 (0x30 ∷ 0 ∷ [])).1.cells ≡ overwrite half_used.cells 0 (0x30 ∷ 0 ∷ []))
    × (read (write half_used 0 (0x30 ∷ 0 ∷ [])).1 0 2 ≡ ok (0x30 ∷ 0 ∷ []))
write-read_example = write-read half_used 0 (0x30 ∷ 0 ∷ []) (omega arith) (omega arith) bits_clear

storage-IsNor_example : IsNor (storage 4) IsValid (λ m. m.cells)
storage-IsNor_example = storage-IsNor 4

-- ===== src/Flash.antt =====
-- firmware/src/storage/flash_model.rs, the trait `FlashStorage`: the operations of a flash region,
-- and the laws of NOR flash that the storage code above it relies on. `Flash.Model` is the
-- in-memory region of the source, which fills both.
pub mod Model
mod Tests
use sleep_environment_monito.Prelude.{
  ℕ, ◌+◌, ◌%◌, ◌≤◌, ◌<◌, ◌≡◌, List, ◌++◌, Bool, ◌==◌, Result, ok, length, slice, take, drop,
  replicate, usize_max,
}
use sleep_environment_monito.Prelude.Bytes.{IsBytes}

pub data FlashError : Type 0 where
  out_of_bounds unaligned_erase invalid_erase_range write_requires_erase : FlashError

-- `read` gives the bytes that the source copies into its buffer of `n` bytes. `write` and `erase`
-- give their result and the region after the call, also after a failure.
pub record FlashStorage (S : Type 0) : Type 0 where
  pub len : S → ℕ
  pub sector_size : S → ℕ
  pub read : S → ℕ → ℕ → Result FlashError (List ℕ)
  pub write : S → ℕ → List ℕ → Result FlashError (Unit {0}) × S
  pub erase : S → ℕ → ℕ → Result FlashError (Unit {0}) × S

-- `xs` with `new` written over it from `at` on
abbrev pub overwrite : List ℕ → ℕ → List ℕ → List ℕ
overwrite xs at new = take at xs ++ (new ++ drop (at + length new) xs)

abbrev pub erased : ℕ → List ℕ
erased n = replicate n 255

-- What a region holds is a list of bytes. Accesses are laid out in words of four bytes, a write
-- goes to erased cells, and an erase covers the region.
pub record IsNor {S : Type 0} (F : FlashStorage S) (IsValid : S → Type 0) (bytes : S → List ℕ)
    : Type 0 where
  pub size : (s : S) → F.len s ≡ length (bytes s)
  pub small : (s : S) → IsValid s → length (bytes s) ≤ usize_max
  pub read_lem :
      (s : S) (at n : ℕ)
      → IsValid s
      → at % 4 ≡ 0
      → n % 4 ≡ 0
      → at + n ≤ length (bytes s)
      → F.read s at n ≡ ok (slice (bytes s) at n)
  pub write_ok :
      (s : S) (at : ℕ) (new : List ℕ)
      → IsValid s
      → at % 4 ≡ 0
      → length new % 4 ≡ 0
      → at + length new ≤ length (bytes s)
      → slice (bytes s) at (length new) ≡ erased (length new)
      → IsBytes new
      → (F.write s at new).0 ≡ ok tt
  pub write_bytes :
      (s : S) (at : ℕ) (new : List ℕ)
      → IsValid s
      → at % 4 ≡ 0
      → length new % 4 ≡ 0
      → at + length new ≤ length (bytes s)
      → slice (bytes s) at (length new) ≡ erased (length new)
      → IsBytes new
      → bytes (F.write s at new).1 ≡ overwrite (bytes s) at new
  pub write_valid : (s : S) (at : ℕ) (new : List ℕ) → IsValid s → IsValid (F.write s at new).1
  pub sectors :
      (s : S) (at : ℕ) (new : List ℕ) → F.sector_size (F.write s at new).1 ≡ F.sector_size s
  pub erase_ok :
      (s : S)
      → IsValid s
      → 0 < length (bytes s)
      → 0 < F.sector_size s
      → length (bytes s) % F.sector_size s ≡ 0
      → (F.erase s 0 (length (bytes s))).0 ≡ ok tt
  pub erase_bytes :
      (s : S)
      → IsValid s
      → 0 < length (bytes s)
      → 0 < F.sector_size s
      → length (bytes s) % F.sector_size s ≡ 0
      → bytes (F.erase s 0 (length (bytes s))).1 ≡ erased (length (bytes s))
  pub erase_valid : (s : S) (at n : ℕ) → IsValid s → IsValid (F.erase s at n).1

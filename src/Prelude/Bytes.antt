-- ===== src/Prelude/Bytes.antt =====
-- Little-endian byte strings. A byte is a number below 256.
use Prim.Native.Nat.{ℕ, zero, suc, ◌+◌, ◌*◌, ◌/◌, ◌%◌, ◌^◌, ◌<◌, bit_and}
use mathlib.Core.Path.{◌≡◌, refl, ap}
use mathlib.Core.List.{List, [], ◌∷◌}
use mathlib.Core.Bool.{true}
use native.Mathlib.Omega.{arith}
use native.Mathlib.Nat.{pow-suc}
use sleep_environment_monito.Prelude.Tests.{◌==◌, ==_eq, check_range, check_range_lem}
use sleep_environment_monito.Prelude.Lists.{length, slice, All}

abbrev pub IsByte : ℕ → Type 0
IsByte b = b < 256

abbrev pub IsBytes : List ℕ → Type 0
IsBytes = All IsByte

-- `to_le_bytes` of an n-byte integer
unfoldable pub to_le : ℕ → ℕ → List ℕ
to_le zero x = []
to_le (suc n) x = x % 256 ∷ to_le n (x / 256)

-- `from_le_bytes`
unfoldable pub from_le : List ℕ → ℕ
from_le [] = 0
from_le (b ∷ bs) = b + 256 * from_le bs

-- the n-byte integer at offset `at`
abbrev pub le_at : List ℕ → ℕ → ℕ → ℕ
le_at input at n = from_le (slice input at n)

-- An integer that fits n bytes is read back.
pub from_le-to_le : (n x : ℕ) → x < 256 ^ n → from_le (to_le n x) ≡ x
unfolding from_le to_le
from_le-to_le zero x h = omega arith
from_le-to_le (suc n) x h =
    let h' : x < 256 ^ n * 256 = rw (pow-suc 256 n) at h in
    omega (arith, from_le-to_le n (x / 256) (omega arith))

pub length-to_le : (n x : ℕ) → length (to_le n x) ≡ n
unfolding to_le
length-to_le zero x = refl
length-to_le (suc n) x = ap suc (length-to_le n (x / 256))

pub to_le-IsBytes : (n x : ℕ) → IsBytes (to_le n x)
unfolding to_le
to_le-IsBytes zero x = tt
to_le-IsBytes (suc n) x = (omega arith, to_le-IsBytes n (x / 256))

and_erased_table : check_range (λ cell. bit_and 255 cell == cell) 256 ≡ true
unfolding check_range
and_erased_table = refl

-- An erased cell takes any byte.
pub and_erased : (b : ℕ) → IsByte b → bit_and 255 b ≡ b
and_erased b h = ==_eq (bit_and 255 b) b (check_range_lem _ 256 b h and_erased_table)

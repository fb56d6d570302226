-- ===== src/Prelude/Words.antt =====
-- Machine integers: the widths that the firmware uses, and the checked, saturating and wrapping
-- operations of the source. `usize` has 32 bits on the target.
use Prim.Native.Nat.{ℕ, ◌+◌, ◌-◌, ◌*◌, ◌%◌, ◌≤◌}
use mathlib.Core.Path.{◌≡◌}
use mathlib.Core.Option.{Option, none, some}
use mathlib.Core.Bool.{true}
use native.Mathlib.Omega.{arith}
use sleep_environment_monito.Prelude.Tests.{leb, if◌then◌else◌}

abbrev pub u8_max : ℕ
u8_max = 255

abbrev pub u16_max : ℕ
u16_max = 65535

abbrev pub u32_max : ℕ
u32_max = 4294967295

abbrev pub u64_max : ℕ
u64_max = 18446744073709551615

abbrev pub usize_max : ℕ
usize_max = u32_max

-- `checked_add` of the integers up to `limit`
abbrev pub checked_add : ℕ → ℕ → ℕ → Option ℕ
checked_add limit a b = if leb (a + b) limit then some (a + b) else none

abbrev pub checked_mul : ℕ → ℕ → ℕ → Option ℕ
checked_mul limit a b = if leb (a * b) limit then some (a * b) else none

-- `checked_sub`
abbrev pub checked_sub : ℕ → ℕ → Option ℕ
checked_sub a b = if leb b a then some (a - b) else none

abbrev pub saturating_add : ℕ → ℕ → ℕ → ℕ
saturating_add limit a b = if leb (a + b) limit then a + b else limit

abbrev pub saturating_mul : ℕ → ℕ → ℕ → ℕ
saturating_mul limit a b = if leb (a * b) limit then a * b else limit

-- `wrapping_add` and `wrapping_sub` of the integers below `modulus`
abbrev pub wrapping_add : ℕ → ℕ → ℕ → ℕ
wrapping_add modulus a b = (a + b) % modulus

abbrev pub wrapping_sub : ℕ → ℕ → ℕ → ℕ
wrapping_sub modulus a b = (a + modulus - b) % modulus

pub le→leb : (a b : ℕ) → a ≤ b → leb a b ≡ true
le→leb a b h = ground arith

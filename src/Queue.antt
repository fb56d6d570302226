-- ===== src/Queue.antt =====
-- firmware/src/util/queue.rs: `DropOldestQueue<T, N>`, a ring of `N` optional cells.
-- `N` is an argument. `head + len` stays below `2 * N`, and an array has at most
-- `isize::MAX` cells, so no index sum of the source wraps.
pub mod Fifo
pub mod Cells
pub mod Refine
mod Tests
use sleep_environment_monito.Prelude.{
  ℕ, ◌+◌, ◌-◌, ◌%◌, List, Bool, ◌||◌, Option, none, some, ◌==◌, leb, if◌then◌else◌, get_or, set,
  replicate,
}

pub record DropOldestQueue {ℓ} (T : Type ℓ) : Type ℓ where
  pub buf : List (Option T)
  pub head : ℕ
  pub len : ℕ

module _ {ℓ} {T : Type ℓ} where
  unfoldable pub is_empty : DropOldestQueue T → Bool
  is_empty q = q.len == 0

  unfoldable pub front : ℕ → DropOldestQueue T → Option T
  front n q = if q.len == 0 || n == 0 then none else get_or q.buf q.head none

  unfoldable pub get : ℕ → DropOldestQueue T → ℕ → Option T
  get n q index =
      if leb q.len index || n == 0 then none else get_or q.buf ((q.head + index) % n) none

  -- The dropped item comes first, as the method's result.
  unfoldable pub push : ℕ → DropOldestQueue T → T → Option T × DropOldestQueue T
  push n q item =
      if n == 0
      then (some item, q)
      else if q.len == n
      then (
        get_or q.buf q.head none,
        record q { buf = set q.buf q.head (some item); head = (q.head + 1) % n },
      )
      else (none, record q { buf = set q.buf ((q.head + q.len) % n) (some item); len = q.len + 1 })

  unfoldable pub pop : ℕ → DropOldestQueue T → Option T × DropOldestQueue T
  pop n q = if q.len == 0 || n == 0 then (none, q) else (
    get_or q.buf q.head none,
    record { buf = set q.buf q.head none; head = (q.head + 1) % n; len = q.len - 1 },
  )

unfoldable pub new {ℓ} : (T : Type ℓ) → ℕ → DropOldestQueue T
new T n = record { buf = replicate n none; head = 0; len = 0 }

unfoldable pub is_full {ℓ} : {T : Type ℓ} → ℕ → DropOldestQueue T → Bool
is_full n q = q.len == n

-- ===== src/Queue/Fifo.antt =====
-- What the queue of util/queue.rs promises: a list, oldest first, that holds at most `n` items
-- and gives up its oldest to take another.
use sleep_environment_monito.Prelude.{
  ℕ, List, [], ◌∷◌, ◌++◌, Option, none, some, ◌==◌, if◌then◌else◌, length,
}

module _ {ℓ} {T : Type ℓ} where
  abbrev pub front : List T → Option T
  front [] = none
  front (x ∷ xs) = some x

  abbrev pub rest : List T → List T
  rest [] = []
  rest (x ∷ xs) = xs

  abbrev pub pop : List T → Option T × List T
  pop xs = (front xs, rest xs)

  abbrev pub push : ℕ → List T → T → Option T × List T
  push n xs x =
      if n == 0
      then (some x, xs)
      else if length xs == n
      then (front xs, rest xs ++ x ∷ [])
      else (none, xs ++ x ∷ [])

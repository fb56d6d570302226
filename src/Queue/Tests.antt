-- ===== src/Queue/Tests.antt =====
-- Runs of the ring of util/queue.rs, and its theorems at concrete rings.
use sleep_environment_monito.Prelude.{ℕ, ◌≡◌, refl, List, [], ◌∷◌, none, some}
use sleep_environment_monito.Queue.{new, push, pop}
use sleep_environment_monito.Queue.Refine.{Op, put, take_oldest, run, run_fifo, run_refines}

abbrev calls : List (Op ℕ)
calls = put 1 ∷ put 2 ∷ put 3 ∷ take_oldest ∷ take_oldest ∷ take_oldest ∷ []

run_refines_example : run 2 (new ℕ 2) calls ≡ run_fifo 2 [] calls
run_refines_example = run_refines 2 calls

full_queue_drops_oldest : run 2 (new ℕ 2) calls ≡ none ∷ none ∷ some 1 ∷ some 2 ∷ some 3 ∷ none ∷ []
unfolding run new push pop
full_queue_drops_oldest = refl

zero_capacity_queue_drops_everything :
    run 0 (new ℕ 0) (put 1 ∷ take_oldest ∷ []) ≡ some 1 ∷ none ∷ []
unfolding run new push pop
zero_capacity_queue_drops_everything = refl

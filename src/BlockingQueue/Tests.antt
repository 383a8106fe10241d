-- ===== src/BlockingQueue/Tests.antt =====
-- Runs of the blocking queue at small inputs.
use nets.Prelude.{ℕ, ◌≡◌, refl, true, false, List, [], ◌∷◌, arith}
use nets.BlockingQueue.{Queue, init, Call, puts, takes, puts_unless, pops, step, put}
use nets.BlockingQueue.Order.{Does, step-Does}
use nets.BlockingQueue.Runs.{History, InOrder, advance, run, run-InOrder}

abbrev full : Queue ℕ
full = record { max_queue_size = 2; queue = 5 ∷ 6 ∷ [] }

step-Does_example : Does full (puts_unless 7 true true) (step full (puts_unless 7 true true))
step-Does_example = step-Does full (puts_unless 7 true true) refl

abbrev start : History ℕ
start = record { accepted = 5 ∷ 6 ∷ []; taken = []; now = full }

-- The put waits until an item is taken, and is tried again.
abbrev schedule : List (Call ℕ)
schedule = puts 7 ∷ takes ∷ puts 7 ∷ pops false ∷ pops true ∷ []

run-InOrder_example : InOrder 2 (run start schedule)
run-InOrder_example =
    run-InOrder 2 start schedule (tt, (tt, (tt, (tt, (tt, tt)))))
      (record { fifo = refl; limit = refl; bounded = omega arith })

run-init : run (record { accepted = []; taken = []; now = init 2 }) (puts 5 ∷ puts 6 ∷ []) ≡ start
unfolding run init advance step put
run-init = refl

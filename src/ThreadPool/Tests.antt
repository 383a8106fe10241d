-- ===== src/ThreadPool/Tests.antt =====
-- Schedules of a small pool, by evaluation.
use nets.Prelude.{
  ℕ, zero, suc, ◌^◌, ◌+◌, ◌*◌, ◌≤◌, ◌≡◌, refl, ap, inl, inr, Bool, true, Option, none, some, List,
  [], ◌∷◌, ◌++◌, arith, length, total, All,
}
use nets.BlockingQueue.{init}
use nets.ThreadPool.{Pool, Caller, executes, shuts, construct, num_of_active_threads}
use nets.ThreadPool.Moves.{run_thread, call}
use nets.ThreadPool.System.{
  System, Steps, none_more, then_step, thread_moves, caller_moves, thread_moved, caller_moved,
  start,
}
use nets.ThreadPool.Counts.{live, reserved, IsNew}
use nets.ThreadPool.Tasks.{held}
use nets.ThreadPool.Shutdown.{turns, IsClosed}
use nets.ThreadPool.Runs.{runs-Bounded, runs-Kept, runs-Wind, runs-Refine}
use nets.ThreadPool.Abstract.{Serves, service}
use nets.ThreadPool.Promises.{runs-Settle}
use nets.Promise.{Ending, returns, run_all}
use nets.Promise.Once.{is_task, Settles}

abbrev Split {ℓ} : {A : Type ℓ} → List A → Type ℓ
Split {A} xs = (before : List A) × (x : A) × (after : List A) × (xs ≡ before ++ (x ∷ after))

split {ℓ} : {A : Type ℓ} → ℕ → (xs : List A) → Option (Split xs)
split i [] = none
split zero (x ∷ xs) = some ([], x, xs, refl)
split (suc i) (x ∷ xs) = elim (split i xs) [
  | none ↦ none
  | some (before, y, after, e) ↦ some (x ∷ before, y, after, ap (◌∷◌ x) e)
]

-- The thread of the pool, or the caller, that is to move.
data Pick : Type 0 where
  thread : ℕ → Bool → Pick
  caller : ℕ → Bool → Pick

record Run (s : System ℕ) : Type 0 where
  last : System ℕ
  reach : Steps s last

pick : {s : System ℕ} → Run s → Pick → Run s
unfolding split
pick r (thread i b) = elim (split i r.last.thread_pool) [
  | none ↦ r
  | some (before, x, after, e) ↦ record {
    last = thread_moved r.last before x after b;
    reach = then_step r.reach (thread_moves before x after b e refl);
  }
]
pick r (caller i b) = elim (split i r.last.callers) [
  | none ↦ r
  | some (before, x, after, e) ↦ record {
    last = caller_moved r.last before x after b;
    reach = then_step r.reach (caller_moves before x after b e refl);
  }
]

run : {s : System ℕ} → Run s → List Pick → Run s
unfolding pick
run r [] = r
run r (p ∷ ps) = run (pick r p) ps

abbrev pool : Pool ℕ
pool = record { core_pool_size = 1; maximum_pool_size = 2; ctl = 2 ^ 30; task_queue = init 1 }

abbrev callers : List (Caller ℕ)
callers = executes 7 ∷ executes 8 ∷ executes 9 ∷ shuts ∷ []

abbrev before : Run (start pool callers)
before = record { last = start pool callers; reach = none_more }

-- One task starts the core thread, the next is queued, the third starts another thread, and the
-- shutdown clears the status.
abbrev busy : Run (start pool callers)
busy = run before (
    caller 0 true
    ∷ caller 0 true
    ∷ caller 0 true
    ∷ caller 0 true
    ∷ caller 1 true
    ∷ caller 1 true
    ∷ caller 2 true
    ∷ caller 2 true
    ∷ caller 2 true
    ∷ caller 2 true
    ∷ caller 2 true
    ∷ thread 0 true
    ∷ [])

abbrev closing : Run (start pool callers)
closing = run busy (caller 3 true ∷ caller 3 true ∷ caller 3 true ∷ [])

busy_state :
    (busy.last.accepted ≡ 7 ∷ 8 ∷ 9 ∷ [])
    × (busy.last.ran ≡ 7 ∷ [])
    × (length busy.last.thread_pool ≡ 2)
    × (busy.last.pool.ctl ≡ 2 ^ 30 + 2)
    × (closing.last.pool.ctl ≡ 2)
unfolding run call run_thread init
busy_state = (refl, refl, refl, refl, refl)

made : construct 1 2 1 ≡ some pool
unfolding construct init
made = refl

callers-IsNew : All IsNew callers
callers-IsNew = (inl (7, refl), (inl (8, refl), (inl (9, refl), (inr refl, tt))))

closed : IsClosed closing.last
unfolding run call run_thread init
closed = refl

runs-Bounded_example :
    (num_of_active_threads busy.last.pool.ctl ≡ live busy.last) × (length busy.last.thread_pool ≤ 2)
runs-Bounded_example = runs-Bounded 1 2 1 made (omega arith) callers-IsNew busy.reach

runs-Kept_example :
    total (λ a. a) busy.last.accepted
    ≡ total (λ a. a) busy.last.ran
      + (total (λ a. a) busy.last.pool.task_queue.queue
          + (total (held (λ a. a)) busy.last.thread_pool + total (λ a. a) busy.last.dropped))
runs-Kept_example = runs-Kept 1 2 1 made (omega arith) callers-IsNew busy.reach (λ a. a)

-- Both threads come to their end, and the queued task is dropped.
ending : Run closing.last
unfolding run
ending =
    run (record { last = closing.last; reach = none_more })
      (thread 0 true
        ∷ thread 0 true
        ∷ thread 0 true
        ∷ thread 0 true
        ∷ thread 0 true
        ∷ caller 3 true
        ∷ caller 3 true
        ∷ caller 3 true
        ∷ [])

ending_state :
    (ending.last.thread_pool ≡ []) × (ending.last.ran ≡ 7 ∷ 9 ∷ []) × (ending.last.dropped ≡ 8 ∷ [])
unfolding ending run call run_thread init
ending_state = (refl, refl, refl)

runs-Wind_example :
    IsClosed ending.last
    × (length ending.last.thread_pool ≤ length closing.last.thread_pool)
    × (turns ending.reach
        ≤ 4 * length closing.last.thread_pool + total reserved closing.last.callers)
runs-Wind_example =
    runs-Wind 1 2 1 made (omega arith) callers-IsNew closing.reach closed ending.reach

runs-Refine_example :
    Serves busy.last.pool.maximum_pool_size busy.last.pool.task_queue.max_queue_size
      (service busy.last.pool)
      (service (run busy (caller 3 true ∷ [])).last.pool)
unfolding run call init
runs-Refine_example = runs-Refine 1 2 1 made (omega arith) callers-IsNew busy.reach (
    caller_moves (Caller.answered true ∷ Caller.answered true ∷ Caller.answered true ∷ []) shuts []
      true refl refl)

abbrev task_ending : ℕ → Ending ℕ
task_ending i = returns i

accepted_once : (i : ℕ) → 0 + total (is_task i) (7 ∷ 8 ∷ 9 ∷ []) ≤ 1
accepted_once i = ground arith

busy_accepted : busy.last.accepted ≡ 7 ∷ 8 ∷ 9 ∷ []
unfolding run call run_thread init
busy_accepted = refl

runs-Settle_example :
    Settles task_ending (λ i. none) busy.last.ran (run_all task_ending (λ i. none) busy.last.ran)
runs-Settle_example =
    runs-Settle 1 2 1 made (omega arith) callers-IsNew busy.reach task_ending (λ i. none)
      (λ i. rw busy_accepted (accepted_once i))

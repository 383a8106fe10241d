-- ===== src/ThreadPool/Promises.antt =====
-- The promises of the tasks that `submit` has made (ThreadPool.h), in the pool's runs.
use nets.Prelude.{ℕ, ◌+◌, ◌≤◌, ◌<◌, ◌≡◌, some, List, total, All, arith}
use nets.ThreadPool.{Pool, Caller, construct, running}
use nets.ThreadPool.System.{System, Steps, start}
use nets.ThreadPool.Counts.{IsNew}
use nets.ThreadPool.Runs.{runs-Kept}
use nets.Promise.{Ending, Promise, run_all}
use nets.Promise.Once.{is_task, Settles, run_all-Settles, is_settled}

module _ {ℓ} {V : Type ℓ} where
  -- In an interleaving as in `runs-Bounded`, with tasks that are accepted at most once each and not
  -- both accepted and settled before, no exception leaves a task that `submit` has made, and after
  -- those that have run exactly their promises are settled, each as its function has ended.
  pub runs-Settle :
      (core most size : ℕ) {p : Pool ℕ} {callers : List (Caller ℕ)}
      → construct core most size ≡ some p
      → most < running
      → All IsNew callers
      → {s : System ℕ} (r : Steps (start p callers) s) (ending : ℕ → Ending V) (ps : ℕ → Promise V)
      → ((i : ℕ) → is_settled (ps i) + total (is_task i) s.accepted ≤ 1)
      → Settles ending ps s.ran (run_all ending ps s.ran)
  runs-Settle core most size made small new {s} r ending ps once =
      run_all-Settles ending ps s.ran
        (λ i. omega (arith, once i, runs-Kept core most size made small new r (is_task i)))

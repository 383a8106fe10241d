-- ===== src/EventLoop/Promises.antt =====
-- The promises of the tasks that `submit` has made (EventLoop.h), in the loop's runs.
use nets.Prelude.{ℕ, ◌+◌, ◌≤◌, ◌≡◌, true, subst, sym, total}
use nets.EventLoop.Rounds.{Loop, Steps, init}
use nets.EventLoop.Progress.{after, runs-CatchUp}
use nets.Promise.{Ending, Promise, run_all}
use nets.Promise.Once.{is_task, Settles, run_all-Settles, is_settled}

module _ {ℓ} {V : Type ℓ} where
  -- In an interleaving as in `runs-InOrder` in which the loop is to go on, with tasks that are added
  -- at most once each and not both added and settled before, after some moves of the loop the
  -- promises of all the tasks added so far are settled as their functions have ended, and no
  -- exception has left one.
  pub runs-Fulfil :
      {s : Loop ℕ} (r : Steps init s) (ending : ℕ → Ending V) (ps : ℕ → Promise V)
      → s.event_loop.running ≡ true
      → ((i : ℕ) → is_settled (ps i) + total (is_task i) s.added ≤ 1)
      → (n : ℕ) × Settles ending ps s.added (run_all ending ps (after n s).ran)
  runs-Fulfil {s = s} r ending ps on once =
      let (n, all) = runs-CatchUp r on in
      (
        n,
        subst (λ t. Settles ending ps s.added (run_all ending ps t)) (sym all)
            (run_all-Settles ending ps s.added once),
      )

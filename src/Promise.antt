-- ===== src/Promise.antt =====
-- The tasks that `submit` makes (nets/base/ThreadPool.h, nets/net/core/EventLoop.h): each runs a function and
-- settles a promise. A promise that is settled throws when it is settled again.
pub mod Once
mod Tests
use nets.Prelude.{
  ℕ, Bool, true, false, ◌||◌, Option, none, some, List, [], ◌∷◌, ◌==◌, if◌then◌else◌,
}

module _ {ℓ} (V : Type ℓ) where
  -- How the function ends. An exception is a number.
  pub data Ending : Type ℓ where
    returns : V → Ending
    throws_std : ℕ → Ending
    throws_other : ℕ → Ending

  -- What a promise holds. `make_exception_ptr` copies a caught `std::exception` by its static type, so
  -- what it was is lost; `current_exception` is the exception itself.
  pub data Settled : Type ℓ where
    value : V → Settled
    std_exception : Settled
    same_exception : ℕ → Settled
    no_state : Settled

  abbrev pub Promise : Type ℓ
  Promise = Option Settled

module _ {ℓ} {V : Type ℓ} where
  -- `set_value` and `set_exception`; true when they throw.
  unfoldable pub settle : Promise V → Settled V → Promise V × Bool
  settle none x = (some x, false)
  settle (some y) x = (some y, true)

  abbrev pub outcome : Ending V → Settled V
  outcome (returns v) = value v
  outcome (throws_std n) = std_exception
  outcome (throws_other n) = same_exception n

  -- `set_value` can throw, which the handler for `std::exception` catches. Where a handler settles the
  -- promise and that throws, the exception leaves the task.
  unfoldable pub promise_task : Ending V → Promise V → Promise V × Bool
  unfolding settle
  promise_task (returns v) p =
      let (p', throws) = settle p (value v) in
      if throws then settle p' std_exception else (p', false)
  promise_task (throws_std n) p = settle p std_exception
  promise_task (throws_other n) p = settle p (same_exception n)

  -- `ThreadPool::submit` settles the promise of a task that `execute` refuses.
  unfoldable pub submitted : Bool → Promise V → Promise V × Bool
  unfolding settle
  submitted true p = (p, false)
  submitted false p = settle p no_state

  abbrev pub with_promise : (ℕ → Promise V) → ℕ → Promise V → ℕ → Promise V
  with_promise ps i p j = if i == j then p else ps j

  -- The tasks of a list, each a number, one after the other; true when an exception leaves one.
  unfoldable pub run_all : (ℕ → Ending V) → (ℕ → Promise V) → List ℕ → (ℕ → Promise V) × Bool
  unfolding promise_task
  run_all ending ps [] = (ps, false)
  run_all ending ps (i ∷ is) =
      let (p, escapes) = promise_task (ending i) (ps i) in
      let rest = run_all ending (with_promise ps i p) is in (rest.0, escapes || rest.1)

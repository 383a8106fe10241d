-- ===== src/ThreadPool.antt =====
-- nets/base/ThreadPool.h, nets/base/ThreadPool.cpp. The control word `ctl_` and the task queue are
-- shared; the pool's threads, the threads that call `execute` and those that call `shutdown` are
-- each a program counter with the local variables that are live there, and one of their moves is one
-- atomic access (a load, a compare-exchange, a critical section). A thread that waits on a condition
-- variable stays where it is, and looks again at a later move.
pub mod Moves
pub mod System
pub mod Counts
pub mod Tasks
pub mod Shutdown
pub mod Runs
pub mod Promises
pub mod Emptying
pub mod Abstract
mod Tests
use nets.Prelude.{
  ℕ, ◌+◌, ◌-◌, ◌^◌, ◌%◌, Bool, true, false, Option, none, some, List, [], ◌∷◌, ltb, leb, ◌==◌, ◌||◌,
  not, if◌then◌else◌,
}
use nets.BlockingQueue.{Queue, init}

-- kInt32Bits - 2
abbrev count_bits : ℕ
count_bits = 30

abbrev pub running : ℕ
running = 2 ^ count_bits

abbrev pub shutdown_status : ℕ
shutdown_status = 0

-- `ctl & kCountMask`, of a word that is not negative
abbrev pub num_of_active_threads : ℕ → ℕ
num_of_active_threads ctl = ctl % running

-- `ctl & ~kCountMask`
abbrev status : ℕ → ℕ
status ctl = ctl - ctl % running

abbrev pub is_running : ℕ → Bool
is_running ctl = status ctl == running

abbrev pub is_shutdown : ℕ → Bool
is_shutdown ctl = status ctl == shutdown_status

-- Where a thread of the pool stands in `runThread`.
pub data Place : Type 0 where
  at_task at_loop at_take at_release : Place

module _ {ℓ} (A : Type ℓ) where
  -- The threads of the pool stand apart, in `System`.
  pub record Pool : Type ℓ where
    pub core_pool_size : ℕ
    pub maximum_pool_size : ℕ
    pub ctl : ℕ
    pub task_queue : Queue A

  pub record ThreadWrapper : Type ℓ where
    pub is_core_thread : Bool
    pub task : Option A
    pub place : Place

  -- Where a caller stands: `execute` and `addThreadTask`, with `task`, `isCore` and the `ctl` that
  -- was loaded, or `shutdown`.
  pub data Caller : Type ℓ where
    executes : A → Caller
    adds : A → Bool → Caller
    swaps : A → Bool → ℕ → Caller
    reserves : A → Bool → Caller
    reloads : A → Caller
    pushes : A → ℕ → Caller
    answered : Bool → Caller
    shuts : Caller
    loads : Caller
    clears : ℕ → Caller
    awaits : Caller
    empties : Caller
    finished : Caller

module _ {ℓ} {A : Type ℓ} where
  -- None when the constructor throws `invalid_argument`. The sizes are not negative.
  unfoldable pub construct : ℕ → ℕ → ℕ → Option (Pool A)
  construct core_pool_size maximum_pool_size max_queue_size =
      if leb core_pool_size 0 || not (leb core_pool_size maximum_pool_size)
      then none
      else some (record {
        core_pool_size = core_pool_size;
        maximum_pool_size = maximum_pool_size;
        ctl = running;
        task_queue = init max_queue_size;
      })

  -- `isCore ? corePoolSize_ : maximumPoolSize_`
  abbrev pub limit : Pool A → Bool → ℕ
  limit p is_core = if is_core then p.core_pool_size else p.maximum_pool_size

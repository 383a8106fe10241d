-- ===== src/ThreadPool/Moves.antt =====
-- One atomic move of a thread of the pool (`runThread`, `releaseThread`) and of a caller (`execute`,
-- `addThreadTask`, `shutdown`).
use nets.Prelude.{
  ℕ, ◌+◌, ◌-◌, Bool, true, false, Option, none, some, List, [], ◌∷◌, ltb, leb, ◌==◌, if◌then◌else◌,
}
use nets.BlockingQueue.{
  Step, waits, undefined, returns, take_unless, take_for_unless, try_push, try_pop, is_empty,
}
use nets.ThreadPool.{
  Pool, Place, at_task, at_loop, at_take, at_release, ThreadWrapper, Caller, executes, adds, swaps,
  reserves, reloads, pushes, answered, shuts, loads, clears, awaits, empties, finished,
  shutdown_status, num_of_active_threads, is_running, is_shutdown, limit,
}

module _ {ℓ} (A : Type ℓ) where
  -- The thread is gone from `threadPool_` when `left` is empty; `ran` is the task it has run.
  pub record Turn : Type ℓ where
    pub pool : Pool A
    pub left : List (ThreadWrapper A)
    pub ran : List A

  -- `started` is the thread put into `threadPool_`, `accepted` the task that the pool has taken on,
  -- `dropped` the task that `shutdown` has removed from the queue.
  pub record Answer : Type ℓ where
    pub pool : Pool A
    pub caller : Caller A
    pub started : List (ThreadWrapper A)
    pub accepted : List A
    pub dropped : List A

module _ {ℓ} {A : Type ℓ} where
  abbrev pub as_list : Option A → List A
  as_list none = []
  as_list (some a) = a ∷ []

  -- `if (task_ != nullptr) { task_(); task_ = nullptr; }`
  abbrev pub run_task : Pool A → ThreadWrapper A → Turn A
  run_task p t = record {
    pool = p;
    left = record t { task = none; place = at_loop } ∷ [];
    ran = as_list t.task;
  }

  abbrev pub goes : Pool A → ThreadWrapper A → Place → Turn A
  goes p t place = record { pool = p; left = record t { place = place } ∷ []; ran = [] }

  abbrev pub took : Pool A → ThreadWrapper A → Step A → Turn A
  took p t waits = goes p t at_take
  took p t undefined = goes p t at_take
  took p t (returns true none w q) = goes (record p { task_queue = q }) t at_task
  took p t (returns true (some a) w q) =
      goes (record p { task_queue = q }) (record t { task = some a }) at_task
  took p t (returns false v w q) =
      goes (record p { task_queue = q }) t (if t.is_core_thread then at_task else at_release)

  -- The critical section of either `take`, whose predicate is `isShutdown(ctl_)`.
  abbrev pub takes_from : Pool A → Bool → Bool → Step A
  takes_from p is_core timed_out =
      if is_core
      then take_unless p.task_queue (is_shutdown p.ctl) (is_shutdown p.ctl)
      else take_for_unless p.task_queue timed_out (is_shutdown p.ctl) (is_shutdown p.ctl)

  unfoldable pub take_task : Pool A → ThreadWrapper A → Bool → Turn A
  take_task p t timed_out = took p t (takes_from p t.is_core_thread timed_out)

  unfoldable pub release_thread : Pool A → Turn A
  release_thread p = record { pool = record p { ctl = p.ctl - 1 }; left = []; ran = [] }

  unfoldable pub run_at : Pool A → ThreadWrapper A → Bool → Place → Turn A
  unfolding take_task release_thread
  run_at p t timed_out at_task = run_task p t
  run_at p t timed_out at_loop = goes p t (if is_running p.ctl then at_take else at_release)
  run_at p t timed_out at_take = take_task p t timed_out
  run_at p t timed_out at_release = release_thread p

  unfoldable pub run_thread : Pool A → ThreadWrapper A → Bool → Turn A
  unfolding run_at
  run_thread p t timed_out = run_at p t timed_out t.place

  abbrev pub becomes : Pool A → Caller A → Answer A
  becomes p c = record { pool = p; caller = c; started = []; accepted = []; dropped = [] }

  -- Where `execute` goes on when `addThreadTask(task, isCore)` has returned false.
  abbrev pub not_added : A → Bool → Caller A
  not_added task is_core = if is_core then reloads task else answered false

  unfoldable pub add_thread_task : Pool A → A → Bool → Answer A
  add_thread_task p task is_core = becomes p (
      if is_shutdown p.ctl
      then not_added task is_core
      else if leb (limit p is_core) (num_of_active_threads p.ctl)
      then not_added task is_core
      else swaps task is_core p.ctl)

  -- `ctl_.compare_exchange_strong(ctl, ctl + 1)`
  unfoldable pub swap_ctl : Pool A → A → Bool → ℕ → Answer A
  swap_ctl p task is_core ctl =
      if p.ctl == ctl
      then becomes (record p { ctl = ctl + 1 }) (reserves task is_core)
      else becomes p (adds task is_core)

  -- Under the lock, a place being reserved.
  unfoldable pub emplace_thread : Pool A → A → Bool → Answer A
  emplace_thread p task is_core =
      if is_running p.ctl
      then (record {
        pool = p;
        caller = answered true;
        started = record { is_core_thread = is_core; task = some task; place = at_task } ∷ [];
        accepted = task ∷ [];
        dropped = [];
      })
      else becomes (record p { ctl = p.ctl - 1 }) (not_added task is_core)

  unfoldable pub execute : Pool A → A → Answer A
  execute p task = becomes p (
      if is_shutdown p.ctl
      then answered false
      else if ltb (num_of_active_threads p.ctl) p.core_pool_size
      then adds task true
      else pushes task p.ctl)

  abbrev pub pushed : Pool A → A → Step A → Answer A
  pushed p task (returns true v w q) = record {
    pool = record p { task_queue = q };
    caller = answered true;
    started = [];
    accepted = task ∷ [];
    dropped = [];
  }
  pushed p task _ = becomes p (adds task false)

  unfoldable pub push_task : Pool A → A → ℕ → Bool → Answer A
  unfolding try_push
  push_task p task ctl owns_lock =
      if is_running ctl
      then pushed p task (try_push p.task_queue task owns_lock)
      else becomes p (adds task false)

  -- `kShutdown | (ctl & kCountMask)`, if nothing has changed the word
  unfoldable pub clear_status : Pool A → ℕ → Answer A
  clear_status p ctl =
      if p.ctl == ctl
      then becomes (record p { ctl = shutdown_status + num_of_active_threads ctl }) awaits
      else becomes p loads

  abbrev pub popped : Pool A → Step A → Answer A
  popped p (returns true v w q) = record {
    pool = record p { task_queue = q };
    caller = empties;
    started = [];
    accepted = [];
    dropped = as_list v;
  }
  popped p _ = becomes p empties

  unfoldable pub empty_queue : Pool A → Bool → Answer A
  unfolding try_pop
  empty_queue p owns_lock =
      if is_empty p.task_queue
      then becomes p finished
      else popped p (try_pop p.task_queue owns_lock)

  -- `owns_lock` is what `tryPush` or `tryPop` finds when it tries the queue's lock.
  unfoldable pub call : Pool A → Caller A → Bool → Answer A
  unfolding execute add_thread_task swap_ctl emplace_thread push_task clear_status empty_queue
  call p (executes task) owns_lock = execute p task
  call p (adds task is_core) owns_lock = add_thread_task p task is_core
  call p (swaps task is_core ctl) owns_lock = swap_ctl p task is_core ctl
  call p (reserves task is_core) owns_lock = emplace_thread p task is_core
  call p (reloads task) owns_lock = becomes p (pushes task p.ctl)
  call p (pushes task ctl) owns_lock = push_task p task ctl owns_lock
  call p shuts owns_lock = becomes p (if is_shutdown p.ctl then finished else loads)
  call p loads owns_lock = becomes p (clears p.ctl)
  call p (clears ctl) owns_lock = clear_status p ctl
  call p awaits owns_lock = becomes p (if num_of_active_threads p.ctl == 0 then empties else awaits)
  call p empties owns_lock = empty_queue p owns_lock
  call p c owns_lock = becomes p c

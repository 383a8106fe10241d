-- ===== src/ThreadPool/Tasks.antt =====
-- Where a task that the pool has taken on can be: run, in the queue, with a thread, or dropped.
use nets.Prelude.{
  ℕ, ◌+◌, ◌≡◌, refl, sym, ap, subst, Bool, true, false, none, some, List, [], ◌∷◌, ◌++◌, arith,
  length, total, total-append, All, All-append, All-append_left, All-append_right, if◌then◌else◌,
}
use nets.BlockingQueue.{
  Step, waits, undefined, returns, Call, takes_unless, takes_for_unless, pushes, pops, step,
  offered,
}
use nets.BlockingQueue.Order.{Does, step-Does, IsSteady}
use nets.ThreadPool.{Pool, at_task, ThreadWrapper, Caller, empties, is_shutdown}
use nets.ThreadPool.Moves.{
  Turn, Answer, as_list, took, takes_from, run_thread, run_at, pushed, popped, call, take_task,
  release_thread, execute, add_thread_task, swap_ctl, emplace_thread, push_task, clear_status,
  empty_queue,
}
use nets.ThreadPool.System.{
  System, Step as Move, thread_moves, caller_moves, thread_moved, caller_moved, Steps, none_more,
  then_step,
}

module _ {ℓ} {A : Type ℓ} where
  -- A thread that is not about to run a task has none.
  abbrev pub IsIdle : ThreadWrapper A → Type ℓ
  IsIdle t = elim t.place [ at_task ↦ Unit {ℓ} | _ ↦ t.task ≡ none ]

  abbrev pub takes_call : Pool A → Bool → Bool → Call A
  takes_call p is_core timed_out =
      if is_core
      then takes_unless (is_shutdown p.ctl) (is_shutdown p.ctl)
      else takes_for_unless timed_out (is_shutdown p.ctl) (is_shutdown p.ctl)

  takes_call-IsSteady :
      (p : Pool A) (is_core timed_out : Bool) → IsSteady (takes_call p is_core timed_out)
  takes_call-IsSteady p true b = ground arith
  takes_call-IsSteady p false b = ground arith

  pub takes_from-Does :
      (p : Pool A) (is_core timed_out : Bool)
      → Does p.task_queue (takes_call p is_core timed_out) (takes_from p is_core timed_out)
  unfolding step
  takes_from-Does p true b =
      step-Does p.task_queue (takes_call p true b) (takes_call-IsSteady p true b)
  takes_from-Does p false b =
      step-Does p.task_queue (takes_call p false b) (takes_call-IsSteady p false b)

  pub offered-takes_call :
      (p : Pool A) (is_core timed_out : Bool) → offered (takes_call p is_core timed_out) ≡ []
  offered-takes_call p true b = refl
  offered-takes_call p false b = refl

  module _ (w : A → ℕ) where
    abbrev pub held : ThreadWrapper A → ℕ
    held t = total w (as_list t.task)

    abbrev TurnKeeps : Pool A → ThreadWrapper A → Turn A → Type ℓ
    TurnKeeps p t m =
        (total w p.task_queue.queue + held t
          ≡ total w m.ran + (total w m.pool.task_queue.queue + total held m.left))
        × All IsIdle m.left

    took-Keeps :
        (p : Pool A) (t : ThreadWrapper A) (c : Call A) (r : Step A)
        → offered c ≡ []
        → t.task ≡ none
        → Does p.task_queue c r
        → TurnKeeps p t (took p t r)
    took-Keeps p t c waits e h d = (omega arith, (h, tt))
    took-Keeps p t c undefined e h d = absurd d.1
    took-Keeps p t c (returns true none _ q) e h d = absurd (omega (arith, d, ap length e))
    took-Keeps p t c (returns true (some a) _ q) e h d =
        (omega (arith, ap (total w) d.0, ap (λ o. total w (as_list o)) h), (tt, tt))
    took-Keeps p t c (returns false v _ q) e h d =
        (omega (arith, ap (λ x. total w x.queue) d.0), (ground arith, tt))

    take_task-Keeps :
        (p : Pool A) (t : ThreadWrapper A) (timed_out : Bool)
        → t.task ≡ none
        → TurnKeeps p t (take_task p t timed_out)
    unfolding take_task
    take_task-Keeps p t timed_out h =
        took-Keeps p t _ _ (offered-takes_call p t.is_core_thread timed_out) h
          (takes_from-Does p t.is_core_thread timed_out)

    run_thread-Keeps :
        (p : Pool A) (t : ThreadWrapper A) (timed_out : Bool)
        → IsIdle t
        → TurnKeeps p t (run_thread p t timed_out)
    unfolding run_thread run_at release_thread
    run_thread-Keeps p t timed_out h = ground (arith, take_task-Keeps p t timed_out)

    -- What the callers add, and what `shutdown` takes out.
    abbrev AnswerKeeps : Pool A → Answer A → Type ℓ
    AnswerKeeps p m =
        (total w p.task_queue.queue + total w m.accepted
          ≡ total w m.pool.task_queue.queue + (total held m.started + total w m.dropped))
        × All IsIdle m.started

    pushed-Keeps :
        (p : Pool A) (task : A) (owns_lock : Bool) (r : Step A)
        → Does p.task_queue (pushes task owns_lock) r
        → AnswerKeeps p (pushed p task r)
    pushed-Keeps p task b waits d = (omega arith, tt)
    pushed-Keeps p task b undefined d = absurd d.1
    pushed-Keeps p task b (returns true none _ q) d =
        (omega (arith, ap (total w) d.0, total-append w p.task_queue.queue (task ∷ [])), tt)
    pushed-Keeps p task b (returns true (some a) _ q) d = absurd (omega (arith, ap length d.3))
    pushed-Keeps p task b (returns false v _ q) d = (omega arith, tt)

    popped-Keeps :
        (p : Pool A) (owns_lock : Bool) (r : Step A)
        → Does p.task_queue (pops owns_lock) r
        → AnswerKeeps p (popped p r)
    popped-Keeps p b waits d = (omega arith, tt)
    popped-Keeps p b undefined d = absurd d.1
    popped-Keeps p b (returns true none _ q) d = absurd (omega (arith, d))
    popped-Keeps p b (returns true (some a) _ q) d = (omega (arith, ap (total w) d.0), tt)
    popped-Keeps p b (returns false v _ q) d = (omega arith, tt)

    push_task-Keeps :
        (p : Pool A) (task : A) (ctl : ℕ) (owns_lock : Bool)
        → AnswerKeeps p (push_task p task ctl owns_lock)
    unfolding push_task step
    push_task-Keeps p task ctl b =
        ground (arith, pushed-Keeps p task b _ (step-Does p.task_queue (Call.pushes task b) tt))

    empty_queue-Keeps : (p : Pool A) (owns_lock : Bool) → AnswerKeeps p (empty_queue p owns_lock)
    unfolding empty_queue step
    empty_queue-Keeps p b = ground (arith, popped-Keeps p b _ (step-Does p.task_queue (pops b) tt))

    call-Keeps : (p : Pool A) (c : Caller A) (owns_lock : Bool) → AnswerKeeps p (call p c owns_lock)
    unfolding call execute add_thread_task swap_ctl emplace_thread clear_status
    call-Keeps p (Caller.pushes task ctl) b = push_task-Keeps p task ctl b
    call-Keeps p empties b = empty_queue-Keeps p b
    call-Keeps p c b = ground arith

  -- Each task taken on is counted once among those run, queued, held by a thread, and dropped.
  pub record IsKept (s : System A) : Type ℓ where
    pub idle : All IsIdle s.thread_pool
    pub kept :
        (w : A → ℕ)
        → total w s.accepted
          ≡ total w s.ran
            + (total w s.pool.task_queue.queue + (total (held w) s.thread_pool + total w s.dropped))

  thread_moved-IsKept :
      (s : System A) (before : List (ThreadWrapper A)) (t : ThreadWrapper A)
      (after : List (ThreadWrapper A)) (timed_out : Bool)
      → s.thread_pool ≡ before ++ (t ∷ after)
      → IsKept s
      → IsKept (thread_moved s before t after timed_out)
  thread_moved-IsKept s before t after timed_out e h =
      let m = run_thread s.pool t timed_out in
      let idle = subst (All IsIdle) e h.idle in
      let rest = All-append_right IsIdle before (t ∷ after) idle in
      let turn : (w : A → ℕ) → TurnKeeps w s.pool t m =
        λ w. run_thread-Keeps w s.pool t timed_out rest.0 in
      record {
        idle =
            All-append IsIdle before _ (All-append_left IsIdle before _ idle)
              (All-append IsIdle m.left after (turn (λ _. 0)).1 rest.1);
        kept = λ w. omega (
          arith,
          h.kept w,
          (turn w).0,
          total-append w s.ran m.ran,
          ap (total (held w)) e,
          total-append (held w) before (t ∷ after),
          total-append (held w) before (m.left ++ after),
          total-append (held w) m.left after,
        );
      }

  caller_moved-IsKept :
      (s : System A) (before : List (Caller A)) (c : Caller A) (after : List (Caller A))
      (owns_lock : Bool)
      → IsKept s
      → IsKept (caller_moved s before c after owns_lock)
  caller_moved-IsKept s before c after owns_lock h =
      let m = call s.pool c owns_lock in
      record {
        idle =
            All-append IsIdle s.thread_pool m.started h.idle
              (call-Keeps (λ _. 0) s.pool c owns_lock).1;
        kept = λ w. omega (
          arith,
          h.kept w,
          (call-Keeps w s.pool c owns_lock).0,
          total-append w s.accepted m.accepted,
          total-append w s.dropped m.dropped,
          total-append (held w) s.thread_pool m.started,
        );
      }

  pub step-IsKept : {s t : System A} → Move s t → IsKept s → IsKept t
  step-IsKept {s} (thread_moves before x after b e e') h =
      subst IsKept (sym e') (thread_moved-IsKept s before x after b e h)
  step-IsKept {s} (caller_moves before x after b e e') h =
      subst IsKept (sym e') (caller_moved-IsKept s before x after b h)

  -- In every interleaving.
  pub Steps-IsKept : {s t : System A} → Steps s t → IsKept s → IsKept t
  Steps-IsKept none_more h = h
  Steps-IsKept (then_step r m) h = step-IsKept m (Steps-IsKept r h)

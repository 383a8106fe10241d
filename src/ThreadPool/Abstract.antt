-- ===== src/ThreadPool/Abstract.antt =====
-- What a pool is to those who use it: open or not, a number of members, and a backlog of tasks.
use nets.Prelude.{
  ℕ, ◌+◌, ◌-◌, ◌≤◌, ◌<◌, ◌≡◌, refl, ap, subst, inl, inr, Bool, true, false, none, some, List, [],
  ◌∷◌, ◌++◌, arith, length, length-append, total, total-append, All, All-append_right, Bool-cases,
  ◌==◌, if◌then◌else◌,
}
use nets.BlockingQueue.{Step, waits, undefined, returns, Call, pushes, pops, step, is_empty}
use nets.BlockingQueue.Order.{Does, step-Does}
use nets.ThreadPool.{
  Pool, Place, at_task, at_loop, at_take, at_release, ThreadWrapper, Caller, executes, adds, swaps,
  reserves, reloads, answered, shuts, loads, clears, awaits, empties, finished, running,
  num_of_active_threads, is_running, is_shutdown,
}
use nets.ThreadPool.Moves.{
  Answer, took, run_thread, run_at, pushed, popped, call, take_task, release_thread, execute,
  add_thread_task, swap_ctl, emplace_thread, push_task, clear_status, empty_queue,
}
use nets.ThreadPool.System.{System, Step as Move, thread_moves, caller_moves}
use nets.ThreadPool.Counts.{HasRoom, IsCounted, IsWord, Fits, live, reserved}
use nets.ThreadPool.Emptying.{WaitsClosed, AllClosed}
use nets.ThreadPool.Tasks.{takes_call, takes_from-Does, offered-takes_call}

module _ {ℓ} (A : Type ℓ) where
  pub record Service : Type ℓ where
    pub open_for_tasks : Bool
    pub members : ℕ
    pub backlog : List A

closed_not_running :
    (k ctl : ℕ) → IsWord ctl (k + 0) → is_shutdown ctl ≡ true → k < running → is_running ctl ≡ false
closed_not_running k ctl w z h = ground arith

module _ {ℓ} {A : Type ℓ} where
  abbrev pub Sets : Service A → Bool → ℕ → List A → Type ℓ
  Sets v open_for_tasks members backlog =
      (v.open_for_tasks ≡ open_for_tasks) × (v.members ≡ members) × (v.backlog ≡ backlog)

  -- One step of the service, with at most `most` members and a backlog of at most `size`.
  pub data Serves (most size : ℕ) (v v' : Service A) : Type ℓ where
    rests : Sets v' v.open_for_tasks v.members v.backlog → Serves most size v v'
    joins :
        v.open_for_tasks ≡ true
        → v.members < most
        → Sets v' true (v.members + 1) v.backlog
        → Serves most size v v'
    leaves :
        1 ≤ v.members → Sets v' v.open_for_tasks (v.members - 1) v.backlog → Serves most size v v'
    closes : Sets v' false v.members v.backlog → Serves most size v v'
    queues :
        (task : A)
        → length v.backlog < size
        → Sets v' v.open_for_tasks v.members (v.backlog ++ (task ∷ []))
        → Serves most size v v'
    hands_out :
        (task : A)
        → v.open_for_tasks ≡ true
        → v.backlog ≡ task ∷ v'.backlog
        → Sets v' true v.members v'.backlog
        → Serves most size v v'
    discards :
        (task : A)
        → v.open_for_tasks ≡ false
        → v.backlog ≡ task ∷ v'.backlog
        → Sets v' false v.members v'.backlog
        → Serves most size v v'

  abbrev pub service : Pool A → Service A
  service p = record {
    open_for_tasks = is_running p.ctl;
    members = num_of_active_threads p.ctl;
    backlog = p.task_queue.queue;
  }

  abbrev Refines : Pool A → Pool A → Type ℓ
  Refines p p' = Serves p.maximum_pool_size p.task_queue.max_queue_size (service p) (service p')

  took-Refines :
      (k : ℕ) (p : Pool A) (t : ThreadWrapper A) (timed_out : Bool) (r : Step A)
      → IsWord p.ctl k
      → k < running
      → Does p.task_queue (takes_call p t.is_core_thread timed_out) r
      → Refines p (took p t r).pool
  took-Refines k p t b waits w f d = rests (refl, refl, refl)
  took-Refines k p t b undefined w f d = absurd d.1
  took-Refines k p t b (returns true none _ q) w f d =
      absurd (omega (arith, d, ap length (offered-takes_call p t.is_core_thread b)))
  took-Refines k p t b (returns true (some a) _ q) w f d =
      let o : is_running p.ctl ≡ true = ground arith in hands_out a o d.0 (o, refl, refl)
  took-Refines k p t b (returns false v _ q) w f d = rests (refl, refl, ap (λ x. x.queue) d.0)

  run_at-Refines :
      (k : ℕ) (p : Pool A) (t : ThreadWrapper A) (timed_out : Bool) (place : Place)
      → IsWord p.ctl (k + 1)
      → k + 1 < running
      → Refines p (run_at p t timed_out place).pool
  unfolding run_at take_task release_thread
  run_at-Refines k p t b at_task w f = rests (refl, refl, refl)
  run_at-Refines k p t b at_loop w f = rests (refl, refl, refl)
  run_at-Refines k p t b at_take w f =
      took-Refines (k + 1) p t b _ w f (takes_from-Does p t.is_core_thread b)
  run_at-Refines k p t b at_release w f = leaves (ground arith) (ground arith, ground arith, refl)

  pushed-Refines :
      (p : Pool A) (task : A) (owns_lock : Bool) (r : Step A)
      → Does p.task_queue (pushes task owns_lock) r
      → Refines p (pushed p task r).pool
  pushed-Refines p task b waits d = rests (refl, refl, refl)
  pushed-Refines p task b undefined d = absurd d.1
  pushed-Refines p task b (returns true none _ q) d = queues task d.4 (refl, refl, d.0)
  pushed-Refines p task b (returns true (some a) _ q) d = absurd (omega (arith, ap length d.3))
  pushed-Refines p task b (returns false v _ q) d = rests (refl, refl, refl)

  popped-Refines :
      (p : Pool A) (owns_lock : Bool) (r : Step A)
      → is_running p.ctl ≡ false
      → Does p.task_queue (pops owns_lock) r
      → Refines p (popped p r).pool
  popped-Refines p b waits o d = rests (refl, refl, refl)
  popped-Refines p b undefined o d = absurd d.1
  popped-Refines p b (returns true none _ q) o d = absurd (omega (arith, d))
  popped-Refines p b (returns true (some a) _ q) o d = discards a o d.0 (o, refl, refl)
  popped-Refines p b (returns false v _ q) o d = rests (refl, refl, refl)

  swap_ctl-Refines :
      (k : ℕ) (p : Pool A) (task : A) (is_core : Bool) (ctl : ℕ)
      → Fits p
      → IsWord p.ctl k
      → k ≤ p.maximum_pool_size
      → HasRoom p.core_pool_size p.maximum_pool_size (swaps task is_core ctl)
      → Refines p (swap_ctl p task is_core ctl).pool
  unfolding swap_ctl
  swap_ctl-Refines k p task is_core ctl f w h r = elim (Bool-cases (p.ctl == ctl)) [
    | inl same ↦ rw same (joins (ground arith) (ground arith) (ground arith, ground arith, refl))
    | inr other ↦ rw other (rests (refl, refl, refl))
  ]

  clear_status-Refines :
      (k : ℕ) (p : Pool A) (ctl : ℕ)
      → k < running
      → IsWord p.ctl k
      → Refines p (clear_status p ctl).pool
  unfolding clear_status
  clear_status-Refines k p ctl h w = elim (Bool-cases (p.ctl == ctl)) [
    | inl same ↦ rw same (closes (ground arith, ground arith, refl))
    | inr other ↦ rw other (rests (refl, refl, refl))
  ]

  emplace_thread-Refines :
      (k : ℕ) (p : Pool A) (task : A) (is_core : Bool)
      → k + 1 < running
      → IsWord p.ctl (k + 1)
      → Refines p (emplace_thread p task is_core).pool
  unfolding emplace_thread
  emplace_thread-Refines k p task is_core h w = elim (Bool-cases (is_running p.ctl)) [
    | inl runs ↦ rw runs (rests (runs, refl, refl))
    | inr not_running ↦ rw not_running (leaves (ground arith) (ground arith, ground arith, refl))
  ]

  either-Refines :
      (p : Pool A) (b : Bool) (x y : Answer A)
      → Refines p x.pool
      → Refines p y.pool
      → Refines p (if b then x else y).pool
  either-Refines p true x y hx hy = hx
  either-Refines p false x y hx hy = hy

  call-Refines :
      (k : ℕ) (p : Pool A) (c : Caller A) (owns_lock : Bool)
      → Fits p
      → k + reserved c ≤ p.maximum_pool_size
      → IsWord p.ctl (k + reserved c)
      → HasRoom p.core_pool_size p.maximum_pool_size c
      → WaitsClosed p.ctl c
      → Refines p (call p c owns_lock).pool
  unfolding call execute add_thread_task push_task empty_queue step
  call-Refines k p (swaps task is_core ctl) b f h w r z =
      swap_ctl-Refines (k + 0) p task is_core ctl f w h r
  call-Refines k p (clears ctl) b f h w r z =
      clear_status-Refines (k + 0) p ctl (omega (arith, h, f)) w
  call-Refines k p (reserves task is_core) b f h w r z =
      emplace_thread-Refines k p task is_core (omega (arith, h, f)) w
  call-Refines k p (Caller.pushes task ctl) b f h w r z =
      either-Refines p (is_running ctl) _ _
        (pushed-Refines p task b _ (step-Does p.task_queue (Call.pushes task b) tt))
        (rests (refl, refl, refl))
  call-Refines k p empties b f h w r z =
      either-Refines p (is_empty p.task_queue) _ _ (rests (refl, refl, refl)) (
        popped-Refines p b _ (closed_not_running k p.ctl w z (omega (arith, h, f)))
          (step-Does p.task_queue (pops b) tt))
  call-Refines k p (executes task) b f h w r z = rests (refl, refl, refl)
  call-Refines k p (adds task is_core) b f h w r z = rests (refl, refl, refl)
  call-Refines k p (reloads task) b f h w r z = rests (refl, refl, refl)
  call-Refines k p (answered _) b f h w r z = rests (refl, refl, refl)
  call-Refines k p shuts b f h w r z = rests (refl, refl, refl)
  call-Refines k p loads b f h w r z = rests (refl, refl, refl)
  call-Refines k p awaits b f h w r z = rests (refl, refl, refl)
  call-Refines k p finished b f h w r z = rests (refl, refl, refl)

  -- Every move of a pool in which the count is right is one step of the service.
  pub step-Refines :
      {s t : System A}
      → Move s t
      → IsCounted s
      → AllClosed s
      → Serves s.pool.maximum_pool_size s.pool.task_queue.max_queue_size
          (service s.pool)
          (service t.pool)
  unfolding run_thread
  step-Refines {s} (thread_moves before x after b e e') h v =
      let k = length before + length after + total reserved s.callers in
      let n : live s ≡ k + 1 = omega (arith, ap length e, length-append before (x ∷ after)) in
      rw e' (
        run_at-Refines k s.pool x b x.place (subst (IsWord s.pool.ctl) n h.word)
          (omega (arith, n, h.bounded, h.fits)))
  step-Refines {s} (caller_moves before c after b e e') h v =
      let P : Caller A → Type 0 = HasRoom s.pool.core_pool_size s.pool.maximum_pool_size in
      let Q : Caller A → Type 0 = WaitsClosed s.pool.ctl in
      let k = length s.thread_pool + (total reserved before + total reserved after) in
      let n : live s ≡ k + reserved c =
        omega (arith, ap (total reserved) e, total-append reserved before (c ∷ after)) in
      let room = All-append_right P before (c ∷ after) (subst (All P) e h.room) in
      rw e' (
        call-Refines k s.pool c b h.fits (omega (arith, n, h.bounded))
          (subst (IsWord s.pool.ctl) n h.word) room.0
          (All-append_right Q before (c ∷ after) (subst (All Q) e v)).0)

-- ===== src/ThreadPool/Shutdown.antt =====
-- After the status is cleared: no thread is started any more, and those that are there come to an end.
use nets.Prelude.{
  ℕ, suc, ◌+◌, ◌*◌, ◌≤◌, ◌<◌, ◌≡◌, ap, ◌∙◌, subst, Bool, true, List, [], ◌∷◌, ◌++◌, arith, length,
  length-append, total, total-append, All, All-append_right,
}
use nets.BlockingQueue.{take_unless, take_for_unless}
use nets.ThreadPool.{
  Pool, at_task, at_loop, at_take, at_release, ThreadWrapper, Caller, empties, running, is_shutdown,
}
use nets.ThreadPool.Moves.{
  Answer, run_thread, run_at, call, take_task, release_thread, execute, add_thread_task, swap_ctl,
  emplace_thread, push_task, clear_status, empty_queue, pushed, popped,
}
use nets.BlockingQueue.{Step}
use nets.ThreadPool.System.{
  System, Step as Move, thread_moves, caller_moves, thread_moved, caller_moved, Steps, none_more,
  then_step,
}
use nets.ThreadPool.Counts.{HasRoom, IsCounted, live, reserved, Steps-IsCounted}

module _ {ℓ} {A : Type ℓ} where
  abbrev pub IsClosed : System A → Type 0
  IsClosed s = is_shutdown s.pool.ctl ≡ true

  -- How many moves a thread has left once the pool is shut down.
  abbrev pub moves_left : ThreadWrapper A → ℕ
  moves_left t = elim t.place [ at_task ↦ 3 | at_loop ↦ 2 | at_take ↦ 4 | at_release ↦ 1 ]

  abbrev pub rank : System A → ℕ
  rank s = total moves_left s.thread_pool + total reserved s.callers

  run_thread-Closed :
      (p : Pool A) (t : ThreadWrapper A) (timed_out : Bool) (k : ℕ)
      → p.ctl ≡ suc k
      → suc k < running
      → is_shutdown p.ctl ≡ true
      → let m = run_thread p t timed_out in
        (is_shutdown m.pool.ctl ≡ true)
        × (length m.left ≤ 1)
        × (total moves_left m.left < moves_left t)
  unfolding run_thread run_at take_task release_thread take_unless take_for_unless
  run_thread-Closed p t timed_out k e h c = ground arith

  abbrev CallClosed : Answer A → Type ℓ
  CallClosed m = (is_shutdown m.pool.ctl ≡ true) × (m.started ≡ []) × (reserved m.caller ≡ 0)

  pushed-Closed :
      (p : Pool A) (task : A) (ctl : ℕ) (r : Step A)
      → is_shutdown p.ctl ≡ true
      → CallClosed (pushed p task r)
  pushed-Closed p task ctl r h = ground arith

  popped-Closed : (p : Pool A) (r : Step A) → is_shutdown p.ctl ≡ true → CallClosed (popped p r)
  popped-Closed p r h = ground arith

  call-Closed :
      (p : Pool A) (c : Caller A) (owns_lock : Bool)
      → reserved c ≤ p.ctl
      → p.ctl < running
      → HasRoom p.core_pool_size p.maximum_pool_size c
      → is_shutdown p.ctl ≡ true
      → CallClosed (call p c owns_lock)
  unfolding call execute add_thread_task swap_ctl emplace_thread push_task clear_status empty_queue
  call-Closed p (Caller.pushes task ctl) b k w r h = ground (arith, pushed-Closed p task ctl)
  call-Closed p empties b k w r h = ground (arith, popped-Closed p)
  call-Closed p c b k w r h = ground arith

  ctl_of_closed :
      (s : System A) → IsCounted s → IsClosed s → (s.pool.ctl ≡ live s) × (live s < running)
  ctl_of_closed s h c =
      (ground (arith, h.word, h.bounded, h.fits), omega (arith, h.bounded, h.fits))

  -- What a move leaves of a closed pool.
  pub record Winds (s t : System A) : Type ℓ where
    pub closed : IsClosed t
    pub fewer : length t.thread_pool ≤ length s.thread_pool

  thread_moved-Winds :
      (s : System A) (before : List (ThreadWrapper A)) (t : ThreadWrapper A)
      (after : List (ThreadWrapper A)) (timed_out : Bool)
      → s.thread_pool ≡ before ++ (t ∷ after)
      → IsCounted s
      → IsClosed s
      → let s' = thread_moved s before t after timed_out in Winds s s' × (rank s' < rank s)
  thread_moved-Winds s before t after timed_out e h c =
      let m = run_thread s.pool t timed_out in
      let n : length s.thread_pool ≡ length before + suc (length after) =
        ap length e ∙ length-append before (t ∷ after) in
      let (i, j) = ctl_of_closed s h c in
      let d =
        run_thread-Closed s.pool t timed_out
          (length before + length after + total reserved s.callers) (omega (arith, n, i))
          (omega (arith, n, j)) c in
      (
        record {
          closed = d.0;
          fewer =
              omega
                (arith, n, d.1, length-append before (m.left ++ after), length-append m.left after);
        },
        omega (
          arith,
          d.2,
          ap (total moves_left) e,
          total-append moves_left before (t ∷ after),
          total-append moves_left before (m.left ++ after),
          total-append moves_left m.left after,
        ),
      )

  caller_moved-Winds :
      (s : System A) (before : List (Caller A)) (c : Caller A) (after : List (Caller A))
      (owns_lock : Bool)
      → s.callers ≡ before ++ (c ∷ after)
      → IsCounted s
      → IsClosed s
      → let s' = caller_moved s before c after owns_lock in
        Winds s s' × (rank s' + reserved c ≤ rank s)
  caller_moved-Winds s before c after owns_lock e h closed =
      let P = HasRoom s.pool.core_pool_size s.pool.maximum_pool_size in
      let m = call s.pool c owns_lock in
      let n = ap (total reserved) e ∙ total-append reserved before (c ∷ after) in
      let (i, j) = ctl_of_closed s h closed in
      let room = All-append_right P before (c ∷ after) (subst (All P) e h.room) in
      let d =
        call-Closed s.pool c owns_lock (omega (arith, n, i)) (omega (arith, i, j)) room.0 closed in
      (
        record {
          closed = d.0;
          fewer = omega (arith, length-append s.thread_pool m.started, ap length d.1);
        },
        omega (
          arith,
          d,
          n,
          total-append moves_left s.thread_pool m.started,
          ap (total moves_left) d.1,
          total-append reserved before (m.caller ∷ after),
        ),
      )

  -- How many of the moves are those of the pool's threads.
  abbrev pub turn : {s t : System A} → Move s t → ℕ
  turn (thread_moves _ _ _ _ _ _) = 1
  turn (caller_moves _ _ _ _ _ _) = 0

  abbrev pub turns : {s t : System A} → Steps s t → ℕ
  turns none_more = 0
  turns (then_step r m) = turns r + turn m

  pub step-Winds :
      {s t : System A} (m : Move s t)
      → IsCounted s
      → IsClosed s
      → Winds s t × (turn m + rank t ≤ rank s)
  step-Winds {s} (thread_moves before x after b e e') h c =
      let (v, n) = thread_moved-Winds s before x after b e h c in
      (rw e' v, omega (arith, n, ap rank e'))
  step-Winds {s} (caller_moves before x after b e e') h c =
      let (v, n) = caller_moved-Winds s before x after b e h c in
      (rw e' v, omega (arith, n, ap rank e'))

  -- In any run of a closed pool, the pool stays closed, has no new thread, and its threads make no
  -- more moves than they had left.
  pub closed-Winds :
      {s t : System A} (r : Steps s t)
      → IsCounted s
      → IsClosed s
      → Winds s t × (turns r + rank t ≤ rank s)
  closed-Winds none_more h c = (record { closed = c; fewer = omega arith }, omega arith)
  closed-Winds (then_step r m) h c =
      let (v, n) = closed-Winds r h c in
      let (v', n') = step-Winds m (Steps-IsCounted r h) v.closed in
      (
        record { closed = v'.closed; fewer = omega (arith, v.fewer, v'.fewer) },
        omega (arith, n, n'),
      )

  -- At most four moves for a thread.
  moves_left-four : (ts : List (ThreadWrapper A)) → total moves_left ts ≤ 4 * length ts
  moves_left-four [] = omega arith
  moves_left-four (t ∷ ts) =
      let one : moves_left t ≤ 4 = ground arith in omega (arith, one, moves_left-four ts)

  pub rank-four : (s : System A) → rank s ≤ 4 * length s.thread_pool + total reserved s.callers
  rank-four s = omega (arith, moves_left-four s.thread_pool)

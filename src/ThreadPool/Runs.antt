-- ===== src/ThreadPool/Runs.antt =====
-- Everything that can happen to a pool from its construction.
use nets.Prelude.{
  ℕ, ◌+◌, ◌*◌, ◌≤◌, ◌<◌, ◌≡◌, refl, ap, ◌∙◌, inl, inr, some, List, [], ◌∷◌, arith, length, total,
  All, sym,
}
use nets.BlockingQueue.{init}
use nets.ThreadPool.{Pool, Caller, construct, running, num_of_active_threads}
use nets.ThreadPool.System.{System, Step, Steps, start}
use nets.ThreadPool.Counts.{HasRoom, IsCounted, IsNew, live, reserved, Steps-IsCounted, Steps-most}
use nets.ThreadPool.Tasks.{IsKept, held, Steps-IsKept}
use nets.ThreadPool.Shutdown.{IsClosed, rank-four, turns, closed-Winds}
use nets.ThreadPool.Emptying.{new-AllClosed, Steps-AllClosed}
use nets.ThreadPool.Abstract.{Serves, service, step-Refines}

module _ {ℓ} {A : Type ℓ} where
  new-HasRoom :
      (core most : ℕ) (cs : List (Caller A))
      → All IsNew cs
      → All (HasRoom core most) cs × (total reserved cs ≡ 0)
  new-HasRoom core most [] h = (tt, refl)
  new-HasRoom core most (c ∷ cs) h =
      let (r, e) = new-HasRoom core most cs h.1 in
      elim h.0 [ inl (a, i) ↦ ground arith | inr i ↦ ground arith ]

  construct-IsCounted :
      (core most size : ℕ) (p : Pool A) (callers : List (Caller A))
      → construct core most size ≡ some p
      → most < running
      → All IsNew callers
      → IsCounted (start p callers)
  unfolding construct
  construct-IsCounted core most size p callers made small new = record {
    fits = ground arith;
    word = inl (ground (arith, new-HasRoom core most callers new));
    bounded = ground (arith, new-HasRoom core most callers new);
    room = (new-HasRoom p.core_pool_size p.maximum_pool_size callers new).0;
  }

  construct-most :
      (core most size : ℕ) (p : Pool A)
      → construct core most size ≡ some p
      → (p.maximum_pool_size ≡ most) × (p.task_queue.queue ≡ [])
  unfolding construct init
  construct-most core most size p made = ground arith

module _ {ℓ} {A : Type ℓ} (core most size : ℕ) {p : Pool A} {callers : List (Caller A)}
    (made : construct core most size ≡ some p) (small : most < running) (new : All IsNew callers)
    {s : System A} (r : Steps (start p callers) s) where
  start-IsCounted : IsCounted (start p callers)
  start-IsCounted = construct-IsCounted core most size p callers made small new

  counted : IsCounted s
  counted = Steps-IsCounted r start-IsCounted

  start-IsKept : IsKept (start p callers)
  start-IsKept = record {
    idle = tt;
    kept = λ w. ap (total w) (sym (construct-most core most size p made).1) ∙ omega arith;
  }

  -- From the construction of a pool of fewer than 2 ^ 30 threads, in every interleaving of the moves
  -- of its threads and of any callers that start with `execute` or `shutdown`, the count in the
  -- control word is the number of its threads and of the places reserved for one, and it has at most
  -- `maximumPoolSize_` threads.
  pub runs-Bounded : (num_of_active_threads s.pool.ctl ≡ live s) × (length s.thread_pool ≤ most)
  runs-Bounded =
      let h = counted in
      (
        ground (arith, h.word, h.bounded, h.fits),
        omega (arith, h.bounded, Steps-most r, construct-most core most size p made),
      )

  -- In an interleaving as in `runs-Bounded` every task that the pool has accepted is counted once
  -- among those run, queued, held by a thread and dropped at the shutdown, whatever weights the
  -- tasks are given: none is lost, and none is run twice.
  pub runs-Kept :
      (w : A → ℕ)
      → total w s.accepted
        ≡ total w s.ran
          + (total w s.pool.task_queue.queue + (total (held w) s.thread_pool + total w s.dropped))
  runs-Kept = (Steps-IsKept r start-IsKept).kept

  -- From a state of an interleaving as in `runs-Bounded` in which the status is shut down, in every
  -- interleaving from there on, the pool stays shut down, it has no more threads than before, and
  -- its threads make no more moves altogether than four for each thread that there is and one for
  -- each place that a caller has reserved for a thread.
  pub runs-Wind :
      IsClosed s
      → {t : System A} (q : Steps s t)
      → IsClosed t
        × (length t.thread_pool ≤ length s.thread_pool)
        × (turns q ≤ 4 * length s.thread_pool + total reserved s.callers)
  runs-Wind = λ c {t} q.
      let (v, n) = closed-Winds q counted c in (v.closed, v.fewer, omega (arith, n, rank-four s))

  -- Every move of an interleaving as in `runs-Bounded` is one step of the abstract service, which is
  -- open or not and has members and a backlog: it rests, a member joins an open service below the
  -- maximum, or leaves, the service closes, a task is queued below the bound, the oldest one is
  -- handed out, which happens only while the service is open, or it is discarded, which happens only
  -- when it is closed.
  pub runs-Refine :
      {t : System A}
      → Step s t
      → Serves s.pool.maximum_pool_size s.pool.task_queue.max_queue_size
          (service s.pool)
          (service t.pool)
  runs-Refine m =
      step-Refines m counted (Steps-AllClosed r start-IsCounted (new-AllClosed p.ctl callers new))

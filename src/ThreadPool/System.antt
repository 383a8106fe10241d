-- ===== src/ThreadPool/System.antt =====
-- The pool with its threads and its callers, in any interleaving of their moves.
use nets.Prelude.{◌≡◌, Bool, List, [], ◌∷◌, ◌++◌}
use nets.ThreadPool.{Pool, ThreadWrapper, Caller}
use nets.ThreadPool.Moves.{run_thread, call}

module _ {ℓ} (A : Type ℓ) where
  -- The last three are the tasks taken on, run and dropped so far.
  pub record System : Type ℓ where
    pub pool : Pool A
    pub thread_pool : List (ThreadWrapper A)
    pub callers : List (Caller A)
    pub accepted : List A
    pub ran : List A
    pub dropped : List A

module _ {ℓ} {A : Type ℓ} where
  abbrev pub thread_moved :
      System A → List (ThreadWrapper A) → ThreadWrapper A → List (ThreadWrapper A) → Bool → System A
  thread_moved s before t after timed_out =
      let m = run_thread s.pool t timed_out in
      record s { pool = m.pool; thread_pool = before ++ (m.left ++ after); ran = s.ran ++ m.ran }

  abbrev pub caller_moved :
      System A → List (Caller A) → Caller A → List (Caller A) → Bool → System A
  caller_moved s before c after owns_lock =
      let m = call s.pool c owns_lock in
      record s {
        pool = m.pool;
        thread_pool = s.thread_pool ++ m.started;
        callers = before ++ (m.caller ∷ after);
        accepted = s.accepted ++ m.accepted;
        dropped = s.dropped ++ m.dropped;
      }

  -- The scheduler picks a thread of the pool, or a caller.
  pub data Step (s : System A) (s' : System A) : Type ℓ where
    thread_moves :
        (before : List (ThreadWrapper A)) (t : ThreadWrapper A) (after : List (ThreadWrapper A))
        (timed_out : Bool)
        → s.thread_pool ≡ before ++ (t ∷ after)
        → s' ≡ thread_moved s before t after timed_out
        → Step s s'
    caller_moves :
        (before : List (Caller A)) (c : Caller A) (after : List (Caller A)) (owns_lock : Bool)
        → s.callers ≡ before ++ (c ∷ after)
        → s' ≡ caller_moved s before c after owns_lock
        → Step s s'

  pub data Steps (s : System A) : System A → Type ℓ where
    none_more : Steps s s
    then_step : {u v : System A} → Steps s u → Step u v → Steps s v

  pub first_step : {s t u : System A} → Step s t → Steps t u → Steps s u
  first_step m none_more = then_step none_more m
  first_step m (then_step r n) = then_step (first_step m r) n

  abbrev pub start : Pool A → List (Caller A) → System A
  start p callers = record {
    pool = p;
    thread_pool = [];
    callers = callers;
    accepted = [];
    ran = [];
    dropped = [];
  }

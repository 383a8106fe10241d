-- ===== src/ThreadPool/Counts.antt =====
-- The count in the control word: how many threads there are, and how many places callers hold.
use nets.Prelude.{
  ℕ, ◌+◌, ◌≤◌, ◌<◌, ◌≡◌, refl, sym, ap, ◌∙◌, subst, ◌⊎◌, Bool, true, false, none, some, List, ◌∷◌,
  ◌++◌, arith, length, length-append, total, total-append, All, All-append, All-append_left,
  All-append_right, if◌then◌else◌,
}
use nets.BlockingQueue.{Step, waits, undefined, returns}
use nets.ThreadPool.{
  Pool, ThreadWrapper, Caller, executes, adds, swaps, reserves, reloads, pushes, answered, shuts,
  loads, clears, awaits, empties, finished, running, num_of_active_threads, is_shutdown,
}
use nets.ThreadPool.Moves.{
  Answer, took, run_thread, run_at, pushed, popped, call, takes_from, take_task, release_thread,
  execute, add_thread_task, swap_ctl, emplace_thread, push_task, clear_status, empty_queue,
}
use nets.ThreadPool.System.{
  System, Step as Move, thread_moves, caller_moves, thread_moved, caller_moved, Steps, none_more,
  then_step,
}

-- A word with its status and a count.
abbrev pub IsWord : ℕ → ℕ → Type 0
IsWord ctl n = (ctl ≡ running + n) ⊎ (ctl ≡ n)

module _ {ℓ} {A : Type ℓ} where
  -- A place that a caller has reserved, for a thread that is not there yet.
  abbrev pub reserved : Caller A → ℕ
  reserved (reserves _ _) = 1
  reserved _ = 0

  -- The word that a caller is about to swap was that of a running pool with room.
  abbrev pub HasRoom : ℕ → ℕ → Caller A → Type 0
  HasRoom core most (swaps _ is_core ctl) =
      (is_shutdown ctl ≡ false) × (num_of_active_threads ctl < (if is_core then core else most))
  HasRoom core most _ = Unit

  abbrev pub live : System A → ℕ
  live s = length s.thread_pool + total reserved s.callers

  abbrev pub SameSizes : Pool A → Pool A → Type 0
  SameSizes p p' =
      (p'.core_pool_size ≡ p.core_pool_size) × (p'.maximum_pool_size ≡ p.maximum_pool_size)

  abbrev pub Fits : Pool A → Type 0
  Fits p = (p.core_pool_size ≤ p.maximum_pool_size) × (p.maximum_pool_size < running)

  took-Word :
      (k : ℕ) (p : Pool A) (t : ThreadWrapper A) (r : Step A)
      → IsWord p.ctl (k + 1)
      → let m = took p t r in
        SameSizes p m.pool × IsWord m.pool.ctl (k + length m.left) × (length m.left ≤ 1)
  took-Word k p t waits w = ground arith
  took-Word k p t undefined w = ground arith
  took-Word k p t (returns true none _ q) w = ground arith
  took-Word k p t (returns true (some a) _ q) w = ground arith
  took-Word k p t (returns false v _ q) w = ground arith

  run_thread-Word :
      (k : ℕ) (p : Pool A) (t : ThreadWrapper A) (timed_out : Bool)
      → Fits p
      → k + 1 ≤ p.maximum_pool_size
      → IsWord p.ctl (k + 1)
      → let m = run_thread p t timed_out in
        SameSizes p m.pool × IsWord m.pool.ctl (k + length m.left) × (length m.left ≤ 1)
  unfolding run_thread run_at take_task release_thread
  run_thread-Word k p t timed_out f r w =
      ground (arith, took-Word k p t (takes_from p t.is_core_thread timed_out) w)

  abbrev pub CallCounted : ℕ → Pool A → Answer A → Type 0
  CallCounted k p m =
      SameSizes p m.pool
      × IsWord m.pool.ctl (k + (reserved m.caller + length m.started))
      × (k + (reserved m.caller + length m.started) ≤ p.maximum_pool_size)
      × HasRoom p.core_pool_size p.maximum_pool_size m.caller

  pushed-Word :
      (k : ℕ) (p : Pool A) (task : A) (r : Step A)
      → k ≤ p.maximum_pool_size
      → IsWord p.ctl k
      → CallCounted k p (pushed p task r)
  pushed-Word k p task waits h w = ground arith
  pushed-Word k p task undefined h w = ground arith
  pushed-Word k p task (returns true v _ q) h w = ground arith
  pushed-Word k p task (returns false v _ q) h w = ground arith

  popped-Word :
      (k : ℕ) (p : Pool A) (r : Step A)
      → k ≤ p.maximum_pool_size
      → IsWord p.ctl k
      → CallCounted k p (popped p r)
  popped-Word k p waits h w = ground arith
  popped-Word k p undefined h w = ground arith
  popped-Word k p (returns true v _ q) h w = ground arith
  popped-Word k p (returns false v _ q) h w = ground arith

  call-Word :
      (k : ℕ) (p : Pool A) (c : Caller A) (owns_lock : Bool)
      → Fits p
      → k + reserved c ≤ p.maximum_pool_size
      → IsWord p.ctl (k + reserved c)
      → HasRoom p.core_pool_size p.maximum_pool_size c
      → CallCounted k p (call p c owns_lock)
  unfolding call execute add_thread_task swap_ctl emplace_thread push_task clear_status empty_queue
  call-Word k p (executes task) b f h w r = ground arith
  call-Word k p (adds task is_core) b f h w r = ground arith
  call-Word k p (swaps task is_core ctl) b f h w r = ground arith
  call-Word k p (reserves task is_core) b f h w r = ground arith
  call-Word k p (reloads task) b f h w r = ground arith
  call-Word k p (pushes task ctl) b f h w r = ground (arith, pushed-Word k p task)
  call-Word k p (answered _) b f h w r = ground arith
  call-Word k p shuts b f h w r = ground arith
  call-Word k p loads b f h w r = ground arith
  call-Word k p (clears ctl) b f h w r = ground arith
  call-Word k p awaits b f h w r = ground arith
  call-Word k p empties b f h w r = ground (arith, popped-Word k p)
  call-Word k p finished b f h w r = ground arith

  -- The word holds the count, in either status, and nobody swaps into a full pool.
  pub record IsCounted (s : System A) : Type ℓ where
    pub fits : Fits s.pool
    pub word : IsWord s.pool.ctl (live s)
    pub bounded : live s ≤ s.pool.maximum_pool_size
    pub room : All (HasRoom s.pool.core_pool_size s.pool.maximum_pool_size) s.callers

  thread_moved-IsCounted :
      (s : System A) (before : List (ThreadWrapper A)) (t : ThreadWrapper A)
      (after : List (ThreadWrapper A)) (timed_out : Bool)
      → s.thread_pool ≡ before ++ (t ∷ after)
      → IsCounted s
      → IsCounted (thread_moved s before t after timed_out)
  thread_moved-IsCounted s before t after timed_out e h =
      let m = run_thread s.pool t timed_out in
      let k = (length before + length after) + total reserved s.callers in
      let n : live s ≡ k + 1 = omega (arith, ap length e, length-append before (t ∷ after)) in
      let n' : live (thread_moved s before t after timed_out) ≡ k + length m.left =
        omega (arith, length-append before (m.left ++ after), length-append m.left after) in
      let w =
        run_thread-Word k s.pool t timed_out h.fits
          (subst (λ i. i ≤ s.pool.maximum_pool_size) n h.bounded)
          (subst (IsWord s.pool.ctl) n h.word) in
      record {
        fits = (omega (arith, w.0, h.fits), omega (arith, w.0, h.fits));
        word = subst (IsWord m.pool.ctl) (sym n') w.1;
        bounded = omega (arith, w, n, n', h.bounded);
        room = rw (w.0.0, w.0.1) h.room;
      }

  caller_moved-IsCounted :
      (s : System A) (before : List (Caller A)) (c : Caller A) (after : List (Caller A))
      (owns_lock : Bool)
      → s.callers ≡ before ++ (c ∷ after)
      → IsCounted s
      → IsCounted (caller_moved s before c after owns_lock)
  caller_moved-IsCounted s before c after owns_lock e h =
      let P = HasRoom s.pool.core_pool_size s.pool.maximum_pool_size in
      let m = call s.pool c owns_lock in
      let k = length s.thread_pool + (total reserved before + total reserved after) in
      let n : live s ≡ k + reserved c =
        omega (arith, ap (total reserved) e, total-append reserved before (c ∷ after)) in
      let n' : live (caller_moved s before c after owns_lock)
          ≡ k + (reserved m.caller + length m.started) =
        omega (
          arith,
          length-append s.thread_pool m.started,
          total-append reserved before (m.caller ∷ after),
        ) in
      let room = subst (All P) e h.room in
      let rest = All-append_right P before (c ∷ after) room in
      let w =
        call-Word k s.pool c owns_lock h.fits
          (subst (λ i. i ≤ s.pool.maximum_pool_size) n h.bounded)
          (subst (IsWord s.pool.ctl) n h.word) rest.0 in
      record {
        fits = (omega (arith, w.0, h.fits), omega (arith, w.0, h.fits));
        word = subst (IsWord m.pool.ctl) (sym n') w.1;
        bounded = omega (arith, w, n');
        room =
            rw (w.0.0, w.0.1)
              (All-append P before _ (All-append_left P before _ room) (w.3, rest.1));
      }

  pub step-IsCounted : {s t : System A} → Move s t → IsCounted s → IsCounted t
  step-IsCounted {s} (thread_moves before x after b e e') h =
      subst IsCounted (sym e') (thread_moved-IsCounted s before x after b e h)
  step-IsCounted {s} (caller_moves before x after b e e') h =
      subst IsCounted (sym e') (caller_moved-IsCounted s before x after b e h)

  took-most :
      (p : Pool A) (t : ThreadWrapper A) (r : Step A)
      → (took p t r).pool.maximum_pool_size ≡ p.maximum_pool_size
  took-most p t r = ground arith

  run_thread-most :
      (p : Pool A) (t : ThreadWrapper A) (timed_out : Bool)
      → (run_thread p t timed_out).pool.maximum_pool_size ≡ p.maximum_pool_size
  unfolding run_thread run_at take_task release_thread
  run_thread-most p t timed_out =
      ground (arith, took-most p t (takes_from p t.is_core_thread timed_out))

  call-most :
      (p : Pool A) (c : Caller A) (owns_lock : Bool)
      → (call p c owns_lock).pool.maximum_pool_size ≡ p.maximum_pool_size
  unfolding call execute add_thread_task swap_ctl emplace_thread push_task clear_status empty_queue
  call-most p c owns_lock = ground arith

  pub Steps-most :
      {s t : System A} → Steps s t → t.pool.maximum_pool_size ≡ s.pool.maximum_pool_size
  Steps-most none_more = refl
  Steps-most (then_step {u} r (thread_moves before x after b e e')) =
      ap (λ v. v.pool.maximum_pool_size) e' ∙ run_thread-most u.pool x b ∙ Steps-most r
  Steps-most (then_step {u} r (caller_moves before x after b e e')) =
      ap (λ v. v.pool.maximum_pool_size) e' ∙ call-most u.pool x b ∙ Steps-most r

  -- In every interleaving of any number of callers and threads, from any state of which this holds,
  -- the control word's count is the number of the pool's threads and of the places that callers
  -- have reserved for one, and that is at most `maximumPoolSize_`, which fits below the status bits.
  pub Steps-IsCounted : {s t : System A} → Steps s t → IsCounted s → IsCounted t
  Steps-IsCounted none_more h = h
  Steps-IsCounted (then_step r m) h = step-IsCounted m (Steps-IsCounted r h)

  -- A caller that has not started.
  abbrev pub IsNew : Caller A → Type ℓ
  IsNew c = ((a : A) × (c ≡ executes a)) ⊎ (c ≡ shuts)

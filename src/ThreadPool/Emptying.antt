-- ===== src/ThreadPool/Emptying.antt =====
-- A caller that waits for the pool's threads, or empties its queue, has shut it down (`shutdown` of
-- nets/base/ThreadPool.cpp).
use nets.Prelude.{
  ℕ, inl, inr, ◌≡◌, sym, subst, ap, Bool, true, List, [], ◌∷◌, arith, All, All-append,
  All-append_left, All-append_right,
}
use nets.BlockingQueue.{Step}
use nets.ThreadPool.{Pool, Caller, awaits, empties, is_shutdown}
use nets.ThreadPool.Moves.{
  call, execute, add_thread_task, swap_ctl, emplace_thread, push_task, clear_status, empty_queue,
  pushed, popped,
}
use nets.ThreadPool.System.{
  System, Step as Move, thread_moves, caller_moves, Steps, none_more, then_step,
}
use nets.ThreadPool.Counts.{IsCounted, IsNew, Steps-IsCounted}
use nets.ThreadPool.Shutdown.{step-Winds}

module _ {ℓ} {A : Type ℓ} where
  abbrev pub WaitsClosed : ℕ → Caller A → Type 0
  WaitsClosed ctl awaits = is_shutdown ctl ≡ true
  WaitsClosed ctl empties = is_shutdown ctl ≡ true
  WaitsClosed ctl _ = Unit

  abbrev pub AllClosed : System A → Type 0
  AllClosed s = All (WaitsClosed s.pool.ctl) s.callers

  pushed-Waits :
      (p : Pool A) (task : A) (r : Step A)
      → let m = pushed p task r in WaitsClosed m.pool.ctl m.caller
  pushed-Waits p task r = ground arith

  popped-Waits :
      (p : Pool A) (r : Step A)
      → is_shutdown p.ctl ≡ true
      → let m = popped p r in WaitsClosed m.pool.ctl m.caller
  popped-Waits p r h = ground arith

  call-Waits :
      (p : Pool A) (c : Caller A) (owns_lock : Bool)
      → WaitsClosed p.ctl c
      → let m = call p c owns_lock in WaitsClosed m.pool.ctl m.caller
  unfolding call execute add_thread_task swap_ctl emplace_thread push_task clear_status empty_queue
  call-Waits p (Caller.pushes task ctl) b h = ground (arith, pushed-Waits p task)
  call-Waits p empties b h = ground (arith, popped-Waits p)
  call-Waits p c b h = ground arith

  later-Waits :
      (ctl ctl' : ℕ) (cs : List (Caller A))
      → (is_shutdown ctl ≡ true → is_shutdown ctl' ≡ true)
      → All (WaitsClosed ctl) cs
      → All (WaitsClosed ctl') cs
  later-Waits ctl ctl' [] k h = tt
  later-Waits ctl ctl' (awaits ∷ cs) k h = (k h.0, later-Waits ctl ctl' cs k h.1)
  later-Waits ctl ctl' (empties ∷ cs) k h = (k h.0, later-Waits ctl ctl' cs k h.1)
  later-Waits ctl ctl' (c ∷ cs) k h = (ground arith, later-Waits ctl ctl' cs k h.1)

  step-AllClosed : {s t : System A} → Move s t → IsCounted s → AllClosed s → AllClosed t
  step-AllClosed {s} {t} (thread_moves before x after b e e') h w =
      later-Waits s.pool.ctl t.pool.ctl t.callers
        (λ c. (step-Winds (thread_moves before x after b e e') h c).0.closed)
        (subst (All (WaitsClosed s.pool.ctl)) (sym (ap (λ u. u.callers) e')) w)
  step-AllClosed {s} {t} (caller_moves before x after b e e') h w =
      let P : Caller A → Type 0 = WaitsClosed s.pool.ctl in
      let Q : Caller A → Type 0 = WaitsClosed t.pool.ctl in
      let all = subst (All P) e w in
      let keep : is_shutdown s.pool.ctl ≡ true → is_shutdown t.pool.ctl ≡ true =
        λ c. (step-Winds (caller_moves before x after b e e') h c).0.closed in
      let later = All-append_right P before (x ∷ after) all in
      let own = call-Waits s.pool x b later.0 in
      let same : t.pool ≡ (call s.pool x b).pool = ap (λ u. u.pool) e' in
      subst (All Q) (sym (ap (λ u. u.callers) e')) (
        All-append Q before ((call s.pool x b).caller ∷ after)
          (later-Waits s.pool.ctl t.pool.ctl before keep (All-append_left P before (x ∷ after) all))
          (
            subst (λ u. WaitsClosed u.ctl (call s.pool x b).caller) (sym same) own,
            later-Waits s.pool.ctl t.pool.ctl after keep later.1,
          ))

  pub Steps-AllClosed : {s t : System A} → Steps s t → IsCounted s → AllClosed s → AllClosed t
  Steps-AllClosed none_more h w = w
  Steps-AllClosed (then_step r m) h w =
      step-AllClosed m (Steps-IsCounted r h) (Steps-AllClosed r h w)

  pub new-AllClosed : (ctl : ℕ) (cs : List (Caller A)) → All IsNew cs → All (WaitsClosed ctl) cs
  new-AllClosed ctl [] h = tt
  new-AllClosed ctl (c ∷ cs) h = elim h.0 [
    | inl (a, i) ↦ (ground arith, new-AllClosed ctl cs h.1)
    | inr i ↦ (ground arith, new-AllClosed ctl cs h.1)
  ]

-- ===== src/EventLoop/Shutdown.antt =====
-- `shutdown` and `isShutdown` of nets/net/core/EventLoopGroup.cpp, and the end of a loop that is shut down.
use nets.Prelude.{
  ℕ, zero, suc, ◌≤◌, ◌≡◌, refl, ◌⊎◌, Bool, true, false, List, [], ◌∷◌, ◌++◌, arith, All,
  if◌then◌else◌,
}
use nets.EventLoop.{EventLoop, shutdown, start_pending_tasks, end_pending_tasks}
use nets.EventLoop.Rounds.{
  Stage, at_start, at_test, in_timers, in_tasks, in_poll, in_handlers, at_end, Loop, next_round,
  advance, advance_from,
}
use nets.EventLoop.Progress.{after}

module _ {ℓ} {A : Type ℓ} where
  -- `is_current` tells for each loop, from the number `i` on, whether its own thread calls.
  unfoldable pub shutdown_each : (ℕ → Bool) → ℕ → List (EventLoop A) → List (EventLoop A)
  unfolding shutdown
  shutdown_each is_current i [] = []
  shutdown_each is_current i (l ∷ ls) =
      (if l.running then shutdown l (is_current i) else l) ∷ shutdown_each is_current (suc i) ls

  unfoldable pub is_shutdown : List (EventLoop A) → Bool
  is_shutdown [] = true
  is_shutdown (l ∷ ls) = let rest = is_shutdown ls in if l.running then false else rest

  Ends : Loop A → Type ℓ
  Ends s = (n : ℕ) × ((after n s).stage ≡ at_end)

  abbrev pub at : EventLoop A → Stage A → List A → List A → ℕ → Loop A
  at l p a r o = record { event_loop = l; stage = p; added = a; ran = r; owed = o }

  first_move : (s : Loop A) → Ends (advance s) → Ends s
  unfolding after Ends
  first_move s (n, e) = (suc n, e)

  handlers-Ends :
      (l : EventLoop A) (a r : List A) (o : ℕ) → l.running ≡ false → Ends (at l in_handlers a r o)
  unfolding after Ends advance advance_from next_round
  handlers-Ends l a r o off = first_move (at l in_handlers a r o) (0, rw off refl)

  test-Ends :
      (l : EventLoop A) (a r : List A) (o : ℕ) → l.running ≡ false → Ends (at l at_test a r o)
  unfolding after Ends advance advance_from next_round
  test-Ends l a r o off = first_move (at l at_test a r o) (0, rw off refl)

  -- While `running_` is set the loop is not at its end.
  abbrev IsOn : Loop A → Type ℓ
  IsOn s = Unit {ℓ} × (s.event_loop.running ≡ true) × (¬ (s.stage ≡ at_end))

  next_round-goes_on : (l : EventLoop A) → l.running ≡ true → ¬ (next_round l ≡ at_end)
  unfolding next_round
  next_round-goes_on l on e = ground arith

  advance_from-IsOn :
      (p : Stage A) (s : Loop A)
      → ¬ (p ≡ at_end)
      → s.event_loop.running ≡ true
      → IsOn (advance_from p s)
  unfolding advance_from start_pending_tasks end_pending_tasks
  advance_from-IsOn at_start s n on = (tt, refl, λ e. ground arith)
  advance_from-IsOn at_test s n on = (tt, on, next_round-goes_on s.event_loop on)
  advance_from-IsOn in_timers s n on = (tt, on, λ e. ground arith)
  advance_from-IsOn (in_tasks (t ∷ ts)) s n on = (tt, on, λ e. ground arith)
  advance_from-IsOn (in_tasks []) s n on = (tt, on, λ e. ground arith)
  advance_from-IsOn in_poll s n on = (tt, on, λ e. ground arith)
  advance_from-IsOn in_handlers s n on = (tt, on, next_round-goes_on s.event_loop on)
  advance_from-IsOn at_end s n on = absurd (n refl)

  after-goes_on :
      (n : ℕ) (s : Loop A)
      → s.event_loop.running ≡ true
      → ¬ (s.stage ≡ at_end)
      → ¬ ((after n s).stage ≡ at_end)
  unfolding after advance
  after-goes_on zero s on h = h
  after-goes_on (suc n) s on h =
      let (_, on', h') = advance_from-IsOn s.stage s h on in after-goes_on n (advance s) on' h'

  -- What a loop comes to by its own moves, from the place at which it is shut down: one that has not
  -- set `running_` goes on for ever, and any other ends.
  abbrev pub Meets : Stage A → Loop A → Type ℓ
  Meets at_start s = (n : ℕ) → ¬ ((after n s).stage ≡ at_end)
  Meets _ s = (n : ℕ) × ((after n s).stage ≡ at_end)

  new-GoesOn : (s : Loop A) → s.stage ≡ at_start → (n : ℕ) → ¬ ((after n s).stage ≡ at_end)
  unfolding after advance advance_from
  new-GoesOn s new zero e = ground arith
  new-GoesOn s new (suc n) e =
      after-goes_on n (advance s) (rw new refl) (rw new (λ x. ground arith)) e

  tasks-Ends :
      (ts : List A) (l : EventLoop A) (a r : List A) (o : ℕ)
      → l.running ≡ false
      → Ends (at l (in_tasks ts) a r o)
  unfolding advance advance_from end_pending_tasks
  tasks-Ends [] l a r o off = first_move _ (first_move _ (handlers-Ends _ a r o off))
  tasks-Ends (t ∷ ts) l a r o off = first_move _ (tasks-Ends ts l a (r ++ (t ∷ [])) o off)

  stage-Ends :
      (p : Stage A) (l : EventLoop A) (a r : List A) (o : ℕ)
      → l.running ≡ false
      → Meets p (at l p a r o)
  unfolding advance advance_from start_pending_tasks after Ends
  stage-Ends at_start l a r o off = new-GoesOn (at l at_start a r o) refl
  stage-Ends at_test l a r o off = test-Ends l a r o off
  stage-Ends in_timers l a r o off = first_move _ (tasks-Ends l.pending_tasks _ a r o off)
  stage-Ends (in_tasks ts) l a r o off = tasks-Ends ts l a r o off
  stage-Ends in_poll l a r o off = first_move _ (handlers-Ends l a r o off)
  stage-Ends in_handlers l a r o off = handlers-Ends l a r o off
  stage-Ends at_end l a r o off = (0, refl)

  -- A loop that ran, and is not the caller's own, has its eventfd written.
  abbrev Woken : Bool → EventLoop A → EventLoop A → Type 0
  Woken is_current l l' = (l.running ≡ false) ⊎ ((is_current ≡ true) ⊎ (1 ≤ l'.notifier.count))

  abbrev pub AllWoken : (ℕ → Bool) → ℕ → List (EventLoop A) → List (EventLoop A) → Type 0
  AllWoken is_current i [] ls' = Unit {0}
  AllWoken is_current i (l ∷ ls) [] = Unit {0}
  AllWoken is_current i (l ∷ ls) (l' ∷ ls') =
      Woken (is_current i) l l' × AllWoken is_current (suc i) ls ls'

  stopped :
      (l : EventLoop A) (own : Bool)
      → let l' = if l.running then shutdown l own else l in (l'.running ≡ false) × Woken own l l'
  unfolding shutdown
  stopped l own = ground arith

  -- After `shutdown` of a group `isShutdown` is true, each loop that ran and is not the one of the
  -- calling thread has its eventfd written, and each loop that has set `running_`, wherever it
  -- stands, comes to its end by some of its own moves; but one that has not set it never ends by its
  -- own moves, since `run` sets it then: the shutdown is lost.
  pub shutdown_each-Ends :
      (is_current : ℕ → Bool) (i : ℕ) (ls : List (EventLoop A)) (p : Stage A) (a r : List A) (o : ℕ)
      → let ls' = shutdown_each is_current i ls in
        (is_shutdown ls' ≡ true)
        × AllWoken is_current i ls ls'
        × All (λ l. Meets p (at l p a r o)) ls'
  unfolding shutdown_each is_shutdown Ends
  shutdown_each-Ends is_current i [] p a r o = (refl, tt, tt)
  shutdown_each-Ends is_current i (l ∷ ls) p a r o =
      let (off, woken) = stopped l (is_current i) in
      let (rest, wake, ends) = shutdown_each-Ends is_current (suc i) ls p a r o in
      (rw off rest, (woken, wake), (stage-Ends p _ a r o off, ends))

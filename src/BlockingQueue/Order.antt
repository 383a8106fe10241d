-- ===== src/BlockingQueue/Order.antt =====
-- What every critical section does, whatever the method: first in, first out, within the bound.
use nets.Prelude.{
  ◌<◌, ◌≡◌, ◌⊎◌, Bool, true, false, not, none, some, List, [], ◌∷◌, ◌++◌, arith, length,
}
use nets.BlockingQueue.{
  Queue, nobody, one_taker, one_putter, Step, waits, undefined, returns, is_empty, is_full, Call,
  puts, puts_unless, takes_unless, puts_for, takes_for, puts_for_unless, takes_for_unless, pushes,
  pops, step, offered,
}

abbrev implies : Bool → Bool → Bool
implies true b = b
implies false b = true

module _ {ℓ} {A : Type ℓ} where
  -- The queue has no room for what the call brings, or nothing for it to take.
  abbrev pub is_blocked : Queue A → List A → Bool
  is_blocked q [] = is_empty q
  is_blocked q (x ∷ xs) = is_full q

  -- The call does not wait any longer.
  abbrev pub is_impatient : Call A → Bool
  is_impatient (puts_for _ timed_out) = timed_out
  is_impatient (takes_for timed_out) = timed_out
  is_impatient (puts_for_unless _ timed_out _ _) = timed_out
  is_impatient (takes_for_unless timed_out _ _) = timed_out
  is_impatient (pushes _ _) = true
  is_impatient (pops _) = true
  is_impatient _ = false

  -- Its predicate holds when it is asked for the second time, or the lock was not to be had.
  abbrev pub is_stopped : Call A → Bool
  is_stopped (puts_unless _ _ p_after) = p_after
  is_stopped (takes_unless _ p_after) = p_after
  is_stopped (puts_for_unless _ _ _ p_after) = p_after
  is_stopped (takes_for_unless _ _ p_after) = p_after
  is_stopped (pushes _ owns_lock) = not owns_lock
  is_stopped (pops owns_lock) = not owns_lock
  is_stopped _ = false

  -- A predicate that held in the wait still holds right after it, as that of a pool that is shut down.
  abbrev pub IsSteady : Call A → Type 0
  IsSteady (puts_unless _ p_wait p_after) = implies p_wait p_after ≡ true
  IsSteady (takes_unless p_wait p_after) = implies p_wait p_after ≡ true
  IsSteady (puts_for_unless _ _ p_wait p_after) = implies p_wait p_after ≡ true
  IsSteady (takes_for_unless _ p_wait p_after) = implies p_wait p_after ≡ true
  IsSteady _ = Unit {0}

  -- What a critical section may end with: it waits while it is blocked; it refuses and changes nothing,
  -- since it was stopped, or blocked with no time left; or it puts its item last, below the bound, and
  -- wakes a taker; or it hands out the first item and wakes a putter.
  abbrev pub Does : Queue A → Call A → Step A → Type ℓ
  Does q c waits = Unit {ℓ} × (is_blocked q (offered c) ≡ true) × (is_impatient c ≡ false)
  Does q c undefined = Unit {ℓ} × ⊥
  Does q c (returns false v w q') =
      (q' ≡ q)
      × (v ≡ none)
      × (w ≡ nobody)
      × ((is_stopped c ≡ true) ⊎ ((is_blocked q (offered c) ≡ true) × (is_impatient c ≡ true)))
  Does q c (returns true none w q') =
      (q'.queue ≡ q.queue ++ offered c)
      × (q'.max_queue_size ≡ q.max_queue_size)
      × (w ≡ one_taker)
      × (length (offered c) ≡ 1)
      × (length q.queue < q.max_queue_size)
      × (is_stopped c ≡ false)
  Does q c (returns true (some x) w q') =
      (q.queue ≡ x ∷ q'.queue)
      × (q'.max_queue_size ≡ q.max_queue_size)
      × (w ≡ one_putter)
      × (offered c ≡ [])
      × (is_stopped c ≡ false)

  -- With a steady predicate every method waits only while it is blocked, refuses only when it was
  -- stopped or its time ran out and then changes nothing, and else puts last below the bound or
  -- takes first, and wakes the right thread.
  pub step-Does : (q : Queue A) (c : Call A) → IsSteady c → Does q c (step q c)
  unfolding step
  step-Does q (puts el) h = ground arith
  step-Does q c h = ground arith

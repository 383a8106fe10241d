-- ===== src/BlockingQueue.antt =====
-- nets/base/BoundedBlockingQueue.h. A method is what its critical section does to the queue at a
-- moment when the thread holds the lock: it returns, or it waits on its condition variable and will
-- be tried again. Each predicate that the source evaluates twice is given by its two readings, and a
-- timed wait by whether its time has run out.
pub mod Order
pub mod Runs
mod Tests
use nets.Prelude.{
  ℕ, ◌-◌, ◌^◌, Bool, true, false, not, ◌&&◌, ◌||◌, Option, none, some, List, [], ◌∷◌, ◌++◌, leb,
  if◌then◌else◌, length,
}

module _ {ℓ} (A : Type ℓ) where
  pub record Queue : Type ℓ where
    pub max_queue_size : ℕ
    pub queue : List A

-- The condition variable that is signalled after the lock is given up.
pub data Wake : Type 0 where
  nobody one_taker one_putter : Wake

pub data Step {ℓ} (A : Type ℓ) : Type ℓ where
  waits : Step A
  undefined : Step A
  returns : Bool → Option A → Wake → Queue A → Step A

abbrev pub default_max_queue_size : ℕ
default_max_queue_size = 2 ^ 31 - 2

module _ {ℓ} {A : Type ℓ} where
  unfoldable pub init : ℕ → Queue A
  init n = record { max_queue_size = n; queue = [] }

  abbrev pub is_empty : Queue A → Bool
  is_empty q = elim q.queue [ [] ↦ true | x ∷ xs ↦ false ]

  abbrev pub size : Queue A → ℕ
  size q = length q.queue

  abbrev pub is_full : Queue A → Bool
  is_full q = leb q.max_queue_size (length q.queue)

  abbrev push_back : Queue A → A → Step A
  push_back q el = returns true none one_taker (record q { queue = q.queue ++ (el ∷ []) })

  abbrev pop_from : Queue A → List A → Step A
  pop_from q [] = undefined
  pop_from q (x ∷ xs) = returns true (some x) one_putter (record q { queue = xs })

  -- `el = queue_.front(); queue_.pop_front()`, which no standard defines for an empty queue.
  abbrev pop_front : Queue A → Step A
  pop_front q = pop_from q q.queue

  abbrev refuses : Queue A → Step A
  refuses q = returns false none nobody q

  pub put : Queue A → A → Step A
  put q el = if not (is_full q) then push_back q el else waits

  pub take : Queue A → Step A
  take q = if not (is_empty q) then pop_front q else waits

  pub put_unless : Queue A → A → Bool → Bool → Step A
  put_unless q el p_wait p_after =
      if not (is_full q) || p_wait then (if p_after then refuses q else push_back q el) else waits

  unfoldable pub take_unless : Queue A → Bool → Bool → Step A
  take_unless q p_wait p_after =
      if not (is_empty q) || p_wait then (if p_after then refuses q else pop_front q) else waits

  pub put_for : Queue A → A → Bool → Step A
  put_for q el timed_out =
      if not (is_full q) then push_back q el else if timed_out then refuses q else waits

  pub take_for : Queue A → Bool → Step A
  take_for q timed_out =
      if not (is_empty q) then pop_front q else if timed_out then refuses q else waits

  pub put_for_unless : Queue A → A → Bool → Bool → Bool → Step A
  put_for_unless q el timed_out p_wait p_after =
      if not (is_full q) || p_wait
      then (if p_after then refuses q else push_back q el)
      else if timed_out
      then refuses q
      else waits

  unfoldable pub take_for_unless : Queue A → Bool → Bool → Bool → Step A
  take_for_unless q timed_out p_wait p_after =
      if not (is_empty q) || p_wait
      then (if p_after then refuses q else pop_front q)
      else if timed_out
      then refuses q
      else waits

  unfoldable pub try_push : Queue A → A → Bool → Step A
  try_push q el owns_lock = if owns_lock && not (is_full q) then push_back q el else refuses q

  unfoldable pub try_pop : Queue A → Bool → Step A
  try_pop q owns_lock = if owns_lock && not (is_empty q) then pop_front q else refuses q

-- One critical section, with what the thread meets in it.
pub data Call {ℓ} (A : Type ℓ) : Type ℓ where
  puts : A → Call A
  takes : Call A
  puts_unless : A → Bool → Bool → Call A
  takes_unless : Bool → Bool → Call A
  puts_for : A → Bool → Call A
  takes_for : Bool → Call A
  puts_for_unless : A → Bool → Bool → Bool → Call A
  takes_for_unless : Bool → Bool → Bool → Call A
  pushes : A → Bool → Call A
  pops : Bool → Call A

module _ {ℓ} {A : Type ℓ} where
  unfoldable pub step : Queue A → Call A → Step A
  unfolding put take put_unless take_unless put_for take_for put_for_unless take_for_unless try_push
      try_pop
  step q (puts el) = put q el
  step q takes = take q
  step q (puts_unless el p_wait p_after) = put_unless q el p_wait p_after
  step q (takes_unless p_wait p_after) = take_unless q p_wait p_after
  step q (puts_for el timed_out) = put_for q el timed_out
  step q (takes_for timed_out) = take_for q timed_out
  step q (puts_for_unless el timed_out p_wait p_after) =
      put_for_unless q el timed_out p_wait p_after
  step q (takes_for_unless timed_out p_wait p_after) = take_for_unless q timed_out p_wait p_after
  step q (pushes el owns_lock) = try_push q el owns_lock
  step q (pops owns_lock) = try_pop q owns_lock

  -- The item that a call brings.
  abbrev pub offered : Call A → List A
  offered (puts el) = el ∷ []
  offered (puts_unless el _ _) = el ∷ []
  offered (puts_for el _) = el ∷ []
  offered (puts_for_unless el _ _ _) = el ∷ []
  offered (pushes el _) = el ∷ []
  offered _ = []

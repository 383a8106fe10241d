-- ===== src/EventLoop.antt =====
-- nets/net/core/EventLoop.h, EventLoop.cpp, and the eventfd of nets/net/channel/NotifyChannel.cpp
-- that ends a poll. A task is a value of any type. `in_loop` tells whether it is the loop's own
-- thread that calls. What a task, a timer or a channel does to the loop is a call of these functions.
pub mod Rounds
pub mod Wakes
pub mod Progress
pub mod Timeouts
pub mod Group
pub mod Channels
pub mod Shutdown
pub mod Promises
mod Tests
use nets.Prelude.{
  ℕ, zero, suc, Bool, true, false, not, ◌||◌, ◌&&◌, Option, List, [], ◌∷◌, ◌++◌, if◌then◌else◌,
}
use nets.Prelude.Int.{ℤ, pos, negsuc, ltb_ℤ, eqb_ℤ}
use nets.Timestamp.{Timestamp, plus_milliseconds}
use nets.Timer.{TimerId, repeat_forever}
use nets.Timer.Manager.{TimerManager, add_timer, remove_timer, nearest_timer_remaining_expired_time}

-- `count` is the counter of the eventfd.
pub record NotifyChannel : Type 0 where
  pub count : ℕ

-- The write of 1 adds it to the counter. It fails, and is logged, only at a counter of 2 ^ 64 - 2.
abbrev pub notify : NotifyChannel → NotifyChannel
notify n = record { count = suc n.count }

-- A read takes the whole counter.
abbrev pub handle_read : NotifyChannel → NotifyChannel
handle_read n = record { count = 0 }

module _ {ℓ} (A : Type ℓ) where
  pub record EventLoop : Type ℓ where
    pub running : Bool
    pub notifier : NotifyChannel
    pub pending_tasks : List A
    pub running_pending_tasks : Bool

module _ {ℓ} {A : Type ℓ} where
  abbrev pub notified : EventLoop A → EventLoop A
  notified l = record l { notifier = notify l.notifier }

  -- What `addTask` does under the lock.
  unfoldable pub push_task : EventLoop A → A → EventLoop A
  push_task l task = record l { pending_tasks = l.pending_tasks ++ (task ∷ []) }

  -- Whether it then writes the eventfd, without the lock.
  unfoldable pub must_notify : EventLoop A → Bool → Bool
  must_notify l in_loop = not in_loop || l.running_pending_tasks

  -- Both, where no other thread comes in between.
  unfoldable pub add_task : EventLoop A → A → Bool → EventLoop A
  unfolding push_task must_notify
  add_task l task in_loop =
      let pushed = push_task l task in
      if must_notify pushed in_loop then notified pushed else pushed

  -- The tasks that are run at once come second.
  unfoldable pub execute : EventLoop A → A → Bool → EventLoop A × List A
  unfolding add_task
  execute l task in_loop = if in_loop then (l, task ∷ []) else (add_task l task in_loop, [])

  -- `tmpTasks.swap(pendingTasks_)`, and the tasks that it then runs one by one
  unfoldable pub start_pending_tasks : EventLoop A → EventLoop A × List A
  start_pending_tasks l =
      (record l { pending_tasks = []; running_pending_tasks = true }, l.pending_tasks)

  unfoldable pub end_pending_tasks : EventLoop A → EventLoop A
  end_pending_tasks l = record l { running_pending_tasks = false }

  unfoldable pub shutdown : EventLoop A → Bool → EventLoop A
  shutdown l in_loop =
      let stopped = record l { running = false } in if in_loop then stopped else notified stopped

abbrev pub default_poll_timeout : ℤ
default_poll_timeout = pos 3000

abbrev pub minimum_poll_timeout : ℤ
minimum_poll_timeout = pos 1

abbrev min_ℤ : ℤ → ℤ → ℤ
min_ℤ a b = if ltb_ℤ b a then b else a

abbrev max_ℤ : ℤ → ℤ → ℤ
max_ℤ a b = if ltb_ℤ a b then b else a

-- The argument of `poll`, in milliseconds.
unfoldable pub poll_timeout : TimerManager → Timestamp → ℤ
poll_timeout m now =
    let remaining_expired_time = nearest_timer_remaining_expired_time m now in
    max_ℤ minimum_poll_timeout (
      if eqb_ℤ remaining_expired_time (negsuc 0)
      then default_poll_timeout
      else min_ℤ remaining_expired_time default_poll_timeout)

unfoldable pub schedule : TimerManager → Timestamp → ℤ → Option ℕ → TimerId × TimerManager
schedule m now delay callback =
    add_timer m (plus_milliseconds now delay) (pos 1) (pos 0) false callback

pub schedule_at_fixed_rate : TimerManager → Timestamp → ℤ → ℤ → Option ℕ → TimerId × TimerManager
schedule_at_fixed_rate m now init_delay interval callback =
    add_timer m (plus_milliseconds now init_delay) repeat_forever interval false callback

pub schedule_at_fixed_delay : TimerManager → Timestamp → ℤ → ℤ → Option ℕ → TimerId × TimerManager
schedule_at_fixed_delay m now init_delay delay callback =
    add_timer m (plus_milliseconds now init_delay) repeat_forever delay true callback

pub cancel_schedule_task : TimerManager → TimerId → TimerManager
cancel_schedule_task = remove_timer

-- ===== src/Timer.antt =====
-- nets/base/timer/Timer.h, Timer.cpp, TimerManager.h and TimerManager.cpp. A callback is a name, and
-- what it does to the manager is a list of requests. The readings of the clock are an input.
pub mod Manager
use nets.Prelude.{
  ℕ, zero, suc, ◌+◌, Bool, true, false, ◌&&◌, ◌||◌, Option, none, some, if◌then◌else◌,
}
use nets.Prelude.Int.{ℤ, pos, negsuc, ◌-ℤ◌, ltb_ℤ, eqb_ℤ}
use nets.Timestamp.{Timestamp, of_microseconds, plus_milliseconds, is_at_most, is_equal}

pub record TimerId : Type 0 where
  pub key : ℤ
  pub value : Timestamp

abbrev pub null_id : TimerId
null_id = record { key = negsuc 0; value = of_microseconds (pos 0) }

abbrev pub is_same_id : TimerId → TimerId → Bool
is_same_id a b = eqb_ℤ a.key b.key && is_equal a.value b.value

-- `interval` counts milliseconds.
pub record Timer : Type 0 where
  pub id : TimerId
  pub repeat_times : ℤ
  pub interval : ℤ
  pub fixed_delay : Bool
  pub callback : Option ℕ

abbrev pub repeat_forever : ℤ
repeat_forever = negsuc 0

abbrev pub expired_time : Timer → Timestamp
expired_time t = t.id.value

abbrev pub set_expired_time : Timer → Timestamp → Timer
set_expired_time t time = record t { id = record { key = t.id.key; value = time } }

abbrev pub is_repeatable : Timer → Bool
is_repeatable t = eqb_ℤ t.repeat_times repeat_forever || ltb_ℤ (pos 0) t.repeat_times

abbrev pub set_repeat_times : Timer → ℤ → Timer
set_repeat_times t n = record t { repeat_times = n }

abbrev pub is_expired : Timer → Timestamp → Bool
is_expired t now = is_at_most t.id.value now

-- What a timer is left with when it is moved from.
abbrev pub moved_from : Timer → Timer
moved_from t = record {
  id = null_id;
  repeat_times = pos 0;
  interval = pos 0;
  fixed_delay = false;
  callback = none;
}

-- `Timer(Timer&& other)`
pub move_construct : Timer → Timer × Timer
move_construct other = (other, moved_from other)

-- `operator=(Timer&& other)` for another object: `fixedDelay_` is not taken over.
pub move_assign : Timer → Timer → Timer × Timer
move_assign this other = (
  record {
    id = other.id;
    repeat_times = other.repeat_times;
    interval = other.interval;
    fixed_delay = this.fixed_delay;
    callback = other.callback;
  },
  moved_from other,
)

-- The callback that `onTimer` calls, if it calls one.
abbrev callback_of : Option ℕ → Bool → Option ℕ
callback_of none b = none
callback_of (some f) true = some f
callback_of (some f) false = none

pub due_callback : Timer → Option ℕ
due_callback t = callback_of t.callback (is_repeatable t)

-- What `onTimer` does after the call.
pub advance : Timer → Timestamp → Timer
advance t now = record t {
  id = record {
    key = t.id.key;
    value =
        if t.fixed_delay
        then plus_milliseconds now t.interval
        else plus_milliseconds t.id.value t.interval;
  };
  repeat_times = if ltb_ℤ (pos 0) t.repeat_times then t.repeat_times -ℤ pos 1 else t.repeat_times;
}

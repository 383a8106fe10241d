-- ===== src/Timer/Manager.antt =====
-- TimerManager: a multimap from times to timers, as its list of entries in order.
pub mod Sorted
pub mod Update
pub mod Cancel
pub mod Termination
mod Tests
use nets.Prelude.{
  ℕ, zero, suc, ◌+◌, Bool, true, false, Option, none, some, List, [], ◌∷◌, ◌++◌, if◌then◌else◌,
}
use nets.Prelude.Int.{ℤ, pos, negsuc, eqb_ℤ}
use nets.Timestamp.{
  Timestamp, of_microseconds, plus_milliseconds, minus_microseconds, milliseconds_since_epoch,
  is_before, is_at_most,
}
use nets.Timer.{
  TimerId, Timer, is_repeatable, is_expired, expired_time, set_expired_time, set_repeat_times,
  due_callback, advance,
}

-- The time of an entry is its key, which does not follow the timer's own time.
pub record Entry : Type 0 where
  pub time : Timestamp
  pub timer : Timer

-- `next_id` is `Timer::timerIdGenerator_`.
pub record TimerManager : Type 0 where
  pub timers : List Entry
  pub next_id : ℕ

-- `multimap::insert`: behind the entries of the same time.
unfoldable pub insert : Entry → List Entry → List Entry
insert e [] = e ∷ []
insert e (x ∷ xs) =
    let rest = insert e xs in if is_before e.time x.time then e ∷ x ∷ xs else x ∷ rest

abbrev new_timer : ℕ → Timestamp → ℤ → ℤ → Bool → Option ℕ → Timer
new_timer n expired repeats interval fixed_delay callback = record {
  id = record { key = pos n; value = expired };
  repeat_times = repeats;
  interval = interval;
  fixed_delay = fixed_delay;
  callback = callback;
}

unfoldable pub add_timer :
    TimerManager → Timestamp → ℤ → ℤ → Bool → Option ℕ → TimerId × TimerManager
unfolding insert
add_timer m expired repeats interval fixed_delay callback =
    let t = new_timer m.next_id expired repeats interval fixed_delay callback in
    (
      t.id,
      record {
        timers = insert (record { time = expired; timer = t }) m.timers;
        next_id = suc m.next_id;
      },
    )

-- What `removeTimer` writes into the timer that it finds.
pub cancelled : Timer → Timer
cancelled t = set_repeat_times (set_expired_time t (of_microseconds (pos 0))) (pos 0)

-- From the first entry that is not before the time of the id, the first one with its key.
pub cancel_in : TimerId → List Entry → List Entry
cancel_in id [] = []
cancel_in id (e ∷ es) =
    let rest = cancel_in id es in
    if is_before e.time id.value
    then e ∷ rest
    else if eqb_ℤ id.key e.timer.id.key
    then record e { timer = cancelled e.timer } ∷ es
    else e ∷ rest

pub remove_timer : TimerManager → TimerId → TimerManager
unfolding cancel_in cancelled
remove_timer m id = record m { timers = cancel_in id m.timers }

-- What a callback can ask of the manager.
pub data Request : Type 0 where
  adds : Timestamp → ℤ → ℤ → Bool → Option ℕ → Request
  removes : TimerId → Request

pub serve : TimerManager → List Request → TimerManager
unfolding add_timer remove_timer
serve m [] = m
serve m (adds expired repeats interval fixed_delay callback ∷ rs) =
    serve (add_timer m expired repeats interval fixed_delay callback).1 rs
serve m (removes id ∷ rs) = serve (remove_timer m id) rs

pub record Fired : Type 0 where
  pub key : ℤ
  pub callback : ℕ
  pub due : Timestamp
  pub now : Timestamp

-- The manager while `update` stands at an entry: the entries before it, and those behind it.
pub record Cursor : Type 0 where
  pub passed : List Entry
  pub current : Entry
  pub rest : List Entry
  pub next_id : ℕ

-- `removeTimer` would find its timer in this part of the list.
pub has_entry : TimerId → List Entry → Bool
has_entry id [] = false
has_entry id (e ∷ es) =
    if is_before e.time id.value
    then has_entry id es
    else if eqb_ℤ id.key e.timer.id.key
    then true
    else has_entry id es

head_or : Entry → List Entry → Entry
head_or e [] = e
head_or e (x ∷ xs) = x

-- A request that the callback of the current timer makes. The iterator of `update` stays valid.
pub serve_at : Cursor → Request → Cursor
unfolding insert cancel_in has_entry head_or
serve_at c (adds expired repeats interval fixed_delay callback) =
    let e : Entry = record {
      time = expired;
      timer = new_timer c.next_id expired repeats interval fixed_delay callback;
    } in
    if is_before expired c.current.time
    then record c { passed = insert e c.passed; next_id = suc c.next_id }
    else record c { rest = insert e c.rest; next_id = suc c.next_id }
serve_at c (removes id) =
    if has_entry id c.passed
    then record c { passed = cancel_in id c.passed }
    else if has_entry id (c.current ∷ [])
    then record c { current = head_or c.current (cancel_in id (c.current ∷ [])) }
    else record c { rest = cancel_in id c.rest }

pub serve_all : Cursor → List Request → Cursor
serve_all c [] = c
serve_all c (r ∷ rs) = serve_all (serve_at c r) rs

-- The part of a list that an entry of time `v` goes behind, and the part that it goes in front of.
pub up_to : Timestamp → List Entry → List Entry
up_to v [] = []
up_to v (x ∷ xs) = let rest = up_to v xs in if is_before v x.time then [] else x ∷ rest

pub beyond : Timestamp → List Entry → List Entry
beyond v [] = []
beyond v (x ∷ xs) = let rest = beyond v xs in if is_before v x.time then x ∷ xs else rest

next_is_before : List Entry → Timestamp → Bool
next_is_before [] v = false
next_is_before (x ∷ xs) v = is_before x.time v

-- A timer that can trigger again is erased and put back under its new time, and the loop goes on at
-- the next entry if that is earlier, and at the new entry if not. Any other timer is erased.
pub settle : Cursor → List Entry × List Entry
unfolding insert up_to beyond next_is_before
settle c =
    let v = expired_time c.current.timer in
    let e : Entry = record { time = v; timer = c.current.timer } in
    if is_repeatable c.current.timer
    then (if next_is_before c.rest v
        then (c.passed, insert e c.rest)
        else (up_to v (c.passed ++ c.rest), e ∷ beyond v (c.passed ++ c.rest)))
    else (c.passed, c.rest)

-- What was called before what a later part of the loop called.
abbrev pub after_calls :
    List Fired → Option (TimerManager × List Fired) → Option (TimerManager × List Fired)
after_calls calls none = none
after_calls calls (some (m, log)) = some (m, calls ++ log)

module _ (effects : ℕ → List Request) where
  pub trigger_with : Option ℕ → Cursor → Timestamp → Cursor × List Fired
  trigger_with none c now = (c, [])
  trigger_with (some f) c now =
      let c' = serve_all c (effects f) in
      (
        record c' { current = record c'.current { timer = advance c'.current.timer now } },
        record {
          key = c.current.timer.id.key;
          callback = f;
          due = c.current.timer.id.value;
          now = now;
        }
            ∷ [],
      )

  -- `onTimer` on the current timer.
  pub trigger : Cursor → Timestamp → Cursor × List Fired
  unfolding trigger_with serve_all serve_at advance due_callback
  trigger c now = trigger_with (due_callback c.current.timer) c now

  -- The loop of `update`, one reading of the clock for each round; `none` when the readings run out.
  pub update_loop :
      List Timestamp → List Entry → List Entry → ℕ → Option (TimerManager × List Fired)
  unfolding trigger settle
  update_loop clock passed [] n = some (record { timers = passed; next_id = n }, [])
  update_loop [] passed (x ∷ xs) n = none
  update_loop (now ∷ clock) passed (x ∷ xs) n =
      let c : Cursor = record { passed = passed; current = x; rest = xs; next_id = n } in
      let next = trigger c now in
      let places = settle next.0 in
      let more = update_loop clock places.0 places.1 next.0.next_id in
      if is_expired x.timer now
      then after_calls next.1 more
      else some (record { timers = passed ++ (x ∷ xs); next_id = n }, [])

  pub update : TimerManager → List Timestamp → Option (TimerManager × List Fired)
  unfolding update_loop
  update m clock = update_loop clock [] m.timers m.next_id

-- -1 for a manager without timers, and the rest of the time to the first entry in milliseconds.
unfoldable pub remaining : List Entry → Timestamp → ℤ
unfolding minus_microseconds milliseconds_since_epoch
remaining [] now = negsuc 0
remaining (e ∷ es) now =
    if is_at_most e.time now
    then pos 0
    else milliseconds_since_epoch (minus_microseconds e.time now.microseconds_since_epoch)

unfoldable pub nearest_timer_remaining_expired_time : TimerManager → Timestamp → ℤ
unfolding remaining
nearest_timer_remaining_expired_time m now = remaining m.timers now

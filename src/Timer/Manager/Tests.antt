-- ===== src/Timer/Manager/Tests.antt =====
-- Runs of the timer manager at small inputs.
use nets.Prelude.{ℕ, zero, suc, refl, inl, inr, false, some, List, [], ◌∷◌, arith}
use nets.Prelude.Int.{pos}
use nets.Timestamp.{Timestamp, of_microseconds}
use nets.Timer.Manager.{Entry, TimerManager, Request, adds, removes, update, remove_timer}
use nets.Timer.Manager.Update.{Ends}
use nets.Timer.Manager.Cancel.{AllSilent, IsOther, remove_timer-silences}

abbrev at : ℕ → Timestamp
at n = of_microseconds (pos n)

-- A timer that is called `n` times, every 2 ms.
abbrev entry : ℕ → ℕ → ℕ → Entry
entry key due n = record {
  time = at due;
  timer = record {
    id = record { key = pos key; value = at due };
    repeat_times = pos n;
    interval = pos 2;
    fixed_delay = false;
    callback = some key;
  };
}

abbrev two_timers : TimerManager
two_timers = record { timers = entry 0 1000 2 ∷ entry 1 4000 1 ∷ []; next_id = 2 }

-- The first timer's callback takes the second one off and adds a third.
abbrev busy : ℕ → List Request
busy zero =
    removes (record { key = pos 1; value = at 4000 })
    ∷ adds (at 9000) (pos 1) (pos 0) false (some 2)
    ∷ []
busy (suc f) = []

abbrev quiet : ℕ → List Request
quiet f = []

abbrev clock : List Timestamp
clock = at 5000 ∷ at 5001 ∷ at 5002 ∷ at 5003 ∷ at 5004 ∷ at 5005 ∷ at 9000 ∷ []

remove_timer-silences_example :
    Ends
      (AllSilent (pos 1))
      (IsOther (pos 1))
      (update busy (remove_timer two_timers (record { key = pos 1; value = at 4000 })) clock)
remove_timer-silences_example =
    remove_timer-silences busy two_timers 1 (at 4000) clock (omega arith)
      (inl (λ e. cc e, inr (omega arith, refl, tt)))

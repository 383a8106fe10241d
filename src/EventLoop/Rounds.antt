-- ===== src/EventLoop/Rounds.antt =====
-- The loop of `EventLoop::run`, with the calls that its own callbacks and other threads make in
-- between, in any interleaving.
use nets.Prelude.{ℕ, suc, ◌≡◌, if◌then◌else◌, Bool, true, false, List, [], ◌∷◌, ◌++◌}
use nets.EventLoop.{
  EventLoop, notified, push_task, must_notify, add_task, start_pending_tasks, end_pending_tasks,
  handle_read,
}

-- Where the loop stands: before `run` sets `running_`, before the first test of it, in `timerManager_.update()`, in `runPendingTasks` with the tasks it still
-- has to run, before the poll returns, in the handlers of the active channels, or after the loop.
module _ {ℓ} (A : Type ℓ) where
  pub data Stage : Type ℓ where
    at_start : Stage
    at_test : Stage
    in_timers : Stage
    in_tasks : List A → Stage
    in_poll : Stage
    in_handlers : Stage
    at_end : Stage

  -- `added` are the tasks that `addTask` has pushed, `ran` those that `runPendingTasks` has run, and
  -- `owed` the writes of the eventfd that other threads have still to do, in `addTask` after the
  -- push and in `shutdown` after `running_` is reset.
  pub record Loop : Type ℓ where
    pub event_loop : EventLoop A
    pub stage : Stage
    pub added : List A
    pub ran : List A
    pub owed : ℕ

module _ {ℓ} {A : Type ℓ} where
  -- `while (running_)`
  unfoldable pub next_round : EventLoop A → Stage A
  next_round l = elim l.running [ true ↦ in_timers | false ↦ at_end ]

  unfoldable pub advance_from : Stage A → Loop A → Loop A
  unfolding start_pending_tasks end_pending_tasks next_round
  advance_from at_start s = record s {
    event_loop = record s.event_loop { running = true };
    stage = at_test;
  }
  advance_from at_test s = record s { stage = next_round s.event_loop }
  advance_from in_timers s =
      let (l, tasks) = start_pending_tasks s.event_loop in
      record s { event_loop = l; stage = in_tasks tasks }
  advance_from (in_tasks (t ∷ ts)) s = record s { stage = in_tasks ts; ran = s.ran ++ (t ∷ []) }
  advance_from (in_tasks []) s = record s {
    event_loop = end_pending_tasks s.event_loop;
    stage = in_poll;
  }
  advance_from in_poll s = record s { stage = in_handlers }
  advance_from in_handlers s = record s { stage = next_round s.event_loop }
  advance_from at_end s = record s { stage = at_end }

  -- The next thing that the loop does.
  unfoldable pub advance : Loop A → Loop A
  unfolding advance_from
  advance s = advance_from s.stage s

  -- The poll returns when the eventfd can be read, and else at its timeout or for another channel.
  abbrev pub is_in_callback : Stage A → Bool
  is_in_callback at_start = false
  is_in_callback at_test = false
  is_in_callback in_timers = true
  is_in_callback (in_tasks _) = true
  is_in_callback in_poll = false
  is_in_callback in_handlers = true
  is_in_callback at_end = false

  -- The loop's own `addTask`. What other threads do between its push and its write of the eventfd
  -- could as well come before or after the two.
  abbrev pub adds : Loop A → A → Loop A
  adds s task = record s {
    event_loop = add_task s.event_loop task true;
    added = s.added ++ (task ∷ []);
  }

  -- The push of another thread, which has the eventfd to write then.
  unfoldable pub pushes : Loop A → A → Loop A
  unfolding push_task must_notify
  pushes s task = record s {
    event_loop = push_task s.event_loop task;
    added = s.added ++ (task ∷ []);
    owed = if must_notify s.event_loop false then suc s.owed else s.owed;
  }

  -- `shutdown` up to the write of the eventfd
  unfoldable pub stopped : Loop A → Bool → Loop A
  stopped s in_loop = record s {
    event_loop = record s.event_loop { running = false };
    owed = if in_loop then s.owed else suc s.owed;
  }

  pub data Step (s : Loop A) : Loop A → Type ℓ where
    advances : Step s (advance s)
    other_pushes : (task : A) → Step s (pushes s task)
    other_notifies :
        (n : ℕ)
        → s.owed ≡ suc n
        → Step s (record s { event_loop = notified s.event_loop; owed = n })
    own_adds : (task : A) → is_in_callback s.stage ≡ true → Step s (adds s task)
    stops : (in_loop : Bool) → Step s (stopped s in_loop)
    drains :
        s.stage ≡ in_handlers
        → Step s (record s {
          event_loop = record s.event_loop { notifier = handle_read s.event_loop.notifier };
        })

  pub data Steps (s : Loop A) : Loop A → Type ℓ where
    none_more : Steps s s
    then_step : {t u : Loop A} → Steps s t → Step t u → Steps s u

  -- The loop as its constructor leaves it.
  abbrev pub init : Loop A
  init = record {
    event_loop = record {
      running = false;
      notifier = record { count = 0 };
      pending_tasks = [];
      running_pending_tasks = false;
    };
    stage = at_start;
    added = [];
    ran = [];
    owed = 0;
  }

  abbrev pub in_batch : Stage A → List A
  in_batch (in_tasks ts) = ts
  in_batch _ = []

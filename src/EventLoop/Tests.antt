-- ===== src/EventLoop/Tests.antt =====
-- A few rounds of a loop, by evaluation.
use nets.Prelude.{
  ℕ, ◌+◌, ◌≤◌, ◌≡◌, refl, ◌⊎◌, inl, List, total, All, arith, true, false, none, some, [], ◌∷◌, ◌++◌,
}
use nets.Prelude.Int.{pos}
use nets.Timestamp.{of_microseconds}
use nets.Timer.Manager.{TimerManager, add_timer, insert}
use nets.Timer.Manager.Sorted.{IsSorted}
use nets.EventLoop.{
  EventLoop, push_task, must_notify, add_task, start_pending_tasks, end_pending_tasks, schedule,
  execute,
}
use nets.EventLoop.Rounds.{
  Loop, advance, advance_from, adds, pushes, next_round, advances, other_pushes, own_adds, Steps,
  none_more, then_step, init, in_batch, in_poll,
}
use nets.EventLoop.Wakes.{runs-InOrder, polls-Wake}
use nets.EventLoop.Progress.{after}
use nets.EventLoop.Timeouts.{Bounded, poll_timeout-Bounded}
use nets.EventLoop.Group.{EventLoopGroup}
use nets.Promise.{Ending, returns, run_all}
use nets.Promise.Once.{is_task, Settles}
use nets.EventLoop.Promises.{runs-Fulfil}
use nets.EventLoop.Shutdown.{shutdown_each, is_shutdown, at, Meets, AllWoken, shutdown_each-Ends}
use nets.Poller as Poller
use nets.Poller.{Channel}
use nets.EventLoop.Channels as Channels
use nets.EventLoop.Channels.{Registry, register_channel, registers}
use nets.EventLoop.Channels.Kept.{empty, Steps-keep}

-- Another thread adds 1 before `run`; the loop starts its batch; then another thread pushes 2, the
-- loop itself adds 3, runs 1 and comes to its poll; the eventfd is still to be written for 2.
abbrev batched : Loop ℕ
batched = advance (advance (advance (pushes init 1)))

abbrev polling : Loop ℕ
polling = advance (advance (adds (pushes batched 2) 3))

polling-Steps : Steps init polling
unfolding advance advance_from start_pending_tasks next_round pushes
polling-Steps =
    then_step
      (then_step
        (then_step
          (then_step
            (then_step
              (then_step (then_step (then_step none_more (other_pushes 1)) advances) advances)
              advances)
            (other_pushes 2))
          (own_adds 3 refl))
        advances)
      advances

polling_state :
    (polling.ran ≡ 1 ∷ [])
    × (polling.event_loop.pending_tasks ≡ 2 ∷ 3 ∷ [])
    × (polling.event_loop.notifier.count ≡ 1)
    × (polling.owed ≡ 2)
unfolding advance advance_from start_pending_tasks end_pending_tasks next_round pushes push_task
    must_notify add_task
polling_state = (refl, refl, refl, refl)

runs-InOrder_example :
    polling.added ≡ polling.ran ++ (in_batch polling.stage ++ polling.event_loop.pending_tasks)
runs-InOrder_example = runs-InOrder polling-Steps

polls-Wake_example :
    (polling.event_loop.pending_tasks ≡ []) ⊎ (1 ≤ polling.event_loop.notifier.count + polling.owed)
unfolding advance advance_from start_pending_tasks end_pending_tasks next_round pushes push_task
    must_notify add_task
polls-Wake_example = polls-Wake polling-Steps refl

-- The loop's own tasks run at once.
execute_in_loop : (execute (init {A = ℕ}).event_loop 5 true).1 ≡ 5 ∷ []
unfolding execute
execute_in_loop = refl

abbrev loops : EventLoopGroup ℕ
loops = record { next_loop = 2; event_loops = 7 ∷ 8 ∷ 9 ∷ [] }

abbrev one_timer : TimerManager
one_timer =
    (schedule (record { timers = []; next_id = 0 }) (of_microseconds (pos 5000000)) (pos 20)
      (some 4)).1

one_timer-IsSorted : IsSorted one_timer.timers
unfolding schedule add_timer insert
one_timer-IsSorted = (tt, tt)

poll_timeout-Bounded_example : (n : ℕ) × Bounded one_timer (of_microseconds (pos 5000000)) n
poll_timeout-Bounded_example =
    poll_timeout-Bounded one_timer (of_microseconds (pos 5000000)) one_timer-IsSorted

abbrev ending : ℕ → Ending ℕ
ending i = returns i

added_once : (i : ℕ) → 0 + total (is_task i) (1 ∷ 2 ∷ 3 ∷ []) ≤ 1
added_once i = ground arith

polling_added : polling.added ≡ 1 ∷ 2 ∷ 3 ∷ []
unfolding advance advance_from start_pending_tasks end_pending_tasks next_round pushes push_task
    must_notify add_task
polling_added = refl

polling_running : polling.event_loop.running ≡ true
unfolding advance advance_from start_pending_tasks end_pending_tasks next_round pushes push_task
    must_notify add_task
polling_running = refl

runs-Fulfil_example :
    (n : ℕ) × Settles ending
      (λ i. none)
      polling.added
      (run_all ending (λ i. none) (after n polling).ran)
runs-Fulfil_example =
    runs-Fulfil polling-Steps ending (λ i. none) polling_running
      (λ i. rw polling_added (added_once i))

-- A loop that runs in another thread, and one that has ended.
abbrev two_loops : List (EventLoop ℕ)
two_loops = polling.event_loop ∷ record polling.event_loop { running = false } ∷ []

shutdown_each-Ends_example :
    let ls = shutdown_each (λ i. false) 0 two_loops in
    (is_shutdown ls ≡ true)
    × AllWoken (λ i. false) 0 two_loops ls
    × All (λ l. Meets in_poll (at l in_poll [] [] 0)) ls
shutdown_each-Ends_example = shutdown_each-Ends (λ i. false) 0 two_loops in_poll [] [] 0

abbrev channels : ℕ → Channel
channels q = record { fd = 3; events = 1; ready_events = 0; is_registered = false }

abbrev one_channel : Registry
one_channel = (register_channel (empty channels) 7 true).0

Steps-keep_example :
    (q : ℕ) × (one_channel.channels 3 ≡ some q)
    × ((one_channel.heap q).fd ≡ 3)
    × ((one_channel.heap q).is_registered ≡ true)
unfolding register_channel Poller.register_channel Poller.register_new Poller.epoll_ctl
Steps-keep_example =
    Steps-keep channels 3 (λ q. refl)
      (Channels.then_step Channels.none_more (registers 7 true refl (inl refl))) refl

-- ===== src/Poller/Tests.antt =====
-- One channel and one report, by evaluation.
use nets.Prelude.{ℕ, ◌≡◌, refl, inl, true, false, none, some, List, [], ◌∷◌, map}
use nets.Poller.{
  Channel, EpollPoller, handle_error_event, handle_read_event, handle_write_event, handle_event,
  poll, register_channel, interest_of, add_event,
}
use nets.Poller.Registers.{Steps, none_more, then_step, adds, registers}
use nets.Poller.Ready.{poll-Reports}

abbrev poller : EpollPoller
poller = record { interest = λ _. none; events_size = 12 }

abbrev channel : Channel
channel = record { fd = 5; events = 3; ready_events = 0; is_registered = false }

-- Both kinds of event are asked for.
interest_of_both : interest_of 3 ≡ 5
unfolding interest_of
interest_of_both = refl

registered-Steps :
    Steps
      (poller, channel)
      (
        (register_channel poller (add_event channel 1) true).0,
        (register_channel poller (add_event channel 1) true).1,
      )
unfolding add_event
registered-Steps = then_step (then_step none_more (adds 1)) (registers true (inl refl))

abbrev report : List (Channel × ℕ)
report = (channel, 0x9) ∷ (channel, 0x4) ∷ (channel, 0x8) ∷ []

poll-Reports_example :
    map handle_event (poll poller (some report)).1
    ≡ (handle_error_event ∷ handle_read_event ∷ []) ∷ (handle_write_event ∷ []) ∷ [] ∷ []
poll-Reports_example = poll-Reports poller report

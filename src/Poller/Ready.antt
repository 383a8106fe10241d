-- ===== src/Poller/Ready.antt =====
-- From what epoll reports to the handlers that are called, and the size of the report.
use nets.Prelude.{
  ℕ, ◌+◌, ◌≤◌, ◌<◌, ◌≡◌, refl, ap₂, ◌⊎◌, Bool, true, false, ◌&&◌, ◌||◌, some, List, [], ◌∷◌, ◌++◌,
  if◌then◌else◌, arith, length, map,
}
use nets.Poller.{
  has, none_event, read_event, write_event, error_event, epollin, epollpri, epollout, epollerr,
  epollhup, epollrdhup, Channel, add_ready_event, Handler, handle_error_event, handle_read_event,
  handle_write_event, handle_event, EpollPoller, set_ready, prepare_channel_ready_events,
  grown_size, poll, max_epoll_event_size, epoll_event_initial_size,
}

-- What is called for one report: the error handler first, then the reader, then the writer.
abbrev pub handlers_for : ℕ → List Handler
handlers_for revents =
    (if has revents epollin && (has revents epollerr || has revents epollhup)
      then handle_error_event ∷ []
      else [])
    ++ ((if has revents epollin || (has revents epollpri || has revents epollrdhup)
          then handle_read_event ∷ []
          else [])
        ++ (if has revents epollout then handle_write_event ∷ [] else []))

module _ (c : Channel) where
  -- The three tests decide the bits.
  ready_of : Bool → Bool → Bool → Channel
  ready_of e r w =
      let c0 = record c { ready_events = none_event } in
      let c1 = if e then add_ready_event c0 error_event else c0 in
      let c2 = if r then add_ready_event c1 read_event else c1 in
      if w then add_ready_event c2 write_event else c2

  handle_event-ready_of :
      (e r w : Bool)
      → handle_event (ready_of e r w)
        ≡ (if e then handle_error_event ∷ [] else [])
          ++ ((if r then handle_read_event ∷ [] else [])
              ++ (if w then handle_write_event ∷ [] else []))
  unfolding handle_event ready_of
  handle_event-ready_of true true true = refl
  handle_event-ready_of true true false = refl
  handle_event-ready_of true false true = refl
  handle_event-ready_of true false false = refl
  handle_event-ready_of false true true = refl
  handle_event-ready_of false true false = refl
  handle_event-ready_of false false true = refl
  handle_event-ready_of false false false = refl

  handle_event-set_ready : (revents : ℕ) → handle_event (set_ready c revents) ≡ handlers_for revents
  unfolding set_ready ready_of
  handle_event-set_ready revents =
      handle_event-ready_of (has revents epollin && (has revents epollerr || has revents epollhup))
        (has revents epollin || (has revents epollpri || has revents epollrdhup))
        (has revents epollout)

handlers-prepare :
    (reported : List (Channel × ℕ))
    → map handle_event (prepare_channel_ready_events reported)
      ≡ map (λ x. handlers_for x.1) reported
unfolding prepare_channel_ready_events
handlers-prepare [] = refl
handlers-prepare (x ∷ xs) = ap₂ ◌∷◌ (handle_event-set_ready x.0 x.1) (handlers-prepare xs)

-- The channels of a report are handled in its order, and each calls its error handler for EPOLLIN
-- with EPOLLERR or EPOLLHUP, then its read handler for EPOLLIN, EPOLLPRI or EPOLLRDHUP, then its
-- write handler for EPOLLOUT, and no other.
pub poll-Reports :
    (p : EpollPoller) (reported : List (Channel × ℕ))
    → map handle_event (poll p (some reported)).1 ≡ map (λ x. handlers_for x.1) reported
unfolding poll
poll-Reports p reported = handlers-prepare reported

-- Within the bounds of the array of events.
abbrev pub IsSized : EpollPoller → Type 0
IsSized p = (epoll_event_initial_size ≤ p.events_size) × (p.events_size < max_epoll_event_size)

-- From 12 up to INT32_MAX - 1 events, a poll keeps the size of the array in these bounds and never
-- shrinks it, and grows it where the report filled it and it was not at its largest.
poll-IsSized :
    (p : EpollPoller) (reported : List (Channel × ℕ))
    → IsSized p
    → let p' = (poll p (some reported)).0 in
      IsSized p'
      × (p.events_size ≤ p'.events_size)
      × ((length reported < p.events_size)
          ⊎ (p.events_size + 1 ≡ max_epoll_event_size)
          ⊎ (p.events_size < p'.events_size))
unfolding poll grown_size
poll-IsSized p reported h = ground arith

-- ===== src/EventLoop/Channels.antt =====
-- The channels of a loop (`registerChannel`, `modifyChannel`, `deregisterChannel` of EventLoop.cpp). epoll
-- holds raw pointers to them, and `channels_` the shared pointers that keep them alive. A channel is its
-- address in `heap`. The assertions of the source are premises of the steps.
pub mod Changes
pub mod Kept
use nets.Prelude.{
  ℕ, ◌≡◌, ◌≢◌, refl, ap, sym, ◌∙◌, subst, ◌⊎◌, inl, inr, Bool, true, false, Option, none, some,
  arith, ◌==◌, ==_iff, if◌then◌else◌, Bool-cases, Option-cases,
}
use nets.Poller as Poller
use nets.Poller.{Channel, EpollPoller, update, ctl_del}
use nets.Poller.Registers.{
  IsAnswer, Agrees, is_held, Others, update-same, update-other, epoll_ctl-Others,
  modify_channel-Others, modify_channel-Agrees, deregister_channel-Agrees,
  register_channel-modify_channel,
}

pub record Registry : Type 0 where
  pub poller : EpollPoller
  pub heap : ℕ → Channel
  pub channels : ℕ → Option ℕ

abbrev pub with_channel : (ℕ → Channel) → ℕ → Channel → ℕ → Channel
with_channel h q c p = if q == p then c else h p

unfoldable pub register_channel : Registry → ℕ → Bool → Registry × Bool
register_channel r q succeeds =
    let (p', c', b) = Poller.register_channel r.poller (r.heap q) succeeds in
    let channels' = if b then update r.channels (r.heap q).fd (some q) else r.channels in
    (record { poller = p'; heap = with_channel r.heap q c'; channels = channels' }, b)

unfoldable pub modify_channel : Registry → ℕ → Bool → Registry × Bool
modify_channel r q succeeds =
    let (p', c', b) = Poller.modify_channel r.poller (r.heap q) succeeds in
    (record r { poller = p'; heap = with_channel r.heap q c' }, b)

unfoldable pub deregister_channel : Registry → ℕ → Bool → Registry
deregister_channel r q succeeds =
    let (p', c', b) = Poller.deregister_channel r.poller (r.heap q) succeeds in
    record {
      poller = p';
      heap = with_channel r.heap q c';
      channels = update r.channels (r.heap q).fd none;
    }

-- The map has each channel under its descriptor, and agrees with epoll about it; epoll holds nothing
-- else; and what counts as registered is in the map.
pub record IsKept (r : Registry) : Type 0 where
  pub kept : (i q : ℕ) → r.channels i ≡ some q → ((r.heap q).fd ≡ i) × Agrees r.poller (r.heap q)
  pub absent : (i : ℕ) → r.channels i ≡ none → r.poller.interest i ≡ none
  pub registered : (q : ℕ) → (r.heap q).is_registered ≡ true → r.channels (r.heap q).fd ≡ some q

-- What the loop's callers do.
pub data Step (r : Registry) : Registry → Type 0 where
  registers :
      (q : ℕ) (succeeds : Bool)
      → r.channels (r.heap q).fd ≡ none
      → IsAnswer r.poller (r.heap q) succeeds
      → Step r (register_channel r q succeeds).0
  modifies :
      (q : ℕ) (succeeds : Bool)
      → r.channels (r.heap q).fd ≡ some q
      → IsAnswer r.poller (r.heap q) succeeds
      → Step r (modify_channel r q succeeds).0
  deregisters :
      (q : ℕ) (succeeds : Bool)
      → r.channels (r.heap q).fd ≡ some q
      → IsAnswer r.poller (r.heap q) succeeds
      → Step r (deregister_channel r q succeeds)
  sets_events :
      (q events : ℕ)
      → Step r (record r { heap = with_channel r.heap q (Poller.set_events (r.heap q) events) })
  -- A channel that opens another socket, or a new one.
  opens :
      (q fd events : ℕ)
      → r.channels (r.heap q).fd ≢ some q
      → Step r (record r {
        heap =
            with_channel r.heap q
              (record { fd = fd; events = events; ready_events = 0; is_registered = false });
      })

pub data Steps (r : Registry) : Registry → Type 0 where
  none_more : Steps r r
  then_step : {s t : Registry} → Steps r s → Step s t → Steps r t

-- ===== src/Poller.antt =====
-- nets/net/poller/EpollPoller.cpp with the events of nets/net/channel/Channel.h and Channel.cpp.
-- `interest` is what the epoll instance holds for each descriptor. Whether an `epoll_ctl` succeeds is
-- an argument.
pub mod Registers
pub mod Ready
mod Tests
use nets.Prelude.{
  ℕ, zero, ◌+◌, ◌-◌, ◌/◌, ◌%◌, ◌^◌, Bool, true, false, not, ◌&&◌, ◌||◌, Option, none, some, List,
  [], ◌∷◌, ◌++◌, leb, ◌==◌, if◌then◌else◌, length, map,
}

-- `events & bit`, of a power of two
abbrev pub has : ℕ → ℕ → Bool
has events bit = (events / bit) % 2 == 1

-- `events |= bit`, of a power of two
abbrev pub with_bit : ℕ → ℕ → ℕ
with_bit events bit = if has events bit then events else events + bit

abbrev pub none_event : ℕ
none_event = 0

abbrev pub read_event : ℕ
read_event = 0x01

abbrev pub write_event : ℕ
write_event = 0x02

abbrev pub error_event : ℕ
error_event = 0x04

-- The values of <sys/epoll.h>.
abbrev pub epollin : ℕ
epollin = 0x001

abbrev pub epollpri : ℕ
epollpri = 0x002

abbrev pub epollout : ℕ
epollout = 0x004

abbrev pub epollerr : ℕ
epollerr = 0x008

abbrev pub epollhup : ℕ
epollhup = 0x010

abbrev pub epollrdhup : ℕ
epollrdhup = 0x2000

pub record Channel : Type 0 where
  pub fd : ℕ
  pub events : ℕ
  pub ready_events : ℕ
  pub is_registered : Bool

unfoldable pub set_events : Channel → ℕ → Channel
set_events c events = record c { events = events }

unfoldable pub add_event : Channel → ℕ → Channel
add_event c event = record c { events = with_bit c.events event }

abbrev pub is_none_event : Channel → Bool
is_none_event c = c.events == none_event

abbrev pub has_read_event : Channel → Bool
has_read_event c = has c.events read_event

abbrev pub has_write_event : Channel → Bool
has_write_event c = has c.events write_event

abbrev pub add_ready_event : Channel → ℕ → Channel
add_ready_event c event = record c { ready_events = with_bit c.ready_events event }

pub data Handler : Type 0 where
  handle_error_event handle_read_event handle_write_event : Handler

-- The handlers that are called, in order.
unfoldable pub handle_event : Channel → List Handler
handle_event c =
    (if has c.ready_events error_event then handle_error_event ∷ [] else [])
    ++ ((if has c.ready_events read_event then handle_read_event ∷ [] else [])
        ++ (if has c.ready_events write_event then handle_write_event ∷ [] else []))

pub record EpollPoller : Type 0 where
  pub interest : ℕ → Option ℕ
  pub events_size : ℕ

abbrev pub epoll_event_initial_size : ℕ
epoll_event_initial_size = 12

-- INT32_MAX
abbrev pub max_epoll_event_size : ℕ
max_epoll_event_size = 2 ^ 31 - 1

pub data EpollOpt : Type 0 where
  ctl_add ctl_mod ctl_del : EpollOpt

-- What the loop asks epoll to report.
unfoldable pub interest_of : ℕ → ℕ
interest_of events =
    let wanted = if has events read_event then with_bit 0 epollin else 0 in
    if has events write_event then with_bit wanted epollout else wanted

abbrev kept_for : EpollOpt → ℕ → Option ℕ
kept_for ctl_add events = some (interest_of events)
kept_for ctl_mod events = some (interest_of events)
kept_for ctl_del events = none

abbrev pub update : (ℕ → Option ℕ) → ℕ → Option ℕ → ℕ → Option ℕ
update f i o j = if i == j then o else f j

unfoldable pub epoll_ctl : EpollPoller → EpollOpt → Channel → Bool → EpollPoller × Bool
epoll_ctl p opt c succeeds =
    if succeeds
    then (record p { interest = update p.interest c.fd (kept_for opt c.events) }, true)
    else (p, false)

-- Each operation gives the poller, the channel and what it returns.
abbrev Outcome : Type 0
Outcome = EpollPoller × Channel × Bool

unfoldable pub deregister_channel : EpollPoller → Channel → Bool → Outcome
unfolding epoll_ctl
deregister_channel p c succeeds =
    let gone = record c { is_registered = false } in
    let (p', b) = epoll_ctl p ctl_del gone succeeds in (p', gone, b)

unfoldable pub register_new : EpollPoller → Channel → Bool → Outcome
unfolding epoll_ctl
register_new p c succeeds =
    let (p', b) = epoll_ctl p ctl_add c succeeds in
    (p', record c { is_registered = if b then true else c.is_registered }, b)

unfoldable pub modify_registered : EpollPoller → Channel → Bool → Outcome
unfolding epoll_ctl deregister_channel
modify_registered p c succeeds =
    if not (is_none_event c)
    then (let (p', b) = epoll_ctl p ctl_mod c succeeds in (p', c, b))
    else deregister_channel p c succeeds

-- Of a channel that is registered, `registerChannel` is a `modifyChannel`.
unfoldable pub register_channel : EpollPoller → Channel → Bool → Outcome
unfolding register_new modify_registered
register_channel p c succeeds =
    if not c.is_registered then register_new p c succeeds else modify_registered p c succeeds

-- Of a channel that is not registered, `modifyChannel` is a `registerChannel`.
unfoldable pub modify_channel : EpollPoller → Channel → Bool → Outcome
unfolding register_new modify_registered
modify_channel p c succeeds =
    if c.is_registered then modify_registered p c succeeds else register_new p c succeeds

-- `revents`, into the ready events of a channel
unfoldable pub set_ready : Channel → ℕ → Channel
set_ready c revents =
    let c0 = record c { ready_events = none_event } in
    let c1 =
      if has revents epollin && (has revents epollerr || has revents epollhup)
      then add_ready_event c0 error_event
      else c0 in
    let c2 =
      if has revents epollin || (has revents epollpri || has revents epollrdhup)
      then add_ready_event c1 read_event
      else c1 in
    if has revents epollout then add_ready_event c2 write_event else c2

-- The channels that epoll reports, each with its `revents`, in the order of the report.
unfoldable pub prepare_channel_ready_events : List (Channel × ℕ) → List Channel
unfolding set_ready
prepare_channel_ready_events [] = []
prepare_channel_ready_events (x ∷ xs) = set_ready x.0 x.1 ∷ prepare_channel_ready_events xs

unfoldable pub grown_size : ℕ → ℕ
grown_size size =
    let larger = size + size / 2 in
    if leb max_epoll_event_size larger then max_epoll_event_size - 1 else larger

-- `epoll_wait` has failed, and reports nothing, where the report is none.
unfoldable pub poll : EpollPoller → Option (List (Channel × ℕ)) → EpollPoller × List Channel
unfolding prepare_channel_ready_events grown_size
poll p none = (p, [])
poll p (some reported) = (
  if leb 1 (length reported) && leb p.events_size (length reported)
      then record p { events_size = grown_size p.events_size }
      else p,
  prepare_channel_ready_events reported,
)

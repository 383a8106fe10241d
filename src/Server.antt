-- ===== src/Server.antt =====
-- nets/net/channel/ServerSocketChannel.h and ServerSocketChannel.cpp, with dealwithEMFILE and createIdleFd of
-- nets/net/core/Socket.cpp. `opened` and `closed` are the descriptors that it has opened and closed,
-- `accepted` those that it has handed to a SocketChannel. What the system calls answer are arguments;
-- a descriptor that is not there is none.
pub mod Binds
pub mod Descriptors
pub mod Accepts
mod Tests
use nets.Prelude.{
  ℕ, Bool, true, false, ◌||◌, not, Option, none, some, List, [], ◌∷◌, ◌++◌, ◌==◌, if◌then◌else◌,
}
use nets.Prelude.Int.{ℤ, pos, ltb_ℤ, leb_ℤ}
use nets.Options.{
  SockOption, backlog, reuse_addr, reuse_port, keep_alive, keep_idle, keep_cnt, keep_intvl,
  tcp_no_delay, linger, broadcast, ip4_multicast_if, ip6_multicast_if, ip4_multicast_ttl,
  ip6_multicast_hops, ip4_multicast_loop, ip6_multicast_loop, send_buf, recv_buf, ValueType,
  bool_value, opt_value, SetSockOpt, Outcome, sets, sets_backlog, invalid_argument, unsupported,
  set_channel_option,
}

-- An unordered map, in the order of its iteration.
abbrev pub ChannelOptionList : Type 0
ChannelOptionList = List (SockOption × ValueType)

-- The values of the enumeration, by which the keys of a map are equal.
abbrev pub value_of : SockOption → ℕ
value_of backlog = 0
value_of reuse_addr = 1
value_of reuse_port = 2
value_of keep_alive = 3
value_of keep_idle = 4
value_of keep_cnt = 5
value_of keep_intvl = 6
value_of tcp_no_delay = 7
value_of linger = 8
value_of broadcast = 9
value_of ip4_multicast_if = 10
value_of ip6_multicast_if = 11
value_of ip4_multicast_ttl = 12
value_of ip6_multicast_hops = 13
value_of ip4_multicast_loop = 14
value_of ip6_multicast_loop = 15
value_of send_buf = 16
value_of recv_buf = 17

unfoldable pub insert_or_assign : ChannelOptionList → SockOption → ValueType → ChannelOptionList
insert_or_assign [] o v = (o, v) ∷ []
insert_or_assign (x ∷ xs) o v =
    let rest = insert_or_assign xs o v in
    if value_of x.0 == value_of o then (x.0, v) ∷ xs else x ∷ rest

unfoldable pub assign_all : ChannelOptionList → ChannelOptionList → ChannelOptionList
unfolding insert_or_assign
assign_all options [] = options
assign_all options (x ∷ xs) = assign_all (insert_or_assign options x.0 x.1) xs

-- `options_set` are the calls of `setsockopt`, `listening` the backlog that `listen` was given.
pub record ServerSocketChannel : Type 0 where
  pub sock_fd : Option ℕ
  pub idle_fd : Option ℕ
  pub backlog_size : ℤ
  pub channel_options : ChannelOptionList
  pub child_options : ChannelOptionList
  pub options_set : List SetSockOpt
  pub listening : Option ℤ
  pub opened : List ℕ
  pub closed : List ℕ
  pub accepted : List ℕ

unfoldable pub set_channel_options : ServerSocketChannel → ChannelOptionList → ServerSocketChannel
unfolding assign_all
set_channel_options s options = record s { channel_options = assign_all s.channel_options options }

unfoldable pub set_child_options : ServerSocketChannel → ChannelOptionList → ServerSocketChannel
unfolding assign_all
set_child_options s options = record s { child_options = assign_all s.child_options options }

abbrev pub fd_list : Option ℕ → List ℕ
fd_list none = []
fd_list (some fd) = fd ∷ []

-- The constructor throws `runtime_error` where there is no idle descriptor.
unfoldable pub construct : ℕ → Option ℕ → Option ServerSocketChannel
construct somaxconn none = none
construct somaxconn (some fd) = some (record {
  sock_fd = none;
  idle_fd = some fd;
  backlog_size = pos 0;
  channel_options =
      (reuse_addr, bool_value true)
      ∷ (reuse_port, bool_value true)
      ∷ (backlog, opt_value (pos somaxconn))
      ∷ [];
  child_options = (reuse_addr, bool_value true) ∷ (reuse_port, bool_value true) ∷ [];
  options_set = [];
  listening = none;
  opened = fd ∷ [];
  closed = [];
  accepted = [];
})

unfoldable pub destroy : ServerSocketChannel → ServerSocketChannel
destroy s = record s { closed = s.closed ++ (fd_list s.sock_fd ++ fd_list s.idle_fd) }

-- The exceptions of `bind`.
pub data BindError : Type 0 where
  creation_failed option_failed bind_failed listen_failed register_failed : BindError

-- The values of `errno` that `handleAcceptError` tells apart.
pub data AcceptError : Type 0 where
  eagain eintr eproto econnaborted emfile other_error : AcceptError

pub data AcceptAnswer : Type 0 where
  accepts : ℕ → AcceptAnswer
  fails : AcceptError → AcceptAnswer

-- The idle descriptor makes room for a connection, which is closed. `conn` is what `accept` gives,
-- `idle` what `open` gives.
unfoldable pub deal_with_emfile : ServerSocketChannel → Option ℕ → Option ℕ → ServerSocketChannel
deal_with_emfile s conn idle = record s {
  opened = s.opened ++ (fd_list conn ++ fd_list idle);
  closed = s.closed ++ (fd_list s.idle_fd ++ fd_list conn);
  idle_fd = idle;
}

-- The second part is true when it throws.
unfoldable pub handle_accept_error :
    ServerSocketChannel → AcceptError → Option ℕ → Option ℕ → ServerSocketChannel × Bool
unfolding deal_with_emfile
handle_accept_error s eagain conn idle = (s, false)
handle_accept_error s eintr conn idle = (s, false)
handle_accept_error s eproto conn idle = (s, false)
handle_accept_error s econnaborted conn idle = (s, false)
handle_accept_error s emfile conn idle = (deal_with_emfile s conn idle, false)
handle_accept_error s other_error conn idle = (s, true)

-- Of `bind`, what comes after the options.
unfoldable pub limited_backlog : ℕ → ℤ → ℤ
limited_backlog somaxconn n =
    if ltb_ℤ (pos somaxconn) n || leb_ℤ n (pos 0) then pos somaxconn else n

unfoldable pub after_options :
    ℕ → ServerSocketChannel → Bool → Bool → Bool → Bool → ServerSocketChannel × Option BindError
unfolding limited_backlog
after_options somaxconn s false binds listens registers = (s, some option_failed)
after_options somaxconn s true false listens registers =
    (record s { channel_options = [] }, some bind_failed)
after_options somaxconn s true true listens registers =
    let limited = record s {
      channel_options = [];
      backlog_size = limited_backlog somaxconn s.backlog_size;
    } in
    if listens
    then (
      record limited { listening = some limited.backlog_size },
      if registers then none else some register_failed,
    )
    else (limited, some listen_failed)

module _ (inet_pton if_nametoindex : List ℕ → ℕ) where
  -- The loop of `bind` over the options; false when one throws.
  unfoldable pub set_options : ServerSocketChannel → ChannelOptionList → ServerSocketChannel × Bool
  set_options s [] = (s, true)
  set_options s (x ∷ xs) = elim (set_channel_option inet_pton if_nametoindex true x.0 x.1) [
    | sets c ↦ set_options (record s { options_set = s.options_set ++ (c ∷ []) }) xs
    | sets_backlog n ↦ set_options (record s { backlog_size = n }) xs
    | invalid_argument ↦ (s, false)
    | unsupported ↦ (s, false)
  ]

  -- The options of a connection; false when one throws.
  unfoldable pub child_options_fit : ChannelOptionList → Bool
  child_options_fit [] = true
  child_options_fit (x ∷ xs) = elim (set_channel_option inet_pton if_nametoindex false x.0 x.1) [
    | sets c ↦ child_options_fit xs
    | sets_backlog n ↦ child_options_fit xs
    | invalid_argument ↦ false
    | unsupported ↦ false
  ]

  -- `socket`, `bind`, `listen` and `registerTo` answer with `fd`, `binds`, `listens` and `registers`.
  unfoldable pub bind :
      ℕ
      → ServerSocketChannel
      → Option ℕ
      → Bool
      → Bool
      → Bool
      → ServerSocketChannel × Option BindError
  unfolding set_options after_options
  bind somaxconn s none binds listens registers = (s, some creation_failed)
  bind somaxconn s (some fd) binds listens registers =
      let created = record s { sock_fd = some fd; opened = s.opened ++ (fd ∷ []) } in
      let (optioned, fits) = set_options created created.channel_options in
      after_options somaxconn optioned fits binds listens registers

  -- A SocketChannel owns the descriptor from the start, also where its options throw.
  unfoldable pub handle_read_event :
      ServerSocketChannel → AcceptAnswer → Option ℕ → Option ℕ → ServerSocketChannel × Bool
  unfolding child_options_fit handle_accept_error
  handle_read_event s (accepts fd) conn idle = (
    record s { opened = s.opened ++ (fd ∷ []); accepted = s.accepted ++ (fd ∷ []) },
    not (child_options_fit s.child_options),
  )
  handle_read_event s (fails errno) conn idle = handle_accept_error s errno conn idle

-- ===== src/Connector.antt =====
-- nets/net/channel/ConnectorChannel.h and ConnectorChannel.cpp. Descriptors are numbers; `opened`,
-- `closed` and `connected` are those that the channel has created, closed, and handed to a
-- SocketChannel. `tasks` are those it has added to its loop, `scheduled` the connects it has scheduled
-- there. `failed` tells whether an exception has left it. What the system calls and the poller answer are arguments.
pub mod Descriptors
pub mod Reports
mod Tests
use nets.Prelude.{
  ℕ, zero, suc, ◌+◌, ◌-◌, Bool, true, false, Option, none, some, List, [], ◌∷◌, ◌++◌, ◌==◌,
  if◌then◌else◌,
}

pub data ConnectionState : Type 0 where
  connected_state connecting disconnected : ConnectionState

pub data Task : Type 0 where
  deregister_and_reconnect deregister_only : Task

pub record ConnectorChannel : Type 0 where
  pub sock_fd : Option ℕ
  pub state : ConnectionState
  pub retry : Bool
  pub has_write_event : Bool
  pub is_registered : Bool
  pub tasks : List Task
  pub scheduled : ℕ
  pub opened : List ℕ
  pub closed : List ℕ
  pub connected : List ℕ
  pub failed : Bool

-- The `errno` values that `handleConnectError` tells apart.
pub data ConnectError : Type 0 where
  eintr eisconn einprogress : ConnectError
  eagain etimedout eaddrinuse eaddrnotavail econnrefused enetunreach : ConnectError
  other_error : ConnectError

unfoldable pub init : Bool → ConnectorChannel
init retry = record {
  sock_fd = none;
  state = disconnected;
  retry = retry;
  has_write_event = false;
  is_registered = false;
  tasks = [];
  scheduled = 0;
  opened = [];
  closed = [];
  connected = [];
  failed = false;
}

abbrev pub fd_list : Option ℕ → List ℕ
fd_list none = []
fd_list (some fd) = fd ∷ []

unfoldable pub deregister : ConnectorChannel → ConnectorChannel
deregister c = record c { is_registered = false }

unfoldable pub reconnect : ConnectorChannel → ConnectorChannel
reconnect c = record c {
  state = disconnected;
  closed = c.closed ++ fd_list c.sock_fd;
  sock_fd = none;
  scheduled = suc c.scheduled;
}

-- `registers` is what `registerTo` returns.
unfoldable pub wait_connect : ConnectorChannel → Bool → ConnectorChannel
unfolding deregister reconnect
wait_connect c registers =
    let waiting = record c { has_write_event = true } in
    if registers
    then record waiting { state = connecting; is_registered = true }
    else (let left = if waiting.is_registered then deregister waiting else waiting in
        if left.retry then reconnect left else left)

-- `initializes` is false where `initSocketChannel` throws: for an option, in the callback, or for a
-- handler. The SocketChannel, which nothing else holds then, closes the descriptor.
unfoldable pub new_socket_channel : ConnectorChannel → Bool → ConnectorChannel
unfolding deregister
new_socket_channel c initializes =
    let handed = record c {
      state = connected_state;
      connected = c.connected ++ fd_list c.sock_fd;
    } in
    if initializes
    then elim c.state [ connecting ↦ deregister handed | _ ↦ handed ]
    else record c { closed = c.closed ++ fd_list c.sock_fd; failed = true }

unfoldable pub handle_connect_error : ConnectorChannel → ConnectError → Bool → ConnectorChannel
unfolding wait_connect reconnect
handle_connect_error c eintr registers = wait_connect c registers
handle_connect_error c eisconn registers = wait_connect c registers
handle_connect_error c einprogress registers = wait_connect c registers
handle_connect_error c eagain registers = reconnect c
handle_connect_error c etimedout registers = reconnect c
handle_connect_error c eaddrinuse registers = reconnect c
handle_connect_error c eaddrnotavail registers = reconnect c
handle_connect_error c econnrefused registers = reconnect c
handle_connect_error c enetunreach registers = reconnect c
handle_connect_error c other_error registers = c

-- `fd` is the new socket, and `error` what its `connect` fails with, if it does.
unfoldable pub connect : ConnectorChannel → ℕ → Option ConnectError → Bool → Bool → ConnectorChannel
unfolding new_socket_channel handle_connect_error
connect c fd error registers initializes =
    let created = record c { sock_fd = some fd; opened = c.opened ++ (fd ∷ []) } in
    elim error [
      | none ↦ new_socket_channel created initializes
      | some errno ↦ handle_connect_error created errno registers
    ]

unfoldable pub handle_error_event : ConnectorChannel → ConnectorChannel
handle_error_event c = record c {
  tasks = c.tasks ++ ((if c.retry then deregister_and_reconnect else deregister_only) ∷ []);
}

-- `sock_error` is what `getSockError` returns.
unfoldable pub handle_write_event : ConnectorChannel → ℕ → Bool → ConnectorChannel
unfolding handle_error_event new_socket_channel
handle_write_event c sock_error initializes = elim c.state [
  | connecting ↦ if sock_error == 0 then new_socket_channel c initializes else handle_error_event c
  | _ ↦ c
]

-- `Channel::handleEvent`: the error handler, then the write handler.
unfoldable pub handle_event : ConnectorChannel → Bool → Bool → ℕ → Bool → ConnectorChannel
unfolding handle_error_event handle_write_event
handle_event c error_ready write_ready sock_error initializes =
    let seen = if error_ready then handle_error_event c else c in
    if write_ready then handle_write_event seen sock_error initializes else seen

-- The first of the tasks, when the loop runs it.
unfoldable pub run_task : ConnectorChannel → ConnectorChannel
unfolding deregister reconnect
run_task c = elim c.tasks [
  | [] ↦ c
  | deregister_and_reconnect ∷ ts ↦ reconnect (deregister (record c { tasks = ts }))
  | deregister_only ∷ ts ↦ deregister (record c { tasks = ts })
]

-- The destructor closes the descriptor, unless a SocketChannel has it.
unfoldable pub destroy : ConnectorChannel → ConnectorChannel
destroy c = elim c.state [
  | connected_state ↦ c
  | _ ↦ record c { closed = c.closed ++ fd_list c.sock_fd }
]

-- ===== src/Bootstrap/Client.antt =====
-- nets/net/bootstrap/Bootstrap.cpp: a connector or a datagram channel is given what was set before, and so is the
-- SocketChannel that a connector makes (`initSocketChannel` of nets/net/channel/ConnectorChannel.cpp).
use nets.Prelude.{ℕ, Bool, true, false, Option, none, some, List, [], ◌∷◌, ◌++◌, if◌then◌else◌}
use nets.Memory.{Result, ok, ◌>>=◌}
use nets.Options.{SockOption, ValueType, bool_value, reuse_addr, reuse_port}
use nets.Server.{BindError, ChannelOptionList, insert_or_assign, assign_all, child_options_fit}
use nets.Connector as Connector
use nets.Connector.{ConnectorChannel, ConnectError}
use nets.Datagram as Datagram
use nets.Datagram.{DatagramChannel}
use nets.Address.{InetSockAddress}
use nets.Pipeline.{Heap, Pipeline}
use nets.Pipeline.Shared.{add_all, new_pipeline}
use nets.Bootstrap.{OrInvalid, unless_empty, unless_null}

pub record Bootstrap : Type 0 where
  pub channel_options : ChannelOptionList
  pub retry : Bool
  pub retry_interval : ℕ
  pub socket_handlers : List ℕ
  pub datagram_handlers : List ℕ
  pub socket_callback : Option ℕ
  pub datagram_callback : Option ℕ

abbrev pub new_client : Bootstrap
new_client = record {
  channel_options = [];
  retry = false;
  retry_interval = 0;
  socket_handlers = [];
  datagram_handlers = [];
  socket_callback = none;
  datagram_callback = none;
}

unfoldable pub retry : Bootstrap → Bool → ℕ → Bootstrap
retry b on interval = record b { retry = on; retry_interval = interval }

unfoldable pub option : Bootstrap → SockOption → ValueType → Bootstrap
option b o v = record b { channel_options = insert_or_assign b.channel_options o v }

-- The four overloads of `channelHandler`
unfoldable pub socket_handler : Bootstrap → Option ℕ → OrInvalid Bootstrap
socket_handler b none = none
socket_handler b (some h) = some (record b { socket_handlers = b.socket_handlers ++ (h ∷ []) })

unfoldable pub socket_initialization : Bootstrap → Option ℕ → OrInvalid Bootstrap
socket_initialization b none = none
socket_initialization b (some f) = some (record b { socket_callback = some f })

unfoldable pub datagram_handler : Bootstrap → Option ℕ → OrInvalid Bootstrap
datagram_handler b none = none
datagram_handler b (some h) =
    some (record b { datagram_handlers = b.datagram_handlers ++ (h ∷ []) })

unfoldable pub datagram_initialization : Bootstrap → Option ℕ → OrInvalid Bootstrap
datagram_initialization b none = none
datagram_initialization b (some f) = some (record b { datagram_callback = some f })

-- A ConnectorChannel, with what it gives to its SocketChannel.
pub record ConnectorSetup : Type 0 where
  pub channel : ConnectorChannel
  pub retry_interval : ℕ
  pub channel_options : ChannelOptionList
  pub handlers : List ℕ
  pub callback : Option ℕ

abbrev pub new_connector : ConnectorChannel → ConnectorSetup
new_connector c = record {
  channel = c;
  retry_interval = 0;
  channel_options = [];
  handlers = [];
  callback = none;
}

unfoldable pub init_connector_channel : Bootstrap → ConnectorSetup → ConnectorSetup × Bootstrap
init_connector_channel b k = (
  record {
    channel = record k.channel { retry = b.retry };
    retry_interval = b.retry_interval;
    channel_options = unless_empty b.channel_options (λ xs. xs) k.channel_options;
    handlers = unless_empty b.socket_handlers (λ hs. hs) k.handlers;
    callback = unless_null b.socket_callback k.callback;
  },
  record b { channel_options = []; socket_handlers = []; socket_callback = none },
)

-- A channel whose options have been set, with the callback that has been called with it.
pub record NewChannel : Type 0 where
  pub pipeline : Pipeline
  pub initialized_by : Option ℕ

-- A DatagramChannel with its constructor's options, its pipeline, and the callback that has been called with it.
pub record DatagramSetup : Type 0 where
  pub channel : DatagramChannel
  pub pipeline : Pipeline
  pub initialized_by : Option ℕ

abbrev pub new_datagram : Heap → DatagramSetup
new_datagram h = record {
  channel = record {
    sock_fd = none;
    channel_options = (reuse_addr, bool_value true) ∷ (reuse_port, bool_value true) ∷ [];
    options_set = [];
    bound = none;
    has_read_event = false;
    sent = [];
    packets = [];
  };
  pipeline = new_pipeline h;
  initialized_by = none;
}

unfoldable pub init_datagram_channel :
    ℕ → Bootstrap → DatagramSetup → Result (DatagramSetup × Bootstrap)
init_datagram_channel fuel b d = add_all fuel d.pipeline b.datagram_handlers >>= (λ p. ok (
  record {
    channel = record d.channel {
      channel_options =
          unless_empty b.channel_options (assign_all d.channel.channel_options)
            d.channel.channel_options;
    };
    pipeline = p;
    initialized_by = unless_null b.datagram_callback d.initialized_by;
  },
  record b { channel_options = []; datagram_handlers = []; datagram_callback = none },
))

abbrev pub cleared : ConnectorSetup → ConnectorSetup
cleared k = record k { channel_options = []; handlers = []; callback = none }

module _ (inet_pton if_nametoindex : List ℕ → ℕ) (fuel : ℕ) where
  -- `initSocketChannel`. None where an option throws: then nothing is cleared.
  unfoldable pub init_socket_channel :
      ConnectorSetup → Heap → Result (Option NewChannel × ConnectorSetup)
  init_socket_channel k h =
      if child_options_fit inet_pton if_nametoindex k.channel_options
      then (add_all fuel (new_pipeline h) k.handlers
          >>= (λ p. ok (some (record { pipeline = p; initialized_by = k.callback }), cleared k)))
      else ok (none, k)

  -- `doBind`, with what the system calls answer.
  unfoldable pub do_bind :
      Bootstrap
      → Heap
      → InetSockAddress
      → Option ℕ
      → Bool
      → Bool
      → Result (DatagramSetup × Bootstrap × Option BindError)
  unfolding init_datagram_channel
  do_bind b h local fd binds registers = init_datagram_channel fuel b (new_datagram h) >>= (λ r.
      let (d', error) =
        Datagram.bind inet_pton if_nametoindex r.0.channel local fd binds registers in
      ok (record r.0 { channel = d' }, r.1, error))

-- `doConnect`: `fd` is the new socket, and `error` what its `connect` fails with, if it does.
unfoldable pub do_connect :
    Bootstrap → ℕ → Option ConnectError → Bool → Bool → ConnectorSetup × Bootstrap
unfolding init_connector_channel
do_connect b fd error registers initializes =
    let (k, b') = init_connector_channel b (new_connector (Connector.init false)) in
    (record k { channel = Connector.connect k.channel fd error registers initializes }, b')

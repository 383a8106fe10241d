-- ===== src/Bootstrap.antt =====
-- nets/net/bootstrap/AbstractBootstrap.h and ServerBootstrap.cpp: what is set before a channel is
-- made, and how it is moved to the channel. A handler and a callback are numbers, and a null pointer is none.
pub mod Values
pub mod Given
pub mod Children
pub mod Client
pub mod Connects
pub mod Stops
mod Tests
use nets.Prelude.{ℕ, Bool, true, false, Option, none, some, List, [], ◌∷◌, ◌++◌}
use nets.Options.{SockOption, ValueType}
use nets.Server as Server
use nets.Server.{
  ChannelOptionList, ServerSocketChannel, BindError, insert_or_assign, set_channel_options,
  set_child_options,
}

-- `std::invalid_argument` is none.
abbrev pub OrInvalid {ℓ} : Type ℓ → Type ℓ
OrInvalid A = Option A

pub record ServerBootstrap : Type 0 where
  pub channel_options : ChannelOptionList
  pub child_options : ChannelOptionList
  pub child_handlers : List ℕ
  pub child_callback : Option ℕ

abbrev pub new_server : ServerBootstrap
new_server = record {
  channel_options = [];
  child_options = [];
  child_handlers = [];
  child_callback = none;
}

-- A ServerSocketChannel, with what it gives to the channels of its connections.
pub record ServerSetup : Type 0 where
  pub channel : ServerSocketChannel
  pub handlers : List ℕ
  pub callback : Option ℕ

unfoldable pub option : ServerBootstrap → SockOption → ValueType → ServerBootstrap
option b o v = record b { channel_options = insert_or_assign b.channel_options o v }

unfoldable pub child_option : ServerBootstrap → SockOption → ValueType → ServerBootstrap
child_option b o v = record b { child_options = insert_or_assign b.child_options o v }

unfoldable pub child_handler : ServerBootstrap → Option ℕ → OrInvalid ServerBootstrap
child_handler b none = none
child_handler b (some h) = some (record b { child_handlers = b.child_handlers ++ (h ∷ []) })

unfoldable pub child_initialization : ServerBootstrap → Option ℕ → OrInvalid ServerBootstrap
child_initialization b none = none
child_initialization b (some f) = some (record b { child_callback = some f })

-- `if (!options.empty()) { channel->set…(options); }`
abbrev pub unless_empty {ℓ κ} : {A : Type ℓ} → {B : Type κ} → List A → (List A → B) → B → B
unless_empty [] give b = b
unless_empty (x ∷ xs) give b = give (x ∷ xs)

abbrev pub unless_null : Option ℕ → Option ℕ → Option ℕ
unless_null none old = old
unless_null (some f) old = some f

unfoldable pub init_server_socket_channel :
    ServerBootstrap → ServerSetup → ServerSetup × ServerBootstrap
unfolding set_channel_options set_child_options
init_server_socket_channel b s =
    let c = unless_empty b.channel_options (set_channel_options s.channel) s.channel in
    let c' = unless_empty b.child_options (set_child_options c) c in
    (
      record {
        channel = c';
        handlers = unless_empty b.child_handlers (λ hs. hs) s.handlers;
        callback = unless_null b.child_callback s.callback;
      },
      new_server,
    )

-- `doBind`, with what the system calls answer. None where the constructor of the channel throws.
module _ (inet_pton if_nametoindex : List ℕ → ℕ) (somaxconn : ℕ) where
  unfoldable pub do_bind :
      ServerBootstrap
      → Option ℕ
      → Option ℕ
      → Bool
      → Bool
      → Bool
      → Option (ServerSetup × ServerBootstrap × Option BindError)
  unfolding init_server_socket_channel
  do_bind b idle fd binds listens registers = elim (Server.construct somaxconn idle) [
    | none ↦ none
    | some c ↦
        let (s, b') =
          init_server_socket_channel b (record { channel = c; handlers = []; callback = none }) in
        let (c', error) =
          Server.bind inet_pton if_nametoindex somaxconn s.channel fd binds listens registers in
        some (record s { channel = c' }, b', error)
  ]

-- ===== src/Bootstrap/Tests.antt =====
-- A server and a client, by evaluation.
use nets.Prelude.{ℕ, ◌≡◌, refl, true, none, some, List, [], ◌∷◌, map, arith}
use nets.Prelude.Int.{pos}
use nets.Memory.{ok}
use nets.Options.{backlog, reuse_addr, opt_value, bool_value, tcp_no_delay, set_channel_option}
use nets.Server.{ServerSocketChannel, child_options_fit}
use nets.Pipeline.{Heap}
use nets.Pipeline.Chain.{Holds}
use nets.EventLoop.Group.{EventLoopGroup}
use nets.Bootstrap.{ServerSetup, new_server, init_server_socket_channel}
use nets.Bootstrap.Values.{lookup, newest}
use nets.Bootstrap.Given.{
  Call, sets_option, sets_child_option, adds_handler, configure_all, options_of, child_options_of,
  handlers_of, callback_of, fresh, init_server_socket_channel-Given,
}
use nets.Bootstrap.Children.{accept_children, child_of, pipeline_of, accept_children-Rounds}
use nets.Bootstrap.Client.{Bootstrap, new_client}

abbrev name_of : List ℕ → ℕ
name_of s = 0

abbrev server_channel : ServerSocketChannel
server_channel = record {
  sock_fd = none;
  idle_fd = some 3;
  backlog_size = pos 0;
  channel_options = (reuse_addr, bool_value true) ∷ (backlog, opt_value (pos 128)) ∷ [];
  child_options = (reuse_addr, bool_value true) ∷ [];
  options_set = [];
  listening = none;
  opened = 3 ∷ [];
  closed = [];
  accepted = [];
}

abbrev calls : List Call
calls =
    sets_option backlog (opt_value (pos 64))
    ∷ sets_child_option tcp_no_delay (bool_value true)
    ∷ adds_handler (some 1)
    ∷ adds_handler none
    ∷ sets_option backlog (opt_value (pos 32))
    ∷ []

newest_backlog :
    newest (options_of calls) 0 (lookup server_channel.channel_options 0)
    ≡ some (opt_value (pos 32))
newest_backlog = refl

init_server_socket_channel-Given_example :
    let (s, b) =
      init_server_socket_channel (configure_all new_server calls) (fresh server_channel) in
    (lookup s.channel.channel_options 0
      ≡ newest (options_of calls) 0 (lookup server_channel.channel_options 0))
    × (lookup s.channel.child_options 0
        ≡ newest (child_options_of calls) 0 (lookup server_channel.child_options 0))
    × (s.handlers ≡ handlers_of calls)
    × (s.callback ≡ callback_of calls none)
    × (b ≡ new_server)
init_server_socket_channel-Given_example = init_server_socket_channel-Given calls server_channel 0

abbrev heap : Heap
heap n = record { name = "handler"; next = none }

abbrev setup : ServerSetup
setup = record { channel = server_channel; handlers = 1 ∷ []; callback = some 9 }

abbrev loops : EventLoopGroup ℕ
loops = record { next_loop = 1; event_loops = 20 ∷ 21 ∷ 22 ∷ [] }

server_fits : child_options_fit name_of name_of server_channel.child_options ≡ true
unfolding child_options_fit set_channel_option
server_fits = refl

accept_children-Rounds_example :
    (accept_children name_of name_of 4 3 setup loops heap
      ≡ ok (map (child_of name_of name_of 4 setup heap) (21 ∷ 22 ∷ 20 ∷ []), loops))
    × Holds (pipeline_of setup heap) (1 ∷ [])
accept_children-Rounds_example =
    accept_children-Rounds name_of name_of 4 setup heap loops (omega arith) (refl, tt) server_fits
      (omega arith)

abbrev client : Bootstrap
client = record new_client { socket_handlers = 1 ∷ 2 ∷ []; socket_callback = some 9; retry = true }

client_fits : child_options_fit name_of name_of [] ≡ true
unfolding child_options_fit
client_fits = refl

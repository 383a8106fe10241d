-- ===== src/Server/Tests.antt =====
-- A server with one descriptor left, by evaluation.
use nets.Prelude.{ℕ, ◌+◌, ◌≡◌, refl, true, none, some, List, [], ◌∷◌, arith, total}
use nets.Prelude.Int.{pos}
use nets.Options.{set_channel_option, bool_value, backlog, reuse_addr, reuse_port, opt_value}
use nets.Server.{
  ServerSocketChannel, construct, destroy, accepts, fails, emfile, handle_read_event, bind,
  set_options, after_options, limited_backlog, child_options_fit,
}
use nets.Server.Binds.{bind-Ends, Unless, IsListening, first_error, all_take}
use nets.Server.Descriptors.{Steps, none_more, then_step, reads, Steps-destroy}
use nets.Server.Accepts.{System, HasIdle, Events-go}

abbrev name_of : List ℕ → ℕ
name_of s = 0

abbrev server : ServerSocketChannel
server = record {
  sock_fd = none;
  idle_fd = some 3;
  backlog_size = pos 0;
  channel_options =
      (reuse_addr, bool_value true)
      ∷ (reuse_port, bool_value true)
      ∷ (backlog, opt_value (pos 128))
      ∷ [];
  child_options = (reuse_addr, bool_value true) ∷ (reuse_port, bool_value true) ∷ [];
  options_set = [];
  listening = none;
  opened = 3 ∷ [];
  closed = [];
  accepted = [];
}

bind_listens :
    (bind name_of name_of 128 server (some 4) true true true).0.listening ≡ some (pos 128)
unfolding bind set_options after_options limited_backlog set_channel_option
bind_listens = refl

bind-Ends_example :
    let r = bind name_of name_of 128 server (some 4) true true true in
    (r.1 ≡ first_error (some 4) (all_take server.channel_options) true true true)
    × Unless r.1 (IsListening 128 r.0)
bind-Ends_example = bind-Ends name_of name_of 128 (omega arith) server (some 4) true true true

abbrev served : ServerSocketChannel
served = (handle_read_event name_of name_of server (accepts 5) none none).0

abbrev full : ServerSocketChannel
full = (handle_read_event name_of name_of served (fails emfile) (some 3) (some 3)).0

full-Steps : Steps name_of name_of 128 server full
full-Steps =
    then_step (then_step none_more (reads (accepts 5) none none))
      (reads (fails emfile) (some 3) (some 3))

construct_server : construct 128 (some 3) ≡ some server
unfolding construct
construct_server = refl

Steps-destroy_example :
    total (λ fd. fd) (destroy full).opened
    ≡ total (λ fd. fd) (destroy full).closed + total (λ fd. fd) (destroy full).accepted
Steps-destroy_example = Steps-destroy name_of name_of 128 3 construct_server full-Steps (λ fd. fd)

-- Two connections wait, and there is room for one.
abbrev waiting : System
waiting = record { server = server; pending = 2; room = 1 }

server-HasIdle : HasIdle server
server-HasIdle = (3, refl)

children_fit : child_options_fit name_of name_of server.child_options ≡ true
unfolding child_options_fit set_channel_option
children_fit = refl

abbrev after : System
after = (Events-go name_of name_of waiting server-HasIdle children_fit).0

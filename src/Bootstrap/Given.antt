-- ===== src/Bootstrap/Given.antt =====
-- What a server's channel is given (`initServerSocketChannel` of ServerBootstrap.cpp), against the calls that were
-- made before.
use nets.Prelude.{
  ℕ, ◌≡◌, refl, ap, sym, ◌∙◌, Bool, true, false, Option, none, some, List, [], ◌∷◌, ◌++◌, ◌==◌,
  if◌then◌else◌, append_assoc, append-nil,
}
use nets.Options.{SockOption, ValueType}
use nets.Server.{
  ChannelOptionList, ServerSocketChannel, value_of, assign_all, set_channel_options,
  set_child_options,
}
use nets.Bootstrap.{
  ServerBootstrap, ServerSetup, new_server, option, child_option, child_handler,
  child_initialization, init_server_socket_channel, unless_empty, unless_null,
}
use nets.Bootstrap.Values.{
  lookup, or_else, newest, lookup-assign_all, assign_all-Unique, newest-Unique,
}

pub data Call : Type 0 where
  sets_option sets_child_option : SockOption → ValueType → Call
  adds_handler sets_callback : Option ℕ → Call

-- Where a call throws, the object stays as it was.
abbrev or_as_before : Option ServerBootstrap → ServerBootstrap → ServerBootstrap
or_as_before none b = b
or_as_before (some b') b = b'

unfoldable pub configure : ServerBootstrap → Call → ServerBootstrap
unfolding option child_option child_handler child_initialization
configure b (sets_option o v) = option b o v
configure b (sets_child_option o v) = child_option b o v
configure b (adds_handler h) = or_as_before (child_handler b h) b
configure b (sets_callback f) = or_as_before (child_initialization b f) b

unfoldable pub configure_all : ServerBootstrap → List Call → ServerBootstrap
unfolding configure
configure_all b [] = b
configure_all b (c ∷ cs) = configure_all (configure b c) cs

abbrev pub options_of : List Call → ChannelOptionList
options_of [] = []
options_of (sets_option o v ∷ cs) = (o, v) ∷ options_of cs
options_of (sets_child_option o v ∷ cs) = options_of cs
options_of (adds_handler h ∷ cs) = options_of cs
options_of (sets_callback f ∷ cs) = options_of cs

abbrev pub child_options_of : List Call → ChannelOptionList
child_options_of [] = []
child_options_of (sets_option o v ∷ cs) = child_options_of cs
child_options_of (sets_child_option o v ∷ cs) = (o, v) ∷ child_options_of cs
child_options_of (adds_handler h ∷ cs) = child_options_of cs
child_options_of (sets_callback f ∷ cs) = child_options_of cs

abbrev pub handlers_of : List Call → List ℕ
handlers_of [] = []
handlers_of (sets_option o v ∷ cs) = handlers_of cs
handlers_of (sets_child_option o v ∷ cs) = handlers_of cs
handlers_of (adds_handler none ∷ cs) = handlers_of cs
handlers_of (adds_handler (some h) ∷ cs) = h ∷ handlers_of cs
handlers_of (sets_callback f ∷ cs) = handlers_of cs

-- The last callback, or else `f`.
abbrev pub callback_of : List Call → Option ℕ → Option ℕ
callback_of [] f = f
callback_of (sets_option o v ∷ cs) f = callback_of cs f
callback_of (sets_child_option o v ∷ cs) f = callback_of cs f
callback_of (adds_handler h ∷ cs) f = callback_of cs f
callback_of (sets_callback none ∷ cs) f = callback_of cs f
callback_of (sets_callback (some g) ∷ cs) f = callback_of cs (some g)

abbrev Called : ServerBootstrap → List Call → ServerBootstrap → Type 0
Called b cs b' =
    (b'.channel_options ≡ assign_all b.channel_options (options_of cs))
    × (b'.child_options ≡ assign_all b.child_options (child_options_of cs))
    × (b'.child_handlers ≡ b.child_handlers ++ handlers_of cs)
    × (b'.child_callback ≡ callback_of cs b.child_callback)

configure_all-Called : (b : ServerBootstrap) (cs : List Call) → Called b cs (configure_all b cs)
unfolding configure_all configure option child_option child_handler child_initialization assign_all
configure_all-Called b [] = (refl, refl, sym (append-nil b.child_handlers), refl)
configure_all-Called b (sets_option o v ∷ cs) = configure_all-Called (option b o v) cs
configure_all-Called b (sets_child_option o v ∷ cs) = configure_all-Called (child_option b o v) cs
configure_all-Called b (adds_handler none ∷ cs) = configure_all-Called b cs
configure_all-Called b (adds_handler (some h) ∷ cs) =
    let (e, f, g, k) =
      configure_all-Called (record b { child_handlers = b.child_handlers ++ (h ∷ []) }) cs in
    (e, f, g ∙ append_assoc b.child_handlers (h ∷ []) (handlers_of cs), k)
configure_all-Called b (sets_callback none ∷ cs) = configure_all-Called b cs
configure_all-Called b (sets_callback (some f) ∷ cs) =
    configure_all-Called (record b { child_callback = some f }) cs

or_else-if :
    (b : Bool) (v : ValueType) (d e : Option ValueType)
    → or_else (if b then some v else d) e ≡ (if b then some v else or_else d e)
or_else-if true v d e = refl
or_else-if false v d e = refl

newest-or_else :
    (xs : ChannelOptionList) (n : ℕ) (d e : Option ValueType)
    → or_else (newest xs n d) e ≡ newest xs n (or_else d e)
newest-or_else [] n d e = refl
newest-or_else (x ∷ xs) n d e =
    newest-or_else xs n (if value_of x.0 == n then some x.1 else d) e
    ∙ ap (newest xs n) (or_else-if (value_of x.0 == n) x.1 d e)

-- A map that is filled by assignments, and then assigned to another.
moved :
    (d xs : ChannelOptionList) (n : ℕ)
    → lookup (assign_all d (assign_all [] xs)) n ≡ newest xs n (lookup d n)
moved d xs n =
    lookup-assign_all d (assign_all [] xs) n
    ∙ newest-Unique (assign_all [] xs) n (lookup d n) (assign_all-Unique [] xs tt)
    ∙ ap (λ o. or_else o (lookup d n)) (lookup-assign_all [] xs n)
    ∙ newest-or_else xs n none (lookup d n)

abbrev pub fresh : ServerSocketChannel → ServerSetup
fresh c = record { channel = c; handlers = []; callback = none }

-- The tests for empty lists change nothing.
abbrev given : ServerBootstrap → ServerSocketChannel → ServerSetup
given b c = record {
  channel = record c {
    channel_options = assign_all c.channel_options b.channel_options;
    child_options = assign_all c.child_options b.child_options;
  };
  handlers = b.child_handlers;
  callback = b.child_callback;
}

sets_all :
    (c : ServerSocketChannel) (xs : ChannelOptionList)
    → unless_empty xs (set_channel_options c) c
      ≡ record c { channel_options = assign_all c.channel_options xs }
unfolding set_channel_options assign_all
sets_all c [] = refl
sets_all c (x ∷ xs) = refl

sets_all_child :
    (c : ServerSocketChannel) (xs : ChannelOptionList)
    → unless_empty xs (set_child_options c) c
      ≡ record c { child_options = assign_all c.child_options xs }
unfolding set_child_options assign_all
sets_all_child c [] = refl
sets_all_child c (x ∷ xs) = refl

gives_all : (xs : List ℕ) → unless_empty xs (λ hs. hs) [] ≡ xs
gives_all [] = refl
gives_all (x ∷ xs) = refl

gives_some : (f : Option ℕ) → unless_null f none ≡ f
gives_some none = refl
gives_some (some x) = refl

init_server_socket_channel-given :
    (b : ServerBootstrap) (c : ServerSocketChannel)
    → init_server_socket_channel b (fresh c) ≡ (given b c, new_server)
unfolding init_server_socket_channel
init_server_socket_channel-given b c =
    rw
      (
        sets_all c b.channel_options,
        sets_all_child
            (record c { channel_options = assign_all c.channel_options b.channel_options })
            b.child_options,
        gives_all b.child_handlers,
        gives_some b.child_callback,
      )
      refl

-- After any calls on a new server bootstrap, of which those with a null pointer throw and change
-- nothing, a channel without handlers has each option and child option at the last value that was
-- set, or else at its own, the handlers in the order of the calls, and the last callback; and the
-- bootstrap is as new.
pub init_server_socket_channel-Given :
    (cs : List Call) (c : ServerSocketChannel) (n : ℕ)
    → let (s, b) = init_server_socket_channel (configure_all new_server cs) (fresh c) in
      (lookup s.channel.channel_options n ≡ newest (options_of cs) n (lookup c.channel_options n))
      × (lookup s.channel.child_options n
          ≡ newest (child_options_of cs) n (lookup c.child_options n))
      × (s.handlers ≡ handlers_of cs)
      × (s.callback ≡ callback_of cs none)
      × (b ≡ new_server)
init_server_socket_channel-Given cs c n =
    let b = configure_all new_server cs in
    let (e, f, g, k) = configure_all-Called new_server cs in
    rw (init_server_socket_channel-given b c, e, f, g, k)
      (
        moved c.channel_options (options_of cs) n,
        moved c.child_options (child_options_of cs) n,
        refl,
        refl,
        refl,
      )

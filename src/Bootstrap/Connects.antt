-- ===== src/Bootstrap/Connects.antt =====
-- What the channels of two connects are given (`doConnect` of Bootstrap.cpp, `newSocketChannel` of ConnectorChannel.cpp).
use nets.Prelude.{ℕ, ◌≤◌, ◌≡◌, refl, true, Option, none, some, List, [], ◌∷◌, All, arith, length}
use nets.Memory.{ok}
use nets.Server.{child_options_fit}
use nets.Connector.{ConnectorChannel}
use nets.Pipeline.{Heap, Pipeline}
use nets.Pipeline.Chain.{Distinct, Holds}
use nets.Pipeline.Shared.{add_all, new_pipeline, add_all-Holds, new_pipeline-Fresh}
use nets.Bootstrap.{unless_empty, unless_null}
use nets.Bootstrap.Client.{
  Bootstrap, ConnectorSetup, new_connector, init_connector_channel, init_socket_channel, cleared,
}

gives_all {ℓ} : {A : Type ℓ} (xs : List A) → unless_empty xs (λ ys. ys) [] ≡ xs
gives_all [] = refl
gives_all (x ∷ xs) = refl

gives_some : (f : Option ℕ) → unless_null f none ≡ f
gives_some none = refl
gives_some (some x) = refl

-- The tests for empty lists change nothing.
abbrev given : Bootstrap → ConnectorChannel → ConnectorSetup
given b c = record {
  channel = record c { retry = b.retry };
  retry_interval = b.retry_interval;
  channel_options = b.channel_options;
  handlers = b.socket_handlers;
  callback = b.socket_callback;
}

module _ (inet_pton if_nametoindex : List ℕ → ℕ) (fuel : ℕ) where
  given-init :
      (b : Bootstrap) (c : ConnectorChannel) (h : Heap) (p : Pipeline)
      → child_options_fit inet_pton if_nametoindex b.channel_options ≡ true
      → add_all fuel (new_pipeline h) b.socket_handlers ≡ ok p
      → init_socket_channel inet_pton if_nametoindex fuel (given b c) h
        ≡ ok (
          some (record { pipeline = p; initialized_by = b.socket_callback }),
          cleared (given b c),
        )
  unfolding init_socket_channel
  given-init b c h p fit e = rw (fit, e) refl

  -- With distinct handlers without successors, options that fit and fuel that is not below the
  -- number of handlers, the SocketChannel of the first connector has the handlers in order and the
  -- callback, which the connector gives away, and the SocketChannel of the next connector has none;
  -- both connectors have the retries that were set.
  init_connector_channel-Once :
      (b : Bootstrap) (c c' : ConnectorChannel) (h : Heap)
      → length b.socket_handlers ≤ fuel
      → Distinct b.socket_handlers
      → All (λ x. (h x).next ≡ none) b.socket_handlers
      → child_options_fit inet_pton if_nametoindex b.channel_options ≡ true
      → let (k, b') = init_connector_channel b (new_connector c) in
        let (k', b'') = init_connector_channel b' (new_connector c') in
        (p : Pipeline) × (init_socket_channel inet_pton if_nametoindex fuel k h
          ≡ ok (some (record { pipeline = p; initialized_by = b.socket_callback }), cleared k))
        × Holds p b.socket_handlers
        × (init_socket_channel inet_pton if_nametoindex fuel k' p.heap
            ≡ ok (some (record { pipeline = new_pipeline p.heap; initialized_by = none }), k'))
        × (k'.channel.retry ≡ b.retry)
        × (k'.retry_interval ≡ b.retry_interval)
  unfolding init_connector_channel init_socket_channel child_options_fit add_all
  init_connector_channel-Once b c c' h enough d free fit =
      let (p, e, v) =
        add_all-Holds fuel (new_pipeline h) [] b.socket_handlers (omega arith)
          (record { chain = refl; distinct = tt }) d
          (new_pipeline-Fresh h b.socket_handlers free) in
      (
        p,
        rw (gives_all b.channel_options, gives_all b.socket_handlers, gives_some b.socket_callback)
            (given-init b c h p fit e),
        v,
        refl,
        refl,
        refl,
      )

-- ===== src/Connector/Tests.antt =====
-- A connector that is refused, tries again and connects.
use nets.Prelude.{◌≡◌, refl, true, false, some, [], ◌∷◌}
use nets.Connector.{
  ConnectorChannel, econnrefused, einprogress, init, connect, handle_event, handle_write_event,
  handle_connect_error, reconnect, wait_connect, new_socket_channel,
}

abbrev refused : ConnectorChannel
refused = connect (init true) 3 (some econnrefused) true true

abbrev trying : ConnectorChannel
trying = connect (record refused { scheduled = 0 }) 4 (some einprogress) true true

abbrev connected : ConnectorChannel
connected = handle_event trying false true 0 true

connected_state :
    (connected.opened ≡ 3 ∷ 4 ∷ []) × (connected.closed ≡ 3 ∷ []) × (connected.connected ≡ 4 ∷ [])
unfolding connect handle_connect_error reconnect init wait_connect handle_event handle_write_event
    new_socket_channel
connected_state = (refl, refl, refl)

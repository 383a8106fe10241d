-- ===== src/Datagram/Tests.antt =====
-- A datagram of two bytes, by evaluation.
use nets.Prelude.{◌≡◌, refl, true, false, none, [], ◌∷◌, arith, replicate}
use nets.Prelude.Int.{pos}
use nets.Memory.{ok}
use nets.ByteBuffer.{received}
use nets.Options.{bool_value, reuse_addr}
use nets.Address.{InetSockAddress, af_inet, to_network, zeroed, is_in_valid}
use nets.Datagram.{DatagramChannel, do_write, handle_read_event}
use nets.Datagram.Packets.{Receives, handle_read_event-Receives}

abbrev local : InetSockAddress
local = record { family = af_inet; port_bytes = to_network 53; rest = replicate 24 0 }

abbrev channel : DatagramChannel
channel = record {
  sock_fd = none;
  channel_options = (reuse_addr, bool_value true) ∷ [];
  options_set = [];
  bound = none;
  has_read_event = false;
  sent = [];
  packets = [];
}

handle_read_event-Receives_example :
    (d' : DatagramChannel) × (handle_read_event channel (received (7 ∷ 8 ∷ [])) local ≡ ok d')
    × Receives channel (7 ∷ 8 ∷ []) local d'
handle_read_event-Receives_example =
    handle_read_event-Receives channel 7 (8 ∷ []) local (omega arith)

-- Nothing goes to an address without a family.
not_sent : do_write channel (1 ∷ []) zeroed (pos 1) ≡ (channel, pos 0)
unfolding do_write is_in_valid
not_sent = refl

sent : (do_write channel (1 ∷ []) local (pos 1)).0.sent ≡ ((1 ∷ []), local) ∷ []
unfolding do_write is_in_valid
sent = refl

-- ===== src/Datagram.antt =====
-- nets/net/channel/DatagramChannel.h and DatagramChannel.cpp. `sent` are the datagrams that the kernel took,
-- `packets` those that were fired along the pipeline. What the system calls answer are arguments.
pub mod Packets
pub mod Packet
mod Tests
use nets.Prelude.{
  ℕ, ◌*◌, Bool, true, false, ◌||◌, not, Option, none, some, List, [], ◌∷◌, ◌++◌, ◌==◌, length,
  if◌then◌else◌,
}
use nets.Prelude.Int.{ℤ, pos, negsuc}
use nets.Memory.{Result, ok, ◌>>=◌}
use nets.ByteBuffer.{ByteBuffer, Received, received, failed, with_capacity, write_bytes_from}
use nets.Options.{SetSockOpt, sets, sets_backlog, invalid_argument, unsupported, set_channel_option}
use nets.Server.{
  ChannelOptionList, BindError, creation_failed, option_failed, bind_failed, register_failed,
}
use nets.Address.{InetSockAddress, is_in_valid}

pub record DatagramChannel : Type 0 where
  pub sock_fd : Option ℕ
  pub channel_options : ChannelOptionList
  pub options_set : List SetSockOpt
  pub bound : Option InetSockAddress
  pub has_read_event : Bool
  pub sent : List (List ℕ × InetSockAddress)
  pub packets : List (ByteBuffer × InetSockAddress)

abbrev pub recv_packet_size : ℕ
recv_packet_size = 1024 * 16

-- What `sendTo` returns. A result that is not positive is logged only.
unfoldable pub do_write : DatagramChannel → List ℕ → InetSockAddress → ℤ → DatagramChannel × ℤ
unfolding is_in_valid
do_write d bytes recipient answer =
    if length bytes == 0 || is_in_valid recipient then (d, pos 0) else elim answer [
      | pos n ↦ (record d { sent = d.sent ++ ((bytes, recipient) ∷ []) }, pos n)
      | negsuc n ↦ (d, negsuc n)
    ]

-- A read of no bytes, and one that fails, are logged at most.
abbrev pub after_read : DatagramChannel → Received → InetSockAddress → ByteBuffer → DatagramChannel
after_read d (received []) src_addr b = d
after_read d (received (_ ∷ _)) src_addr b = record d {
  packets = d.packets ++ ((b, src_addr) ∷ []);
}
after_read d (failed errno) src_addr b = d

unfoldable pub handle_read_event :
    DatagramChannel → Received → InetSockAddress → Result DatagramChannel
unfolding with_capacity write_bytes_from
handle_read_event d r src_addr =
    write_bytes_from (with_capacity recv_packet_size) recv_packet_size r
    >>= (λ b. ok (after_read d r src_addr b))

module _ (inet_pton if_nametoindex : List ℕ → ℕ) where
  -- The calls of `setsockopt`, and false when an option throws.
  unfoldable pub set_options : List SetSockOpt → ChannelOptionList → List SetSockOpt × Bool
  set_options done [] = (done, true)
  set_options done (x ∷ xs) = elim (set_channel_option inet_pton if_nametoindex false x.0 x.1) [
    | sets c ↦ set_options (done ++ (c ∷ [])) xs
    | sets_backlog n ↦ set_options done xs
    | invalid_argument ↦ (done, false)
    | unsupported ↦ (done, false)
  ]

  abbrev pub after_options :
      DatagramChannel → Bool → InetSockAddress → Bool → Bool → DatagramChannel × Option BindError
  after_options d false local binds registers = (d, some option_failed)
  after_options d true local binds registers =
      let cleared = record d { channel_options = [] } in
      let listened = record cleared {
        bound = if is_in_valid local then cleared.bound else some local;
        has_read_event = true;
      } in
      if is_in_valid local || binds
      then (listened, if registers then none else some register_failed)
      else (cleared, some bind_failed)

  -- An address without a family is not bound.
  unfoldable pub bind :
      DatagramChannel
      → InetSockAddress
      → Option ℕ
      → Bool
      → Bool
      → DatagramChannel × Option BindError
  unfolding set_options is_in_valid
  bind d local none binds registers = (d, some creation_failed)
  bind d local (some fd) binds registers =
      let (done, fits) = set_options d.options_set d.channel_options in
      after_options (record d { sock_fd = some fd; options_set = done }) fits local binds registers

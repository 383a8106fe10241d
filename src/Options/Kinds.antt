-- ===== src/Options/Kinds.antt =====
-- Which values an option takes, and which option of the kernel it sets.
use nets.Prelude.{ℕ, ◌≡◌, Bool, true, false, not, List, arith}
use nets.Prelude.Int.{pos}
use nets.Options.{
  SockOption, backlog, reuse_addr, reuse_port, keep_alive, keep_idle, keep_cnt, keep_intvl,
  tcp_no_delay, linger, broadcast, ip4_multicast_if, ip6_multicast_if, ip4_multicast_ttl,
  ip6_multicast_hops, ip4_multicast_loop, ip6_multicast_loop, send_buf, recv_buf, ValueType,
  bool_value, uint8_value, opt_value, linger_value, string_value, Level, sol_socket, ipproto_tcp,
  ipproto_ip, ipproto_ipv6, OptionData, int_data, byte_data, linger_data, in_addr_data, index_data,
  OptionName, so_reuseaddr, so_reuseport, so_keepalive, so_linger, so_broadcast, so_sndbuf,
  so_rcvbuf, tcp_keepidle, tcp_keepcnt, tcp_keepintvl, tcp_nodelay, ip_multicast_if,
  ip_multicast_ttl, ip_multicast_loop, ipv6_multicast_if, ipv6_multicast_hops, ipv6_multicast_loop,
  Outcome, invalid_argument, set_backlog, set_channel_option,
}

-- The types of the values, as nets/net/core/ChannelOption.h gives them for each option.
pub data Kind : Type 0 where
  a_bool a_uint8 an_int32 a_linger a_string : Kind

abbrev pub kind_of : SockOption → Kind
kind_of backlog = an_int32
kind_of reuse_addr = a_bool
kind_of reuse_port = a_bool
kind_of keep_alive = a_bool
kind_of keep_idle = an_int32
kind_of keep_cnt = an_int32
kind_of keep_intvl = an_int32
kind_of tcp_no_delay = a_bool
kind_of linger = a_linger
kind_of broadcast = a_bool
kind_of ip4_multicast_if = a_string
kind_of ip6_multicast_if = a_string
kind_of ip4_multicast_ttl = a_uint8
kind_of ip6_multicast_hops = a_uint8
kind_of ip4_multicast_loop = a_bool
kind_of ip6_multicast_loop = a_bool
kind_of send_buf = an_int32
kind_of recv_buf = an_int32

abbrev pub takes : SockOption → ValueType → Bool
takes o (bool_value _) = elim (kind_of o) [ a_bool ↦ true | _ ↦ false ]
takes o (uint8_value _) = elim (kind_of o) [ a_uint8 ↦ true | _ ↦ false ]
takes o (opt_value _) = elim (kind_of o) [ an_int32 ↦ true | _ ↦ false ]
takes o (linger_value _ _) = elim (kind_of o) [ a_linger ↦ true | _ ↦ false ]
takes o (string_value _) = elim (kind_of o) [ a_string ↦ true | _ ↦ false ]

abbrev pub throws_invalid : Outcome → Bool
throws_invalid invalid_argument = true
throws_invalid _ = false

-- The option of the kernel that the manuals name; `backlog` is none of them.
abbrev pub named : SockOption → OptionName → Bool
named backlog n = false
named reuse_addr n = elim n [ so_reuseaddr ↦ true | _ ↦ false ]
named reuse_port n = elim n [ so_reuseport ↦ true | _ ↦ false ]
named keep_alive n = elim n [ so_keepalive ↦ true | _ ↦ false ]
named keep_idle n = elim n [ tcp_keepidle ↦ true | _ ↦ false ]
named keep_cnt n = elim n [ tcp_keepcnt ↦ true | _ ↦ false ]
named keep_intvl n = elim n [ tcp_keepintvl ↦ true | _ ↦ false ]
named tcp_no_delay n = elim n [ tcp_nodelay ↦ true | _ ↦ false ]
named linger n = elim n [ so_linger ↦ true | _ ↦ false ]
named broadcast n = elim n [ so_broadcast ↦ true | _ ↦ false ]
named ip4_multicast_if n = elim n [ ip_multicast_if ↦ true | _ ↦ false ]
named ip6_multicast_if n = elim n [ ipv6_multicast_if ↦ true | _ ↦ false ]
named ip4_multicast_ttl n = elim n [ ip_multicast_ttl ↦ true | _ ↦ false ]
named ip6_multicast_hops n = elim n [ ipv6_multicast_hops ↦ true | _ ↦ false ]
named ip4_multicast_loop n = elim n [ ip_multicast_loop ↦ true | _ ↦ false ]
named ip6_multicast_loop n = elim n [ ipv6_multicast_loop ↦ true | _ ↦ false ]
named send_buf n = elim n [ so_sndbuf ↦ true | _ ↦ false ]
named recv_buf n = elim n [ so_rcvbuf ↦ true | _ ↦ false ]

-- The option that is set in place of `o`.
abbrev pub mistaken : SockOption → SockOption
mistaken ip4_multicast_ttl = ip4_multicast_if
mistaken o = o

-- The level that the manuals give for an option; `backlog` has none.
abbrev pub level_of : SockOption → Level
level_of keep_idle = ipproto_tcp
level_of keep_cnt = ipproto_tcp
level_of keep_intvl = ipproto_tcp
level_of tcp_no_delay = ipproto_tcp
level_of ip4_multicast_if = ipproto_ip
level_of ip4_multicast_ttl = ipproto_ip
level_of ip4_multicast_loop = ipproto_ip
level_of ip6_multicast_if = ipproto_ipv6
level_of ip6_multicast_hops = ipproto_ipv6
level_of ip6_multicast_loop = ipproto_ipv6
level_of _ = sol_socket

-- A truth value is 1 or 0 in an `int`, or in a byte for the loop of IPv4; an address is looked up by
-- `inet_pton`, and the name of an interface by `if_nametoindex`.
abbrev pub data_of : (List ℕ → ℕ) → (List ℕ → ℕ) → SockOption → ValueType → OptionData
data_of inet_pton if_nametoindex ip4_multicast_loop (bool_value true) = byte_data 1
data_of inet_pton if_nametoindex ip4_multicast_loop (bool_value false) = byte_data 0
data_of inet_pton if_nametoindex o (bool_value true) = int_data (pos 1)
data_of inet_pton if_nametoindex o (bool_value false) = int_data (pos 0)
data_of inet_pton if_nametoindex o (uint8_value n) = byte_data n
data_of inet_pton if_nametoindex o (opt_value n) = int_data n
data_of inet_pton if_nametoindex o (linger_value on seconds) = linger_data on seconds
data_of inet_pton if_nametoindex ip6_multicast_if (string_value s) = index_data (if_nametoindex s)
data_of inet_pton if_nametoindex o (string_value s) = in_addr_data (inet_pton s)

module _ (inet_pton if_nametoindex : List ℕ → ℕ) (is_server : Bool) where
  -- `setChannelOption` throws `invalid_argument` exactly for the values whose type is not the one
  -- that `ChannelOption.h` gives for the option.
  pub set_channel_option-typed :
      (o : SockOption) (value : ValueType)
      → throws_invalid (set_channel_option inet_pton if_nametoindex is_server o value)
        ≡ not (takes o value)
  unfolding set_channel_option set_backlog
  set_channel_option-typed backlog value = ground arith
  set_channel_option-typed reuse_addr value = ground arith
  set_channel_option-typed reuse_port value = ground arith
  set_channel_option-typed keep_alive value = ground arith
  set_channel_option-typed keep_idle value = ground arith
  set_channel_option-typed keep_cnt value = ground arith
  set_channel_option-typed keep_intvl value = ground arith
  set_channel_option-typed tcp_no_delay value = ground arith
  set_channel_option-typed linger value = ground arith
  set_channel_option-typed broadcast value = ground arith
  set_channel_option-typed ip4_multicast_if value = ground arith
  set_channel_option-typed ip6_multicast_if value = ground arith
  set_channel_option-typed ip4_multicast_ttl value = ground arith
  set_channel_option-typed ip6_multicast_hops value = ground arith
  set_channel_option-typed ip4_multicast_loop value = ground arith
  set_channel_option-typed ip6_multicast_loop value = ground arith
  set_channel_option-typed send_buf value = ground arith
  set_channel_option-typed recv_buf value = ground arith

-- ===== src/Options.antt =====
-- nets/net/channel/Channel.cpp (setChannelOption), nets/net/core/ChannelOption.h and the setters of
-- nets/net/core/Socket.cpp. What a setter does is its call of `setsockopt`, whose failure is only logged.
-- `inet_pton` and `if_nametoindex` are arguments.
pub mod Kinds
mod Tests
use nets.Prelude.{ℕ, ◌≡◌, refl, Bool, true, false, List, if◌then◌else◌}
use nets.Prelude.Int.{ℤ, pos}

pub data SockOption : Type 0 where
  backlog reuse_addr reuse_port keep_alive keep_idle keep_cnt : SockOption
  keep_intvl tcp_no_delay linger broadcast ip4_multicast_if ip6_multicast_if : SockOption
  ip4_multicast_ttl ip6_multicast_hops ip4_multicast_loop ip6_multicast_loop send_buf recv_buf :
      SockOption

-- `ChannelOption::ValueType`
pub data ValueType : Type 0 where
  bool_value : Bool → ValueType
  uint8_value : ℕ → ValueType
  opt_value : ℤ → ValueType
  linger_value : Bool → ℕ → ValueType
  string_value : List ℕ → ValueType

pub data Level : Type 0 where
  sol_socket ipproto_tcp ipproto_ip ipproto_ipv6 : Level

pub data OptionName : Type 0 where
  so_reuseaddr so_reuseport so_keepalive so_linger so_broadcast so_sndbuf so_rcvbuf : OptionName
  tcp_keepidle tcp_keepcnt tcp_keepintvl tcp_nodelay : OptionName
  ip_multicast_if ip_multicast_ttl ip_multicast_loop ipv6_multicast_if ipv6_multicast_hops
        ipv6_multicast_loop :
      OptionName

-- What the address that is given to `setsockopt` points to.
pub data OptionData : Type 0 where
  int_data : ℤ → OptionData
  byte_data : ℕ → OptionData
  linger_data : Bool → ℕ → OptionData
  in_addr_data index_data : ℕ → OptionData

pub record SetSockOpt : Type 0 where
  pub level : Level
  pub name : OptionName
  pub value : OptionData

abbrev opt_of : Bool → ℤ
opt_of enable = if enable then pos 1 else pos 0

abbrev byte_of : Bool → ℕ
byte_of enable = if enable then 1 else 0

unfoldable pub set_sock_reuse_addr : Bool → SetSockOpt
set_sock_reuse_addr enable = record {
  level = sol_socket;
  name = so_reuseaddr;
  value = int_data (opt_of enable);
}

unfoldable pub set_sock_reuse_port : Bool → SetSockOpt
set_sock_reuse_port enable = record {
  level = sol_socket;
  name = so_reuseport;
  value = int_data (opt_of enable);
}

unfoldable pub set_sock_keep_alive : Bool → SetSockOpt
set_sock_keep_alive enable = record {
  level = sol_socket;
  name = so_keepalive;
  value = int_data (opt_of enable);
}

unfoldable pub set_sock_keep_idle : ℤ → SetSockOpt
set_sock_keep_idle n = record { level = ipproto_tcp; name = tcp_keepidle; value = int_data n }

unfoldable pub set_sock_keep_cnt : ℤ → SetSockOpt
set_sock_keep_cnt n = record { level = ipproto_tcp; name = tcp_keepcnt; value = int_data n }

unfoldable pub set_sock_keep_intvl : ℤ → SetSockOpt
set_sock_keep_intvl n = record { level = ipproto_tcp; name = tcp_keepintvl; value = int_data n }

unfoldable pub set_tcp_no_delay : Bool → SetSockOpt
set_tcp_no_delay enable = record {
  level = ipproto_tcp;
  name = tcp_nodelay;
  value = int_data (opt_of enable);
}

unfoldable pub set_sock_linger : Bool → ℕ → SetSockOpt
set_sock_linger on seconds = record {
  level = sol_socket;
  name = so_linger;
  value = linger_data on seconds;
}

unfoldable pub set_sock_broadcast : Bool → SetSockOpt
set_sock_broadcast enable = record {
  level = sol_socket;
  name = so_broadcast;
  value = int_data (opt_of enable);
}

unfoldable pub set_ip_multicast_if : (List ℕ → ℕ) → List ℕ → SetSockOpt
set_ip_multicast_if inet_pton s = record {
  level = ipproto_ip;
  name = ip_multicast_if;
  value = in_addr_data (inet_pton s);
}

unfoldable pub set_ipv6_multicast_if : (List ℕ → ℕ) → List ℕ → SetSockOpt
set_ipv6_multicast_if if_nametoindex s = record {
  level = ipproto_ipv6;
  name = ipv6_multicast_if;
  value = index_data (if_nametoindex s);
}

unfoldable pub set_ip_multicast_ttl : ℕ → SetSockOpt
set_ip_multicast_ttl n = record { level = ipproto_ip; name = ip_multicast_if; value = byte_data n }

unfoldable pub set_ipv6_multicast_hops : ℕ → SetSockOpt
set_ipv6_multicast_hops n = record {
  level = ipproto_ipv6;
  name = ipv6_multicast_hops;
  value = byte_data n;
}

unfoldable pub set_ip_multicast_loop : Bool → SetSockOpt
set_ip_multicast_loop enable = record {
  level = ipproto_ip;
  name = ip_multicast_loop;
  value = byte_data (byte_of enable);
}

unfoldable pub set_ipv6_multicast_loop : Bool → SetSockOpt
set_ipv6_multicast_loop enable = record {
  level = ipproto_ipv6;
  name = ipv6_multicast_loop;
  value = int_data (opt_of enable);
}

unfoldable pub set_sock_send_buf : ℤ → SetSockOpt
set_sock_send_buf n = record { level = sol_socket; name = so_sndbuf; value = int_data n }

unfoldable pub set_sock_recv_buf : ℤ → SetSockOpt
set_sock_recv_buf n = record { level = sol_socket; name = so_rcvbuf; value = int_data n }

-- How `setChannelOption` ends.
pub data Outcome : Type 0 where
  sets : SetSockOpt → Outcome
  sets_backlog : ℤ → Outcome
  invalid_argument : Outcome
  unsupported : Outcome

-- The ways that an outcome is given, to split on.
pub data IsOutcome (o : Outcome) : Type 0 where
  is_set : (c : SetSockOpt) → o ≡ sets c → IsOutcome o
  is_backlog : (n : ℤ) → o ≡ sets_backlog n → IsOutcome o
  is_invalid : o ≡ invalid_argument → IsOutcome o
  is_unsupported : o ≡ unsupported → IsOutcome o

pub Outcome-cases : (o : Outcome) → IsOutcome o
Outcome-cases (sets c) = is_set c refl
Outcome-cases (sets_backlog n) = is_backlog n refl
Outcome-cases invalid_argument = is_invalid refl
Outcome-cases unsupported = is_unsupported refl

-- `Channel::setBacklog` throws `runtime_error`; only a ServerSocketChannel overrides it.
unfoldable pub set_backlog : Bool → ℤ → Outcome
set_backlog is_server n = if is_server then sets_backlog n else unsupported

-- `std::get`, with the `bad_variant_access` that is caught.
abbrev pub get_bool : ValueType → (Bool → Outcome) → Outcome
get_bool (bool_value b) f = f b
get_bool _ f = invalid_argument

abbrev pub get_uint8 : ValueType → (ℕ → Outcome) → Outcome
get_uint8 (uint8_value n) f = f n
get_uint8 _ f = invalid_argument

abbrev pub get_opt : ValueType → (ℤ → Outcome) → Outcome
get_opt (opt_value n) f = f n
get_opt _ f = invalid_argument

abbrev pub get_linger : ValueType → (Bool → ℕ → Outcome) → Outcome
get_linger (linger_value on seconds) f = f on seconds
get_linger _ f = invalid_argument

abbrev pub get_string : ValueType → (List ℕ → Outcome) → Outcome
get_string (string_value s) f = f s
get_string _ f = invalid_argument

module _ (inet_pton if_nametoindex : List ℕ → ℕ) (is_server : Bool) where
  unfoldable pub set_channel_option : SockOption → ValueType → Outcome
  unfolding set_backlog set_sock_reuse_addr set_sock_reuse_port set_sock_keep_alive
      set_sock_keep_idle set_sock_keep_cnt set_sock_keep_intvl set_tcp_no_delay set_sock_linger
      set_sock_broadcast set_ip_multicast_if set_ipv6_multicast_if set_ip_multicast_ttl
      set_ipv6_multicast_hops set_ip_multicast_loop set_ipv6_multicast_loop set_sock_send_buf
      set_sock_recv_buf
  set_channel_option backlog value = get_opt value (set_backlog is_server)
  set_channel_option reuse_addr value = get_bool value (λ x. sets (set_sock_reuse_addr x))
  set_channel_option reuse_port value = get_bool value (λ x. sets (set_sock_reuse_port x))
  set_channel_option keep_alive value = get_bool value (λ x. sets (set_sock_keep_alive x))
  set_channel_option keep_idle value = get_opt value (λ x. sets (set_sock_keep_idle x))
  set_channel_option keep_cnt value = get_opt value (λ x. sets (set_sock_keep_cnt x))
  set_channel_option keep_intvl value = get_opt value (λ x. sets (set_sock_keep_intvl x))
  set_channel_option tcp_no_delay value = get_bool value (λ x. sets (set_tcp_no_delay x))
  set_channel_option linger value =
      get_linger value (λ on seconds. sets (set_sock_linger on seconds))
  set_channel_option broadcast value = get_bool value (λ x. sets (set_sock_broadcast x))
  set_channel_option ip4_multicast_if value =
      get_string value (λ s. sets (set_ip_multicast_if inet_pton s))
  set_channel_option ip6_multicast_if value =
      get_string value (λ s. sets (set_ipv6_multicast_if if_nametoindex s))
  set_channel_option ip4_multicast_ttl value = get_uint8 value (λ x. sets (set_ip_multicast_ttl x))
  set_channel_option ip6_multicast_hops value =
      get_uint8 value (λ x. sets (set_ipv6_multicast_hops x))
  set_channel_option ip4_multicast_loop value = get_bool value (λ x. sets (set_ip_multicast_loop x))
  set_channel_option ip6_multicast_loop value =
      get_bool value (λ x. sets (set_ipv6_multicast_loop x))
  set_channel_option send_buf value = get_opt value (λ x. sets (set_sock_send_buf x))
  set_channel_option recv_buf value = get_opt value (λ x. sets (set_sock_recv_buf x))

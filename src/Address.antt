-- ===== src/Address.antt =====
-- nets/net/core/InetSockAddress.h and InetSockAddress.cpp. The object is a union of a sockaddr_in of 16 bytes
-- and a sockaddr_in6 of 28, both of which start with the family and the port, two bytes in network
-- order; `rest` are the 24 bytes behind these. `inet_pton` and `inet_ntop` are arguments.
pub mod Copies
pub mod Ports
mod Tests
use nets.Prelude.{
  ℕ, ◌+◌, ◌*◌, ◌/◌, ◌%◌, Bool, true, false, Option, none, some, List, [], ◌∷◌, ◌++◌, ◌==◌,
  if◌then◌else◌, replicate, take, drop,
}

abbrev pub af_unspec : ℕ
af_unspec = 0

abbrev pub af_inet : ℕ
af_inet = 2

abbrev pub af_inet6 : ℕ
af_inet6 = 10

pub record Port : Type 0 where
  pub high : ℕ
  pub low : ℕ

pub record InetSockAddress : Type 0 where
  pub family : ℕ
  pub port_bytes : Port
  pub rest : List ℕ

pub record SockAddr4 : Type 0 where
  pub sin_family : ℕ
  pub sin_port : Port
  pub sin_addr : List ℕ
  pub sin_zero : List ℕ

pub record SockAddr6 : Type 0 where
  pub sin6_family : ℕ
  pub sin6_port : Port
  pub sin6_flowinfo : List ℕ
  pub sin6_addr : List ℕ
  pub sin6_scope_id : List ℕ

-- `htobe16` and `be16toh`, as the bytes in memory
abbrev pub to_network : ℕ → Port
to_network port = record { high = port / 256; low = port % 256 }

abbrev pub to_host : Port → ℕ
to_host p = p.high * 256 + p.low

-- `MEMZERO` of the union
abbrev pub zeroed : InetSockAddress
zeroed = record {
  family = af_unspec;
  port_bytes = record { high = 0; low = 0 };
  rest = replicate 24 0;
}

-- The two assignments into the union.
unfoldable pub assign4 : InetSockAddress → SockAddr4 → InetSockAddress
assign4 a x = record {
  family = x.sin_family;
  port_bytes = x.sin_port;
  rest = x.sin_addr ++ (x.sin_zero ++ drop 12 a.rest);
}

unfoldable pub assign6 : InetSockAddress → SockAddr6 → InetSockAddress
assign6 a x = record {
  family = x.sin6_family;
  port_bytes = x.sin6_port;
  rest = x.sin6_flowinfo ++ (x.sin6_addr ++ x.sin6_scope_id);
}

-- The first 16 bytes of the other go over this one, or all of them.
unfoldable pub copy_family : InetSockAddress → InetSockAddress → InetSockAddress
copy_family a other =
    if other.family == af_inet6
    then other
    else if other.family == af_inet
    then record other { rest = take 12 other.rest ++ drop 12 a.rest }
    else a

unfoldable pub copy_construct : InetSockAddress → InetSockAddress
unfolding copy_family
copy_construct other = copy_family zeroed other

-- With what is left of the other.
unfoldable pub move_construct : InetSockAddress → InetSockAddress × InetSockAddress
unfolding copy_family
move_construct other = (copy_family zeroed other, zeroed)

-- `same` tells that both are one object.
unfoldable pub copy_assign : InetSockAddress → InetSockAddress → Bool → InetSockAddress
unfolding copy_family
copy_assign a other same = if same then a else copy_family zeroed other

unfoldable pub move_assign :
    InetSockAddress → InetSockAddress → Bool → InetSockAddress × InetSockAddress
unfolding copy_family
move_assign a other same = if same then (a, other) else (copy_family zeroed other, zeroed)

-- What `inet_pton` does: it writes the bytes of the address, returns 0 for a string that is none,
-- and -1 for a family that it does not know.
pub data Pton : Type 0 where
  parsed : List ℕ → Pton
  not_parsed : Pton
  unknown_family : Pton

abbrev pub written_to : List ℕ → Pton → Option (List ℕ)
written_to old (parsed bytes) = some bytes
written_to old not_parsed = some old
written_to old unknown_family = none

unfoldable pub create_any_sock_address : ℕ → Bool → InetSockAddress
unfolding assign4 assign6
create_any_sock_address port ipv6 =
    if ipv6
    then assign6 zeroed (record {
      sin6_family = af_inet6;
      sin6_port = to_network port;
      sin6_flowinfo = replicate 4 0;
      sin6_addr = replicate 16 0;
      sin6_scope_id = replicate 4 0;
    })
    else assign4 zeroed (record {
      sin_family = af_inet;
      sin_port = to_network port;
      sin_addr = replicate 4 0;
      sin_zero = replicate 8 0;
    })

unfoldable pub create_loop_back_sock_address : ℕ → Bool → InetSockAddress
unfolding assign4 assign6
create_loop_back_sock_address port ipv6 =
    if ipv6
    then assign6 zeroed (record {
      sin6_family = af_inet6;
      sin6_port = to_network port;
      sin6_flowinfo = replicate 4 0;
      sin6_addr = replicate 15 0 ++ (1 ∷ []);
      sin6_scope_id = replicate 4 0;
    })
    else assign4 zeroed (record {
      sin_family = af_inet;
      sin_port = to_network port;
      sin_addr = 127 ∷ 0 ∷ 0 ∷ 1 ∷ [];
      sin_zero = replicate 8 0;
    })

abbrev pub of_bytes : ℕ → ℕ → List ℕ → List ℕ → Option (List ℕ) → Option InetSockAddress
of_bytes family port before behind none = none
of_bytes family port before behind (some bytes) =
    some
      (record { family = family; port_bytes = to_network port; rest = before ++ (bytes ++ behind) })

module _ (inet_pton inet_pton6 : List ℕ → Pton) where
  -- It is none where it throws.
  unfoldable pub of_ip : List ℕ → ℕ → Bool → Option InetSockAddress
  of_ip ip port ipv6 =
      if ipv6
      then of_bytes af_inet6 port (replicate 4 0) (replicate 4 0)
          (written_to (replicate 16 0) (inet_pton6 ip))
      else of_bytes af_inet port [] (replicate 20 0) (written_to (replicate 4 0) (inet_pton ip))

unfoldable pub port : InetSockAddress → ℕ
port a = to_host a.port_bytes

unfoldable pub is_in_valid : InetSockAddress → Bool
is_in_valid a = a.family == af_unspec

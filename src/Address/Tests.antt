-- ===== src/Address/Tests.antt =====
-- A few addresses, by evaluation.
use nets.Prelude.{
  ℕ, ◌≡◌, refl, false, some, List, [], ◌∷◌, arith, replicate, length, ◌==◌, if◌then◌else◌,
}
use nets.Address.{InetSockAddress, Pton, parsed, not_parsed, of_ip, af_inet, to_network}
use nets.Address.Ports.{HasPort, Parses, of_ip-HasPort}

-- It takes a string of one character for an address.
abbrev pton : List ℕ → Pton
pton s = if length s == 1 then parsed (1 ∷ 0 ∷ 0 ∷ 0 ∷ []) else not_parsed

abbrev pton6 : List ℕ → Pton
pton6 _ = not_parsed

abbrev one : InetSockAddress
one = record { family = af_inet; port_bytes = to_network 8080; rest = 1 ∷ replicate 23 0 }

of_one : of_ip pton pton6 (49 ∷ []) 8080 false ≡ some one
unfolding of_ip
of_one = refl

pton-Parses : Parses 4 pton
pton-Parses s bytes e = ground (arith, e)

pton6-Parses : Parses 16 pton6
pton6-Parses s bytes e = ground (arith, e)

of_ip-HasPort_example : HasPort 8080 one
of_ip-HasPort_example =
    of_ip-HasPort pton pton6 (49 ∷ []) 8080 false one pton-Parses pton6-Parses (omega arith) of_one

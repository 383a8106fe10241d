-- ===== src/Address/Ports.antt =====
-- Addresses from strings: their port, and strings that are no address.
use nets.Prelude.{
  ℕ, ◌≡◌, ◌<◌, ◌^◌, ◌+◌, ◌*◌, ◌/◌, ◌%◌, ◌∷◌, subst, refl, ap, sym, Bool, true, false, some, List,
  ◌++◌, [], arith, length, length-append, append_assoc, replicate, if◌then◌else◌,
}
use nets.Address.{
  InetSockAddress, Pton, parsed, not_parsed, unknown_family, create_any_sock_address,
  create_loop_back_sock_address, of_ip, of_bytes, written_to, af_inet, af_inet6, port, is_in_valid,
  assign4, assign6, to_network,
}
use nets.Address.Copies.{IsMade, is_ipv4, is_ipv6}

-- An address with that port.
abbrev pub HasPort : ℕ → InetSockAddress → Type 0
HasPort n a = (port a ≡ n) × (is_in_valid a ≡ false) × IsMade a

-- An address of a known family has that many bytes, as the manual of `inet_pton` says.
abbrev pub Parses : ℕ → (List ℕ → Pton) → Type 0
Parses size pton = (s bytes : List ℕ) → pton s ≡ parsed bytes → length bytes ≡ size

some_inj : {a b : InetSockAddress} → some a ≡ some b → a ≡ b
some_inj e = cc

of_parts : (n : ℕ) → n < 2 ^ 16 → (n / 256) * 256 + n % 256 ≡ n
of_parts n h = omega arith

-- The addresses of any host and of this one have the port that they are given.
create-HasPort :
    (n : ℕ) (ipv6 : Bool)
    → n < 2 ^ 16
    → HasPort n (create_any_sock_address n ipv6) × HasPort n (create_loop_back_sock_address n ipv6)
unfolding create_any_sock_address create_loop_back_sock_address assign4 assign6 port is_in_valid
create-HasPort n true h = (
  (of_parts n h, refl, is_ipv6 (to_network n) _ refl refl),
  (of_parts n h, refl, is_ipv6 (to_network n) _ refl refl),
)
create-HasPort n false h = (
  (of_parts n h, refl, is_ipv4 (to_network n) (replicate 12 0) refl refl),
  (of_parts n h, refl, is_ipv4 (to_network n) (127 ∷ 0 ∷ 0 ∷ 1 ∷ replicate 8 0) refl refl),
)

of_bytes4-HasPort :
    (n : ℕ) (r : Pton) (a : InetSockAddress)
    → n < 2 ^ 16
    → ((bytes : List ℕ) → r ≡ parsed bytes → length bytes ≡ 4)
    → of_bytes af_inet n [] (replicate 20 0) (written_to (replicate 4 0) r) ≡ some a
    → HasPort n a
unfolding port is_in_valid
of_bytes4-HasPort n (parsed bytes) a h size e = subst (HasPort n) (some_inj e) (
  of_parts n h,
  refl,
  is_ipv4 (to_network n) (bytes ++ replicate 8 0)
      (omega (arith, size bytes refl, length-append bytes (replicate 8 0)))
      (ap (λ r. record { family = af_inet; port_bytes = to_network n; rest = r })
        (sym (append_assoc bytes (replicate 8 0) (replicate 12 0)))),
)
of_bytes4-HasPort n not_parsed a h size e =
    subst (HasPort n) (some_inj e)
      (of_parts n h, refl, is_ipv4 (to_network n) (replicate 12 0) refl refl)
of_bytes4-HasPort n unknown_family a h size e = ground (arith, e)

of_bytes6-HasPort :
    (n : ℕ) (r : Pton) (a : InetSockAddress)
    → n < 2 ^ 16
    → ((bytes : List ℕ) → r ≡ parsed bytes → length bytes ≡ 16)
    → of_bytes af_inet6 n (replicate 4 0) (replicate 4 0) (written_to (replicate 16 0) r) ≡ some a
    → HasPort n a
unfolding port is_in_valid
of_bytes6-HasPort n (parsed bytes) a h size e = subst (HasPort n) (some_inj e) (
  of_parts n h,
  refl,
  is_ipv6 (to_network n) (replicate 4 0 ++ (bytes ++ replicate 4 0))
      (omega (arith, size bytes refl, length-append bytes (replicate 4 0))) refl,
)
of_bytes6-HasPort n not_parsed a h size e =
    subst (HasPort n) (some_inj e)
      (of_parts n h, refl, is_ipv6 (to_network n) (replicate 24 0) refl refl)
of_bytes6-HasPort n unknown_family a h size e = ground (arith, e)

module _ (inet_pton inet_pton6 : List ℕ → Pton) where
  -- With an `inet_pton` that writes 4 or 16 bytes, an address that the constructor makes of a string
  -- and a port below 2 ^ 16 gives that port back, is not invalid, and is one of those that copies
  -- keep.
  pub of_ip-HasPort :
      (ip : List ℕ) (n : ℕ) (ipv6 : Bool) (a : InetSockAddress)
      → Parses 4 inet_pton
      → Parses 16 inet_pton6
      → n < 2 ^ 16
      → of_ip inet_pton inet_pton6 ip n ipv6 ≡ some a
      → HasPort n a
  unfolding of_ip
  of_ip-HasPort ip n true a h4 h6 h e = of_bytes6-HasPort n (inet_pton6 ip) a h (h6 ip) e
  of_ip-HasPort ip n false a h4 h6 h e = of_bytes4-HasPort n (inet_pton ip) a h (h4 ip) e

  -- For a string that is no address, for which `inet_pton` returns 0, the constructor does not
  -- throw: it makes the address of any host, with the port.
  of_ip-unparsed :
      (ip : List ℕ) (n : ℕ) (ipv6 : Bool)
      → (if ipv6 then inet_pton6 ip else inet_pton ip) ≡ not_parsed
      → of_ip inet_pton inet_pton6 ip n ipv6 ≡ some (create_any_sock_address n ipv6)
  unfolding of_ip create_any_sock_address assign4 assign6
  of_ip-unparsed ip n true e = rw e refl
  of_ip-unparsed ip n false e = rw e refl

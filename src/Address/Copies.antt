-- ===== src/Address/Copies.antt =====
-- Copies and moves keep an address.
use nets.Prelude.{
  ℕ, ◌≡◌, refl, ap, ◌∙◌, false, List, ◌++◌, arith, length, replicate, take-append_of_le, take_all,
}
use nets.Address.{
  InetSockAddress, Port, af_inet, af_inet6, zeroed, copy_family, copy_construct, move_construct,
  copy_assign, move_assign,
}

-- The addresses that there are: without a family, and of either family, whose first bytes count.
pub data IsMade (a : InetSockAddress) : Type 0 where
  is_blank : a ≡ zeroed → IsMade a
  is_ipv4 :
      (p : Port) (bytes : List ℕ)
      → length bytes ≡ 12
      → a ≡ record { family = af_inet; port_bytes = p; rest = bytes ++ replicate 12 0 }
      → IsMade a
  is_ipv6 :
      (p : Port) (bytes : List ℕ)
      → length bytes ≡ 24
      → a ≡ record { family = af_inet6; port_bytes = p; rest = bytes }
      → IsMade a

copy_family-IsMade : (a : InetSockAddress) → IsMade a → copy_family zeroed a ≡ a
unfolding copy_family
copy_family-IsMade a (is_blank e) = rw e refl
copy_family-IsMade a (is_ipv4 p bytes l e) = rw e (
    ap (λ r. record { family = af_inet; port_bytes = p; rest = r ++ replicate 12 0 })
      (take-append_of_le 12 bytes (replicate 12 0) (omega arith) ∙ take_all 12 bytes (omega arith)))
copy_family-IsMade a (is_ipv6 p bytes l e) = rw e refl

-- Copies and moves, by constructor and by assignment to another object, give an address that is the
-- original in all 28 bytes, if that has no family, or is one over IPv4 with zeros behind its 16
-- bytes, or one over IPv6; a move leaves the original without a family.
pub copies-IsMade :
    (a other : InetSockAddress)
    → IsMade other
    → (copy_construct other ≡ other)
      × (move_construct other ≡ (other, zeroed))
      × (copy_assign a other false ≡ other)
      × (move_assign a other false ≡ (other, zeroed))
unfolding copy_construct move_construct copy_assign move_assign
copies-IsMade a other h =
    let e = copy_family-IsMade other h in (e, ap (λ x. (x, zeroed)) e, e, ap (λ x. (x, zeroed)) e)

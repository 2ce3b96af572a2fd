-- ===== src/Addr/Laws.antt =====
-- Equality of addresses, and the equivalence that client binding uses.
use jaws.Base.{true, ◌≡◌, arith}
use jaws.Addr.{Addr, addr_eq, unmap, equal_ip}

pub addr_eq→eq : (a b : Addr) → addr_eq a b ≡ true → a ≡ b
unfolding addr_eq
addr_eq→eq a b h = ground arith

pub addr_eq_refl : (a : Addr) → addr_eq a a ≡ true
unfolding addr_eq
addr_eq_refl a = ground arith

pub addr_eq_sym : (a b : Addr) → addr_eq a b ≡ addr_eq b a
unfolding addr_eq
addr_eq_sym a b = ground arith

pub equal_ip_refl : (a : Addr) → equal_ip a a ≡ true
unfolding equal_ip
equal_ip_refl a = ground (arith, addr_eq_refl (unmap a))

-- ===== src/Addr.antt =====
-- clientip.go: equalIP, over the addresses of net/netip.
pub mod Laws
use jaws.Base.{ℕ, ◌+◌, ◌/◌, ◌%◌, ◌^◌, Bool, true, false, ◌&&◌, ◌||◌, ◌==◌, if◌then◌else◌}

-- netip.Addr: the zero Addr, 32-bit and 128-bit addresses, the latter with a zone (0 is none).
pub data Addr : Type 0 where
  unset : Addr
  v4 : ℕ → Addr
  v6 : ℕ → ℕ → Addr

-- Addr.Compare(b) == 0.
unfoldable pub addr_eq : Addr → Addr → Bool
addr_eq unset unset = true
addr_eq (v4 a) (v4 b) = a == b
addr_eq (v6 a z) (v6 b y) = (a == b) && (z == y)
addr_eq _ _ = false

-- Addr.Unmap: ::ffff:a.b.c.d is a.b.c.d.
unfoldable pub unmap : Addr → Addr
unmap unset = unset
unmap (v4 a) = v4 a
unmap (v6 a z) = if a / 2 ^ 32 == 0xffff then v4 (a % 2 ^ 32) else v6 a z

-- Addr.IsLoopback: 127.0.0.0/8 and ::1.
unfoldable pub is_loopback : Addr → Bool
is_loopback unset = false
is_loopback (v4 a) = a / 2 ^ 24 == 127
is_loopback (v6 a z) = a == 1

unfoldable pub equal_ip : Addr → Addr → Bool
unfolding addr_eq unmap is_loopback
equal_ip a b = addr_eq (unmap a) (unmap b) || (is_loopback (unmap a) && is_loopback (unmap b))

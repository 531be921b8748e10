-- ===== src/Wire/Addresses.antt =====
-- `==` on addresses.
use playit_agent.Common.{◌≡◌, Bool, true, false, ◌&&◌, ◌==◌, arith}
use playit_agent.Wire.{SocketAddr}

unfoldable pub eq_addr : SocketAddr → SocketAddr → Bool
eq_addr (SocketAddr.v4 a) (SocketAddr.v4 b) = a.ip == b.ip && a.port == b.port
eq_addr (SocketAddr.v4 a) (SocketAddr.v6 b) = false
eq_addr (SocketAddr.v6 a) (SocketAddr.v4 b) = false
eq_addr (SocketAddr.v6 a) (SocketAddr.v6 b) =
    a.ip == b.ip && (a.port == b.port && (a.flowinfo == b.flowinfo && a.scope_id == b.scope_id))

pub eq_addr_refl : (a : SocketAddr) → eq_addr a a ≡ true
unfolding eq_addr
eq_addr_refl (SocketAddr.v4 a) = ground arith
eq_addr_refl (SocketAddr.v6 a) = ground arith

pub eq_addr_sound : (a b : SocketAddr) → eq_addr a b ≡ true → a ≡ b
unfolding eq_addr
eq_addr_sound (SocketAddr.v4 a) (SocketAddr.v4 b) h = ground arith
eq_addr_sound (SocketAddr.v4 a) (SocketAddr.v6 b) h = cc h
eq_addr_sound (SocketAddr.v6 a) (SocketAddr.v4 b) h = cc h
eq_addr_sound (SocketAddr.v6 a) (SocketAddr.v6 b) h = ground arith

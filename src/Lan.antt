-- ===== src/Lan.antt =====
-- packages/agent_core/src/network/lan_address.rs and packages/agent_core/src/utils/shuffle.rs: the local
-- address that the traffic of a client comes from, the same for the same client. Whether the operating
-- system lets a socket be bound or connected is a parameter. Masks and shifts are written with
-- division and remainder.
pub mod Range
use Prim.Native.Nat.{bit_xor}
use playit_agent.Common.{
  ℕ, ◌+◌, ◌-◌, ◌*◌, ◌/◌, ◌%◌, ◌^◌, Bool, true, false, ◌&&◌, Option, none, some, ltb, leb, ◌==◌,
  if◌then◌else◌,
}
use playit_agent.Wire.{IpAddr, SocketAddr}

-- `((v >> 16) ^ v).overflowing_mul(0x45d9f3).0`
abbrev mix : ℕ → ℕ
mix v = bit_xor (v / 2 ^ 16) v * 0x45d9f3 % 2 ^ 32

unfoldable pub shuffle : ℕ → ℕ
shuffle v = let mixed = mix (mix v) in bit_xor (mixed / 2 ^ 16) mixed

unfoldable pub shuffle_ip_to_u32 : IpAddr → ℕ
shuffle_ip_to_u32 (IpAddr.v4 ip) = ip
shuffle_ip_to_u32 (IpAddr.v6 ip) =
    bit_xor
      (bit_xor (bit_xor (shuffle (ip / 2 ^ 96 % 2 ^ 32)) (shuffle (ip / 2 ^ 64 % 2 ^ 32)))
        (shuffle (ip / 2 ^ 32 % 2 ^ 32)))
      (shuffle (ip % 2 ^ 32))

-- `| 0x7F000000` on a number of 24 bits.
unfoldable pub as_local_masked : ℕ → ℕ
as_local_masked ip =
    let masked = shuffle ip % 2 ^ 24 in (if masked == 0 then 1 else masked) + 0x7F000000

unfoldable pub map_to_local_ip4 : IpAddr → ℕ
map_to_local_ip4 ip = as_local_masked (shuffle_ip_to_u32 ip)

abbrev pub addr_ip : SocketAddr → IpAddr
addr_ip (SocketAddr.v4 a) = IpAddr.v4 a.ip
addr_ip (SocketAddr.v6 a) = IpAddr.v6 a.ip

abbrev pub addr_port : SocketAddr → ℕ
addr_port (SocketAddr.v4 a) = a.port
addr_port (SocketAddr.v6 a) = a.port

-- The port that a client's socket is bound to at first.
unfoldable pub local_port : SocketAddr → ℕ → ℕ
unfolding shuffle shuffle_ip_to_u32
local_port peer tunnel_id =
    2_048
    + bit_xor
        (bit_xor (bit_xor (shuffle (addr_port peer)) (shuffle (tunnel_id / 2 ^ 32 % 2 ^ 32)))
          (shuffle (tunnel_id % 2 ^ 32)))
        (shuffle_ip_to_u32 (addr_ip peer))
      % (65_535 - 2_048)

abbrev pub v4_addr : ℕ → ℕ → SocketAddr
v4_addr ip p = SocketAddr.v4 (record { ip = ip; port = p })

-- The unspecified address of the target's kind.
abbrev pub unspecified : SocketAddr → ℕ → SocketAddr
unspecified (SocketAddr.v4 a) p = v4_addr 0 p
unspecified (SocketAddr.v6 a) p =
    SocketAddr.v6 (record { ip = 0; port = p; flowinfo = 0; scope_id = 0 })

-- `ip().is_loopback()`: 127.0.0.0/8 and ::1.
abbrev pub is_loopback : SocketAddr → Bool
is_loopback (SocketAddr.v4 a) = leb 0x7F000000 a.ip && ltb a.ip 0x80000000
is_loopback (SocketAddr.v6 a) = a.ip == 1

module _ (binds : SocketAddr → Bool) where
  abbrev try_bind : SocketAddr → Option SocketAddr → Option SocketAddr
  try_bind addr other = if binds addr then some addr else other

  -- The address that the socket is bound to, if one could be bound.
  unfoldable pub udp_socket : Bool → SocketAddr → SocketAddr → ℕ → Option SocketAddr
  unfolding local_port map_to_local_ip4
  udp_socket special_lan_ip peer target tunnel_id =
      if special_lan_ip
      then try_bind (v4_addr (map_to_local_ip4 (addr_ip peer)) (local_port peer tunnel_id))
          (try_bind (v4_addr (map_to_local_ip4 (addr_ip peer)) 0) (try_bind (v4_addr 0 0) none))
      else try_bind (unspecified target (local_port peer tunnel_id))
          (try_bind (unspecified target 0) none)

  -- The local address of the connection, `none` for one that the system chooses; connecting may fail
  -- as well. `opens` says whether the system gives a socket to bind.
  unfoldable pub tcp_socket :
      Bool
      → (Option SocketAddr → Bool)
      → Bool
      → SocketAddr
      → SocketAddr
      → Option (Option SocketAddr)
  unfolding map_to_local_ip4
  tcp_socket opens connects special_lan_ip peer host =
      let local_addr = v4_addr (map_to_local_ip4 (addr_ip peer)) 0 in
      let plain = if connects none then some none else none in
      if is_loopback host && special_lan_ip
      then if opens
        then if binds local_addr && connects (some local_addr)
          then some (some local_addr)
          else plain
        else none
      else plain

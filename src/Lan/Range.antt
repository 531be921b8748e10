-- ===== src/Lan/Range.antt =====
-- The addresses and ports that a client's sockets may have.
use playit_agent.Common.{
  ℕ, ◌+◌, ◌-◌, ◌%◌, ◌^◌, ◌≤◌, ◌<◌, ◌≡◌, refl, sym, ◌⊎◌, inl, inr, Bool-cases, Bool, true, false,
  none, some, none_some, some_injective, split_test, ◌==◌, if◌then◌else◌, arith,
}
use playit_agent.Wire.{IpAddr, SocketAddr}
use playit_agent.Lan.{
  shuffle, shuffle_ip_to_u32, as_local_masked, map_to_local_ip4, addr_ip, local_port, v4_addr,
  unspecified, udp_socket,
}

-- An address of 127.0.0.0/8 but its first.
abbrev pub Loopback : ℕ → Type 0
Loopback ip = (0x7F000000 < ip) × (ip < 0x80000000)

-- No port in particular, or one above the system's.
abbrev pub LocalPort : ℕ → Type 0
LocalPort p = (p ≡ 0) ⊎ ((2_048 ≤ p) × (p < 65_535))

masked-Loopback : (n : ℕ) → Loopback ((if n % 2 ^ 24 == 0 then 1 else n % 2 ^ 24) + 0x7F000000)
masked-Loopback n = elim (Bool-cases (n % 2 ^ 24 == 0)) [
  | inl none_left ↦ rw none_left (omega arith, omega arith)
  | inr some_left ↦
      let positive : 0 < n % 2 ^ 24 = ground arith in
      rw some_left (omega (arith, positive), omega arith)
]

map_to_local_ip4-Loopback : (ip : IpAddr) → Loopback (map_to_local_ip4 ip)
unfolding map_to_local_ip4 as_local_masked
map_to_local_ip4-Loopback ip = masked-Loopback (shuffle (shuffle_ip_to_u32 ip))

in_range-LocalPort : (n : ℕ) → LocalPort (2_048 + n % (65_535 - 2_048))
in_range-LocalPort n = inr (omega arith, omega arith)

local_port-LocalPort : (peer : SocketAddr) (tunnel_id : ℕ) → LocalPort (local_port peer tunnel_id)
unfolding local_port
local_port-LocalPort peer tunnel_id = in_range-LocalPort _

-- Where the socket of a UDP client is bound, if it is at all. With the special address it is one of
-- 127.0.0.0/8 but the first, or the system chooses; without, the unspecified address of the target's
-- kind. The port is left to the system or lies from 2048 to 65534.
abbrev pub BoundAt : Bool → SocketAddr → SocketAddr → Type 0
BoundAt true target addr =
    ((ip : ℕ) × (p : ℕ) × (addr ≡ v4_addr ip p) × Loopback ip × LocalPort p) ⊎ (addr ≡ v4_addr 0 0)
BoundAt false target addr = (p : ℕ) × (addr ≡ unspecified target p) × LocalPort p

-- The socket of a UDP client, if one is bound, is at an address that it may have (`BoundAt`),
-- whatever the system lets be bound.
pub udp_socket-BoundAt :
    (binds : SocketAddr → Bool) (special_lan_ip : Bool) (peer target : SocketAddr) (tunnel_id : ℕ)
    (addr : SocketAddr)
    → udp_socket binds special_lan_ip peer target tunnel_id ≡ some addr
    → BoundAt special_lan_ip target addr
unfolding udp_socket
udp_socket-BoundAt binds true peer target tunnel_id addr h =
    let ip : ℕ = map_to_local_ip4 (addr_ip peer) in
    let p : ℕ = local_port peer tunnel_id in
    elim (split_test (binds (v4_addr ip p)) (some (v4_addr ip p)) _ addr h) [
      | inl (_, first) ↦ inl (
        ip,
        p,
        sym (some_injective first),
        map_to_local_ip4-Loopback (addr_ip peer),
        local_port-LocalPort peer tunnel_id,
      )
      | inr (_, later) ↦
          elim (split_test (binds (v4_addr ip 0)) (some (v4_addr ip 0)) _ addr later) [
            | inl (_, second) ↦ inl (
              ip,
              0,
              sym (some_injective second),
              map_to_local_ip4-Loopback (addr_ip peer),
              inl refl,
            )
            | inr (_, last) ↦
                elim (split_test (binds (v4_addr 0 0)) (some (v4_addr 0 0)) none addr last) [
                  | inl (_, third) ↦ inr (sym (some_injective third))
                  | inr (_, absent) ↦ absurd (none_some absent)
                ]
          ]
    ]
udp_socket-BoundAt binds false peer target tunnel_id addr h =
    let p : ℕ = local_port peer tunnel_id in
    elim (split_test (binds (unspecified target p)) (some (unspecified target p)) _ addr h) [
      | inl (_, first) ↦ (p, sym (some_injective first), local_port-LocalPort peer tunnel_id)
      | inr (_, later) ↦
          elim (split_test (binds (unspecified target 0)) (some (unspecified target 0)) none addr
            later) [
              | inl (_, second) ↦ (0, sym (some_injective second), inl refl)
              | inr (_, absent) ↦ absurd (none_some absent)
            ]
    ]

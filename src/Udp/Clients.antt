-- ===== src/Udp/Clients.antt =====
-- packages/agent_core/src/network/udp/udp_clients.rs: the clients of the tunnels' UDP traffic. Every
-- client has a socket of its own towards its origin, and a slot of a slab that its id names. What the
-- outside decides at a call is a parameter of it: which receiver tasks have ended, the rate limiter,
-- DNS, whether a socket opens, and what the wait for a receiver task that is shut down comes to. A
-- send that fails is only counted. The metrics are not modelled.
pub mod Steps
pub mod Keys
pub mod Linked
pub mod Flows
pub mod Handle
pub mod Replies
pub mod RoundTrip
pub mod Removal
pub mod Expiry
pub mod View
pub mod Runs
pub mod Isolation
pub mod Targets
use playit_agent.Common.{
  ℕ, ◌+◌, ◌-◌, ◌*◌, ◌%◌, ◌^◌, ◌≡◌, Bool, true, false, not, ◌&&◌, ◌||◌, Option, none, some, List, [],
  ◌∷◌, ltb, leb, ◌==◌, if◌then◌else◌,
}
use playit_agent.Io.{Bytes}
use playit_agent.Wire.{Wire, SocketAddr}
use playit_agent.Wire.Addresses.{eq_addr}
use playit_agent.Proto.Flow.{
  UdpFlow, UdpFlowExtension, extension, update_client_server_id, flip, src_addr,
}
use playit_agent.Proxy.{from_udp_flow, write_v2_udp}
use playit_agent.Origin.{OriginMap, OriginResource, ProxyProtocol, Dns, lookup, resolve_local}
use playit_agent.Slab.{SlabOps, slab_len}
use playit_agent.Stats.{AgentStats, no_stats, add_bytes_in, add_bytes_out, set_udp}
use playit_agent.Udp.Packets.{Packet, as_ref}

pub record UdpClientKey : Type 0 where
  pub source_addr : SocketAddr
  pub tunnel_id : ℕ

unfoldable pub eq_key : UdpClientKey → UdpClientKey → Bool
eq_key a b = eq_addr a.source_addr b.source_addr && a.tunnel_id == b.tunnel_id

-- The socket and the receiver task of a client are named by its id.
pub record Client : Type 0 where
  pub id : ℕ
  pub key : UdpClientKey
  pub target_addr : SocketAddr
  pub port_offset : ℕ
  pub flow : UdpFlow
  pub from_tunnel_ts : ℕ
  pub from_origin_ts : ℕ

-- `(generation << 32) | slot`, both of 32 bits.
abbrev pub pack_client_id : ℕ → ℕ → ℕ
pack_client_id slot generation = generation * 2 ^ 32 + slot

abbrev pub unpack_slot : ℕ → ℕ
unpack_slot id = id % 2 ^ 32

-- What the socket of a client is given to send.
pub record Datagram : Type 0 where
  pub client : ℕ
  pub payload : Bytes
  pub target : SocketAddr

pub record UdpReceivedPacket : Type 0 where
  pub rx_id : ℕ
  pub packet : Packet
  pub from : SocketAddr

-- The `HashMap` of the clients: the slot under each key.
abbrev pub ClientMap : Type 0
ClientMap = UdpClientKey → Option ℕ

abbrev pub insert_key : UdpClientKey → ℕ → ClientMap → ClientMap
insert_key k slot m key = if eq_key k key then some slot else m key

abbrev pub remove_key : UdpClientKey → ClientMap → ClientMap
remove_key k m key = if eq_key k key then none else m key

-- The receiver tasks while old clients are removed, by the ids of their clients (`UdpReceiver` of
-- packages/agent_core/src/network/udp/udp_receiver.rs, over a channel of tokio).
pub record Receivers : Type 0 where
  -- Whether the task was found to have ended, by `try_recv`.
  pub is_closed : ℕ → Bool
  -- Whether the wait for the task's end that `shutdown` makes is over within its time, without a
  -- panic.
  pub ends : ℕ → Bool

-- What tokio's channel does: once `try_recv` has found it closed, or has taken the value, a
-- further wait panics.
abbrev pub Consumed : Receivers → Type 0
Consumed r = (id : ℕ) → r.is_closed id ≡ true → r.ends id ≡ false

-- What the outside decides while a packet is handled.
pub record Surroundings : Type 0 where
  -- Whether the receiver task of a client has ended.
  pub is_closed : ℕ → Bool
  -- Whether the rate limiter lets a new client in.
  pub limiter_allows : Bool
  pub dns : Dns
  -- Whether `LanAddress::udp_socket` opens a socket, given `special_lan` and the target.
  pub opens : UdpClientKey → Bool → SocketAddr → Bool

-- `addr.ip().is_loopback()`: 127.0.0.0/8.
abbrev is_loopback_v4 : SocketAddr → Bool
is_loopback_v4 (SocketAddr.v4 a) = leb 2_130_706_432 a.ip && ltb a.ip 2_147_483_648
is_loopback_v4 (SocketAddr.v6 a) = false

abbrev without_proxy : Option ProxyProtocol → Bool
without_proxy none = true
without_proxy (some p) = false

abbrev pub special_lan : OriginResource → SocketAddr → Bool
special_lan origin target = is_loopback_v4 target && without_proxy origin.proxy_protocol

-- The source port of the client's flow: `assert!(port_offset <= port)` is `none`.
unfoldable pub port_below : ℕ → ℕ → Option ℕ
port_below port_number offset =
    if offset == 0
    then some port_number
    else if ltb port_number offset
    then none
    else some (port_number - offset)

-- A flow whose source port and port offset are put in, or `unreachable!` without an extension.
abbrev pub with_source_port : UdpFlow → ℕ → ℕ → Option UdpFlow
with_source_port (UdpFlow.v4 src dst frag (some e)) p off =
    some (UdpFlow.v4 (record src { port = p }) dst frag (some (record e { port_offset = off })))
with_source_port (UdpFlow.v6 src dst (some e)) p off =
    some (UdpFlow.v6 (record src { port = p }) dst (some (record e { port_offset = off })))
with_source_port (UdpFlow.v4 src dst frag none) p off = none
with_source_port (UdpFlow.v6 src dst none) p off = none

abbrev pub source_port : UdpFlow → ℕ
source_port (UdpFlow.v4 src dst frag e) = src.port
source_port (UdpFlow.v6 src dst e) = src.port

-- The flow that a new client keeps, from the flipped flow of its first packet.
unfoldable pub client_flow : UdpFlow → ℕ → Option UdpFlow
unfolding port_below
client_flow flipped offset = elim (port_below (source_port flipped) offset) [
  | none ↦ none
  | some p ↦ with_source_port flipped p 0
]

-- The flow of a reply: an addition past 65535 is a panic, as in a build with overflow checks; no state
-- that is reached has one.
unfoldable pub reply_flow : UdpFlow → ℕ → Option UdpFlow
reply_flow f offset =
    if ltb 65_535 (source_port f + offset)
    then none
    else with_source_port f (source_port f + offset) offset

unfoldable pub expired : (ℕ → Bool) → ℕ → Client → Bool
expired is_closed now client =
    is_closed client.id
    || (ltb 60_000 (now - client.from_tunnel_ts) && ltb 60_000 (now - client.from_origin_ts)
        || (ltb 90_000 (now - client.from_tunnel_ts) || ltb 90_000 (now - client.from_origin_ts)))

module _ (slab : SlabOps Client) where
  pub record UdpClients : Type 0 where
    pub lookup : OriginMap
    pub virtual_client_lookup : ClientMap
    pub virtual_clients : slab.Slab
    pub next_client_generation : ℕ
    pub stats : AgentStats

  -- `UdpClients::new`
  abbrev pub no_clients : OriginMap → UdpClients
  no_clients origins = record {
    lookup = origins;
    virtual_client_lookup = λ key. none;
    virtual_clients = slab.empty;
    next_client_generation = 1;
    stats = no_stats;
  }

  -- The state after a call and what it sends, or a panic.
  pub data Handled : Type 0 where
    handled : UdpClients → List Datagram → Handled
    panicked : Handled

  pub data Dispatched : Type 0 where
    dropped : Dispatched
    forwarded : UdpClients → UdpFlow → Packet → Dispatched
    panicked : Dispatched

  -- `self.stats.set_udp(self.virtual_clients.len() as u32)`
  abbrev pub counted : UdpClients → UdpClients
  counted s = record s { stats = set_udp s.stats (slab_len slab s.virtual_clients % 2 ^ 32) }

-- ===== src/Tcp/Clients.antt =====
-- packages/agent_core/src/network/tcp/tcp_clients.rs and tcp_client.rs: the worker's table of clients,
-- and the task that claims a client. The pipes of a client run on their own: their `Shared` is part
-- of the client here and changes between the worker's events. What an awaited call of the
-- claiming task comes to is an argument; a timeout, an error and a cancellation are told apart only
-- by the counters of errors, which are not modelled.
-- The limiter of new clients decides whether an event is sent at all.
pub mod Calls
pub mod Claims
pub mod Runs
use playit_agent.Common.{
  ℕ, ◌+◌, ◌-◌, ◌%◌, ◌^◌, Bool, true, false, not, ◌&&◌, ◌||◌, Option, none, some, List, [], ◌∷◌,
  ◌++◌, filter, length, ltb, max, if◌then◌else◌,
}
use playit_agent.Io.{Bytes}
use playit_agent.Wire.{Wire, SocketAddr}
use playit_agent.Proto.Feed.{NewClient}
use playit_agent.Origin.{OriginResource, OriginMap, ProxyProtocol, Dns, lookup, resolve_local}
use playit_agent.Proxy.{AddressText, ProxyProtocolHeader, write_v1_tcp, write_v2_tcp}
use playit_agent.Stats.{AgentStats, set_tcp}
use playit_agent.Tcp.Pipe.{Shared, last_activity}

pub record TcpClientStat : Type 0 where
  pub tunn_to_origin : ℕ
  pub origin_to_tunn : ℕ

pub record TcpClient : Type 0 where
  pub tunn_to_origin : Shared
  pub origin_to_tunn : Shared

abbrev pub new_tcp : ℕ → ℕ → TcpClient
new_tcp tunn_at orig_at = record {
  tunn_to_origin = record { last_activity = tunn_at; bytes_written = 0 };
  origin_to_tunn = record { last_activity = orig_at; bytes_written = 0 };
}

unfoldable pub last_use : TcpClient → TcpClientStat
last_use tcp = record {
  tunn_to_origin = last_activity tcp.tunn_to_origin;
  origin_to_tunn = last_activity tcp.origin_to_tunn;
}

pub record Client : Type 0 where
  pub id : ℕ
  pub added_at : ℕ
  pub tunnel_id : ℕ
  pub port_offset : ℕ
  pub source_addr : SocketAddr
  pub tunnel_addr : SocketAddr
  pub origin_addr : SocketAddr
  pub tcp : TcpClient

pub record Worker : Type 0 where
  pub clients : List Client
  pub next_client_id : ℕ
  pub stats : AgentStats

abbrev pub new_worker : AgentStats → Worker
new_worker stats = record { clients = []; next_client_id = 1; stats = stats }

-- What the task that claims a client starts with.
pub record Claiming : Type 0 where
  pub id : ℕ
  pub details : NewClient
  pub found : OriginResource
  pub proxy_header : ProxyProtocolHeader

unfoldable pub tcp_header : SocketAddr → SocketAddr → Option ProxyProtocolHeader
tcp_header (SocketAddr.v4 peer) (SocketAddr.v4 tunn) =
    some (ProxyProtocolHeader.af_inet peer.ip tunn.ip peer.port tunn.port)
tcp_header (SocketAddr.v6 peer) (SocketAddr.v6 tunn) =
    some (ProxyProtocolHeader.af_inet6 peer.ip tunn.ip peer.port tunn.port)
tcp_header (SocketAddr.v4 peer) (SocketAddr.v6 tunn) = none
tcp_header (SocketAddr.v6 peer) (SocketAddr.v4 tunn) = none

abbrev pub claiming : ℕ → NewClient → OriginResource → Option ProxyProtocolHeader → Option Claiming
claiming id details found none = none
claiming id details found (some header) =
    some (record { id = id; details = details; found = found; proxy_header = header })

abbrev pub with_found : ℕ → NewClient → Option OriginResource → Option Claiming
with_found id details none = none
with_found id details (some found) =
    claiming id details found (tcp_header details.peer_addr details.connect_addr)

-- `Event::NewClient`: the worker after it, and the task that is started, if one is.
unfoldable pub new_client : OriginMap → NewClient → Worker → Worker × Option Claiming
new_client origins details w = (
  record w { next_client_id = (w.next_client_id + 1) % 2 ^ 64 },
  with_found w.next_client_id details (lookup origins details.tunnel_id true),
)

-- What an awaited call comes to.
pub data Awaited : Type 0 where
  done timed_out failed cancelled : Awaited

abbrev pub is_done : Awaited → Bool
is_done Awaited.done = true
is_done Awaited.timed_out = false
is_done Awaited.failed = false
is_done Awaited.cancelled = false

-- The calls of the claiming task in their order, and its clock.
pub record Outside : Type 0 where
  pub connect : Awaited
  pub send_token : Awaited
  pub confirm : Awaited
  pub origin_connect : Awaited
  pub send_header : Awaited
  pub tunn_at : ℕ
  pub orig_at : ℕ
  pub added_at : ℕ

-- The client that is reported to the worker, and what was written before its pipes start.
pub data Claimed : Type 0 where
  gave_up : Claimed
  connected : (client : Client) (to_tunnel to_origin : Bytes) → Claimed

module _ (wire : Wire) (text : AddressText) (dns : Dns) where
  unfoldable pub header_bytes : Option ProxyProtocol → ProxyProtocolHeader → Bytes
  header_bytes none header = []
  header_bytes (some ProxyProtocol.proxy_protocol_v1) header = write_v1_tcp text header
  header_bytes (some ProxyProtocol.proxy_protocol_v2) header = write_v2_tcp wire header

  abbrev pub header_sent : Option ProxyProtocol → Awaited → Bool
  header_sent none sent = true
  header_sent (some protocol) sent = is_done sent

  abbrev pub all_done : Outside → Option ProxyProtocol → Bool
  all_done o proxy =
      is_done o.connect
      && (is_done o.send_token
          && (is_done o.confirm && (is_done o.origin_connect && header_sent proxy o.send_header)))

  abbrev pub claimed_client : Outside → Claiming → SocketAddr → Client
  claimed_client o p origin_addr = record {
    id = p.id;
    added_at = o.added_at;
    tunnel_id = p.details.tunnel_id;
    port_offset = p.details.port_offset;
    source_addr = p.details.peer_addr;
    tunnel_addr = p.details.connect_addr;
    origin_addr = origin_addr;
    tcp = new_tcp o.tunn_at o.orig_at;
  }

  abbrev pub claim_at : Outside → Claiming → Option SocketAddr → Claimed
  claim_at o p none = Claimed.gave_up
  claim_at o p (some origin_addr) =
      if all_done o p.found.proxy_protocol
      then Claimed.connected (claimed_client o p origin_addr) p.details.claim_instructions.token
          (header_bytes p.found.proxy_protocol p.proxy_header)
      else Claimed.gave_up

  -- The task.
  unfoldable pub claim : Outside → Claiming → Claimed
  claim o p = claim_at o p (resolve_local dns p.found p.details.port_offset)

-- `self.stats.set_tcp(self.clients.len() as u32)`
unfoldable pub with_clients : List Client → Worker → Worker
unfolding set_tcp
with_clients clients w = record w {
  clients = clients;
  stats = set_tcp w.stats (length clients % 2 ^ 32);
}

-- `Event::ConnectedClient`, which is sent where the claim came to an end.
unfoldable pub finished : Claimed → Worker → Worker
finished Claimed.gave_up w = w
finished (Claimed.connected client to_tunnel to_origin) w =
    with_clients (w.clients ++ (client ∷ [])) w

abbrev pub since : ℕ → ℕ → ℕ
since now last = max now last - last

-- The closure of `retain`.
unfoldable pub is_kept : ℕ → Client → Bool
is_kept now client =
    let since_tunn = since now (last_use client.tcp).tunn_to_origin in
    let since_orig = since now (last_use client.tcp).origin_to_tunn in
    not (
      ltb 90_000 since_tunn && ltb 30_000 since_orig
      || (ltb 90_000 since_orig && ltb 30_000 since_tunn
          || ltb 60_000 since_tunn && ltb 60_000 since_orig))

-- `Event::ClearOld`
unfoldable pub clear_old : ℕ → Worker → Worker
clear_old now w = with_clients (filter (is_kept now) w.clients) w

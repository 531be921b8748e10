-- ===== src/Origin.antt =====
-- packages/agent_core/src/network/origin_lookup.rs: to which local address the traffic of a tunnel
-- goes. A hostname is its bytes, and DNS (`lookup_host`, the first address of its answer) is a
-- parameter. How a resource is read off the API's tunnel (`from_agent_tunnel`) is not modelled: it is
-- the parsing of numbers, addresses and JSON by libraries.
pub mod Lookup
pub mod Ports
use playit_agent.Common.{
  ℕ, ◌+◌, Bool, true, false, not, ◌&&◌, Option, none, some, List, [], ◌∷◌, ltb, leb, ◌==◌,
  if◌then◌else◌,
}
use playit_agent.Io.{Bytes}
use playit_agent.Wire.{IpAddr, SocketAddr}
use playit_agent.Proto.Session.{PortProto}

pub data ProxyProtocol : Type 0 where
  proxy_protocol_v1 proxy_protocol_v2 : ProxyProtocol

pub data OriginIp : Type 0 where
  ip_address : IpAddr → OriginIp
  hostname : Bytes → OriginIp

pub data OriginTarget : Type 0 where
  https : (ip : OriginIp) (http_port https_port : ℕ) → OriginTarget
  port : (ip : OriginIp) (port : ℕ) → OriginTarget

pub record OriginResource : Type 0 where
  pub tunnel_id : ℕ
  pub proto : PortProto
  pub target : OriginTarget
  pub port_count : ℕ
  pub proxy_protocol : Option ProxyProtocol

pub record Key : Type 0 where
  pub tunnel_id : ℕ
  pub is_tcp : Bool

abbrev pub eq_bool : Bool → Bool → Bool
eq_bool true b = b
eq_bool false b = not b

abbrev pub same_key : Key → Key → Bool
same_key a b = a.tunnel_id == b.tunnel_id && eq_bool a.is_tcp b.is_tcp

-- The `HashMap`: what it holds under each key.
abbrev pub OriginMap : Type 0
OriginMap = Key → Option OriginResource

abbrev pub insert_origin : Key → OriginResource → OriginMap → OriginMap
insert_origin k r m key = if same_key k key then some r else m key

abbrev insert_proto : PortProto → OriginResource → OriginMap → OriginMap
insert_proto PortProto.tcp r m =
    insert_origin (record { tunnel_id = r.tunnel_id; is_tcp = true }) r m
insert_proto PortProto.udp r m =
    insert_origin (record { tunnel_id = r.tunnel_id; is_tcp = false }) r m
insert_proto PortProto.both r m =
    insert_origin (record { tunnel_id = r.tunnel_id; is_tcp = false }) r
      (insert_origin (record { tunnel_id = r.tunnel_id; is_tcp = true }) r m)

unfoldable pub insert_all : List OriginResource → OriginMap → OriginMap
insert_all [] m = m
insert_all (r ∷ rs) m = insert_all rs (insert_proto r.proto r m)

-- The map that `update` puts in the place of the old one.
unfoldable pub update : List OriginResource → OriginMap
unfolding insert_all
update resources = insert_all resources (λ key. none)

unfoldable pub lookup : OriginMap → ℕ → Bool → Option OriginResource
lookup m tunnel_id is_tcp = m (record { tunnel_id = tunnel_id; is_tcp = is_tcp })

abbrev pub Dns : Type 0
Dns = Bytes → ℕ → Option SocketAddr

abbrev pub address_of : IpAddr → ℕ → SocketAddr
address_of (IpAddr.v4 ip) port_number = SocketAddr.v4 (record { ip = ip; port = port_number })
address_of (IpAddr.v6 ip) port_number =
    SocketAddr.v6 (record { ip = ip; port = port_number; flowinfo = 0; scope_id = 0 })

module _ (dns : Dns) where
  unfoldable pub resolve : OriginIp → ℕ → Option SocketAddr
  resolve (OriginIp.ip_address ip) port_number = some (address_of ip port_number)
  resolve (OriginIp.hostname name) port_number = dns name port_number

  -- `port.checked_add(port_offset)?`
  unfoldable pub resolve_target : OriginTarget → ℕ → ℕ → Option SocketAddr
  resolve_target (OriginTarget.https ip http_port https_port) port_count port_offset =
      if port_offset == 0
      then resolve ip http_port
      else if port_offset == 1
      then resolve ip https_port
      else none
  resolve_target (OriginTarget.port ip local_port) port_count port_offset =
      if port_count == 0
      then resolve ip local_port
      else if leb port_count port_offset
      then none
      else if ltb 65_535 (local_port + port_offset)
      then none
      else resolve ip (local_port + port_offset)

  unfoldable pub resolve_local : OriginResource → ℕ → Option SocketAddr
  unfolding resolve_target
  resolve_local r port_offset = resolve_target r.target r.port_count port_offset

-- ===== src/Examples/Clients.antt =====
-- The theorems on the UDP clients and the origins at concrete values.
use playit_agent.Common.{
  ℕ, ◌+◌, ◌%◌, ◌^◌, ◌==◌, ◌≤◌, ◌<◌, ◌≡◌, ◌≢◌, ◌↔◌, ◌⊎◌, refl, ap, Bool, true, false, none, some,
  List, [], ◌∷◌, ◌++◌, arith,
}
use playit_agent.Wire.{SocketAddr, IpAddr}
use playit_agent.Wire.Addresses.{eq_addr}
use playit_agent.Wire.BigEndian.{big_endian}
use playit_agent.Proto.Session.{PortProto}
use playit_agent.Proto.Flow.{UdpFlow, UdpFlowExtension, extension, flip, src_addr}
use playit_agent.Proto.Mtu.{fill}
use playit_agent.Origin.{
  Dns, OriginIp, OriginTarget, OriginResource, ProxyProtocol, insert_all, address_of, update,
  lookup, resolve, resolve_target, resolve_local,
}
use playit_agent.Origin.Lookup.{last_serving, lookup-update}
use playit_agent.Origin.Ports.{resolve_local_iff}
use playit_agent.Slab.{SlabOps}
use playit_agent.Slab.Lists.{list_slab, list_slab_laws}
use playit_agent.Udp.Packets.{Packet, as_ref}
use playit_agent.Udp.Clients.{
  UdpClientKey, Client, Receivers, Surroundings, Datagram, UdpReceivedPacket, UdpClients, Handled,
  Dispatched, eq_key, source_port, port_below, client_flow, no_clients,
}
use playit_agent.Udp.Clients.Handle.{Valid, FullFor, handle_tunneled_packet-panicked}
use playit_agent.Udp.Clients.Replies.{Replied, dispatch_origin_packet_lem}
use playit_agent.Udp.Clients.RoundTrip.{reply-handle_tunneled_packet}
use playit_agent.Udp.Clients.Expiry.{retained}
use playit_agent.Udp.Clients.View.{client_of, Lingering, clear_old-client_of, clear_old-Consumed}
use playit_agent.Udp.Clients.Isolation.{handle_tunneled_packet-client_of}
use playit_agent.Udp.Clients.Runs.{Step, Reachable, Reachable-Valid}
use playit_agent.Udp.Clients.Targets.{Arrived, sent_all, to_target, sent_all-client_of}
use playit_agent.Udp.Clients.Steps.{
  dispatch_origin_packet, clear_old, handle_tunneled_packet, with_origin, new_client, admit, key_of,
  with_client, proxy_header, forwarded_to,
}
use playit_agent.Stats.{AgentStats}
use playit_agent.Lan.{as_local_masked, map_to_local_ip4, v4_addr, udp_socket}
use playit_agent.Lan.Range.{BoundAt, udp_socket-BoundAt}
use playit_agent.Tcp.Pipe.{PipeDirection, Turn, new_pipe, run}
use playit_agent.Tcp.Pipe.Accounts.{counter, other_counter, run-passed}
use playit_agent.Examples.{client}

abbrev local_ip : OriginIp
local_ip = OriginIp.ip_address (IpAddr.v4 2_130_706_433)

abbrev pub resource : OriginResource
resource = record {
  tunnel_id = 4;
  proto = PortProto.both;
  target = OriginTarget.port local_ip 8_000;
  port_count = 3;
  proxy_protocol = some ProxyProtocol.proxy_protocol_v2;
}

abbrev pub no_dns : Dns
no_dns name port_number = none

lookup-update_example :
    lookup (update (resource ∷ [])) 4 false ≡ last_serving (resource ∷ []) 4 false none
lookup-update_example = lookup-update (resource ∷ []) 4 false

resolve_local_iff_example :
    (resolve_local no_dns resource 2 ≡ some (address_of (IpAddr.v4 2_130_706_433) 8_002)) ↔ (
      (2 < 3)
      × (8_000 + 2 ≤ 65_535)
      × (address_of (IpAddr.v4 2_130_706_433) 8_002
          ≡ address_of (IpAddr.v4 2_130_706_433) (8_000 + 2)))
resolve_local_iff_example =
    resolve_local_iff no_dns resource (IpAddr.v4 2_130_706_433) 8_000 2
      (address_of (IpAddr.v4 2_130_706_433) 8_002) refl (omega arith)

abbrev env : Surroundings
env = record {
  is_closed = λ id. false;
  limiter_allows = true;
  dns = no_dns;
  opens = λ key lan target. true;
}

abbrev ports_of_tunnel : UdpFlowExtension
ports_of_tunnel = record { client_server_id = 3; tunnel_id = 4; port_offset = 2 }

abbrev to_third_port : UdpFlow
to_third_port =
    UdpFlow.v4 client (record { ip = 16_909_060; port = 1_234 }) none (some ports_of_tunnel)

abbrev hello : Packet
hello = record { buffer = 104 ∷ 105 ∷ fill 2_046 0; len = 2 }

abbrev slab : SlabOps Client
slab = list_slab Client

abbrev idle : UdpClients slab
idle = no_clients slab (update (resource ∷ []))

abbrev third_port : SocketAddr
third_port = address_of (IpAddr.v4 2_130_706_433) 8_002

reply-handle_tunneled_packet_example :
    (s' : UdpClients slab) × (id : ℕ) × (handle_tunneled_packet slab big_endian env idle 1_000
        to_third_port hello
      ≡ Handled.handled s' (
          proxy_header slab big_endian env 1_000 to_third_port ports_of_tunnel resource hello id
            third_port
            (some ProxyProtocol.proxy_protocol_v2)
          ++ (forwarded_to slab big_endian env 1_000 to_third_port ports_of_tunnel resource hello id
                third_port
              ∷ [])))
    × ((now' : ℕ) (answer : Packet)
        → (s'' : UdpClients slab) × (dispatch_origin_packet slab s' now'
              (record { rx_id = id; packet = answer; from = third_port })
            ≡ Dispatched.forwarded s'' (flip to_third_port) answer))
unfolding extension lookup update insert_all resolve_local resolve_target resolve flip
reply-handle_tunneled_packet_example =
    reply-handle_tunneled_packet slab (list_slab_laws Client) big_endian env idle 1_000
      to_third_port ports_of_tunnel resource hello third_port refl refl refl refl refl refl
      (omega arith) (omega arith) (omega arith)

-- The state after the first packet.
abbrev kept_flow : UdpFlow
kept_flow =
    UdpFlow.v4 (record { ip = 16_909_060; port = 1_232 }) client none
      (some (record { client_server_id = 3; tunnel_id = 4; port_offset = 0 }))

abbrev first_key : UdpClientKey
first_key = key_of slab big_endian env 1_000 to_third_port ports_of_tunnel resource hello

abbrev first_client : Client
first_client = record {
  id = 4_294_967_296;
  key = first_key;
  target_addr = third_port;
  port_offset = 2;
  flow = kept_flow;
  from_tunnel_ts = 1_000;
  from_origin_ts = 1_000;
}

abbrev serving : UdpClients slab
serving =
    with_client slab big_endian env 1_000 to_third_port ports_of_tunnel resource hello idle
      third_port kept_flow

abbrev first_sent : List Datagram
first_sent =
    proxy_header slab big_endian env 1_000 to_third_port ports_of_tunnel resource hello
      4_294_967_296 third_port (some ProxyProtocol.proxy_protocol_v2)
    ++ (record { client = 4_294_967_296; payload = as_ref hello; target = third_port } ∷ [])

Reachable-serving : Reachable slab (list_slab_laws Client) big_endian serving
unfolding extension lookup update insert_all resolve_local resolve_target resolve flip
    handle_tunneled_packet with_origin new_client admit client_flow port_below src_addr
Reachable-serving =
    Reachable.next (Reachable.start (update (resource ∷ [])))
      (Step.tunneled env 1_000 to_third_port hello first_sent (omega arith) refl)

serving-Valid : Valid slab (list_slab_laws Client) serving
serving-Valid = Reachable-Valid slab (list_slab_laws Client) big_endian serving Reachable-serving

Reachable-Valid_example : Valid slab (list_slab_laws Client) serving
Reachable-Valid_example =
    Reachable-Valid slab (list_slab_laws Client) big_endian serving Reachable-serving

-- A flow to port 1 that claims to be two ports above its tunnel's first.
abbrev below_offset : UdpFlow
below_offset = UdpFlow.v4 client (record { ip = 16_909_060; port = 1 }) none (some ports_of_tunnel)

handle_tunneled_packet-panicked_example :
    FullFor slab (list_slab_laws Client) env.is_closed below_offset idle
    ⊎ ((e : UdpFlowExtension) × (extension below_offset ≡ some e)
        × (source_port (flip below_offset) < e.port_offset))
unfolding extension lookup update insert_all resolve_local resolve_target resolve flip
    handle_tunneled_packet with_origin new_client admit client_flow port_below
handle_tunneled_packet-panicked_example =
    handle_tunneled_packet-panicked slab (list_slab_laws Client) big_endian env idle 1_000
      below_offset hello
      (Reachable-Valid slab (list_slab_laws Client) big_endian idle
        (Reachable.start (update (resource ∷ []))))
      (omega arith) refl

abbrev answer : UdpReceivedPacket
answer = record { rx_id = 4_294_967_296; packet = hello; from = third_port }

dispatch_origin_packet_lem_example :
    (dispatch_origin_packet slab serving 2_000 answer ≡ Dispatched.dropped)
    ⊎ Replied slab (list_slab_laws Client) serving 2_000 answer
dispatch_origin_packet_lem_example =
    dispatch_origin_packet_lem slab (list_slab_laws Client) serving 2_000 answer serving-Valid

abbrev receivers : Receivers
receivers = record { is_closed = λ id. false; ends = λ id. true }

clear_old-client_of_example :
    ((s' : UdpClients slab) × (clear_old slab receivers serving 70_000 ≡ some s')
      × ((k : UdpClientKey)
          → client_of slab (list_slab_laws Client) s' k
            ≡ retained receivers.is_closed 70_000
                (client_of slab (list_slab_laws Client) serving k))
      × ¬ Lingering slab (list_slab_laws Client) receivers serving 70_000)
    ⊎ ((clear_old slab receivers serving 70_000 ≡ none)
        × Lingering slab (list_slab_laws Client) receivers serving 70_000)
clear_old-client_of_example =
    clear_old-client_of slab (list_slab_laws Client) receivers serving 70_000 serving-Valid

-- The receiver task of every client is found to have ended.
abbrev all_ended : Receivers
all_ended = record { is_closed = λ id. true; ends = λ id. false }

clear_old-Consumed_example : clear_old slab all_ended serving 2_000 ≡ none
unfolding extension lookup update insert_all eq_key eq_addr src_addr
clear_old-Consumed_example =
    clear_old-Consumed slab (list_slab_laws Client) all_ended serving 2_000
      (record { source_addr = SocketAddr.v4 client; tunnel_id = 4 }) first_client
      (λ id closed. refl) serving-Valid refl refl

abbrev other_key : UdpClientKey
other_key = record {
  source_addr = SocketAddr.v6 (record { ip = 1; port = 9; flowinfo = 0; scope_id = 0 });
  tunnel_id = 4;
}

other_source :
    (e : UdpFlowExtension)
    → extension to_third_port ≡ some e
    → record { source_addr = src_addr to_third_port; tunnel_id = e.tunnel_id } ≢ other_key
unfolding src_addr
other_source e has same =
    let apart : SocketAddr.v4 client ≡ other_key.source_addr =
      ap (λ (k : UdpClientKey). k.source_addr) same in
    cc apart

handle_tunneled_packet-client_of_example :
    client_of slab (list_slab_laws Client) serving other_key
    ≡ client_of slab (list_slab_laws Client) idle other_key
unfolding extension lookup update insert_all resolve_local resolve_target resolve flip
    handle_tunneled_packet with_origin new_client admit client_flow port_below src_addr
handle_tunneled_packet-client_of_example =
    handle_tunneled_packet-client_of slab (list_slab_laws Client) big_endian env idle serving 1_000
      to_third_port hello first_sent other_key
      (Reachable-Valid slab (list_slab_laws Client) big_endian idle
        (Reachable.start (update (resource ∷ []))))
      (omega arith) refl other_source

-- The same source, to the first port of the tunnel.
abbrev of_first_port : UdpFlowExtension
of_first_port = record { client_server_id = 5; tunnel_id = 4; port_offset = 0 }

abbrev to_first_port : UdpFlow
to_first_port =
    UdpFlow.v4 client (record { ip = 16_909_060; port = 1_232 }) none (some of_first_port)

-- Two packets of the client, to the first port and to the third.
abbrev arrived : List Arrived
arrived =
    record { env = env; now = 2_000; flow = to_first_port; packet = hello }
    ∷ record { env = env; now = 3_000; flow = to_third_port; packet = hello }
    ∷ []

sent_all-client_of_example :
    sent_all slab big_endian arrived serving ≡ to_target 4_294_967_296 third_port arrived
unfolding extension lookup update insert_all eq_key eq_addr src_addr
sent_all-client_of_example =
    sent_all-client_of slab (list_slab_laws Client) big_endian serving
      (record { source_addr = SocketAddr.v4 client; tunnel_id = 4 }) resource first_client arrived
      refl refl
      (
        (record { fields = of_first_port; has = refl; own_tunnel = refl; own_source = refl }, refl),
        (
          (
            record { fields = ports_of_tunnel; has = refl; own_tunnel = refl; own_source = refl },
            refl,
          ),
          tt,
        ),
      )

-- A system that binds to the unspecified address only.
abbrev no_special_addresses : SocketAddr → Bool
no_special_addresses (SocketAddr.v4 a) = a.ip == 0
no_special_addresses (SocketAddr.v6 a) = false

udp_socket-BoundAt_example : BoundAt true (v4_addr 2_130_706_433 8_000) (v4_addr 0 0)
unfolding udp_socket map_to_local_ip4 as_local_masked
udp_socket-BoundAt_example =
    udp_socket-BoundAt no_special_addresses true (SocketAddr.v4 client)
      (v4_addr 2_130_706_433 8_000) 4 (v4_addr 0 0) refl

-- The third chunk cannot be written.
abbrev turns : List Turn
turns =
    Turn.chunk (1 ∷ 2 ∷ []) true 10
    ∷ Turn.chunk (3 ∷ []) true 20
    ∷ Turn.chunk (4 ∷ 5 ∷ []) false 30
    ∷ Turn.chunk (6 ∷ []) true 40
    ∷ []

abbrev some_stats : AgentStats
some_stats = record { bytes_in = 100; bytes_out = 7; active_tcp = 1; active_udp = 0 }

run-passed_example :
    ((run PipeDirection.tunnel_to_origin turns (new_pipe some_stats 5)).output ≡ 1 ∷ 2 ∷ 3 ∷ [])
    × ((run PipeDirection.tunnel_to_origin turns (new_pipe some_stats 5)).shared.bytes_written
          % 2 ^ 64
        ≡ 3)
    × (counter PipeDirection.tunnel_to_origin
            (run PipeDirection.tunnel_to_origin turns (new_pipe some_stats 5)).stats
          % 2 ^ 64
        ≡ 103)
    × (other_counter PipeDirection.tunnel_to_origin
          (run PipeDirection.tunnel_to_origin turns (new_pipe some_stats 5)).stats
        ≡ 7)
run-passed_example = run-passed PipeDirection.tunnel_to_origin turns some_stats 5

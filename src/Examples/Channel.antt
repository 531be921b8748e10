-- ===== src/Examples/Channel.antt =====
-- The theorems on flows, the channel and the proxy header at concrete values.
use playit_agent.Common.{◌≡◌, ◌≢◌, refl, [], ◌∷◌, ◌++◌, some, arith}
use playit_agent.Io.{ok, panicked, Bytes}
use playit_agent.Wire.BigEndian.{big_endian, big_endian_laws}
use playit_agent.Proto.Flow.{FlowResult, footer_len, footer_fields, from_tail}
use playit_agent.Proxy.{ProxyProtocolHeader, write_v2_udp, parse_v2_udp}
use playit_agent.Proxy.RoundTrip.{parse_v2_udp-write}
use playit_agent.Proto.Flow.Footer.{joined}
use playit_agent.Proto.Flow.Tail.{Fits, from_tail-Fits}
use playit_agent.Proto.Flow.RoundTrip.{received_flow, from_tail-footer}
use playit_agent.Proto.Response.{UdpChannelDetails}
use playit_agent.Proto.Mtu.{fill}
use playit_agent.Proto.Mtu.Pattern.{length-fill}
use playit_agent.Udp.Packets.{Packet, ValidPacket, packet_len, as_ref}
use playit_agent.Udp.Channel.{
  Shared, SendTask, Received, should_send, send_establish, handle_session, receive,
}
use playit_agent.Udp.Channel.Transfer.{footer, receive-footer, receive-ne-aborted}
use playit_agent.Udp.Channel.Session.{
  Step, Reachable, Linked, created, Reachable-Linked, delivered_source, sent_target,
}
use playit_agent.Proxy.Reads.{parse_v2_udp-ne-panicked}
use playit_agent.Examples.{flow, valid_flow, details, server}

abbrev payload : Bytes
payload = 104 ∷ 105 ∷ []

abbrev empty_packet : Packet
empty_packet = record { buffer = fill packet_len 0; len = 0 }

abbrev running : SendTask
running = (handle_session created details 1_000).0

from_tail-footer_example :
    from_tail big_endian (payload ++ joined big_endian (footer_fields flow))
    ≡ FlowResult.parsed (received_flow flow)
from_tail-footer_example = from_tail-footer big_endian big_endian_laws flow payload valid_flow

-- A packet that ends in a footer.
abbrev packet_bytes : Bytes
packet_bytes = payload ++ footer big_endian flow

from_tail-Fits_example : Fits packet_bytes (from_tail big_endian packet_bytes)
from_tail-Fits_example = from_tail-Fits big_endian big_endian_laws packet_bytes

abbrev two_bytes : Packet
two_bytes = record { buffer = fill packet_len 0; len = 2 }

valid_two_bytes : ValidPacket two_bytes
valid_two_bytes = record { buffer = length-fill packet_len 0; len = omega arith }

abbrev open_shared : Shared
open_shared = record {
  establish_rx_epoch = 0;
  establish_tx_epoch = 0;
  session_tunnel_addr = some server;
}

receive-footer_example :
    (q : Packet) × (receive big_endian open_shared empty_packet
        (payload ++ footer big_endian flow)
        server
      ≡ Received.delivered (received_flow flow) q)
    × (as_ref q ≡ payload)
unfolding footer_len
receive-footer_example =
    receive-footer big_endian big_endian_laws open_shared server empty_packet payload flow refl
      valid_flow (omega arith)

receive-ne-aborted_example :
    receive big_endian open_shared empty_packet packet_bytes server ≢ Received.aborted
receive-ne-aborted_example =
    receive-ne-aborted big_endian big_endian_laws open_shared empty_packet packet_bytes server

announced : Step big_endian created (handle_session created details 1_000).1 running
announced = Step.session created details 1_000

Reachable-running : Reachable big_endian running
Reachable-running = Reachable.next Reachable.start announced

Reachable-Linked_example : Linked running
Reachable-Linked_example = Reachable-Linked big_endian Reachable-running

running-delivers :
    (q : Packet) × (receive big_endian running.shared empty_packet
        (payload ++ footer big_endian flow)
        server
      ≡ Received.delivered (received_flow flow) q)
    × (as_ref q ≡ payload)
unfolding footer_len handle_session should_send send_establish
running-delivers =
    receive-footer big_endian big_endian_laws running.shared server empty_packet payload flow refl
      valid_flow (omega arith)

delivered_source_example :
    (held : UdpChannelDetails) × (running.session ≡ some held) × (held.tunnel_addr ≡ server)
delivered_source_example =
    delivered_source big_endian empty_packet (payload ++ footer big_endian flow) server
      (received_flow flow) (running-delivers.0) Reachable-running (running-delivers.1)

sent_target_example :
    (held : UdpChannelDetails) × (running.session ≡ some held) × (server ≡ held.tunnel_addr)
unfolding handle_session should_send send_establish
sent_target_example =
    sent_target big_endian (record { payload = details.token; target = server }) announced refl

abbrev header : ProxyProtocolHeader
header = ProxyProtocolHeader.af_inet 2_066_549_794 84_281_096 421 662

parse_v2_udp-write_example :
    parse_v2_udp big_endian (write_v2_udp big_endian header ++ payload)
    ≡ ok (some (header, payload))
parse_v2_udp-write_example =
    parse_v2_udp-write big_endian big_endian_laws header payload
      (omega arith, omega arith, omega arith, omega arith)

parse_v2_udp-ne-panicked_example :
    parse_v2_udp big_endian (write_v2_udp big_endian header) ≢ panicked
parse_v2_udp-ne-panicked_example =
    parse_v2_udp-ne-panicked big_endian big_endian_laws (write_v2_udp big_endian header)

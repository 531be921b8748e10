-- ===== src/Udp/Channel.antt =====
-- packages/agent_core/src/network/udp/udp_channel.rs: the socket over which tunnelled packets come
-- and go. The send task and the receive task each handle one event at a time; `now` is `now_milli()`
-- at the event, and what the socket is given to send is part of the result. The counters of
-- `udp_errors()` are not modelled: each is an outcome of its own.
pub mod Transfer
pub mod Session
use playit_agent.Common.{
  ℕ, ◌+◌, ◌-◌, max, Bool, true, false, not, ◌&&◌, ◌||◌, Option, none, some, ◌++◌, length, take,
  drop, ltb, leb, ◌==◌, eq_bytes, if◌then◌else◌,
}
use playit_agent.Io.{Result, ok, err, panicked, Bytes}
use playit_agent.Wire.{Wire, SocketAddr}
use playit_agent.Wire.Addresses.{eq_addr}
use playit_agent.Proto.Flow.{
  UdpFlow, FlowResult, footer_len, write_footer, from_tail, udp_channel_establish_id,
}
use playit_agent.Proto.Response.{UdpChannelDetails}
use playit_agent.Udp.Packets.{Packet, packet_len, as_ref, set_len}

-- What the two tasks share. A time of 0 stands for never.
pub record Shared : Type 0 where
  pub establish_rx_epoch : ℕ
  pub establish_tx_epoch : ℕ
  pub session_tunnel_addr : Option SocketAddr

pub record SendTask : Type 0 where
  pub session : Option UdpChannelDetails
  pub shared : Shared

-- A datagram that the socket is given.
pub record Datagram : Type 0 where
  pub payload : Bytes
  pub target : SocketAddr

-- `time_since_established` and `time_since_establish_send`, in milliseconds.
unfoldable pub time_since : ℕ → ℕ → Option ℕ
time_since ts now = if ts == 0 then none else some (max now ts - ts)

-- When the next establish message is due, from the time of the last one.
unfoldable pub next_send : SendTask → ℕ → ℕ → ℕ
next_send t last_establish_send now = elim t.session [
  | none ↦ now + 5_000
  | some session ↦
      if leb 15_000 (max now t.shared.establish_rx_epoch - t.shared.establish_rx_epoch)
      then last_establish_send + 3_000
      else last_establish_send + 10_000
]

unfoldable pub send_establish : SendTask → ℕ → SendTask × Option Datagram
send_establish t now = elim t.session [
  | none ↦ (t, none)
  | some session ↦ (
    record t { shared = record t.shared { establish_tx_epoch = now } },
    some (record { payload = session.token; target = session.tunnel_addr }),
  )
]

unfoldable pub eq_details : UdpChannelDetails → UdpChannelDetails → Bool
eq_details a b = eq_addr a.tunnel_addr b.tunnel_addr && eq_bytes a.token b.token

unfoldable pub should_send : Option UdpChannelDetails → UdpChannelDetails → ℕ → ℕ → Bool
should_send none details now last_rx = true
should_send (some old) details now last_rx =
    if not (eq_details old details) then true else ltb 5_000 (now - last_rx)

unfoldable pub handle_session : SendTask → UdpChannelDetails → ℕ → SendTask × Option Datagram
unfolding should_send send_establish eq_details
handle_session t details now =
    let send = should_send t.session details now t.shared.establish_rx_epoch in
    let t' : SendTask = record {
      session = some details;
      shared = record t.shared { session_tunnel_addr = some details.tunnel_addr };
    } in
    if send then send_establish t' now else (t', none)

-- The outcome of sending a packet. `aborted` is a panic.
pub data Sent : Type 0 where
  no_session tail_append_fail aborted : Sent
  sent : Datagram → Sent

-- `set_len(…).expect(…)` before the packet goes out.
abbrev send_packet : Result Packet → SocketAddr → Sent
send_packet (ok p) target = Sent.sent (record { payload = as_ref p; target = target })
send_packet (err e) target = Sent.aborted
send_packet panicked target = Sent.aborted

-- The footer goes behind the packet, into the rest of its buffer.
append_footer : UdpFlow → Packet → SocketAddr → Result (Bool × Bytes) → Sent
append_footer flow p target (ok (true, rest)) =
    let packet : Packet = record p { buffer = take p.len p.buffer ++ rest } in
    send_packet (set_len packet (p.len + footer_len flow)) target
append_footer flow p target (ok (false, rest)) = Sent.tail_append_fail
append_footer flow p target (err e) = Sent.aborted
append_footer flow p target panicked = Sent.aborted

-- The outcome of a received datagram.
pub data Received : Type 0 where
  no_session source_no_match too_small invalid_footer_id established aborted : Received
  delivered : UdpFlow → Packet → Received

-- `set_len(bytes - flow.footer_len()).expect(…)`; a difference below 0 is a panic too.
deliver : UdpFlow → ℕ → Packet → Received
deliver flow bytes p =
    let len = bytes - footer_len flow in
    if ltb bytes (footer_len flow) then Received.aborted else elim (set_len p len) [
      | ok packet ↦ Received.delivered flow packet
      | err e ↦ Received.aborted
      | panicked ↦ Received.aborted
    ]

by_flow : ℕ → Packet → FlowResult → Received
unfolding deliver
by_flow bytes p (FlowResult.parsed flow) = deliver flow bytes p
by_flow bytes p (FlowResult.rejected none) = Received.too_small
by_flow bytes p (FlowResult.rejected (some id)) =
    if id == udp_channel_establish_id then Received.established else Received.invalid_footer_id
by_flow bytes p FlowResult.aborted = Received.aborted

-- `recv_from(packet.full_slice_mut())`: the datagram, cut to the buffer, at the front of the buffer.
abbrev pub fill_buffer : Packet → Bytes → Packet
fill_buffer p datagram =
    let got = take packet_len datagram in record p { buffer = got ++ drop (length got) p.buffer }

module _ (wire : Wire) where
  pub send : SendTask → UdpFlow → Packet → Sent
  unfolding append_footer
  send t flow p = elim t.session [
    | none ↦ Sent.no_session
    | some session ↦
        append_footer flow p session.tunnel_addr (write_footer wire flow (drop p.len p.buffer))
  ]

  -- The length set to what was received, and the flow parsed.
  parse_received : ℕ → Result Packet → Received
  unfolding by_flow
  parse_received bytes (ok p) = by_flow bytes p (from_tail wire (as_ref p))
  parse_received bytes (err e) = Received.aborted
  parse_received bytes panicked = Received.aborted

  -- One round of the receive task: the datagram's source is checked before anything of it is read.
  pub receive : Shared → Packet → Bytes → SocketAddr → Received
  unfolding parse_received
  receive shared p datagram source = elim shared.session_tunnel_addr [
    | none ↦ Received.no_session
    | some session_addr ↦
        if eq_addr session_addr source
        then (let bytes = length (take packet_len datagram) in
            parse_received bytes (set_len (fill_buffer p datagram) bytes))
        else Received.source_no_match
  ]

-- An establish message sets the time of the last one; nothing else changes the shared state.
unfoldable pub after_receive : Shared → ℕ → Received → Shared
after_receive shared now Received.established = record shared { establish_rx_epoch = now }
after_receive shared now r = shared

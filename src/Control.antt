-- ===== src/Control.antt =====
-- packages/agent_core/src/agent_control/established_control.rs, and the parts of connected_control.rs
-- that receive a message and set up and reset the session. `now` is `now_milli()` at the call. The
-- socket and the authentication request are not part of it: a received datagram and the registration
-- that an authentication returned are arguments. `clock_offset` is only logged, and is left out.
-- u64 subtraction wraps, as in the release build.
pub mod Session
pub mod Overdue
pub mod Mtu
pub mod Authenticate
pub mod Maintained
pub mod Selector
use playit_agent.Common.{
  ℕ, ◌+◌, ◌-◌, ◌%◌, ◌^◌, max, min, Bool, true, false, not, ◌&&◌, ◌||◌, Option, none, some, List, [],
  ◌∷◌, take, leb, ◌==◌, if◌then◌else◌,
}
use playit_agent.Io.{IoError, Result, ok, err, panicked, Bytes}
use playit_agent.Wire.{Wire, SocketAddr}
use playit_agent.Wire.Addresses.{eq_addr}
use playit_agent.Proto.Rpc.{ControlRpcMessage}
use playit_agent.Proto.Response.{
  ControlResponse, Pong, AgentRegistered, CheckMtuReceivedAck, MtuTestPacket, MtuTestFail,
}
use playit_agent.Proto.Feed.{ControlFeed, read_feed}

-- `largest_payload_by_datacenter` is a list of keys and values, each key once.
pub record MtuData : Type 0 where
  pub largest_received_packet : Option CheckMtuReceivedAck
  pub largest_payload_by_datacenter : List (ℕ × ℕ)
  pub latest_test_fail : Option MtuTestFail

abbrev pub no_mtu_data : MtuData
no_mtu_data = record {
  largest_received_packet = none;
  largest_payload_by_datacenter = [];
  latest_test_fail = none;
}

unfoldable pub record_check_mtu_received_ack : MtuData → CheckMtuReceivedAck → MtuData
record_check_mtu_received_ack d ack = elim d.largest_received_packet [
  | none ↦ record d { largest_received_packet = some ack }
  | some current ↦
      if leb current.message_length ack.message_length
      then record d { largest_received_packet = some ack }
      else d
]

-- `entry(key).and_modify(max).or_insert(value)`
unfoldable pub raise_entry : ℕ → ℕ → List (ℕ × ℕ) → List (ℕ × ℕ)
raise_entry key value [] = (key, value) ∷ []
raise_entry key value ((k, v) ∷ rest) =
    let raised = raise_entry key value rest in
    if k == key then (k, max v value) ∷ rest else (k, v) ∷ raised

unfoldable pub record_mtu_test_packet : MtuData → MtuTestPacket → MtuData
record_mtu_test_packet d p = record d {
  largest_payload_by_datacenter =
      raise_entry p.data_center_id p.udp_payload_length d.largest_payload_by_datacenter;
}

unfoldable pub record_mtu_test_fail : MtuData → MtuTestFail → MtuData
record_mtu_test_fail d fail = record d { latest_test_fail = some fail }

pub record ConnectedControl : Type 0 where
  pub control_addr : SocketAddr
  pub pong_latest : Pong

pub record EstablishedControl : Type 0 where
  pub conn : ConnectedControl
  pub pong_at_auth : Pong
  pub session_setup_deadline : Option ℕ
  pub registered : AgentRegistered
  pub current_ping : Option ℕ
  pub force_expired : Bool
  pub pending_mtu_data : MtuData
  pub known_mtu_data : MtuData

pub data ExpiredReason : Type 0 where
  forced session_not_setup flow_changed : ExpiredReason

unfoldable pub minus_u64 : ℕ → ℕ → ℕ
minus_u64 a b = (a + 2 ^ 64 - b) % 2 ^ 64

-- The deadline of a session that is not set up: `saturating_add(5_000)`.
unfoldable pub setup_deadline : Option ℕ → ℕ → Option ℕ
setup_deadline none now = some (min (now + 5_000) (2 ^ 64 - 1))
setup_deadline (some expire_at) now = none

abbrev or_else : Option ℕ → Option ℕ → Option ℕ
or_else none b = b
or_else (some a) b = some a

unfoldable pub has_flow_changed : EstablishedControl → Bool
has_flow_changed e =
    not (eq_addr e.conn.pong_latest.client_addr e.pong_at_auth.client_addr)
    || not (eq_addr e.conn.pong_latest.tunnel_addr e.pong_at_auth.tunnel_addr)

-- `session_expire_at.is_none() && deadline.is_none_or(|deadline| now >= deadline)`
unfoldable pub setup_overdue : Option ℕ → Option ℕ → ℕ → Bool
setup_overdue (some expire_at) deadline now = false
setup_overdue none none now = true
setup_overdue none (some deadline) now = leb deadline now

unfoldable pub is_expired : EstablishedControl → ℕ → Option ExpiredReason
is_expired e now =
    if e.force_expired
    then some ExpiredReason.forced
    else if setup_overdue e.pong_at_auth.session_expire_at e.session_setup_deadline now
    then some ExpiredReason.session_not_setup
    else if has_flow_changed e
    then some ExpiredReason.flow_changed
    else none

unfoldable pub round_trip_time : Pong → ℕ → ℕ
round_trip_time p now = (max now p.request_now - p.request_now) % 2 ^ 32

-- The expiry on the local clock.
unfoldable pub local_expiry : Pong → ℕ → ℕ → ℕ
unfolding minus_u64
local_expiry p expires_at rtt =
    minus_u64 ((p.request_now + max (minus_u64 expires_at p.server_now) rtt) % 2 ^ 64) rtt

unfoldable pub record_pong : EstablishedControl → Pong → ℕ → EstablishedControl
record_pong e p now =
    let rtt = round_trip_time p now in
    elim p.session_expire_at [
      | none ↦ record e { current_ping = some rtt }
      | some expires_at ↦ record e {
        current_ping = some rtt;
        pong_at_auth = record e.pong_at_auth { session_expire_at = some expires_at };
        session_setup_deadline = none;
        registered = record e.registered { expires_at = local_expiry p expires_at rtt };
      }
    ]

-- What `recv_feed_msg` does with a response.
unfoldable pub record_response : EstablishedControl → ControlResponse → ℕ → EstablishedControl
record_response e (ControlResponse.agent_registered r) now = record e { registered = r }
record_response e (ControlResponse.pong p) now = record_pong e p now
record_response e (ControlResponse.check_mtu_received_ack ack) now = record e {
  pending_mtu_data = record_check_mtu_received_ack e.pending_mtu_data ack;
}
record_response e (ControlResponse.mtu_test_packet p) now = record e {
  pending_mtu_data = record_mtu_test_packet e.pending_mtu_data p;
}
record_response e (ControlResponse.mtu_test_fail fail) now = record e {
  pending_mtu_data = record_mtu_test_fail e.pending_mtu_data fail;
}
record_response e r now = e

-- A pong is kept as the latest.
unfoldable pub latest_pong : ConnectedControl → ControlFeed → ConnectedControl
latest_pong c (ControlFeed.response m) = elim m.content [
  | ControlResponse.pong p ↦ record c { pong_latest = p }
  | _ ↦ c
]
latest_pong c feed = c

-- `ConnectedControl::recv`: the message, or why there is none.
pub data Receipt : Type 0 where
  received : ConnectedControl → ControlFeed → Receipt
  invalid_remote : (expected got : SocketAddr) → Receipt
  failed_to_read_control_feed : IoError → Receipt
  -- `recv_from` failed.
  io_error : Receipt
  aborted : Receipt

abbrev receipt_of : ConnectedControl → Result (ControlFeed × Bytes) → Receipt
receipt_of c (ok (feed, rest)) = Receipt.received (latest_pong c feed) feed
receipt_of c (err e) = Receipt.failed_to_read_control_feed e
receipt_of c panicked = Receipt.aborted

-- The buffer holds 1024 bytes of a datagram.
pub recv : Wire → ConnectedControl → Bytes → SocketAddr → Receipt
recv wire c datagram remote =
    if eq_addr remote c.control_addr
    then receipt_of c (read_feed wire (take 1_024 datagram))
    else Receipt.invalid_remote c.control_addr remote

-- `EstablishedControl::recv_feed_msg`, from what `recv` returned.
unfoldable pub recv_feed_msg : EstablishedControl → Receipt → ℕ → EstablishedControl
recv_feed_msg e (Receipt.received c (ControlFeed.response m)) now =
    record_response (record e { conn = c }) m.content now
recv_feed_msg e (Receipt.received c feed) now = record e { conn = c }
recv_feed_msg e r now = e

-- `authenticate`, from the registration that the connection's `authenticate` returned.
unfoldable pub authenticated : EstablishedControl → AgentRegistered → ℕ → EstablishedControl
authenticated e registered now =
    let expire_at = or_else e.pong_at_auth.session_expire_at e.conn.pong_latest.session_expire_at in
    record e {
      force_expired = false;
      registered = registered;
      pong_at_auth = record e.conn.pong_latest { session_expire_at = expire_at };
      session_setup_deadline = setup_deadline expire_at now;
    }

unfoldable pub into_established : ConnectedControl → AgentRegistered → ℕ → EstablishedControl
into_established c registered now = record {
  conn = c;
  pong_at_auth = c.pong_latest;
  session_setup_deadline = setup_deadline c.pong_latest.session_expire_at now;
  registered = registered;
  current_ping = none;
  force_expired = false;
  pending_mtu_data = no_mtu_data;
  known_mtu_data = no_mtu_data;
}

-- A new connection takes over; the deadline stays as it was.
unfoldable pub reset_established :
    ConnectedControl → EstablishedControl → AgentRegistered → EstablishedControl
reset_established c e registered = record e {
  registered = registered;
  pong_at_auth = record c.pong_latest {
    session_expire_at = or_else e.pong_at_auth.session_expire_at c.pong_latest.session_expire_at;
  };
  conn = c;
  current_ping = none;
  force_expired = false;
  pending_mtu_data = no_mtu_data;
  known_mtu_data = no_mtu_data;
}

unfoldable pub set_expired : EstablishedControl → EstablishedControl
set_expired e = record e { force_expired = true }

unfoldable pub commit_pending_mtu_data : EstablishedControl → EstablishedControl
commit_pending_mtu_data e = record e { known_mtu_data = e.pending_mtu_data }

unfoldable pub clear_pending_mtu_data : EstablishedControl → EstablishedControl
clear_pending_mtu_data e = record e { pending_mtu_data = no_mtu_data }

unfoldable pub clear_known_mtu_data : EstablishedControl → EstablishedControl
clear_known_mtu_data e = record e { known_mtu_data = no_mtu_data }

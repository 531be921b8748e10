-- ===== src/Proto/Request.antt =====
-- packages/agent_proto/src/control_messages.rs: what the agent asks of a tunnel server, but for the
-- registration (`Proto.Register`).
pub mod Payloads
pub mod Ids
pub mod Encoding
use playit_agent.Common.{ℕ, ◌+◌, ◌^◌, ◌≤◌, Option, none, some, leb, ltb, ◌==◌, ◌||◌, if◌then◌else◌}
use playit_agent.Io.{
  ok, err, other, invalid_data, Written, Reader, ◌▷◌, no_bytes, pure, fail, ◌>>=◌, ◌>>◌,
}
use playit_agent.Wire.{Wire}
use playit_agent.Proto.Session.{
  AgentSessionId, PortRange, write_session_id, read_session_id, write_port_range, read_port_range,
}
use playit_agent.Proto.Mtu.{write_mtu_pattern, verify_mtu_pattern}
use playit_agent.Proto.Register.{
  AgentRegister, write_register, read_register, read_register_v1, upgrade,
}

pub record CheckMtuReceived : Type 0 where
  pub id : ℕ
  pub message_size : ℕ

pub record SendMtuTest : Type 0 where
  pub id : ℕ
  pub data_center_id : ℕ
  pub udp_payload_length : ℕ

pub record AgentCheckPortMapping : Type 0 where
  pub agent_session_id : AgentSessionId
  pub port_range : PortRange

pub record Ping : Type 0 where
  pub now : ℕ
  pub current_ping : Option ℕ
  pub session_id : Option AgentSessionId

pub data ControlRequest : Type 0 where
  ping : Ping → ControlRequest
  agent_register : AgentRegister → ControlRequest
  agent_keep_alive : AgentSessionId → ControlRequest
  setup_udp_channel : AgentSessionId → ControlRequest
  agent_check_port_mapping : AgentCheckPortMapping → ControlRequest
  check_mtu_received : CheckMtuReceived → ControlRequest
  send_mtu_test : SendMtuTest → ControlRequest

-- `#[repr(u32)]`, numbered from 1.
pub data ControlRequestId : Type 0 where
  ping_v1 agent_register_v1 agent_keep_alive_v1 setup_udp_channel_v1 : ControlRequestId
  agent_check_port_mapping_v1 ping_v2 agent_register_v2 check_mtu_received_v1 : ControlRequestId
  send_mtu_test_v1 end : ControlRequestId

-- `id as u32`
abbrev pub id_num : ControlRequestId → ℕ
id_num ControlRequestId.ping_v1 = 1
id_num ControlRequestId.agent_register_v1 = 2
id_num ControlRequestId.agent_keep_alive_v1 = 3
id_num ControlRequestId.setup_udp_channel_v1 = 4
id_num ControlRequestId.agent_check_port_mapping_v1 = 5
id_num ControlRequestId.ping_v2 = 6
id_num ControlRequestId.agent_register_v2 = 7
id_num ControlRequestId.check_mtu_received_v1 = 8
id_num ControlRequestId.send_mtu_test_v1 = 9
id_num ControlRequestId.end = 10

-- `std::mem::transmute::<u32, ControlRequestId>`, which is defined on the numbers 1 to 10 alone.
-- The model answers `end` elsewhere; `from_num` never asks.
abbrev pub transmute_id : ℕ → ControlRequestId
transmute_id n =
    if n == 1
    then ControlRequestId.ping_v1
    else if n == 2
    then ControlRequestId.agent_register_v1
    else if n == 3
    then ControlRequestId.agent_keep_alive_v1
    else if n == 4
    then ControlRequestId.setup_udp_channel_v1
    else if n == 5
    then ControlRequestId.agent_check_port_mapping_v1
    else if n == 6
    then ControlRequestId.ping_v2
    else if n == 7
    then ControlRequestId.agent_register_v2
    else if n == 8
    then ControlRequestId.check_mtu_received_v1
    else if n == 9
    then ControlRequestId.send_mtu_test_v1
    else ControlRequestId.end

unfoldable pub from_num : ℕ → Option ControlRequestId
from_num num =
    if leb (id_num ControlRequestId.end) num || num == 0 then none else some (transmute_id num)

-- `Option::ok_or_else` inside a reader.
abbrev pub or_invalid : Option ControlRequestId → Reader ControlRequestId
or_invalid none = fail invalid_data
or_invalid (some id) = pure id

module _ (wire : Wire) where
  open wire use {write_uint, read_uint, write_option, read_option}

  pub write_request_id : ControlRequestId → Written
  write_request_id id = write_uint 4 (id_num id)

  pub read_request_id : Reader ControlRequestId
  read_request_id = do v ← read_uint 4; or_invalid (from_num v)

  pub write_check_mtu_received : CheckMtuReceived → Written
  write_check_mtu_received m =
      write_uint 8 m.id ▷ write_uint 4 m.message_size ▷ write_mtu_pattern m.message_size ▷ no_bytes

  pub read_check_mtu_received : Reader CheckMtuReceived
  read_check_mtu_received = do
    id ← read_uint 8
    message_size ← read_uint 4
    _ ← verify_mtu_pattern message_size
    pure (record { id = id; message_size = message_size })

  pub write_send_mtu_test : SendMtuTest → Written
  write_send_mtu_test m =
      write_uint 8 m.id
      ▷ write_uint 4 m.data_center_id
      ▷ write_uint 4 m.udp_payload_length
      ▷ no_bytes

  pub read_send_mtu_test : Reader SendMtuTest
  read_send_mtu_test = do
    id ← read_uint 8
    data_center_id ← read_uint 4
    udp_payload_length ← read_uint 4
    pure (record {
      id = id;
      data_center_id = data_center_id;
      udp_payload_length = udp_payload_length;
    })

  pub write_check_port_mapping : AgentCheckPortMapping → Written
  write_check_port_mapping m =
      write_session_id wire m.agent_session_id ▷ write_port_range wire m.port_range ▷ no_bytes

  pub read_check_port_mapping : Reader AgentCheckPortMapping
  read_check_port_mapping = do
    agent_session_id ← read_session_id wire
    port_range ← read_port_range wire
    pure (record { agent_session_id = agent_session_id; port_range = port_range })

  pub write_ping : Ping → Written
  write_ping p =
      write_uint 8 p.now
      ▷ write_option (write_uint 4) p.current_ping
      ▷ write_option (write_session_id wire) p.session_id
      ▷ no_bytes

  pub read_ping : Reader Ping
  read_ping = do
    now ← read_uint 8
    current_ping ← read_option (read_uint 4)
    session_id ← read_option (read_session_id wire)
    pure (record { now = now; current_ping = current_ping; session_id = session_id })

  register_id : AgentRegister → ControlRequestId
  register_id r =
      if leb r.proto_version 1
      then ControlRequestId.agent_register_v1
      else ControlRequestId.agent_register_v2

  -- An id, then what it announces.
  pub write_request : ControlRequest → Written
  unfolding register_id
  write_request (ControlRequest.ping p) =
      write_request_id ControlRequestId.ping_v2 ▷ write_ping p ▷ no_bytes
  write_request (ControlRequest.agent_register r) =
      write_request_id (register_id r) ▷ write_register wire r ▷ no_bytes
  write_request (ControlRequest.agent_keep_alive s) =
      write_request_id ControlRequestId.agent_keep_alive_v1 ▷ write_session_id wire s ▷ no_bytes
  write_request (ControlRequest.setup_udp_channel s) =
      write_request_id ControlRequestId.setup_udp_channel_v1 ▷ write_session_id wire s ▷ no_bytes
  write_request (ControlRequest.agent_check_port_mapping m) =
      write_request_id ControlRequestId.agent_check_port_mapping_v1
      ▷ write_check_port_mapping m
      ▷ no_bytes
  write_request (ControlRequest.check_mtu_received m) =
      write_request_id ControlRequestId.check_mtu_received_v1
      ▷ write_check_mtu_received m
      ▷ no_bytes
  write_request (ControlRequest.send_mtu_test m) =
      write_request_id ControlRequestId.send_mtu_test_v1 ▷ write_send_mtu_test m ▷ no_bytes

  -- What follows each id. The first ping format has a time alone.
  request_body : ControlRequestId → Reader ControlRequest
  request_body ControlRequestId.ping_v2 = do p ← read_ping; pure (ControlRequest.ping p)
  request_body ControlRequestId.agent_register_v1 = do
    r ← read_register_v1 wire
    pure (ControlRequest.agent_register (upgrade r))
  request_body ControlRequestId.agent_register_v2 = do
    r ← read_register wire
    pure (ControlRequest.agent_register r)
  request_body ControlRequestId.agent_keep_alive_v1 = do
    s ← read_session_id wire
    pure (ControlRequest.agent_keep_alive s)
  request_body ControlRequestId.setup_udp_channel_v1 = do
    s ← read_session_id wire
    pure (ControlRequest.setup_udp_channel s)
  request_body ControlRequestId.agent_check_port_mapping_v1 = do
    m ← read_check_port_mapping
    pure (ControlRequest.agent_check_port_mapping m)
  request_body ControlRequestId.check_mtu_received_v1 = do
    m ← read_check_mtu_received
    pure (ControlRequest.check_mtu_received m)
  request_body ControlRequestId.send_mtu_test_v1 = do
    m ← read_send_mtu_test
    pure (ControlRequest.send_mtu_test m)
  request_body ControlRequestId.ping_v1 = do
    now ← read_uint 8
    pure (ControlRequest.ping (record { now = now; current_ping = none; session_id = none }))
  request_body ControlRequestId.end = fail other

  pub read_request : Reader ControlRequest
  read_request = do id ← read_request_id; request_body id

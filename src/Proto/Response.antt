-- ===== src/Proto/Response.antt =====
-- packages/agent_proto/src/control_messages.rs: what a tunnel server answers.
pub mod Payloads
pub mod Encoding
use playit_agent.Common.{ℕ, Option, none, some, leb, ◌==◌, if◌then◌else◌}
use playit_agent.Io.{
  ok, err, panicked, other, Bytes, Written, Reader, ◌▷◌, no_bytes, write_all, pure, fail, ◌>>=◌,
}
use playit_agent.Wire.{Wire, SocketAddr}
use playit_agent.Proto.Session.{
  AgentSessionId, PortRange, write_session_id, read_session_id, write_port_range, read_port_range,
}

pub record CheckMtuReceivedAck : Type 0 where
  pub id : ℕ
  pub message_length : ℕ
  pub ip_header_length : ℕ
  pub udp_payload_length : ℕ

pub record MtuTestPacket : Type 0 where
  pub data_center_id : ℕ
  pub udp_payload_length : ℕ

-- `#[repr(u32)]`, numbered from 0.
pub data MtuTestFailCode : Type 0 where
  invalid_udp_payload_length invalid_dc_id unknown : MtuTestFailCode

abbrev pub code_num : MtuTestFailCode → ℕ
code_num MtuTestFailCode.invalid_udp_payload_length = 0
code_num MtuTestFailCode.invalid_dc_id = 1
code_num MtuTestFailCode.unknown = 2

pub record MtuTestFail : Type 0 where
  pub error_code : MtuTestFailCode

pub data AgentPortMappingFound : Type 0 where
  to_agent : AgentSessionId → AgentPortMappingFound

pub record AgentPortMapping : Type 0 where
  pub range : PortRange
  pub found : Option AgentPortMappingFound

-- The `Arc` around the token only shares it.
pub record UdpChannelDetails : Type 0 where
  pub tunnel_addr : SocketAddr
  pub token : Bytes

pub record Pong : Type 0 where
  pub request_now : ℕ
  pub server_now : ℕ
  pub server_id : ℕ
  pub data_center_id : ℕ
  pub client_addr : SocketAddr
  pub tunnel_addr : SocketAddr
  pub session_expire_at : Option ℕ

pub record AgentRegistered : Type 0 where
  pub id : AgentSessionId
  pub expires_at : ℕ

pub data ControlResponse : Type 0 where
  pong : Pong → ControlResponse
  invalid_signature unauthorized request_queued try_again_later : ControlResponse
  agent_registered : AgentRegistered → ControlResponse
  agent_port_mapping : AgentPortMapping → ControlResponse
  udp_channel_details : UdpChannelDetails → ControlResponse
  check_mtu_received_ack : CheckMtuReceivedAck → ControlResponse
  mtu_test_packet : MtuTestPacket → ControlResponse
  mtu_test_fail : MtuTestFail → ControlResponse

-- The count of a write whose `?` result is dropped.
abbrev pub uncounted : Written → Written
uncounted (ok (bs, n)) = ok (bs, 0)
uncounted (err e) = err e
uncounted panicked = panicked

module _ (wire : Wire) where
  open wire use {
    read_be, write_uint, read_uint, write_option, read_option, write_socket_addr, read_socket_addr,
    write_vec, read_vec,
  }

  pub write_mtu_ack : CheckMtuReceivedAck → Written
  write_mtu_ack m =
      write_uint 8 m.id
      ▷ write_uint 4 m.message_length
      ▷ write_uint 4 m.ip_header_length
      ▷ write_uint 4 m.udp_payload_length
      ▷ no_bytes

  pub read_mtu_ack : Reader CheckMtuReceivedAck
  read_mtu_ack = do
    id ← read_uint 8
    message_length ← read_uint 4
    ip_header_length ← read_uint 4
    udp_payload_length ← read_uint 4
    pure (record {
      id = id;
      message_length = message_length;
      ip_header_length = ip_header_length;
      udp_payload_length = udp_payload_length;
    })

  -- The count of the first field is dropped.
  pub write_mtu_test_packet : MtuTestPacket → Written
  write_mtu_test_packet m =
      uncounted (write_uint 4 m.data_center_id) ▷ write_uint 4 m.udp_payload_length

  pub read_mtu_test_packet : Reader MtuTestPacket
  read_mtu_test_packet = do
    data_center_id ← read_uint 4
    udp_payload_length ← read_uint 4
    pure (record { data_center_id = data_center_id; udp_payload_length = udp_payload_length })

  pub write_fail_code : MtuTestFailCode → Written
  write_fail_code c = write_uint 4 (code_num c)

  -- Below the number of `unknown` the cast gives the code of that number.
  fail_code_of : ℕ → MtuTestFailCode
  fail_code_of num =
      if leb (code_num MtuTestFailCode.unknown) num
      then MtuTestFailCode.unknown
      else if num == 0
      then MtuTestFailCode.invalid_udp_payload_length
      else MtuTestFailCode.invalid_dc_id

  pub read_fail_code : Reader MtuTestFailCode
  unfolding fail_code_of
  read_fail_code = do num ← read_uint 4; pure (fail_code_of num)

  pub write_mtu_test_fail : MtuTestFail → Written
  write_mtu_test_fail m = write_fail_code m.error_code

  pub read_mtu_test_fail : Reader MtuTestFail
  read_mtu_test_fail = do error_code ← read_fail_code; pure (record { error_code = error_code })

  pub write_found : AgentPortMappingFound → Written
  write_found (AgentPortMappingFound.to_agent id) =
      write_uint 4 1 ▷ write_session_id wire id ▷ no_bytes

  found_body : ℕ → Reader AgentPortMappingFound
  found_body n =
      if n == 1
      then (read_session_id wire >>= (λ id. pure (AgentPortMappingFound.to_agent id)))
      else fail other

  pub read_found : Reader AgentPortMappingFound
  unfolding found_body
  read_found = do n ← read_be 4; found_body n

  pub write_port_mapping : AgentPortMapping → Written
  write_port_mapping m = write_port_range wire m.range ▷ write_option write_found m.found ▷ no_bytes

  pub read_port_mapping : Reader AgentPortMapping
  read_port_mapping = do
    range ← read_port_range wire
    found ← read_option read_found
    pure (record { range = range; found = found })

  pub write_channel_details : UdpChannelDetails → Written
  write_channel_details m = write_socket_addr m.tunnel_addr ▷ write_vec m.token ▷ no_bytes

  pub read_channel_details : Reader UdpChannelDetails
  read_channel_details = do
    tunnel_addr ← read_socket_addr
    token ← read_vec
    pure (record { tunnel_addr = tunnel_addr; token = token })

  pub write_pong : Pong → Written
  write_pong m =
      write_uint 8 m.request_now
      ▷ write_uint 8 m.server_now
      ▷ write_uint 8 m.server_id
      ▷ write_uint 4 m.data_center_id
      ▷ write_socket_addr m.client_addr
      ▷ write_socket_addr m.tunnel_addr
      ▷ write_option (write_uint 8) m.session_expire_at
      ▷ no_bytes

  unfoldable pub read_pong : Reader Pong
  read_pong = do
    request_now ← read_be 8
    server_now ← read_be 8
    server_id ← read_be 8
    data_center_id ← read_be 4
    client_addr ← read_socket_addr
    tunnel_addr ← read_socket_addr
    session_expire_at ← read_option (read_uint 8)
    pure (record {
      request_now = request_now;
      server_now = server_now;
      server_id = server_id;
      data_center_id = data_center_id;
      client_addr = client_addr;
      tunnel_addr = tunnel_addr;
      session_expire_at = session_expire_at;
    })

  pub write_registered : AgentRegistered → Written
  write_registered m = write_session_id wire m.id ▷ write_uint 8 m.expires_at ▷ no_bytes

  pub read_registered : Reader AgentRegistered
  read_registered = do
    id ← read_session_id wire
    expires_at ← read_be 8
    pure (record { id = id; expires_at = expires_at })

  pub write_response : ControlResponse → Written
  write_response (ControlResponse.pong m) = write_uint 4 1 ▷ write_pong m ▷ no_bytes
  write_response ControlResponse.invalid_signature = write_uint 4 2 ▷ no_bytes
  write_response ControlResponse.unauthorized = write_uint 4 3 ▷ no_bytes
  write_response ControlResponse.request_queued = write_uint 4 4 ▷ no_bytes
  write_response ControlResponse.try_again_later = write_uint 4 5 ▷ no_bytes
  write_response (ControlResponse.agent_registered m) =
      write_uint 4 6 ▷ write_registered m ▷ no_bytes
  write_response (ControlResponse.agent_port_mapping m) =
      write_uint 4 7 ▷ write_port_mapping m ▷ no_bytes
  write_response (ControlResponse.udp_channel_details m) =
      write_uint 4 8 ▷ write_channel_details m ▷ no_bytes
  write_response (ControlResponse.check_mtu_received_ack m) =
      write_uint 4 9 ▷ write_mtu_ack m ▷ no_bytes
  write_response (ControlResponse.mtu_test_packet m) =
      write_uint 4 10 ▷ write_mtu_test_packet m ▷ no_bytes
  write_response (ControlResponse.mtu_test_fail m) =
      write_uint 4 11 ▷ write_mtu_test_fail m ▷ no_bytes

  -- What follows each number.
  unfoldable pub response_body : ℕ → Reader ControlResponse
  response_body n =
      if n == 1
      then (read_pong >>= (λ m. pure (ControlResponse.pong m)))
      else if n == 2
      then pure ControlResponse.invalid_signature
      else if n == 3
      then pure ControlResponse.unauthorized
      else if n == 4
      then pure ControlResponse.request_queued
      else if n == 5
      then pure ControlResponse.try_again_later
      else if n == 6
      then (read_registered >>= (λ m. pure (ControlResponse.agent_registered m)))
      else if n == 7
      then (read_port_mapping >>= (λ m. pure (ControlResponse.agent_port_mapping m)))
      else if n == 8
      then (read_channel_details >>= (λ m. pure (ControlResponse.udp_channel_details m)))
      else if n == 9
      then (read_mtu_ack >>= (λ m. pure (ControlResponse.check_mtu_received_ack m)))
      else if n == 10
      then (read_mtu_test_packet >>= (λ m. pure (ControlResponse.mtu_test_packet m)))
      else if n == 11
      then (read_mtu_test_fail >>= (λ m. pure (ControlResponse.mtu_test_fail m)))
      else fail other

  unfoldable pub read_response : Reader ControlResponse
  unfolding response_body
  read_response = do n ← read_be 4; response_body n

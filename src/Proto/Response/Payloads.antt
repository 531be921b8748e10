-- ===== src/Proto/Response/Payloads.antt =====
-- Each payload of a response is read back from its bytes.
use playit_agent.Common.{◌^◌, ◌<◌, ◌≡◌, refl, arith, length}
use playit_agent.Io.RoundTrip.{RoundTrip, done, then_field, last_field, map_field, then_uncounted}
use playit_agent.Wire.{Wire, WireLaws, InWidth, ValidSocketAddr, AllBytes}
use playit_agent.Wire.Fields.{be-RoundTrip, uint-RoundTrip, option-RoundTrip, ValidOption}
use playit_agent.Proto.Session.{
  ValidSession, ValidPortRange, session_id-RoundTrip, port_range-RoundTrip,
}
use playit_agent.Proto.Response.{
  CheckMtuReceivedAck, MtuTestPacket, MtuTestFailCode, MtuTestFail, AgentPortMappingFound,
  AgentPortMapping, UdpChannelDetails, Pong, AgentRegistered, code_num, fail_code_of, found_body,
  write_mtu_ack, read_mtu_ack, write_mtu_test_packet, read_mtu_test_packet, write_fail_code,
  read_fail_code, write_mtu_test_fail, read_mtu_test_fail, write_found, read_found,
  write_port_mapping, read_port_mapping, write_channel_details, read_channel_details, write_pong,
  read_pong, write_registered, read_registered,
}

pub record ValidAck (m : CheckMtuReceivedAck) : Type 0 where
  pub id : InWidth 8 m.id
  pub message_length : InWidth 4 m.message_length
  pub ip_header_length : InWidth 4 m.ip_header_length
  pub udp_payload_length : InWidth 4 m.udp_payload_length

pub record ValidMtuTest (m : MtuTestPacket) : Type 0 where
  pub data_center_id : InWidth 4 m.data_center_id
  pub udp_payload_length : InWidth 4 m.udp_payload_length

abbrev pub ValidFound : AgentPortMappingFound → Type 0
ValidFound (AgentPortMappingFound.to_agent id) = ValidSession id

pub record ValidPortMapping (m : AgentPortMapping) : Type 0 where
  pub range : ValidPortRange m.range
  pub found : ValidOption ValidFound m.found

pub record ValidDetails (m : UdpChannelDetails) : Type 0 where
  pub tunnel_addr : ValidSocketAddr m.tunnel_addr
  pub token_length : length m.token < 2 ^ 32
  pub token : AllBytes m.token

pub record ValidPong (m : Pong) : Type 0 where
  pub request_now : InWidth 8 m.request_now
  pub server_now : InWidth 8 m.server_now
  pub server_id : InWidth 8 m.server_id
  pub data_center_id : InWidth 4 m.data_center_id
  pub client_addr : ValidSocketAddr m.client_addr
  pub tunnel_addr : ValidSocketAddr m.tunnel_addr
  pub session_expire_at : ValidOption (InWidth 8) m.session_expire_at

pub record ValidRegistered (m : AgentRegistered) : Type 0 where
  pub id : ValidSession m.id
  pub expires_at : InWidth 8 m.expires_at

module _ (wire : Wire) (laws : WireLaws wire) where
  pub mtu_ack-RoundTrip :
      (m : CheckMtuReceivedAck)
      → ValidAck m
      → RoundTrip 0 (write_mtu_ack wire m) (read_mtu_ack wire) m
  unfolding write_mtu_ack read_mtu_ack
  mtu_ack-RoundTrip m v = then_field _ (uint-RoundTrip wire laws 8 m.id v.id) (
      then_field _ (uint-RoundTrip wire laws 4 m.message_length v.message_length) (
        then_field _ (uint-RoundTrip wire laws 4 m.ip_header_length v.ip_header_length) (
          then_field _ (uint-RoundTrip wire laws 4 m.udp_payload_length v.udp_payload_length)
            (done m))))

  -- An MTU test packet with fields in range is read back, but the count that its writer returns leaves out the four
  -- bytes of its first field.
  pub mtu_test_packet-RoundTrip :
      (m : MtuTestPacket)
      → ValidMtuTest m
      → RoundTrip 4 (write_mtu_test_packet wire m) (read_mtu_test_packet wire) m
  unfolding write_mtu_test_packet read_mtu_test_packet
  mtu_test_packet-RoundTrip m v =
      rw (laws.write_uint-eq 4 m.data_center_id v.data_center_id, laws.read_uint-eq 4)
        (then_uncounted 4 0 _ _ _ (laws.length-be_bytes 4 m.data_center_id)
          (λ rest. laws.read-be_bytes 4 m.data_center_id rest v.data_center_id)
          (map_field _ (be-RoundTrip wire laws 4 m.udp_payload_length v.udp_payload_length)))

  fail_code_of-code_num : (c : MtuTestFailCode) → fail_code_of wire (code_num c) ≡ c
  unfolding fail_code_of
  fail_code_of-code_num MtuTestFailCode.unknown = refl
  fail_code_of-code_num _ = refl

  code_num-InWidth : (c : MtuTestFailCode) → InWidth 4 (code_num c)
  code_num-InWidth MtuTestFailCode.unknown = omega arith
  code_num-InWidth _ = omega arith

  pub mtu_test_fail-RoundTrip :
      (m : MtuTestFail) → RoundTrip 0 (write_mtu_test_fail wire m) (read_mtu_test_fail wire) m
  unfolding write_mtu_test_fail read_mtu_test_fail write_fail_code read_fail_code
  mtu_test_fail-RoundTrip m = map_field _ (
      rw (fail_code_of-code_num m.error_code) at (
        map_field (fail_code_of wire)
          (uint-RoundTrip wire laws 4 (code_num m.error_code) (code_num-InWidth m.error_code))))

  pub found-RoundTrip :
      (m : AgentPortMappingFound)
      → ValidFound m
      → RoundTrip 0 (write_found wire m) (read_found wire) m
  unfolding write_found read_found found_body
  found-RoundTrip (AgentPortMappingFound.to_agent id) v =
      then_field _ (be-RoundTrip wire laws 4 1 (omega arith))
        (last_field _ (session_id-RoundTrip wire laws id v))

  pub port_mapping-RoundTrip :
      (m : AgentPortMapping)
      → ValidPortMapping m
      → RoundTrip 0 (write_port_mapping wire m) (read_port_mapping wire) m
  unfolding write_port_mapping read_port_mapping
  port_mapping-RoundTrip m v = then_field _ (port_range-RoundTrip wire laws m.range v.range) (
      then_field _ (option-RoundTrip wire laws ValidFound _ _ found-RoundTrip m.found v.found)
        (done m))

  pub channel_details-RoundTrip :
      (m : UdpChannelDetails)
      → ValidDetails m
      → RoundTrip 0 (write_channel_details wire m) (read_channel_details wire) m
  unfolding write_channel_details read_channel_details
  channel_details-RoundTrip m v =
      then_field _ (laws.socket_addr-RoundTrip m.tunnel_addr v.tunnel_addr)
        (then_field _ (laws.vec-RoundTrip m.token v.token_length v.token) (done m))

  pub pong-RoundTrip : (m : Pong) → ValidPong m → RoundTrip 0 (write_pong wire m) (read_pong wire) m
  unfolding write_pong read_pong
  pong-RoundTrip m v = then_field _ (be-RoundTrip wire laws 8 m.request_now v.request_now) (
      then_field _ (be-RoundTrip wire laws 8 m.server_now v.server_now) (
        then_field _ (be-RoundTrip wire laws 8 m.server_id v.server_id) (
          then_field _ (be-RoundTrip wire laws 4 m.data_center_id v.data_center_id) (
            then_field _ (laws.socket_addr-RoundTrip m.client_addr v.client_addr) (
              then_field _ (laws.socket_addr-RoundTrip m.tunnel_addr v.tunnel_addr) (
                then_field _
                  (option-RoundTrip wire laws (InWidth 8) _ _ (uint-RoundTrip wire laws 8)
                    m.session_expire_at v.session_expire_at)
                  (done m)))))))

  pub registered-RoundTrip :
      (m : AgentRegistered)
      → ValidRegistered m
      → RoundTrip 0 (write_registered wire m) (read_registered wire) m
  unfolding write_registered read_registered
  registered-RoundTrip m v =
      then_field _ (session_id-RoundTrip wire laws m.id v.id)
        (then_field _ (be-RoundTrip wire laws 8 m.expires_at v.expires_at) (done m))

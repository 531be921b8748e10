-- ===== src/Proto/Request/Payloads.antt =====
-- Each request is read back from its bytes.
use playit_agent.Common.{◌≤◌, arith}
use playit_agent.Io.RoundTrip.{RoundTrip, done, then_field}
use playit_agent.Wire.{Wire, WireLaws, InWidth}
use playit_agent.Wire.Fields.{uint-RoundTrip, option-RoundTrip, ValidOption}
use playit_agent.Proto.Session.{
  ValidSession, ValidPortRange, session_id-RoundTrip, port_range-RoundTrip,
}
use playit_agent.Proto.Mtu.Verify.{mtu_pattern-RoundTrip}
use playit_agent.Proto.Request.{
  CheckMtuReceived, SendMtuTest, AgentCheckPortMapping, Ping, write_check_mtu_received,
  read_check_mtu_received, write_send_mtu_test, read_send_mtu_test, write_check_port_mapping,
  read_check_port_mapping, write_ping, read_ping,
}

-- The pattern is at most 2048 bytes long.
pub record ValidCheckMtu (m : CheckMtuReceived) : Type 0 where
  pub id : InWidth 8 m.id
  pub message_size : m.message_size ≤ 2048

pub record ValidSendMtu (m : SendMtuTest) : Type 0 where
  pub id : InWidth 8 m.id
  pub data_center_id : InWidth 4 m.data_center_id
  pub udp_payload_length : InWidth 4 m.udp_payload_length

pub record ValidMapping (m : AgentCheckPortMapping) : Type 0 where
  pub agent_session_id : ValidSession m.agent_session_id
  pub port_range : ValidPortRange m.port_range

pub record ValidPing (p : Ping) : Type 0 where
  pub now : InWidth 8 p.now
  pub current_ping : ValidOption (InWidth 4) p.current_ping
  pub session_id : ValidOption ValidSession p.session_id

module _ (wire : Wire) (laws : WireLaws wire) where
  pub check_mtu_received-RoundTrip :
      (m : CheckMtuReceived)
      → ValidCheckMtu m
      → RoundTrip 0 (write_check_mtu_received wire m) (read_check_mtu_received wire) m
  unfolding write_check_mtu_received read_check_mtu_received
  check_mtu_received-RoundTrip m v = then_field _ (uint-RoundTrip wire laws 8 m.id v.id) (
      then_field _ (uint-RoundTrip wire laws 4 m.message_size (omega (arith, v.message_size)))
        (then_field _ (mtu_pattern-RoundTrip m.message_size v.message_size) (done m)))

  pub send_mtu_test-RoundTrip :
      (m : SendMtuTest)
      → ValidSendMtu m
      → RoundTrip 0 (write_send_mtu_test wire m) (read_send_mtu_test wire) m
  unfolding write_send_mtu_test read_send_mtu_test
  send_mtu_test-RoundTrip m v = then_field _ (uint-RoundTrip wire laws 8 m.id v.id) (
      then_field _ (uint-RoundTrip wire laws 4 m.data_center_id v.data_center_id) (
        then_field _ (uint-RoundTrip wire laws 4 m.udp_payload_length v.udp_payload_length)
          (done m)))

  pub check_port_mapping-RoundTrip :
      (m : AgentCheckPortMapping)
      → ValidMapping m
      → RoundTrip 0 (write_check_port_mapping wire m) (read_check_port_mapping wire) m
  unfolding write_check_port_mapping read_check_port_mapping
  check_port_mapping-RoundTrip m v =
      then_field _ (session_id-RoundTrip wire laws m.agent_session_id v.agent_session_id)
        (then_field _ (port_range-RoundTrip wire laws m.port_range v.port_range) (done m))

  pub ping-RoundTrip : (p : Ping) → ValidPing p → RoundTrip 0 (write_ping wire p) (read_ping wire) p
  unfolding write_ping read_ping
  ping-RoundTrip p v = then_field _ (uint-RoundTrip wire laws 8 p.now v.now) (
      then_field _
        (option-RoundTrip wire laws (InWidth 4) _ _ (uint-RoundTrip wire laws 4) p.current_ping
          v.current_ping)
        (then_field _
          (option-RoundTrip wire laws ValidSession _ _ (session_id-RoundTrip wire laws) p.session_id
            v.session_id)
          (done p)))

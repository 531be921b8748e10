-- ===== src/Proto/Request/Encoding.antt =====
-- A request is read back from its bytes, a registration of version 0 as one of version 1.
use playit_agent.Common.{◌<◌, refl, inl, inr, leb, leb→le, Bool-cases, arith}
use playit_agent.Io.{pure, ◌>>=◌}
use playit_agent.Io.RoundTrip.{RoundTrip, then_field, last_field}
use playit_agent.Wire.{Wire, WireLaws, InWidth}
use playit_agent.Wire.Fields.{uint-RoundTrip}
use playit_agent.Proto.Session.{ValidSession, session_id-RoundTrip}
use playit_agent.Proto.Register.{AgentRegister, upgrade}
use playit_agent.Proto.Register.Encoding.{ValidRegister, received, register-RoundTrip}
use playit_agent.Proto.Register.First.{register-as_v1}
use playit_agent.Proto.Request.{
  ControlRequestId, ControlRequest, id_num, write_request_id, read_request_id, register_id,
  request_body, write_request, read_request,
}
use playit_agent.Proto.Request.Ids.{from_num_iff}
use playit_agent.Proto.Request.Payloads.{
  ValidCheckMtu, ValidSendMtu, ValidMapping, ValidPing, check_mtu_received-RoundTrip,
  send_mtu_test-RoundTrip, check_port_mapping-RoundTrip, ping-RoundTrip,
}

-- The ranges of the Rust types, room for the version bit, and a pattern of at most 2048 bytes.
abbrev pub ValidRequest : ControlRequest → Type 0
ValidRequest (ControlRequest.ping p) = ValidPing p
ValidRequest (ControlRequest.agent_register r) = ValidRegister r
ValidRequest (ControlRequest.agent_keep_alive s) = ValidSession s
ValidRequest (ControlRequest.setup_udp_channel s) = ValidSession s
ValidRequest (ControlRequest.agent_check_port_mapping m) = ValidMapping m
ValidRequest (ControlRequest.check_mtu_received m) = ValidCheckMtu m
ValidRequest (ControlRequest.send_mtu_test m) = ValidSendMtu m

abbrev pub received_request : ControlRequest → ControlRequest
received_request (ControlRequest.agent_register r) = ControlRequest.agent_register (received r)
received_request (ControlRequest.ping p) = ControlRequest.ping p
received_request (ControlRequest.agent_keep_alive s) = ControlRequest.agent_keep_alive s
received_request (ControlRequest.setup_udp_channel s) = ControlRequest.setup_udp_channel s
received_request (ControlRequest.agent_check_port_mapping m) =
    ControlRequest.agent_check_port_mapping m
received_request (ControlRequest.check_mtu_received m) = ControlRequest.check_mtu_received m
received_request (ControlRequest.send_mtu_test m) = ControlRequest.send_mtu_test m

id_num-InWidth : (id : ControlRequestId) → InWidth 4 (id_num id)
id_num-InWidth ControlRequestId.ping_v1 = omega arith
id_num-InWidth _ = omega arith

module _ (wire : Wire) (laws : WireLaws wire) where
  request_id-RoundTrip :
      (id : ControlRequestId)
      → id_num id < id_num ControlRequestId.end
      → RoundTrip 0 (write_request_id wire id) (read_request_id wire) id
  unfolding write_request_id read_request_id ◌>>=◌ pure
  request_id-RoundTrip id below =
      let word = uint-RoundTrip wire laws 4 (id_num id) (id_num-InWidth id) in
      record {
        bytes = word.bytes;
        reported = word.reported;
        wrote = word.wrote;
        counted = word.counted;
        reads = λ rest.
            rw (word.reads rest, ◌>>=◌) (rw ((from_num_iff (id_num id) id).1 (refl, below)) refl);
      }

  register_request-RoundTrip :
      (r : AgentRegister)
      → ValidRegister r
      → RoundTrip 0
          (write_request wire (ControlRequest.agent_register r))
          (read_request wire)
          (ControlRequest.agent_register (received r))
  unfolding write_request read_request request_body register_id upgrade
  register_request-RoundTrip r v = elim (Bool-cases (leb r.proto_version 1)) [
    | inl old ↦ rw old (
        then_field _ (request_id-RoundTrip ControlRequestId.agent_register_v1 (omega arith))
          (last_field _ (register-as_v1 wire laws r v (leb→le _ 1 old))))
    | inr new ↦ rw new (
        then_field _ (request_id-RoundTrip ControlRequestId.agent_register_v2 (omega arith))
          (last_field _ (rw new at (register-RoundTrip wire laws r v))))
  ]

  -- A request whose fields are in their ranges (`ValidRequest`) is written, the length that is
  -- reported is the length of the bytes, and it is read back, whatever follows it: as it was, but a
  -- registration of version 0 as one of version 1.
  pub request-RoundTrip :
      (m : ControlRequest)
      → ValidRequest m
      → RoundTrip 0 (write_request wire m) (read_request wire) (received_request m)
  unfolding write_request read_request request_body
  request-RoundTrip (ControlRequest.ping p) v =
      then_field _ (request_id-RoundTrip ControlRequestId.ping_v2 (omega arith))
        (last_field _ (ping-RoundTrip wire laws p v))
  request-RoundTrip (ControlRequest.agent_register r) v = register_request-RoundTrip r v
  request-RoundTrip (ControlRequest.agent_keep_alive s) v =
      then_field _ (request_id-RoundTrip ControlRequestId.agent_keep_alive_v1 (omega arith))
        (last_field _ (session_id-RoundTrip wire laws s v))
  request-RoundTrip (ControlRequest.setup_udp_channel s) v =
      then_field _ (request_id-RoundTrip ControlRequestId.setup_udp_channel_v1 (omega arith))
        (last_field _ (session_id-RoundTrip wire laws s v))
  request-RoundTrip (ControlRequest.agent_check_port_mapping m) v =
      then_field _ (request_id-RoundTrip ControlRequestId.agent_check_port_mapping_v1 (omega arith))
        (last_field _ (check_port_mapping-RoundTrip wire laws m v))
  request-RoundTrip (ControlRequest.check_mtu_received m) v =
      then_field _ (request_id-RoundTrip ControlRequestId.check_mtu_received_v1 (omega arith))
        (last_field _ (check_mtu_received-RoundTrip wire laws m v))
  request-RoundTrip (ControlRequest.send_mtu_test m) v =
      then_field _ (request_id-RoundTrip ControlRequestId.send_mtu_test_v1 (omega arith))
        (last_field _ (send_mtu_test-RoundTrip wire laws m v))

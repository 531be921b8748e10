-- ===== src/Proto/Response/Encoding.antt =====
-- A response is read back from its bytes.
use playit_agent.Common.{ℕ, arith}
use playit_agent.Io.RoundTrip.{RoundTrip, done, then_field, last_field}
use playit_agent.Wire.{Wire, WireLaws}
use playit_agent.Wire.Fields.{be-RoundTrip}
use playit_agent.Proto.Response.{ControlResponse, response_body, write_response, read_response}
use playit_agent.Proto.Response.Payloads.{
  ValidAck, ValidMtuTest, ValidPortMapping, ValidDetails, ValidPong, ValidRegistered,
  mtu_ack-RoundTrip, mtu_test_packet-RoundTrip, mtu_test_fail-RoundTrip, port_mapping-RoundTrip,
  channel_details-RoundTrip, pong-RoundTrip, registered-RoundTrip,
}

-- The ranges of the Rust types, and addresses without flow label and scope.
abbrev pub ValidResponse : ControlResponse → Type 0
ValidResponse (ControlResponse.pong m) = ValidPong m
ValidResponse (ControlResponse.agent_registered m) = ValidRegistered m
ValidResponse (ControlResponse.agent_port_mapping m) = ValidPortMapping m
ValidResponse (ControlResponse.udp_channel_details m) = ValidDetails m
ValidResponse (ControlResponse.check_mtu_received_ack m) = ValidAck m
ValidResponse (ControlResponse.mtu_test_packet m) = ValidMtuTest m
ValidResponse _ = Unit {0}

-- How many of its bytes the writer does not report.
abbrev pub missed_bytes : ControlResponse → ℕ
missed_bytes (ControlResponse.mtu_test_packet m) = 4
missed_bytes _ = 0

module _ (wire : Wire) (laws : WireLaws wire) where
  -- A response whose fields are in their ranges (`ValidResponse`) is read back from its bytes,
  -- whatever follows them, and the length that is reported is the length of the bytes, except that
  -- it is 4 too small for an MTU test packet.
  pub response-RoundTrip :
      (m : ControlResponse)
      → ValidResponse m
      → RoundTrip (missed_bytes m) (write_response wire m) (read_response wire) m
  unfolding write_response read_response response_body
  response-RoundTrip (ControlResponse.pong m) v =
      then_field _ (be-RoundTrip wire laws 4 1 (omega arith))
        (last_field _ (pong-RoundTrip wire laws m v))
  response-RoundTrip ControlResponse.invalid_signature v =
      then_field _ (be-RoundTrip wire laws 4 2 (omega arith))
        (done ControlResponse.invalid_signature)
  response-RoundTrip ControlResponse.unauthorized v =
      then_field _ (be-RoundTrip wire laws 4 3 (omega arith)) (done ControlResponse.unauthorized)
  response-RoundTrip ControlResponse.request_queued v =
      then_field _ (be-RoundTrip wire laws 4 4 (omega arith)) (done ControlResponse.request_queued)
  response-RoundTrip ControlResponse.try_again_later v =
      then_field _ (be-RoundTrip wire laws 4 5 (omega arith)) (done ControlResponse.try_again_later)
  response-RoundTrip (ControlResponse.agent_registered m) v =
      then_field _ (be-RoundTrip wire laws 4 6 (omega arith))
        (last_field _ (registered-RoundTrip wire laws m v))
  response-RoundTrip (ControlResponse.agent_port_mapping m) v =
      then_field _ (be-RoundTrip wire laws 4 7 (omega arith))
        (last_field _ (port_mapping-RoundTrip wire laws m v))
  response-RoundTrip (ControlResponse.udp_channel_details m) v =
      then_field _ (be-RoundTrip wire laws 4 8 (omega arith))
        (last_field _ (channel_details-RoundTrip wire laws m v))
  response-RoundTrip (ControlResponse.check_mtu_received_ack m) v =
      then_field _ (be-RoundTrip wire laws 4 9 (omega arith))
        (last_field _ (mtu_ack-RoundTrip wire laws m v))
  response-RoundTrip (ControlResponse.mtu_test_packet m) v =
      then_field _ (be-RoundTrip wire laws 4 10 (omega arith))
        (last_field _ (mtu_test_packet-RoundTrip wire laws m v))
  response-RoundTrip (ControlResponse.mtu_test_fail m) v =
      then_field _ (be-RoundTrip wire laws 4 11 (omega arith))
        (last_field _ (mtu_test_fail-RoundTrip wire laws m))

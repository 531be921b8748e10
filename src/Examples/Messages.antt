-- ===== src/Examples/Messages.antt =====
-- The theorems on the messages at concrete values.
use playit_agent.Common.{◌≡◌, ◌↔◌, [], ◌∷◌, ◌++◌, true, arith}
use playit_agent.Io.{ok, Bytes}
use playit_agent.Io.RoundTrip.{RoundTrip}
use playit_agent.Wire.{SocketAddr}
use playit_agent.Wire.BigEndian.{big_endian, big_endian_laws}
use playit_agent.Proto.Mtu.{fill, verify_mtu_pattern}
use playit_agent.Proto.Mtu.Verify.{verify_mtu_pattern_iff}
use playit_agent.Proto.Register.{AgentRegister, AgentRegisterV1, write_register, read_register}
use playit_agent.Proto.Register.Encoding.{received}
use playit_agent.Proto.Register.First.{downgrade}
use playit_agent.Proto.Register.Signature.{
  update_signature, verify_signature, sign_with, signed-verifies, verify_signature_iff,
}
use playit_agent.Proto.Request.{ControlRequest, write_request, read_request}
use playit_agent.Proto.Request.Encoding.{received_request, request-RoundTrip}
use playit_agent.Proto.Response.{ControlResponse, MtuTestPacket, write_response, read_response}
use playit_agent.Proto.Response.Encoding.{missed_bytes, response-RoundTrip}
use playit_agent.Proto.Feed.{ControlFeed, NewClient, write_feed, read_feed}
use playit_agent.Proto.Feed.Encoding.{missed_in_feed, received_feed, feed-RoundTrip}
use playit_agent.Examples.{
  client, server, details, signature, register, valid_register, toy_hmac, toy_hmac_laws,
}

abbrev request : ControlRequest
request = ControlRequest.agent_register register

request-RoundTrip_example :
    RoundTrip 0
      (write_request big_endian request)
      (read_request big_endian)
      (received_request request)
request-RoundTrip_example = request-RoundTrip big_endian big_endian_laws request valid_register

abbrev response : ControlResponse
response = ControlResponse.udp_channel_details details

response-RoundTrip_example :
    RoundTrip
      (missed_bytes response)
      (write_response big_endian response)
      (read_response big_endian)
      response
response-RoundTrip_example = response-RoundTrip big_endian big_endian_laws response (record {
  tunnel_addr = (omega arith, omega arith);
  token_length = omega arith;
  token = (omega arith, (omega arith, (omega arith, tt)));
})

abbrev new_client : NewClient
new_client = record {
  connect_addr = server;
  peer_addr = SocketAddr.v4 client;
  data_center_id = 1;
  tunnel_id = 2;
  port_offset = 3;
  claim_instructions = record { address = server; token = 9 ∷ [] };
}

feed-RoundTrip_example :
    RoundTrip
      (missed_in_feed (ControlFeed.new_client new_client))
      (write_feed big_endian (ControlFeed.new_client new_client))
      (read_feed big_endian)
      (received_feed (ControlFeed.new_client new_client))
feed-RoundTrip_example =
    feed-RoundTrip big_endian big_endian_laws (ControlFeed.new_client new_client) (record {
      connect_addr = (omega arith, omega arith);
      peer_addr = (omega arith, omega arith);
      data_center_id = omega arith;
      tunnel_id = omega arith;
      port_offset = omega arith;
      claim_instructions = record {
        address = (omega arith, omega arith);
        token_length = omega arith;
        token = (omega arith, tt);
      };
    })

abbrev first_register : AgentRegister
first_register = record register { proto_version = 0 }

abbrev register_v1 : AgentRegisterV1
register_v1 = downgrade register

abbrev full_word : AgentRegister
full_word = record register { proto_version = 9_223_372_036_854_775_809 }

signed-verifies_example :
    (s : Bytes) × (update_signature big_endian toy_hmac register ≡ ok (sign_with register s))
    × RoundTrip 0
        (write_register big_endian (sign_with register s))
        (read_register big_endian)
        (received (sign_with register s))
    × (verify_signature big_endian toy_hmac (received (sign_with register s)) ≡ ok true)
signed-verifies_example =
    signed-verifies big_endian big_endian_laws toy_hmac toy_hmac_laws register valid_register

signed_register :
    (s : Bytes) × (update_signature big_endian toy_hmac register ≡ ok (sign_with register s))
signed_register =
    let (s, signed, read_back, passes) =
      signed-verifies big_endian big_endian_laws toy_hmac toy_hmac_laws register valid_register in
    (s, signed)

verify_signature_iff_example :
    (verify_signature big_endian toy_hmac (sign_with register (7 ∷ signature)) ≡ ok true)
    ↔ (7 ∷ signature ≡ signed_register.0)
verify_signature_iff_example =
    verify_signature_iff big_endian big_endian_laws toy_hmac toy_hmac_laws register
      (signed_register.0) (7 ∷ signature) valid_register (signed_register.1)

verify_mtu_pattern_iff_example :
    (verify_mtu_pattern 3 (fill 3 0 ++ (7 ∷ [])) ≡ ok (tt, 7 ∷ []))
    ↔ (fill 3 0 ++ (7 ∷ []) ≡ fill 3 0 ++ (7 ∷ []))
verify_mtu_pattern_iff_example = verify_mtu_pattern_iff 3 (fill 3 0 ++ (7 ∷ [])) (7 ∷ [])

abbrev mtu_test : MtuTestPacket
mtu_test = record { data_center_id = 5; udp_payload_length = 1_400 }

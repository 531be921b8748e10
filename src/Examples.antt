-- ===== src/Examples.antt =====
-- Data for the examples of the theorems: an agent, its tunnel server, a flow and a session.
mod Messages
mod Channel
mod Control
mod Clients
mod Tcp
mod Maintained
use playit_agent.Common.{
  ℕ, ◌≡◌, refl, ◌↔◌, List, [], ◌∷◌, Option, none, some, true, length, take, eq_bytes, eq_bytes_refl,
  eq_bytes_sound, arith,
}
use playit_agent.Io.{Bytes}
use playit_agent.Wire.{SocketAddr, SocketAddrV4}
use playit_agent.Proto.Flow.{UdpFlow, UdpFlowExtension, FragmentInfo}
use playit_agent.Proto.Flow.RoundTrip.{ValidFlow}
use playit_agent.Proto.Response.{UdpChannelDetails}
use playit_agent.Proto.Register.{AgentRegister}
use playit_agent.Proto.Register.Encoding.{ValidRegister}
use playit_agent.Proto.Register.Signature.{HmacSha256, HmacLaws}
use playit_agent.Proto.Mtu.{fill}

abbrev pub client : SocketAddrV4
client = record { ip = 2_130_706_433; port = 25_565 }

abbrev pub server : SocketAddr
server = SocketAddr.v4 (record { ip = 3_232_235_777; port = 5_525 })

abbrev pub flow : UdpFlow
flow =
    UdpFlow.v4 client (record { ip = 16_909_060; port = 1_234 })
      (some (record { packet_id = 7; frag_offset = 1_400; has_more = true }))
      (some (record { client_server_id = 3; tunnel_id = 4; port_offset = 0 }))

pub valid_flow : ValidFlow flow
valid_flow = (
  record { ip = omega arith; port = omega arith },
  record { ip = omega arith; port = omega arith },
  record { packet_id = omega arith; frag_offset = omega arith; packet_set = omega arith },
  record {
    client_server_id = omega arith;
    tunnel_id = omega arith;
    port_offset = omega arith;
    client_set = omega arith;
    tunnel_set = omega arith;
  },
)

abbrev pub details : UdpChannelDetails
details = record { tunnel_addr = server; token = 1 ∷ 2 ∷ 3 ∷ [] }

abbrev pub signature : Bytes
signature =
    1 ∷ 2 ∷ 3 ∷ 4 ∷ 5 ∷ 6 ∷ 7 ∷ 8 ∷ 1 ∷ 2 ∷ 3 ∷ 4 ∷ 5 ∷ 6 ∷ 7 ∷ 8 ∷ 1 ∷ 2 ∷ 3 ∷ 4 ∷ 5 ∷ 6 ∷ 7 ∷ 8
    ∷ 1 ∷ 2 ∷ 3 ∷ 4 ∷ 5 ∷ 6 ∷ 7 ∷ 8 ∷ []

abbrev pub register : AgentRegister
register = record {
  proto_version = 2;
  account_id = 10;
  agent_id = 11;
  agent_version = 12;
  timestamp = 13;
  client_addr = SocketAddr.v4 client;
  tunnel_addr = server;
  signature = signature;
}

pub valid_register : ValidRegister register
valid_register = record {
  first_word = (λ h. omega arith, omega arith);
  account_id = omega arith;
  agent_id = omega arith;
  agent_version = omega arith;
  timestamp = omega arith;
  client_addr = (omega arith, omega arith);
  tunnel_addr = (omega arith, omega arith);
  signature = refl;
}

-- A keyed hash that ignores its message.
abbrev pub toy_hmac : HmacSha256
toy_hmac = record { sign = λ bs. signature; verify = λ bs sig. eq_bytes sig signature }

pub toy_hmac_laws : HmacLaws toy_hmac
toy_hmac_laws = record {
  length-sign = λ bs. refl;
  verify_iff = λ bs sig. (eq_bytes_sound sig signature, λ e. rw e (eq_bytes_refl signature));
}

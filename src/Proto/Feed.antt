-- ===== src/Proto/Feed.antt =====
-- packages/agent_proto/src/control_feed.rs: what a tunnel server sends.
pub mod Encoding
use playit_agent.Common.{ℕ, ◌==◌, if◌then◌else◌}
use playit_agent.Io.{ok, err, other, Bytes, Written, Reader, ◌▷◌, no_bytes, pure, fail, ◌>>=◌}
use playit_agent.Wire.{Wire, SocketAddr}
use playit_agent.Proto.Rpc.{ControlRpcMessage, write_rpc, read_rpc}
use playit_agent.Proto.Response.{ControlResponse, write_response, read_response}

pub record ClaimInstructions : Type 0 where
  pub address : SocketAddr
  pub token : Bytes

pub record NewClient : Type 0 where
  pub connect_addr : SocketAddr
  pub peer_addr : SocketAddr
  pub data_center_id : ℕ
  pub tunnel_id : ℕ
  pub port_offset : ℕ
  pub claim_instructions : ClaimInstructions

pub record NewClientOld : Type 0 where
  pub connect_addr : SocketAddr
  pub peer_addr : SocketAddr
  pub claim_instructions : ClaimInstructions
  pub tunnel_server_id : ℕ
  pub data_center_id : ℕ

pub data ControlFeed : Type 0 where
  response : ControlRpcMessage ControlResponse → ControlFeed
  new_client : NewClient → ControlFeed
  new_client_old : NewClientOld → ControlFeed

-- `impl From<NewClientOld> for NewClient`
unfoldable pub from_old : NewClientOld → NewClient
from_old c = record {
  connect_addr = c.connect_addr;
  peer_addr = c.peer_addr;
  data_center_id = c.data_center_id;
  tunnel_id = 0;
  port_offset = 0;
  claim_instructions = c.claim_instructions;
}

module _ (wire : Wire) where
  open wire use {
    read_be, write_uint, read_uint, write_socket_addr, read_socket_addr, write_vec, read_vec,
  }

  pub write_claim : ClaimInstructions → Written
  write_claim c = write_socket_addr c.address ▷ write_vec c.token ▷ no_bytes

  pub read_claim : Reader ClaimInstructions
  read_claim = do
    address ← read_socket_addr
    token ← read_vec
    pure (record { address = address; token = token })

  pub write_new_client : NewClient → Written
  write_new_client c =
      write_socket_addr c.connect_addr
      ▷ write_socket_addr c.peer_addr
      ▷ write_uint 4 c.data_center_id
      ▷ write_uint 8 c.tunnel_id
      ▷ write_uint 2 c.port_offset
      ▷ write_claim c.claim_instructions
      ▷ no_bytes

  pub read_new_client : Reader NewClient
  read_new_client = do
    connect_addr ← read_socket_addr
    peer_addr ← read_socket_addr
    data_center_id ← read_uint 4
    tunnel_id ← read_uint 8
    port_offset ← read_uint 2
    claim_instructions ← read_claim
    pure (record {
      connect_addr = connect_addr;
      peer_addr = peer_addr;
      data_center_id = data_center_id;
      tunnel_id = tunnel_id;
      port_offset = port_offset;
      claim_instructions = claim_instructions;
    })

  pub write_new_client_old : NewClientOld → Written
  write_new_client_old c =
      write_socket_addr c.connect_addr
      ▷ write_socket_addr c.peer_addr
      ▷ write_claim c.claim_instructions
      ▷ write_uint 8 c.tunnel_server_id
      ▷ write_uint 4 c.data_center_id
      ▷ no_bytes

  pub read_new_client_old : Reader NewClientOld
  read_new_client_old = do
    connect_addr ← read_socket_addr
    peer_addr ← read_socket_addr
    claim_instructions ← read_claim
    tunnel_server_id ← read_be 8
    data_center_id ← read_be 4
    pure (record {
      connect_addr = connect_addr;
      peer_addr = peer_addr;
      claim_instructions = claim_instructions;
      tunnel_server_id = tunnel_server_id;
      data_center_id = data_center_id;
    })

  pub write_feed : ControlFeed → Written
  write_feed (ControlFeed.response m) =
      write_uint 4 1 ▷ write_rpc wire (write_response wire) m ▷ no_bytes
  write_feed (ControlFeed.new_client_old c) = write_uint 4 2 ▷ write_new_client_old c ▷ no_bytes
  write_feed (ControlFeed.new_client c) = write_uint 4 3 ▷ write_new_client c ▷ no_bytes

  -- A client of the old format becomes one of the new format.
  unfoldable pub feed_body : ℕ → Reader ControlFeed
  feed_body n =
      if n == 1
      then (read_rpc wire (read_response wire) >>= (λ m. pure (ControlFeed.response m)))
      else if n == 2
      then (read_new_client_old >>= (λ c. pure (ControlFeed.new_client (from_old c))))
      else if n == 3
      then (read_new_client >>= (λ c. pure (ControlFeed.new_client c)))
      else fail other

  unfoldable pub read_feed : Reader ControlFeed
  unfolding feed_body
  read_feed = do n ← read_be 4; feed_body n

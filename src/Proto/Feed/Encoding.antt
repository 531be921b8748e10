-- ===== src/Proto/Feed/Encoding.antt =====
-- A feed message is read back from its bytes, a client of the old format as one of the new.
use playit_agent.Common.{ℕ, ◌^◌, ◌<◌, length, arith}
use playit_agent.Io.RoundTrip.{RoundTrip, done, then_field, last_field}
use playit_agent.Wire.{Wire, WireLaws, InWidth, ValidSocketAddr, AllBytes}
use playit_agent.Wire.Fields.{be-RoundTrip, uint-RoundTrip}
use playit_agent.Proto.Rpc.{rpc-RoundTrip}
use playit_agent.Proto.Response.Encoding.{ValidResponse, missed_bytes, response-RoundTrip}
use playit_agent.Proto.Feed.{
  ClaimInstructions, NewClient, NewClientOld, ControlFeed, from_old, write_claim, read_claim,
  write_new_client, read_new_client, write_new_client_old, read_new_client_old, feed_body,
  write_feed, read_feed,
}

pub record ValidClaim (c : ClaimInstructions) : Type 0 where
  pub address : ValidSocketAddr c.address
  pub token_length : length c.token < 2 ^ 32
  pub token : AllBytes c.token

pub record ValidClient (c : NewClient) : Type 0 where
  pub connect_addr : ValidSocketAddr c.connect_addr
  pub peer_addr : ValidSocketAddr c.peer_addr
  pub data_center_id : InWidth 4 c.data_center_id
  pub tunnel_id : InWidth 8 c.tunnel_id
  pub port_offset : InWidth 2 c.port_offset
  pub claim_instructions : ValidClaim c.claim_instructions

pub record ValidClientOld (c : NewClientOld) : Type 0 where
  pub connect_addr : ValidSocketAddr c.connect_addr
  pub peer_addr : ValidSocketAddr c.peer_addr
  pub claim_instructions : ValidClaim c.claim_instructions
  pub tunnel_server_id : InWidth 8 c.tunnel_server_id
  pub data_center_id : InWidth 4 c.data_center_id

abbrev pub ValidFeed : ControlFeed → Type 0
ValidFeed (ControlFeed.response m) = InWidth 8 m.request_id × ValidResponse m.content
ValidFeed (ControlFeed.new_client c) = ValidClient c
ValidFeed (ControlFeed.new_client_old c) = ValidClientOld c

abbrev pub received_feed : ControlFeed → ControlFeed
received_feed (ControlFeed.new_client_old c) = ControlFeed.new_client (from_old c)
received_feed (ControlFeed.response m) = ControlFeed.response m
received_feed (ControlFeed.new_client c) = ControlFeed.new_client c

abbrev pub missed_in_feed : ControlFeed → ℕ
missed_in_feed (ControlFeed.response m) = missed_bytes m.content
missed_in_feed (ControlFeed.new_client c) = 0
missed_in_feed (ControlFeed.new_client_old c) = 0

module _ (wire : Wire) (laws : WireLaws wire) where
  claim-RoundTrip :
      (c : ClaimInstructions) → ValidClaim c → RoundTrip 0 (write_claim wire c) (read_claim wire) c
  unfolding write_claim read_claim
  claim-RoundTrip c v =
      then_field _ (laws.socket_addr-RoundTrip c.address v.address)
        (then_field _ (laws.vec-RoundTrip c.token v.token_length v.token) (done c))

  new_client-RoundTrip :
      (c : NewClient)
      → ValidClient c
      → RoundTrip 0 (write_new_client wire c) (read_new_client wire) c
  unfolding write_new_client read_new_client
  new_client-RoundTrip c v =
      then_field _ (laws.socket_addr-RoundTrip c.connect_addr v.connect_addr) (
        then_field _ (laws.socket_addr-RoundTrip c.peer_addr v.peer_addr) (
          then_field _ (uint-RoundTrip wire laws 4 c.data_center_id v.data_center_id) (
            then_field _ (uint-RoundTrip wire laws 8 c.tunnel_id v.tunnel_id) (
              then_field _ (uint-RoundTrip wire laws 2 c.port_offset v.port_offset) (
                then_field _ (claim-RoundTrip c.claim_instructions v.claim_instructions)
                  (done c))))))

  new_client_old-RoundTrip :
      (c : NewClientOld)
      → ValidClientOld c
      → RoundTrip 0 (write_new_client_old wire c) (read_new_client_old wire) c
  unfolding write_new_client_old read_new_client_old
  new_client_old-RoundTrip c v =
      then_field _ (laws.socket_addr-RoundTrip c.connect_addr v.connect_addr) (
        then_field _ (laws.socket_addr-RoundTrip c.peer_addr v.peer_addr) (
          then_field _ (claim-RoundTrip c.claim_instructions v.claim_instructions) (
            then_field _ (be-RoundTrip wire laws 8 c.tunnel_server_id v.tunnel_server_id) (
              then_field _ (be-RoundTrip wire laws 4 c.data_center_id v.data_center_id) (done c)))))

  -- A feed message in range (`ValidFeed`) is read back from its bytes: a response and a new client as they were, a client
  -- of the old format converted, without its server id. The count reported is right but for MTU
  -- test packets.
  pub feed-RoundTrip :
      (m : ControlFeed)
      → ValidFeed m
      → RoundTrip (missed_in_feed m) (write_feed wire m) (read_feed wire) (received_feed m)
  unfolding write_feed read_feed feed_body
  feed-RoundTrip (ControlFeed.response m) (id, content) =
      then_field _ (be-RoundTrip wire laws 4 1 (omega arith)) (
        last_field _ (
          rpc-RoundTrip wire laws (missed_bytes m.content) _ _ m id
            (response-RoundTrip wire laws m.content content)))
  feed-RoundTrip (ControlFeed.new_client c) v =
      then_field _ (be-RoundTrip wire laws 4 3 (omega arith))
        (last_field _ (new_client-RoundTrip c v))
  feed-RoundTrip (ControlFeed.new_client_old c) v =
      then_field _ (be-RoundTrip wire laws 4 2 (omega arith))
        (last_field _ (new_client_old-RoundTrip c v))

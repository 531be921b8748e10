-- ===== src/Control/Selector.antt =====
-- packages/agent_core/src/agent_control/address_selector.rs: the first control address that answers a
-- ping. Which sends fail and what comes of each wait of 500 ms are streams, indexed by the number of
-- calls before. The ping itself, which is written to a vector, is not part of the result.
pub mod Answer
pub mod Bounds
use playit_agent.Common.{
  ℕ, zero, suc, ◌+◌, Bool, true, false, Option, none, some, List, [], ◌∷◌, take, ◌==◌,
  if◌then◌else◌,
}
use playit_agent.Io.{Result, ok, err, panicked, Bytes}
use playit_agent.Wire.{Wire, SocketAddr}
use playit_agent.Wire.Addresses.{eq_addr}
use playit_agent.Proto.Rpc.{ControlRpcMessage}
use playit_agent.Proto.Response.{ControlResponse, Pong}
use playit_agent.Proto.Feed.{ControlFeed, read_feed}
use playit_agent.Control.{ConnectedControl}

pub data Incoming : Type 0 where
  datagram : Bytes → SocketAddr → Incoming
  io_error timed_out : Incoming

-- A pong, a message that is passed over, or a panic of the reader.
pub data Heard : Type 0 where
  found : Pong → Heard
  ignored aborted : Heard

unfoldable pub of_content : ControlResponse → Heard
of_content (ControlResponse.pong p) = Heard.found p
of_content content = Heard.ignored

unfoldable pub of_feed : Result (ControlFeed × Bytes) → Heard
unfolding of_content
of_feed (ok (ControlFeed.response m, rest)) =
    if m.request_id == 1 then of_content m.content else Heard.ignored
of_feed (ok (ControlFeed.new_client c, rest)) = Heard.ignored
of_feed (ok (ControlFeed.new_client_old c, rest)) = Heard.ignored
of_feed (err e) = Heard.ignored
of_feed panicked = Heard.aborted

abbrev pub is_ipv6 : SocketAddr → Bool
is_ipv6 (SocketAddr.v4 a) = false
is_ipv6 (SocketAddr.v6 a) = true

-- How many pings were sent, and how many waits there were.
pub record Counts : Type 0 where
  pub sent : ℕ
  pub received : ℕ

pub data Selected : Type 0 where
  connected : ConnectedControl → Selected
  failed_to_connect aborted : Selected

module _ (wire : Wire) (send_fails : ℕ → Bool) (incoming : ℕ → Incoming) where
  -- The buffer has 2048 bytes.
  unfoldable pub hear : SocketAddr → Incoming → Heard
  hear addr (Incoming.datagram bytes peer) =
      if eq_addr peer addr then of_feed (read_feed wire (take 2_048 bytes)) else Heard.ignored
  hear addr Incoming.io_error = Heard.ignored
  hear addr Incoming.timed_out = Heard.ignored

  abbrev pub or_wait : Heard → Counts → Heard × Counts → Heard × Counts
  or_wait (Heard.found p) n rest = (Heard.found p, n)
  or_wait Heard.ignored n rest = rest
  or_wait Heard.aborted n rest = (Heard.aborted, n)

  unfoldable pub wait_for_pong : ℕ → SocketAddr → Counts → Heard × Counts
  wait_for_pong zero addr n = (Heard.ignored, n)
  wait_for_pong (suc waits) addr n =
      or_wait (hear addr (incoming n.received)) (record n { received = n.received + 1 })
        (wait_for_pong waits addr (record n { received = n.received + 1 }))

  -- The pings to one address; one that is refused is the last.
  unfoldable pub attempt : (attempts waits : ℕ) → SocketAddr → Counts → Heard × Counts
  unfolding wait_for_pong
  attempt zero waits addr n = (Heard.ignored, n)
  attempt (suc attempts) waits addr n =
      let waited = wait_for_pong waits addr (record n { sent = n.sent + 1 }) in
      let rest = attempt attempts waits addr waited.1 in
      if send_fails n.sent
      then (Heard.ignored, record n { sent = n.sent + 1 })
      else or_wait waited.0 waited.1 rest

  unfoldable pub try_address : SocketAddr → Counts → Heard × Counts
  unfolding attempt
  try_address addr n = if is_ipv6 addr then attempt 1 3 addr n else attempt 3 5 addr n

  abbrev pub or_next : SocketAddr → Heard × Counts → Selected × Counts → Selected × Counts
  or_next addr (Heard.found p, n) rest =
      (Selected.connected (record { control_addr = addr; pong_latest = p }), n)
  or_next addr (Heard.ignored, n) rest = rest
  or_next addr (Heard.aborted, n) rest = (Selected.aborted, n)

  unfoldable pub select : List SocketAddr → Counts → Selected × Counts
  unfolding try_address
  select [] n = (Selected.failed_to_connect, n)
  select (addr ∷ options) n =
      or_next addr (try_address addr n) (select options (try_address addr n).1)

  unfoldable pub connect_to_first : List SocketAddr → Selected × Counts
  unfolding select
  connect_to_first options = select options (record { sent = 0; received = 0 })

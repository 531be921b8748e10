-- ===== src/Examples/Maintained.antt =====
-- The theorems on the maintained session and the choice of a control address at concrete values.
use playit_agent.Common.{
  Bool, true, false, ℕ, zero, suc, ◌*◌, ◌≤◌, ◌<◌, ◌≡◌, ◌≢◌, ◌⊎◌, refl, List, [], ◌∷◌, ◌++◌, none,
  some, none_some, length, arith,
}
use playit_agent.Io.{Bytes, pure, ◌>>=◌}
use playit_agent.Wire.{SocketAddr}
use playit_agent.Wire.Addresses.{eq_addr}
use playit_agent.Wire.BigEndian.{big_endian, be_value}
use playit_agent.Proto.Rpc.{read_rpc}
use playit_agent.Proto.Response.{
  ControlResponse, AgentRegistered, read_pong, response_body, read_response,
}
use playit_agent.Proto.Feed.{ControlFeed, read_feed, feed_body}
use playit_agent.Control.{
  ExpiredReason, Receipt, minus_u64, is_expired, into_established, setup_overdue, setup_deadline,
  authenticated, has_flow_changed, record_response, record_pong, round_trip_time, recv_feed_msg,
}
use playit_agent.Control.Authenticate.{Answer}
use playit_agent.Control.Maintained.{
  MaintainedControl, ControlConnectionState, Reload, setup, send_state, set_control_state,
  note_control_failure, take_hard_reconnect_request, reload_control_addr,
}
use playit_agent.Control.Maintained.Update.{
  Waited, Outside, ping_if_due, keep_alive_interval, keep_alive_if_due, on_feed, on_receipt,
  feed_loop, check_silence, reauthenticate, renew, round, update,
}
use playit_agent.Control.Maintained.Rounds.{update-hard_reconnect}
use playit_agent.Control.Maintained.States.{update-connected}
use playit_agent.Control.Maintained.Invariant.{Sound}
use playit_agent.Control.Maintained.Runs.{Timed, Step, Reachable, Reachable-Sound}
use playit_agent.Control.Maintained.Silence.{update-heard}
use playit_agent.Control.Maintained.Reloads.{reload_control_addr-error}
use playit_agent.Control.Selector.{
  Incoming, of_content, of_feed, hear, wait_for_pong, attempt, try_address, select,
  connect_to_first,
}
use playit_agent.Control.Selector.Answer.{Answered, connect_to_first-Answered}
use playit_agent.Control.Selector.Bounds.{connect_to_first-bounds}
use playit_agent.Examples.{server}
use playit_agent.Examples.Control.{pong, registered, connected, established}

abbrev maintained : MaintainedControl
maintained = setup established (server ∷ []) 1_000

-- A round after the deadline, without a registration.
abbrev refused_round : Outside
refused_round = record {
  now_expired = 9_000;
  attempted = record { conn = connected; answer = none };
  now_authenticated = 9_000;
  now_renewed = 9_000;
  now = 9_000;
  ping_fails = false;
  keep_alive_fails = false;
  waited = λ i. Waited.timed_out;
  now_end = 10_000;
}

unanswered : (r : AgentRegistered) → refused_round.attempted.answer ≢ some (Answer.registered r)
unanswered r = none_some

update-hard_reconnect_example :
    let last : MaintainedControl =
      (update
        (update (update maintained refused_round).after refused_round).after
        refused_round).after in
    ((take_hard_reconnect_request last).0 ≡ true)
    × ((take_hard_reconnect_request (take_hard_reconnect_request last).1).0 ≡ false)
unfolding setup into_established is_expired setup_overdue setup_deadline update renew reauthenticate
    set_control_state note_control_failure
update-hard_reconnect_example =
    update-hard_reconnect maintained refused_round refused_round refused_round
      ((ExpiredReason.session_not_setup, refl), unanswered)
      ((ExpiredReason.session_not_setup, refl), unanswered)
      ((ExpiredReason.session_not_setup, refl), unanswered)

-- A round after the deadline in which the registration comes.
abbrev registered_round : Outside
registered_round = record refused_round {
  attempted = record { conn = connected; answer = some (Answer.registered registered) };
}

update-connected_example :
    (maintained.control_state.value ≡ ControlConnectionState.connected)
    ⊎ ((reason : ExpiredReason) × (r : AgentRegistered) × (is_expired maintained.control 9_000
          ≡ some reason)
        × (registered_round.attempted.answer ≡ some (Answer.registered r)))
unfolding setup into_established is_expired setup_overdue setup_deadline update renew reauthenticate
    authenticated set_control_state send_state note_control_failure round ping_if_due
    keep_alive_if_due keep_alive_interval feed_loop check_silence minus_u64
update-connected_example = update-connected maintained registered_round refl

-- A round on a valid session in which a pong comes.
abbrev pong_round : Outside
pong_round = record refused_round {
  now_expired = 2_000;
  now = 2_000;
  waited = λ i. elim i [
    | zero ↦
        Waited.arrived
          (Receipt.received connected (
            ControlFeed.response
              (record { request_id = 200; content = ControlResponse.pong pong })))
          2_050 2_050
    | suc n ↦ Waited.timed_out
  ];
  now_end = 3_000;
}

pong_times :
    (i : ℕ) (r : Receipt) (now now_pong : ℕ)
    → pong_round.waited i ≡ Waited.arrived r now now_pong
    → 0 < now_pong
pong_times zero r now now_pong e = let same : 2_050 ≡ now_pong = cc e in omega (arith, same)
pong_times (suc n) r now now_pong e = absurd (cc e)

pong_round-Timed : Timed pong_round
pong_round-Timed = record { renewed = omega arith; arrivals = pong_times }

started : Reachable maintained
started = Reachable.start established (server ∷ []) 1_000 (omega arith)

Reachable-Sound_example : Sound (update maintained pong_round).after
Reachable-Sound_example =
    Reachable-Sound (update maintained pong_round).after
      (Reachable.next started (Step.updated pong_round pong_round-Timed))

update-heard_example : minus_u64 3_000 (update maintained pong_round).after.last_pong ≤ 6_000
unfolding setup into_established is_expired setup_overdue setup_deadline has_flow_changed eq_addr
    update renew round ping_if_due keep_alive_if_due keep_alive_interval feed_loop on_receipt
    on_feed recv_feed_msg record_response record_pong round_trip_time check_silence minus_u64
update-heard_example = update-heard maintained pong_round started pong_round-Timed refl refl refl

-- New addresses, none of which answers.
abbrev unreached : Reload
unreached = record {
  addresses = some (server ∷ (server ∷ []));
  fresh = none;
  registration = none;
  now_replaced = 5_000;
  now_done = 5_000;
}

reload_control_addr-error_example :
    (reload_control_addr maintained unreached false).1 ≡ record maintained {
      control_state = (reload_control_addr maintained unreached false).1.control_state;
    }
unfolding reload_control_addr eq_addr setup
reload_control_addr-error_example = reload_control_addr-error maintained unreached false refl

abbrev reached : Reload
reached = record unreached { fresh = some connected; registration = some (connected, registered) }

-- The pong as it is sent, in answer to the request 1.
abbrev pong_bytes : Bytes
pong_bytes =
    0 ∷ 0 ∷ 0 ∷ 1 ∷ 0 ∷ 0 ∷ 0 ∷ 0 ∷ 0 ∷ 0 ∷ 0 ∷ 1 ∷ 0 ∷ 0 ∷ 0 ∷ 1 ∷ 0 ∷ 0 ∷ 0 ∷ 0 ∷ 0 ∷ 0 ∷ 3 ∷ 232
    ∷ 0 ∷ 0 ∷ 0 ∷ 0 ∷ 0 ∷ 0 ∷ 19 ∷ 136 ∷ 0 ∷ 0 ∷ 0 ∷ 0 ∷ 0 ∷ 0 ∷ 0 ∷ 1 ∷ 0 ∷ 0 ∷ 0 ∷ 2 ∷ 4 ∷ 127 ∷ 0
    ∷ 0 ∷ 1 ∷ 99 ∷ 221 ∷ 4 ∷ 192 ∷ 168 ∷ 1 ∷ 1 ∷ 21 ∷ 149 ∷ 0 ∷ []

-- A timeout, then the pong.
abbrev answering : ℕ → Incoming
answering zero = Incoming.timed_out
answering (suc n) = Incoming.datagram pong_bytes server

abbrev all_sent : ℕ → Bool
all_sent n = false

connect_to_first-Answered_example :
    ((before : List SocketAddr) × (after : List SocketAddr) × (server ∷ []
        ≡ before ++ (connected.control_addr ∷ after)))
    × Answered big_endian all_sent answering connected.control_addr connected.pong_latest
unfolding connect_to_first select try_address attempt wait_for_pong hear eq_addr of_feed of_content
    read_feed feed_body read_rpc read_response response_body read_pong be_value pure ◌>>=◌
connect_to_first-Answered_example =
    connect_to_first-Answered big_endian all_sent answering (server ∷ []) connected refl

connect_to_first-bounds_example :
    ((connect_to_first big_endian all_sent answering (server ∷ [])).1.sent
      ≤ 3 * length (server ∷ []))
    × ((connect_to_first big_endian all_sent answering (server ∷ [])).1.received
        ≤ 15 * length (server ∷ []))
connect_to_first-bounds_example =
    connect_to_first-bounds big_endian all_sent answering (server ∷ [])

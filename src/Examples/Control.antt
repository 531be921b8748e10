-- ===== src/Examples/Control.antt =====
-- The theorems on the control session at concrete values.
use playit_agent.Common.{
  Bool, ℕ, zero, suc, ◌<◌, false, ◌≡◌, ◌≢◌, ◌⊎◌, refl, List, [], ◌∷◌, none, some, arith,
}
use playit_agent.Wire.{SocketAddr}
use playit_agent.Proto.Response.{
  ControlResponse, Pong, AgentRegistered, CheckMtuReceivedAck, MtuTestPacket,
}
use playit_agent.Control.{
  ConnectedControl, EstablishedControl, ExpiredReason, Receipt, is_expired, into_established,
  record_response,
}
use playit_agent.Control.Session.{ControlEvent, run, told_once}
use playit_agent.Control.Overdue.{run-is_expired}
use playit_agent.Proto.Feed.{ControlFeed}
use playit_agent.Control.Authenticate.{Arrival, Answer, authenticate}
use playit_agent.Control.Authenticate.Answers.{answer_to, authenticate-answered}
use playit_agent.Control.Authenticate.Causes.{Caused, authenticate-Caused}
use playit_agent.Examples.{client, server}

abbrev pub pong : Pong
pong = record {
  request_now = 1_000;
  server_now = 5_000;
  server_id = 1;
  data_center_id = 2;
  client_addr = SocketAddr.v4 client;
  tunnel_addr = server;
  session_expire_at = none;
}

abbrev pong_told : Pong
pong_told = record pong { session_expire_at = some 65_000 }

abbrev pub registered : AgentRegistered
registered = record {
  id = record { session_id = 1; account_id = 2; agent_id = 3 };
  expires_at = 60_000;
}

abbrev pub connected : ConnectedControl
connected = record { control_addr = server; pong_latest = pong }

abbrev pub established : EstablishedControl
established = into_established connected registered 1_000

abbrev events : List ControlEvent
events =
    ControlEvent.reauthenticated registered 2_000
    ∷ ControlEvent.reconnected connected registered
    ∷ []

told_once_example :
    is_expired
      (run (record_response established (ControlResponse.pong pong_told) 1_100) events)
      9_000
    ≢ some ExpiredReason.session_not_setup
told_once_example = told_once established pong_told 65_000 1_100 9_000 events refl

abbrev waiting : EstablishedControl
waiting = record established { session_setup_deadline = some 6_000 }

-- A message without an expiry, then a new connection, both after the deadline.
abbrev late : List ControlEvent
late =
    ControlEvent.feed_msg
      (Receipt.received connected
        (ControlFeed.response (record { request_id = 1; content = ControlResponse.pong pong })))
      6_500
    ∷ ControlEvent.reconnected connected registered
    ∷ []

run-is_expired_example :
    (is_expired (run waiting late) 7_000 ≡ some ExpiredReason.forced)
    ⊎ (is_expired (run waiting late) 7_000 ≡ some ExpiredReason.session_not_setup)
unfolding into_established
run-is_expired_example =
    run-is_expired 6_000 7_000 waiting late (refl, refl) (refl, (refl, tt)) (omega arith)

abbrev long_ack : CheckMtuReceivedAck
long_ack = record {
  id = 1;
  message_length = 1_400;
  ip_header_length = 20;
  udp_payload_length = 1_372;
}

abbrev short_ack : CheckMtuReceivedAck
short_ack = record long_ack { message_length = 600 }

abbrev packets : List MtuTestPacket
packets =
    record { data_center_id = 2; udp_payload_length = 1_200 }
    ∷ record { data_center_id = 2; udp_payload_length = 900 }
    ∷ []

-- Two timeouts, then the answer.
abbrev arrivals : ℕ → Arrival
arrivals zero = Arrival.timed_out
arrivals (suc zero) = Arrival.timed_out
arrivals (suc (suc n)) = answer_to 77 registered

quiet : (i : ℕ) → i < 2 → arrivals i ≡ Arrival.timed_out
quiet zero h = refl
quiet (suc zero) h = refl
quiet (suc (suc n)) h = absurd (omega arith)

abbrev sends_succeed : ℕ → Bool
sends_succeed n = false

authenticate-answered_example :
    (authenticate 77 arrivals sends_succeed connected).0 ≡ Answer.registered registered
authenticate-answered_example =
    authenticate-answered 77 arrivals sends_succeed connected registered 2 refl (omega arith) quiet
      refl

authenticate-Caused_example :
    Caused pong 77 arrivals sends_succeed (authenticate 77 arrivals sends_succeed connected).0
authenticate-Caused_example = authenticate-Caused 77 arrivals sends_succeed connected

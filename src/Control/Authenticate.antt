-- ===== src/Control/Authenticate.antt =====
-- packages/agent_core/src/agent_control/connected_control.rs: the attempts to register, five times
-- sent and each time up to five messages waited for. What each call of `recv` under its timeout comes
-- to, and which sends fail, are streams, indexed by the number of calls before; an error of `recv` is
-- one arrival, whatever its kind. The ping that follows a refusal counts as a message that is sent;
-- the code does not look at its outcome, and its bytes are not part of the result.
pub mod Answers
pub mod Causes
use playit_agent.Common.{
  ℕ, zero, suc, ◌+◌, Bool, true, false, not, ◌||◌, Option, none, some, ◌==◌, if◌then◌else◌,
}
use playit_agent.Wire.Addresses.{eq_addr}
use playit_agent.Proto.Rpc.{ControlRpcMessage}
use playit_agent.Proto.Response.{ControlResponse, Pong, AgentRegistered}
use playit_agent.Proto.Feed.{ControlFeed}
use playit_agent.Control.{ConnectedControl, latest_pong}

pub data Arrival : Type 0 where
  message : ControlFeed → Arrival
  unreadable timed_out : Arrival

-- Those of its errors that `authenticate` makes from here on.
pub data SetupError : Type 0 where
  register_invalid_signature register_unauthorized : SetupError
  attempting_to_auth_with_old_flow failed_to_connect io_error : SetupError

pub data Answer : Type 0 where
  registered : AgentRegistered → Answer
  refused : SetupError → Answer

-- Where a message leads: `return`, `return` once a ping is sent, `continue` or `break`.
pub data Verdict : Type 0 where
  finish : Answer → Verdict
  ping_and_finish : Answer → Verdict
  keep_waiting send_again : Verdict

-- The connection, how many messages were waited for, and how many were sent.
pub record Attempt : Type 0 where
  pub conn : ConnectedControl
  pub received : ℕ
  pub sent : ℕ

abbrev after_arrival : ConnectedControl → Arrival → ConnectedControl
after_arrival c (Arrival.message feed) = latest_pong c feed
after_arrival c Arrival.unreadable = c
after_arrival c Arrival.timed_out = c

unfoldable pub judge_content : Pong → ControlResponse → Verdict
judge_content auth_pong (ControlResponse.agent_registered r) = Verdict.finish (Answer.registered r)
judge_content auth_pong ControlResponse.invalid_signature =
    Verdict.finish (Answer.refused SetupError.register_invalid_signature)
judge_content auth_pong ControlResponse.unauthorized =
    Verdict.ping_and_finish (Answer.refused SetupError.register_unauthorized)
judge_content auth_pong (ControlResponse.pong p) =
    if not (eq_addr p.client_addr auth_pong.client_addr)
      || not (eq_addr p.tunnel_addr auth_pong.tunnel_addr)
    then Verdict.finish (Answer.refused SetupError.attempting_to_auth_with_old_flow)
    else Verdict.keep_waiting
judge_content auth_pong ControlResponse.request_queued = Verdict.send_again
judge_content auth_pong content = Verdict.keep_waiting

unfoldable pub judge : Pong → ℕ → Arrival → Verdict
unfolding judge_content
judge auth_pong request_id (Arrival.message (ControlFeed.response m)) =
    if m.request_id == request_id then judge_content auth_pong m.content else Verdict.keep_waiting
judge auth_pong request_id (Arrival.message feed) = Verdict.keep_waiting
judge auth_pong request_id Arrival.unreadable = Verdict.send_again
judge auth_pong request_id Arrival.timed_out = Verdict.keep_waiting

abbrev by_verdict : Verdict → Attempt → Option Answer × Attempt → Option Answer × Attempt
by_verdict (Verdict.finish answer) a rest = (some answer, a)
by_verdict (Verdict.ping_and_finish answer) a rest = (some answer, record a { sent = a.sent + 1 })
by_verdict Verdict.keep_waiting a rest = rest
by_verdict Verdict.send_again a rest = (none, a)

abbrev by_answer : Option Answer → Attempt → Answer × Attempt → Answer × Attempt
by_answer (some answer) a rest = (answer, a)
by_answer none a rest = rest

module _ (auth_pong : Pong) (request_id : ℕ) (arrivals : ℕ → Arrival) (send_fails : ℕ → Bool) where
  abbrev next_arrival : Attempt → Attempt
  next_arrival a = record a {
    conn = after_arrival a.conn (arrivals a.received);
    received = a.received + 1;
  }

  -- The inner loop.
  unfoldable pub wait : ℕ → Attempt → Option Answer × Attempt
  wait zero a = (none, a)
  wait (suc rounds) a =
      by_verdict (judge auth_pong request_id (arrivals a.received)) (next_arrival a)
        (wait rounds (next_arrival a))

  -- The outer loop.
  unfoldable pub attempts : ℕ → Attempt → Answer × Attempt
  attempts zero a = (Answer.refused SetupError.failed_to_connect, a)
  attempts (suc rounds) a =
      let waited = wait 5 (record a { sent = a.sent + 1 }) in
      let rest = attempts rounds waited.1 in
      if send_fails a.sent
      then (Answer.refused SetupError.io_error, a)
      else by_answer waited.0 waited.1 rest

-- `ConnectedControl::authenticate`, once the registration is signed.
unfoldable pub authenticate : ℕ → (ℕ → Arrival) → (ℕ → Bool) → ConnectedControl → Answer × Attempt
authenticate request_id arrivals send_fails c =
    attempts c.pong_latest request_id arrivals send_fails 5
      (record { conn = c; received = 0; sent = 0 })

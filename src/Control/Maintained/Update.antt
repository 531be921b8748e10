-- ===== src/Control/Maintained/Update.antt =====
-- packages/agent_core/src/agent_control/maintained_control.rs: `update`, one round of the session.
use playit_agent.Common.{
  ℕ, zero, suc, ◌+◌, ◌-◌, max, Bool, true, false, not, ◌&&◌, Option, none, some, [], ◌∷◌, ◌++◌, ltb,
  leb, ◌==◌, if◌then◌else◌,
}
use playit_agent.Proto.Request.{ControlRequest}
use playit_agent.Proto.Response.{ControlResponse, UdpChannelDetails}
use playit_agent.Proto.Feed.{ControlFeed, NewClient, from_old}
use playit_agent.Control.{
  ConnectedControl, EstablishedControl, Receipt, minus_u64, is_expired, set_expired, authenticated,
  recv_feed_msg,
}
use playit_agent.Control.Authenticate.{Answer}
use playit_agent.Control.Maintained.{
  MaintainedControl, ControlConnectionState, Requests, set_control_state, fail_session,
  note_control_failure,
}

pub data TunnelControlEvent : Type 0 where
  new_client : NewClient → TunnelControlEvent
  udp_channel_details : UdpChannelDetails → TunnelControlEvent

-- What a wait of 100 ms comes to; the times are those that `recv_feed_msg` and the loop read.
pub data Waited : Type 0 where
  arrived : Receipt → (now now_pong : ℕ) → Waited
  timed_out : Waited

-- What comes of an authentication: the connection with what it received, and the answer, if the
-- registration was signed and the time sufficed.
pub record Attempted : Type 0 where
  pub conn : ConnectedControl
  pub answer : Option Answer

-- What the clock says and what happens during one round.
pub record Outside : Type 0 where
  pub now_expired : ℕ
  pub attempted : Attempted
  pub now_authenticated : ℕ
  pub now_renewed : ℕ
  pub now : ℕ
  pub ping_fails : Bool
  pub keep_alive_fails : Bool
  pub waited : ℕ → Waited
  pub now_end : ℕ

-- `authenticate`: whether it succeeded, and the session after it.
unfoldable pub reauthenticate : EstablishedControl → Attempted → ℕ → Bool × EstablishedControl
reauthenticate e a now = elim a.answer [
  | none ↦ (false, record e { conn = a.conn })
  | some (Answer.registered r) ↦ (true, authenticated (record e { conn = a.conn }) r now)
  | some (Answer.refused reason) ↦ (false, record e { conn = a.conn })
]

abbrev pub by_attempt : Bool × EstablishedControl → ℕ → MaintainedControl → Bool × MaintainedControl
by_attempt (false, e) now s = (false, note_control_failure (record s { control = e }))
by_attempt (true, e) now s = (
  true,
  set_control_state ControlConnectionState.connected (record s {
    control = e;
    soft_reconnect_failures = 0;
    hard_reconnect_requested = false;
    last_pong = now;
  }),
)

-- The session is authenticated again if it is expired; whether the round goes on.
unfoldable pub renew : MaintainedControl → Outside → Bool × MaintainedControl
renew s o = elim (is_expired s.control o.now_expired) [
  | none ↦ (true, s)
  | some reason ↦
      by_attempt (reauthenticate s.control o.attempted o.now_authenticated) o.now_renewed
        (set_control_state ControlConnectionState.reconnecting s)
]

unfoldable pub ping_if_due : MaintainedControl → Outside → Requests × MaintainedControl
ping_if_due s o =
    if ltb 1_000 (minus_u64 o.now s.last_ping)
    then (
      record {
        request_id = 200;
        content = ControlRequest.ping (record {
          now = o.now;
          current_ping = s.control.current_ping;
          session_id = some s.control.registered.id;
        });
      }
          ∷ [],
      if o.ping_fails
          then fail_session (record s { last_ping = o.now })
          else record s { last_ping = o.now },
    )
    else ([], s)

-- Every 60 seconds, or every 10 if the session expires soon.
unfoldable pub keep_alive_interval : MaintainedControl → ℕ → ℕ
keep_alive_interval s now =
    if ltb (max s.control.registered.expires_at now - now) 30_000 then 10_000 else 60_000

unfoldable pub keep_alive_if_due : MaintainedControl → Outside → Requests × MaintainedControl
unfolding keep_alive_interval
keep_alive_if_due s o =
    if ltb (keep_alive_interval s o.now) (minus_u64 o.now s.last_keep_alive)
    then (
      record { request_id = 100; content = ControlRequest.agent_keep_alive s.control.registered.id }
          ∷ [],
      if o.keep_alive_fails
          then fail_session (record s { last_keep_alive = o.now })
          else record s { last_keep_alive = o.now },
    )
    else ([], s)

-- What one message comes to: an event ends the round.
unfoldable pub on_feed :
    MaintainedControl → ControlFeed → ℕ → Option TunnelControlEvent × MaintainedControl
on_feed s (ControlFeed.new_client c) now_pong = (some (TunnelControlEvent.new_client c), s)
on_feed s (ControlFeed.new_client_old c) now_pong =
    (some (TunnelControlEvent.new_client (from_old c)), s)
on_feed s (ControlFeed.response m) now_pong = elim m.content [
  | ControlResponse.udp_channel_details d ↦ (some (TunnelControlEvent.udp_channel_details d), s)
  | ControlResponse.unauthorized ↦ (
    none,
    record (set_control_state ControlConnectionState.reconnecting s) {
      control = set_expired s.control;
    },
  )
  | ControlResponse.pong p ↦ (none, record s { last_pong = now_pong })
  | _ ↦ (none, s)
]

-- A datagram that is refused or cannot be read is passed over. A panic of the reader (`aborted`) would
-- end the task, and is no arrival.
unfoldable pub on_receipt :
    MaintainedControl → Receipt → ℕ → ℕ → Option TunnelControlEvent × MaintainedControl
unfolding on_feed
on_receipt s (Receipt.received c feed) now now_pong =
    on_feed (record s { control = recv_feed_msg s.control (Receipt.received c feed) now }) feed
      now_pong
on_receipt s (Receipt.invalid_remote expected got) now now_pong = (none, s)
on_receipt s (Receipt.failed_to_read_control_feed e) now now_pong = (none, s)
on_receipt s Receipt.io_error now now_pong = (none, s)
on_receipt s Receipt.aborted now now_pong = (none, s)

abbrev pub or_continue :
    Option TunnelControlEvent × MaintainedControl
    → (MaintainedControl → Option TunnelControlEvent × MaintainedControl)
    → Option TunnelControlEvent × MaintainedControl
or_continue (some event, s) k = (some event, s)
or_continue (none, s) k = k s

-- The loop: `rounds` messages or timeouts at most, ten of them timeouts.
unfoldable pub feed_loop :
    (ℕ → Waited)
    → (rounds i timeouts : ℕ) → MaintainedControl
    → Option TunnelControlEvent × MaintainedControl
unfolding on_receipt
feed_loop waited zero i timeouts s = (none, s)
feed_loop waited (suc rounds) i timeouts s = elim (waited i) [
  | Waited.timed_out ↦
      (let rest = feed_loop waited rounds (i + 1) (timeouts + 1) s in
        if leb 10 (timeouts + 1) then (none, s) else rest)
  | Waited.arrived receipt now now_pong ↦
      or_continue (on_receipt s receipt now now_pong) (feed_loop waited rounds (i + 1) timeouts)
]

-- Without a pong for six seconds the session is given up.
unfoldable pub check_silence : MaintainedControl → ℕ → MaintainedControl
check_silence s now =
    if not (s.last_pong == 0) && ltb 6_000 (minus_u64 now s.last_pong)
    then fail_session
        (set_control_state ControlConnectionState.reconnecting (record s { last_pong = 0 }))
    else s

abbrev pub after_loop :
    Option TunnelControlEvent × MaintainedControl
    → ℕ
    → Option TunnelControlEvent × MaintainedControl
after_loop (some event, s) now = (some event, s)
after_loop (none, s) now = (none, check_silence s now)

-- What is sent in a round, and its result.
pub record Updated : Type 0 where
  pub sent : Requests
  pub event : Option TunnelControlEvent
  pub after : MaintainedControl

-- The round from the ping on.
unfoldable pub round : MaintainedControl → Outside → Updated
unfolding ping_if_due keep_alive_if_due feed_loop check_silence
round s o =
    let pinged = ping_if_due s o in
    let kept = keep_alive_if_due pinged.1 o in
    let looped = after_loop (feed_loop o.waited 30 0 0 kept.1) o.now_end in
    record { sent = pinged.0 ++ kept.0; event = looped.0; after = looped.1 }

unfoldable pub update : MaintainedControl → Outside → Updated
unfolding renew round
update s o =
    let renewed = renew s o in
    if renewed.0 then round renewed.1 o else record { sent = []; event = none; after = renewed.1 }

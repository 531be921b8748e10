-- ===== src/Control/Maintained.antt =====
-- packages/agent_core/src/agent_control/maintained_control.rs: the control session kept alive. What the
-- clock says at each reading, what comes of authentication and of sending, and what arrives are
-- arguments (`Outside`). A timeout around a call is one of the ways it fails. u64 subtraction wraps, as
-- in the release build.
pub mod Update
pub mod Renewal
pub mod Holds
pub mod Rounds
pub mod Reloads
pub mod States
pub mod Invariant
pub mod Runs
pub mod Silence
use playit_agent.Common.{
  ℕ, zero, suc, ◌+◌, ◌-◌, ◌%◌, ◌^◌, max, min, Bool, true, false, not, ◌&&◌, Option, none, some,
  List, [], ◌∷◌, ◌++◌, ltb, leb, ◌==◌, if◌then◌else◌,
}
use playit_agent.Wire.{IpAddr, SocketAddr}
use playit_agent.Wire.Addresses.{eq_addr}
use playit_agent.Proto.Rpc.{ControlRpcMessage}
use playit_agent.Proto.Request.{ControlRequest}
use playit_agent.Proto.Response.{ControlResponse, UdpChannelDetails, AgentRegistered}
use playit_agent.Proto.Feed.{ControlFeed, NewClient, from_old}
use playit_agent.Control.{
  ConnectedControl, EstablishedControl, Receipt, ExpiredReason, minus_u64, is_expired, set_expired,
  authenticated, reset_established, recv_feed_msg,
}
use playit_agent.Control.Authenticate.{Answer}

abbrev pub hard_reconnect_failure_threshold : ℕ
hard_reconnect_failure_threshold = 3

pub data ControlConnectionState : Type 0 where
  connected reconnecting : ControlConnectionState

-- What `watch::Sender` has: the value, and how often one was sent.
pub record Watch : Type 0 where
  pub value : ControlConnectionState
  pub sends : ℕ

pub record MaintainedControl : Type 0 where
  pub control : EstablishedControl
  pub last_keep_alive : ℕ
  pub last_ping : ℕ
  pub last_pong : ℕ
  pub last_udp_auth : ℕ
  pub last_control_targets : List SocketAddr
  pub control_state : Watch
  pub soft_reconnect_failures : ℕ
  pub hard_reconnect_requested : Bool

-- `setup`, from the session that was established.
unfoldable pub setup : EstablishedControl → List SocketAddr → ℕ → MaintainedControl
setup control addresses now = record {
  control = control;
  last_keep_alive = 0;
  last_ping = 0;
  last_pong = now;
  last_udp_auth = 0;
  last_control_targets = addresses;
  control_state = record { value = ControlConnectionState.connected; sends = 0 };
  soft_reconnect_failures = 0;
  hard_reconnect_requested = false;
}

abbrev eq_state : ControlConnectionState → ControlConnectionState → Bool
eq_state ControlConnectionState.connected ControlConnectionState.connected = true
eq_state ControlConnectionState.connected ControlConnectionState.reconnecting = false
eq_state ControlConnectionState.reconnecting ControlConnectionState.connected = false
eq_state ControlConnectionState.reconnecting ControlConnectionState.reconnecting = true

unfoldable pub send_state : ControlConnectionState → Watch → Watch
send_state state w =
    if eq_state w.value state then w else record { value = state; sends = w.sends + 1 }

unfoldable pub set_control_state : ControlConnectionState → MaintainedControl → MaintainedControl
set_control_state state s = record s { control_state = send_state state s.control_state }

-- `saturating_add(1)`
abbrev pub more_failures : ℕ → ℕ
more_failures n = min (n + 1) (2 ^ 32 - 1)

unfoldable pub note_control_failure : MaintainedControl → MaintainedControl
note_control_failure s = record s {
  soft_reconnect_failures = more_failures s.soft_reconnect_failures;
  hard_reconnect_requested =
      if leb hard_reconnect_failure_threshold (more_failures s.soft_reconnect_failures)
      then true
      else s.hard_reconnect_requested;
}

unfoldable pub take_hard_reconnect_request : MaintainedControl → Bool × MaintainedControl
take_hard_reconnect_request s =
    (s.hard_reconnect_requested, record s { hard_reconnect_requested = false })

-- A failure after which the session is authenticated again.
unfoldable pub fail_session : MaintainedControl → MaintainedControl
unfolding note_control_failure
fail_session s =
    let noted = note_control_failure s in record noted { control = set_expired noted.control }

-- What is sent to the control address.
abbrev pub Requests : Type 0
Requests = List (ControlRpcMessage ControlRequest)

-- The Boolean that the call returns, what is sent, and the state after it.
unfoldable pub send_udp_session_auth :
    MaintainedControl → ℕ → ℕ → Bool → (Bool × Requests) × MaintainedControl
unfolding fail_session
send_udp_session_auth s now_ms min_wait_ms fails =
    if ltb now_ms ((s.last_udp_auth + min_wait_ms) % 2 ^ 64) then ((false, []), s) else (
      (
        true,
        record {
          request_id = 1;
          content = ControlRequest.setup_udp_channel s.control.registered.id;
        }
            ∷ [],
      ),
      if fails
          then fail_session (record s { last_udp_auth = now_ms })
          else record s { last_udp_auth = now_ms },
    )

abbrev ip_of : SocketAddr → IpAddr
ip_of (SocketAddr.v4 a) = IpAddr.v4 a.ip
ip_of (SocketAddr.v6 a) = IpAddr.v6 a.ip

abbrev eq_ip : IpAddr → IpAddr → Bool
eq_ip (IpAddr.v4 a) (IpAddr.v4 b) = a == b
eq_ip (IpAddr.v4 a) (IpAddr.v6 b) = false
eq_ip (IpAddr.v6 a) (IpAddr.v4 b) = false
eq_ip (IpAddr.v6 a) (IpAddr.v6 b) = a == b

unfoldable pub same_flow : ConnectedControl → ConnectedControl → Bool
same_flow a b =
    eq_ip (ip_of a.pong_latest.client_addr) (ip_of b.pong_latest.client_addr)
    && eq_addr a.pong_latest.tunnel_addr b.pong_latest.tunnel_addr

-- What a fresh start of the session resets.
abbrev pub restarted : MaintainedControl → ℕ → MaintainedControl
restarted s now = set_control_state ControlConnectionState.connected (record s {
  last_pong = now;
  last_ping = 0;
  last_keep_alive = 0;
  last_udp_auth = 0;
  soft_reconnect_failures = 0;
  hard_reconnect_requested = false;
})

-- `Result<bool, SetupError>`: an error is `none`. The registration of the new connection, which
-- `authenticate` may have received messages on, is `none` where that failed.
unfoldable pub replace_connection :
    MaintainedControl
    → ConnectedControl
    → Bool
    → Option (ConnectedControl × AgentRegistered)
    → ℕ
    → Option Bool × MaintainedControl
replace_connection s fresh force registration now =
    if not force && same_flow s.control.conn fresh then (some false, s) else elim registration [
      | none ↦ (none, set_control_state ControlConnectionState.reconnecting s)
      | some (conn, registered) ↦ (
        some true,
        restarted
            (record (set_control_state ControlConnectionState.reconnecting s) {
              control = reset_established conn s.control registered;
            })
            now,
      )
    ]

abbrev eq_addrs : List SocketAddr → List SocketAddr → Bool
eq_addrs [] [] = true
eq_addrs [] (b ∷ bs) = false
eq_addrs (a ∷ as') [] = false
eq_addrs (a ∷ as') (b ∷ bs) = eq_addr a b && eq_addrs as' bs

-- `reload_control_addr`: the addresses, the connection to the first that answers, and its
-- registration are `none` where getting them failed.
pub record Reload : Type 0 where
  pub addresses : Option (List SocketAddr)
  pub fresh : Option ConnectedControl
  pub registration : Option (ConnectedControl × AgentRegistered)
  pub now_replaced : ℕ
  pub now_done : ℕ

abbrev after_replace :
    List SocketAddr → ℕ → Option Bool × MaintainedControl → Option Bool × MaintainedControl
after_replace addresses now (none, s) = (none, s)
after_replace addresses now (some updated, s) =
    (some updated, restarted (record s { last_control_targets = addresses }) now)

unfoldable pub reload_control_addr :
    MaintainedControl → Reload → Bool → Option Bool × MaintainedControl
reload_control_addr s r force =
    let announced = if force then set_control_state ControlConnectionState.reconnecting s else s in
    elim r.addresses [
      | none ↦ (none, announced)
      | some addresses ↦
          if not force && eq_addrs s.last_control_targets addresses
          then (some false, announced)
          else (let waiting = set_control_state ControlConnectionState.reconnecting announced in
              elim r.fresh [
                | none ↦ (none, waiting)
                | some fresh ↦
                    after_replace addresses r.now_done
                      (replace_connection waiting fresh force r.registration r.now_replaced)
              ])
    ]

-- ===== src/Control/Maintained/Renewal.antt =====
-- The three ways a round begins: the session is valid, it is authenticated again, or that fails.
use playit_agent.Common.{◌≡◌, refl, inl, inr, Option-cases, false, none, some, []}
use playit_agent.Proto.Response.{AgentRegistered}
use playit_agent.Control.{ExpiredReason, is_expired, authenticated}
use playit_agent.Control.Authenticate.{Answer}
use playit_agent.Control.Maintained.{
  MaintainedControl, ControlConnectionState, set_control_state, note_control_failure,
}
use playit_agent.Control.Maintained.Update.{Outside, reauthenticate, renew, round, update}

-- The state after a successful authentication.
abbrev pub renewed_state : MaintainedControl → Outside → AgentRegistered → MaintainedControl
renewed_state s o r =
    set_control_state ControlConnectionState.connected
      (record (set_control_state ControlConnectionState.reconnecting s) {
        control =
            authenticated (record s.control { conn = o.attempted.conn }) r o.now_authenticated;
        soft_reconnect_failures = 0;
        hard_reconnect_requested = false;
        last_pong = o.now_renewed;
      })

abbrev pub failed_state : MaintainedControl → Outside → MaintainedControl
failed_state s o =
    note_control_failure (record (set_control_state ControlConnectionState.reconnecting s) {
      control = record s.control { conn = o.attempted.conn };
    })

pub data Renewal (s : MaintainedControl) (o : Outside) : Type 0 where
  valid : is_expired s.control o.now_expired ≡ none → update s o ≡ round s o → Renewal s o
  renewed :
      (reason : ExpiredReason) (r : AgentRegistered)
      → is_expired s.control o.now_expired ≡ some reason
      → o.attempted.answer ≡ some (Answer.registered r)
      → update s o ≡ round (renewed_state s o r) o
      → Renewal s o
  failed :
      (reason : ExpiredReason)
      → is_expired s.control o.now_expired ≡ some reason
      → update s o ≡ record { sent = []; event = none; after = failed_state s o }
      → Renewal s o

pub Renewal-cases : (s : MaintainedControl) (o : Outside) → Renewal s o
unfolding update renew reauthenticate
Renewal-cases s o = elim (Option-cases (is_expired s.control o.now_expired)) [
  | inl lives ↦ Renewal.valid lives (rw (update, renew, lives) refl)
  | inr (reason, over) ↦ elim (Option-cases o.attempted.answer) [
    | inl silent ↦
        Renewal.failed reason over (rw (update, renew, over, reauthenticate, silent) refl)
    | inr (answer, given) ↦ by_answer reason over answer given
  ]
]
  where
    by_answer :
        (reason : ExpiredReason)
        → is_expired s.control o.now_expired ≡ some reason
        → (answer : Answer) → o.attempted.answer ≡ some answer
        → Renewal s o
    by_answer reason over (Answer.registered r) given =
        Renewal.renewed reason r over given (rw (update, renew, over, reauthenticate, given) refl)
    by_answer reason over (Answer.refused error) given =
        Renewal.failed reason over (rw (update, renew, over, reauthenticate, given) refl)

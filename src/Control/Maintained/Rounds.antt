-- ===== src/Control/Maintained/Rounds.antt =====
-- What a round does to a session that is expired, and when the state turns to connected.
use playit_agent.Common.{
  ◌≤◌, ◌≡◌, ◌≢◌, refl, sym, ◌∙◌, inl, inr, Bool-cases, true, false, none, some, [], leb-true,
  none_some, arith,
}
use playit_agent.Proto.Response.{AgentRegistered}
use playit_agent.Control.{ExpiredReason, is_expired}
use playit_agent.Control.Authenticate.{Answer}
use playit_agent.Control.Maintained.{
  MaintainedControl, ControlConnectionState, Watch, eq_state, send_state, set_control_state,
  note_control_failure, take_hard_reconnect_request, more_failures,
}
use playit_agent.Control.Maintained.Update.{Outside, update}
use playit_agent.Control.Maintained.Renewal.{Renewal, Renewal-cases, failed_state}

pub send_state-value :
    (state : ControlConnectionState) (w : Watch) → (send_state state w).value ≡ state
unfolding send_state
send_state-value state w = elim (Bool-cases (eq_state w.value state)) [
  | inl same ↦ rw (send_state, same) (eq_state_sound w.value state same)
  | inr differ ↦ rw (send_state, differ) refl
]
  where
    eq_state_sound : (a b : ControlConnectionState) → eq_state a b ≡ true → a ≡ b
    eq_state_sound ControlConnectionState.connected ControlConnectionState.connected h = refl
    eq_state_sound ControlConnectionState.connected ControlConnectionState.reconnecting h = cc h
    eq_state_sound ControlConnectionState.reconnecting ControlConnectionState.connected h = cc h
    eq_state_sound ControlConnectionState.reconnecting ControlConnectionState.reconnecting h = refl

-- The session is expired and no registration comes.
abbrev pub Fails : MaintainedControl → Outside → Type 0
Fails s o =
    ((reason : ExpiredReason) × (is_expired s.control o.now_expired ≡ some reason))
    × ((r : AgentRegistered) → o.attempted.answer ≢ some (Answer.registered r))

Fails-failed_state :
    (s : MaintainedControl) (o : Outside)
    → Fails s o
    → update s o ≡ record { sent = []; event = none; after = failed_state s o }
Fails-failed_state s o ((reason, over), unanswered) = elim (Renewal-cases s o) [
  | Renewal.valid lives _ ↦ absurd (none_some (sym lives ∙ over))
  | Renewal.renewed _ r _ given _ ↦ absurd (unanswered r given)
  | Renewal.failed _ _ outcome ↦ outcome
]

-- A round on an expired session that does not get a registration sends nothing and has no event: it
-- announces that the agent reconnects and counts one more failure, and the ping and the keep-alive
-- stay due.
pub update-Fails :
    (s : MaintainedControl) (o : Outside)
    → Fails s o
    → ((update s o).sent ≡ [])
      × ((update s o).event ≡ none)
      × ((update s o).after.control_state.value ≡ ControlConnectionState.reconnecting)
      × ((update s o).after.soft_reconnect_failures ≡ more_failures s.soft_reconnect_failures)
      × ((update s o).after.last_ping ≡ s.last_ping)
      × ((update s o).after.last_keep_alive ≡ s.last_keep_alive)
unfolding note_control_failure set_control_state
update-Fails s o fails = rw (Fails-failed_state s o fails) (
  refl,
  refl,
  send_state-value ControlConnectionState.reconnecting s.control_state,
  refl,
  refl,
  refl,
)

requested-failed_state :
    (s : MaintainedControl) (o : Outside)
    → Fails s o
    → 3 ≤ more_failures s.soft_reconnect_failures
    → (update s o).after.hard_reconnect_requested ≡ true
unfolding note_control_failure set_control_state
requested-failed_state s o fails many =
    rw (Fails-failed_state s o fails)
      (rw (leb-true 3 (more_failures s.soft_reconnect_failures) many) refl)

-- Three rounds in a row that fail to authenticate an expired session request a hard reconnect,
-- whatever came before, and the request is taken once.
pub update-hard_reconnect :
    (s : MaintainedControl) (o₁ o₂ o₃ : Outside)
    → Fails s o₁
    → Fails (update s o₁).after o₂
    → Fails (update (update s o₁).after o₂).after o₃
    → let last : MaintainedControl = (update (update (update s o₁).after o₂).after o₃).after in
      ((take_hard_reconnect_request last).0 ≡ true)
      × ((take_hard_reconnect_request (take_hard_reconnect_request last).1).0 ≡ false)
unfolding take_hard_reconnect_request
update-hard_reconnect s o₁ o₂ o₃ first second third =
    let s₁ : MaintainedControl = (update s o₁).after in
    let s₂ : MaintainedControl = (update s₁ o₂).after in
    let one : s₁.soft_reconnect_failures ≡ more_failures s.soft_reconnect_failures =
      (update-Fails s o₁ first).3 in
    let two : s₂.soft_reconnect_failures ≡ more_failures s₁.soft_reconnect_failures =
      (update-Fails s₁ o₂ second).3 in
    (requested-failed_state s₂ o₃ third (omega (arith, one, two)), refl)

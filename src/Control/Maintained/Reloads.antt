-- ===== src/Control/Maintained/Reloads.antt =====
-- What a reload of the control addresses leaves and what it renews.
use playit_agent.Common.{
  ℕ, ◌≡◌, refl, sym, ap, ◌∙◌, inl, inr, Option-cases, Bool-cases, Bool, true, false, Option, none,
  some, List, not, ◌&&◌, if◌then◌else◌, none_some,
}
use playit_agent.Wire.{SocketAddr}
use playit_agent.Proto.Response.{AgentRegistered}
use playit_agent.Control.{ConnectedControl, reset_established}
use playit_agent.Control.Maintained.{
  MaintainedControl, ControlConnectionState, Reload, send_state, set_control_state,
  replace_connection, reload_control_addr, same_flow, eq_addrs, after_replace,
}
use playit_agent.Control.Maintained.Rounds.{send_state-value}

-- The two states differ at most in what is announced.
abbrev Announced : MaintainedControl → MaintainedControl → Type 0
Announced s t = t ≡ record s { control_state = t.control_state }

state-Announced :
    (state : ControlConnectionState) (s t : MaintainedControl)
    → Announced s t
    → Announced s (set_control_state state t)
unfolding set_control_state
state-Announced state s t e =
    ap (λ (u : MaintainedControl). record u { control_state = send_state state t.control_state }) e

replace_connection-error :
    (s t : MaintainedControl) (fresh : ConnectedControl) (force : Bool)
    (registration : Option (ConnectedControl × AgentRegistered)) (now : ℕ)
    → Announced s t
    → (replace_connection t fresh force registration now).0 ≡ none
    → Announced s (replace_connection t fresh force registration now).1
unfolding replace_connection
replace_connection-error s t fresh force registration now e h =
    elim (Bool-cases (not force && same_flow t.control.conn fresh)) [
      | inl same ↦ rw (replace_connection, same) e
      | inr differ ↦ elim (Option-cases registration) [
        | inl refused ↦
            rw (replace_connection, differ, refused)
              (state-Announced ControlConnectionState.reconnecting s t e)
        | inr ((conn, registered), given) ↦
            absurd (none_some (sym (rw (replace_connection, differ, given) at h)))
      ]
    ]

after_replace-error :
    (s : MaintainedControl) (addresses : List SocketAddr) (now : ℕ)
    (p : Option Bool × MaintainedControl)
    → (p.0 ≡ none → Announced s p.1)
    → (after_replace addresses now p).0 ≡ none
    → Announced s (after_replace addresses now p).1
after_replace-error s addresses now (none, t) k h = k refl
after_replace-error s addresses now (some updated, t) k h = absurd (none_some (sym h))

-- A reload that ends in an error leaves all as it was but the announced state: the old session, its
-- times, its failures and the known addresses stay in use.
pub reload_control_addr-error :
    (s : MaintainedControl) (r : Reload) (force : Bool)
    → (reload_control_addr s r force).0 ≡ none
    → (reload_control_addr s r force).1
      ≡ record s { control_state = (reload_control_addr s r force).1.control_state }
unfolding reload_control_addr
reload_control_addr-error s r force h =
    let t : MaintainedControl =
      if force then set_control_state ControlConnectionState.reconnecting s else s in
    let announced : Announced s t = announced_state force in
    elim (Option-cases r.addresses) [
      | inl none_given ↦ rw (reload_control_addr, none_given) announced
      | inr (addresses, given) ↦
          elim (Bool-cases (not force && eq_addrs s.last_control_targets addresses)) [
            | inl same ↦ rw (reload_control_addr, given, same) announced
            | inr differ ↦ elim (Option-cases r.fresh) [
              | inl unreached ↦
                  rw (reload_control_addr, given, differ, unreached)
                    (state-Announced ControlConnectionState.reconnecting s t announced)
              | inr (fresh, reached) ↦
                  let waiting : MaintainedControl =
                    set_control_state ControlConnectionState.reconnecting t in
                  rw (reload_control_addr, given, differ, reached)
                    (after_replace-error s addresses r.now_done
                      (replace_connection waiting fresh force r.registration r.now_replaced)
                      (replace_connection-error s waiting fresh force r.registration r.now_replaced
                        (state-Announced ControlConnectionState.reconnecting s t announced))
                      (rw (reload_control_addr, given, differ, reached) at h))
            ]
          ]
    ]
  where
    announced_state :
        (force : Bool)
        → Announced s (if force then set_control_state ControlConnectionState.reconnecting s else s)
    announced_state true = state-Announced ControlConnectionState.reconnecting s s refl
    announced_state false = refl

-- What a forced reload that succeeds has done.
pub record Renewed (s : MaintainedControl) (r : Reload) : Type 0 where
  pub answer : (reload_control_addr s r true).0 ≡ some true
  pub addresses : r.addresses ≡ some (reload_control_addr s r true).1.last_control_targets
  pub state :
      (reload_control_addr s r true).1.control_state.value ≡ ControlConnectionState.connected
  pub lives : (reload_control_addr s r true).1.control.force_expired ≡ false
  pub last_pong : (reload_control_addr s r true).1.last_pong ≡ r.now_done
  pub failures : (reload_control_addr s r true).1.soft_reconnect_failures ≡ 0

-- A forced reload that is not an error has replaced the connection: its answer is yes, the addresses
-- are the new ones, the state is connected, the session is not marked as expired, the last pong is
-- the time of the reload, and no failure is left.
pub reload_control_addr-forced :
    (s : MaintainedControl) (r : Reload) (b : Bool)
    → (reload_control_addr s r true).0 ≡ some b
    → Renewed s r
unfolding reload_control_addr replace_connection reset_established set_control_state
reload_control_addr-forced s r b h = elim (Option-cases r.addresses) [
  | inl none_given ↦ absurd (none_some (rw (reload_control_addr, none_given) at h))
  | inr (addresses, given) ↦ elim (Option-cases r.fresh) [
    | inl unreached ↦ absurd (none_some (rw (reload_control_addr, given, unreached) at h))
    | inr (fresh, reached) ↦ elim (Option-cases r.registration) [
      | inl refused ↦
          absurd
            (none_some (rw (reload_control_addr, given, reached, replace_connection, refused) at h))
      | inr ((conn, registered), accepted) ↦ record {
        answer = rw (reload_control_addr, given, reached, replace_connection, accepted) refl;
        addresses =
            given ∙ rw (reload_control_addr, given, reached, replace_connection, accepted) refl;
        state =
            rw (reload_control_addr, given, reached, replace_connection, accepted)
              (send_state-value ControlConnectionState.connected _);
        lives = rw (reload_control_addr, given, reached, replace_connection, accepted) refl;
        last_pong = rw (reload_control_addr, given, reached, replace_connection, accepted) refl;
        failures = rw (reload_control_addr, given, reached, replace_connection, accepted) refl;
      }
    ]
  ]
]

-- ===== src/Control/Maintained/Runs.antt =====
-- The maintained session over any sequence of its operations, and what a reload does to it.
use playit_agent.Common.{
  ℕ, ◌+◌, ◌%◌, ◌^◌, ◌<◌, ◌≡◌, inl, inr, Option-cases, Bool-cases, Bool, true, false, Option, none,
  some, List, ltb, not, ◌&&◌, if◌then◌else◌, arith,
}
use playit_agent.Wire.{SocketAddr}
use playit_agent.Proto.Response.{AgentRegistered}
use playit_agent.Control.{ConnectedControl, EstablishedControl, Receipt, reset_established}
use playit_agent.Control.Maintained.{
  MaintainedControl, ControlConnectionState, Reload, setup, set_control_state, note_control_failure,
  take_hard_reconnect_request, send_udp_session_auth, replace_connection, reload_control_addr,
  restarted, same_flow, eq_addrs, after_replace,
}
use playit_agent.Control.Maintained.Update.{Waited, Outside, round, update}
use playit_agent.Control.Maintained.Renewal.{Renewal, Renewal-cases, failed_state, renewed_state}
use playit_agent.Control.Maintained.Holds.{round-holds}
use playit_agent.Control.Maintained.Invariant.{
  Sound, note-requested, fail_session-Sound, ping_if_due-Sound, keep_alive_if_due-Sound,
  on_receipt-Sound, check_silence-Sound,
}

-- The clock is past 0 where the round keeps a time of a pong.
pub record Timed (o : Outside) : Type 0 where
  pub renewed : 0 < o.now_renewed
  pub arrivals :
      (i : ℕ) (r : Receipt) (now now_pong : ℕ)
      → o.waited i ≡ Waited.arrived r now now_pong
      → 0 < now_pong

round-Sound : (s : MaintainedControl) (o : Outside) → Timed o → Sound s → Sound (round s o).after
round-Sound s o timed h =
    round-holds Sound o (λ t sound. ping_if_due-Sound t o sound)
      (λ t sound. keep_alive_if_due-Sound t o sound)
      (λ t i r now now_pong e sound.
        on_receipt-Sound t r now now_pong (timed.arrivals i r now now_pong e) sound)
      (λ t sound. check_silence-Sound t o.now_end sound) s h

renewed_state-Sound :
    (s : MaintainedControl) (o : Outside) (r : AgentRegistered)
    → Timed o
    → Sound (renewed_state s o r)
unfolding set_control_state
renewed_state-Sound s o r timed = record {
  silent = λ e. absurd (let later : 0 < o.now_renewed = timed.renewed in omega (arith, later, e));
  requested = λ e. absurd (cc e);
}

failed_state-Sound : (s : MaintainedControl) (o : Outside) → Sound s → Sound (failed_state s o)
unfolding note_control_failure set_control_state
failed_state-Sound s o h = record {
  silent = h.silent;
  requested = note-requested s.soft_reconnect_failures s.hard_reconnect_requested h.requested;
}

pub update-Sound :
    (s : MaintainedControl) (o : Outside) → Timed o → Sound s → Sound (update s o).after
update-Sound s o timed h = elim (Renewal-cases s o) [
  | Renewal.valid lives outcome ↦ rw outcome (round-Sound s o timed h)
  | Renewal.renewed reason r over given outcome ↦
      rw outcome (round-Sound (renewed_state s o r) o timed (renewed_state-Sound s o r timed))
  | Renewal.failed reason over outcome ↦ rw outcome (failed_state-Sound s o h)
]

restarted-Sound : (s : MaintainedControl) (now : ℕ) → 0 < now → Sound (restarted s now)
unfolding set_control_state
restarted-Sound s now later = record {
  silent = λ e. absurd (omega (arith, later, e));
  requested = λ e. absurd (cc e);
}

state-Sound :
    (state : ControlConnectionState) (s : MaintainedControl)
    → Sound s
    → Sound (set_control_state state s)
unfolding set_control_state
state-Sound state s h = record { silent = h.silent; requested = h.requested }

replace_connection-Sound :
    (s : MaintainedControl) (fresh : ConnectedControl) (force : Bool)
    (registration : Option (ConnectedControl × AgentRegistered)) (now : ℕ)
    → 0 < now
    → Sound s
    → Sound (replace_connection s fresh force registration now).1
unfolding replace_connection
replace_connection-Sound s fresh force registration now later h =
    elim (Bool-cases (not force && same_flow s.control.conn fresh)) [
      | inl same ↦ rw (replace_connection, same) h
      | inr differ ↦ elim (Option-cases registration) [
        | inl refused ↦
            rw (replace_connection, differ, refused)
              (state-Sound ControlConnectionState.reconnecting s h)
        | inr ((conn, registered), given) ↦
            rw (replace_connection, differ, given)
              (restarted-Sound
                (record (set_control_state ControlConnectionState.reconnecting s) {
                  control = reset_established conn s.control registered;
                })
                now later)
      ]
    ]

after_replace-Sound :
    (addresses : List SocketAddr) (now : ℕ) (p : Option Bool × MaintainedControl)
    → 0 < now
    → Sound p.1
    → Sound (after_replace addresses now p).1
after_replace-Sound addresses now (none, s) later h = h
after_replace-Sound addresses now (some updated, s) later h =
    restarted-Sound (record s { last_control_targets = addresses }) now later

reload_control_addr-Sound :
    (s : MaintainedControl) (r : Reload) (force : Bool)
    → 0 < r.now_replaced
    → 0 < r.now_done
    → Sound s
    → Sound (reload_control_addr s r force).1
unfolding reload_control_addr
reload_control_addr-Sound s r force replaced done h =
    let t : MaintainedControl =
      if force then set_control_state ControlConnectionState.reconnecting s else s in
    let announced : Sound t = announced-Sound force in
    elim (Option-cases r.addresses) [
      | inl none_given ↦ rw (reload_control_addr, none_given) announced
      | inr (addresses, given) ↦
          elim (Bool-cases (not force && eq_addrs s.last_control_targets addresses)) [
            | inl same ↦ rw (reload_control_addr, given, same) announced
            | inr differ ↦ elim (Option-cases r.fresh) [
              | inl unreached ↦
                  rw (reload_control_addr, given, differ, unreached)
                    (state-Sound ControlConnectionState.reconnecting t announced)
              | inr (fresh, reached) ↦
                  rw (reload_control_addr, given, differ, reached)
                    (after_replace-Sound addresses r.now_done
                      (replace_connection (set_control_state ControlConnectionState.reconnecting t)
                        fresh force r.registration r.now_replaced)
                      done
                      (replace_connection-Sound
                        (set_control_state ControlConnectionState.reconnecting t) fresh force
                        r.registration r.now_replaced replaced
                        (state-Sound ControlConnectionState.reconnecting t announced)))
            ]
          ]
    ]
  where
    announced-Sound :
        (force : Bool)
        → Sound (if force then set_control_state ControlConnectionState.reconnecting s else s)
    announced-Sound true = state-Sound ControlConnectionState.reconnecting s h
    announced-Sound false = h

send_udp_session_auth-Sound :
    (s : MaintainedControl) (now_ms min_wait_ms : ℕ) (fails : Bool)
    → Sound s
    → Sound (send_udp_session_auth s now_ms min_wait_ms fails).1
unfolding send_udp_session_auth
send_udp_session_auth-Sound s now_ms min_wait_ms fails h =
    elim (Bool-cases (ltb now_ms ((s.last_udp_auth + min_wait_ms) % 2 ^ 64))) [
      | inl early ↦ rw (send_udp_session_auth, early) h
      | inr due ↦ elim (Bool-cases fails) [
        | inl lost ↦
            rw (send_udp_session_auth, due, lost)
              (fail_session-Sound (record s { last_udp_auth = now_ms }) h.requested)
        | inr sent ↦
            rw (send_udp_session_auth, due, sent)
              (record { silent = h.silent; requested = h.requested })
      ]
    ]

-- One operation of the session, and the states that any sequence of them leads to. The clock is past
-- 0 where a time is kept.
pub data Step (s : MaintainedControl) : MaintainedControl → Type 0 where
  updated : (o : Outside) → Timed o → Step s (update s o).after
  reloaded :
      (r : Reload) (force : Bool)
      → 0 < r.now_replaced
      → 0 < r.now_done
      → Step s (reload_control_addr s r force).1
  authorized :
      (now_ms min_wait_ms : ℕ) (fails : Bool)
      → Step s (send_udp_session_auth s now_ms min_wait_ms fails).1
  taken : Step s (take_hard_reconnect_request s).1

pub data Reachable : MaintainedControl → Type 0 where
  start :
      (control : EstablishedControl) (addresses : List SocketAddr) (now : ℕ)
      → 0 < now
      → Reachable (setup control addresses now)
  next : {s s' : MaintainedControl} → Reachable s → Step s s' → Reachable s'

-- In every state that the operations lead to, a session without a last pong is marked as expired, so
-- that the next round authenticates it again, and a hard reconnect is only requested after three
-- failures since the last success.
pub Reachable-Sound : (s : MaintainedControl) → Reachable s → Sound s
unfolding setup take_hard_reconnect_request
Reachable-Sound _ (Reachable.start control addresses now later) = record {
  silent = λ e. absurd (omega (arith, later, e));
  requested = λ e. absurd (cc e);
}
Reachable-Sound _ (Reachable.next {s = t} before (Step.updated o timed)) =
    update-Sound t o timed (Reachable-Sound t before)
Reachable-Sound _ (Reachable.next {s = t} before (Step.reloaded r force replaced done)) =
    reload_control_addr-Sound t r force replaced done (Reachable-Sound t before)
Reachable-Sound _ (Reachable.next {s = t} before (Step.authorized now_ms min_wait_ms fails)) =
    send_udp_session_auth-Sound t now_ms min_wait_ms fails (Reachable-Sound t before)
Reachable-Sound _ (Reachable.next {s = t} before Step.taken) = record {
  silent = (Reachable-Sound t before).silent;
  requested = λ e. absurd (cc e);
}

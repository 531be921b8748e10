-- ===== src/Control/Maintained/States.antt =====
-- When the announced state turns to connected, and what an error of a reload leaves as it was.
use playit_agent.Common.{
  ℕ, ◌≡◌, ◌≢◌, refl, sym, ap, ◌∙◌, ◌⊎◌, inl, inr, Bool-cases, some, ltb, not, ◌&&◌, ◌==◌,
}
use playit_agent.Proto.Response.{AgentRegistered, ControlResponse}
use playit_agent.Proto.Feed.{ControlFeed}
use playit_agent.Control.{ExpiredReason, Receipt, is_expired, set_expired, minus_u64, recv_feed_msg}
use playit_agent.Control.Authenticate.{Answer}
use playit_agent.Control.Maintained.{
  MaintainedControl, ControlConnectionState, Watch, send_state, set_control_state, fail_session,
  note_control_failure,
}
use playit_agent.Control.Maintained.Update.{
  Outside, Updated, ping_if_due, keep_alive_if_due, on_feed, on_receipt, check_silence, round,
  update, keep_alive_interval,
}
use playit_agent.Control.Maintained.Renewal.{Renewal, Renewal-cases}
use playit_agent.Control.Maintained.Holds.{round-holds}
use playit_agent.Control.Maintained.Rounds.{send_state-value}

-- The state is as it was, or that the agent reconnects.
abbrev Quiet : MaintainedControl → MaintainedControl → Type 0
Quiet s t =
    (t.control_state ≡ s.control_state)
    ⊎ (t.control_state.value ≡ ControlConnectionState.reconnecting)

Quiet-trans : (s t u : MaintainedControl) → Quiet s t → Quiet t u → Quiet s u
Quiet-trans s t u f (inr there) = inr there
Quiet-trans s t u (inl e) (inl e') = inl (e' ∙ e)
Quiet-trans s t u (inr there) (inl e) = inr (ap (λ (w : Watch). w.value) e ∙ there)

reconnecting-Quiet :
    (s t : MaintainedControl)
    → t.control_state ≡ send_state ControlConnectionState.reconnecting s.control_state
    → Quiet s t
reconnecting-Quiet s t e = inr (
    ap (λ (w : Watch). w.value) e
    ∙ send_state-value ControlConnectionState.reconnecting s.control_state)

ping_if_due-Quiet : (s : MaintainedControl) (o : Outside) → Quiet s (ping_if_due s o).1
unfolding ping_if_due fail_session note_control_failure
ping_if_due-Quiet s o = elim (Bool-cases (ltb 1_000 (minus_u64 o.now s.last_ping))) [
  | inr early ↦ rw (ping_if_due, early) (inl refl)
  | inl due ↦ elim (Bool-cases o.ping_fails) [
    | inl lost ↦ rw (ping_if_due, due, lost) (inl refl)
    | inr sent ↦ rw (ping_if_due, due, sent) (inl refl)
  ]
]

keep_alive_if_due-Quiet : (s : MaintainedControl) (o : Outside) → Quiet s (keep_alive_if_due s o).1
unfolding keep_alive_if_due fail_session note_control_failure
keep_alive_if_due-Quiet s o =
    elim (Bool-cases (ltb (keep_alive_interval s o.now) (minus_u64 o.now s.last_keep_alive))) [
      | inr early ↦ rw (keep_alive_if_due, early) (inl refl)
      | inl due ↦ elim (Bool-cases o.keep_alive_fails) [
        | inl lost ↦ rw (keep_alive_if_due, due, lost) (inl refl)
        | inr sent ↦ rw (keep_alive_if_due, due, sent) (inl refl)
      ]
    ]

on_content-Quiet :
    (s : MaintainedControl) (id : ℕ) (content : ControlResponse) (now_pong : ℕ)
    → Quiet s
        (on_feed s
          (ControlFeed.response (record { request_id = id; content = content }))
          now_pong).1
unfolding on_feed set_control_state
on_content-Quiet s id (ControlResponse.pong p) now_pong = inl refl
on_content-Quiet s id ControlResponse.invalid_signature now_pong = inl refl
on_content-Quiet s id ControlResponse.unauthorized now_pong =
    reconnecting-Quiet s
      (record (set_control_state ControlConnectionState.reconnecting s) {
        control = set_expired s.control;
      })
      refl
on_content-Quiet s id ControlResponse.request_queued now_pong = inl refl
on_content-Quiet s id ControlResponse.try_again_later now_pong = inl refl
on_content-Quiet s id (ControlResponse.agent_registered r) now_pong = inl refl
on_content-Quiet s id (ControlResponse.agent_port_mapping m) now_pong = inl refl
on_content-Quiet s id (ControlResponse.udp_channel_details d) now_pong = inl refl
on_content-Quiet s id (ControlResponse.check_mtu_received_ack a) now_pong = inl refl
on_content-Quiet s id (ControlResponse.mtu_test_packet p) now_pong = inl refl
on_content-Quiet s id (ControlResponse.mtu_test_fail f) now_pong = inl refl

on_receipt-Quiet :
    (s : MaintainedControl) (r : Receipt) (now now_pong : ℕ)
    → Quiet s (on_receipt s r now now_pong).1
unfolding on_receipt on_feed
on_receipt-Quiet s (Receipt.received c (ControlFeed.new_client n)) now now_pong = inl refl
on_receipt-Quiet s (Receipt.received c (ControlFeed.new_client_old n)) now now_pong = inl refl
on_receipt-Quiet s (Receipt.received c (ControlFeed.response m)) now now_pong =
    on_content-Quiet
      (record s {
        control = recv_feed_msg s.control (Receipt.received c (ControlFeed.response m)) now;
      })
      m.request_id m.content now_pong
on_receipt-Quiet s (Receipt.invalid_remote expected got) now now_pong = inl refl
on_receipt-Quiet s (Receipt.failed_to_read_control_feed e) now now_pong = inl refl
on_receipt-Quiet s Receipt.io_error now now_pong = inl refl
on_receipt-Quiet s Receipt.aborted now now_pong = inl refl

check_silence-Quiet : (s : MaintainedControl) (now : ℕ) → Quiet s (check_silence s now)
unfolding check_silence fail_session note_control_failure set_control_state
check_silence-Quiet s now =
    elim (Bool-cases (not (s.last_pong == 0) && ltb 6_000 (minus_u64 now s.last_pong))) [
      | inl silent ↦
          rw (check_silence, silent)
            (reconnecting-Quiet s (set_control_state ControlConnectionState.reconnecting s) refl)
      | inr heard ↦ rw (check_silence, heard) (inl refl)
    ]

-- Whatever a round does, the state is as it was, or that the agent reconnects.
round-Quiet : (s : MaintainedControl) (o : Outside) → Quiet s (round s o).after
unfolding check_silence fail_session note_control_failure set_control_state
round-Quiet s o =
    round-holds (Quiet s) o
      (λ t quiet. Quiet-trans s t (ping_if_due t o).1 quiet (ping_if_due-Quiet t o))
      (λ t quiet. Quiet-trans s t (keep_alive_if_due t o).1 quiet (keep_alive_if_due-Quiet t o))
      (λ t i r now now_pong e quiet.
        Quiet-trans s t (on_receipt t r now now_pong).1 quiet (on_receipt-Quiet t r now now_pong))
      (λ t quiet.
        Quiet-trans s t (check_silence t o.now_end) quiet (check_silence-Quiet t o.now_end))
      s (inl refl)

-- A round turns the announced state to connected only by a registration: where it is connected after
-- a round, it was before, or the session was expired and a registration came.
pub update-connected :
    (s : MaintainedControl) (o : Outside)
    → (update s o).after.control_state.value ≡ ControlConnectionState.connected
    → (s.control_state.value ≡ ControlConnectionState.connected)
      ⊎ ((reason : ExpiredReason) × (r : AgentRegistered) × (is_expired s.control o.now_expired
            ≡ some reason)
          × (o.attempted.answer ≡ some (Answer.registered r)))
unfolding note_control_failure set_control_state
update-connected s o h = elim (Renewal-cases s o) [
  | Renewal.valid lives outcome ↦ inl (elim (round-Quiet s o) [
    | inl same ↦
        ap (λ (w : Watch). w.value) (sym same)
        ∙ ap (λ (u : Updated). u.after.control_state.value) (sym outcome)
        ∙ h
    | inr there ↦
        absurd
          (apart (sym there ∙ ap (λ (u : Updated). u.after.control_state.value) (sym outcome) ∙ h))
  ])
  | Renewal.renewed reason r over given outcome ↦ inr (reason, r, over, given)
  | Renewal.failed reason over outcome ↦ absurd (
      apart (
        sym (send_state-value ControlConnectionState.reconnecting s.control_state)
        ∙ ap (λ (u : Updated). u.after.control_state.value) (sym outcome)
        ∙ h))
]
  where
    apart : ControlConnectionState.reconnecting ≢ ControlConnectionState.connected
    apart e = cc e

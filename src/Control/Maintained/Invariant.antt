-- ===== src/Control/Maintained/Invariant.antt =====
-- What holds of the maintained session in every state: no pong ever means that it is given up, and
-- a hard reconnect is asked for after three failures only.
use playit_agent.Common.{
  ℕ, ◌≤◌, ◌<◌, ◌≡◌, refl, ◌∙◌, inl, inr, Option-cases, Bool-cases, Bool, true, leb, ltb, leb→le,
  leb→gt, not, ◌&&◌, ◌==◌, if◌then◌else◌, arith,
}
use playit_agent.Proto.Response.{ControlResponse, Pong}
use playit_agent.Proto.Feed.{ControlFeed}
use playit_agent.Control.{
  EstablishedControl, Receipt, set_expired, minus_u64, recv_feed_msg, record_response, record_pong,
}
use playit_agent.Control.Maintained.{
  MaintainedControl, ControlConnectionState, set_control_state, fail_session, note_control_failure,
  more_failures,
}
use playit_agent.Control.Maintained.Update.{
  Outside, ping_if_due, keep_alive_if_due, keep_alive_interval, on_feed, on_receipt, check_silence,
}

pub record Sound (s : MaintainedControl) : Type 0 where
  pub silent : s.last_pong ≡ 0 → s.control.force_expired ≡ true
  pub requested : s.hard_reconnect_requested ≡ true → 3 ≤ s.soft_reconnect_failures

-- The flag and the count after one more failure.
pub note-requested :
    (n : ℕ) (flag : Bool)
    → (flag ≡ true → 3 ≤ n)
    → (if leb 3 (more_failures n) then true else flag) ≡ true
    → 3 ≤ more_failures n
note-requested n flag h raised = elim (Bool-cases (leb 3 (more_failures n))) [
  | inl many ↦ leb→le 3 (more_failures n) many
  | inr few ↦
      absurd (
        let counted : 3 ≤ n = h (rw few at raised) in omega (arith, leb→gt 3 (more_failures n) few))
]

pub fail_session-Sound :
    (s : MaintainedControl)
    → (s.hard_reconnect_requested ≡ true → 3 ≤ s.soft_reconnect_failures)
    → Sound (fail_session s)
unfolding fail_session note_control_failure set_expired
fail_session-Sound s h = record {
  silent = λ e. refl;
  requested = note-requested s.soft_reconnect_failures s.hard_reconnect_requested h;
}

pub ping_if_due-Sound : (s : MaintainedControl) (o : Outside) → Sound s → Sound (ping_if_due s o).1
unfolding ping_if_due
ping_if_due-Sound s o h = elim (Bool-cases (ltb 1_000 (minus_u64 o.now s.last_ping))) [
  | inr early ↦ rw (ping_if_due, early) h
  | inl due ↦ elim (Bool-cases o.ping_fails) [
    | inl lost ↦
        rw (ping_if_due, due, lost)
          (fail_session-Sound (record s { last_ping = o.now }) h.requested)
    | inr sent ↦ rw (ping_if_due, due, sent) (record { silent = h.silent; requested = h.requested })
  ]
]

pub keep_alive_if_due-Sound :
    (s : MaintainedControl) (o : Outside) → Sound s → Sound (keep_alive_if_due s o).1
unfolding keep_alive_if_due
keep_alive_if_due-Sound s o h =
    elim (Bool-cases (ltb (keep_alive_interval s o.now) (minus_u64 o.now s.last_keep_alive))) [
      | inr early ↦ rw (keep_alive_if_due, early) h
      | inl due ↦ elim (Bool-cases o.keep_alive_fails) [
        | inl lost ↦
            rw (keep_alive_if_due, due, lost)
              (fail_session-Sound (record s { last_keep_alive = o.now }) h.requested)
        | inr sent ↦
            rw (keep_alive_if_due, due, sent)
              (record { silent = h.silent; requested = h.requested })
      ]
    ]

-- A message does not take back that the session is given up.
record_pong-force_expired :
    (e : EstablishedControl) (p : Pong) (now : ℕ)
    → (record_pong e p now).force_expired ≡ e.force_expired
unfolding record_pong
record_pong-force_expired e p now = elim (Option-cases p.session_expire_at) [
  | inl untold ↦ rw (record_pong, untold) refl
  | inr (t, told) ↦ rw (record_pong, told) refl
]

record_response-force_expired :
    (e : EstablishedControl) (r : ControlResponse) (now : ℕ)
    → (record_response e r now).force_expired ≡ e.force_expired
unfolding record_response
record_response-force_expired e (ControlResponse.pong p) now = record_pong-force_expired e p now
record_response-force_expired e ControlResponse.invalid_signature now = refl
record_response-force_expired e ControlResponse.unauthorized now = refl
record_response-force_expired e ControlResponse.request_queued now = refl
record_response-force_expired e ControlResponse.try_again_later now = refl
record_response-force_expired e (ControlResponse.agent_registered r) now = refl
record_response-force_expired e (ControlResponse.agent_port_mapping m) now = refl
record_response-force_expired e (ControlResponse.udp_channel_details d) now = refl
record_response-force_expired e (ControlResponse.check_mtu_received_ack a) now = refl
record_response-force_expired e (ControlResponse.mtu_test_packet p) now = refl
record_response-force_expired e (ControlResponse.mtu_test_fail f) now = refl

on_content-Sound :
    (s : MaintainedControl) (id : ℕ) (content : ControlResponse) (now_pong : ℕ)
    → 0 < now_pong
    → Sound s
    → Sound
        (on_feed s
          (ControlFeed.response (record { request_id = id; content = content }))
          now_pong).1
unfolding on_feed set_control_state set_expired
on_content-Sound s id (ControlResponse.pong p) now_pong later h = record {
  silent = λ e. absurd (omega (arith, later, e));
  requested = h.requested;
}
on_content-Sound s id ControlResponse.invalid_signature now_pong later h = h
on_content-Sound s id ControlResponse.unauthorized now_pong later h = record {
  silent = λ e. refl;
  requested = h.requested;
}
on_content-Sound s id ControlResponse.request_queued now_pong later h = h
on_content-Sound s id ControlResponse.try_again_later now_pong later h = h
on_content-Sound s id (ControlResponse.agent_registered r) now_pong later h = h
on_content-Sound s id (ControlResponse.agent_port_mapping m) now_pong later h = h
on_content-Sound s id (ControlResponse.udp_channel_details d) now_pong later h = h
on_content-Sound s id (ControlResponse.check_mtu_received_ack a) now_pong later h = h
on_content-Sound s id (ControlResponse.mtu_test_packet p) now_pong later h = h
on_content-Sound s id (ControlResponse.mtu_test_fail f) now_pong later h = h

-- The session after a message is sound with what was known before.
pub with_control-Sound :
    (s : MaintainedControl) (e : EstablishedControl)
    → e.force_expired ≡ s.control.force_expired
    → Sound s
    → Sound (record s { control = e })
with_control-Sound s e same h = record {
  silent = λ zero_pong. same ∙ h.silent zero_pong;
  requested = h.requested;
}

pub on_receipt-Sound :
    (s : MaintainedControl) (r : Receipt) (now now_pong : ℕ)
    → 0 < now_pong
    → Sound s
    → Sound (on_receipt s r now now_pong).1
unfolding on_receipt on_feed recv_feed_msg
on_receipt-Sound s (Receipt.received c (ControlFeed.new_client n)) now now_pong later h =
    with_control-Sound s (record s.control { conn = c }) refl h
on_receipt-Sound s (Receipt.received c (ControlFeed.new_client_old n)) now now_pong later h =
    with_control-Sound s (record s.control { conn = c }) refl h
on_receipt-Sound s (Receipt.received c (ControlFeed.response m)) now now_pong later h =
    on_content-Sound
      (record s { control = record_response (record s.control { conn = c }) m.content now })
      m.request_id m.content now_pong later
      (with_control-Sound s (record_response (record s.control { conn = c }) m.content now)
        (record_response-force_expired (record s.control { conn = c }) m.content now) h)
on_receipt-Sound s (Receipt.invalid_remote expected got) now now_pong later h = h
on_receipt-Sound s (Receipt.failed_to_read_control_feed e) now now_pong later h = h
on_receipt-Sound s Receipt.io_error now now_pong later h = h
on_receipt-Sound s Receipt.aborted now now_pong later h = h

pub check_silence-Sound : (s : MaintainedControl) (now : ℕ) → Sound s → Sound (check_silence s now)
unfolding check_silence set_control_state
check_silence-Sound s now h =
    elim (Bool-cases (not (s.last_pong == 0) && ltb 6_000 (minus_u64 now s.last_pong))) [
      | inl silent ↦
          rw (check_silence, silent)
            (fail_session-Sound
              (set_control_state ControlConnectionState.reconnecting (record s { last_pong = 0 }))
              h.requested)
      | inr heard ↦ rw (check_silence, heard) h
    ]

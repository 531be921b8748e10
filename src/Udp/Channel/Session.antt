-- ===== src/Udp/Channel/Session.antt =====
-- The two tasks of the channel as they run: an event at a time, in any interleaving. An event of the
-- send task is the timer, a new session or a packet to send; one of the receive task is a datagram.
use playit_agent.Common.{
  ℕ, ◌-◌, ◌≤◌, ◌≡◌, ◌≢◌, refl, sym, ap, ◌∙◌, inl, inr, ◌↔◌, Bool-cases, Option-cases, Bool, true,
  false, ◌&&◌, Option, none, some, drop, ltb→ge, ltb-false, eq_bytes_refl, eq_bytes_sound, arith,
}
use playit_agent.Io.{Bytes, Result, ok, err, panicked}
use playit_agent.Wire.{Wire, SocketAddr}
use playit_agent.Wire.Addresses.{eq_addr, eq_addr_refl, eq_addr_sound}
use playit_agent.Proto.Flow.{UdpFlow, write_footer}
use playit_agent.Proto.Response.{UdpChannelDetails}
use playit_agent.Udp.Packets.{Packet}
use playit_agent.Udp.Channel.{
  Shared, eq_details, append_footer, send_packet, SendTask, Datagram, Sent, Received,
  send_establish, should_send, handle_session, send, receive, after_receive,
}

-- What the socket is given to send in one event.
abbrev pub sent_datagram : Sent → Option Datagram
sent_datagram (Sent.sent d) = some d
sent_datagram Sent.no_session = none
sent_datagram Sent.tail_append_fail = none
sent_datagram Sent.aborted = none

-- `SendTask::start` and `RecvTask::start`: an event that starts in one state, what the socket is
-- given to send, and the state after it.
pub data Step (wire : Wire) : SendTask → Option Datagram → SendTask → Type 0 where
  timer : (t : SendTask) (now : ℕ) → Step wire t (send_establish t now).1 (send_establish t now).0
  session :
      (t : SendTask) (details : UdpChannelDetails) (now : ℕ)
      → Step wire t (handle_session t details now).1 (handle_session t details now).0
  packet :
      (t : SendTask) (flow : UdpFlow) (p : Packet)
      → Step wire t (sent_datagram (send wire t flow p)) t
  datagram :
      (t : SendTask) (p : Packet) (bytes : Bytes) (source : SocketAddr) (now : ℕ)
      → Step wire t none
          (record t { shared = after_receive t.shared now (receive wire t.shared p bytes source) })

-- The task when the channel is created.
abbrev pub created : SendTask
created = record {
  session = none;
  shared = record { establish_rx_epoch = 0; establish_tx_epoch = 0; session_tunnel_addr = none };
}

-- The states that any sequence of events leads to.
pub data Reachable (wire : Wire) : SendTask → Type 0 where
  start : Reachable wire created
  next :
      {t : SendTask} {out : Option Datagram} {t' : SendTask}
      → Reachable wire t
      → Step wire t out t'
      → Reachable wire t'

abbrev session_addr : Option UdpChannelDetails → Option SocketAddr
session_addr none = none
session_addr (some s) = some s.tunnel_addr

-- The address that the receive task compares with is that of the send task's session.
unfoldable pub Linked : SendTask → Type 0
Linked t = t.shared.session_tunnel_addr ≡ session_addr t.session

send_establish-absent :
    (t : SendTask) (now : ℕ) → t.session ≡ none → send_establish t now ≡ (t, none)
unfolding send_establish
send_establish-absent t now e = simp (e, send_establish)

send_establish-held :
    (t : SendTask) (now : ℕ) (details : UdpChannelDetails)
    → t.session ≡ some details
    → send_establish t now ≡ (
      record t { shared = record t.shared { establish_tx_epoch = now } },
      some (record { payload = details.token; target = details.tunnel_addr }),
    )
unfolding send_establish
send_establish-held t now details e = simp (e, send_establish)

send_establish-keeps :
    (t : SendTask) (now : ℕ)
    → ((send_establish t now).0.session ≡ t.session)
      × ((send_establish t now).0.shared.session_tunnel_addr ≡ t.shared.session_tunnel_addr)
send_establish-keeps t now = elim (Option-cases t.session) [
  | inl e ↦
      let given : send_establish t now ≡ (t, none) = send_establish-absent t now e in
      (ap (λ (r : _). r.0.session) given, ap (λ (r : _). r.0.shared.session_tunnel_addr) given)
  | inr (s, e) ↦
      let given : _ = send_establish-held t now s e in
      (ap (λ (r : _). r.0.session) given, ap (λ (r : _). r.0.shared.session_tunnel_addr) given)
]

send_establish-Linked : (t : SendTask) (now : ℕ) → Linked t → Linked (send_establish t now).0
unfolding Linked
send_establish-Linked t now l =
    let (same_session, same_addr) = send_establish-keeps t now in
    same_addr ∙ l ∙ ap session_addr (sym same_session)

handle_session-Linked :
    (t : SendTask) (details : UdpChannelDetails) (now : ℕ) → Linked (handle_session t details now).0
unfolding handle_session send_establish Linked
handle_session-Linked t details now =
    elim (Bool-cases (should_send t.session details now t.shared.establish_rx_epoch)) [
      | inl e ↦ rw e refl
      | inr e ↦ rw e refl
    ]

after_receive_addr :
    (shared : Shared) (now : ℕ) (r : Received)
    → (after_receive shared now r).session_tunnel_addr ≡ shared.session_tunnel_addr
unfolding after_receive
after_receive_addr shared now Received.established = refl
after_receive_addr shared now Received.no_session = refl
after_receive_addr shared now Received.source_no_match = refl
after_receive_addr shared now Received.too_small = refl
after_receive_addr shared now Received.invalid_footer_id = refl
after_receive_addr shared now Received.aborted = refl
after_receive_addr shared now (Received.delivered f p) = refl

after_receive-Linked :
    (t : SendTask) (now : ℕ) (r : Received)
    → Linked t
    → Linked (record t { shared = after_receive t.shared now r })
unfolding Linked
after_receive-Linked t now r l = after_receive_addr t.shared now r ∙ l

send_establish_datagram :
    (t : SendTask) (now : ℕ) (d : Datagram)
    → (send_establish t now).1 ≡ some d
    → (details : UdpChannelDetails) × (t.session ≡ some details)
      × (d ≡ record { payload = details.token; target = details.tunnel_addr })
send_establish_datagram t now d e = elim (Option-cases t.session) [
  | inl absent ↦
      let given : send_establish t now ≡ (t, none) = send_establish-absent t now absent in
      cc (given, e)
  | inr (details, held) ↦
      let given : _ = send_establish-held t now details held in (details, held, cc (given, e))
]

append_footer_target :
    (flow : UdpFlow) (p : Packet) (target : SocketAddr) (r : Result (Bool × Bytes)) (d : Datagram)
    → sent_datagram (append_footer flow p target r) ≡ some d
    → d.target ≡ target
unfolding append_footer
append_footer_target flow p target (ok (true, rest)) d e = by_packet _ e
  where
    by_packet :
        (r : Result Packet) → sent_datagram (send_packet r target) ≡ some d → d.target ≡ target
    by_packet (ok q) h = cc h
    by_packet (err x) h = cc h
    by_packet panicked h = cc h
append_footer_target flow p target (ok (false, rest)) d e = cc e
append_footer_target flow p target (err x) d e = cc e
append_footer_target flow p target panicked d e = cc e

module _ (wire : Wire) where
  Step-Linked :
      {t t' : SendTask} {out : Option Datagram} → Step wire t out t' → Linked t → Linked t'
  Step-Linked (timer t now) l = send_establish-Linked t now l
  Step-Linked (session t details now) l = handle_session-Linked t details now
  Step-Linked (packet t flow p) l = l
  Step-Linked (datagram t p bytes source now) l = after_receive-Linked t now _ l

  -- In every state that events lead to, in any order, the two tasks agree on the address.
  pub Reachable-Linked : {t : SendTask} → Reachable wire t → Linked t
  unfolding Linked
  Reachable-Linked start = refl
  Reachable-Linked (next r s) = Step-Linked s (Reachable-Linked r)

  delivered_addr :
      (shared : Shared) (p : Packet) (bytes : Bytes) (source : SocketAddr) (flow : UdpFlow)
      (q : Packet)
      → receive wire shared p bytes source ≡ Received.delivered flow q
      → (addr : SocketAddr) × (shared.session_tunnel_addr ≡ some addr) × (addr ≡ source)
  unfolding receive
  delivered_addr shared p bytes source flow q e = elim (Option-cases shared.session_tunnel_addr) [
    | inl none_held ↦
        let given : receive wire shared p bytes source ≡ Received.no_session = rw none_held refl in
        cc (given, e)
    | inr (addr, held) ↦ elim (Bool-cases (eq_addr addr source)) [
      | inl same ↦ (addr, held, eq_addr_sound addr source same)
      | inr other ↦
          let given : receive wire shared p bytes source ≡ Received.source_no_match =
            rw (held, other) refl in
          cc (given, e)
    ]
  ]

  -- In every state that events lead to, a packet that is delivered came from the address of the
  -- session that the send task holds.
  pub delivered_source :
      {t : SendTask} (p : Packet) (bytes : Bytes) (source : SocketAddr) (flow : UdpFlow)
      (q : Packet)
      → Reachable wire t
      → receive wire t.shared p bytes source ≡ Received.delivered flow q
      → (details : UdpChannelDetails) × (t.session ≡ some details) × (details.tunnel_addr ≡ source)
  unfolding Linked
  delivered_source {t} p bytes source flow q r e =
      let (addr, shared_addr, same) = delivered_addr t.shared p bytes source flow q e in
      session_of t.session addr (sym (Reachable-Linked r) ∙ shared_addr) same
    where
      session_of :
          (s : Option UdpChannelDetails) (addr : SocketAddr)
          → session_addr s ≡ some addr
          → addr ≡ source
          → (details : UdpChannelDetails) × (s ≡ some details) × (details.tunnel_addr ≡ source)
      session_of none addr a same = cc a
      session_of (some details) addr a same = (details, refl, cc (a, same))

  send_target :
      (t : SendTask) (flow : UdpFlow) (p : Packet) (d : Datagram)
      → sent_datagram (send wire t flow p) ≡ some d
      → (details : UdpChannelDetails) × (t.session ≡ some details)
        × (d.target ≡ details.tunnel_addr)
  unfolding send
  send_target t flow p d e = elim (Option-cases t.session) [
    | inl absent ↦
        let given : send wire t flow p ≡ Sent.no_session = rw (absent, send) refl in cc (given, e)
    | inr (details, held) ↦
        let given : send wire t flow p
            ≡ append_footer flow p details.tunnel_addr
                (write_footer wire flow (drop p.len p.buffer)) =
          rw (held, send) refl in
        (
          details,
          held,
          append_footer_target flow p details.tunnel_addr
              (write_footer wire flow (drop p.len p.buffer)) d (cc (given, e)),
        )
  ]

  handle_session_target :
      (t : SendTask) (details : UdpChannelDetails) (now : ℕ) (d : Datagram)
      → (handle_session t details now).1 ≡ some d
      → ((handle_session t details now).0.session ≡ some details) × (d.target ≡ details.tunnel_addr)
  unfolding handle_session send_establish
  handle_session_target t details now d e =
      elim (Bool-cases (should_send t.session details now t.shared.establish_rx_epoch)) [
        | inl due ↦
            let given : (handle_session t details now).1
                ≡ some (record { payload = details.token; target = details.tunnel_addr }) =
              rw due refl in
            (rw due refl, cc (given, e))
        | inr early ↦
            let given : (handle_session t details now).1 ≡ none = rw early refl in cc (given, e)
      ]

  -- Whatever the event, a datagram that the socket is given goes to the address of the session that
  -- the send task holds after it.
  pub sent_target :
      {t t' : SendTask} {out : Option Datagram} (d : Datagram)
      → Step wire t out t'
      → out ≡ some d
      → (details : UdpChannelDetails) × (t'.session ≡ some details)
        × (d.target ≡ details.tunnel_addr)
  sent_target d (timer t now) e =
      let (details, held, same) = send_establish_datagram t now d e in
      (details, (send_establish-keeps t now).0 ∙ held, cc same)
  sent_target d (session t details now) e =
      let (held, same) = handle_session_target t details now d e in (details, held, same)
  sent_target d (packet t flow p) e = send_target t flow p d e
  sent_target d (datagram t p bytes source now) e = cc e

eq_details_iff : (a b : UdpChannelDetails) → (eq_details a b ≡ true) ↔ (a ≡ b)
unfolding eq_details
eq_details_iff a b = (
  λ h.
      let (same_addr, same_token) = both (eq_addr a.tunnel_addr b.tunnel_addr) _ h in
      let x : a.tunnel_addr ≡ b.tunnel_addr = eq_addr_sound a.tunnel_addr b.tunnel_addr same_addr in
      let y : a.token ≡ b.token = eq_bytes_sound a.token b.token same_token in rw (x, y) refl,
  λ e. rw e (ground (arith, eq_addr_refl b.tunnel_addr, eq_bytes_refl b.token)),
)
  where
    both : (x y : Bool) → (x && y) ≡ true → (x ≡ true) × (y ≡ true)
    both true y h = (refl, h)
    both false y h = cc h

should_send-silent :
    (s : Option UdpChannelDetails) (details : UdpChannelDetails) (now last_rx : ℕ)
    → (should_send s details now last_rx ≡ false) ↔ ((s ≡ some details) × (now - last_rx ≤ 5_000))
unfolding should_send
should_send-silent none details now last_rx = (λ h. cc h, λ h. cc (h.0))
should_send-silent (some old) details now last_rx = elim (Bool-cases (eq_details old details)) [
  | inl same ↦
      let e : old ≡ details = (eq_details_iff old details).0 same in
      rw same (λ h. (ap some e, ltb→ge _ _ h), λ h. ltb-false _ _ h.1)
  | inr other ↦
      let differ : old ≢ details = λ e. cc ((eq_details_iff old details).1 e, other) in
      rw other (λ h. cc h, λ h. absurd (differ (cc (h.0))))
]

-- A new session is taken over without an establish message exactly if it is the old one and the last
-- establish message came back no more than five seconds ago.
pub handle_session-silent :
    (t : SendTask) (details : UdpChannelDetails) (now : ℕ)
    → ((handle_session t details now).1 ≡ none)
      ↔ ((t.session ≡ some details) × (now - t.shared.establish_rx_epoch ≤ 5_000))
unfolding handle_session send_establish
handle_session-silent t details now =
    let last_rx : ℕ = t.shared.establish_rx_epoch in
    let silent : _ = should_send-silent t.session details now last_rx in
    elim (Bool-cases (should_send t.session details now last_rx)) [
      | inl due ↦
          let given : (handle_session t details now).1
              ≡ some (record { payload = details.token; target = details.tunnel_addr }) =
            rw due refl in
          (λ h. cc (given, h), λ h. cc (due, silent.1 h))
      | inr early ↦ (λ h. silent.0 early, λ h. rw early refl)
    ]

-- ===== src/Control/Session.antt =====
-- The life of a session: once it is set up it stays so, and its expiry is moved to the local clock.
use playit_agent.Common.{
  ℕ, ◌+◌, ◌-◌, ◌%◌, ◌^◌, ◌≤◌, ◌<◌, max, ◌≡◌, ◌≢◌, refl, sym, ap, ◌∙◌, inl, inr, ◌⊎◌, Option-cases,
  Bool, true, false, Option, none, some, List, [], ◌∷◌, if◌then◌else◌, arith,
}
use playit_agent.Proto.Response.{ControlResponse, Pong, AgentRegistered}
use playit_agent.Proto.Feed.{ControlFeed}
use playit_agent.Control.{
  ConnectedControl, EstablishedControl, ExpiredReason, Receipt, minus_u64, setup_overdue,
  has_flow_changed, is_expired, round_trip_time, local_expiry, record_pong, record_response,
  recv_feed_msg, authenticated, reset_established, set_expired, or_else,
}

-- What happens to an established connection.
pub data ControlEvent : Type 0 where
  feed_msg : Receipt → ℕ → ControlEvent
  reauthenticated : AgentRegistered → ℕ → ControlEvent
  reconnected : ConnectedControl → AgentRegistered → ControlEvent
  given_up : ControlEvent

abbrev pub apply : EstablishedControl → ControlEvent → EstablishedControl
apply e (ControlEvent.feed_msg r now) = recv_feed_msg e r now
apply e (ControlEvent.reauthenticated registered now) = authenticated e registered now
apply e (ControlEvent.reconnected c registered) = reset_established c e registered
apply e ControlEvent.given_up = set_expired e

abbrev pub run : EstablishedControl → List ControlEvent → EstablishedControl
run e [] = e
run e (event ∷ events) = run (apply e event) events

-- The server has told when the session expires.
abbrev pub IsSetup : EstablishedControl → Type 0
IsSetup e = (expire_at : ℕ) × (e.pong_at_auth.session_expire_at ≡ some expire_at)

record_pong-IsSetup :
    (e : EstablishedControl) (p : Pong) (now : ℕ)
    → IsSetup e ⊎ ((x : ℕ) × (p.session_expire_at ≡ some x))
    → IsSetup (record_pong e p now)
unfolding record_pong
record_pong-IsSetup e p now h = elim (Option-cases p.session_expire_at) [
  | inl absent ↦ elim h [ inl (x, held) ↦ (x, rw absent held) | inr (x, told) ↦ (x, rw told refl) ]
  | inr (x, told) ↦ (x, rw told refl)
]

record_response-IsSetup :
    (e : EstablishedControl) (r : ControlResponse) (now : ℕ)
    → IsSetup e
    → IsSetup (record_response e r now)
unfolding record_response
record_response-IsSetup e (ControlResponse.pong p) now h = record_pong-IsSetup e p now (inl h)
record_response-IsSetup e _ now h = h

or_else-some : (a b : Option ℕ) (x : ℕ) → a ≡ some x → or_else a b ≡ some x
or_else-some a b x e = rw e refl

apply-IsSetup :
    (e : EstablishedControl) (event : ControlEvent) → IsSetup e → IsSetup (apply e event)
unfolding recv_feed_msg authenticated reset_established set_expired
apply-IsSetup e (ControlEvent.feed_msg (Receipt.received c (ControlFeed.response m)) now) h =
    record_response-IsSetup (record e { conn = c }) m.content now h
apply-IsSetup e (ControlEvent.feed_msg _ now) h = h
apply-IsSetup e (ControlEvent.reauthenticated registered now) (x, held) =
    (x, or_else-some e.pong_at_auth.session_expire_at _ x held)
apply-IsSetup e (ControlEvent.reconnected c registered) (x, held) =
    (x, or_else-some e.pong_at_auth.session_expire_at _ x held)
apply-IsSetup e ControlEvent.given_up h = h

pub run-IsSetup :
    (e : EstablishedControl) (events : List ControlEvent) → IsSetup e → IsSetup (run e events)
run-IsSetup e [] h = h
run-IsSetup e (event ∷ events) h = run-IsSetup (apply e event) events (apply-IsSetup e event h)

IsSetup-ne-overdue :
    (e : EstablishedControl) (now : ℕ)
    → IsSetup e
    → is_expired e now ≢ some ExpiredReason.session_not_setup
unfolding is_expired setup_overdue
IsSetup-ne-overdue e now (x, held) h =
    let set : setup_overdue e.pong_at_auth.session_expire_at e.session_setup_deadline now ≡ false =
      rw held refl in
    not_overdue e.force_expired (has_flow_changed e)
      (sym (ap (reason e.force_expired (has_flow_changed e)) set) ∙ h)
  where
    reason : Bool → Bool → Bool → Option ExpiredReason
    reason force changed overdue =
        if force
        then some ExpiredReason.forced
        else if overdue
        then some ExpiredReason.session_not_setup
        else if changed
        then some ExpiredReason.flow_changed
        else none

    not_overdue :
        (force changed : Bool) → reason force changed false ≢ some ExpiredReason.session_not_setup
    not_overdue true changed h = cc h
    not_overdue false true h = cc h
    not_overdue false false h = cc h

-- Once a response with a pong has told when the session expires, whatever comes after it (messages,
-- authentications, new connections), the session is never again given up as not set up.
pub told_once :
    (e : EstablishedControl) (p : Pong) (expire_at now later : ℕ) (events : List ControlEvent)
    → p.session_expire_at ≡ some expire_at
    → is_expired (run (record_response e (ControlResponse.pong p) now) events) later
      ≢ some ExpiredReason.session_not_setup
unfolding record_response
told_once e p x now later events told =
    IsSetup-ne-overdue _ later
      (run-IsSetup (record_pong e p now) events (record_pong-IsSetup e p now (inr (x, told))))

-- A pong that answers in less than 2 ^ 32 milliseconds, from a server whose clock is not past the
-- expiry, moves the expiry to the local clock: the time that the server leaves, less the round trip,
-- after the request. No part of the calculation wraps.
pub local_expiry_lem :
    (p : Pong) (expires_at now : ℕ)
    → p.request_now ≤ now
    → now - p.request_now < 2 ^ 32
    → p.server_now ≤ expires_at
    → p.request_now + expires_at + 2 ^ 32 < 2 ^ 64
    → local_expiry p expires_at (round_trip_time p now)
      ≡ p.request_now + ((expires_at - p.server_now) - (now - p.request_now))
unfolding local_expiry round_trip_time minus_u64
local_expiry_lem p x now le small left room =
    let rtt : (max now p.request_now - p.request_now) % 2 ^ 32 ≡ now - p.request_now =
      omega arith in
    let span : (x + 2 ^ 64 - p.server_now) % 2 ^ 64 ≡ x - p.server_now = omega arith in
    rw (rtt, span)
      (let sum : (p.request_now + max (x - p.server_now) (now - p.request_now)) % 2 ^ 64
            ≡ p.request_now + max (x - p.server_now) (now - p.request_now) =
          omega arith in
        rw sum (omega arith))

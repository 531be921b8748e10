-- ===== src/Control/Overdue.antt =====
-- The deadline of a session that is not set up: no new connection moves it.
use playit_agent.Common.{
  ℕ, ◌≤◌, ◌≡◌, refl, ◌⊎◌, inl, inr, Bool-cases, none, some, List, [], ◌∷◌, leb-true,
}
use playit_agent.Proto.Response.{ControlResponse}
use playit_agent.Proto.Feed.{ControlFeed}
use playit_agent.Control.{
  EstablishedControl, ExpiredReason, Receipt, setup_overdue, is_expired, record_pong,
  record_response, recv_feed_msg, reset_established, set_expired,
}
use playit_agent.Control.Session.{ControlEvent, apply, run}

-- Responses that tell no expiry.
abbrev pub UntoldResponse : ControlResponse → Type 0
UntoldResponse (ControlResponse.pong p) = p.session_expire_at ≡ none
UntoldResponse _ = Unit {0}

abbrev pub UntoldReceipt : Receipt → Type 0
UntoldReceipt (Receipt.received c (ControlFeed.response m)) = UntoldResponse m.content
UntoldReceipt _ = Unit {0}

-- Events that neither tell an expiry nor register anew over the connection.
abbrev pub Untold : ControlEvent → Type 0
Untold (ControlEvent.feed_msg r now) = UntoldReceipt r
Untold (ControlEvent.reauthenticated registered now) = ⊥
Untold (ControlEvent.reconnected c registered) = c.pong_latest.session_expire_at ≡ none
Untold ControlEvent.given_up = Unit {0}

abbrev pub AllUntold : List ControlEvent → Type 0
AllUntold [] = Unit {0}
AllUntold (event ∷ events) = Untold event × AllUntold events

-- A session that is not set up, with its deadline.
abbrev pub Waiting : ℕ → EstablishedControl → Type 0
Waiting deadline e =
    (e.pong_at_auth.session_expire_at ≡ none) × (e.session_setup_deadline ≡ some deadline)

record_response-Waiting :
    (deadline now : ℕ) (e : EstablishedControl) (r : ControlResponse)
    → UntoldResponse r
    → Waiting deadline e
    → Waiting deadline (record_response e r now)
unfolding record_response record_pong
record_response-Waiting deadline now e (ControlResponse.pong p) untold waits = rw untold waits
record_response-Waiting deadline now e _ untold waits = waits

apply-Waiting :
    (deadline : ℕ) (e : EstablishedControl) (event : ControlEvent)
    → Untold event
    → Waiting deadline e
    → Waiting deadline (apply e event)
unfolding recv_feed_msg reset_established set_expired
apply-Waiting deadline e (ControlEvent.feed_msg (Receipt.received c (ControlFeed.response m)) now)
      untold waits =
    record_response-Waiting deadline now (record e { conn = c }) m.content untold waits
apply-Waiting deadline e (ControlEvent.feed_msg _ now) untold waits = waits
apply-Waiting deadline e (ControlEvent.reauthenticated registered now) untold waits = absurd untold
apply-Waiting deadline e (ControlEvent.reconnected c registered) untold waits =
    rw (waits.0, untold) (refl, waits.1)
apply-Waiting deadline e ControlEvent.given_up untold waits = waits

run-Waiting :
    (deadline : ℕ) (e : EstablishedControl) (events : List ControlEvent)
    → AllUntold events
    → Waiting deadline e
    → Waiting deadline (run e events)
run-Waiting deadline e [] untold waits = waits
run-Waiting deadline e (event ∷ events) untold waits =
    run-Waiting deadline (apply e event) events untold.1
      (apply-Waiting deadline e event untold.0 waits)

Waiting-is_expired :
    (deadline now : ℕ) (e : EstablishedControl)
    → Waiting deadline e
    → deadline ≤ now
    → (is_expired e now ≡ some ExpiredReason.forced)
      ⊎ (is_expired e now ≡ some ExpiredReason.session_not_setup)
unfolding is_expired setup_overdue
Waiting-is_expired deadline now e waits passed = elim (Bool-cases e.force_expired) [
  | inl forced ↦ inl (rw forced refl)
  | inr not_forced ↦
      inr (rw (not_forced, waits.0, waits.1) (rw (leb-true deadline now passed) refl))
]

-- A session that is not set up by its deadline is expired from then on: whatever messages and new
-- connections come, however late, as long as none of them tells an expiry and the agent does not
-- register anew over the connection that it has, the session is expired by force or as not set up.
pub run-is_expired :
    (deadline now : ℕ) (e : EstablishedControl) (events : List ControlEvent)
    → Waiting deadline e
    → AllUntold events
    → deadline ≤ now
    → (is_expired (run e events) now ≡ some ExpiredReason.forced)
      ⊎ (is_expired (run e events) now ≡ some ExpiredReason.session_not_setup)
run-is_expired deadline now e events waits untold passed =
    Waiting-is_expired deadline now (run e events) (run-Waiting deadline e events untold waits)
      passed

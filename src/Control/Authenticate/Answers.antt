-- ===== src/Control/Authenticate/Answers.antt =====
-- An answer that comes in time is taken.
use playit_agent.Common.{
  ℕ, zero, suc, ◌+◌, ◌<◌, ◌≡◌, refl, sym, ap, ◌∙◌, Bool, false, Option, some, ==_iff, arith,
}
use playit_agent.Proto.Response.{ControlResponse, Pong, AgentRegistered}
use playit_agent.Proto.Feed.{ControlFeed}
use playit_agent.Control.{ConnectedControl}
use playit_agent.Control.Authenticate.{
  Arrival, Answer, Verdict, Attempt, judge, judge_content, by_verdict, next_arrival, wait, attempts,
  authenticate,
}

abbrev pub answer_to : ℕ → AgentRegistered → Arrival
answer_to request_id r = Arrival.message (
    ControlFeed.response
      (record { request_id = request_id; content = ControlResponse.agent_registered r }))

module _ (auth_pong : Pong) (request_id : ℕ) (arrivals : ℕ → Arrival) (send_fails : ℕ → Bool) where
  abbrev waited : ℕ → Attempt → Option Answer × Attempt
  waited rounds a = wait auth_pong request_id arrivals send_fails rounds a

  abbrev next : Attempt → Attempt
  next a = next_arrival auth_pong request_id arrivals send_fails a

  wait-answered :
      (rounds k : ℕ) (a : Attempt) (r : AgentRegistered)
      → k < rounds
      → ((i : ℕ) → i < k → arrivals (a.received + i) ≡ Arrival.timed_out)
      → arrivals (a.received + k) ≡ answer_to request_id r
      → (waited rounds a).0 ≡ some (Answer.registered r)
  unfolding wait judge judge_content
  wait-answered zero k a r lt quiet there = absurd (omega arith)
  wait-answered (suc rounds) zero a r lt quiet there =
      let now : a.received + 0 ≡ a.received = omega arith in
      rw (sym (ap arrivals now) ∙ there, (==_iff request_id request_id).1 refl) refl
  wait-answered (suc rounds) (suc k) a r lt quiet there =
      let now : a.received + 0 ≡ a.received = omega arith in
      let silent : arrivals a.received ≡ Arrival.timed_out =
        sym (ap arrivals now) ∙ quiet 0 (omega arith) in
      let shift : (i : ℕ) → a.received + 1 + i ≡ a.received + suc i = λ i. omega arith in
      let later : (waited rounds (next a)).0 ≡ some (Answer.registered r) =
        wait-answered rounds k (next a) r (omega arith)
          (λ i h. ap arrivals (shift i) ∙ quiet (suc i) (omega arith))
          (ap arrivals (shift k) ∙ there) in
      ap (λ (v : Verdict). (by_verdict v (next a) (waited rounds (next a))).0)
        (ap (judge auth_pong request_id) silent)
      ∙ later

-- Where the first message can be sent and its answer, a registration, comes after fewer than 5
-- timeouts, the attempts end in that registration.
pub authenticate-answered :
    (request_id : ℕ) (arrivals : ℕ → Arrival) (send_fails : ℕ → Bool) (c : ConnectedControl)
    (r : AgentRegistered) (k : ℕ)
    → send_fails 0 ≡ false
    → k < 5
    → ((i : ℕ) → i < k → arrivals i ≡ Arrival.timed_out)
    → arrivals k ≡ answer_to request_id r
    → (authenticate request_id arrivals send_fails c).0 ≡ Answer.registered r
unfolding authenticate attempts
authenticate-answered request_id arrivals send_fails c r k works lt quiet there =
    let a : Attempt = record { conn = c; received = 0; sent = 1 } in
    let zero_first : (i : ℕ) → 0 + i ≡ i = λ i. omega arith in
    let answered : (wait c.pong_latest request_id arrivals send_fails 5 a).0
        ≡ some (Answer.registered r) =
      wait-answered c.pong_latest request_id arrivals send_fails 5 k a r lt
        (λ i h. ap arrivals (zero_first i) ∙ quiet i h) (ap arrivals (zero_first k) ∙ there) in
    rw (works, answered) refl

-- ===== src/Control/Authenticate/Causes.antt =====
-- What the end of the attempts to register says of what arrived and of which sends failed.
use mathlib.Core.Path.{subst}
use playit_agent.Common.{
  ℕ, zero, suc, ◌+◌, ◌<◌, ◌≡◌, ◌≢◌, ◌⊎◌, refl, sym, ap, ◌∙◌, inl, inr, Bool-cases, Bool, true,
  false, Option, none, some, ◌==◌, ==_iff, arith,
}
use playit_agent.Wire.Addresses.{eq_addr, eq_addr_refl}
use playit_agent.Wire.{SocketAddr}
use playit_agent.Proto.Response.{ControlResponse, Pong}
use playit_agent.Proto.Feed.{ControlFeed}
use playit_agent.Control.{ConnectedControl}
use playit_agent.Control.Authenticate.{
  Arrival, Answer, SetupError, Verdict, Attempt, judge, judge_content, by_verdict, next_arrival,
  wait, attempts, authenticate,
}

-- What a response says, as an answer.
abbrev pub Says : Pong → ControlResponse → Answer → Type 0
Says auth_pong content (Answer.registered r) = content ≡ ControlResponse.agent_registered r
Says auth_pong content (Answer.refused SetupError.register_invalid_signature) =
    content ≡ ControlResponse.invalid_signature
Says auth_pong content (Answer.refused SetupError.register_unauthorized) =
    content ≡ ControlResponse.unauthorized
Says auth_pong content (Answer.refused SetupError.attempting_to_auth_with_old_flow) =
    (p : Pong) × (content ≡ ControlResponse.pong p)
    × ((p.client_addr ≢ auth_pong.client_addr) ⊎ (p.tunnel_addr ≢ auth_pong.tunnel_addr))
Says auth_pong content (Answer.refused SetupError.failed_to_connect) = ⊥
Says auth_pong content (Answer.refused SetupError.io_error) = ⊥

-- An arrival that is a response to the request and says the answer.
abbrev pub Answered : Pong → ℕ → Arrival → Answer → Type 0
Answered auth_pong request_id arrival answer =
    (content : ControlResponse) × (arrival
      ≡ Arrival.message
          (ControlFeed.response (record { request_id = request_id; content = content })))
    × Says auth_pong content answer

-- A verdict ends with an answer that is said, if it ends.
abbrev Ends : Pong → ControlResponse → Verdict → Type 0
Ends auth_pong content (Verdict.finish answer) = Says auth_pong content answer
Ends auth_pong content (Verdict.ping_and_finish answer) = Says auth_pong content answer
Ends auth_pong content Verdict.keep_waiting = Unit {0}
Ends auth_pong content Verdict.send_again = Unit {0}

differ : (x y : SocketAddr) → eq_addr x y ≡ false → x ≢ y
differ x y apart same =
    let equal : eq_addr x y ≡ true = ap (λ (z : SocketAddr). eq_addr z y) same ∙ eq_addr_refl y in
    let clash : true ≡ false = sym equal ∙ apart in cc clash

judge_content-Ends :
    (auth_pong : Pong) (content : ControlResponse)
    → Ends auth_pong content (judge_content auth_pong content)
unfolding judge_content
judge_content-Ends auth_pong (ControlResponse.agent_registered r) = refl
judge_content-Ends auth_pong ControlResponse.invalid_signature = refl
judge_content-Ends auth_pong ControlResponse.unauthorized = refl
judge_content-Ends auth_pong (ControlResponse.pong p) =
    elim (Bool-cases (eq_addr p.client_addr auth_pong.client_addr)) [
      | inr moved ↦ rw moved (p, refl, inl (differ _ _ moved))
      | inl stays ↦ elim (Bool-cases (eq_addr p.tunnel_addr auth_pong.tunnel_addr)) [
        | inr moved ↦ rw (stays, moved) (p, refl, inr (differ _ _ moved))
        | inl same ↦ rw (stays, same) tt
      ]
    ]
judge_content-Ends auth_pong ControlResponse.request_queued = tt
judge_content-Ends auth_pong _ = tt

judge-Answered :
    (auth_pong : Pong) (request_id : ℕ) (arrival : Arrival) (answer : Answer)
    → (judge auth_pong request_id arrival ≡ Verdict.finish answer)
      ⊎ (judge auth_pong request_id arrival ≡ Verdict.ping_and_finish answer)
    → Answered auth_pong request_id arrival answer
unfolding judge
judge-Answered auth_pong request_id (Arrival.message (ControlFeed.response m)) answer h =
    elim (Bool-cases (m.request_id == request_id)) [
      | inl ours ↦
          let same : m.request_id ≡ request_id = (==_iff m.request_id request_id).0 ours in
          let given : judge auth_pong request_id (Arrival.message (ControlFeed.response m))
              ≡ judge_content auth_pong m.content =
            rw ours refl in
          let said : Says auth_pong m.content answer = elim h [
            | inl e ↦
                subst (Ends auth_pong m.content) (sym given ∙ e)
                  (judge_content-Ends auth_pong m.content)
            | inr e ↦
                subst (Ends auth_pong m.content) (sym given ∙ e)
                  (judge_content-Ends auth_pong m.content)
          ] in
          (m.content, rw same refl, said)
      | inr other ↦
          let given : judge auth_pong request_id (Arrival.message (ControlFeed.response m))
              ≡ Verdict.keep_waiting =
            rw other refl in
          absurd (elim h [ inl e ↦ cc (given, e) | inr e ↦ cc (given, e) ])
    ]
judge-Answered auth_pong request_id _ answer h = absurd (elim h [ inl e ↦ cc e | inr e ↦ cc e ])

-- How a wait ends: with the verdict's answer, or as the rest of it does, or with another attempt.
by_verdict-cases :
    (v : Verdict) (a : Attempt) (rest : Option Answer × Attempt)
    → ((answer : Answer) × ((by_verdict v a rest).0 ≡ some answer)
        × ((v ≡ Verdict.finish answer) ⊎ (v ≡ Verdict.ping_and_finish answer)))
      ⊎ ((by_verdict v a rest ≡ rest) ⊎ (by_verdict v a rest ≡ (none, a)))
by_verdict-cases (Verdict.finish answer) a rest = inl (answer, refl, inl refl)
by_verdict-cases (Verdict.ping_and_finish answer) a rest = inl (answer, refl, inr refl)
by_verdict-cases Verdict.keep_waiting a rest = inr (inl refl)
by_verdict-cases Verdict.send_again a rest = inr (inr refl)

module _ (auth_pong : Pong) (request_id : ℕ) (arrivals : ℕ → Arrival) (send_fails : ℕ → Bool) where
  -- Why the attempts end as they do.
  abbrev pub Caused : Answer → Type 0
  Caused (Answer.refused SetupError.failed_to_connect) = (i : ℕ) → i < 5 → send_fails i ≡ false
  Caused (Answer.refused SetupError.io_error) = (i : ℕ) × (i < 5) × (send_fails i ≡ true)
  Caused answer = (i : ℕ) × Answered auth_pong request_id (arrivals i) answer

  Answered-Caused :
      (i : ℕ) (answer : Answer) → Answered auth_pong request_id (arrivals i) answer → Caused answer
  Answered-Caused i (Answer.registered r) h = (i, h)
  Answered-Caused i (Answer.refused SetupError.register_invalid_signature) h = (i, h)
  Answered-Caused i (Answer.refused SetupError.register_unauthorized) h = (i, h)
  Answered-Caused i (Answer.refused SetupError.attempting_to_auth_with_old_flow) h = (i, h)
  Answered-Caused i (Answer.refused SetupError.failed_to_connect) (content, e, said) = absurd said
  Answered-Caused i (Answer.refused SetupError.io_error) (content, e, said) = absurd said

  abbrev waited : ℕ → Attempt → Option Answer × Attempt
  waited rounds a = wait auth_pong request_id arrivals send_fails rounds a

  abbrev next : Attempt → Attempt
  next a = next_arrival auth_pong request_id arrivals send_fails a

  -- A wait ends with an answer that has a cause, or without one and without a further message sent.
  wait-Caused :
      (rounds : ℕ) (a : Attempt)
      → ((answer : Answer) × ((waited rounds a).0 ≡ some answer) × Caused answer)
        ⊎ (((waited rounds a).0 ≡ none) × ((waited rounds a).1.sent ≡ a.sent))
  unfolding wait
  wait-Caused zero a = inr (refl, refl)
  wait-Caused (suc rounds) a =
      let v : Verdict = judge auth_pong request_id (arrivals a.received) in
      elim (by_verdict-cases v (next a) (waited rounds (next a))) [
        | inl (answer, ends, verdict) ↦ inl (
          answer,
          ends,
          Answered-Caused a.received answer
              (judge-Answered auth_pong request_id (arrivals a.received) answer verdict),
        )
        | inr (inr again) ↦ inr (
          ap (λ (x : Option Answer × Attempt). x.0) again,
          ap (λ (x : Option Answer × Attempt). x.1.sent) again,
        )
        | inr (inl later) ↦ elim (wait-Caused rounds (next a)) [
          | inl (answer, ends, cause) ↦
              inl (answer, ap (λ (x : Option Answer × Attempt). x.0) later ∙ ends, cause)
          | inr (open_end, same) ↦ inr (
            ap (λ (x : Option Answer × Attempt). x.0) later ∙ open_end,
            ap (λ (x : Option Answer × Attempt). x.1.sent) later ∙ same,
          )
        ]
      ]

  answered :
      (rounds : ℕ) (a : Attempt) (answer : Answer)
      → send_fails a.sent ≡ false
      → (waited 5 (record a { sent = a.sent + 1 })).0 ≡ some answer
      → (attempts auth_pong request_id arrivals send_fails (suc rounds) a).0 ≡ answer
  unfolding attempts
  answered rounds a answer sends ends = rw (attempts, sends, ends) refl

  unanswered :
      (rounds : ℕ) (a : Attempt)
      → send_fails a.sent ≡ false
      → (waited 5 (record a { sent = a.sent + 1 })).0 ≡ none
      → (attempts auth_pong request_id arrivals send_fails (suc rounds) a).0
        ≡ (attempts auth_pong request_id arrivals send_fails rounds
            (waited 5 (record a { sent = a.sent + 1 })).1).0
  unfolding attempts
  unanswered rounds a sends ends = rw (attempts, sends, ends) refl

  attempts-Caused :
      (rounds : ℕ) (a : Attempt)
      → a.sent + rounds ≡ 5
      → ((i : ℕ) → i < a.sent → send_fails i ≡ false)
      → Caused (attempts auth_pong request_id arrivals send_fails rounds a).0
  unfolding attempts
  attempts-Caused zero a left before = λ i h. before i (omega arith)
  attempts-Caused (suc rounds) a left before = elim (Bool-cases (send_fails a.sent)) [
    | inl fails ↦ rw (attempts, fails) (a.sent, omega arith, fails)
    | inr sends ↦
        let b : Attempt = record a { sent = a.sent + 1 } in
        elim (wait-Caused 5 b) [
          | inl (answer, ends, cause) ↦
              subst Caused (sym (answered rounds a answer sends ends)) cause
          | inr (open_end, same) ↦ subst Caused (sym (unanswered rounds a sends open_end)) (
              attempts-Caused rounds (waited 5 b).1 (omega (arith, same, left)) (λ i h.
                elim (Bool-cases (i == a.sent)) [
                  | inl last ↦ ap send_fails ((==_iff i a.sent).0 last) ∙ sends
                  | inr earlier ↦ before i (grind (arith, earlier, same, h))
                ]))
        ]
  ]

-- Every answer of the attempts to register has its cause: a registration, a wrong signature or a
-- refusal is what a response to this very request said; an old flow is a pong in response to it whose
-- client or tunnel address differs from the latest pong's before; an I/O error is a send, of the first
-- five, that failed; and where the agent fails to connect, the five sends succeeded.
pub authenticate-Caused :
    (request_id : ℕ) (arrivals : ℕ → Arrival) (send_fails : ℕ → Bool) (c : ConnectedControl)
    → Caused c.pong_latest request_id arrivals send_fails
        (authenticate request_id arrivals send_fails c).0
unfolding authenticate
authenticate-Caused request_id arrivals send_fails c =
    attempts-Caused c.pong_latest request_id arrivals send_fails 5 _ refl
      (λ i h. absurd (omega arith))

-- ===== src/Control/Selector/Bounds.antt =====
-- The search for a control address ends after a bounded number of pings and waits.
use playit_agent.Common.{
  ℕ, zero, suc, ◌+◌, ◌*◌, ◌≤◌, ◌≡◌, inl, inr, Bool-cases, Bool, List, [], ◌∷◌, length, arith,
}
use playit_agent.Wire.{Wire, SocketAddr}
use playit_agent.Control.Selector.{
  Incoming, Heard, Counts, Selected, hear, or_wait, wait_for_pong, attempt, try_address, or_next,
  select, connect_to_first,
}

-- At most so many more pings and waits.
record Within (sends waits : ℕ) (n n' : Counts) : Type 0 where
  sent : n'.sent ≤ n.sent + sends
  received : n'.received ≤ n.received + waits

module _ (wire : Wire) (send_fails : ℕ → Bool) (incoming : ℕ → Incoming) where
  or_wait-Within :
      (sends waits : ℕ) (h : Heard) (n m : Counts) (rest : Heard × Counts)
      → Within sends waits n m
      → Within sends waits n rest.1
      → Within sends waits n (or_wait wire send_fails incoming h m rest).1
  or_wait-Within sends waits (Heard.found p) n m rest here later = here
  or_wait-Within sends waits Heard.ignored n m rest here later = later
  or_wait-Within sends waits Heard.aborted n m rest here later = here

  wait_for_pong-Within :
      (waits : ℕ) (addr : SocketAddr) (n : Counts)
      → Within 0 waits n (wait_for_pong wire send_fails incoming waits addr n).1
  unfolding wait_for_pong
  wait_for_pong-Within zero addr n = record { sent = omega arith; received = omega arith }
  wait_for_pong-Within (suc waits) addr n =
      let m : Counts = record n { received = n.received + 1 } in
      let later = wait_for_pong-Within waits addr m in
      or_wait-Within 0 (suc waits) (hear wire send_fails incoming addr (incoming n.received)) n m
        (wait_for_pong wire send_fails incoming waits addr m)
        (record { sent = omega arith; received = omega arith })
        (record { sent = later.sent; received = omega (arith, later.received) })

  attempt-Within :
      (attempts waits : ℕ) (addr : SocketAddr) (n : Counts)
      → Within attempts
          (attempts * waits)
          n
          (attempt wire send_fails incoming attempts waits addr n).1
  unfolding attempt
  attempt-Within zero waits addr n = record { sent = omega arith; received = omega arith }
  attempt-Within (suc attempts) waits addr n =
      let m : Counts = record n { sent = n.sent + 1 } in
      let waited = wait_for_pong wire send_fails incoming waits addr m in
      let first = wait_for_pong-Within waits addr m in
      let later = attempt-Within attempts waits addr waited.1 in
      let total : suc attempts * waits ≡ attempts * waits + waits = omega arith in
      elim (Bool-cases (send_fails n.sent)) [
        | inl lost ↦ rw (attempt, lost) (record { sent = omega arith; received = omega arith })
        | inr sent ↦
            rw (attempt, sent)
              (or_wait-Within (suc attempts) (suc attempts * waits) waited.0 n waited.1
                (attempt wire send_fails incoming attempts waits addr waited.1)
                (record {
                  sent = omega (arith, first.sent);
                  received = omega (arith, first.received, total);
                })
                (record {
                  sent = omega (arith, first.sent, later.sent);
                  received = omega (arith, first.received, later.received, total);
                }))
      ]

  try_address-Within :
      (addr : SocketAddr) (n : Counts)
      → Within 3 15 n (try_address wire send_fails incoming addr n).1
  unfolding try_address
  try_address-Within (SocketAddr.v4 a) n = attempt-Within 3 5 (SocketAddr.v4 a) n
  try_address-Within (SocketAddr.v6 a) n =
      let fewer = attempt-Within 1 3 (SocketAddr.v6 a) n in
      record { sent = omega (arith, fewer.sent); received = omega (arith, fewer.received) }

  or_next-Within :
      (sends waits : ℕ) (addr : SocketAddr) (n : Counts) (tried : Heard × Counts)
      (rest : Selected × Counts)
      → Within sends waits n tried.1
      → Within sends waits n rest.1
      → Within sends waits n (or_next wire send_fails incoming addr tried rest).1
  or_next-Within sends waits addr n (Heard.found p, m) rest here later = here
  or_next-Within sends waits addr n (Heard.ignored, m) rest here later = later
  or_next-Within sends waits addr n (Heard.aborted, m) rest here later = here

  select-Within :
      (options : List SocketAddr) (n : Counts)
      → Within
          (3 * length options)
          (15 * length options)
          n
          (select wire send_fails incoming options n).1
  unfolding select
  select-Within [] n = record { sent = omega arith; received = omega arith }
  select-Within (addr ∷ options) n =
      let tried = try_address wire send_fails incoming addr n in
      let first = try_address-Within addr n in
      let later = select-Within options tried.1 in
      or_next-Within (3 * length (addr ∷ options)) (15 * length (addr ∷ options)) addr n tried
        (select wire send_fails incoming options tried.1)
        (record { sent = omega (arith, first.sent); received = omega (arith, first.received) })
        (record {
          sent = omega (arith, first.sent, later.sent);
          received = omega (arith, first.received, later.received);
        })

  -- Whatever arrives, the search ends after at most three pings and fifteen waits for every option.
  pub connect_to_first-bounds :
      (options : List SocketAddr)
      → ((connect_to_first wire send_fails incoming options).1.sent ≤ 3 * length options)
        × ((connect_to_first wire send_fails incoming options).1.received ≤ 15 * length options)
  unfolding connect_to_first
  connect_to_first-bounds options =
      let within = select-Within options (record { sent = 0; received = 0 }) in
      (omega (arith, within.sent), omega (arith, within.received))

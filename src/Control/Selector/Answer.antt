-- ===== src/Control/Selector/Answer.antt =====
-- The address that is selected has answered, and the search is bounded.
use playit_agent.Common.{
  ℕ, zero, suc, ◌+◌, ◌≡◌, refl, ap, ◌∙◌, inl, inr, Bool-cases, Bool, List, [], ◌∷◌, ◌++◌, take,
  ◌==◌, ==_iff,
}
use mathlib.Core.Path.{subst}
use playit_agent.Io.{Result, ok, err, panicked, Bytes}
use playit_agent.Wire.{Wire, SocketAddr}
use playit_agent.Wire.Addresses.{eq_addr, eq_addr_sound}
use playit_agent.Proto.Rpc.{ControlRpcMessage}
use playit_agent.Proto.Response.{ControlResponse, Pong}
use playit_agent.Proto.Feed.{ControlFeed, read_feed}
use playit_agent.Control.{ConnectedControl}
use playit_agent.Control.Selector.{
  Incoming, Heard, Counts, Selected, of_content, of_feed, hear, or_wait, wait_for_pong, attempt,
  try_address, or_next, select, connect_to_first,
}

-- The reading of a message that is a pong with the id of the ping.
of_content-found :
    (r : ControlResponse) (p : Pong) → of_content r ≡ Heard.found p → r ≡ ControlResponse.pong p
unfolding of_content
of_content-found (ControlResponse.pong q) p h = cc h
of_content-found ControlResponse.invalid_signature p h = absurd (cc h)
of_content-found ControlResponse.unauthorized p h = absurd (cc h)
of_content-found ControlResponse.request_queued p h = absurd (cc h)
of_content-found ControlResponse.try_again_later p h = absurd (cc h)
of_content-found (ControlResponse.agent_registered r) p h = absurd (cc h)
of_content-found (ControlResponse.agent_port_mapping m) p h = absurd (cc h)
of_content-found (ControlResponse.udp_channel_details d) p h = absurd (cc h)
of_content-found (ControlResponse.check_mtu_received_ack a) p h = absurd (cc h)
of_content-found (ControlResponse.mtu_test_packet q) p h = absurd (cc h)
of_content-found (ControlResponse.mtu_test_fail f) p h = absurd (cc h)

of_feed-found :
    (r : Result (ControlFeed × Bytes)) (p : Pong)
    → of_feed r ≡ Heard.found p
    → (rest : Bytes) × (r
        ≡ ok (
          ControlFeed.response (record { request_id = 1; content = ControlResponse.pong p }),
          rest,
        ))
unfolding of_feed
of_feed-found (ok (ControlFeed.response m, rest)) p h = elim (Bool-cases (m.request_id == 1)) [
  | inl own ↦
      let answered : m.content ≡ ControlResponse.pong p =
        of_content-found m.content p (rw own at h) in
      (
        rest,
        ap (λ (n : ControlRpcMessage ControlResponse). ok (ControlFeed.response n, rest))
            (rpc_path m ((==_iff m.request_id 1).0 own) answered),
      )
  | inr other ↦ absurd (let given : Heard.ignored ≡ Heard.found p = rw other at h in cc given)
]
  where
    rpc_path :
        (m : ControlRpcMessage ControlResponse)
        → m.request_id ≡ 1
        → m.content ≡ ControlResponse.pong p
        → m ≡ record { request_id = 1; content = ControlResponse.pong p }
    rpc_path m id content i = record { request_id = id i; content = content i }
of_feed-found (ok (ControlFeed.new_client c, rest)) p h = absurd (cc h)
of_feed-found (ok (ControlFeed.new_client_old c, rest)) p h = absurd (cc h)
of_feed-found (err e) p h = absurd (cc h)
of_feed-found panicked p h = absurd (cc h)

module _ (wire : Wire) (send_fails : ℕ → Bool) (incoming : ℕ → Incoming) where
  -- Among what arrived there is a datagram from the address that reads as the pong, in answer to a
  -- ping with the id 1.
  abbrev pub Answered : SocketAddr → Pong → Type 0
  Answered addr p =
      (i : ℕ) × (bytes : Bytes) × (rest : Bytes) × (incoming i ≡ Incoming.datagram bytes addr)
      × (read_feed wire (take 2_048 bytes)
          ≡ ok (
            ControlFeed.response (record { request_id = 1; content = ControlResponse.pong p }),
            rest,
          ))

  abbrev Good : SocketAddr → Heard → Type 0
  Good addr (Heard.found p) = Answered addr p
  Good addr Heard.ignored = Unit {0}
  Good addr Heard.aborted = Unit {0}

  hear-Good :
      (addr : SocketAddr) (i : ℕ) (w : Incoming)
      → incoming i ≡ w
      → Good addr (hear wire send_fails incoming addr w)
  unfolding hear
  hear-Good addr i Incoming.io_error e = tt
  hear-Good addr i Incoming.timed_out e = tt
  hear-Good addr i (Incoming.datagram bytes peer) e = elim (Bool-cases (eq_addr peer addr)) [
    | inr other ↦ rw (hear, other) tt
    | inl own ↦
        rw (hear, own)
          (of_good (of_feed (read_feed wire (take 2_048 bytes))) (λ p h.
            let (rest, reads) = of_feed-found (read_feed wire (take 2_048 bytes)) p h in
            (
              i,
              bytes,
              rest,
              e ∙ ap (Incoming.datagram bytes) (eq_addr_sound peer addr own),
              reads,
            )))
  ]
    where
      of_good : (h : Heard) → ((p : Pong) → h ≡ Heard.found p → Answered addr p) → Good addr h
      of_good (Heard.found p) k = k p refl
      of_good Heard.ignored k = tt
      of_good Heard.aborted k = tt

  or_wait-Good :
      (addr : SocketAddr) (h : Heard) (n : Counts) (rest : Heard × Counts)
      → Good addr h
      → Good addr rest.0
      → Good addr (or_wait wire send_fails incoming h n rest).0
  or_wait-Good addr (Heard.found p) n rest good later = good
  or_wait-Good addr Heard.ignored n rest good later = later
  or_wait-Good addr Heard.aborted n rest good later = tt

  wait_for_pong-Good :
      (waits : ℕ) (addr : SocketAddr) (n : Counts)
      → Good addr (wait_for_pong wire send_fails incoming waits addr n).0
  unfolding wait_for_pong
  wait_for_pong-Good zero addr n = tt
  wait_for_pong-Good (suc waits) addr n =
      or_wait-Good addr (hear wire send_fails incoming addr (incoming n.received))
        (record n { received = n.received + 1 })
        (wait_for_pong wire send_fails incoming waits addr (record n { received = n.received + 1 }))
        (hear-Good addr n.received (incoming n.received) refl)
        (wait_for_pong-Good waits addr (record n { received = n.received + 1 }))

  attempt-Good :
      (attempts waits : ℕ) (addr : SocketAddr) (n : Counts)
      → Good addr (attempt wire send_fails incoming attempts waits addr n).0
  unfolding attempt
  attempt-Good zero waits addr n = tt
  attempt-Good (suc attempts) waits addr n =
      let waited =
        wait_for_pong wire send_fails incoming waits addr (record n { sent = n.sent + 1 }) in
      elim (Bool-cases (send_fails n.sent)) [
        | inl lost ↦ rw (attempt, lost) tt
        | inr sent ↦
            rw (attempt, sent)
              (or_wait-Good addr waited.0 waited.1
                (attempt wire send_fails incoming attempts waits addr waited.1)
                (wait_for_pong-Good waits addr (record n { sent = n.sent + 1 }))
                (attempt-Good attempts waits addr waited.1))
      ]

  try_address-Good :
      (addr : SocketAddr) (n : Counts) → Good addr (try_address wire send_fails incoming addr n).0
  unfolding try_address
  try_address-Good (SocketAddr.v4 a) n = attempt-Good 3 5 (SocketAddr.v4 a) n
  try_address-Good (SocketAddr.v6 a) n = attempt-Good 1 3 (SocketAddr.v6 a) n

  -- The address is one of the options, and it has answered.
  abbrev Chosen : List SocketAddr → Selected → Type 0
  Chosen options (Selected.connected c) =
      ((before : List SocketAddr) × (after : List SocketAddr) × (options
          ≡ before ++ (c.control_addr ∷ after)))
      × Answered c.control_addr c.pong_latest
  Chosen options Selected.failed_to_connect = Unit {0}
  Chosen options Selected.aborted = Unit {0}

  Chosen-later :
      (addr : SocketAddr) (options : List SocketAddr) (r : Selected)
      → Chosen options r
      → Chosen (addr ∷ options) r
  Chosen-later addr options (Selected.connected c) ((before, after, e), answered) =
      ((addr ∷ before, after, ap (◌∷◌ addr) e), answered)
  Chosen-later addr options Selected.failed_to_connect h = tt
  Chosen-later addr options Selected.aborted h = tt

  or_next-Chosen :
      (addr : SocketAddr) (options : List SocketAddr) (tried : Heard × Counts)
      (rest : Selected × Counts)
      → Good addr tried.0
      → Chosen options rest.0
      → Chosen (addr ∷ options) (or_next wire send_fails incoming addr tried rest).0
  or_next-Chosen addr options (Heard.found p, n) rest good later = (([], options, refl), good)
  or_next-Chosen addr options (Heard.ignored, n) rest good later =
      Chosen-later addr options rest.0 later
  or_next-Chosen addr options (Heard.aborted, n) rest good later = tt

  select-Chosen :
      (options : List SocketAddr) (n : Counts)
      → Chosen options (select wire send_fails incoming options n).0
  unfolding select
  select-Chosen [] n = tt
  select-Chosen (addr ∷ options) n =
      or_next-Chosen addr options (try_address wire send_fails incoming addr n)
        (select wire send_fails incoming options (try_address wire send_fails incoming addr n).1)
        (try_address-Good addr n)
        (select-Chosen options (try_address wire send_fails incoming addr n).1)

  -- Where the search ends in a connection, its address is one of the options, and a datagram came
  -- from it that is a pong with the id of the ping; that pong is the connection's latest.
  pub connect_to_first-Answered :
      (options : List SocketAddr) (c : ConnectedControl)
      → (connect_to_first wire send_fails incoming options).0 ≡ Selected.connected c
      → ((before : List SocketAddr) × (after : List SocketAddr) × (options
            ≡ before ++ (c.control_addr ∷ after)))
        × Answered c.control_addr c.pong_latest
  unfolding connect_to_first
  connect_to_first-Answered options c h =
      subst (Chosen options) h (select-Chosen options (record { sent = 0; received = 0 }))

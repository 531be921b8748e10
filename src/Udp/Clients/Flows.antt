-- ===== src/Udp/Clients/Flows.antt =====
-- The flow that a client keeps, and the flows of its replies.
use playit_agent.Common.{
  ℕ, ◌+◌, ◌-◌, ◌≤◌, ◌<◌, ◌≡◌, refl, sym, ap, ◌⊎◌, inl, inr, Bool-cases, false, none, some, ltb,
  ltb→lt, ltb→ge, ltb-false, ◌==◌, ==_iff, some_injective, none_some, arith,
}
use playit_agent.Proto.Flow.{
  UdpFlow, UdpFlowExtension, extension, update_client_server_id, flip, src_addr, dst_addr,
}
use playit_agent.Udp.Clients.{client_flow, reply_flow, source_port, port_below, with_source_port}

-- The port of a client's flow and the offset make the port of the first packet.
port_below_lem :
    (p offset : ℕ)
    → (port_below p offset ≡ none) × (p < offset)
      ⊎ ((q : ℕ) × (port_below p offset ≡ some q) × (q + offset ≡ p))
unfolding port_below
port_below_lem p offset = elim (Bool-cases (offset == 0)) [
  | inl zero_offset ↦ inr (p, rw zero_offset refl, omega (arith, (==_iff offset 0).0 zero_offset))
  | inr differ ↦ elim (Bool-cases (ltb p offset)) [
    | inl above ↦ inl (rw (differ, above) refl, ltb→lt p offset above)
    | inr fits ↦ inr (p - offset, rw (differ, fits) refl, omega (arith, ltb→ge p offset fits))
  ]
]

kept_lem :
    (f : UdpFlow) (e : UdpFlowExtension) (q : ℕ)
    → extension f ≡ some e
    → q + e.port_offset ≡ source_port (flip f)
    → source_port (flip f) ≤ 65_535
    → (kept : UdpFlow) × (with_source_port (flip f) q 0 ≡ some kept)
      × (dst_addr kept ≡ src_addr f)
      × (reply_flow kept e.port_offset ≡ some (flip f))
unfolding flip extension dst_addr src_addr reply_flow
kept_lem (UdpFlow.v4 src dst frag none) e q has total fits = absurd (cc has)
kept_lem (UdpFlow.v6 src dst none) e q has total fits = absurd (cc has)
kept_lem (UdpFlow.v4 src dst frag (some own)) e q has total fits =
    let same : e ≡ own = some_injective (sym has) in
    let in_range : ltb 65_535 (q + e.port_offset) ≡ false =
      ltb-false 65_535 (q + e.port_offset) (omega arith) in
    (
      UdpFlow.v4 (record dst { port = q }) src frag (some (record own { port_offset = 0 })),
      refl,
      refl,
      rw (in_range, total, same) refl,
    )
kept_lem (UdpFlow.v6 src dst (some own)) e q has total fits =
    let same : e ≡ own = some_injective (sym has) in
    let in_range : ltb 65_535 (q + e.port_offset) ≡ false =
      ltb-false 65_535 (q + e.port_offset) (omega arith) in
    (
      UdpFlow.v6 (record dst { port = q }) src (some (record own { port_offset = 0 })),
      refl,
      refl,
      rw (in_range, total, same) refl,
    )

-- For a flow with an extension whose destination port is in range: either the offset passes the
-- port and there is no client's flow, or there is one, it leads back to the source, and the reply over
-- it has the addresses and the extension of the flow turned round.
pub client_flow_lem :
    (f : UdpFlow) (e : UdpFlowExtension)
    → extension f ≡ some e
    → source_port (flip f) ≤ 65_535
    → ((client_flow (flip f) e.port_offset ≡ none) × (source_port (flip f) < e.port_offset))
      ⊎ ((kept : UdpFlow) × (client_flow (flip f) e.port_offset ≡ some kept)
          × (dst_addr kept ≡ src_addr f)
          × (reply_flow kept e.port_offset ≡ some (flip f)))
unfolding client_flow
client_flow_lem f e has fits = elim (port_below_lem (source_port (flip f)) e.port_offset) [
  | inl (none_below, past) ↦ inl (rw (client_flow, none_below) refl, past)
  | inr (q, below, total) ↦
      let (kept, made, back, replied) = kept_lem f e q has total fits in
      inr (kept, rw (client_flow, below, made) refl, back, replied)
]

-- A reply after the server's id of the client's flow is set.
pub reply_flow-update_client_server_id :
    (f : UdpFlow) (id offset : ℕ)
    → (r : UdpFlow) × (reply_flow f offset ≡ some r)
    → (r : UdpFlow) × (reply_flow (update_client_server_id id f) offset ≡ some r)
unfolding reply_flow update_client_server_id
reply_flow-update_client_server_id (UdpFlow.v4 src dst frag none) id offset (r, h) = (r, h)
reply_flow-update_client_server_id (UdpFlow.v6 src dst none) id offset (r, h) = (r, h)
reply_flow-update_client_server_id (UdpFlow.v4 src dst frag (some e)) id offset (r, h) =
    elim (Bool-cases (ltb 65_535 (src.port + offset))) [
      | inl past ↦ absurd (none_some (rw past at h))
      | inr fits ↦ (
        UdpFlow.v4 (record src { port = src.port + offset }) dst frag
            (some
              (record { client_server_id = id; tunnel_id = e.tunnel_id; port_offset = offset })),
        rw fits refl,
      )
    ]
reply_flow-update_client_server_id (UdpFlow.v6 src dst (some e)) id offset (r, h) =
    elim (Bool-cases (ltb 65_535 (src.port + offset))) [
      | inl past ↦ absurd (none_some (rw past at h))
      | inr fits ↦ (
        UdpFlow.v6 (record src { port = src.port + offset }) dst
            (some
              (record { client_server_id = id; tunnel_id = e.tunnel_id; port_offset = offset })),
        rw fits refl,
      )
    ]

-- A reply goes where the client's flow leads.
pub dst_addr-reply_flow :
    (f : UdpFlow) (offset : ℕ) (r : UdpFlow)
    → reply_flow f offset ≡ some r
    → dst_addr r ≡ dst_addr f
unfolding reply_flow dst_addr
dst_addr-reply_flow f offset r h = elim (Bool-cases (ltb 65_535 (source_port f + offset))) [
  | inl past ↦ absurd (none_some (rw (reply_flow, past) at h))
  | inr fits ↦
      dst_addr-with_source_port f (source_port f + offset) offset r (rw (reply_flow, fits) at h)
]
  where
    dst_addr-with_source_port :
        (f : UdpFlow) (p offset : ℕ) (r : UdpFlow)
        → with_source_port f p offset ≡ some r
        → dst_addr r ≡ dst_addr f
    dst_addr-with_source_port (UdpFlow.v4 src dst frag none) p offset r h = absurd (none_some h)
    dst_addr-with_source_port (UdpFlow.v6 src dst none) p offset r h = absurd (none_some h)
    dst_addr-with_source_port (UdpFlow.v4 src dst frag (some e)) p offset r h =
        ap dst_addr (sym (some_injective h))
    dst_addr-with_source_port (UdpFlow.v6 src dst (some e)) p offset r h =
        ap dst_addr (sym (some_injective h))

-- ===== src/Udp/Clients/Runs.antt =====
-- The clients over any sequence of packets and removals.
use playit_agent.Common.{
  ℕ, ◌%◌, ◌^◌, ◌≤◌, ◌≡◌, ◌≢◌, sym, ap, ◌∙◌, inl, inr, some, List, some_injective, none_some,
}
use mathlib.Core.Path.{subst}
use playit_agent.Wire.{Wire}
use playit_agent.Proto.Flow.{UdpFlow, flip}
use playit_agent.Origin.{OriginMap}
use playit_agent.Slab.{SlabOps, SlabLaws, slab_len-empty}
use playit_agent.Udp.Packets.{Packet}
use playit_agent.Udp.Clients.{
  Client, Receivers, Surroundings, Datagram, UdpReceivedPacket, UdpClients, Handled, Dispatched,
  source_port, no_clients,
}
use playit_agent.Udp.Clients.Linked.{empty-Linked}
use playit_agent.Udp.Clients.Handle.{Valid, handle_tunneled_packet-Valid}
use playit_agent.Udp.Clients.Expiry.{clear_old-cases}
use playit_agent.Udp.Clients.Replies.{dispatch_origin_packet_lem}
use playit_agent.Udp.Clients.Steps.{dispatch_origin_packet, clear_old, handle_tunneled_packet}

module _ (slab : SlabOps Client) (laws : SlabLaws slab) (wire : Wire) where
  open slab use {get, set}

  -- One step of the clients that does not panic; the table of origins may be replaced in between.
  pub data Step (s : UdpClients slab) : UdpClients slab → Type 0 where
    tunneled :
        (env : Surroundings) (now : ℕ) (flow : UdpFlow) (packet : Packet) (sent : List Datagram)
        {s' : UdpClients slab}
        → source_port (flip flow) ≤ 65_535
        → handle_tunneled_packet slab wire env s now flow packet ≡ Handled.handled s' sent
        → Step s s'
    answered :
        (now : ℕ) (received : UdpReceivedPacket) (flow : UdpFlow) (packet : Packet)
        {s' : UdpClients slab}
        → dispatch_origin_packet slab s now received ≡ Dispatched.forwarded s' flow packet
        → Step s s'
    cleared :
        (r : Receivers) (now : ℕ) {s' : UdpClients slab}
        → clear_old slab r s now ≡ some s'
        → Step s s'
    updated : (origins : OriginMap) → Step s (record s { lookup = origins })

  pub data Reachable : UdpClients slab → Type 0 where
    start : (origins : OriginMap) → Reachable (no_clients slab origins)
    next : {s s' : UdpClients slab} → Reachable s → Step s s' → Reachable s'

  AfterDispatch : Dispatched slab → Type 0
  AfterDispatch Dispatched.dropped = Unit {0}
  AfterDispatch (Dispatched.forwarded s' flow packet) = Valid slab laws s'
  AfterDispatch Dispatched.panicked = Unit {0}

  Step-Valid : (s s' : UdpClients slab) → Step s s' → Valid slab laws s → Valid slab laws s'
  unfolding AfterDispatch
  Step-Valid s s' (Step.tunneled env now flow packet sent in_range h) valid =
      handle_tunneled_packet-Valid slab laws wire env s s' now flow packet sent valid in_range h
  Step-Valid s s' (Step.answered now received flow packet h) valid =
      subst AfterDispatch h (elim (dispatch_origin_packet_lem slab laws s now received valid) [
        | inl dropped ↦ subst AfterDispatch (sym dropped) tt
        | inr replied ↦ subst AfterDispatch (sym replied.outcome) replied.valid
      ])
  Step-Valid s s' (Step.cleared r now h) valid = elim (clear_old-cases slab laws r s now valid) [
    | inl (t, done, all_end, valid', kept) ↦
        subst (Valid slab laws) (some_injective (sym done ∙ h)) valid'
    | inr (failed, stuck) ↦ absurd (none_some (sym failed ∙ h))
  ]
  Step-Valid s _ (Step.updated origins) valid = record {
    linked = valid.linked;
    active = valid.active;
  }

  no_clients-Valid : (origins : OriginMap) → Valid slab laws (no_clients slab origins)
  no_clients-Valid origins = record {
    linked = empty-Linked slab laws;
    active = sym (ap (λ (n : ℕ). n % 2 ^ 32) (slab_len-empty slab laws));
  }

  -- Whatever packets come and whenever old clients are removed, the two tables of the clients agree,
  -- every client has the slot of its id, a flow that leads back to its source and room for its reply's
  -- port, and the statistics have the number of clients.
  pub Reachable-Valid : (s : UdpClients slab) → Reachable s → Valid slab laws s
  Reachable-Valid _ (Reachable.start origins) = no_clients-Valid origins
  Reachable-Valid s (Reachable.next {s = t} before step) =
      Step-Valid t s step (Reachable-Valid t before)

  -- In no state that is reached does a packet of an origin panic.
  pub Reachable-ne-panicked :
      (s : UdpClients slab) (now : ℕ) (received : UdpReceivedPacket)
      → Reachable s
      → dispatch_origin_packet slab s now received ≢ Dispatched.panicked
  Reachable-ne-panicked s now received reached h =
      elim (dispatch_origin_packet_lem slab laws s now received (Reachable-Valid s reached)) [
        | inl dropped ↦ absurd (cc (h, dropped))
        | inr replied ↦ absurd (cc (h, replied.outcome))
      ]

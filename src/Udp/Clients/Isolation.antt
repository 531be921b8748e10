-- ===== src/Udp/Clients/Isolation.antt =====
-- A packet from the tunnel concerns the client of its own key only.
use playit_agent.Common.{
  ℕ, ◌^◌, ◌≤◌, ◌≡◌, ◌≢◌, ◌↔◌, sym, ap, ◌∙◌, inl, inr, Bool-cases, Option-cases, false, Option, none,
  some, List, ltb, ◌==◌, ==_iff, if◌then◌else◌, some_injective, none_some,
}
use mathlib.Core.Path.{subst}
use playit_agent.Wire.{Wire, SocketAddr}
use playit_agent.Proto.Flow.{UdpFlow, UdpFlowExtension, extension, flip, src_addr}
use playit_agent.Origin.{OriginResource, lookup, resolve_local}
use playit_agent.Slab.{SlabOps, SlabLaws}
use playit_agent.Udp.Packets.{Packet}
use playit_agent.Udp.Clients.{
  UdpClientKey, Client, Surroundings, Datagram, UdpClients, Handled, special_lan, source_port,
  client_flow,
}
use playit_agent.Udp.Clients.Handle.{Valid, handle_tunneled_packet-Valid}
use playit_agent.Udp.Clients.View.{client_of, client_at_same}
use playit_agent.Udp.Clients.Steps.{
  key_of, admit, new_client, to_client, dropped_key, with_origin, handle_tunneled_packet,
  created_client, touched,
}

module _ (slab : SlabOps Client) (laws : SlabLaws slab) where
  open slab use {get, vacant_key, insert, set, remove}

  -- The same clients with the key.
  abbrev Same : UdpClientKey → slab.Slab → slab.Slab → Type 0
  Same k v v' = (slot : ℕ) (c : Client) → c.key ≡ k → (get slot v ≡ some c) ↔ (get slot v' ≡ some c)

  Same-trans :
      (k : UdpClientKey) (v v' v'' : slab.Slab) → Same k v v' → Same k v' v'' → Same k v v''
  Same-trans k v v' v'' f g slot c own =
      (λ h. (g slot c own).0 ((f slot c own).0 h), λ h. (f slot c own).1 ((g slot c own).1 h))

  -- A slot that had no client with the key and gets none.
  by_slot :
      (j i : ℕ) (o new : Option Client) (k : UdpClientKey) (c : Client)
      → ((j ≡ i) → (d : Client) → (o ≡ some d) → d.key ≢ k)
      → ((d : Client) → (new ≡ some d) → d.key ≢ k)
      → c.key ≡ k
      → (o ≡ some c) ↔ ((if j == i then new else o) ≡ some c)
  by_slot j i o new k c before after own = elim (Bool-cases (j == i)) [
    | inl same ↦
        rw same
          ((λ h. absurd (before ((==_iff j i).0 same) c h own)), (λ h. absurd (after c h own)))
    | inr differ ↦ rw differ (λ h. h, λ h. h)
  ]

  Same-remove :
      (k : UdpClientKey) (v : slab.Slab) (slot : ℕ) (d : Client)
      → get slot v ≡ some d
      → d.key ≢ k
      → Same k v (remove slot v)
  Same-remove k v slot d held apart i c own = rw (laws.get-remove slot v i) (
      by_slot slot i (get i v) none k c
        (λ e x h. (λ xk. apart (
          ap (λ (y : Client). y.key) (some_injective (sym held ∙ ap (λ (j : ℕ). get j v) e ∙ h))
          ∙ xk)))
        (λ x h. absurd (none_some h)) own)

  Same-set :
      (k : UdpClientKey) (v : slab.Slab) (slot : ℕ) (d d' : Client)
      → get slot v ≡ some d
      → d.key ≢ k
      → d'.key ≢ k
      → Same k v (set slot d' v)
  Same-set k v slot d d' held apart apart' i c own = rw (laws.get-set slot d' d v i held) (
      by_slot slot i (get i v) (some d') k c
        (λ e x h. (λ xk. apart (
          ap (λ (y : Client). y.key) (some_injective (sym held ∙ ap (λ (j : ℕ). get j v) e ∙ h))
          ∙ xk)))
        (λ x h. (λ xk. apart' (ap (λ (y : Client). y.key) (some_injective h) ∙ xk))) own)

  Same-insert : (k : UdpClientKey) (v : slab.Slab) (d : Client) → d.key ≢ k → Same k v (insert d v)
  Same-insert k v d apart i c own = rw (laws.get-insert d v i) (
      by_slot (vacant_key v) i (get i v) (some d) k c
        (λ e x h. absurd (none_some (sym (laws.get-vacant_key v) ∙ ap (λ (j : ℕ). get j v) e ∙ h)))
        (λ x h. (λ xk. apart (ap (λ (y : Client). y.key) (some_injective h) ∙ xk))) own)

  module _ (wire : Wire) (env : Surroundings) (now : ℕ) (flow : UdpFlow) (k : UdpClientKey) where
    -- The clients with the key after a packet are those before.
    abbrev Untouched : slab.Slab → Handled slab → Type 0
    Untouched v (Handled.handled s' sent) = Same k v s'.virtual_clients
    Untouched v Handled.panicked = Unit {0}

    Untouched-trans :
        (v v' : slab.Slab) (r : Handled slab) → Same k v v' → Untouched v' r → Untouched v r
    Untouched-trans v v' (Handled.handled s' sent) f g = Same-trans k v v' s'.virtual_clients f g
    Untouched-trans v v' Handled.panicked f g = tt

    module _ (e : UdpFlowExtension) (origin : OriginResource) (packet : Packet)
        (apart : key_of slab wire env now flow e origin packet ≢ k) where
      admit-Untouched :
          (s : UdpClients slab) (target : SocketAddr)
          → Untouched s.virtual_clients (admit slab wire env now flow e origin packet s target)
      unfolding admit
      admit-Untouched s target = elim (Bool-cases (ltb (vacant_key s.virtual_clients) (2 ^ 32))) [
        | inr full ↦ rw (admit, full) tt
        | inl free ↦ elim (Option-cases (client_flow (flip flow) e.port_offset)) [
          | inl no_flow ↦ rw (admit, free, no_flow) tt
          | inr (kept, made) ↦
              rw (admit, free, made)
                (Same-insert k s.virtual_clients
                  (created_client slab wire env now flow e origin packet s target kept) apart)
        ]
      ]

      new_client-Untouched :
          (s : UdpClients slab)
          → Untouched s.virtual_clients (new_client slab wire env now flow e origin packet s)
      unfolding new_client
      new_client-Untouched s = elim (Bool-cases env.limiter_allows) [
        | inr refused ↦ rw (new_client, refused) (λ slot c own. (λ h. h, λ h. h))
        | inl allowed ↦ elim (Option-cases (resolve_local env.dns origin e.port_offset)) [
          | inl unresolved ↦ rw (new_client, allowed, unresolved) (λ slot c own. (λ h. h, λ h. h))
          | inr (target, resolved) ↦
              elim (Bool-cases (
                env.opens (key_of slab wire env now flow e origin packet)
                  (special_lan origin target) target)) [
                    | inr shut ↦
                        rw (new_client, allowed, resolved, shut) (λ slot c own. (λ h. h, λ h. h))
                    | inl opened ↦
                        rw (new_client, allowed, resolved, opened) (admit-Untouched s target)
                  ]
        ]
      ]

      with_origin-Untouched :
          (s : UdpClients slab)
          → Valid slab laws s
          → Untouched s.virtual_clients (with_origin slab wire env now flow e origin packet s)
      unfolding with_origin to_client
      with_origin-Untouched s valid =
          let key = key_of slab wire env now flow e origin packet in
          elim (Option-cases (s.virtual_client_lookup key)) [
            | inl absent ↦ rw (with_origin, absent) (new_client-Untouched s)
            | inr (slot, under) ↦
                let (c, held, own) = valid.linked.listed key slot under in
                let other : c.key ≢ k = λ at_k. apart (sym own ∙ at_k) in
                elim (Bool-cases (env.is_closed c.id)) [
                  | inl closed ↦
                      rw (with_origin, under, held, closed)
                        (Untouched-trans s.virtual_clients (remove slot s.virtual_clients) _
                          (Same-remove k s.virtual_clients slot c held other)
                          (new_client-Untouched
                            (dropped_key slab wire env now flow e origin packet s slot)))
                  | inr runs ↦
                      rw (with_origin, under, held, runs)
                        (Same-set k s.virtual_clients slot c
                          (touched slab wire env now flow e origin packet c) held other other)
                ]
          ]

    handle-Untouched :
        (s : UdpClients slab) (packet : Packet)
        → Valid slab laws s
        → ((e : UdpFlowExtension)
            → extension flow ≡ some e
            → record { source_addr = src_addr flow; tunnel_id = e.tunnel_id } ≢ k)
        → Untouched s.virtual_clients (handle_tunneled_packet slab wire env s now flow packet)
    unfolding handle_tunneled_packet
    handle-Untouched s packet valid apart = elim (Option-cases (extension flow)) [
      | inl plain ↦ rw (handle_tunneled_packet, plain) (λ slot c own. (λ h. h, λ h. h))
      | inr (e, has) ↦ elim (Option-cases (lookup s.lookup e.tunnel_id false)) [
        | inl unknown ↦ rw (handle_tunneled_packet, has, unknown) (λ slot c own. (λ h. h, λ h. h))
        | inr (origin, known) ↦
            rw (handle_tunneled_packet, has, known)
              (with_origin-Untouched e origin packet (apart e has) s valid)
      ]
    ]

  -- A packet from the tunnel leaves the client of every key as it was but that of its own source
  -- and tunnel, if the tables agree before it and its destination port is in range.
  pub handle_tunneled_packet-client_of :
      (wire : Wire) (env : Surroundings) (s s' : UdpClients slab) (now : ℕ) (flow : UdpFlow)
      (packet : Packet) (sent : List Datagram) (k : UdpClientKey)
      → Valid slab laws s
      → source_port (flip flow) ≤ 65_535
      → handle_tunneled_packet slab wire env s now flow packet ≡ Handled.handled s' sent
      → ((e : UdpFlowExtension)
          → extension flow ≡ some e
          → record { source_addr = src_addr flow; tunnel_id = e.tunnel_id } ≢ k)
      → client_of slab laws s' k ≡ client_of slab laws s k
  handle_tunneled_packet-client_of wire env s s' now flow packet sent k valid in_range h apart =
      let valid' =
        handle_tunneled_packet-Valid slab laws wire env s s' now flow packet sent valid in_range
          h in
      sym (
        client_at_same slab laws s.virtual_client_lookup s'.virtual_client_lookup s.virtual_clients
          s'.virtual_clients k valid.linked valid'.linked
          (subst (Untouched wire env now flow k s.virtual_clients) h
            (handle-Untouched wire env now flow k s packet valid apart)))

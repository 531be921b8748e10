-- ===== src/Udp/Clients/Handle.antt =====
-- A packet from the tunnel keeps the clients' tables in order, whichever way it goes.
use playit_agent.Common.{
  ℕ, ◌%◌, ◌^◌, ◌≤◌, ◌<◌, ◌≡◌, refl, sym, ap, ◌∙◌, ◌⊎◌, inl, inr, Bool-cases, Option-cases, Bool,
  true, false, none, some, List, length, ltb, ltb→lt, ltb→ge, arith,
}
use mathlib.Core.Path.{subst}
use playit_agent.Wire.{Wire, SocketAddr}
use playit_agent.Proto.Flow.{UdpFlow, UdpFlowExtension, extension, flip, src_addr}
use playit_agent.Proto.Flow.Accessors.{update_client_server_id_lem}
use playit_agent.Origin.{OriginResource, lookup, resolve_local}
use playit_agent.Slab.{SlabOps, SlabLaws, slab_len}
use playit_agent.Stats.{add_bytes_in, set_udp}
use playit_agent.Udp.Packets.{Packet}
use playit_agent.Udp.Clients.{
  UdpClientKey, Client, ClientMap, Surroundings, UdpClients, Handled, Datagram, pack_client_id,
  unpack_slot, remove_key, special_lan, source_port,
}
use playit_agent.Udp.Clients.Keys.{eq_key_refl}
use playit_agent.Udp.Clients.Linked.{Kept, Linked, insert-Linked, remove-Linked, set-Linked}
use playit_agent.Udp.Clients.Flows.{client_flow_lem, reply_flow-update_client_server_id}
use playit_agent.Udp.Clients.Steps.{
  key_of, admit, new_client, to_client, dropped_key, with_origin, handle_tunneled_packet,
  created_client, touched,
}

pub unpack_slot-pack_client_id :
    (slot generation : ℕ) → slot < 2 ^ 32 → unpack_slot (pack_client_id slot generation) ≡ slot
unpack_slot-pack_client_id slot generation h = omega arith

free_key : (k : UdpClientKey) (m : ClientMap) → remove_key k m k ≡ none
free_key k m = rw (eq_key_refl k) refl

module _ (slab : SlabOps Client) (laws : SlabLaws slab) where
  open slab use {get, vacant_key, insert, set, remove}

  -- The tables agree, and the statistics have the number of clients.
  pub record Valid (s : UdpClients slab) : Type 0 where
    pub linked : Linked slab laws s.virtual_client_lookup s.virtual_clients
    pub active : s.stats.active_udp ≡ slab_len slab s.virtual_clients % 2 ^ 32

  -- No slot of 32 bits is vacant for the client of a key: as the slab is, or without the client that
  -- the key has, whose receiver task has ended.
  abbrev pub Full : (ℕ → Bool) → UdpClientKey → UdpClients slab → Type 0
  Full is_closed k s =
      (2 ^ 32 ≤ vacant_key s.virtual_clients)
      ⊎ ((slot : ℕ) × (c : Client) × (s.virtual_client_lookup k ≡ some slot)
          × (get slot s.virtual_clients ≡ some c)
          × (is_closed c.id ≡ true)
          × (2 ^ 32 ≤ vacant_key (remove slot s.virtual_clients)))

  -- No slot of 32 bits is vacant for the client that a packet of the flow belongs to.
  abbrev pub FullFor : (ℕ → Bool) → UdpFlow → UdpClients slab → Type 0
  FullFor is_closed flow s =
      (e : UdpFlowExtension) × (extension flow ≡ some e)
      × Full is_closed (record { source_addr = src_addr flow; tunnel_id = e.tunnel_id }) s

  module _ (wire : Wire) (env : Surroundings) (now : ℕ) (flow : UdpFlow) where
    -- The outcomes of a packet that are allowed.
    abbrev pub Safe : Type 0 → Handled slab → Type 0
    Safe P (Handled.handled s' sent) = Valid s'
    Safe P Handled.panicked =
        P
        ⊎ ((e : UdpFlowExtension) × (extension flow ≡ some e)
            × (source_port (flip flow) < e.port_offset))

    Safe-map : {P Q : Type 0} → (P → Q) → (r : Handled slab) → Safe P r → Safe Q r
    Safe-map f (Handled.handled s' sent) ok_after = ok_after
    Safe-map f Handled.panicked (inl p) = inl (f p)
    Safe-map f Handled.panicked (inr past) = inr past

    module _ (e : UdpFlowExtension) (origin : OriginResource) (packet : Packet)
        (has : extension flow ≡ some e) (in_range : source_port (flip flow) ≤ 65_535) where
      admit-Safe :
          (s : UdpClients slab) (target : SocketAddr)
          → Valid s
          → s.virtual_client_lookup (key_of slab wire env now flow e origin packet) ≡ none
          → Safe
              (2 ^ 32 ≤ vacant_key s.virtual_clients)
              (admit slab wire env now flow e origin packet s target)
      unfolding set_udp admit
      admit-Safe s target valid absent =
          elim (Bool-cases (ltb (vacant_key s.virtual_clients) (2 ^ 32))) [
            | inr full ↦ rw (admit, full) (inl (ltb→ge _ _ full))
            | inl free ↦ elim (client_flow_lem flow e has in_range) [
              | inl (no_flow, past) ↦ rw (admit, free, no_flow) (inr (e, has, past))
              | inr (kept, made, back, replied) ↦
                  rw (admit, free, made)
                    (record {
                      linked =
                          insert-Linked slab laws s.virtual_client_lookup s.virtual_clients
                            (created_client slab wire env now flow e origin packet s target kept)
                            valid.linked absent
                            (record {
                              own_slot = unpack_slot-pack_client_id _ _ (ltb→lt _ _ free);
                              leads_back = back;
                              replies = (flip flow, replied);
                            });
                      active = refl;
                    })
            ]
          ]

      new_client-Safe :
          (s : UdpClients slab)
          → Valid s
          → s.virtual_client_lookup (key_of slab wire env now flow e origin packet) ≡ none
          → Safe
              (2 ^ 32 ≤ vacant_key s.virtual_clients)
              (new_client slab wire env now flow e origin packet s)
      unfolding new_client
      new_client-Safe s valid absent = elim (Bool-cases env.limiter_allows) [
        | inr refused ↦ rw (new_client, refused) valid
        | inl allowed ↦ elim (Option-cases (resolve_local env.dns origin e.port_offset)) [
          | inl unresolved ↦ rw (new_client, allowed, unresolved) valid
          | inr (target, resolved) ↦
              elim (Bool-cases (
                env.opens (key_of slab wire env now flow e origin packet)
                  (special_lan origin target) target)) [
                    | inr shut ↦ rw (new_client, allowed, resolved, shut) valid
                    | inl opened ↦
                        rw (new_client, allowed, resolved, opened)
                          (admit-Safe s target valid absent)
                  ]
        ]
      ]

      Kept-touched :
          (slot : ℕ) (c : Client)
          → Kept slot c
          → Kept slot (touched slab wire env now flow e origin packet c)
      Kept-touched slot c kept = record {
        own_slot = kept.own_slot;
        leads_back = (update_client_server_id_lem e.client_server_id c.flow).2 ∙ kept.leads_back;
        replies =
            reply_flow-update_client_server_id c.flow e.client_server_id c.port_offset kept.replies;
      }

      to_client-Valid :
          (P : Type 0) (s : UdpClients slab) (slot : ℕ) (c : Client)
          → Valid s
          → get slot s.virtual_clients ≡ some c
          → Safe P (to_client slab wire env now flow e origin packet s slot c)
      unfolding to_client add_bytes_in
      to_client-Valid P s slot c valid held = record {
        linked =
            set-Linked slab laws s.virtual_client_lookup s.virtual_clients slot c
              (touched slab wire env now flow e origin packet c) valid.linked held refl
              (Kept-touched slot c (valid.linked.stored slot c held).1);
        active =
            valid.active
            ∙ ap (λ (l : List ℕ). length l % 2 ^ 32)
                (sym (
                  laws.slots-set slot (touched slab wire env now flow e origin packet c)
                    s.virtual_clients));
      }

      -- Without the client under the key, the tables agree, and the key is free.
      dropped_key-Valid :
          (s : UdpClients slab) (slot : ℕ) (c : Client)
          → Valid s
          → get slot s.virtual_clients ≡ some c
          → c.key ≡ key_of slab wire env now flow e origin packet
          → Valid (dropped_key slab wire env now flow e origin packet s slot)
      unfolding set_udp
      dropped_key-Valid s slot c valid held own = record {
        linked =
            subst
              (λ (k : UdpClientKey).
                Linked slab laws (remove_key k s.virtual_client_lookup)
                  (remove slot s.virtual_clients))
              own
              (remove-Linked slab laws s.virtual_client_lookup s.virtual_clients slot c valid.linked
                held);
        active = refl;
      }

      with_origin-Safe :
          (s : UdpClients slab)
          → Valid s
          → (P : Type 0)
          → (Full env.is_closed (key_of slab wire env now flow e origin packet) s → P)
          → Safe P (with_origin slab wire env now flow e origin packet s)
      unfolding with_origin
      with_origin-Safe s valid P of_full =
          let key = key_of slab wire env now flow e origin packet in
          elim (Option-cases (s.virtual_client_lookup key)) [
            | inl absent ↦
                rw (with_origin, absent)
                  (Safe-map (λ full. of_full (inl full)) _ (new_client-Safe s valid absent))
            | inr (slot, under) ↦
                let (c, held, own) = valid.linked.listed key slot under in
                elim (Bool-cases (env.is_closed c.id)) [
                  | inl closed ↦
                      rw (with_origin, under, held, closed)
                        (Safe-map (λ full. of_full (inr (slot, c, under, held, closed, full))) _
                          (new_client-Safe
                            (dropped_key slab wire env now flow e origin packet s slot)
                            (dropped_key-Valid s slot c valid held own)
                            (free_key key s.virtual_client_lookup)))
                  | inr runs ↦
                      rw (with_origin, under, held, runs) (to_client-Valid P s slot c valid held)
                ]
          ]

    handle-Safe :
        (s : UdpClients slab) (packet : Packet)
        → Valid s
        → source_port (flip flow) ≤ 65_535
        → (P : Type 0) → (FullFor env.is_closed flow s → P)
        → Safe P (handle_tunneled_packet slab wire env s now flow packet)
    unfolding handle_tunneled_packet
    handle-Safe s packet valid in_range P of_full = elim (Option-cases (extension flow)) [
      | inl plain ↦ rw (handle_tunneled_packet, plain) valid
      | inr (e, has) ↦ elim (Option-cases (lookup s.lookup e.tunnel_id false)) [
        | inl unknown ↦ rw (handle_tunneled_packet, has, unknown) valid
        | inr (origin, known) ↦
            rw (handle_tunneled_packet, has, known)
              (with_origin-Safe e origin packet has in_range s valid P
                (λ full. of_full (e, has, full)))
      ]
    ]

  -- Whatever a packet from the tunnel does that does not panic, the tables agree after it and the
  -- statistics have the number of clients, if that was so before and the flow's destination port is
  -- a number of 16 bits.
  pub handle_tunneled_packet-Valid :
      (wire : Wire) (env : Surroundings) (s s' : UdpClients slab) (now : ℕ) (flow : UdpFlow)
      (packet : Packet) (sent : List Datagram)
      → Valid s
      → source_port (flip flow) ≤ 65_535
      → handle_tunneled_packet slab wire env s now flow packet ≡ Handled.handled s' sent
      → Valid s'
  handle_tunneled_packet-Valid wire env s s' now flow packet sent valid in_range h =
      subst (Safe wire env now flow (FullFor env.is_closed flow s)) h
        (handle-Safe wire env now flow s packet valid in_range _ (λ full. full))

  -- A packet from the tunnel panics only if no slot of 32 bits is vacant for its client (`FullFor`:
  -- as the slab is, or without the client that its key has, whose receiver task has ended), or if the
  -- flow's port offset is above its destination port, when the tables agree and that port is in range.
  pub handle_tunneled_packet-panicked :
      (wire : Wire) (env : Surroundings) (s : UdpClients slab) (now : ℕ) (flow : UdpFlow)
      (packet : Packet)
      → Valid s
      → source_port (flip flow) ≤ 65_535
      → handle_tunneled_packet slab wire env s now flow packet ≡ Handled.panicked
      → FullFor env.is_closed flow s
        ⊎ ((e : UdpFlowExtension) × (extension flow ≡ some e)
            × (source_port (flip flow) < e.port_offset))
  handle_tunneled_packet-panicked wire env s now flow packet valid in_range h =
      subst (Safe wire env now flow (FullFor env.is_closed flow s)) h
        (handle-Safe wire env now flow s packet valid in_range _ (λ full. full))

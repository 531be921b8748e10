-- ===== src/Udp/Clients/RoundTrip.antt =====
-- From the first packet of a client to the reply of its origin.
use playit_agent.Common.{
  ℕ, ◌^◌, ◌≤◌, ◌<◌, ◌≡◌, refl, ◌∙◌, inl, inr, true, false, none, some, ◌++◌, [], ◌∷◌, ltb-true,
  eq_true, arith,
}
use playit_agent.Wire.{Wire, SocketAddr}
use playit_agent.Wire.Addresses.{eq_addr_refl}
use playit_agent.Proto.Flow.{UdpFlow, UdpFlowExtension, extension, flip}
use playit_agent.Origin.{OriginResource, lookup, resolve_local}
use playit_agent.Slab.{SlabOps, SlabLaws}
use playit_agent.Udp.Packets.{Packet}
use playit_agent.Udp.Clients.{
  Client, Surroundings, UdpClients, Handled, Dispatched, pack_client_id, unpack_slot, special_lan,
  source_port, reply_flow,
}
use playit_agent.Udp.Clients.Flows.{client_flow_lem}
use playit_agent.Udp.Clients.Handle.{unpack_slot-pack_client_id}
use playit_agent.Udp.Clients.Steps.{
  after_reply, reply, dispatch_origin_packet, key_of, admit, new_client, with_origin,
  handle_tunneled_packet, new_id, created_client, with_client, proxy_header, forwarded_to,
}

module _ (slab : SlabOps Client) (laws : SlabLaws slab) where
  open slab use {get, vacant_key, insert}

  module _ (wire : Wire) (env : Surroundings) (s : UdpClients slab) (now : ℕ) (flow : UdpFlow)
      (e : UdpFlowExtension) (origin : OriginResource) (packet : Packet) (target : SocketAddr) where
    -- A new client is in the slot that its id names.
    stored-with_client :
        (kept : UdpFlow)
        → vacant_key s.virtual_clients < 2 ^ 32
        → get
            (unpack_slot (new_id slab wire env now flow e origin packet s))
            (with_client slab wire env now flow e origin packet s target kept).virtual_clients
          ≡ some (created_client slab wire env now flow e origin packet s target kept)
    stored-with_client kept free =
        let slot = vacant_key s.virtual_clients in
        let own : unpack_slot (pack_client_id slot s.next_client_generation) ≡ slot =
          unpack_slot-pack_client_id slot s.next_client_generation free in
        rw own (
          laws.get-insert (created_client slab wire env now flow e origin packet s target kept)
            s.virtual_clients slot
          ∙ rw (eq_true slot slot refl) refl)

    reply-with_client :
        (kept : UdpFlow) (now' : ℕ) (answer : Packet)
        → vacant_key s.virtual_clients < 2 ^ 32
        → reply_flow kept e.port_offset ≡ some (flip flow)
        → (s' : UdpClients slab) × (dispatch_origin_packet slab
              (with_client slab wire env now flow e origin packet s target kept)
              now'
              (record {
                rx_id = new_id slab wire env now flow e origin packet s;
                packet = answer;
                from = target;
              })
            ≡ Dispatched.forwarded s' (flip flow) answer)
    unfolding dispatch_origin_packet reply
    reply-with_client kept now' answer free replied =
        let id = new_id slab wire env now flow e origin packet s in
        (
          after_reply slab (with_client slab wire env now flow e origin packet s target kept) now'
              (record { rx_id = id; packet = answer; from = target })
              (created_client slab wire env now flow e origin packet s target kept),
          rw
              (
                dispatch_origin_packet,
                stored-with_client kept free,
                eq_true id id refl,
                eq_addr_refl target,
                reply,
                replied,
              )
              refl,
        )

    -- The first packet of a new client, of a tunnel that is known and resolved, when the limiter lets
    -- it in, the socket opens, a slot of 32 bits is vacant and the port offset is no more than the
    -- destination port, which is in range, goes to the target, a PROXY header before it if the origin
    -- asks for version 2; and whatever the target answers to the socket goes back over the flow turned
    -- round, port and port offset as they were.
    pub reply-handle_tunneled_packet :
        extension flow ≡ some e
        → lookup s.lookup e.tunnel_id false ≡ some origin
        → s.virtual_client_lookup (key_of slab wire env now flow e origin packet) ≡ none
        → env.limiter_allows ≡ true
        → resolve_local env.dns origin e.port_offset ≡ some target
        → env.opens
            (key_of slab wire env now flow e origin packet)
            (special_lan origin target)
            target
          ≡ true
        → vacant_key s.virtual_clients < 2 ^ 32
        → e.port_offset ≤ source_port (flip flow)
        → source_port (flip flow) ≤ 65_535
        → (s' : UdpClients slab) × (id : ℕ) × (handle_tunneled_packet slab wire env s now flow
              packet
            ≡ Handled.handled s' (
                proxy_header slab wire env now flow e origin packet id target origin.proxy_protocol
                ++ (forwarded_to slab wire env now flow e origin packet id target ∷ [])))
          × ((now' : ℕ) (answer : Packet)
              → (s'' : UdpClients slab) × (dispatch_origin_packet slab s' now'
                    (record { rx_id = id; packet = answer; from = target })
                  ≡ Dispatched.forwarded s'' (flip flow) answer))
    unfolding handle_tunneled_packet with_origin new_client admit
    reply-handle_tunneled_packet has known absent allowed resolved opened free fits in_range =
        elim (client_flow_lem flow e has in_range) [
          | inl (no_flow, past) ↦ absurd (omega arith)
          | inr (kept, made, back, replied) ↦ (
            with_client slab wire env now flow e origin packet s target kept,
            new_id slab wire env now flow e origin packet s,
            rw
                (
                  handle_tunneled_packet,
                  has,
                  known,
                  with_origin,
                  absent,
                  new_client,
                  allowed,
                  resolved,
                  opened,
                  admit,
                  ltb-true (vacant_key s.virtual_clients) (2 ^ 32) free,
                  made,
                )
                refl,
            λ now' answer. reply-with_client kept now' answer free replied,
          )
        ]

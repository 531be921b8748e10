-- ===== src/Udp/Clients/Targets.antt =====
-- A client keeps the target that its first packet had.
use playit_agent.Common.{
  ℕ, ◌≡◌, refl, sym, ap, ◌∙◌, inl, inr, Option-cases, false, some, List, ◌∷◌, ◌++◌, [], eq_true,
  none_some,
}
use playit_agent.Wire.{Wire, SocketAddr}
use playit_agent.Proto.Flow.{
  UdpFlow, UdpFlowExtension, extension, update_client_server_id, src_addr,
}
use playit_agent.Origin.{OriginResource, lookup}
use playit_agent.Slab.{SlabOps, SlabLaws}
use playit_agent.Stats.{add_bytes_in}
use playit_agent.Udp.Packets.{Packet, as_ref}
use playit_agent.Udp.Clients.{
  UdpClientKey, Client, ClientMap, Surroundings, Datagram, UdpClients, Handled,
}
use playit_agent.Udp.Clients.View.{client_at, client_of}
use playit_agent.Udp.Clients.Steps.{handle_tunneled_packet, with_origin, to_client, key_of, touched}

-- A packet from the tunnel, when it comes, and what the outside decides for it.
pub record Arrived : Type 0 where
  pub env : Surroundings
  pub now : ℕ
  pub flow : UdpFlow
  pub packet : Packet

-- The packets that come from a source over a tunnel, whatever their port offsets.
pub record Of (k : UdpClientKey) (a : Arrived) : Type 0 where
  pub fields : UdpFlowExtension
  pub has : extension a.flow ≡ some fields
  pub own_tunnel : fields.tunnel_id ≡ k.tunnel_id
  pub own_source : src_addr a.flow ≡ k.source_addr

-- While the receiver task of a client runs.
abbrev pub AllOf : UdpClientKey → ℕ → List Arrived → Type 0
AllOf k id [] = Unit {0}
AllOf k id (a ∷ rest) = (Of k a × (a.env.is_closed id ≡ false)) × AllOf k id rest

-- The datagrams that a client is to send.
abbrev pub to_target : ℕ → SocketAddr → List Arrived → List Datagram
to_target id target [] = []
to_target id target (a ∷ rest) =
    record { client = id; payload = as_ref a.packet; target = target } ∷ to_target id target rest

module _ (slab : SlabOps Client) (wire : Wire) where
  -- What is sent, packet after packet, up to a panic.
  abbrev pub sent_all : List Arrived → UdpClients slab → List Datagram
  sent_all [] s = []
  sent_all (a ∷ rest) s = elim (handle_tunneled_packet slab wire a.env s a.now a.flow a.packet) [
    | Handled.panicked ↦ []
    | Handled.handled s' sent ↦ sent ++ sent_all rest s'
  ]

module _ (slab : SlabOps Client) (laws : SlabLaws slab) (wire : Wire) where
  open slab use {get, set}

  under_slot :
      (m : ClientMap) (v : slab.Slab) (k : UdpClientKey) (c : Client)
      → client_at slab laws m v k ≡ some c
      → (slot : ℕ) × (m k ≡ some slot) × (get slot v ≡ some c)
  under_slot m v k c h = elim (Option-cases (m k)) [
    | inl absent ↦ absurd (none_some (rw (client_at, absent) at h))
    | inr (slot, under) ↦ (slot, under, rw (client_at, under) at h)
  ]

  -- A packet of a client whose receiver task runs goes to that client's target, whatever port offset
  -- it has, if its tunnel is known; the client keeps its target, and has the new time and the new
  -- id of the server.
  handle_tunneled_packet-known :
      (env : Surroundings) (s : UdpClients slab) (now : ℕ) (flow : UdpFlow) (e : UdpFlowExtension)
      (origin : OriginResource) (packet : Packet) (c : Client)
      → extension flow ≡ some e
      → lookup s.lookup e.tunnel_id false ≡ some origin
      → client_of slab laws s (record { source_addr = src_addr flow; tunnel_id = e.tunnel_id })
        ≡ some c
      → env.is_closed c.id ≡ false
      → (s' : UdpClients slab) × (s'.lookup ≡ s.lookup)
        × (handle_tunneled_packet slab wire env s now flow packet
            ≡ Handled.handled s'
                (record { client = c.id; payload = as_ref packet; target = c.target_addr } ∷ []))
        × (client_of slab laws s' (record { source_addr = src_addr flow; tunnel_id = e.tunnel_id })
            ≡ some (record c {
              from_tunnel_ts = now;
              flow = update_client_server_id e.client_server_id c.flow;
            }))
  unfolding handle_tunneled_packet with_origin to_client
  handle_tunneled_packet-known env s now flow e origin packet c has known of_key runs =
      let renewed = touched slab wire env now flow e origin packet c in
      let (slot, under, held) =
        under_slot s.virtual_client_lookup s.virtual_clients
          (key_of slab wire env now flow e origin packet) c of_key in
      (
        record s {
          virtual_clients = set slot renewed s.virtual_clients;
          stats = add_bytes_in s.stats packet.len;
        },
        refl,
        rw (handle_tunneled_packet, has, known, with_origin, under, held, runs) refl,
        rw (client_at, under)
            (laws.get-set slot renewed c s.virtual_clients slot held
              ∙ rw (eq_true slot slot refl) refl),
      )

  -- Every packet of a client of a known tunnel whose receiver task runs, in whatever number, at
  -- whatever times and with whatever port offsets they come, is sent whole and in order to the one
  -- target that the client has.
  pub sent_all-client_of :
      (s : UdpClients slab) (k : UdpClientKey) (origin : OriginResource) (c : Client)
      (arrived : List Arrived)
      → lookup s.lookup k.tunnel_id false ≡ some origin
      → client_of slab laws s k ≡ some c
      → AllOf k c.id arrived
      → sent_all slab wire arrived s ≡ to_target c.id c.target_addr arrived
  sent_all-client_of s k origin c [] known of_key all = refl
  sent_all-client_of s k origin c (a ∷ rest) known of_key ((own, runs), all) =
      let same : record { source_addr = src_addr a.flow; tunnel_id = own.fields.tunnel_id } ≡ k =
        rw (own.own_source, own.own_tunnel) refl in
      let (s', kept, sent, of_key') =
        handle_tunneled_packet-known a.env s a.now a.flow own.fields origin a.packet c own.has
          (rw own.own_tunnel known) (ap (client_of slab laws s) same ∙ of_key) runs in
      let later =
        sent_all-client_of s' k origin _ rest (rw kept known)
          (sym (ap (client_of slab laws s') same) ∙ of_key') all in
      rw (sent_all, sent)
        (ap (◌∷◌ (record { client = c.id; payload = as_ref a.packet; target = c.target_addr }))
          later)

-- ===== src/Udp/Clients/Steps.antt =====
-- packages/agent_core/src/network/udp/udp_clients.rs: the three operations of `UdpClients`, a packet
-- from the tunnel, a packet from an origin, and the removal of old clients.
use playit_agent.Common.{
  ℕ, ◌+◌, ◌%◌, ◌^◌, Bool, false, ◌&&◌, Option, none, some, List, [], ◌∷◌, ◌++◌, filter, reverse,
  sorted, ltb, ◌==◌, if◌then◌else◌,
}
use playit_agent.Wire.{Wire, SocketAddr}
use playit_agent.Wire.Addresses.{eq_addr}
use playit_agent.Proto.Flow.{
  UdpFlow, UdpFlowExtension, extension, update_client_server_id, flip, src_addr,
}
use playit_agent.Proxy.{from_udp_flow, write_v2_udp}
use playit_agent.Origin.{OriginResource, ProxyProtocol, lookup, resolve_local}
use playit_agent.Slab.{SlabOps}
use playit_agent.Stats.{add_bytes_in, add_bytes_out}
use playit_agent.Udp.Packets.{Packet, as_ref}
use playit_agent.Udp.Clients.{
  UdpClientKey, Client, Datagram, UdpReceivedPacket, Receivers, Surroundings, UdpClients, Handled,
  Dispatched, pack_client_id, expired, unpack_slot, insert_key, remove_key, special_lan,
  client_flow, reply_flow, counted,
}

module _ (slab : SlabOps Client) where
  open slab use {get, vacant_key, insert, set, remove, slots}

  abbrev pub after_reply : UdpClients slab → ℕ → UdpReceivedPacket → Client → UdpClients slab
  after_reply s now received client = record s {
    virtual_clients =
        set (unpack_slot received.rx_id) (record client { from_origin_ts = now }) s.virtual_clients;
    stats = add_bytes_out s.stats received.packet.len;
  }

  -- The reply of a client, at the time `now`.
  unfoldable pub reply : UdpClients slab → ℕ → UdpReceivedPacket → Client → Dispatched slab
  reply s now received client = elim (reply_flow client.flow client.port_offset) [
    | none ↦ Dispatched.panicked
    | some flow ↦ Dispatched.forwarded (after_reply s now received client) flow received.packet
  ]

  unfoldable pub dispatch_origin_packet : UdpClients slab → ℕ → UdpReceivedPacket → Dispatched slab
  dispatch_origin_packet s now received =
      elim (get (unpack_slot received.rx_id) s.virtual_clients) [
        | none ↦ Dispatched.dropped
        | some client ↦
            if client.id == received.rx_id
            then (if eq_addr received.from client.target_addr
                then reply s now received client
                else Dispatched.dropped)
            else Dispatched.dropped
      ]

  abbrev pub expired_at : (ℕ → Bool) → ℕ → UdpClients slab → ℕ → Bool
  expired_at is_closed now s slot = elim (get slot s.virtual_clients) [
    | none ↦ false
    | some client ↦ expired is_closed now client
  ]

  -- One removal: the `remove` of a vacant slot, the `unwrap`, the `assert_eq!`, and a `shutdown` that
  -- does not see the receiver task end are panics.
  unfoldable pub remove_client : (ℕ → Bool) → ℕ → UdpClients slab → Option (UdpClients slab)
  remove_client ends slot s = elim (get slot s.virtual_clients) [
    | none ↦ none
    | some client ↦ elim (s.virtual_client_lookup client.key) [
      | none ↦ none
      | some removed ↦
          if removed == slot && ends client.id
          then some (record s {
            virtual_clients = remove slot s.virtual_clients;
            virtual_client_lookup = remove_key client.key s.virtual_client_lookup;
          })
          else none
    ]
  ]

  unfoldable pub remove_clients : (ℕ → Bool) → List ℕ → UdpClients slab → Option (UdpClients slab)
  remove_clients ends [] s = some s
  remove_clients ends (slot ∷ rest) s = elim (remove_client ends slot s) [
    | none ↦ none
    | some s' ↦ remove_clients ends rest s'
  ]

  -- The slots to remove, in descending order.
  abbrev pub to_remove : (ℕ → Bool) → ℕ → UdpClients slab → List ℕ
  to_remove is_closed now s =
      reverse (sorted (filter (expired_at is_closed now s) (slots s.virtual_clients)))

  -- `none` is a panic.
  unfoldable pub clear_old : Receivers → UdpClients slab → ℕ → Option (UdpClients slab)
  clear_old r s now = elim (remove_clients r.ends (to_remove r.is_closed now s) s) [
    | none ↦ none
    | some s' ↦ some (counted slab s')
  ]

module _ (slab : SlabOps Client) (wire : Wire) (env : Surroundings) (now : ℕ) (flow : UdpFlow)
    (e : UdpFlowExtension) (origin : OriginResource) (packet : Packet) where
  open slab use {get, vacant_key, insert, set, remove}

  abbrev pub key_of : UdpClientKey
  key_of = record { source_addr = src_addr flow; tunnel_id = e.tunnel_id }

  -- The header of the PROXY protocol goes first, a datagram of its own.
  abbrev pub proxy_header : ℕ → SocketAddr → Option ProxyProtocol → List Datagram
  proxy_header id target none = []
  proxy_header id target (some ProxyProtocol.proxy_protocol_v1) = []
  proxy_header id target (some ProxyProtocol.proxy_protocol_v2) =
      record { client = id; payload = write_v2_udp wire (from_udp_flow flow); target = target } ∷ []

  abbrev pub forwarded_to : ℕ → SocketAddr → Datagram
  forwarded_to id target = record { client = id; payload = as_ref packet; target = target }

  -- The client that takes the vacant slot.
  abbrev pub new_id : UdpClients slab → ℕ
  new_id s = pack_client_id (vacant_key s.virtual_clients) s.next_client_generation

  abbrev pub created_client : UdpClients slab → SocketAddr → UdpFlow → Client
  created_client s target kept = record {
    id = new_id s;
    key = key_of;
    target_addr = target;
    port_offset = e.port_offset;
    flow = kept;
    from_tunnel_ts = now;
    from_origin_ts = now;
  }

  abbrev pub with_client : UdpClients slab → SocketAddr → UdpFlow → UdpClients slab
  with_client s target kept = counted slab (record s {
    virtual_client_lookup =
        insert_key key_of (vacant_key s.virtual_clients) s.virtual_client_lookup;
    virtual_clients = insert (created_client s target kept) s.virtual_clients;
    next_client_generation = (s.next_client_generation + 1) % 2 ^ 32;
  })

  -- From the vacant slot on. A slot past 32 bits is a panic of `expect`.
  unfoldable pub admit : UdpClients slab → SocketAddr → Handled slab
  admit s target =
      if ltb (vacant_key s.virtual_clients) (2 ^ 32)
      then elim (client_flow (flip flow) e.port_offset) [
        | none ↦ Handled.panicked
        | some kept ↦ Handled.handled (with_client s target kept) (
            proxy_header (new_id s) target origin.proxy_protocol
            ++ (forwarded_to (new_id s) target ∷ []))
      ]
      else Handled.panicked

  unfoldable pub new_client : UdpClients slab → Handled slab
  new_client s =
      if env.limiter_allows
      then elim (resolve_local env.dns origin e.port_offset) [
        | none ↦ Handled.handled s []
        | some target ↦
            if env.opens key_of (special_lan origin target) target
            then admit s target
            else Handled.handled s []
      ]
      else Handled.handled s []

  abbrev pub touched : Client → Client
  touched client = record client {
    from_tunnel_ts = now;
    flow = update_client_server_id e.client_server_id client.flow;
  }

  -- A packet of a client whose receiver task runs.
  unfoldable pub to_client : UdpClients slab → ℕ → Client → Handled slab
  to_client s slot client =
      Handled.handled
        (record s {
          virtual_clients = set slot (touched client) s.virtual_clients;
          stats = add_bytes_in s.stats packet.len;
        })
        (forwarded_to client.id client.target_addr ∷ [])

  -- The client of a key without its receiver task.
  abbrev pub dropped_key : UdpClients slab → ℕ → UdpClients slab
  dropped_key s slot = counted slab (record s {
    virtual_client_lookup = remove_key key_of s.virtual_client_lookup;
    virtual_clients = remove slot s.virtual_clients;
  })

  abbrev pub dropped_missing : UdpClients slab → UdpClients slab
  dropped_missing s =
      counted slab (record s { virtual_client_lookup = remove_key key_of s.virtual_client_lookup })

  unfoldable pub with_origin : UdpClients slab → Handled slab
  with_origin s = elim (s.virtual_client_lookup key_of) [
    | none ↦ new_client s
    | some slot ↦ elim (get slot s.virtual_clients) [
      | none ↦ new_client (dropped_missing s)
      | some client ↦
          if env.is_closed client.id
          then new_client (dropped_key s slot)
          else to_client s slot client
    ]
  ]

module _ (slab : SlabOps Client) (wire : Wire) (env : Surroundings) where
  unfoldable pub handle_tunneled_packet : UdpClients slab → ℕ → UdpFlow → Packet → Handled slab
  handle_tunneled_packet s now flow packet = elim (extension flow) [
    | none ↦ Handled.handled s []
    | some e ↦ elim (lookup s.lookup e.tunnel_id false) [
      | none ↦ Handled.handled s []
      | some origin ↦ with_origin slab wire env now flow e origin packet s
    ]
  ]

-- ===== src/Udp/Clients/Replies.antt =====
-- A packet from an origin goes back to the client it is for, and the reply to a first packet goes
-- back over its flow turned round.
use playit_agent.Common.{
  ℕ, ◌%◌, ◌^◌, ◌≡◌, refl, sym, ap, ◌∙◌, ◌⊎◌, inl, inr, Bool-cases, Option-cases, true, some, List,
  length, ◌==◌, ==_iff,
}
use playit_agent.Wire.Addresses.{eq_addr, eq_addr_sound}
use playit_agent.Proto.Flow.{UdpFlow, dst_addr}
use playit_agent.Slab.{SlabOps, SlabLaws}
use playit_agent.Stats.{add_bytes_out}
use playit_agent.Udp.Clients.{Client, UdpClients, UdpReceivedPacket, Dispatched, unpack_slot}
use playit_agent.Udp.Clients.Linked.{set-Linked}
use playit_agent.Udp.Clients.Flows.{dst_addr-reply_flow}
use playit_agent.Udp.Clients.Handle.{Valid}
use playit_agent.Udp.Clients.Steps.{after_reply, reply, dispatch_origin_packet}

module _ (slab : SlabOps Client) (laws : SlabLaws slab) where
  open slab use {get, vacant_key, insert, set, remove}

  -- What a packet that is not dropped does.
  pub record Replied (s : UdpClients slab) (now : ℕ) (received : UdpReceivedPacket) : Type 0 where
    pub after : UdpClients slab
    pub flow : UdpFlow
    pub client : Client
    pub outcome :
        dispatch_origin_packet slab s now received ≡ Dispatched.forwarded after flow received.packet
    pub valid : Valid slab laws after
    pub of_client : get (unpack_slot received.rx_id) s.virtual_clients ≡ some client
    pub by_id : client.id ≡ received.rx_id
    pub from_target : received.from ≡ client.target_addr
    pub to_source : dst_addr flow ≡ client.key.source_addr

  reply-Replied :
      (s : UdpClients slab) (now : ℕ) (received : UdpReceivedPacket) (c : Client)
      → Valid slab laws s
      → get (unpack_slot received.rx_id) s.virtual_clients ≡ some c
      → (c.id == received.rx_id) ≡ true
      → eq_addr received.from c.target_addr ≡ true
      → Replied s now received
  unfolding dispatch_origin_packet reply add_bytes_out
  reply-Replied s now received c valid held same from =
      let kept = (valid.linked.stored (unpack_slot received.rx_id) c held).1 in
      let touched : Client = record c { from_origin_ts = now } in
      record {
        after = after_reply slab s now received c;
        flow = kept.replies.0;
        client = c;
        outcome = rw (dispatch_origin_packet, held, same, from, reply, kept.replies.1) refl;
        valid = record {
          linked =
              set-Linked slab laws s.virtual_client_lookup s.virtual_clients
                (unpack_slot received.rx_id) c touched valid.linked held refl
                (record {
                  own_slot = kept.own_slot;
                  leads_back = kept.leads_back;
                  replies = kept.replies;
                });
          active =
              valid.active
              ∙ ap (λ (l : List ℕ). length l % 2 ^ 32)
                  (sym (laws.slots-set (unpack_slot received.rx_id) touched s.virtual_clients));
        };
        of_client = held;
        by_id = (==_iff c.id received.rx_id).0 same;
        from_target = eq_addr_sound received.from c.target_addr from;
        to_source =
            dst_addr-reply_flow c.flow c.port_offset kept.replies.0 kept.replies.1
            ∙ kept.leads_back;
      }

  -- A packet that a socket receives never panics when the tables agree: it is dropped, or it comes
  -- from the target of the client that has the slot and the id of the receiver, it goes back to the
  -- address that the client's packets come from, and the tables agree after it.
  pub dispatch_origin_packet_lem :
      (s : UdpClients slab) (now : ℕ) (received : UdpReceivedPacket)
      → Valid slab laws s
      → (dispatch_origin_packet slab s now received ≡ Dispatched.dropped) ⊎ Replied s now received
  unfolding dispatch_origin_packet
  dispatch_origin_packet_lem s now received valid =
      elim (Option-cases (get (unpack_slot received.rx_id) s.virtual_clients)) [
        | inl vacant ↦ inl (rw (dispatch_origin_packet, vacant) refl)
        | inr (c, held) ↦ elim (Bool-cases (c.id == received.rx_id)) [
          | inr other ↦ inl (rw (dispatch_origin_packet, held, other) refl)
          | inl same ↦ elim (Bool-cases (eq_addr received.from c.target_addr)) [
            | inr elsewhere ↦ inl (rw (dispatch_origin_packet, held, same, elsewhere) refl)
            | inl from ↦ inr (reply-Replied s now received c valid held same from)
          ]
        ]
      ]

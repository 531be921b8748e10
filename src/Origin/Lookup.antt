-- ===== src/Origin/Lookup.antt =====
-- After an update the last resource that serves a tunnel and a protocol is the one that is found.
use playit_agent.Common.{
  ℕ, ◌≡◌, refl, ap, ◌∙◌, Bool, true, false, not, ◌&&◌, Option, none, some, List, [], ◌∷◌, ◌==◌,
  if◌then◌else◌, arith,
}
use playit_agent.Proto.Session.{PortProto}
use playit_agent.Origin.{OriginResource, OriginMap, insert_proto, insert_all, update, lookup}

-- Whether a tunnel of the protocol serves TCP, or UDP.
abbrev pub carries : PortProto → Bool → Bool
carries PortProto.both is_tcp = true
carries PortProto.tcp is_tcp = is_tcp
carries PortProto.udp is_tcp = not is_tcp

abbrev pub serves : OriginResource → ℕ → Bool → Bool
serves r tunnel_id is_tcp = r.tunnel_id == tunnel_id && carries r.proto is_tcp

-- The last resource of the list that serves the tunnel and protocol.
abbrev pub last_serving :
    List OriginResource → ℕ → Bool → Option OriginResource → Option OriginResource
last_serving [] tunnel_id is_tcp best = best
last_serving (r ∷ rs) tunnel_id is_tcp best =
    last_serving rs tunnel_id is_tcp (if serves r tunnel_id is_tcp then some r else best)

insert_proto-at :
    (p : PortProto) (r : OriginResource) (m : OriginMap) (tunnel_id : ℕ) (is_tcp : Bool)
    → insert_proto p r m (record { tunnel_id = tunnel_id; is_tcp = is_tcp }) ≡ (
        if r.tunnel_id == tunnel_id && carries p is_tcp
        then some r
        else m (record { tunnel_id = tunnel_id; is_tcp = is_tcp }))
insert_proto-at PortProto.tcp r m tunnel_id true = ground arith
insert_proto-at PortProto.tcp r m tunnel_id false = ground arith
insert_proto-at PortProto.udp r m tunnel_id true = ground arith
insert_proto-at PortProto.udp r m tunnel_id false = ground arith
insert_proto-at PortProto.both r m tunnel_id true = ground arith
insert_proto-at PortProto.both r m tunnel_id false = ground arith

insert_all-at :
    (rs : List OriginResource) (m : OriginMap) (tunnel_id : ℕ) (is_tcp : Bool)
    → insert_all rs m (record { tunnel_id = tunnel_id; is_tcp = is_tcp })
      ≡ last_serving rs tunnel_id is_tcp (m (record { tunnel_id = tunnel_id; is_tcp = is_tcp }))
unfolding insert_all
insert_all-at [] m tunnel_id is_tcp = refl
insert_all-at (r ∷ rs) m tunnel_id is_tcp =
    insert_all-at rs (insert_proto r.proto r m) tunnel_id is_tcp
    ∙ ap (last_serving rs tunnel_id is_tcp) (insert_proto-at r.proto r m tunnel_id is_tcp)

-- After an update, the resource that is found for a tunnel and a protocol is the last of the list
-- that has the tunnel's id and carries the protocol; nothing of the map before the update is left.
pub lookup-update :
    (rs : List OriginResource) (tunnel_id : ℕ) (is_tcp : Bool)
    → lookup (update rs) tunnel_id is_tcp ≡ last_serving rs tunnel_id is_tcp none
unfolding lookup update
lookup-update rs tunnel_id is_tcp = insert_all-at rs (λ key. none) tunnel_id is_tcp

-- ===== src/Tcp/Clients/Claims.antt =====
-- What comes of a new client that the tunnel server announces.
use mathlib.Core.Path.{subst}
use playit_agent.Common.{
  ◌≡◌, refl, sym, ◌∙◌, ◌⊎◌, inl, inr, Bool-cases, true, false, Option, none, some, none_some,
  some_injective,
}
use playit_agent.Io.{Bytes}
use playit_agent.Wire.{Wire, SocketAddr}
use playit_agent.Proto.Feed.{NewClient}
use playit_agent.Origin.{OriginMap, OriginResource, ProxyProtocol, Dns, lookup, resolve_local}
use playit_agent.Proxy.{AddressText, ProxyProtocolHeader}
use playit_agent.Tcp.Clients.{
  Worker, Claiming, Outside, Claimed, new_tcp, claiming, with_found, tcp_header, new_client, claim,
  claim_at, claimed_client, header_bytes, all_done,
}
use playit_agent.Tcp.Clients.Calls.{
  HeaderOf, tcp_header-HeaderOf, AllDone, all_done-AllDone, AllDone-all_done, Preface,
  header_bytes-Preface,
}

-- What a task that is started for a message was given.
record Given (origins : OriginMap) (details : NewClient) (w : Worker) (p : Claiming) : Type 0 where
  own_id : p.id ≡ w.next_client_id
  own_details : p.details ≡ details
  found_at : lookup origins details.tunnel_id true ≡ some p.found
  header_of : tcp_header details.peer_addr details.connect_addr ≡ some p.proxy_header

claiming-Given :
    (origins : OriginMap) (details : NewClient) (w : Worker) (p : Claiming) (found : OriginResource)
    (header : Option ProxyProtocolHeader)
    → lookup origins details.tunnel_id true ≡ some found
    → tcp_header details.peer_addr details.connect_addr ≡ header
    → claiming w.next_client_id details found header ≡ some p
    → Given origins details w p
claiming-Given origins details w p found none at_id match h = absurd (none_some h)
claiming-Given origins details w p found (some header) at_id match h =
    subst (Given origins details w) (some_injective h)
      (record { own_id = refl; own_details = refl; found_at = at_id; header_of = match })

with_found-Given :
    (origins : OriginMap) (details : NewClient) (w : Worker) (p : Claiming)
    (found : Option OriginResource)
    → lookup origins details.tunnel_id true ≡ found
    → with_found w.next_client_id details found ≡ some p
    → Given origins details w p
with_found-Given origins details w p none at_id h = absurd (none_some h)
with_found-Given origins details w p (some found) at_id h =
    claiming-Given origins details w p found _ at_id refl h

new_client-Given :
    (origins : OriginMap) (details : NewClient) (w : Worker) (p : Claiming)
    → (new_client origins details w).1 ≡ some p
    → Given origins details w p
unfolding new_client
new_client-Given origins details w p h = with_found-Given origins details w p _ refl h

module _ (wire : Wire) (text : AddressText) (dns : Dns) where
  -- How a task ends: the client is connected where its port offset resolves and every call is done.
  claim_at-cases :
      (o : Outside) (p : Claiming) (target : Option SocketAddr)
      → ((claim_at wire text dns o p target ≡ Claimed.gave_up)
          × ((target ≡ none) ⊎ (all_done wire text dns o p.found.proxy_protocol ≡ false)))
        ⊎ ((origin_addr : SocketAddr) × (target ≡ some origin_addr)
            × (all_done wire text dns o p.found.proxy_protocol ≡ true)
            × (claim_at wire text dns o p target
                ≡ Claimed.connected
                    (claimed_client wire text dns o p origin_addr)
                    p.details.claim_instructions.token
                    (header_bytes wire text dns p.found.proxy_protocol p.proxy_header)))
  claim_at-cases o p none = inl (refl, inl refl)
  claim_at-cases o p (some origin_addr) =
      elim (Bool-cases (all_done wire text dns o p.found.proxy_protocol)) [
        | inl done ↦ inr (origin_addr, refl, done, rw done refl)
        | inr undone ↦ inl (rw undone refl, inr undone)
      ]

  pub claim-cases :
      (o : Outside) (p : Claiming)
      → ((claim wire text dns o p ≡ Claimed.gave_up)
          × ((resolve_local dns p.found p.details.port_offset ≡ none)
              ⊎ (all_done wire text dns o p.found.proxy_protocol ≡ false)))
        ⊎ ((origin_addr : SocketAddr) × (resolve_local dns p.found p.details.port_offset
              ≡ some origin_addr)
            × (all_done wire text dns o p.found.proxy_protocol ≡ true)
            × (claim wire text dns o p
                ≡ Claimed.connected
                    (claimed_client wire text dns o p origin_addr)
                    p.details.claim_instructions.token
                    (header_bytes wire text dns p.found.proxy_protocol p.proxy_header)))
  unfolding claim
  claim-cases o p = claim_at-cases o p (resolve_local dns p.found p.details.port_offset)

  -- The client is served: it is of the message, with the next id; its origin is that of the resource
  -- under the message's tunnel for TCP, at the message's port offset; every call of the task is done,
  -- so that the token went to the tunnel server, and the resource's kind of PROXY header, with the two
  -- addresses of the message, to the origin before anything else.
  pub record Served (o : Outside) (origins : OriginMap) (details : NewClient) (w : Worker)
      (p : Claiming) : Type 0 where
    found : OriginResource
    header : ProxyProtocolHeader
    origin_addr : SocketAddr
    preface : Bytes
    found_at : lookup origins details.tunnel_id true ≡ some found
    header_of : HeaderOf header details.peer_addr details.connect_addr
    resolved : resolve_local dns found details.port_offset ≡ some origin_addr
    done : AllDone o found.proxy_protocol
    with_header : Preface wire text dns found.proxy_protocol header preface
    outcome :
        claim wire text dns o p
        ≡ Claimed.connected
            (record {
              id = w.next_client_id;
              added_at = o.added_at;
              tunnel_id = details.tunnel_id;
              port_offset = details.port_offset;
              source_addr = details.peer_addr;
              tunnel_addr = details.connect_addr;
              origin_addr = origin_addr;
              tcp = new_tcp o.tunn_at o.orig_at;
            })
            details.claim_instructions.token
            preface

  -- Why a task gives up: the port offset does not resolve, or some call is not done.
  pub record Hindered (o : Outside) (origins : OriginMap) (details : NewClient) : Type 0 where
    found : OriginResource
    found_at : lookup origins details.tunnel_id true ≡ some found
    reason : (resolve_local dns found details.port_offset ≡ none) ⊎ ¬ AllDone o found.proxy_protocol

  undone-AllDone :
      (o : Outside) (protocol : Option ProxyProtocol)
      → all_done wire text dns o protocol ≡ false
      → ¬ AllDone o protocol
  undone-AllDone o protocol undone done =
      let both_ways : true ≡ false =
        sym (AllDone-all_done wire text dns o protocol done) ∙ undone in
      cc both_ways

  -- A task that the worker starts for a message gives up and has a reason for it (`Hindered`), or the
  -- message's client is served (`Served`).
  pub claim-new_client :
      (o : Outside) (origins : OriginMap) (details : NewClient) (w : Worker) (p : Claiming)
      → (new_client origins details w).1 ≡ some p
      → ((claim wire text dns o p ≡ Claimed.gave_up) × Hindered o origins details)
        ⊎ Served o origins details w p
  claim-new_client o origins details w p h =
      let given : Given origins details w p = new_client-Given origins details w p h in
      elim (claim-cases o p) [
        | inl (gave_up, reason) ↦ inl (
          gave_up,
          record {
            found = p.found;
            found_at = given.found_at;
            reason = elim reason [
              | inl unresolved ↦ inl (rw (sym given.own_details) unresolved)
              | inr undone ↦ inr (undone-AllDone o p.found.proxy_protocol undone)
            ];
          },
        )
        | inr (origin_addr, resolved, done, outcome) ↦ inr (record {
          found = p.found;
          header = p.proxy_header;
          origin_addr = origin_addr;
          preface = header_bytes wire text dns p.found.proxy_protocol p.proxy_header;
          found_at = given.found_at;
          header_of = tcp_header-HeaderOf _ _ p.proxy_header given.header_of;
          resolved = rw (sym given.own_details) resolved;
          done = all_done-AllDone wire text dns o p.found.proxy_protocol done;
          with_header = header_bytes-Preface wire text dns p.found.proxy_protocol p.proxy_header;
          outcome = rw (sym given.own_details, sym given.own_id) outcome;
        })
      ]

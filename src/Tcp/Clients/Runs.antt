-- ===== src/Tcp/Clients/Runs.antt =====
-- The worker's events and the claiming tasks in any order.
use playit_agent.Common.{
  ℕ, ◌+◌, ◌%◌, ◌^◌, ◌≤◌, ◌<◌, ◌≡◌, refl, ap, sym, ◌∙◌, inl, inr, Bool-cases, Bool, true, ==_iff,
  Option, none, some, List, [], ◌∷◌, ◌++◌, filter, length, count, count-append, if◌then◌else◌, ◌==◌,
  arith,
}
use playit_agent.Wire.{Wire}
use playit_agent.Proto.Feed.{NewClient}
use playit_agent.Origin.{OriginMap, OriginResource, Dns, lookup}
use playit_agent.Proxy.{AddressText, ProxyProtocolHeader}
use playit_agent.Stats.{AgentStats, set_tcp}
use playit_agent.Tcp.Clients.Claims.{claim-cases}
use mathlib.Core.Path.{subst}
use playit_agent.Tcp.Clients.{
  TcpClient, Client, Worker, Claiming, Outside, Claimed, claiming, with_found, tcp_header,
  new_worker, new_client, claim, with_clients, finished, is_kept, clear_old,
}

pub record Tasks : Type 0 where
  pub worker : Worker
  pub claims : List Claiming

abbrev pub client_ids : List Client → List ℕ
client_ids [] = []
client_ids (c ∷ cs) = c.id ∷ client_ids cs

abbrev pub claim_ids : List Claiming → List ℕ
claim_ids [] = []
claim_ids (p ∷ ps) = p.id ∷ claim_ids ps

abbrev pub started : Option Claiming → List Claiming → List Claiming
started none ps = ps
started (some p) ps = p ∷ ps

-- The pipes of the clients run on.
abbrev pub moved : (Client → TcpClient) → List Client → List Client
moved f [] = []
moved f (c ∷ cs) = record c { tcp = f c } ∷ moved f cs

-- How often an id is given out.
abbrev pub held : ℕ → Tasks → ℕ
held i s = count i (client_ids s.worker.clients) + count i (claim_ids s.claims)

pub record Sole (s : Tasks) : Type 0 where
  pub once : (i : ℕ) → held i s ≤ 1
  pub below : (i : ℕ) → 0 < held i s → i < s.worker.next_client_id
  pub counted : s.worker.stats.active_tcp ≡ length s.worker.clients % 2 ^ 32

client_ids-append : (xs ys : List Client) → client_ids (xs ++ ys) ≡ client_ids xs ++ client_ids ys
client_ids-append [] ys = refl
client_ids-append (x ∷ xs) ys = ap (◌∷◌ x.id) (client_ids-append xs ys)

claim_ids-append : (xs ys : List Claiming) → claim_ids (xs ++ ys) ≡ claim_ids xs ++ claim_ids ys
claim_ids-append [] ys = refl
claim_ids-append (x ∷ xs) ys = ap (◌∷◌ x.id) (claim_ids-append xs ys)

client_ids-moved :
    (f : Client → TcpClient) (cs : List Client) → client_ids (moved f cs) ≡ client_ids cs
client_ids-moved f [] = refl
client_ids-moved f (c ∷ cs) = ap (◌∷◌ c.id) (client_ids-moved f cs)

length-moved : (f : Client → TcpClient) (cs : List Client) → length (moved f cs) ≡ length cs
length-moved f [] = refl
length-moved f (c ∷ cs) = omega (arith, length-moved f cs)

count-kept :
    (i : ℕ) (test : Client → Bool) (cs : List Client)
    → count i (client_ids (filter test cs)) ≤ count i (client_ids cs)
count-kept i test [] = omega arith
count-kept i test (c ∷ cs) = elim (Bool-cases (test c)) [
  | inl keep ↦ rw keep (omega (arith, count-kept i test cs))
  | inr lost ↦ rw lost (omega (arith, count-kept i test cs))
]

count-client_ids :
    (i : ℕ) (cs : List Client) (c : Client)
    → count i (client_ids (cs ++ (c ∷ []))) ≡ count i (client_ids cs) + (if c.id == i then 1 else 0)
count-client_ids i cs c =
    rw (client_ids-append cs (c ∷ [])) (omega (arith, count-append i (client_ids cs) (c.id ∷ [])))

count-claim_ids :
    (i : ℕ) (before after : List Claiming) (p : Claiming)
    → count i (claim_ids (before ++ (p ∷ after)))
      ≡ (if p.id == i then 1 else 0) + count i (claim_ids (before ++ after))
count-claim_ids i before after p =
    rw (claim_ids-append before (p ∷ after), claim_ids-append before after)
      (omega (
        arith,
        count-append i (claim_ids before) (p.id ∷ claim_ids after),
        count-append i (claim_ids before) (claim_ids after),
      ))

-- A task that is started has the id that was next.
count-started :
    (i id : ℕ) (details : NewClient) (found : Option OriginResource) (ps : List Claiming)
    → count i (claim_ids (started (with_found id details found) ps))
      ≤ (if id == i then 1 else 0) + count i (claim_ids ps)
count-started i id details none ps = omega arith
count-started i id details (some found) ps =
    by_header (tcp_header details.peer_addr details.connect_addr)
  where
    by_header :
        (header : Option ProxyProtocolHeader)
        → count i (claim_ids (started (claiming id details found header) ps))
          ≤ (if id == i then 1 else 0) + count i (claim_ids ps)
    by_header none = omega arith
    by_header (some header) = omega arith

-- Fewer ids, given out before, leave the tasks valid.
fewer-Sole :
    (s t : Tasks)
    → ((i : ℕ) → held i t ≤ held i s)
    → s.worker.next_client_id ≤ t.worker.next_client_id
    → t.worker.stats.active_tcp ≡ length t.worker.clients % 2 ^ 32
    → Sole s
    → Sole t
fewer-Sole s t fewer later counts valid = record {
  once = λ i. omega (arith, fewer i, valid.once i);
  below = λ i h.
      let old : i < s.worker.next_client_id = valid.below i (omega (arith, fewer i, h)) in
      omega arith;
  counted = counts;
}

-- One new id at most, the next one.
added-Sole :
    (s t : Tasks)
    → ((i : ℕ) → held i t ≤ (if s.worker.next_client_id == i then 1 else 0) + held i s)
    → t.worker.next_client_id ≡ s.worker.next_client_id + 1
    → t.worker.stats.active_tcp ≡ length t.worker.clients % 2 ^ 32
    → Sole s
    → Sole t
added-Sole s t more later counts valid = record {
  once = λ i. (bound i).0;
  below = λ i. (bound i).1;
  counted = counts;
}
  where
    bound : (i : ℕ) → (held i t ≤ 1) × (0 < held i t → i < t.worker.next_client_id)
    bound i =
        let here : held i t ≤ (if s.worker.next_client_id == i then 1 else 0) + held i s = more i in
        elim (Bool-cases (s.worker.next_client_id == i)) [
          | inl next ↦
              let at_next : s.worker.next_client_id ≡ i =
                (==_iff s.worker.next_client_id i).0 next in
              let grown : held i t ≤ 1 + held i s = rw next at here in
              let below : 0 < held i s → i < s.worker.next_client_id = valid.below i in
              (grind (arith, grown, below, at_next), λ h. omega (arith, later, at_next))
          | inr other ↦
              let same : held i t ≤ 0 + held i s = rw other at here in
              (
                omega (arith, same, valid.once i),
                λ h.
                    let old : i < s.worker.next_client_id =
                      valid.below i (omega (arith, same, h)) in
                    omega (arith, old, later),
              )
        ]

-- What a task reports carries its id.
FromTask : Claiming → Claimed → Type 0
FromTask p Claimed.gave_up = Unit {0}
FromTask p (Claimed.connected client to_tunnel to_origin) = client.id ≡ p.id

new_client-Sole :
    (origins : OriginMap) (details : NewClient) (s : Tasks)
    → s.worker.next_client_id + 1 < 2 ^ 64
    → Sole s
    → Sole (record {
      worker = (new_client origins details s.worker).0;
      claims = started (new_client origins details s.worker).1 s.claims;
    })
unfolding new_client
new_client-Sole origins details s room valid =
    added-Sole s _
      (λ i. omega (
        arith,
        count-started i s.worker.next_client_id details (lookup origins details.tunnel_id true)
            s.claims,
      ))
      (omega arith) valid.counted valid

finished-Sole :
    (c : Claimed) (before after : List Claiming) (p : Claiming) (s : Tasks)
    → s.claims ≡ before ++ (p ∷ after)
    → FromTask p c
    → Sole s
    → Sole (record { worker = finished c s.worker; claims = before ++ after })
unfolding finished with_clients set_tcp FromTask
finished-Sole Claimed.gave_up before after p s h from valid =
    fewer-Sole s _ (λ i. rw h (omega (arith, count-claim_ids i before after p))) (omega arith)
      valid.counted valid
finished-Sole (Claimed.connected client to_tunnel to_origin) before after p s h from valid =
    fewer-Sole s _
      (λ i.
        rw (h, count-claim_ids i before after p, count-client_ids i s.worker.clients client, from)
          (omega arith))
      (omega arith) refl valid

cleared-Sole : (now : ℕ) (s : Tasks) → Sole s → Sole (record s { worker = clear_old now s.worker })
unfolding clear_old with_clients set_tcp
cleared-Sole now s valid =
    fewer-Sole s _ (λ i. omega (arith, count-kept i (is_kept now) s.worker.clients)) (omega arith)
      refl valid

module _ (wire : Wire) (text : AddressText) (dns : Dns) where
  -- An event of the worker, or what happens beside it. The counter of ids does not wrap.
  pub data TaskStep (s : Tasks) : Tasks → Type 0 where
    accepted :
        (origins : OriginMap) (details : NewClient)
        → s.worker.next_client_id + 1 < 2 ^ 64
        → TaskStep s (record {
          worker = (new_client origins details s.worker).0;
          claims = started (new_client origins details s.worker).1 s.claims;
        })
    settled :
        (o : Outside) (before after : List Claiming) (p : Claiming)
        → s.claims ≡ before ++ (p ∷ after)
        → TaskStep s (record {
          worker = finished (claim wire text dns o p) s.worker;
          claims = before ++ after;
        })
    cleared : (now : ℕ) → TaskStep s (record s { worker = clear_old now s.worker })
    piped :
        (f : Client → TcpClient)
        → TaskStep s (record s { worker = record s.worker { clients = moved f s.worker.clients } })
    counted_elsewhere :
        (stats : AgentStats)
        → stats.active_tcp ≡ s.worker.stats.active_tcp
        → TaskStep s (record s { worker = record s.worker { stats = stats } })

  pub data TasksReachable : Tasks → Type 0 where
    start :
        (stats : AgentStats)
        → stats.active_tcp ≡ 0
        → TasksReachable (record { worker = new_worker stats; claims = [] })
    next : {s s' : Tasks} → TasksReachable s → TaskStep s s' → TasksReachable s'

  claim-FromTask : (o : Outside) (p : Claiming) → FromTask p (claim wire text dns o p)
  unfolding FromTask
  claim-FromTask o p = elim (claim-cases wire text dns o p) [
    | inl (gave_up, reason) ↦ subst (FromTask p) (sym gave_up) tt
    | inr (origin_addr, resolved, done, outcome) ↦ subst (FromTask p) (sym outcome) refl
  ]

  TaskStep-Sole : (s s' : Tasks) → TaskStep s s' → Sole s → Sole s'
  TaskStep-Sole s _ (TaskStep.accepted origins details room) valid =
      new_client-Sole origins details s room valid
  TaskStep-Sole s _ (TaskStep.settled o before after p h) valid =
      finished-Sole (claim wire text dns o p) before after p s h (claim-FromTask o p) valid
  TaskStep-Sole s _ (TaskStep.cleared now) valid = cleared-Sole now s valid
  TaskStep-Sole s _ (TaskStep.piped f) valid =
      fewer-Sole s _ (λ i. rw (client_ids-moved f s.worker.clients) (omega arith)) (omega arith)
        (rw (length-moved f s.worker.clients) valid.counted) valid
  TaskStep-Sole s _ (TaskStep.counted_elsewhere stats same) valid =
      fewer-Sole s _ (λ i. omega arith) (omega arith) (same ∙ valid.counted) valid

  -- In every state that the worker and its tasks reach, the clients and the tasks that are claiming
  -- one have ids of their own below the next one, and the statistics have the number of the clients
  -- (modulo 2^32).
  pub TasksReachable-Sole : (s : Tasks) → TasksReachable s → Sole s
  TasksReachable-Sole _ (TasksReachable.start stats none_yet) = record {
    once = λ i. omega arith;
    below = λ i h. absurd (omega arith);
    counted = none_yet ∙ omega arith;
  }
  TasksReachable-Sole _ (TasksReachable.next {s = s} {s' = s'} reached step) =
      TaskStep-Sole s s' step (TasksReachable-Sole s reached)

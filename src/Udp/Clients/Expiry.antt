-- ===== src/Udp/Clients/Expiry.antt =====
-- The removal of old clients: it removes exactly the clients that are to go, and panics exactly if
-- the receiver task of one of them does not end.
use playit_agent.Common.{
  ℕ, ◌≤◌, ◌<◌, ◌≡◌, ◌⊎◌, true, refl, ap, ◌∙◌, inl, inr, Bool-cases, Bool, false, Option, none, some,
  filter, sorted, count, count-reverse, count-sorted, count-filter, ltb, if◌then◌else◌, arith,
}
use playit_agent.Slab.{SlabOps, SlabLaws, occupied}
use playit_agent.Stats.{set_udp}
use playit_agent.Udp.Clients.{Client, Receivers, UdpClients, expired, counted}
use playit_agent.Udp.Clients.Handle.{Valid}
use playit_agent.Udp.Clients.Steps.{expired_at, to_remove, clear_old}
use playit_agent.Udp.Clients.Removal.{remove_clients-cases}

-- What is left of a client that may be there.
abbrev pub retained : (ℕ → Bool) → ℕ → Option Client → Option Client
retained is_closed now none = none
retained is_closed now (some c) = if expired is_closed now c then none else some c

-- A slot that is listed as often as it has an expired client.
of_expired :
    (is_closed : ℕ → Bool) (now n : ℕ) (o : Option Client)
    → n ≡ (if (elim o [ none ↦ false | some c ↦ expired is_closed now c ]) then occupied o else 0)
    → (n ≤ occupied o) × ((if ltb 0 n then none else o) ≡ retained is_closed now o)
of_expired is_closed now n none h = (omega arith, ground arith)
of_expired is_closed now n (some c) h = elim (Bool-cases (expired is_closed now c)) [
  | inl old ↦ let once : n ≡ 1 = rw old at h in (omega arith, rw (once, old) refl)
  | inr fresh ↦ let never : n ≡ 0 = rw fresh at h in (omega arith, rw (never, fresh) refl)
]

module _ (slab : SlabOps Client) (laws : SlabLaws slab) where
  open slab use {get, remove, slots}

  count-to_remove :
      (is_closed : ℕ → Bool) (now : ℕ) (s : UdpClients slab) (i : ℕ)
      → count i (to_remove slab is_closed now s)
        ≡ (if expired_at slab is_closed now s i then occupied (get i s.virtual_clients) else 0)
  count-to_remove is_closed now s i =
      let listed = filter (expired_at slab is_closed now s) (slots s.virtual_clients) in
      count-reverse i (sorted listed)
      ∙ count-sorted i listed
      ∙ count-filter i (expired_at slab is_closed now s) (slots s.virtual_clients)
      ∙ ap (λ (n : ℕ). if expired_at slab is_closed now s i then n else 0)
          (laws.count-slots s.virtual_clients i)

  -- A client that is to be removed.
  pub record Expired (r : Receivers) (s : UdpClients slab) (now : ℕ) (c : Client) : Type 0 where
    pub slot : ℕ
    pub held : get slot s.virtual_clients ≡ some c
    pub old : expired r.is_closed now c ≡ true

  listed-expired :
      (r : Receivers) (s : UdpClients slab) (now slot : ℕ) (c : Client)
      → get slot s.virtual_clients ≡ some c
      → count slot (to_remove slab r.is_closed now s) ≡ (if expired r.is_closed now c then 1 else 0)
  listed-expired r s now slot c held =
      count-to_remove r.is_closed now s slot ∙ rw (expired_at, held) refl

  listed_old :
      (r : Receivers) (s : UdpClients slab) (now slot : ℕ) (c : Client)
      → get slot s.virtual_clients ≡ some c
      → 0 < count slot (to_remove slab r.is_closed now s)
      → expired r.is_closed now c ≡ true
  listed_old r s now slot c held listed = elim (Bool-cases (expired r.is_closed now c)) [
    | inl old ↦ old
    | inr fresh ↦
        let times = listed-expired r s now slot c held in
        let never : count slot (to_remove slab r.is_closed now s) ≡ 0 = rw fresh at times in
        absurd (omega arith)
  ]

  -- The removal of old clients, when the tables agree: where the receiver task of every client to be
  -- removed ends it leaves the tables so, with the number of clients in the statistics, and keeps in
  -- each slot the client that is not expired; and where one does not end it panics.
  pub clear_old-cases :
      (r : Receivers) (s : UdpClients slab) (now : ℕ)
      → Valid slab laws s
      → ((s' : UdpClients slab) × (clear_old slab r s now ≡ some s')
          × ((c : Client) → Expired r s now c → r.ends c.id ≡ true)
          × Valid slab laws s'
          × ((i : ℕ)
              → get i s'.virtual_clients ≡ retained r.is_closed now (get i s.virtual_clients)))
        ⊎ ((clear_old slab r s now ≡ none)
            × ((c : Client) × Expired r s now c × (r.ends c.id ≡ false)))
  unfolding clear_old set_udp
  clear_old-cases r s now valid =
      let l = to_remove slab r.is_closed now s in
      elim (remove_clients-cases slab laws r.ends l s valid.linked (λ i.
        (of_expired r.is_closed now (count i l) (get i s.virtual_clients)
          (count-to_remove r.is_closed now s i)).0)) [
            | inl (s', removed, emptied, all_end) ↦ inl (
              counted slab s',
              rw (clear_old, removed) refl,
              λ c gone.
                  all_end gone.slot c
                    (let once = listed-expired r s now gone.slot c gone.held in
                      let one : count gone.slot l ≡ 1 = rw gone.old at once in omega arith)
                    gone.held,
              record { linked = emptied.linked; active = refl },
              λ i.
                  emptied.gone i
                  ∙ (of_expired r.is_closed now (count i l) (get i s.virtual_clients)
                      (count-to_remove r.is_closed now s i)).1,
            )
            | inr (failed, stuck) ↦ inr (
              rw (clear_old, failed) refl,
              (
                stuck.client,
                record {
                  slot = stuck.slot;
                  held = stuck.held;
                  old = listed_old r s now stuck.slot stuck.client stuck.held stuck.listed;
                },
                stuck.never_ends,
              ),
            )
          ]

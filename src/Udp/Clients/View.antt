-- ===== src/Udp/Clients/View.antt =====
-- The clients as a map from keys to clients, without slots: the removal of old clients is a filter
-- of this map, and a packet from the tunnel changes it at one key only.
use playit_agent.Common.{
  ℕ, ◌≡◌, ◌≢◌, ◌⊎◌, ◌↔◌, true, refl, sym, ap, ◌∙◌, inl, inr, Option-cases, Bool, false, Option,
  none, some, some_injective, none_some, split_test,
}
use playit_agent.Slab.{SlabOps, SlabLaws}
use playit_agent.Udp.Clients.{
  UdpClientKey, Client, ClientMap, Receivers, Consumed, UdpClients, expired,
}
use playit_agent.Udp.Clients.Linked.{Linked}
use playit_agent.Udp.Clients.Handle.{Valid}
use playit_agent.Udp.Clients.Expiry.{retained, clear_old-cases}
use playit_agent.Udp.Clients.Steps.{clear_old}

-- Options with the same content are the same.
same_content : {A : Type 0} (o o' : Option A) → ((a : A) → (o ≡ some a) ↔ (o' ≡ some a)) → o ≡ o'
same_content none none h = refl
same_content (some a) none h = absurd (none_some ((h a).0 refl))
same_content none (some a) h = absurd (none_some ((h a).1 refl))
same_content (some a) (some b) h = (h b).1 refl

retained_iff :
    (is_closed : ℕ → Bool) (now : ℕ) (o : Option Client) (c : Client)
    → (retained is_closed now o ≡ some c) ↔ ((o ≡ some c) × (expired is_closed now c ≡ false))
retained_iff is_closed now none c = (λ h. absurd (none_some h), λ h. h.0)
retained_iff is_closed now (some d) c = (
  λ h. elim (split_test (expired is_closed now d) none (some d) c h) [
    | inl (old, absent) ↦ absurd (none_some absent)
    | inr (fresh, same) ↦ (same, ap (expired is_closed now) (sym (some_injective same)) ∙ fresh)
  ],
  λ h.
      let fresh : expired is_closed now d ≡ false =
        ap (expired is_closed now) (some_injective h.0) ∙ h.1 in
      rw fresh h.0,
)

true_false : ◌≢◌ {A = Bool} true false
true_false h = cc h

module _ (slab : SlabOps Client) (laws : SlabLaws slab) where
  open slab use {get}

  -- The client of a key.
  abbrev pub client_at : ClientMap → slab.Slab → UdpClientKey → Option Client
  client_at m v k = elim (m k) [ none ↦ none | some slot ↦ get slot v ]

  abbrev pub client_of : UdpClients slab → UdpClientKey → Option Client
  client_of s k = client_at s.virtual_client_lookup s.virtual_clients k

  -- A client of a key is one that any slot holds.
  client_at_iff :
      (m : ClientMap) (v : slab.Slab) (k : UdpClientKey) (c : Client)
      → Linked slab laws m v
      → (client_at m v k ≡ some c) ↔ ((slot : ℕ) × (get slot v ≡ some c) × (c.key ≡ k))
  client_at_iff m v k c linked = (
    λ h. elim (Option-cases (m k)) [
      | inl absent ↦ absurd (none_some (rw (client_at, absent) at h))
      | inr (slot, under) ↦
          let (d, held, own) = linked.listed k slot under in
          let there : get slot v ≡ some c = rw (client_at, under) at h in
          (slot, there, ap (λ (x : Client). x.key) (some_injective (sym there ∙ held)) ∙ own)
    ],
    λ (slot, held, own).
        let under : m k ≡ some slot = ap m (sym own) ∙ (linked.stored slot c held).0 in
        rw (client_at, under) held,
  )

  -- Two states that hold the same clients with a key give the key the same client.
  pub client_at_same :
      (m m' : ClientMap) (v v' : slab.Slab) (k : UdpClientKey)
      → Linked slab laws m v
      → Linked slab laws m' v'
      → ((slot : ℕ) (c : Client) → c.key ≡ k → (get slot v ≡ some c) ↔ (get slot v' ≡ some c))
      → client_at m v k ≡ client_at m' v' k
  client_at_same m m' v v' k linked linked' same =
      same_content (client_at m v k) (client_at m' v' k) (λ c. (
        λ h.
            let (slot, held, own) = (client_at_iff m v k c linked).0 h in
            (client_at_iff m' v' k c linked').1 (slot, (same slot c own).0 held, own),
        λ h.
            let (slot, held, own) = (client_at_iff m' v' k c linked').0 h in
            (client_at_iff m v k c linked).1 (slot, (same slot c own).1 held, own),
      ))

  -- What a removal of old clients leaves, as a map.
  retained-client_of :
      (is_closed : ℕ → Bool) (s s' : UdpClients slab) (now : ℕ)
      → Valid slab laws s
      → Valid slab laws s'
      → ((i : ℕ) → get i s'.virtual_clients ≡ retained is_closed now (get i s.virtual_clients))
      → (k : UdpClientKey) → client_of s' k ≡ retained is_closed now (client_of s k)
  retained-client_of is_closed s s' now valid valid' kept k =
      same_content (client_of s' k) (retained is_closed now (client_of s k)) (λ c. (
        λ h.
            let (slot, held, own) = (client_at_iff _ _ k c valid'.linked).0 h in
            let (there, fresh) =
              (retained_iff is_closed now (get slot s.virtual_clients) c).0
                (sym (kept slot) ∙ held) in
            (retained_iff is_closed now (client_of s k) c).1
              ((client_at_iff _ _ k c valid.linked).1 (slot, there, own), fresh),
        λ h.
            let (there, fresh) = (retained_iff is_closed now (client_of s k) c).0 h in
            let (slot, held, own) = (client_at_iff _ _ k c valid.linked).0 there in
            (client_at_iff _ _ k c valid'.linked).1 (
              slot,
              kept slot
                  ∙ (retained_iff is_closed now (get slot s.virtual_clients) c).1 (held, fresh),
              own,
            ),
      ))

  -- A client of some key that is to be removed, and whose receiver task does not end.
  pub record Lingering (r : Receivers) (s : UdpClients slab) (now : ℕ) : Type 0 where
    key : UdpClientKey
    client : Client
    held : client_of s key ≡ some client
    old : expired r.is_closed now client ≡ true
    never_ends : r.ends client.id ≡ false

  held-client_of :
      (s : UdpClients slab) (slot : ℕ) (c : Client)
      → Valid slab laws s
      → get slot s.virtual_clients ≡ some c
      → client_of s c.key ≡ some c
  held-client_of s slot c valid held = (client_at_iff _ _ c.key c valid.linked).1 (slot, held, refl)

  -- On the map from keys to clients, when the tables agree: either the receiver task of every expired
  -- client ends, and the removal of old clients keeps under each key the client that is not expired;
  -- or that of some expired client does not end, and the removal panics.
  pub clear_old-client_of :
      (r : Receivers) (s : UdpClients slab) (now : ℕ)
      → Valid slab laws s
      → ((s' : UdpClients slab) × (clear_old slab r s now ≡ some s')
          × ((k : UdpClientKey) → client_of s' k ≡ retained r.is_closed now (client_of s k))
          × ¬ Lingering r s now)
        ⊎ ((clear_old slab r s now ≡ none) × Lingering r s now)
  clear_old-client_of r s now valid = elim (clear_old-cases slab laws r s now valid) [
    | inl (s', cleared, all_end, valid', kept) ↦ inl (
      s',
      cleared,
      retained-client_of r.is_closed s s' now valid valid' kept,
      λ stuck.
          let (slot, held, own) =
            (client_at_iff _ _ stuck.key stuck.client valid.linked).0 stuck.held in
          let ended : r.ends stuck.client.id ≡ true =
            all_end stuck.client (record { slot = slot; held = held; old = stuck.old }) in
          true_false (sym ended ∙ stuck.never_ends),
    )
    | inr (failed, (c, gone, never)) ↦ inr (
      failed,
      record {
        key = c.key;
        client = c;
        held = held-client_of s gone.slot c valid gone.held;
        old = gone.old;
        never_ends = never;
      },
    )
  ]

  -- Where the wait for a task that was found to have ended panics (`Consumed`), the removal of old
  -- clients panics whenever the tables agree and the task of some client was found to have ended.
  pub clear_old-Consumed :
      (r : Receivers) (s : UdpClients slab) (now : ℕ) (k : UdpClientKey) (c : Client)
      → Consumed r
      → Valid slab laws s
      → client_of s k ≡ some c
      → r.is_closed c.id ≡ true
      → clear_old slab r s now ≡ none
  unfolding expired
  clear_old-Consumed r s now k c consumed valid held closed =
      elim (clear_old-client_of r s now valid) [
        | inr (failed, stuck) ↦ failed
        | inl (s', cleared, kept, all_end) ↦ absurd (
            all_end (record {
              key = k;
              client = c;
              held = held;
              old = rw closed refl;
              never_ends = consumed c.id closed;
            }))
      ]

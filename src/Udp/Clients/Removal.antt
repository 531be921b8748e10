-- ===== src/Udp/Clients/Removal.antt =====
-- The removal of some slots: it comes to an end, or meets a receiver task that does not.
use playit_agent.Common.{
  ℕ, suc, ◌+◌, ◌≤◌, ◌<◌, ◌≡◌, ◌⊎◌, none_some, some_injective, split_test, true, refl, sym, ap, ◌∙◌,
  inl, inr, Bool-cases, Bool, false, Option, none, some, List, [], ◌∷◌, count, ltb, ◌==◌, ==_iff,
  eq_true, if◌then◌else◌, arith,
}
use mathlib.Core.Path.{subst}
use playit_agent.Slab.{SlabOps, SlabLaws, occupied}
use playit_agent.Udp.Clients.{Client, UdpClients, remove_key}
use playit_agent.Udp.Clients.Linked.{Linked, remove-Linked}
use playit_agent.Udp.Clients.Steps.{remove_client, remove_clients}

occupied_cases :
    {A : Type 0} (n : ℕ) (o : Option A) → suc n ≤ occupied o → (a : A) × (o ≡ some a) × (n ≡ 0)
occupied_cases n none h = absurd (omega arith)
occupied_cases n (some a) h = (a, refl, omega arith)

count_own : (slot : ℕ) (rest : List ℕ) → count slot (slot ∷ rest) ≡ suc (count slot rest)
count_own slot rest = rw (eq_true slot slot refl) (omega arith)

rest_once :
    {A : Type 0} (slot i : ℕ) (rest : List ℕ) (o : Option A)
    → count slot rest ≡ 0
    → count i (slot ∷ rest) ≤ occupied o
    → count i rest ≤ occupied (if slot == i then none else o)
rest_once slot i rest o single once = elim (Bool-cases (slot == i)) [
  | inl same ↦ rw same (
      subst (λ (j : ℕ). count j rest ≤ 0) ((==_iff slot i).0 same)
        (subst (λ (n : ℕ). n ≤ 0) (sym single) (omega arith)))
  | inr differ ↦
      rw differ (let shorter : 0 + count i rest ≤ occupied o = rw differ at once in omega arith)
]

without_slot :
    {A : Type 0} (slot i : ℕ) (rest : List ℕ) (o : Option A)
    → (if ltb 0 (count i rest) then none else (if slot == i then none else o))
      ≡ (if ltb 0 (count i (slot ∷ rest)) then none else o)
without_slot slot i rest o = ground arith

module _ (slab : SlabOps Client) (laws : SlabLaws slab) where
  open slab use {get, remove, slots}

  -- A state after some slots are emptied.
  pub record Emptied (l : List ℕ) (s s' : UdpClients slab) : Type 0 where
    pub linked : Linked slab laws s'.virtual_client_lookup s'.virtual_clients
    pub gone :
        (i : ℕ)
        → get i s'.virtual_clients ≡ (if ltb 0 (count i l) then none else get i s.virtual_clients)
    pub origins : s'.lookup ≡ s.lookup
    pub stats : s'.stats ≡ s.stats

  -- Whose receiver tasks end.
  abbrev pub AllEnd : (ℕ → Bool) → List ℕ → UdpClients slab → Type 0
  AllEnd ends l s =
      (i : ℕ) (c : Client) → 0 < count i l → get i s.virtual_clients ≡ some c → ends c.id ≡ true

  pub record Stuck (ends : ℕ → Bool) (l : List ℕ) (s : UdpClients slab) : Type 0 where
    pub slot : ℕ
    pub client : Client
    pub listed : 0 < count slot l
    pub held : get slot s.virtual_clients ≡ some client
    pub never_ends : ends client.id ≡ false

  -- The state without a client.
  abbrev without : ℕ → Client → UdpClients slab → UdpClients slab
  without slot c s = record s {
    virtual_clients = remove slot s.virtual_clients;
    virtual_client_lookup = remove_key c.key s.virtual_client_lookup;
  }

  remove_client_lem :
      (ends : ℕ → Bool) (slot : ℕ) (s : UdpClients slab) (c : Client)
      → Linked slab laws s.virtual_client_lookup s.virtual_clients
      → get slot s.virtual_clients ≡ some c
      → remove_client slab ends slot s ≡ (if ends c.id then some (without slot c s) else none)
  unfolding remove_client
  remove_client_lem ends slot s c linked held =
      rw (remove_client, held, (linked.stored slot c held).0, eq_true slot slot refl) refl

  AllEnd-without :
      (ends : ℕ → Bool) (slot : ℕ) (rest : List ℕ) (s : UdpClients slab) (c : Client)
      → get slot s.virtual_clients ≡ some c
      → ends c.id ≡ true
      → AllEnd ends rest (without slot c s)
      → AllEnd ends (slot ∷ rest) s
  AllEnd-without ends slot rest s c held here later i d listed there =
      elim (Bool-cases (slot == i)) [
        | inl same ↦
            let at_slot : get slot s.virtual_clients ≡ some d =
              ap (λ (j : ℕ). get j s.virtual_clients) ((==_iff slot i).0 same) ∙ there in
            ap (λ (x : Client). ends x.id) (some_injective (sym at_slot ∙ held)) ∙ here
        | inr differ ↦
            let still : 0 < 0 + count i rest = rw differ at listed in
            later i d (omega (arith, still))
              (laws.get-remove slot s.virtual_clients i ∙ rw differ there)
      ]

  Stuck-without :
      (ends : ℕ → Bool) (slot : ℕ) (rest : List ℕ) (s : UdpClients slab) (c : Client)
      → Stuck ends rest (without slot c s)
      → Stuck ends (slot ∷ rest) s
  Stuck-without ends slot rest s c stuck =
      let there : (if slot == stuck.slot then none else get stuck.slot s.virtual_clients)
          ≡ some stuck.client =
        sym (laws.get-remove slot s.virtual_clients stuck.slot) ∙ stuck.held in
      elim (split_test (slot == stuck.slot) none _ stuck.client there) [
        | inl (same, absent) ↦ absurd (none_some absent)
        | inr (differ, held) ↦ record {
          slot = stuck.slot;
          client = stuck.client;
          listed = omega (arith, stuck.listed);
          held = held;
          never_ends = stuck.never_ends;
        }
      ]

  Emptied-without :
      (slot : ℕ) (rest : List ℕ) (s : UdpClients slab) (c : Client) (s' : UdpClients slab)
      → Emptied rest (without slot c s) s'
      → Emptied (slot ∷ rest) s s'
  Emptied-without slot rest s c s' emptied = record {
    linked = emptied.linked;
    gone = λ i.
        emptied.gone i
        ∙ ap (λ (o : Option Client). if ltb 0 (count i rest) then none else o)
            (laws.get-remove slot s.virtual_clients i)
        ∙ without_slot slot i rest (get i s.virtual_clients);
    origins = emptied.origins;
    stats = emptied.stats;
  }

  -- The removal of some slots comes to an end, or meets a receiver task that does not.
  pub remove_clients-cases :
      (ends : ℕ → Bool) (l : List ℕ) (s : UdpClients slab)
      → Linked slab laws s.virtual_client_lookup s.virtual_clients
      → ((i : ℕ) → count i l ≤ occupied (get i s.virtual_clients))
      → ((s' : UdpClients slab) × (remove_clients slab ends l s ≡ some s')
          × Emptied l s s'
          × AllEnd ends l s)
        ⊎ ((remove_clients slab ends l s ≡ none) × Stuck ends l s)
  unfolding remove_clients
  remove_clients-cases ends [] s linked once = inl (
    s,
    refl,
    record { linked = linked; gone = λ i. refl; origins = refl; stats = refl },
    λ i c listed held. absurd (omega (arith, listed)),
  )
  remove_clients-cases ends (slot ∷ rest) s linked once =
      let first : suc (count slot rest) ≤ occupied (get slot s.virtual_clients) =
        subst (λ (n : ℕ). n ≤ occupied (get slot s.virtual_clients)) (count_own slot rest)
          (once slot) in
      let (c, held, single) = occupied_cases (count slot rest) (get slot s.virtual_clients) first in
      let removed = remove_client_lem ends slot s c linked held in
      elim (Bool-cases (ends c.id)) [
        | inr never ↦ inr (
          rw (remove_clients, removed, never) refl,
          record {
            slot = slot;
            client = c;
            listed = rw (count_own slot rest) (omega arith);
            held = held;
            never_ends = never;
          },
        )
        | inl here ↦
            let s₁ : UdpClients slab = without slot c s in
            elim (remove_clients-cases ends rest s₁
              (remove-Linked slab laws s.virtual_client_lookup s.virtual_clients slot c linked held)
              (λ i.
                subst (λ (o : Option Client). count i rest ≤ occupied o)
                  (sym (laws.get-remove slot s.virtual_clients i))
                  (rest_once slot i rest (get i s.virtual_clients) single (once i)))) [
                    | inr (failed, stuck) ↦ inr (
                      rw (remove_clients, removed, here) failed,
                      Stuck-without ends slot rest s c stuck,
                    )
                    | inl (s', rest_removed, emptied, all_end) ↦ inl (
                      s',
                      rw (remove_clients, removed, here) rest_removed,
                      Emptied-without slot rest s c s' emptied,
                      AllEnd-without ends slot rest s c held here all_end,
                    )
                  ]
      ]

-- ===== src/Udp/Clients/Linked.antt =====
-- The two tables of the clients, the slot under each key and the client in each slot, agree; and what
-- each client keeps. The operations on the tables keep it so.
use playit_agent.Common.{
  ℕ, ◌≡◌, ◌≢◌, refl, sym, ap, ◌∙◌, inl, inr, Bool-cases, Option, none, some, ==_iff, ◌==◌,
  if◌then◌else◌, eq_true, eq_false, split_test, some_injective, none_some,
}
use mathlib.Core.Path.{subst₂}
use playit_agent.Proto.Flow.{UdpFlow, dst_addr}
use playit_agent.Slab.{SlabOps, SlabLaws}
use playit_agent.Udp.Clients.Keys.{
  eq_key_sound, slot_apart, key_apart, remove_key_other, insert_key_other, insert_key_own,
}
use playit_agent.Udp.Clients.{
  UdpClientKey, Client, ClientMap, eq_key, insert_key, remove_key, unpack_slot, reply_flow,
}

-- What a client keeps: the slot is that of its id, its flow leads back to the address of its key, and
-- a reply has a source port.
pub record Kept (slot : ℕ) (c : Client) : Type 0 where
  pub own_slot : unpack_slot c.id ≡ slot
  pub leads_back : dst_addr c.flow ≡ c.key.source_addr
  pub replies : (f : UdpFlow) × (reply_flow c.flow c.port_offset ≡ some f)

module _ (slab : SlabOps Client) (laws : SlabLaws slab) where
  open slab use {get, vacant_key, insert, set, remove}

  pub record Linked (m : ClientMap) (v : slab.Slab) : Type 0 where
    -- A key leads to the slot of a client with that key, and the key of a client leads to its slot.
    pub listed :
        (k : UdpClientKey) (slot : ℕ)
        → m k ≡ some slot
        → (c : Client) × (get slot v ≡ some c) × (c.key ≡ k)
    pub stored : (slot : ℕ) (c : Client) → get slot v ≡ some c → (m c.key ≡ some slot) × Kept slot c

  pub empty-Linked : Linked (λ key. none) slab.empty
  empty-Linked = record {
    listed = λ k slot h. absurd (cc h);
    stored = λ slot c h.
        absurd (let vacant : get slot slab.empty ≡ none = laws.get-empty slot in cc (vacant, h));
  }

  at_own_slot : (j i : ℕ) (o o' : Option Client) → j ≡ i → (if j == i then o else o') ≡ o
  at_own_slot j i o o' e = rw (eq_true j i e) refl

  other_slot : (j i : ℕ) (o o' : Option Client) → j ≢ i → (if j == i then o else o') ≡ o'
  other_slot j i o o' e = rw (eq_false j i e) refl

  pub remove-Linked :
      (m : ClientMap) (v : slab.Slab) (slot : ℕ) (c : Client)
      → Linked m v
      → get slot v ≡ some c
      → Linked (remove_key c.key m) (remove slot v)
  remove-Linked m v slot c linked held = record {
    listed = λ k slot' h. elim (split_test (eq_key c.key k) none (m k) slot' h) [
      | inl (same, absent) ↦ absurd (cc absent)
      | inr (differ, there) ↦
          let (c', held', key') = linked.listed k slot' there in
          let apart : slot ≢ slot' = λ e. key_apart c.key k differ (
            let one : c ≡ c' = some_injective (sym held ∙ ap (λ (j : ℕ). get j v) e ∙ held') in
            ap (λ (x : Client). x.key) one ∙ key') in
          (
            c',
            laws.get-remove slot v slot' ∙ other_slot slot slot' none (get slot' v) apart ∙ held',
            key',
          )
    ];
    stored = λ slot' c' h.
        elim (split_test (slot == slot') none (get slot' v) c'
          (sym (laws.get-remove slot v slot') ∙ h)) [
            | inl (same, absent) ↦ absurd (cc absent)
            | inr (differ, there) ↦
                let (under, kept) = linked.stored slot' c' there in
                let apart : c.key ≢ c'.key = λ e.
                  slot_apart slot slot' differ
                    (some_injective (sym (linked.stored slot c held).0 ∙ ap m e ∙ under)) in
                (remove_key_other c.key c'.key m apart ∙ under, kept)
          ];
  }

  pub set-Linked :
      (m : ClientMap) (v : slab.Slab) (slot : ℕ) (c c' : Client)
      → Linked m v
      → get slot v ≡ some c
      → c'.key ≡ c.key
      → Kept slot c'
      → Linked m (set slot c' v)
  set-Linked m v slot c c' linked held same_key kept = record {
    listed = λ k i h.
        let (d, held', key') = linked.listed k i h in
        elim (Bool-cases (slot == i)) [
          | inl same ↦
              let one : c ≡ d =
                some_injective
                  (sym held ∙ ap (λ (j : ℕ). get j v) ((==_iff slot i).0 same) ∙ held') in
              (
                c',
                laws.get-set slot c' c v i held
                    ∙ at_own_slot slot i (some c') (get i v) ((==_iff slot i).0 same),
                same_key ∙ ap (λ (x : Client). x.key) one ∙ key',
              )
          | inr differ ↦ (
            d,
            laws.get-set slot c' c v i held
                ∙ other_slot slot i (some c') (get i v) (slot_apart slot i differ)
                ∙ held',
            key',
          )
        ];
    stored = λ i d h.
        elim (split_test (slot == i) (some c') (get i v) d
          (sym (laws.get-set slot c' c v i held) ∙ h)) [
            | inl (same, own) ↦
                let one : c' ≡ d = some_injective own in
                let e : slot ≡ i = (==_iff slot i).0 same in
                (
                  ap m (ap (λ (x : Client). x.key) (sym one) ∙ same_key)
                      ∙ (linked.stored slot c held).0
                      ∙ ap some e,
                  subst₂ Kept e one kept,
                )
            | inr (differ, there) ↦ linked.stored i d there
          ];
  }

  pub insert-Linked :
      (m : ClientMap) (v : slab.Slab) (c : Client)
      → Linked m v
      → m c.key ≡ none
      → Kept (vacant_key v) c
      → Linked (insert_key c.key (vacant_key v) m) (insert c v)
  insert-Linked m v c linked absent kept = record {
    listed = λ k i h. elim (split_test (eq_key c.key k) (some (vacant_key v)) (m k) i h) [
      | inl (same, own) ↦ (
        c,
        laws.get-insert c v i
            ∙ at_own_slot (vacant_key v) i (some c) (get i v) (some_injective own),
        eq_key_sound c.key k same,
      )
      | inr (differ, there) ↦
          let (d, held', key') = linked.listed k i there in
          let apart : vacant_key v ≢ i =
            λ e. none_some (sym (laws.get-vacant_key v) ∙ ap (λ (j : ℕ). get j v) e ∙ held') in
          (
            d,
            laws.get-insert c v i ∙ other_slot (vacant_key v) i (some c) (get i v) apart ∙ held',
            key',
          )
    ];
    stored = λ i d h.
        elim (split_test (vacant_key v == i) (some c) (get i v) d
          (sym (laws.get-insert c v i) ∙ h)) [
            | inl (same, own) ↦
                let one : c ≡ d = some_injective own in
                let e : vacant_key v ≡ i = (==_iff (vacant_key v) i).0 same in
                (
                  insert_key_own c.key d.key (vacant_key v) m (ap (λ (x : Client). x.key) one)
                      ∙ ap some e,
                  subst₂ Kept e one kept,
                )
            | inr (differ, there) ↦
                let (under, kept') = linked.stored i d there in
                let apart : c.key ≢ d.key = λ e. none_some (sym absent ∙ ap m e ∙ under) in
                (insert_key_other c.key d.key (vacant_key v) m apart ∙ under, kept')
          ];
  }

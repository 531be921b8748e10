-- ===== src/Udp/Clients/Keys.antt =====
-- Keys of clients compared, and the map from keys to slots after a change.
use playit_agent.Common.{
  ℕ, ◌≡◌, ◌≢◌, refl, sym, ap, ◌∙◌, inl, inr, Bool-cases, true, false, some, ◌==◌, eq_true, arith,
}
use playit_agent.Wire.Addresses.{eq_addr, eq_addr_refl, eq_addr_sound}
use playit_agent.Udp.Clients.{UdpClientKey, ClientMap, eq_key, insert_key, remove_key}

pub eq_key_refl : (k : UdpClientKey) → eq_key k k ≡ true
unfolding eq_key
eq_key_refl k = rw (eq_addr_refl k.source_addr, eq_true k.tunnel_id k.tunnel_id refl) refl

pub eq_key_sound : (a b : UdpClientKey) → eq_key a b ≡ true → a ≡ b
unfolding eq_key
eq_key_sound a b h = elim (Bool-cases (eq_addr a.source_addr b.source_addr)) [
  | inl same ↦ ground (arith, eq_addr_sound a.source_addr b.source_addr same)
  | inr differ ↦ ground arith
]

pub slot_apart : (j i : ℕ) → (j == i) ≡ false → j ≢ i
slot_apart j i differ e = let same : (j == i) ≡ true = eq_true j i e in cc (same, differ)

pub key_apart : (a b : UdpClientKey) → eq_key a b ≡ false → a ≢ b
key_apart a b differ e =
    let same : eq_key a b ≡ true = ap (eq_key a) (sym e) ∙ eq_key_refl a in cc (same, differ)

pub eq_key_ne : (a b : UdpClientKey) → a ≢ b → eq_key a b ≡ false
eq_key_ne a b apart = elim (Bool-cases (eq_key a b)) [
  | inl same ↦ absurd (apart (eq_key_sound a b same))
  | inr differ ↦ differ
]

pub remove_key_other : (a b : UdpClientKey) (m : ClientMap) → a ≢ b → remove_key a m b ≡ m b
remove_key_other a b m apart = rw (eq_key_ne a b apart) refl

pub insert_key_other :
    (a b : UdpClientKey) (slot : ℕ) (m : ClientMap) → a ≢ b → insert_key a slot m b ≡ m b
insert_key_other a b slot m apart = rw (eq_key_ne a b apart) refl

pub insert_key_own :
    (a b : UdpClientKey) (slot : ℕ) (m : ClientMap) → a ≡ b → insert_key a slot m b ≡ some slot
insert_key_own a b slot m e =
    let same : eq_key a b ≡ true = ap (eq_key a) (sym e) ∙ eq_key_refl a in rw same refl

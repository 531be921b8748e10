-- ===== src/Proto/Register/Encoding.antt =====
-- The registration is read back from its bytes, its version at least 1.
use playit_agent.Common.{
  ℕ, ◌+◌, ◌/◌, ◌%◌, ◌^◌, ◌≤◌, ◌<◌, ◌≡◌, refl, ◌⊎◌, inl, inr, true, false, length, leb, leb-true,
  leb-false, leb→le, Bool-cases, if◌then◌else◌, arith,
}
use playit_agent.Io.{err, invalid_input, pure, ◌>>=◌, ◌▷◌}
use playit_agent.Io.RoundTrip.{RoundTrip, done, then_field, map_field}
use playit_agent.Wire.{Wire, WireLaws, InWidth, ValidSocketAddr}
use playit_agent.Wire.Fields.{uint-RoundTrip, array-RoundTrip}
use playit_agent.Proto.Register.{
  AgentRegister, has_version_bit, clear_version_bit, write_head, read_head, write_tail, read_tail,
  write_register, read_register,
}

-- The ranges of the fields, and room for the version bit in the word that shares it.
pub record ValidRegister (r : AgentRegister) : Type 0 where
  pub first_word : (r.proto_version ≤ 1 → r.account_id < 2 ^ 63) × (r.proto_version < 2 ^ 63)
  pub account_id : InWidth 8 r.account_id
  pub agent_id : InWidth 8 r.agent_id
  pub agent_version : InWidth 8 r.agent_version
  pub timestamp : InWidth 8 r.timestamp
  pub client_addr : ValidSocketAddr r.client_addr
  pub tunnel_addr : ValidSocketAddr r.tunnel_addr
  pub signature : length r.signature ≡ 32

abbrev pub sent_version : ℕ → ℕ
sent_version v = if leb v 1 then 1 else v

-- What arrives: versions 0 and 1 are written alike.
abbrev pub received : AgentRegister → AgentRegister
received r = record r { proto_version = sent_version r.proto_version }

pub bit_unset : (x : ℕ) → x < 2 ^ 63 → has_version_bit x ≡ false
bit_unset x h = ground (arith, quotient)
  where
    quotient : x / 2 ^ 63 % 2 ≡ 0
    quotient = omega arith

bit_set : (x : ℕ) → x < 2 ^ 63 → has_version_bit (x + 2 ^ 63) ≡ true
bit_set x h = ground (arith, quotient)
  where
    quotient : (x + 2 ^ 63) / 2 ^ 63 % 2 ≡ 1
    quotient = omega arith

bit_found : (x : ℕ) → 2 ^ 63 ≤ x → x < 256 ^ 8 → has_version_bit x ≡ true
bit_found x lo hi = ground (arith, quotient)
  where
    quotient : x / 2 ^ 63 % 2 ≡ 1
    quotient = omega arith

bit_cleared : (x : ℕ) → x < 2 ^ 63 → clear_version_bit (x + 2 ^ 63) ≡ x
bit_cleared x h = omega arith

module _ (wire : Wire) (laws : WireLaws wire) where
  pub head-RoundTrip :
      (r : AgentRegister)
      → ValidRegister r
      → RoundTrip 0
          (write_head wire r)
          (read_head wire)
          (sent_version r.proto_version, r.account_id)
  unfolding write_head read_head ◌>>=◌
  head-RoundTrip r v = elim (Bool-cases (leb r.proto_version 1)) [
    | inl old ↦
        let small : r.account_id < 2 ^ 63 = v.first_word.0 (leb→le _ 1 old) in
        let word = uint-RoundTrip wire laws 8 r.account_id v.account_id in
        rw (old, bit_unset r.account_id small)
          (record {
            bytes = word.bytes;
            reported = word.reported;
            wrote = word.wrote;
            counted = word.counted;
            reads = λ rest.
                rw (word.reads rest, ◌>>=◌)
                  (rw (bit_unset r.account_id small) (unfold pure in refl));
          })
    | inr new ↦
        let small : r.proto_version < 2 ^ 63 = v.first_word.1 in
        let version : ℕ = r.proto_version + 2 ^ 63 in
        rw (new, bit_unset r.proto_version small)
          (then_field _ (uint-RoundTrip wire laws 8 version (omega arith)) (
            rw (bit_set r.proto_version small, bit_cleared r.proto_version small)
              (map_field _ (uint-RoundTrip wire laws 8 r.account_id v.account_id))))
  ]

  tail-RoundTrip :
      (r : AgentRegister) (version : ℕ)
      → ValidRegister r
      → RoundTrip 0
          (write_tail wire r)
          (read_tail wire (version, r.account_id))
          (record r { proto_version = version })
  unfolding write_tail read_tail
  tail-RoundTrip r version v = then_field _ (uint-RoundTrip wire laws 8 r.agent_id v.agent_id) (
      then_field _ (uint-RoundTrip wire laws 8 r.agent_version v.agent_version) (
        then_field _ (uint-RoundTrip wire laws 8 r.timestamp v.timestamp) (
          then_field _ (laws.socket_addr-RoundTrip r.client_addr v.client_addr) (
            then_field _ (laws.socket_addr-RoundTrip r.tunnel_addr v.tunnel_addr) (
              then_field _ (array-RoundTrip 32 r.signature v.signature)
                (done (record r { proto_version = version })))))))

  -- A registration whose fields are in their ranges and leave room for the version bit
  -- (`ValidRegister`) is written with its exact length and read back, its version 0 as 1.
  pub register-RoundTrip :
      (r : AgentRegister)
      → ValidRegister r
      → RoundTrip 0 (write_register wire r) (read_register wire) (received r)
  unfolding write_register read_register
  register-RoundTrip r v =
      then_field _ (head-RoundTrip r v) (tail-RoundTrip r (sent_version r.proto_version) v)

  -- A registration is refused with `InvalidInput` where bit 63 of its first word, which marks the
  -- format, is taken: by the account id under version 0 or 1, by the version under any other.
  pub write_register_refused :
      (r : AgentRegister)
      → InWidth 8 r.account_id
      → InWidth 8 r.proto_version
      → ((r.proto_version ≤ 1) × (2 ^ 63 ≤ r.account_id)) ⊎ (2 ^ 63 ≤ r.proto_version)
      → write_register wire r ≡ err invalid_input
  unfolding write_register write_head ◌▷◌
  write_register_refused r ha hp (inl (old, big)) =
      rw (leb-true r.proto_version 1 old) (rw (bit_found r.account_id big ha) refl)
  write_register_refused r ha hp (inr big) =
      rw (leb-false r.proto_version 1 (omega arith)) (rw (bit_found r.proto_version big hp) refl)

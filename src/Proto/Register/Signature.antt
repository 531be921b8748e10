-- ===== src/Proto/Register/Signature.antt =====
-- packages/agent_proto/src/hmac.rs and the signing of a registration. The HMAC itself (the crates
-- `hmac` and `sha2`) is a parameter.
use playit_agent.Common.{
  ℕ, ◌+◌, ◌-◌, ◌≡◌, refl, sym, ap, ◌∙◌, ◌↔◌, inl, inr, Bool-cases, Bool, true, [], ◌++◌,
  append_assoc, append-nil, length, length-append, take, take-append, leb, leb-true, if◌then◌else◌,
  arith,
}
use playit_agent.Io.{Result, ok, err, panicked, Bytes, Written, ◌▷◌}
use playit_agent.Io.RoundTrip.{RoundTrip}
use playit_agent.Wire.{Wire, WireLaws}
use playit_agent.Wire.Fields.{uint-RoundTrip}
use playit_agent.Proto.Register.{
  AgentRegister, read_register, write_register, write_head, write_tail,
}
use playit_agent.Proto.Register.Encoding.{
  ValidRegister, head-RoundTrip, register-RoundTrip, received,
}

-- `HmacSha256` with its key: `sign` and `verify`.
pub record HmacSha256 : Type 0 where
  pub sign : Bytes → Bytes
  pub verify : Bytes → Bytes → Bool

pub record HmacLaws (hmac : HmacSha256) : Type 0 where
  -- A signature is 32 bytes long, and it alone verifies.
  pub length-sign : (bs : Bytes) → length (hmac.sign bs) ≡ 32
  pub verify_iff : (bs sig : Bytes) → (hmac.verify bs sig ≡ true) ↔ (sig ≡ hmac.sign bs)

-- The bytes but the last `n`, behind the `assert!` that there are as many.
cut_tail : ℕ → Written → Result Bytes
cut_tail n (ok (bs, sum)) = if leb n (length bs) then ok (take (length bs - n) bs) else panicked
cut_tail n (err e) = panicked
cut_tail n panicked = panicked

module _ (wire : Wire) where
  -- The bytes that are signed. A failed `write_to` is unwrapped, which is a panic.
  write_plain : AgentRegister → Result Bytes
  unfolding cut_tail
  write_plain r = cut_tail (length r.signature) (write_register wire r)

  abbrev signed_by : HmacSha256 → AgentRegister → Result Bytes → Result AgentRegister
  signed_by hmac r (ok plain) = ok (record r { signature = hmac.sign plain })
  signed_by hmac r (err e) = err e
  signed_by hmac r panicked = panicked

  abbrev verified_by : HmacSha256 → AgentRegister → Result Bytes → Result Bool
  verified_by hmac r (ok plain) = ok (hmac.verify plain r.signature)
  verified_by hmac r (err e) = err e
  verified_by hmac r panicked = panicked

  pub update_signature : HmacSha256 → AgentRegister → Result AgentRegister
  unfolding write_plain
  update_signature hmac r = signed_by hmac r (write_plain r)

  pub verify_signature : HmacSha256 → AgentRegister → Result Bool
  unfolding write_plain
  verify_signature hmac r = verified_by hmac r (write_plain r)

ok-injective : {A : Type 0} {a b : A} → ok a ≡ ok b → a ≡ b
ok-injective h = cc h

-- `f s` writes the same bytes for every `s`, and then `s`.
record EndsWith (f : Bytes → Written) : Type 0 where
  body : Bytes
  size : ℕ
  writes : (s : Bytes) → f s ≡ ok (body ++ s, size + length s)

ends_here : EndsWith (λ s. ok (s, length s) ▷ ok ([], 0))
unfolding ◌▷◌
ends_here = record {
  body = [];
  size = 0;
  writes = λ s. rw append-nil (ap (λ (n : ℕ). ok (s, n)) (omega arith));
}

ends_later :
    (w : Written) (bs : Bytes) (n : ℕ) {f : Bytes → Written}
    → w ≡ ok (bs, n)
    → EndsWith f
    → EndsWith (λ s. w ▷ f s)
unfolding ◌▷◌
ends_later w bs n e g = record {
  body = bs ++ g.body;
  size = n + g.size;
  writes = λ s.
      rw (e, g.writes s)
        (rw (append_assoc bs g.body s) (ap (λ (m : ℕ). ok (bs ++ (g.body ++ s), m)) (omega arith)));
}

cut_tail-append : (body s : Bytes) (n : ℕ) → cut_tail (length s) (ok (body ++ s, n)) ≡ ok body
unfolding cut_tail
cut_tail-append body s n =
    let l = length-append body s in
    let e : length (body ++ s) - length s ≡ length body = omega (arith, l) in
    rw (leb-true (length s) (length (body ++ s)) (omega (arith, l)))
      (rw e (ap ok (take-append (length body) body s refl)))

abbrev pub sign_with : AgentRegister → Bytes → AgentRegister
sign_with r s = record r { signature = s }

module _ (wire : Wire) (laws : WireLaws wire) where
  -- The signature is the last thing written, and nothing before it depends on it.
  register-EndsWith :
      (r : AgentRegister) → ValidRegister r → EndsWith (λ s. write_register wire (sign_with r s))
  unfolding write_register write_head write_tail
  register-EndsWith r v =
      let head = head-RoundTrip wire laws r v in
      let agent = uint-RoundTrip wire laws 8 r.agent_id v.agent_id in
      let version = uint-RoundTrip wire laws 8 r.agent_version v.agent_version in
      let time = uint-RoundTrip wire laws 8 r.timestamp v.timestamp in
      let client = laws.socket_addr-RoundTrip r.client_addr v.client_addr in
      let tunnel = laws.socket_addr-RoundTrip r.tunnel_addr v.tunnel_addr in
      ends_later _ head.bytes head.reported head.wrote (
        ends_later _ agent.bytes agent.reported agent.wrote (
          ends_later _ version.bytes version.reported version.wrote (
            ends_later _ time.bytes time.reported time.wrote (
              ends_later _ client.bytes client.reported client.wrote
                (ends_later _ tunnel.bytes tunnel.reported tunnel.wrote ends_here)))))

  write_plain-sign_with :
      (r : AgentRegister) (v : ValidRegister r) (s : Bytes)
      → write_plain wire (sign_with r s) ≡ ok (register-EndsWith r v).body
  unfolding write_plain
  write_plain-sign_with r v s =
      let ends = register-EndsWith r v in
      ap (cut_tail (length s)) (ends.writes s) ∙ cut_tail-append ends.body s (ends.size + length s)

  -- Versions 0 and 1 are signed alike.
  write_plain-received : (r : AgentRegister) → write_plain wire (received r) ≡ write_plain wire r
  unfolding write_plain write_register write_head write_tail
  write_plain-received r = elim (Bool-cases (leb r.proto_version 1)) [
    | inl old ↦ rw old refl
    | inr new ↦ rw new (rw new refl)
  ]

  module _ (hmac : HmacSha256) (hmac_laws : HmacLaws hmac) where
    -- Signing a valid registration succeeds and changes nothing but the signature. The result has
    -- the ranges that the round trip needs, so it is read back from its bytes, and what is read
    -- (its version 0 as 1) passes the verification under the same key.
    pub signed-verifies :
        (r : AgentRegister)
        → ValidRegister r
        → (s : Bytes) × (update_signature wire hmac r ≡ ok (sign_with r s))
          × RoundTrip 0
              (write_register wire (sign_with r s))
              (read_register wire)
              (received (sign_with r s))
          × (verify_signature wire hmac (received (sign_with r s)) ≡ ok true)
    unfolding update_signature verify_signature
    signed-verifies r v =
        let body : Bytes = (register-EndsWith r v).body in
        let s : Bytes = hmac.sign body in
        let plain = λ (t : Bytes). write_plain-sign_with r v t in
        let signed : ValidRegister (sign_with r s) = record {
          first_word = v.first_word;
          account_id = v.account_id;
          agent_id = v.agent_id;
          agent_version = v.agent_version;
          timestamp = v.timestamp;
          client_addr = v.client_addr;
          tunnel_addr = v.tunnel_addr;
          signature = hmac_laws.length-sign body;
        } in
        (
          s,
          rw (plain r.signature) refl,
          register-RoundTrip wire laws (sign_with r s) signed,
          rw (write_plain-received (sign_with r s) ∙ plain s)
              (ap ok ((hmac_laws.verify_iff body s).1 refl)),
        )

    -- Where signing a valid registration gives the signature `s`, verification of the same
    -- registration under a signature `t` answers yes exactly if `t` is `s`.
    pub verify_signature_iff :
        (r : AgentRegister) (s t : Bytes)
        → ValidRegister r
        → update_signature wire hmac r ≡ ok (sign_with r s)
        → (verify_signature wire hmac (sign_with r t) ≡ ok true) ↔ (t ≡ s)
    unfolding update_signature verify_signature
    verify_signature_iff r s t v signed =
        let body : Bytes = (register-EndsWith r v).body in
        let plain = λ (t : Bytes). write_plain-sign_with r v t in
        let made : ok (sign_with r (hmac.sign body)) ≡ ok (sign_with r s) =
          ap (signed_by wire hmac r) (sym (plain r.signature)) ∙ signed in
        let verdict : verified_by wire hmac (sign_with r t) (write_plain wire (sign_with r t))
            ≡ ok (hmac.verify body t) =
          ap (verified_by wire hmac (sign_with r t)) (plain t) in
        let sig : hmac.sign body ≡ s =
          ap (λ (q : AgentRegister). q.signature) (ok-injective made) in
        (
          λ h. (hmac_laws.verify_iff body t).0 (ok-injective (sym verdict ∙ h)) ∙ sig,
          λ h. verdict ∙ ap ok ((hmac_laws.verify_iff body t).1 (h ∙ sym sig)),
        )

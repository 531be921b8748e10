-- ===== src/Proto/Register/First.antt =====
-- The first version of the registration, and what becomes of it.
use playit_agent.Common.{ℕ, ◌+◌, ◌≡◌, ◌≤◌, leb-true, length}
use playit_agent.Io.{Written, Reader, write_all, ◌>>=◌, ◌▷◌}
use playit_agent.Io.RoundTrip.{RoundTrip, done, then_field, then_uncounted, counted_ahead}
use playit_agent.Wire.{Wire, WireLaws, InWidth, ValidSocketAddr}
use playit_agent.Wire.Fields.{array-RoundTrip, be-RoundTrip, counted_array-RoundTrip}
use playit_agent.Proto.Register.{
  AgentRegister, write_register, write_head, write_tail, AgentRegisterV1, write_register_v1,
  read_register_v1,
}
use playit_agent.Proto.Register.Encoding.{ValidRegister, bit_unset}

pub record ValidRegisterV1 (r : AgentRegisterV1) : Type 0 where
  pub account_id : InWidth 8 r.account_id
  pub agent_id : InWidth 8 r.agent_id
  pub agent_version : InWidth 8 r.agent_version
  pub timestamp : InWidth 8 r.timestamp
  pub client_addr : ValidSocketAddr r.client_addr
  pub tunnel_addr : ValidSocketAddr r.tunnel_addr
  pub signature : length r.signature ≡ 32

-- The fields that the first format carries.
abbrev pub downgrade : AgentRegister → AgentRegisterV1
downgrade r = record {
  account_id = r.account_id;
  agent_id = r.agent_id;
  agent_version = r.agent_version;
  timestamp = r.timestamp;
  client_addr = r.client_addr;
  tunnel_addr = r.tunnel_addr;
  signature = r.signature;
}

module _ (wire : Wire) (laws : WireLaws wire) where
  word :
      (n missed : ℕ) {ws : Written} (k : ℕ → Reader AgentRegisterV1) {r : AgentRegisterV1}
      → InWidth 8 n
      → RoundTrip missed ws (k n) r
      → RoundTrip (8 + missed) (write_all (wire.be_bytes 8 n) ▷ ws) (wire.read_be 8 >>= k) r
  word n missed k h =
      then_uncounted 8 missed _ _ k (laws.length-be_bytes 8 n)
        (λ rest. laws.read-be_bytes 8 n rest h)

  -- A valid registration of the first format is written with its exact length and read back.
  pub register_v1-RoundTrip :
      (r : AgentRegisterV1)
      → ValidRegisterV1 r
      → RoundTrip 0 (write_register_v1 wire r) (read_register_v1 wire) r
  unfolding write_register_v1 read_register_v1
  register_v1-RoundTrip r v = counted_ahead 32 0 (
      word r.account_id 24 _ v.account_id (
        word r.agent_id 16 _ v.agent_id (
          word r.agent_version 8 _ v.agent_version (
            word r.timestamp 0 _ v.timestamp (
              then_field _ (laws.socket_addr-RoundTrip r.client_addr v.client_addr) (
                then_field _ (laws.socket_addr-RoundTrip r.tunnel_addr v.tunnel_addr)
                  (then_field _ (counted_array-RoundTrip 32 r.signature v.signature) (done r))))))))

  -- What the current writer makes of a valid registration of version 0 or 1 is read by the reader of
  -- the first format, without the version.
  pub register-as_v1 :
      (r : AgentRegister)
      → ValidRegister r
      → r.proto_version ≤ 1
      → RoundTrip 0 (write_register wire r) (read_register_v1 wire) (downgrade r)
  unfolding write_register write_head write_tail read_register_v1
  register-as_v1 r v old =
      rw (leb-true r.proto_version 1 old, bit_unset r.account_id (v.first_word.0 old))
        (then_field _ (be-RoundTrip wire laws 8 r.account_id v.account_id) (
          then_field _ (be-RoundTrip wire laws 8 r.agent_id v.agent_id) (
            then_field _ (be-RoundTrip wire laws 8 r.agent_version v.agent_version) (
              then_field _ (be-RoundTrip wire laws 8 r.timestamp v.timestamp) (
                then_field _ (laws.socket_addr-RoundTrip r.client_addr v.client_addr) (
                  then_field _ (laws.socket_addr-RoundTrip r.tunnel_addr v.tunnel_addr) (
                    then_field _ (array-RoundTrip 32 r.signature v.signature)
                      (done (downgrade r)))))))))

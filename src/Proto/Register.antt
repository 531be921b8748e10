-- ===== src/Proto/Register.antt =====
-- packages/agent_proto/src/control_messages.rs: the signed registration of an agent.
-- Bit 63 of a u64 `x` is `x / 2 ^ 63 % 2`; `x | bit` adds the bit where it is not set, and
-- `x & !bit` is `x % 2 ^ 63`.
pub mod Encoding
pub mod First
pub mod Signature
use playit_agent.Common.{
  ℕ, ◌+◌, ◌-◌, ◌/◌, ◌%◌, ◌^◌, Bool, leb, ltb, ◌==◌, if◌then◌else◌, length, take,
}
use playit_agent.Io.{
  Result, ok, err, panicked, invalid_input, unexpected_eof, Bytes, Written, Reader, ◌▷◌, no_bytes,
  write_all, count, pure, ◌>>=◌, read_exact,
}
use playit_agent.Wire.{Wire, SocketAddr}

pub record AgentRegister : Type 0 where
  pub proto_version : ℕ
  pub account_id : ℕ
  pub agent_id : ℕ
  pub agent_version : ℕ
  pub timestamp : ℕ
  pub client_addr : SocketAddr
  pub tunnel_addr : SocketAddr
  pub signature : Bytes

pub record AgentRegisterV1 : Type 0 where
  pub account_id : ℕ
  pub agent_id : ℕ
  pub agent_version : ℕ
  pub timestamp : ℕ
  pub client_addr : SocketAddr
  pub tunnel_addr : SocketAddr
  pub signature : Bytes

abbrev pub encoding_includes_version_bit : ℕ
encoding_includes_version_bit = 2 ^ 63

-- `(x & ENCODING_INCLUDES_VERSION_BIT) == ENCODING_INCLUDES_VERSION_BIT`
abbrev pub has_version_bit : ℕ → Bool
has_version_bit x = x / 2 ^ 63 % 2 == 1

-- `x | ENCODING_INCLUDES_VERSION_BIT`
abbrev pub set_version_bit : ℕ → ℕ
set_version_bit x = if has_version_bit x then x else x + 2 ^ 63

-- `x & ENCODING_INCLUDES_VERSION_BIT.not()`
abbrev pub clear_version_bit : ℕ → ℕ
clear_version_bit x = x % 2 ^ 63

-- `[u8; 32]`
abbrev pub signature_len : ℕ
signature_len = 32

unfoldable pub upgrade : AgentRegisterV1 → AgentRegister
upgrade r = record {
  proto_version = 1;
  account_id = r.account_id;
  agent_id = r.agent_id;
  agent_version = r.agent_version;
  timestamp = r.timestamp;
  client_addr = r.client_addr;
  tunnel_addr = r.tunnel_addr;
  signature = r.signature;
}

module _ (wire : Wire) where
  open wire use {be_bytes, read_be, write_uint, read_uint, write_socket_addr, read_socket_addr}

  -- The first words: the account alone in the first version, the marked version before it later on.
  pub write_head : AgentRegister → Written
  write_head r =
      if leb r.proto_version 1
      then (if has_version_bit r.account_id then err invalid_input else write_uint 8 r.account_id)
      else (if has_version_bit r.proto_version
          then err invalid_input
          else write_uint 8 (set_version_bit r.proto_version) ▷ write_uint 8 r.account_id)

  write_tail : AgentRegister → Written
  write_tail r =
      write_uint 8 r.agent_id
      ▷ write_uint 8 r.agent_version
      ▷ write_uint 8 r.timestamp
      ▷ write_socket_addr r.client_addr
      ▷ write_socket_addr r.tunnel_addr
      ▷ ok (r.signature, length r.signature)
      ▷ no_bytes

  pub write_register : AgentRegister → Written
  unfolding write_head write_tail
  write_register r = write_head r ▷ write_tail r

  -- `let (proto_version, account_id) = …`, from the first word.
  pub read_head : Reader (ℕ × ℕ)
  read_head = do
    first_word ← read_uint 8
    if has_version_bit first_word
        then read_uint 8 >>= (λ account_id. pure (clear_version_bit first_word, account_id))
        else pure (1, first_word)

  read_tail : ℕ × ℕ → Reader AgentRegister
  read_tail (proto_version, account_id) = do
    agent_id ← read_uint 8
    agent_version ← read_uint 8
    timestamp ← read_uint 8
    client_addr ← read_socket_addr
    tunnel_addr ← read_socket_addr
    signature ← read_exact 32
    pure (record {
      proto_version = proto_version;
      account_id = account_id;
      agent_id = agent_id;
      agent_version = agent_version;
      timestamp = timestamp;
      client_addr = client_addr;
      tunnel_addr = tunnel_addr;
      signature = signature;
    })

  pub read_register : Reader AgentRegister
  unfolding read_head read_tail
  read_register = read_head >>= read_tail

  -- The first version: the words through `byteorder`, their 32 bytes counted by hand, the
  -- signature by one `write`, which a `Vec<u8>` takes whole.
  pub write_register_v1 : AgentRegisterV1 → Written
  write_register_v1 r =
      count 32
      ▷ write_all (be_bytes 8 r.account_id)
      ▷ write_all (be_bytes 8 r.agent_id)
      ▷ write_all (be_bytes 8 r.agent_version)
      ▷ write_all (be_bytes 8 r.timestamp)
      ▷ write_socket_addr r.client_addr
      ▷ write_socket_addr r.tunnel_addr
      ▷ ok (r.signature, 32)
      ▷ no_bytes

  -- `read.read(&mut signature)` on a slice takes what there is; less than 32 bytes is an error.
  pub read_register_v1 : Reader AgentRegisterV1
  read_register_v1 = do
    account_id ← read_be 8
    agent_id ← read_be 8
    agent_version ← read_be 8
    timestamp ← read_be 8
    client_addr ← read_socket_addr
    tunnel_addr ← read_socket_addr
    signature ← read_exact 32
    pure (record {
      account_id = account_id;
      agent_id = agent_id;
      agent_version = agent_version;
      timestamp = timestamp;
      client_addr = client_addr;
      tunnel_addr = tunnel_addr;
      signature = signature;
    })

-- ===== src/Proto/Session.antt =====
-- packages/agent_proto/src/lib.rs: session ids, port ranges, port protocols.
use playit_agent.Common.{ℕ, ◌+◌, ◌≡◌, refl, append-nil, arith, ◌==◌, if◌then◌else◌}
use playit_agent.Io.{
  ok, other, Bytes, Written, Reader, ◌▷◌, no_bytes, write_all, count, pure, fail, ◌>>=◌,
}
use playit_agent.Io.RoundTrip.{RoundTrip, done, then_field, counted_ahead, then_uncounted}
use playit_agent.Wire.{Wire, WireLaws, IpAddr, InWidth, ValidIp}
use playit_agent.Wire.Fields.{be-RoundTrip}

pub record AgentSessionId : Type 0 where
  pub session_id : ℕ
  pub account_id : ℕ
  pub agent_id : ℕ

pub data PortProto : Type 0 where
  both tcp udp : PortProto

pub record PortRange : Type 0 where
  pub ip : IpAddr
  pub port_start : ℕ
  pub port_end : ℕ
  pub port_proto : PortProto

-- The ranges of the fields' Rust types.
pub record ValidSession (s : AgentSessionId) : Type 0 where
  pub session_id : InWidth 8 s.session_id
  pub account_id : InWidth 8 s.account_id
  pub agent_id : InWidth 8 s.agent_id

pub record ValidPortRange (r : PortRange) : Type 0 where
  pub ip : ValidIp r.ip
  pub port_start : InWidth 2 r.port_start
  pub port_end : InWidth 2 r.port_end

-- The id byte of a protocol.
abbrev pub proto_id : PortProto → ℕ
proto_id PortProto.tcp = 1
proto_id PortProto.udp = 2
proto_id PortProto.both = 3

module _ (wire : Wire) where
  open wire use {be_bytes, read_be, write_uint, write_ip, read_ip}

  pub write_session_id : AgentSessionId → Written
  write_session_id s =
      write_uint 8 s.session_id ▷ write_uint 8 s.account_id ▷ write_uint 8 s.agent_id ▷ no_bytes

  pub read_session_id : Reader AgentSessionId
  read_session_id = do
    session_id ← read_be 8
    account_id ← read_be 8
    agent_id ← read_be 8
    pure (record { session_id = session_id; account_id = account_id; agent_id = agent_id })

  pub write_port_proto : PortProto → Written
  write_port_proto p = write_all (be_bytes 1 (proto_id p)) ▷ count 1

  port_proto_of : ℕ → Reader PortProto
  port_proto_of n =
      if n == 1
      then pure PortProto.tcp
      else if n == 2
      then pure PortProto.udp
      else if n == 3
      then pure PortProto.both
      else fail other

  pub read_port_proto : Reader PortProto
  unfolding port_proto_of
  read_port_proto = do n ← read_be 1; port_proto_of n

  pub write_port_range : PortRange → Written
  write_port_range r =
      count 4
      ▷ write_ip r.ip
      ▷ write_all (be_bytes 2 r.port_start)
      ▷ write_all (be_bytes 2 r.port_end)
      ▷ write_port_proto r.port_proto
      ▷ no_bytes

  pub read_port_range : Reader PortRange
  read_port_range = do
    ip ← read_ip
    port_start ← read_be 2
    port_end ← read_be 2
    port_proto ← read_port_proto
    pure (record { ip = ip; port_start = port_start; port_end = port_end; port_proto = port_proto })

module _ (wire : Wire) (laws : WireLaws wire) where
  -- A session id whose parts are u64 is written with its exact length and read back.
  pub session_id-RoundTrip :
      (s : AgentSessionId)
      → ValidSession s
      → RoundTrip 0 (write_session_id wire s) (read_session_id wire) s
  unfolding write_session_id read_session_id
  session_id-RoundTrip s v = then_field _ (be-RoundTrip wire laws 8 s.session_id v.session_id) (
      then_field _ (be-RoundTrip wire laws 8 s.account_id v.account_id)
        (then_field _ (be-RoundTrip wire laws 8 s.agent_id v.agent_id) (done s)))

  port_proto_of-proto_id :
      (p : PortProto) (rest : Bytes) → port_proto_of wire (proto_id p) rest ≡ ok (p, rest)
  unfolding port_proto_of pure
  port_proto_of-proto_id PortProto.both rest = refl
  port_proto_of-proto_id _ rest = refl

  proto_id-InWidth : (p : PortProto) → InWidth 1 (proto_id p)
  proto_id-InWidth PortProto.both = omega arith
  proto_id-InWidth _ = omega arith

  pub port_proto-RoundTrip :
      (p : PortProto) → RoundTrip 0 (write_port_proto wire p) (read_port_proto wire) p
  unfolding write_port_proto read_port_proto ◌▷◌ ◌>>=◌
  port_proto-RoundTrip p = record {
    bytes = wire.be_bytes 1 (proto_id p);
    reported = 1;
    wrote = rw append-nil refl;
    counted = laws.length-be_bytes 1 (proto_id p);
    reads = λ rest.
        rw (laws.read-be_bytes 1 (proto_id p) rest (proto_id-InWidth p))
          (port_proto_of-proto_id p rest);
  }

  -- A port range whose address and ports are in range is written with its exact length and read back.
  pub port_range-RoundTrip :
      (r : PortRange)
      → ValidPortRange r
      → RoundTrip 0 (write_port_range wire r) (read_port_range wire) r
  unfolding write_port_range read_port_range
  port_range-RoundTrip r v = counted_ahead 4 0 (
      then_field _ (laws.ip-RoundTrip r.ip v.ip) (
        port r.port_start 2 _ v.port_start (
          port r.port_end 0 _ v.port_end
            (then_field _ (port_proto-RoundTrip r.port_proto) (done r)))))
    where
      port :
          (p missed : ℕ) {ws : Written} (k : ℕ → Reader PortRange)
          → InWidth 2 p
          → RoundTrip missed ws (k p) r
          → RoundTrip (2 + missed) (write_all (wire.be_bytes 2 p) ▷ ws) (wire.read_be 2 >>= k) r
      port p missed k h =
          then_uncounted 2 missed _ _ k (laws.length-be_bytes 2 p)
            (λ rest. laws.read-be_bytes 2 p rest h)

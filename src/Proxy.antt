-- ===== src/Proxy.antt =====
-- packages/agent_core/src/network/proxy_protocol.rs: the PROXY protocol header, version 2, that is
-- put in front of a client's traffic, and the writing of version 1. How addresses and numbers are
-- printed is up to the standard library, and is a parameter.
pub mod Reads
pub mod RoundTrip
use playit_agent.Common.{
  ℕ, List, [], ◌∷◌, ◌++◌, ◌+◌, Option, none, some, ◌==◌, eq_bytes, if◌then◌else◌,
}
use playit_agent.Io.{Result, ok, err, panicked, other, Bytes, Reader, pure, fail, read_exact, ◌>>=◌}
use playit_agent.Wire.{Wire, InWidth}
use playit_agent.Proto.Flow.{UdpFlow}

pub data ProxyProtocolHeader : Type 0 where
  af_inet : (client_ip proxy_ip client_port proxy_port : ℕ) → ProxyProtocolHeader
  af_inet6 : (client_ip proxy_ip client_port proxy_port : ℕ) → ProxyProtocolHeader

-- The ranges of the fields' Rust types.
abbrev pub ValidHeader : ProxyProtocolHeader → Type 0
ValidHeader (ProxyProtocolHeader.af_inet c p cp pp) =
    InWidth 4 c × InWidth 4 p × InWidth 2 cp × InWidth 2 pp
ValidHeader (ProxyProtocolHeader.af_inet6 c p cp pp) =
    InWidth 16 c × InWidth 16 p × InWidth 2 cp × InWidth 2 pp

-- The header of the client whose packet came over a flow.
unfoldable pub from_udp_flow : UdpFlow → ProxyProtocolHeader
from_udp_flow (UdpFlow.v4 src dst frag extension) =
    ProxyProtocolHeader.af_inet src.ip dst.ip src.port dst.port
from_udp_flow (UdpFlow.v6 src dst extension) =
    ProxyProtocolHeader.af_inet6 src.ip dst.ip src.port dst.port

-- The standard library's `Display`.
pub record AddressText : Type 0 where
  pub of_ip4 : ℕ → Bytes
  pub of_ip6 : ℕ → Bytes
  pub of_port : ℕ → Bytes

-- "PROXY TCP", the digit, and the four fields after blanks up to the line's end.
abbrev text_line : ℕ → Bytes → Bytes → Bytes → Bytes → Bytes
text_line digit client_ip proxy_ip client_port proxy_port =
    80
    ∷ 82
    ∷ 79
    ∷ 88
    ∷ 89
    ∷ 32
    ∷ 84
    ∷ 67
    ∷ 80
    ∷ digit
    ∷ 32
    ∷ (client_ip
        ++ (32 ∷ (proxy_ip ++ (32 ∷ (client_port ++ (32 ∷ (proxy_port ++ (13 ∷ 10 ∷ []))))))))

-- `Display`, whose text is written as version 1.
unfoldable pub write_v1_tcp : AddressText → ProxyProtocolHeader → Bytes
write_v1_tcp text (ProxyProtocolHeader.af_inet c p cp pp) =
    text_line 52 (text.of_ip4 c) (text.of_ip4 p) (text.of_port cp) (text.of_port pp)
write_v1_tcp text (ProxyProtocolHeader.af_inet6 c p cp pp) =
    text_line 54 (text.of_ip6 c) (text.of_ip6 p) (text.of_port cp) (text.of_port pp)

abbrev pub proxy_protocol_v2_header : Bytes
proxy_protocol_v2_header = 13 ∷ 10 ∷ 13 ∷ 10 ∷ 0 ∷ 13 ∷ 10 ∷ 81 ∷ 85 ∷ 73 ∷ 84 ∷ 10 ∷ 33 ∷ []

abbrev pub udp_proxy_protocol_len_v6 : ℕ
udp_proxy_protocol_len_v6 = 16 + 36

abbrev pub udp_proxy_protocol_len_v4 : ℕ
udp_proxy_protocol_len_v4 = 16 + 12

module _ {ℓ} {A : Type ℓ} where
  -- The reads of a slab of fixed size are unwrapped: an error there is a panic.
  unfoldable pub unwrapped : Result (Option A × Bytes) → Reader A
  unwrapped (ok (some a, left)) rest = pure a rest
  unwrapped (ok (none, left)) rest = fail other rest
  unwrapped (err e) rest = panicked
  unwrapped panicked rest = panicked

  -- `None` for every error.
  unfoldable pub or_none : Result (A × Bytes) → Result (Option (A × Bytes))
  or_none (ok a) = ok (some a)
  or_none (err e) = ok none
  or_none panicked = panicked

module _ (wire : Wire) where
  open wire use {be_bytes, read_be}

  -- Length, addresses and ports.
  abbrev pub fields : ℕ → ℕ → ℕ → ℕ → ℕ → ℕ → Bytes
  fields w len client_ip proxy_ip client_port proxy_port =
      be_bytes 2 len
      ++ (be_bytes w client_ip
          ++ (be_bytes w proxy_ip ++ (be_bytes 2 client_port ++ be_bytes 2 proxy_port)))

  unfoldable pub write_v2_tcp : ProxyProtocolHeader → Bytes
  write_v2_tcp (ProxyProtocolHeader.af_inet c p cp pp) =
      proxy_protocol_v2_header ++ (17 ∷ fields 4 12 c p cp pp)
  write_v2_tcp (ProxyProtocolHeader.af_inet6 c p cp pp) =
      proxy_protocol_v2_header ++ (33 ∷ fields 16 36 c p cp pp)

  unfoldable pub write_v2_udp : ProxyProtocolHeader → Bytes
  write_v2_udp (ProxyProtocolHeader.af_inet c p cp pp) =
      proxy_protocol_v2_header ++ (18 ∷ fields 4 12 c p cp pp)
  write_v2_udp (ProxyProtocolHeader.af_inet6 c p cp pp) =
      proxy_protocol_v2_header ++ (34 ∷ fields 16 36 c p cp pp)

  unfoldable pub read_addresses :
      ℕ → (ℕ → ℕ → ℕ → ℕ → ProxyProtocolHeader) → Reader (Option ProxyProtocolHeader)
  read_addresses w header = do
    client_ip ← read_be w
    proxy_ip ← read_be w
    client_port ← read_be 2
    proxy_port ← read_be 2
    pure (some (header client_ip proxy_ip client_port proxy_port))

  -- The slab: the length must be the one that belongs to the kind of address.
  unfoldable pub read_fields :
      ℕ → ℕ → (ℕ → ℕ → ℕ → ℕ → ProxyProtocolHeader) → Reader (Option ProxyProtocolHeader)
  unfolding read_addresses
  read_fields w len header = do
    n ← read_be 2
    if n == len then read_addresses w header else pure none

  unfoldable pub read_slab :
      ℕ → ℕ → ℕ → (ℕ → ℕ → ℕ → ℕ → ProxyProtocolHeader) → Reader ProxyProtocolHeader
  read_slab size w len header = do slab ← read_exact size; unwrapped (read_fields w len header slab)

  unfoldable pub by_proto_type : ℕ → Reader ProxyProtocolHeader
  by_proto_type proto_type =
      if proto_type == 18
      then read_slab 14 4 12 ProxyProtocolHeader.af_inet
      else if proto_type == 34
      then read_slab 38 16 36 ProxyProtocolHeader.af_inet6
      else fail other

  unfoldable pub after_header : Bytes → Reader ProxyProtocolHeader
  after_header header =
      if eq_bytes header proxy_protocol_v2_header then read_be 1 >>= by_proto_type else fail other

  unfoldable pub read_header : Reader ProxyProtocolHeader
  read_header = read_exact 13 >>= after_header

  unfoldable pub parse_v2_udp : Bytes → Result (Option (ProxyProtocolHeader × Bytes))
  parse_v2_udp buffer = or_none (read_header buffer)

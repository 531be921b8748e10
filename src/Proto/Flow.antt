-- ===== src/Proto/Flow.antt =====
-- packages/agent_proto/src/udp_proto.rs: the footer that tells to which flow a UDP packet belongs.
pub mod Accessors
pub mod Reads
pub mod Footer
pub mod Tail
pub mod RoundTrip
use playit_agent.Common.{
  ℕ, ◌+◌, ◌-◌, max, Bool, true, false, Option, none, some, List, [], ◌∷◌, ◌++◌, length, drop, ltb,
  ◌==◌, not, if◌then◌else◌,
}
use playit_agent.Io.{Result, ok, err, panicked, Bytes, Reader, pure, ◌>>=◌}
use playit_agent.Wire.{Wire, SocketAddr, SocketAddrV4, SocketAddrV6}

abbrev pub redirect_flow_4_footer_id_v1 : ℕ
redirect_flow_4_footer_id_v1 = 0x5cb867cf788173b2

abbrev pub redirect_flow_6_footer_id_v1 : ℕ
redirect_flow_6_footer_id_v1 = 0x6668676f68616366

abbrev pub redirect_flow_4_footer_id_v2 : ℕ
redirect_flow_4_footer_id_v2 = 0x5cb867cf78817399

abbrev pub redirect_flow_6_footer_id_v2 : ℕ
redirect_flow_6_footer_id_v2 = 0x6cb667cf78817369

abbrev pub udp_channel_establish_id : ℕ
udp_channel_establish_id = 0xd01fe6830ddce781

abbrev pub ext_len : ℕ
ext_len = 18

abbrev pub ip4_len_v1 : ℕ
ip4_len_v1 = 20

abbrev pub ip4_len_v2_without_frag : ℕ
ip4_len_v2_without_frag = 20 + ext_len + 2

abbrev pub ip4_len_v2_with_frag : ℕ
ip4_len_v2_with_frag = ip4_len_v2_without_frag + 3

abbrev pub ip6_len_v1 : ℕ
ip6_len_v1 = 48

abbrev pub ip6_len_v2 : ℕ
ip6_len_v2 = ip6_len_v1 - 4 + ext_len

-- The ids are `NonZeroU64` in the source (`ValidExtension`).
pub record UdpFlowExtension : Type 0 where
  pub client_server_id : ℕ
  pub tunnel_id : ℕ
  pub port_offset : ℕ

-- The packet id is a `NonZeroU16` (`ValidFragment`).
pub record FragmentInfo : Type 0 where
  pub packet_id : ℕ
  pub frag_offset : ℕ
  pub has_more : Bool

-- `(Ipv6Addr, u16)`
pub record Ip6Port : Type 0 where
  pub ip : ℕ
  pub port : ℕ

pub data UdpFlow : Type 0 where
  v4 : SocketAddrV4 → SocketAddrV4 → Option FragmentInfo → Option UdpFlowExtension → UdpFlow
  v6 : Ip6Port → Ip6Port → Option UdpFlowExtension → UdpFlow

-- `Result<UdpFlow, Option<u64>>`, or a panic of an `unwrap`.
pub data FlowResult : Type 0 where
  parsed : UdpFlow → FlowResult
  rejected : Option ℕ → FlowResult
  aborted : FlowResult

unfoldable pub extension : UdpFlow → Option UdpFlowExtension
extension (UdpFlow.v4 src dst frag ext) = ext
extension (UdpFlow.v6 src dst ext) = ext

unfoldable pub client_server_id : UdpFlow → Option ℕ
unfolding extension
client_server_id f = elim (extension f) [ none ↦ none | some e ↦ some (e.client_server_id) ]

-- `if let Some(extension) = self.extension_mut()`
abbrev with_client_server_id : ℕ → Option UdpFlowExtension → Option UdpFlowExtension
with_client_server_id id none = none
with_client_server_id id (some e) = some (record e { client_server_id = id })

unfoldable pub update_client_server_id : ℕ → UdpFlow → UdpFlow
update_client_server_id id (UdpFlow.v4 src dst frag ext) =
    UdpFlow.v4 src dst frag (with_client_server_id id ext)
update_client_server_id id (UdpFlow.v6 src dst ext) =
    UdpFlow.v6 src dst (with_client_server_id id ext)

unfoldable pub flip : UdpFlow → UdpFlow
flip (UdpFlow.v4 src dst frag ext) = UdpFlow.v4 dst src frag ext
flip (UdpFlow.v6 src dst ext) = UdpFlow.v6 dst src ext

abbrev socket_of : Ip6Port → SocketAddr
socket_of a = SocketAddr.v6 (record { ip = a.ip; port = a.port; flowinfo = 0; scope_id = 0 })

unfoldable pub src_addr : UdpFlow → SocketAddr
src_addr (UdpFlow.v4 src dst frag ext) = SocketAddr.v4 src
src_addr (UdpFlow.v6 src dst ext) = socket_of src

unfoldable pub dst_addr : UdpFlow → SocketAddr
dst_addr (UdpFlow.v4 src dst frag ext) = SocketAddr.v4 dst
dst_addr (UdpFlow.v6 src dst ext) = socket_of dst

unfoldable pub footer_len : UdpFlow → ℕ
footer_len (UdpFlow.v4 src dst frag none) = ip4_len_v1
footer_len (UdpFlow.v4 src dst none (some e)) = ip4_len_v2_without_frag
footer_len (UdpFlow.v4 src dst (some f) (some e)) = ip4_len_v2_with_frag
footer_len (UdpFlow.v6 src dst none) = ip6_len_v1
footer_len (UdpFlow.v6 src dst (some e)) = ip6_len_v2

abbrev pub max_ip4_len : ℕ
max_ip4_len = max ip4_len_v1 (max ip4_len_v2_with_frag ip4_len_v2_without_frag)

abbrev pub max_ip6_len : ℕ
max_ip6_len = max ip6_len_v1 ip6_len_v2

-- `NonZeroU64::new(…).ok_or(None)?` around the rest of a parse.
abbrev pub nonzero : ℕ → Reader (Option UdpFlow) → Reader (Option UdpFlow)
nonzero n rest = if n == 0 then pure none else rest

abbrev pub mx_len : ℕ
mx_len = max max_ip4_len max_ip6_len

-- What `write_to` writes: the width of each integer in bytes, and its value.
abbrev pub Fields : Type 0
Fields = List (ℕ × ℕ)

abbrev extension_fields : UdpFlowExtension → Fields
extension_fields e = (8, e.client_server_id) ∷ (8, e.tunnel_id) ∷ (2, e.port_offset) ∷ []

-- Without a fragment a packet id of 0 stands in its place.
abbrev fragment_fields : Option FragmentInfo → Fields
fragment_fields none = (2, 0) ∷ []
fragment_fields (some f) =
    (1, if f.has_more then 1 else 0) ∷ (2, f.frag_offset) ∷ (2, f.packet_id) ∷ []

unfoldable pub footer_fields : UdpFlow → Fields
footer_fields (UdpFlow.v4 src dst frag none) =
    (4, src.ip)
    ∷ (4, dst.ip)
    ∷ (2, src.port)
    ∷ (2, dst.port)
    ∷ (8, redirect_flow_4_footer_id_v1)
    ∷ []
footer_fields (UdpFlow.v4 src dst frag (some e)) =
    (4, src.ip)
    ∷ (4, dst.ip)
    ∷ (2, src.port)
    ∷ (2, dst.port)
    ∷ (extension_fields e ++ (fragment_fields frag ++ ((8, redirect_flow_4_footer_id_v2) ∷ [])))
footer_fields (UdpFlow.v6 src dst none) =
    (16, src.ip)
    ∷ (16, dst.ip)
    ∷ (2, src.port)
    ∷ (2, dst.port)
    ∷ (4, 0)
    ∷ (8, redirect_flow_6_footer_id_v1)
    ∷ []
footer_fields (UdpFlow.v6 src dst (some e)) =
    (16, src.ip)
    ∷ (16, dst.ip)
    ∷ (2, src.port)
    ∷ (2, dst.port)
    ∷ (extension_fields e ++ ((8, redirect_flow_6_footer_id_v2) ∷ []))

abbrev in_front : Bytes → Result Bytes → Result Bytes
in_front bs (ok rest) = ok (bs ++ rest)
in_front bs (err e) = err e
in_front bs panicked = panicked

abbrev accepted : Result Bytes → Result (Bool × Bytes)
accepted (ok slice) = ok (true, slice)
accepted (err e) = err e
accepted panicked = panicked

module _ (wire : Wire) where
  open wire use {be_bytes, read_be}

  -- Writes to a `&mut [u8]`, each unwrapped: one that does not fit is a panic. The result is the
  -- whole slice.
  pub write_fields : Fields → Bytes → Result Bytes
  write_fields [] slice = ok slice
  write_fields ((w, n) ∷ fs) slice =
      let rest = write_fields fs (drop w slice) in
      if ltb (length slice) w then panicked else in_front (be_bytes w n) rest

  -- The Boolean that the call returns, and the slice after it.
  pub write_footer : UdpFlow → Bytes → Result (Bool × Bytes)
  unfolding footer_fields write_fields footer_len
  write_footer f slice =
      if ltb (length slice) (footer_len f)
      then ok (false, slice)
      else accepted (write_fields (footer_fields f) slice)

  pub v4_body : Reader (Option UdpFlow)
  v4_body = do
    src_ip ← read_be 4
    dst_ip ← read_be 4
    src_port ← read_be 2
    dst_port ← read_be 2
    pure (
        some (
          UdpFlow.v4 (record { ip = src_ip; port = src_port })
            (record { ip = dst_ip; port = dst_port }) none none))

  -- `if let Some(packet_id) = NonZeroU16::new(packet_id)`
  pub fragment_body : ℕ → Reader (Option FragmentInfo)
  fragment_body packet_id =
      if packet_id == 0
      then pure none
      else (read_be 1 >>= (λ has_more. read_be 2 >>= (λ frag_offset. pure (
          some (record {
            packet_id = packet_id;
            frag_offset = frag_offset;
            has_more = not (has_more == 0);
          })))))

  pub v4_extended_body : ℕ → Reader (Option UdpFlow)
  v4_extended_body packet_id = do
    src_ip ← read_be 4
    dst_ip ← read_be 4
    src_port ← read_be 2
    dst_port ← read_be 2
    client_server_id ← read_be 8
    nonzero client_server_id do
      tunnel_id ← read_be 8
      nonzero tunnel_id do
        port_offset ← read_be 2
        frag ← fragment_body packet_id
        pure (
            some (
              UdpFlow.v4 (record { ip = src_ip; port = src_port })
                (record { ip = dst_ip; port = dst_port }) frag
                (some (record {
                  client_server_id = client_server_id;
                  tunnel_id = tunnel_id;
                  port_offset = port_offset;
                }))))

  pub v6_body : Reader (Option UdpFlow)
  v6_body = do
    src_ip ← read_be 16
    dst_ip ← read_be 16
    src_port ← read_be 2
    dst_port ← read_be 2
    _ ← read_be 4
    pure (
        some (
          UdpFlow.v6 (record { ip = src_ip; port = src_port })
            (record { ip = dst_ip; port = dst_port }) none))

  pub v6_extended_body : Reader (Option UdpFlow)
  v6_extended_body = do
    src_ip ← read_be 16
    dst_ip ← read_be 16
    src_port ← read_be 2
    dst_port ← read_be 2
    client_server_id ← read_be 8
    nonzero client_server_id do
      tunnel_id ← read_be 8
      nonzero tunnel_id do
        port_offset ← read_be 2
        pure (
            some (
              UdpFlow.v6 (record { ip = src_ip; port = src_port })
                (record { ip = dst_ip; port = dst_port })
                (some (record {
                  client_server_id = client_server_id;
                  tunnel_id = tunnel_id;
                  port_offset = port_offset;
                }))))

-- The reads are unwrapped: an error is a panic.
abbrev pub unwrapped : Result (Option UdpFlow × Bytes) → FlowResult
unwrapped (ok (none, rest)) = FlowResult.rejected none
unwrapped (ok (some f, rest)) = FlowResult.parsed f
unwrapped (err e) = FlowResult.aborted
unwrapped panicked = FlowResult.aborted

-- `&slice[slice.len() - n..]`, behind the test that it does not panic.
abbrev pub tail_of : ℕ → Bytes → Bytes
tail_of n slice = drop (length slice - n) slice

-- The test for `n` bytes, and the parse of the last `n`.
pub parse_tail : ℕ → Reader (Option UdpFlow) → Bytes → FlowResult
parse_tail n body slice =
    if ltb (length slice) n then FlowResult.rejected none else unwrapped (body (tail_of n slice))

-- A number read off a slice that must hold it: `BigEndian::read_uN(…)`.
abbrev pub with_number : Result (ℕ × Bytes) → (ℕ → FlowResult) → FlowResult
with_number (ok (n, rest)) k = k n
with_number (err e) k = FlowResult.aborted
with_number panicked k = FlowResult.aborted

module _ (wire : Wire) where
  pub v4_extended_tail : Bytes → ℕ → FlowResult
  unfolding parse_tail
  v4_extended_tail slice packet_id =
      if packet_id == 0
      then parse_tail ip4_len_v2_without_frag (v4_extended_body wire packet_id) slice
      else parse_tail ip4_len_v2_with_frag (v4_extended_body wire packet_id) slice

  pub by_footer_id : Bytes → ℕ → FlowResult
  unfolding parse_tail v4_extended_tail
  by_footer_id slice footer_id =
      if footer_id == redirect_flow_4_footer_id_v1
      then parse_tail ip4_len_v1 (v4_body wire) slice
      else if footer_id == redirect_flow_4_footer_id_v2
      then (if ltb (length slice) 10
          then FlowResult.rejected none
          else with_number (wire.read_be 2 (tail_of 10 slice)) (v4_extended_tail slice))
      else if footer_id == redirect_flow_6_footer_id_v1
      then parse_tail ip6_len_v1 (v6_body wire) slice
      else if footer_id == redirect_flow_6_footer_id_v2
      then parse_tail ip6_len_v2 (v6_extended_body wire) slice
      else FlowResult.rejected (some footer_id)

  pub from_tail : Bytes → FlowResult
  unfolding by_footer_id
  from_tail slice =
      if ltb (length slice) 8
      then FlowResult.rejected none
      else with_number (wire.read_be 8 (tail_of 8 slice)) (by_footer_id slice)

-- ===== src/Proto/Flow/RoundTrip.antt =====
-- A flow is read back from the end of the packet that carries its footer.
use playit_agent.Common.{
  ℕ, ◌+◌, ◌≤◌, ◌<◌, ◌≡◌, refl, ap, ◌∙◌, Bool, true, false, not, Option, none, some, [], ◌∷◌, ◌++◌,
  length, length-append, drop, ltb, ltb-false, ◌==◌, if◌then◌else◌, arith,
}
use playit_agent.Io.{Bytes, Reader, pure, ◌>>=◌}
use playit_agent.Wire.{Wire, WireLaws, InWidth, SocketAddrV4}
use playit_agent.Proto.Flow.{
  UdpFlow, UdpFlowExtension, FragmentInfo, Ip6Port, FlowResult, Fields, footer_fields, tail_of,
  unwrapped, nonzero, parse_tail, with_number, v4_body, fragment_body, v4_extended_body, v6_body,
  v6_extended_body, v4_extended_tail, by_footer_id, from_tail, redirect_flow_4_footer_id_v1,
  redirect_flow_4_footer_id_v2, redirect_flow_6_footer_id_v1, redirect_flow_6_footer_id_v2,
}
use playit_agent.Proto.Flow.Footer.{total, joined, length-joined, tail_of-joined}

pub record ValidV4 (a : SocketAddrV4) : Type 0 where
  pub ip : InWidth 4 a.ip
  pub port : InWidth 2 a.port

pub record ValidIp6 (a : Ip6Port) : Type 0 where
  pub ip : InWidth 16 a.ip
  pub port : InWidth 2 a.port

-- The ranges of the fields, and ids that are not zero.
pub record ValidExtension (e : UdpFlowExtension) : Type 0 where
  pub client_server_id : InWidth 8 e.client_server_id
  pub tunnel_id : InWidth 8 e.tunnel_id
  pub port_offset : InWidth 2 e.port_offset
  pub client_set : 0 < e.client_server_id
  pub tunnel_set : 0 < e.tunnel_id

pub record ValidFragment (f : FragmentInfo) : Type 0 where
  pub packet_id : InWidth 2 f.packet_id
  pub frag_offset : InWidth 2 f.frag_offset
  pub packet_set : 0 < f.packet_id

-- A flow of the values that its Rust type has.
abbrev pub ValidFlow : UdpFlow → Type 0
ValidFlow (UdpFlow.v4 src dst none none) = ValidV4 src × ValidV4 dst
ValidFlow (UdpFlow.v4 src dst (some f) none) = ValidV4 src × ValidV4 dst × ValidFragment f
ValidFlow (UdpFlow.v4 src dst none (some e)) = ValidV4 src × ValidV4 dst × ValidExtension e
ValidFlow (UdpFlow.v4 src dst (some f) (some e)) =
    ValidV4 src × ValidV4 dst × ValidFragment f × ValidExtension e
ValidFlow (UdpFlow.v6 src dst none) = ValidIp6 src × ValidIp6 dst
ValidFlow (UdpFlow.v6 src dst (some e)) = ValidIp6 src × ValidIp6 dst × ValidExtension e

-- What arrives: a fragment without an extension is not sent.
abbrev pub received_flow : UdpFlow → UdpFlow
received_flow (UdpFlow.v4 src dst frag none) = UdpFlow.v4 src dst none none
received_flow (UdpFlow.v4 src dst frag (some e)) = UdpFlow.v4 src dst frag (some e)
received_flow (UdpFlow.v6 src dst ext) = UdpFlow.v6 src dst ext

positive : (n : ℕ) → 0 < n → (n == 0) ≡ false
positive n h = ground arith

flag_byte : (b : Bool) → (if b then 1 else 0) < 256
flag_byte true = omega arith
flag_byte false = omega arith

flag_read : (b : Bool) → not ((if b then 1 else 0) == 0) ≡ b
flag_read true = refl
flag_read false = refl

module _ (wire : Wire) (laws : WireLaws wire) where
  -- `r` parses the flow `f` off the fields `fs`.
  abbrev Parses : Reader (Option UdpFlow) → Fields → UdpFlow → Type 0
  Parses r fs f = unwrapped (r (joined wire fs)) ≡ FlowResult.parsed f

  next_field :
      (w n : ℕ) (k : ℕ → Reader (Option UdpFlow)) (fs : Fields) (f : UdpFlow)
      → InWidth w n
      → Parses (k n) fs f
      → Parses (wire.read_be w >>= k) ((w, n) ∷ fs) f
  unfolding joined ◌>>=◌
  next_field w n k fs f h rest = rw (laws.read-be_bytes w n (joined wire fs) h, ◌>>=◌) rest

  next_id :
      (n : ℕ) (r : Reader (Option UdpFlow)) (fs : Fields) (f : UdpFlow)
      → 0 < n
      → Parses r fs f
      → Parses (nonzero n r) fs f
  next_id n r fs f h rest = rw (positive n h) rest

  enough :
      (payload : Bytes) (fs : Fields) (n : ℕ)
      → n ≤ total fs
      → ltb (length (payload ++ joined wire fs)) n ≡ false
  enough payload fs n h =
      ltb-false _ n
        (omega (arith, length-append payload (joined wire fs), length-joined wire laws fs))

  v4_body-Parses :
      (src dst : SocketAddrV4) (fs : Fields)
      → ValidV4 src
      → ValidV4 dst
      → Parses
          (v4_body wire)
          ((4, src.ip) ∷ (4, dst.ip) ∷ (2, src.port) ∷ (2, dst.port) ∷ fs)
          (UdpFlow.v4 src dst none none)
  unfolding v4_body pure
  v4_body-Parses src dst fs s d =
      next_field 4 _ _ _ _ s.ip
        (next_field 4 _ _ _ _ d.ip (next_field 2 _ _ _ _ s.port (next_field 2 _ _ _ _ d.port refl)))

  v6_body-Parses :
      (src dst : Ip6Port) (fs : Fields)
      → ValidIp6 src
      → ValidIp6 dst
      → Parses
          (v6_body wire)
          ((16, src.ip) ∷ (16, dst.ip) ∷ (2, src.port) ∷ (2, dst.port) ∷ (4, 0) ∷ fs)
          (UdpFlow.v6 src dst none)
  unfolding v6_body pure
  v6_body-Parses src dst fs s d = next_field 16 _ _ _ _ s.ip (
      next_field 16 _ _ _ _ d.ip (
        next_field 2 _ _ _ _ s.port
          (next_field 2 _ _ _ _ d.port (next_field 4 0 _ fs _ (omega arith) refl))))

  -- The three fields of an extension, and what follows them.
  extension-Parses :
      (e : UdpFlowExtension) (k : ℕ → ℕ → ℕ → Reader (Option UdpFlow)) (fs : Fields) (f : UdpFlow)
      → ValidExtension e
      → Parses (k e.client_server_id e.tunnel_id e.port_offset) fs f
      → Parses
          (wire.read_be 8 >>= (λ c.
            nonzero c (wire.read_be 8 >>= (λ t. nonzero t (wire.read_be 2 >>= (λ o. k c t o))))))
          ((8, e.client_server_id) ∷ (8, e.tunnel_id) ∷ (2, e.port_offset) ∷ fs)
          f
  extension-Parses e k fs f v rest = next_field 8 _ _ _ f v.client_server_id (
      next_id e.client_server_id _ _ f v.client_set (
        next_field 8 _ _ _ f v.tunnel_id
          (next_id e.tunnel_id _ _ f v.tunnel_set (next_field 2 _ _ _ f v.port_offset rest))))

  v6_extended_body-Parses :
      (src dst : Ip6Port) (e : UdpFlowExtension) (fs : Fields)
      → ValidIp6 src
      → ValidIp6 dst
      → ValidExtension e
      → Parses
          (v6_extended_body wire)
          ((16, src.ip)
            ∷ (16, dst.ip)
            ∷ (2, src.port)
            ∷ (2, dst.port)
            ∷ (8, e.client_server_id)
            ∷ (8, e.tunnel_id)
            ∷ (2, e.port_offset)
            ∷ fs)
          (UdpFlow.v6 src dst (some e))
  unfolding v6_extended_body pure
  v6_extended_body-Parses src dst e fs s d x = next_field 16 _ _ _ _ s.ip (
      next_field 16 _ _ _ _ d.ip (
        next_field 2 _ _ _ _ s.port
          (next_field 2 _ _ _ _ d.port (extension-Parses e _ fs _ x refl))))

  v4_plain_body-Parses :
      (src dst : SocketAddrV4) (e : UdpFlowExtension) (fs : Fields)
      → ValidV4 src
      → ValidV4 dst
      → ValidExtension e
      → Parses
          (v4_extended_body wire 0)
          ((4, src.ip)
            ∷ (4, dst.ip)
            ∷ (2, src.port)
            ∷ (2, dst.port)
            ∷ (8, e.client_server_id)
            ∷ (8, e.tunnel_id)
            ∷ (2, e.port_offset)
            ∷ fs)
          (UdpFlow.v4 src dst none (some e))
  unfolding v4_extended_body fragment_body pure ◌>>=◌
  v4_plain_body-Parses src dst e fs s d x = next_field 4 _ _ _ _ s.ip (
      next_field 4 _ _ _ _ d.ip (
        next_field 2 _ _ _ _ s.port
          (next_field 2 _ _ _ _ d.port (extension-Parses e _ fs _ x refl))))

  -- The fields of a fragment, and what follows them.
  fragment-Parses :
      (g : FragmentInfo) (k : Option FragmentInfo → Reader (Option UdpFlow)) (fs : Fields)
      (f : UdpFlow)
      → ValidFragment g
      → Parses (k (some g)) fs f
      → Parses
          (fragment_body wire g.packet_id >>= k)
          ((1, if g.has_more then 1 else 0) ∷ (2, g.frag_offset) ∷ fs)
          f
  unfolding fragment_body ◌>>=◌ pure joined
  fragment-Parses g k fs f v rest =
      let flag : ℕ = if g.has_more then 1 else 0 in
      let more = joined wire ((2, g.frag_offset) ∷ fs) in
      rw (positive g.packet_id v.packet_set) (
        rw (laws.read-be_bytes 1 flag more (flag_byte g.has_more), ◌>>=◌)
          (rw (laws.read-be_bytes 2 g.frag_offset (joined wire fs) v.frag_offset, ◌>>=◌)
            (rw (flag_read g.has_more) rest)))

  v4_fragment_body-Parses :
      (src dst : SocketAddrV4) (g : FragmentInfo) (e : UdpFlowExtension) (fs : Fields)
      → ValidV4 src
      → ValidV4 dst
      → ValidFragment g
      → ValidExtension e
      → Parses
          (v4_extended_body wire g.packet_id)
          ((4, src.ip)
            ∷ (4, dst.ip)
            ∷ (2, src.port)
            ∷ (2, dst.port)
            ∷ (8, e.client_server_id)
            ∷ (8, e.tunnel_id)
            ∷ (2, e.port_offset)
            ∷ (1, if g.has_more then 1 else 0)
            ∷ (2, g.frag_offset)
            ∷ fs)
          (UdpFlow.v4 src dst (some g) (some e))
  unfolding v4_extended_body pure
  v4_fragment_body-Parses src dst g e fs s d v x = next_field 4 _ _ _ _ s.ip (
      next_field 4 _ _ _ _ d.ip (
        next_field 2 _ _ _ _ s.port (
          next_field 2 _ _ _ _ d.port
            (extension-Parses e _ _ _ x (fragment-Parses g _ fs _ v refl)))))

  -- The last `n` bytes are parsed, if the last fields have that length and are parsed.
  parse_tail-Parses :
      (n : ℕ) (body : Reader (Option UdpFlow)) (payload : Bytes) (fs : Fields) (f : UdpFlow)
      → total fs ≡ n
      → Parses body fs f
      → parse_tail n body (payload ++ joined wire fs) ≡ FlowResult.parsed f
  unfolding parse_tail
  parse_tail-Parses n body payload fs f e parses = rw (enough payload fs n (omega arith)) (
      ap (λ (bs : Bytes). unwrapped (body bs)) (tail_of-joined wire laws 0 n payload fs e) ∙ parses)

  -- The last field but `k` is a number that is read off the end.
  number_at :
      (k w v n : ℕ) (payload : Bytes) (fs gs : Fields) (cont : ℕ → FlowResult)
      → InWidth w v
      → drop k fs ≡ (w, v) ∷ gs
      → w + total gs ≡ n
      → with_number (wire.read_be w (tail_of n (payload ++ joined wire fs))) cont ≡ cont v
  unfolding joined total
  number_at k w v n payload fs gs cont h e size =
      ap (λ (bs : Bytes). with_number (wire.read_be w bs) cont)
        (tail_of-joined wire laws k n payload fs (ap total e ∙ size) ∙ ap (joined wire) e)
      ∙ rw (laws.read-be_bytes w v (joined wire gs) h) refl

  plain_v4 :
      (src dst : SocketAddrV4) (frag : Option FragmentInfo) (payload : Bytes)
      → ValidV4 src
      → ValidV4 dst
      → from_tail wire (payload ++ joined wire (footer_fields (UdpFlow.v4 src dst frag none)))
        ≡ FlowResult.parsed (UdpFlow.v4 src dst none none)
  unfolding from_tail by_footer_id footer_fields total
  plain_v4 src dst frag payload s d =
      let fs : Fields = footer_fields (UdpFlow.v4 src dst frag none) in
      rw (enough payload fs 8 (omega arith)) (
        number_at 4 8 redirect_flow_4_footer_id_v1 8 payload fs [] _ (omega arith) refl refl
        ∙ parse_tail-Parses _ (v4_body wire) payload fs _ refl
            (v4_body-Parses src dst ((8, redirect_flow_4_footer_id_v1) ∷ []) s d))

  -- A flow whose fields are in the ranges of their Rust types (`ValidFlow`), appended to any payload,
  -- is read back from the end of the packet, except that a fragment without an extension is lost:
  -- such a flow is sent in the first format.
  pub from_tail-footer :
      (f : UdpFlow) (payload : Bytes)
      → ValidFlow f
      → from_tail wire (payload ++ joined wire (footer_fields f))
        ≡ FlowResult.parsed (received_flow f)
  unfolding from_tail by_footer_id v4_extended_tail footer_fields total
  from_tail-footer (UdpFlow.v4 src dst none none) payload (s, d) = plain_v4 src dst none payload s d
  from_tail-footer (UdpFlow.v4 src dst (some g) none) payload (s, d, v) =
      plain_v4 src dst (some g) payload s d
  from_tail-footer (UdpFlow.v4 src dst none (some e)) payload (s, d, x) =
      let fs : Fields = footer_fields (UdpFlow.v4 src dst none (some e)) in
      rw (enough payload fs 8 (omega arith)) (
        number_at 8 8 redirect_flow_4_footer_id_v2 8 payload fs [] _ (omega arith) refl refl
        ∙ rw (enough payload fs 10 (omega arith)) (
            number_at 7 2 0 10 payload fs _ _ (omega arith) refl refl
            ∙ parse_tail-Parses _ (v4_extended_body wire 0) payload fs _ refl (
                v4_plain_body-Parses src dst e ((2, 0) ∷ (8, redirect_flow_4_footer_id_v2) ∷ []) s d
                  x)))
  from_tail-footer (UdpFlow.v4 src dst (some g) (some e)) payload (s, d, v, x) =
      let fs : Fields = footer_fields (UdpFlow.v4 src dst (some g) (some e)) in
      rw (enough payload fs 8 (omega arith)) (
        number_at 10 8 redirect_flow_4_footer_id_v2 8 payload fs [] _ (omega arith) refl refl
        ∙ rw (enough payload fs 10 (omega arith)) (
            number_at 9 2 g.packet_id 10 payload fs _ _ v.packet_id refl refl
            ∙ rw (positive g.packet_id v.packet_set) (
                parse_tail-Parses _ (v4_extended_body wire g.packet_id) payload fs _ refl (
                  v4_fragment_body-Parses src dst g e
                    ((2, g.packet_id) ∷ (8, redirect_flow_4_footer_id_v2) ∷ []) s d v x))))
  from_tail-footer (UdpFlow.v6 src dst none) payload (s, d) =
      let fs : Fields = footer_fields (UdpFlow.v6 src dst none) in
      rw (enough payload fs 8 (omega arith)) (
        number_at 5 8 redirect_flow_6_footer_id_v1 8 payload fs [] _ (omega arith) refl refl
        ∙ parse_tail-Parses _ (v6_body wire) payload fs _ refl
            (v6_body-Parses src dst ((8, redirect_flow_6_footer_id_v1) ∷ []) s d))
  from_tail-footer (UdpFlow.v6 src dst (some e)) payload (s, d, x) =
      let fs : Fields = footer_fields (UdpFlow.v6 src dst (some e)) in
      rw (enough payload fs 8 (omega arith)) (
        number_at 7 8 redirect_flow_6_footer_id_v2 8 payload fs [] _ (omega arith) refl refl
        ∙ parse_tail-Parses _ (v6_extended_body wire) payload fs _ refl
            (v6_extended_body-Parses src dst e ((8, redirect_flow_6_footer_id_v2) ∷ []) s d x))

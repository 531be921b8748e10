-- ===== src/Udp/Channel/Transfer.antt =====
-- What one end sends, the other end takes apart again; and nothing that arrives breaks the task.
use playit_agent.Common.{
  Option-cases, ℕ, ◌+◌, ◌-◌, ◌≤◌, ◌≡◌, ◌≢◌, refl, sym, ap, ◌∙◌, inl, inr, Bool-cases, false, none,
  some, ◌++◌, append_assoc, length, length-append, length-take, length-drop, take, drop,
  take-append, take_all, ltb, ltb-false, ◌==◌, if◌then◌else◌, arith,
}
use playit_agent.Io.{Bytes}
use playit_agent.Wire.{Wire, WireLaws, SocketAddr}
use playit_agent.Wire.Addresses.{eq_addr, eq_addr_refl}
use playit_agent.Proto.Flow.{
  UdpFlow, FlowResult, footer_len, footer_fields, from_tail, udp_channel_establish_id,
}
use playit_agent.Proto.Flow.Footer.{joined, length-joined, total-footer_fields, write_footer_lem}
use playit_agent.Proto.Flow.Tail.{Fits, from_tail-Fits}
use playit_agent.Proto.Flow.RoundTrip.{ValidFlow, received_flow, from_tail-footer}
use playit_agent.Proto.Response.{UdpChannelDetails}
use playit_agent.Udp.Packets.{Packet, ValidPacket, packet_len, as_ref, set_len, set_len_fits}
use playit_agent.Udp.Channel.{
  Shared, SendTask, Sent, Received, append_footer, deliver, by_flow, send, parse_received, receive,
}

footer_len-received_flow : (f : UdpFlow) → footer_len (received_flow f) ≡ footer_len f
unfolding footer_len
footer_len-received_flow (UdpFlow.v4 src dst none none) = refl
footer_len-received_flow (UdpFlow.v4 src dst (some g) none) = refl
footer_len-received_flow (UdpFlow.v4 src dst none (some e)) = refl
footer_len-received_flow (UdpFlow.v4 src dst (some g) (some e)) = refl
footer_len-received_flow (UdpFlow.v6 src dst ext) = refl

-- The bytes of a flow's footer.
module _ (wire : Wire) where
  abbrev pub footer : UdpFlow → Bytes
  footer f = joined wire (footer_fields f)

module _ (wire : Wire) (laws : WireLaws wire) where
  pub length-footer : (f : UdpFlow) → length (footer wire f) ≡ footer_len f
  length-footer f = length-joined wire laws (footer_fields f) ∙ total-footer_fields f

  -- While there is a session, a packet whose buffer has room for the flow's footer behind it is sent
  -- to the session's address, the footer appended.
  pub send_lem :
      (t : SendTask) (session : UdpChannelDetails) (f : UdpFlow) (p : Packet)
      → t.session ≡ some session
      → ValidPacket p
      → p.len + footer_len f ≤ packet_len
      → send wire t f p
        ≡ Sent.sent (record { payload = as_ref p ++ footer wire f; target = session.tunnel_addr })
  unfolding send append_footer as_ref
  send_lem t session f p e v room =
      let rest : Bytes = drop p.len p.buffer in
      let left : Bytes = drop (footer_len f) rest in
      let body : Bytes = take p.len p.buffer in
      let size : length (body ++ footer wire f) ≡ p.len + footer_len f = omega (
        arith,
        length-append body (footer wire f),
        length-take p.len p.buffer,
        length-footer f,
        v.buffer,
        v.len,
      ) in
      let fits : ltb (length rest) (footer_len f) ≡ false =
        ltb-false _ _ (omega (arith, length-drop p.len p.buffer, v.buffer)) in
      rw (e, send)
        (rw (write_footer_lem wire laws f rest) (
          rw fits (
            rw (set_len_fits (record p { buffer = body ++ (footer wire f ++ left) }) _ room) (
              ap (λ (bs : Bytes). Sent.sent (record { payload = bs; target = session.tunnel_addr }))
                (ap (take (p.len + footer_len f)) (sym (append_assoc body (footer wire f) left))
                  ∙ take-append _ (body ++ footer wire f) left size)))))

  -- The packet as it lies in the buffer.
  abbrev held : Packet → Bytes → Packet
  held p d = record { buffer = d ++ drop (length d) p.buffer; len = length d }

  as_ref-held : (p : Packet) (d : Bytes) → as_ref (held p d) ≡ d
  unfolding as_ref
  as_ref-held p d = take-append (length d) d (drop (length d) p.buffer) refl

  -- A datagram from the session's address that fits the buffer is parsed as it is.
  receive_whole :
      (shared : Shared) (addr : SocketAddr) (p : Packet) (d : Bytes)
      → shared.session_tunnel_addr ≡ some addr
      → length d ≤ packet_len
      → receive wire shared p d addr ≡ by_flow (length d) (held p d) (from_tail wire d)
  unfolding receive parse_received
  receive_whole shared addr p d e h =
      let whole : take packet_len d ≡ d = take_all packet_len d h in
      rw (e, eq_addr_refl addr)
        (ap
            (λ (got : Bytes).
              parse_received wire (length got)
                (set_len (record p { buffer = got ++ drop (length got) p.buffer }) (length got)))
            whole
          ∙ ap (parse_received wire (length d))
              (set_len_fits (record p { buffer = d ++ drop (length d) p.buffer }) (length d) h)
          ∙ ap (λ (bs : Bytes). by_flow (length d) (held p d) (from_tail wire bs))
              (as_ref-held p d))

  -- A datagram from the session's address that fits the buffer and is a payload followed by the
  -- footer of a valid flow is delivered under that flow (less a fragment without extension), and the
  -- packet that is delivered is the payload.
  pub receive-footer :
      (shared : Shared) (addr : SocketAddr) (p : Packet) (payload : Bytes) (f : UdpFlow)
      → shared.session_tunnel_addr ≡ some addr
      → ValidFlow f
      → length payload + footer_len f ≤ packet_len
      → (q : Packet) × (receive wire shared p (payload ++ footer wire f) addr
          ≡ Received.delivered (received_flow f) q)
        × (as_ref q ≡ payload)
  unfolding by_flow deliver as_ref
  receive-footer shared addr p payload f e v room =
      let d : Bytes = payload ++ footer wire f in
      let size : length d ≡ length payload + footer_len f =
        omega (arith, length-append payload (footer wire f), length-footer f) in
      let same : footer_len (received_flow f) ≡ footer_len f = footer_len-received_flow f in
      let len : ℕ = length d - footer_len (received_flow f) in
      let cut : len ≡ length payload = omega arith in
      let rest : Bytes = drop (length d) p.buffer in
      (
        record { buffer = d ++ rest; len = len },
        receive_whole shared addr p d e (omega arith)
            ∙ ap (by_flow (length d) (held p d)) (from_tail-footer wire laws f payload v)
            ∙ rw (ltb-false (length d) (footer_len (received_flow f)) (omega arith))
                (rw (set_len_fits (held p d) len (omega arith)) refl),
        ap (take len) (append_assoc payload (footer wire f) rest)
            ∙ take-append len payload (footer wire f ++ rest) (sym cut),
      )

  by_flow-ne-aborted :
      (d : Bytes) (p : Packet) (r : FlowResult)
      → length d ≤ packet_len
      → Fits d r
      → by_flow (length d) p r ≢ Received.aborted
  unfolding by_flow deliver
  by_flow-ne-aborted d p (FlowResult.parsed f) h fits e =
      let given : by_flow (length d) p (FlowResult.parsed f)
          ≡ Received.delivered f (record p { len = length d - footer_len f }) =
        rw (ltb-false (length d) (footer_len f) fits)
          (rw (set_len_fits p (length d - footer_len f) (omega arith)) refl) in
      cc (given, e)
  by_flow-ne-aborted d p (FlowResult.rejected none) h fits e = cc e
  by_flow-ne-aborted d p (FlowResult.rejected (some id)) h fits e =
      elim (Bool-cases (id == udp_channel_establish_id)) [
        | inl establish ↦
            let given : by_flow (length d) p (FlowResult.rejected (some id))
                ≡ Received.established =
              rw establish refl in
            cc (given, e)
        | inr other ↦
            let given : by_flow (length d) p (FlowResult.rejected (some id))
                ≡ Received.invalid_footer_id =
              rw other refl in
            cc (given, e)
      ]
  by_flow-ne-aborted d p FlowResult.aborted h fits e = fits

  -- A datagram from the session's address, cut to the buffer.
  receive_cut :
      (shared : Shared) (addr source : SocketAddr) (p : Packet) (datagram : Bytes)
      → shared.session_tunnel_addr ≡ some addr
      → receive wire shared p datagram source ≡ (
          if eq_addr addr source
          then by_flow
              (length (take packet_len datagram))
              (held p (take packet_len datagram))
              (from_tail wire (take packet_len datagram))
          else Received.source_no_match)
  unfolding receive parse_received
  receive_cut shared addr source p datagram e =
      let d : Bytes = take packet_len datagram in
      let h : length d ≤ packet_len = omega (arith, length-take packet_len datagram) in
      rw e (
        ap (λ (r : Received). if eq_addr addr source then r else Received.source_no_match)
          (ap (parse_received wire (length d))
              (set_len_fits (record p { buffer = d ++ drop (length d) p.buffer }) (length d) h)
            ∙ ap (λ (bs : Bytes). by_flow (length d) (held p d) (from_tail wire bs))
                (as_ref-held p d)))

  receive-no_session :
      (shared : Shared) (p : Packet) (datagram : Bytes) (source : SocketAddr)
      → shared.session_tunnel_addr ≡ none
      → receive wire shared p datagram source ≡ Received.no_session
  unfolding receive
  receive-no_session shared p datagram source e = rw e refl

  -- Whatever arrives, from whatever address, the receive task does not panic.
  pub receive-ne-aborted :
      (shared : Shared) (p : Packet) (datagram : Bytes) (source : SocketAddr)
      → receive wire shared p datagram source ≢ Received.aborted
  receive-ne-aborted shared p datagram source h = elim (Option-cases shared.session_tunnel_addr) [
    | inl e ↦
        let given : receive wire shared p datagram source ≡ Received.no_session =
          receive-no_session shared p datagram source e in
        cc (given, h)
    | inr (addr, e) ↦
        let d : Bytes = take packet_len datagram in
        let fits : length d ≤ packet_len = omega (arith, length-take packet_len datagram) in
        let given : _ = receive_cut shared addr source p datagram e in
        elim (Bool-cases (eq_addr addr source)) [
          | inl same ↦
              by_flow-ne-aborted d (held p d) (from_tail wire d) fits (from_tail-Fits wire laws d)
                (cc (given, same, h))
          | inr other ↦ cc (given, other, h)
        ]
  ]

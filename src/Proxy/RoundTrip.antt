-- ===== src/Proxy/RoundTrip.antt =====
-- A header that is written in front of a packet is parsed back.
use playit_agent.Common.{
  ℕ, ◌+◌, ◌<◌, ◌≡◌, refl, sym, ap, ◌∙◌, [], ◌∷◌, ◌++◌, append-nil, none, some, length,
  length-append, ==_iff, arith,
}
use playit_agent.Io.{Result, ok, Bytes, Reader, continue, pure, fail, ◌>>=◌}
use playit_agent.Io.RoundTrip.{read_exact-append}
use playit_agent.Wire.{Wire, WireLaws, InWidth}
use playit_agent.Proxy.{
  ProxyProtocolHeader, ValidHeader, proxy_protocol_v2_header, udp_proxy_protocol_len_v4,
  udp_proxy_protocol_len_v6, unwrapped, or_none, fields, write_v2_tcp, write_v2_udp, read_addresses,
  read_fields, read_slab, by_proto_type, after_header, read_header, parse_v2_udp,
}

-- The length that is announced for packets of a flow.
abbrev pub udp_proxy_protocol_len : ProxyProtocolHeader → ℕ
udp_proxy_protocol_len (ProxyProtocolHeader.af_inet c p cp pp) = udp_proxy_protocol_len_v4
udp_proxy_protocol_len (ProxyProtocolHeader.af_inet6 c p cp pp) = udp_proxy_protocol_len_v6

module _ (wire : Wire) (laws : WireLaws wire) where
  open wire use {be_bytes, read_be}

  length-fields :
      (w len c p cp pp : ℕ) → length (fields wire w len c p cp pp) ≡ 2 + (w + (w + (2 + 2)))
  length-fields w len c p cp pp =
      let e1 : _ = laws.length-be_bytes 2 pp in
      omega (
        arith,
        length-append (be_bytes 2 len)
            (be_bytes w c ++ (be_bytes w p ++ (be_bytes 2 cp ++ be_bytes 2 pp))),
        length-append (be_bytes w c) (be_bytes w p ++ (be_bytes 2 cp ++ be_bytes 2 pp)),
        length-append (be_bytes w p) (be_bytes 2 cp ++ be_bytes 2 pp),
        length-append (be_bytes 2 cp) (be_bytes 2 pp),
        laws.length-be_bytes 2 len,
        laws.length-be_bytes w c,
        laws.length-be_bytes w p,
        laws.length-be_bytes 2 cp,
      )

  -- The header of a UDP packet is 28 bytes long for IPv4 and 52 for IPv6, the constants that the
  -- code reserves for it.
  pub length-write_v2_udp :
      (h : ProxyProtocolHeader) → length (write_v2_udp wire h) ≡ udp_proxy_protocol_len h
  unfolding write_v2_udp
  length-write_v2_udp (ProxyProtocolHeader.af_inet c p cp pp) =
      omega (arith, length-fields 4 12 c p cp pp)
  length-write_v2_udp (ProxyProtocolHeader.af_inet6 c p cp pp) =
      omega (arith, length-fields 16 36 c p cp pp)

  read_field :
      {A : Type 0} (w n : ℕ) (k : ℕ → Reader A) (more : Bytes) (r : Result (A × Bytes))
      → InWidth w n
      → k n more ≡ r
      → (read_be w >>= k) (be_bytes w n ++ more) ≡ r
  unfolding ◌>>=◌
  read_field w n k more r valid e = rw (laws.read-be_bytes w n more valid, ◌>>=◌) e

  read_fields-fields :
      (w len c p cp pp : ℕ) (header : ℕ → ℕ → ℕ → ℕ → ProxyProtocolHeader)
      → InWidth 2 len
      → InWidth w c × InWidth w p × InWidth 2 cp × InWidth 2 pp
      → read_fields wire w len header (fields wire w len c p cp pp)
        ≡ ok (some (header c p cp pp), [])
  unfolding read_fields read_addresses pure
  read_fields-fields w len c p cp pp header small (valid_c, valid_p, valid_cp, valid_pp) =
      ap
        (λ (last : Bytes).
          read_fields wire w len header
            (be_bytes 2 len ++ (be_bytes w c ++ (be_bytes w p ++ (be_bytes 2 cp ++ last)))))
        (sym (append-nil (be_bytes 2 pp)))
      ∙ read_field 2 len _ _ _ small (
          rw ((==_iff len len).1 refl) (
            read_field w c _ _ _ valid_c (
              read_field w p _ _ _ valid_p
                (read_field 2 cp _ _ _ valid_cp (read_field 2 pp _ [] _ valid_pp refl)))))

  read_slab-fields :
      (size w len c p cp pp : ℕ) (header : ℕ → ℕ → ℕ → ℕ → ProxyProtocolHeader) (rest : Bytes)
      → size ≡ 2 + (w + (w + (2 + 2)))
      → InWidth 2 len
      → InWidth w c × InWidth w p × InWidth 2 cp × InWidth 2 pp
      → read_slab wire size w len header (fields wire w len c p cp pp ++ rest)
        ≡ ok (header c p cp pp, rest)
  unfolding read_slab ◌>>=◌ unwrapped pure
  read_slab-fields size w len c p cp pp header rest e small valid =
      let slab : Bytes = fields wire w len c p cp pp in
      rw (read_exact-append size slab rest (length-fields w len c p cp pp ∙ sym e), ◌>>=◌)
        (ap (λ (r : _). unwrapped r rest) (read_fields-fields w len c p cp pp header small valid))

  -- The signature and the byte after it.
  read_header-append :
      (proto_type : ℕ) (more : Bytes)
      → proto_type < 256
      → read_header wire (proxy_protocol_v2_header ++ (proto_type ∷ more))
        ≡ by_proto_type wire proto_type more
  unfolding read_header after_header ◌>>=◌
  read_header-append proto_type more h =
      ap (λ (r : _). continue r (after_header wire))
        (read_exact-append 13 proxy_protocol_v2_header (proto_type ∷ more) refl)
      ∙ ap (λ (r : _). continue r (by_proto_type wire)) (laws.read-byte proto_type more h)

  -- A header with fields in range (`ValidHeader`) is parsed back from what is written, whatever follows it, and what follows is left.
  pub parse_v2_udp-write :
      (h : ProxyProtocolHeader) (rest : Bytes)
      → ValidHeader h
      → parse_v2_udp wire (write_v2_udp wire h ++ rest) ≡ ok (some (h, rest))
  unfolding parse_v2_udp write_v2_udp by_proto_type or_none
  parse_v2_udp-write (ProxyProtocolHeader.af_inet c p cp pp) rest valid = ap or_none (
      read_header-append 18 (fields wire 4 12 c p cp pp ++ rest) (omega arith)
      ∙ read_slab-fields 14 4 12 c p cp pp ProxyProtocolHeader.af_inet rest refl (omega arith)
          valid)
  parse_v2_udp-write (ProxyProtocolHeader.af_inet6 c p cp pp) rest valid = ap or_none (
      read_header-append 34 (fields wire 16 36 c p cp pp ++ rest) (omega arith)
      ∙ read_slab-fields 38 16 36 c p cp pp ProxyProtocolHeader.af_inet6 rest refl (omega arith)
          valid)

  -- A header that was written for TCP, with whatever follows it, is turned down by the UDP parser.
  pub parse_v2_udp-write_v2_tcp :
      (h : ProxyProtocolHeader) (rest : Bytes)
      → parse_v2_udp wire (write_v2_tcp wire h ++ rest) ≡ ok none
  unfolding parse_v2_udp write_v2_tcp by_proto_type or_none fail
  parse_v2_udp-write_v2_tcp (ProxyProtocolHeader.af_inet c p cp pp) rest =
      ap or_none (read_header-append 17 (fields wire 4 12 c p cp pp ++ rest) (omega arith))
  parse_v2_udp-write_v2_tcp (ProxyProtocolHeader.af_inet6 c p cp pp) rest =
      ap or_none (read_header-append 33 (fields wire 16 36 c p cp pp ++ rest) (omega arith))

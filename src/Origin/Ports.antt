-- ===== src/Origin/Ports.antt =====
-- Which ports of a tunnel are served, and where.
use playit_agent.Common.{
  ℕ, ◌+◌, ◌≤◌, ◌<◌, ◌≡◌, ◌↔◌, sym, ap, ◌∙◌, inl, inr, Bool-cases, none, some, ltb, leb, ltb→lt,
  ltb→ge, leb→le, leb→gt, if◌then◌else◌, arith,
}
use playit_agent.Wire.{IpAddr, SocketAddr}
use playit_agent.Origin.{
  Dns, OriginIp, OriginTarget, OriginResource, address_of, resolve, resolve_target, resolve_local,
}

-- The resolution of an offset, its tests written out.
resolve_port :
    (dns : Dns) (r : OriginResource) (ip : IpAddr) (local_port port_offset : ℕ)
    → r.target ≡ OriginTarget.port (OriginIp.ip_address ip) local_port
    → 0 < r.port_count
    → resolve_local dns r port_offset ≡ (
        if leb r.port_count port_offset
        then none
        else if ltb 65_535 (local_port + port_offset)
        then none
        else some (address_of ip (local_port + port_offset)))
unfolding resolve_local resolve
resolve_port dns r ip local_port off e counted =
    ap (λ (t : OriginTarget). resolve_target dns t r.port_count off) e
    ∙ counted_ports dns ip local_port off r.port_count counted
  where
    counted_ports :
        (dns : Dns) (ip : IpAddr) (local_port off count : ℕ)
        → 0 < count
        → resolve_target dns (OriginTarget.port (OriginIp.ip_address ip) local_port) count off ≡ (
            if leb count off
            then none
            else if ltb 65_535 (local_port + off)
            then none
            else some (address_of ip (local_port + off)))
    counted_ports dns ip local_port off count h = ground arith

-- For a tunnel to a port of an IP address with `port_count` ports, not 0, an offset resolves exactly
-- if it is below `port_count` and the port does not pass 65535, and it resolves to the port at that
-- offset.
pub resolve_local_iff :
    (dns : Dns) (r : OriginResource) (ip : IpAddr) (local_port port_offset : ℕ) (addr : SocketAddr)
    → r.target ≡ OriginTarget.port (OriginIp.ip_address ip) local_port
    → 0 < r.port_count
    → (resolve_local dns r port_offset ≡ some addr) ↔ (
        (port_offset < r.port_count)
        × (local_port + port_offset ≤ 65_535)
        × (addr ≡ address_of ip (local_port + port_offset)))
resolve_local_iff dns r ip local_port off addr e counted =
    rw (resolve_port dns r ip local_port off e counted) (elim (Bool-cases (leb r.port_count off)) [
      | inl out ↦ rw out (λ h. cc h, λ h. absurd (omega (arith, leb→le _ _ out)))
      | inr within ↦ elim (Bool-cases (ltb 65_535 (local_port + off))) [
        | inl past ↦ rw (within, past) (λ h. cc h, λ h. absurd (omega (arith, ltb→lt _ _ past)))
        | inr fits ↦
            rw (within, fits)
              (λ h. (leb→gt _ _ within, ltb→ge _ _ fits, cc h), λ h. ap some (sym h.2))
      ]
    ])

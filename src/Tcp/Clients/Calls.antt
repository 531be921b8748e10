-- ===== src/Tcp/Clients/Calls.antt =====
-- The calls of a claiming task and the header it writes, described apart from the task.
use mathlib.Core.Path.{subst}
use playit_agent.Common.{
  ◌≡◌, refl, sym, ◌⊎◌, inl, inr, Bool, true, false, ◌&&◌, Option, none, some, none_some,
  some_injective, [],
}
use playit_agent.Io.{Bytes}
use playit_agent.Wire.{Wire, SocketAddr, IpAddr}
use playit_agent.Lan.{addr_ip, addr_port}
use playit_agent.Origin.{Dns, ProxyProtocol}
use playit_agent.Proxy.{AddressText, ProxyProtocolHeader, write_v1_tcp, write_v2_tcp}
use playit_agent.Tcp.Clients.{
  Awaited, Outside, is_done, tcp_header, header_bytes, header_sent, all_done,
}

-- The addresses and ports of a header are the client's, and those of the tunnel that it came to.
abbrev pub HeaderOf : ProxyProtocolHeader → SocketAddr → SocketAddr → Type 0
HeaderOf (ProxyProtocolHeader.af_inet client_ip proxy_ip client_port proxy_port) peer tunn =
    (addr_ip peer ≡ IpAddr.v4 client_ip)
    × (addr_port peer ≡ client_port)
    × (addr_ip tunn ≡ IpAddr.v4 proxy_ip)
    × (addr_port tunn ≡ proxy_port)
HeaderOf (ProxyProtocolHeader.af_inet6 client_ip proxy_ip client_port proxy_port) peer tunn =
    (addr_ip peer ≡ IpAddr.v6 client_ip)
    × (addr_port peer ≡ client_port)
    × (addr_ip tunn ≡ IpAddr.v6 proxy_ip)
    × (addr_port tunn ≡ proxy_port)

pub tcp_header-HeaderOf :
    (peer tunn : SocketAddr) (header : ProxyProtocolHeader)
    → tcp_header peer tunn ≡ some header
    → HeaderOf header peer tunn
unfolding tcp_header
tcp_header-HeaderOf (SocketAddr.v4 peer) (SocketAddr.v4 tunn) header h =
    subst (λ (x : ProxyProtocolHeader). HeaderOf x (SocketAddr.v4 peer) (SocketAddr.v4 tunn))
      (some_injective h) (refl, refl, refl, refl)
tcp_header-HeaderOf (SocketAddr.v6 peer) (SocketAddr.v6 tunn) header h =
    subst (λ (x : ProxyProtocolHeader). HeaderOf x (SocketAddr.v6 peer) (SocketAddr.v6 tunn))
      (some_injective h) (refl, refl, refl, refl)
tcp_header-HeaderOf (SocketAddr.v4 peer) (SocketAddr.v6 tunn) header h = absurd (none_some h)
tcp_header-HeaderOf (SocketAddr.v6 peer) (SocketAddr.v4 tunn) header h = absurd (none_some h)

-- Every call that the task waits for came to its end; the header's, where there is one to write.
pub record AllDone (o : Outside) (protocol : Option ProxyProtocol) : Type 0 where
  connect : o.connect ≡ Awaited.done
  send_token : o.send_token ≡ Awaited.done
  confirm : o.confirm ≡ Awaited.done
  origin_connect : o.origin_connect ≡ Awaited.done
  send_header : (protocol ≡ none) ⊎ (o.send_header ≡ Awaited.done)

is_done-done : (a : Awaited) → is_done a ≡ true → a ≡ Awaited.done
is_done-done Awaited.done h = refl
is_done-done Awaited.timed_out h = cc h
is_done-done Awaited.failed h = cc h
is_done-done Awaited.cancelled h = cc h

both : (a b : Bool) → (a && b) ≡ true → (a ≡ true) × (b ≡ true)
both true b h = (refl, h)
both false b h = cc h

module _ (wire : Wire) (text : AddressText) (dns : Dns) where
  header_sent-done :
      (protocol : Option ProxyProtocol) (sent : Awaited)
      → header_sent wire text dns protocol sent ≡ true
      → (protocol ≡ none) ⊎ (sent ≡ Awaited.done)
  header_sent-done none sent h = inl refl
  header_sent-done (some protocol) sent h = inr (is_done-done sent h)

  pub all_done-AllDone :
      (o : Outside) (protocol : Option ProxyProtocol)
      → all_done wire text dns o protocol ≡ true
      → AllDone o protocol
  all_done-AllDone o protocol h =
      let (connected, after_connect) = both _ _ h in
      let (sent, after_token) = both _ _ after_connect in
      let (confirmed, after_confirm) = both _ _ after_token in
      let (origin_connected, header) = both _ _ after_confirm in
      record {
        connect = is_done-done o.connect connected;
        send_token = is_done-done o.send_token sent;
        confirm = is_done-done o.confirm confirmed;
        origin_connect = is_done-done o.origin_connect origin_connected;
        send_header = header_sent-done protocol o.send_header header;
      }

  pub AllDone-all_done :
      (o : Outside) (protocol : Option ProxyProtocol)
      → AllDone o protocol
      → all_done wire text dns o protocol ≡ true
  AllDone-all_done o none d = rw (d.connect, d.send_token, d.confirm, d.origin_connect) refl
  AllDone-all_done o (some protocol) d = elim d.send_header [
    | inl absent ↦ absurd (none_some (sym absent))
    | inr sent ↦ rw (d.connect, d.send_token, d.confirm, d.origin_connect, sent) refl
  ]

  -- The bytes at the origin before the client's: none, or the header in the form of the protocol.
  abbrev pub Preface : Option ProxyProtocol → ProxyProtocolHeader → Bytes → Type 0
  Preface none header bytes = bytes ≡ []
  Preface (some ProxyProtocol.proxy_protocol_v1) header bytes = bytes ≡ write_v1_tcp text header
  Preface (some ProxyProtocol.proxy_protocol_v2) header bytes = bytes ≡ write_v2_tcp wire header

  pub header_bytes-Preface :
      (protocol : Option ProxyProtocol) (header : ProxyProtocolHeader)
      → Preface protocol header (header_bytes wire text dns protocol header)
  unfolding header_bytes
  header_bytes-Preface none header = refl
  header_bytes-Preface (some ProxyProtocol.proxy_protocol_v1) header = refl
  header_bytes-Preface (some ProxyProtocol.proxy_protocol_v2) header = refl

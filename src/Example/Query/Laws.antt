-- ===== src/Example/Query/Laws.antt =====
-- examples/dns-query.rs: a query does not panic.
use mathlib.Core.Path.{subst}
use socks5_impl.Prelude.{
  sym, ℕ, ◌≡◌, refl, ap, ◌==◌, ◌⊎◌, inl, inr, Bool, true, false, List, length, Option, none, some,
  arith,
}
use socks5_impl.Error.{Error, IoError, io}
use socks5_impl.Net.{SocketAddr}
use socks5_impl.Stream.{Result, ok, err, Act, Conn}
use socks5_impl.Protocol.Address.{Address}
use socks5_impl.Protocol.Address.Convert.{address_of_socket_addr}
use socks5_impl.Protocol.Password.UserKey.{UserKey}
use socks5_impl.Client.Datagram.{build_socks5_udp_datagram, hand_over, send_to, recv_from}
use socks5_impl.Client.Udp.{
  Network, UdpSocket, UdpClientImpl, SocksDatagram, Outcome, returns, transfer_data, transferred,
  datagram, buf_of, any_addr, create_udp_client, with_proxy, with_socket, with_server,
  udp_associate, associate, associated,
}
use socks5_impl.Example.Query.{
  CmdOpt, Hosts, is_none, validate, way, heard, exchange, tcp_proxy, udp_proxy, transferring,
  on_socket, asked, through, ask, key, dns_query_from_server,
}

-- The outcome is a value or an error.
abbrev pub Returns : Outcome → Type 0
Returns o = (r : Result Error (List ℕ)) × (o ≡ returns r)

-- A socket that sends a datagram whole, or fails.
abbrev pub SendsWhole : UdpSocket → Type 0
SendsWhole socket =
    (bs : List ℕ) → ((e : IoError) × (socket.send bs ≡ err e)) ⊎ (socket.send bs ≡ ok (length bs))

handed-Returns :
    (c : UdpClientImpl) (msg : List ℕ) (built : Result Error (List ℕ))
    → build_socks5_udp_datagram msg c.server_addr ≡ built
    → SendsWhole c.client.socket
    → Returns (transferred c msg (hand_over c.client.socket.send built))
handed-Returns c msg (err e) same whole = (err e, refl)
handed-Returns c msg (ok bytes) same whole = elim (whole bytes) [
  | inl (e, failed) ↦ (err (io e), rw failed)
  | inr sent ↦
      let equal : (length bytes == length bytes) ≡ true = ground arith in
      (buf_of (recv_from c.client.socket.recv), rw (sent, same, equal))
]

-- `transfer_data` on a socket that sends a datagram whole, or fails, does not panic.
pub transfer_data-Returns :
    (c : UdpClientImpl) (msg : List ℕ) → SendsWhole c.client.socket → Returns (transfer_data c msg)
unfolding transfer_data send_to
transfer_data-Returns c msg whole = handed-Returns c msg _ refl whole

module _ (hosts : Hosts) (opt : CmdOpt) (msg : List ℕ) where
  heard-Returns : (r : Result Error (Unit {0}) × Conn) → Returns (heard hosts opt msg r)
  heard-Returns (ok u, c) = (_, refl)
  heard-Returns (err e, c) = (_, refl)

  exchange-Returns :
      (dialogue : Act Conn Error (Unit {0})) (r : Result IoError Conn)
      → Returns (exchange hosts opt msg dialogue r)
  exchange-Returns dialogue (ok c) = heard-Returns (dialogue c)
  exchange-Returns dialogue (err e) = (_, refl)

  asked-Returns :
      (client : UdpSocket) (r : Result IoError ℕ) → Returns (asked hosts opt msg client.recv r)
  asked-Returns client (ok n) = (_, refl)
  asked-Returns client (err e) = (_, refl)

  on_socket-Returns : (r : Result IoError UdpSocket) → Returns (on_socket hosts opt msg r)
  on_socket-Returns (ok client) = asked-Returns client (hosts.send_to msg opt.remote_dns_server)
  on_socket-Returns (err e) = (_, refl)

  -- The client that is made has the socket that was bound.
  transferring-Returns :
      (r : Result Error UdpClientImpl)
      → ((c : UdpClientImpl) → r ≡ ok c → SendsWhole c.client.socket)
      → Returns (transferring hosts opt msg r)
  transferring-Returns (ok c) whole = transfer_data-Returns c msg (whole c refl)
  transferring-Returns (err e) whole = (_, refl)

associated-socket :
    (socket : UdpSocket) (r : Result Error (SocketAddr × Address) × Conn) (d : SocksDatagram)
    → associated socket r ≡ ok d
    → d.socket ≡ socket
associated-socket socket (ok (peer, proxy_addr), c) d h =
    let same : record { socket = socket; peer = peer; proxy_addr = proxy_addr; stream = c } ≡ d =
      cc in
    ap (λ (x : SocksDatagram). x.socket) (sym same)
associated-socket socket (err e, c) d h = cc

-- The network binds sockets that send a datagram whole, or fail.
abbrev pub BindsWhole : Network → Type 0
BindsWhole net = (at : List ℕ) (s : UdpSocket) → net.bind_udp at ≡ ok s → SendsWhole s

module _ (net : Network) (binds : BindsWhole net) (auth : Option UserKey) where
  with_socket-SendsWhole :
      (at : List ℕ) (proxy : Conn) (r : Result IoError UdpSocket) (d : SocksDatagram)
      → net.bind_udp at ≡ r
      → with_socket net.std proxy auth r ≡ ok d
      → SendsWhole d.socket
  unfolding udp_associate
  with_socket-SendsWhole at proxy (ok socket) d bound h =
      subst SendsWhole (sym (associated-socket socket (associate net.std socket auth proxy) d h))
        (binds at socket bound)
  with_socket-SendsWhole at proxy (err e) d bound h = cc

  with_proxy-SendsWhole :
      (proxy_addr : SocketAddr) (r : Result IoError Conn) (d : SocksDatagram)
      → with_proxy net proxy_addr auth r ≡ ok d
      → SendsWhole d.socket
  with_proxy-SendsWhole proxy_addr (ok proxy) d h =
      with_socket-SendsWhole (any_addr proxy_addr) proxy _ d refl h
  with_proxy-SendsWhole proxy_addr (err e) d h = cc

  with_server-SendsWhole :
      (target : Address) (r : Result Error SocksDatagram) (c : UdpClientImpl)
      → ((d : SocksDatagram) → r ≡ ok d → SendsWhole d.socket)
      → with_server target r ≡ ok c
      → SendsWhole c.client.socket
  with_server-SendsWhole target (ok d) c whole h =
      let same : record { client = d; server_addr = target } ≡ c = cc in
      subst (λ (x : UdpClientImpl). SendsWhole x.client.socket) same (whole d refl)
  with_server-SendsWhole target (err e) c whole h = cc

  pub datagram-SendsWhole :
      (proxy_addr : SocketAddr) (target : Address) (c : UdpClientImpl)
      → datagram net proxy_addr target auth ≡ ok c
      → SendsWhole c.client.socket
  unfolding datagram create_udp_client
  datagram-SendsWhole proxy_addr target c h =
      with_server-SendsWhole target _ c
        (λ d made. with_proxy-SendsWhole proxy_addr (net.connect_tcp proxy_addr) d made) h

present :
    (proxy_addr : Option SocketAddr)
    → is_none proxy_addr ≡ false
    → (proxy : SocketAddr) × (proxy_addr ≡ some proxy)
present none h = cc
present (some proxy) h = (proxy, refl)

-- The options have a proxy where they want one.
validated-proxy :
    (opt : CmdOpt)
    → validate opt ≡ ok tt
    → opt.via_proxy ≡ true
    → (proxy : SocketAddr) × (opt.proxy_addr ≡ some proxy)
unfolding validate
validated-proxy opt fine wanted = present opt.proxy_addr (ground arith)

module _ (hosts : Hosts) (opt : CmdOpt) (msg : List ℕ) (binds : BindsWhole hosts.net) where
  way-Returns :
      (tcp via_proxy : Bool)
      → (via_proxy ≡ true → (proxy : SocketAddr) × (opt.proxy_addr ≡ some proxy))
      → Returns (way hosts opt msg tcp via_proxy)
  unfolding tcp_proxy udp_proxy
  way-Returns true true has =
      let (proxy, e) = has refl in
      rw e (exchange-Returns hosts opt msg (through hosts opt msg) (hosts.net.connect_tcp proxy))
  way-Returns true false has =
      exchange-Returns hosts opt msg (ask msg) (hosts.connect_server opt.remote_dns_server)
  way-Returns false true has =
      let (proxy, e) = has refl in
      rw e (
        transferring-Returns hosts opt msg _ (λ c made.
          datagram-SendsWhole hosts.net binds (key hosts opt msg) proxy
            (address_of_socket_addr opt.remote_dns_server) c made))
  way-Returns false false has =
      on_socket-Returns hosts opt msg (hosts.net.bind_udp (any_addr opt.remote_dns_server))

  -- With options that `validate` accepts, on a network whose UDP sockets send a datagram whole or
  -- fail, a query ends with a value or an error on each of its four ways: neither the `unwrap` of
  -- the proxy nor the assertion of `transfer_data` panics.
  pub dns_query-Returns : validate opt ≡ ok tt → Returns (dns_query_from_server hosts opt msg)
  unfolding dns_query_from_server
  dns_query-Returns fine = way-Returns opt.tcp opt.via_proxy (validated-proxy opt fine)

-- ===== src/Client/Udp/Laws.antt =====
-- src/client/mod.rs: what the association and the transfer of data come to.
use socks5_impl.Prelude.{ℕ, ◌+◌, ◌≡◌, refl, ap, List, [], ◌∷◌, ◌++◌, length, Option, some}
use socks5_impl.Error.{Error}
use socks5_impl.Net.{SocketAddr, v4, v6}
use socks5_impl.Stream.{Result, ok, Conn}
use socks5_impl.Stream.Delivery.{IsReady}
use socks5_impl.Protocol.Command
use socks5_impl.Protocol.Address.{Address, IsAddress, IsWritable, socket_address}
use socks5_impl.Protocol.Address.Convert.{Std, to_socket_addrs, address_of_socket_addr}
use socks5_impl.Protocol.Handshake.AuthMethod.{no_auth}
use socks5_impl.Protocol.Password.UserKey.{UserKey}
use socks5_impl.Client.Init.Steps.{told}
use socks5_impl.Client.Init.Laws.{hello, ask, chosen, answer, init_no_auth}
use socks5_impl.Client.Udp.{
  UdpSocket, Network, any_addr, any_v4, any_v6, associate, associated, udp_associate, with_server,
  create_udp_client, datagram,
}

-- `std` reads the two texts that the client writes.
pub record Reads (std : Std) : Type 0 where
  pub reads_v4 : std.parse_socket_addr any_v4 ≡ some (v4 (0 ∷ 0 ∷ 0 ∷ 0 ∷ []) 0)
  pub reads_v6 :
      std.parse_socket_addr any_v6
      ≡ some (v6 (0 ∷ 0 ∷ 0 ∷ 0 ∷ 0 ∷ 0 ∷ 0 ∷ 0 ∷ 0 ∷ 0 ∷ 0 ∷ 0 ∷ 0 ∷ 0 ∷ 0 ∷ 0 ∷ []) 0 0 0)

-- The address without a port of the same version as `addr`.
abbrev pub unspecified_like : SocketAddr → SocketAddr
unspecified_like (v4 ip port) = v4 (0 ∷ 0 ∷ 0 ∷ 0 ∷ []) 0
unspecified_like (v6 ip port flowinfo scope) =
    v6 (0 ∷ 0 ∷ 0 ∷ 0 ∷ 0 ∷ 0 ∷ 0 ∷ 0 ∷ 0 ∷ 0 ∷ 0 ∷ 0 ∷ 0 ∷ 0 ∷ 0 ∷ 0 ∷ []) 0 0 0

any_addr-parsed :
    (std : Std) (here : SocketAddr)
    → Reads std
    → std.parse_socket_addr (any_addr here) ≡ some (unspecified_like here)
any_addr-parsed std (v4 ip port) r = r.reads_v4
any_addr-parsed std (v6 ip port flowinfo scope) r = r.reads_v6

-- The request of an association, from a socket at `here`.
abbrev pub wanted : SocketAddr → List ℕ
wanted here = ask Command.udp_associate (socket_address (unspecified_like here))

pub wanted-IsWritable : (here : SocketAddr) → IsWritable (socket_address (unspecified_like here))
wanted-IsWritable (v4 ip port) = tt
wanted-IsWritable (v6 ip port flowinfo scope) = (refl, refl)

-- The proxy's connection afterwards.
abbrev pub associated_on : SocketAddr → Option UserKey → List ℕ → Conn → Conn
associated_on here auth rest proxy =
    told (wanted here) (told (hello auth) (record proxy { input = rest }))

module _ (net : Network) (socket : UdpSocket) (here peer : SocketAddr) (others : List SocketAddr)
    (bound : Address) (auth : Option UserKey) (rest : List ℕ) (proxy : Conn) (reads : Reads net.std)
    (at : socket.local_addr ≡ ok here) (hb : IsAddress bound) (wb : IsWritable bound)
    (e : proxy.input ≡ chosen no_auth ++ (answer bound ++ rest))
    (ready : IsReady (length (hello auth) + length (wanted here)) proxy.out)
    (found : to_socket_addrs net.std bound ≡ ok (peer ∷ others))
    (joined : socket.connect peer ≡ ok tt) where
  associate-ok :
      associate net.std socket auth proxy ≡ (ok (peer, bound), associated_on here auth rest proxy)
  unfolding associate address_of_socket_addr
  associate-ok = rw (
    at,
    any_addr-parsed net.std here reads,
    init_no_auth Command.udp_associate (socket_address (unspecified_like here)) bound auth rest
        proxy (wanted-IsWritable here) hb wb e ready,
    found,
    joined,
  )

  -- `UdpClientImpl::datagram` with a proxy that asks for no authentication and grants the association,
  -- over a connection that takes the two messages: the proxy is asked for an association for the
  -- unspecified address of the version of the client's socket, and that socket is connected to the
  -- first address that the proxy's answer resolves to.
  pub datagram_associates :
      (proxy_addr : SocketAddr) (target : Address)
      → net.connect_tcp proxy_addr ≡ ok proxy
      → net.bind_udp (any_addr proxy_addr) ≡ ok socket
      → datagram net proxy_addr target auth
        ≡ ok (record {
          client = record {
            socket = socket;
            peer = peer;
            proxy_addr = bound;
            stream = associated_on here auth rest proxy;
          };
          server_addr = target;
        })
  unfolding datagram create_udp_client udp_associate
  datagram_associates proxy_addr target reached bound_udp =
      rw (reached, bound_udp)
        (ap
          (λ (r : Result Error (SocketAddr × Address) × Conn).
            with_server target (associated socket r))
          associate-ok)

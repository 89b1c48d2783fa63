-- ===== src/Session/Association.antt =====
-- The client of src/client/mod.rs and the server of examples/s5-server.rs on the two ends of an
-- association: the calls on the connection between them, up to the end of the relay.
mod Tests
use socks5_impl.Prelude.{
  ℕ, ◌+◌, ◌≤◌, ◌≡◌, refl, ap, ◌∙◌, sym, true, List, [], ◌∷◌, ◌++◌, append-nil, map, All, length,
  none, some, arith,
}
use socks5_impl.Error.{Error}
use socks5_impl.Net.{SocketAddr, v4, v6}
use socks5_impl.Stream.{ok, Act, Conn}
use socks5_impl.Stream.Delivery.{IsOpen, IsReady}
use socks5_impl.Protocol.Command
use socks5_impl.Protocol.Reply.{succeeded}
use socks5_impl.Protocol.Request
use socks5_impl.Protocol.Address.{Address, socket_address, IsAddress, IsWritable}
use socks5_impl.Protocol.Address.Convert.{to_socket_addrs}
use socks5_impl.Protocol.Handshake.AuthMethod.{no_auth, method_eq}
use socks5_impl.Protocol.Handshake.Request as HandshakeRequest
use socks5_impl.Server.Auth.{no_auth_executor}
use socks5_impl.Server.Connection.Laws.{method_bytes}
use socks5_impl.Client.Init.{offered}
use socks5_impl.Client.Init.Steps.{told}
use socks5_impl.Client.Init.Laws.{hello, chosen, answer}
use socks5_impl.Client.Udp.{UdpSocket, Network, any_addr, datagram}
use socks5_impl.Client.Udp.Laws.{
  Reads, unspecified_like, wanted, wanted-IsWritable, associated_on, datagram_associates,
}
use socks5_impl.Example.Handle.{Os}
use socks5_impl.Example.Handle.Whole.{handle_whole}
use socks5_impl.Example.Handle.Answers.{asked, handle_whole_associates}
use socks5_impl.Example.Relay.{Sockets, Event, closed, zero_addr, any_port, handle_s5_upd_associate}
use socks5_impl.Example.Relay.Laws.{
  Move, IsPossible, IsWilling, event_of, requests, responses, last_client,
}
use socks5_impl.Example.Relay.Association.{announced, associate_serves}

wanted-IsAddress : (here : SocketAddr) → IsAddress (socket_address (unspecified_like here))
wanted-IsAddress (v4 ip port) = omega arith
wanted-IsAddress (v6 ip port flowinfo scope) = omega arith

offers_none : HandshakeRequest.evaluate_method (HandshakeRequest.new (offered none)) no_auth ≡ true
unfolding HandshakeRequest.evaluate_method HandshakeRequest.any_method method_eq offered
offers_none = refl

none_fits : HandshakeRequest.IsWritable (HandshakeRequest.new (offered none))
unfolding offered
none_fits = (omega arith, (tt, tt))

resolved :
    (net : Network) (addr : SocketAddr)
    → to_socket_addrs net.std (socket_address addr) ≡ ok (addr ∷ [])
unfolding to_socket_addrs
resolved net addr = refl

-- The two connections at the start: each will hear what the other says in an association of a socket
-- at `here` with a listener at `listening`, and has said nothing.
pub record Joined (here listening : SocketAddr) (client server : Conn) : Type 0 where
  pub client_hears :
      client.input ≡ method_bytes no_auth ++ announced succeeded (socket_address listening)
  pub server_hears : server.input ≡ hello none ++ wanted here
  pub client_fresh : client.out.sent ≡ []
  pub server_fresh : server.out.sent ≡ []
  pub client_ready : IsReady (length (hello none) + length (wanted here)) client.out
  pub server_open : IsOpen (12 + length (announced succeeded (socket_address listening))) server.out

-- The server's connection when the listener has been announced.
abbrev pub announcing : SocketAddr → Conn → Conn
announcing listening server =
    told (announced succeeded (socket_address listening)) (asked [] server)

module _ (here listening : SocketAddr) (client server : Conn)
    (joined : Joined here listening client server) where
  heard_by_server : server.input ≡ hello none ++ (wanted here ++ [])
  heard_by_server =
      joined.server_hears ∙ ap (λ (bs : List ℕ). hello none ++ bs) (sym (append-nil (wanted here)))

  heard_by_client : client.input ≡ chosen no_auth ++ (answer (socket_address listening) ++ [])
  heard_by_client =
      joined.client_hears
      ∙ ap (λ (bs : List ℕ). chosen no_auth ++ bs)
          (sym (append-nil (answer (socket_address listening))))

  -- What the client's call of `UdpClientImpl::datagram` and the server's `handle` come to, over
  -- a connection that carries what both say, where the sockets can be bound, take every
  -- datagram and the client's can be connected, `std` reads the two texts of unspecified
  -- addresses, the address of the listener is well-formed and writable and the moves are
  -- possible: `handle` answers the client and relays: it does the moves that follow and ends
  -- with success when the connection is closed and its shutdown succeeds; the client's
  -- socket is connected to the relay's listener; and each end has sent exactly what the other
  -- was given to hear.
  pub association_completes :
      (os : Os) (sockets : Sockets) (net : Network) (socket : UdpSocket)
      (proxy_addr at : SocketAddr) (target : Address) (ms : List Move) (later : List Event)
      (c' : Conn)
      → IsAddress (socket_address listening)
      → IsWritable (socket_address listening)
      → Reads net.std
      → net.connect_tcp proxy_addr ≡ ok client
      → net.bind_udp (any_addr proxy_addr) ≡ ok socket
      → socket.local_addr ≡ ok here
      → socket.connect listening ≡ ok tt
      → IsWilling sockets
      → All (IsPossible sockets) ms
      → sockets.local_addr (asked [] server) ≡ ok at
      → sockets.bind_listener (any_port sockets at) ≡ ok listening
      → sockets.bind_dispatcher ≡ ok tt
      → sockets.shutdown (announcing listening server) ≡ (ok tt, c')
      → (handle_whole os sockets
            (map event_of ms ++ (closed ∷ later))
            (λ u. none)
            no_auth_executor
            server
          ≡ (
            some (ok tt),
            c',
            record {
              incoming_addr = last_client zero_addr ms;
              dispatched = requests ms;
              answered = responses zero_addr ms;
            },
          ))
        × (datagram net proxy_addr target none
            ≡ ok (record {
              client = record {
                socket = socket;
                peer = listening;
                proxy_addr = socket_address listening;
                stream = associated_on here none [] client;
              };
              server_addr = target;
            }))
        × ((associated_on here none [] client).out.sent ≡ server.input)
        × ((announcing listening server).out.sent ≡ client.input)
  association_completes os sockets net socket proxy_addr at target ms later c' hl wl reads reached
        bound here_at connected willing possible at_server listens dispatches down =
      (
        handle_whole_associates os sockets (map event_of ms ++ (closed ∷ later))
              (HandshakeRequest.new (offered none))
              (Request.new Command.udp_associate (socket_address (unspecified_like here))) [] server
              none_fits offers_none (wanted-IsAddress here) (wanted-IsWritable here) heard_by_server
              (joined.server_open.0, omega (arith, joined.server_open.1)) refl
            ∙ associate_serves sockets ms later (asked [] server) c' at listening willing possible
                at_server listens dispatches
                (joined.server_open.0, omega (arith, joined.server_open.1)) down,
        datagram_associates net socket here listening [] (socket_address listening) none [] client
            reads here_at hl wl heard_by_client joined.client_ready (resolved net listening)
            connected proxy_addr target reached bound,
        ap (λ (bs : List ℕ). (bs ++ hello none) ++ wanted here) joined.client_fresh
            ∙ sym joined.server_hears,
        ap
              (λ (bs : List ℕ).
                (bs ++ method_bytes no_auth) ++ announced succeeded (socket_address listening))
              joined.server_fresh
            ∙ sym joined.client_hears,
      )

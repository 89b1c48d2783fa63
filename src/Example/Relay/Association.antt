-- ===== src/Example/Relay/Association.antt =====
-- examples/s5-server.rs: `handle_s5_upd_associate` from the reply to the end of the association.
use socks5_impl.Prelude.{ℕ, ◌≡◌, ap, List, [], ◌∷◌, ◌++◌, map, some, All, length}
use socks5_impl.Error.{IoError, io}
use socks5_impl.Net.{SocketAddr}
use socks5_impl.Stream.{ok, err, convert, as_error, Conn}
use socks5_impl.Stream.Delivery.{IsOpen}
use socks5_impl.Protocol.Reply.{Reply, succeeded, general_failure}
use socks5_impl.Protocol.Address.{Address, socket_address, unspecified}
use socks5_impl.Protocol.Address.Convert.{address_of_socket_addr}
use socks5_impl.Protocol.Response
use socks5_impl.Server.Connection.{send_reply}
use socks5_impl.Server.Connection.Laws.{send_reply_sends}
use socks5_impl.Client.Init.Steps.{told}
use socks5_impl.Example.Relay.{
  Sockets, Event, closed, zero_addr, fresh_relay, any_port, listen, handle_s5_upd_associate,
}
use socks5_impl.Example.Relay.Laws.{
  Move, IsPossible, IsWilling, event_of, requests, responses, last_client, relay_serves,
}

-- The reply to a request for an association.
abbrev pub announced : Reply → Address → List ℕ
announced reply addr = Response.write_to_buf (Response.new reply addr) []

announces :
    (reply : Reply) (addr : Address) (c : Conn)
    → IsOpen (length (announced reply addr)) c.out
    → as_error (send_reply reply addr) c ≡ (ok tt, told (announced reply addr) c)
announces reply addr c o = ap convert (send_reply_sends (Response.new reply addr) c o)

module _ (os : Sockets) where
  -- Where the sockets can be bound and take every datagram, over a connection that takes the
  -- reply, a client that asks for an association is told the address of the listening socket;
  -- the moves that follow, with well-formed and writable addresses, sizes that fit and names
  -- that are resolved, are relayed to their targets and back to the client, each to the one
  -- that was heard last; and when the client closes its connection and the shutdown of it
  -- succeeds, the handler returns with success.
  pub associate_serves :
      (ms : List Move) (later : List Event) (c c' : Conn) (here listening : SocketAddr)
      → IsWilling os
      → All (IsPossible os) ms
      → os.local_addr c ≡ ok here
      → os.bind_listener (any_port os here) ≡ ok listening
      → os.bind_dispatcher ≡ ok tt
      → IsOpen (length (announced succeeded (socket_address listening))) c.out
      → os.shutdown (told (announced succeeded (socket_address listening)) c) ≡ (ok tt, c')
      → handle_s5_upd_associate os (map event_of ms ++ (closed ∷ later)) c ≡ (
        some (ok tt),
        c',
        record {
          incoming_addr = last_client zero_addr ms;
          dispatched = requests ms;
          answered = responses zero_addr ms;
        },
      )
  unfolding handle_s5_upd_associate listen address_of_socket_addr
  associate_serves ms later c c' here listening willing possible at bound ready o down = rw (
    at,
    bound,
    announces succeeded (socket_address listening) c o,
    ready,
    relay_serves os willing ms later (fresh_relay os) possible,
    down,
  )

  -- Where no socket can be bound, the client is told so, its connection is shut down, and the handler
  -- returns the error.
  associate_unbound :
      (events : List Event) (c c' : Conn) (here : SocketAddr) (e : IoError)
      → os.local_addr c ≡ ok here
      → os.bind_listener (any_port os here) ≡ err e
      → IsOpen (length (announced general_failure unspecified)) c.out
      → os.shutdown (told (announced general_failure unspecified) c) ≡ (ok tt, c')
      → handle_s5_upd_associate os events c ≡ (some (err (io e)), c', fresh_relay os)
  unfolding handle_s5_upd_associate listen
  associate_unbound events c c' here e at unbound o down =
      rw (at, unbound, announces general_failure unspecified c o, down)

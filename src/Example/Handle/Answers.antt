-- ===== src/Example/Handle/Answers.antt =====
-- examples/s5-server.rs: what `handle` answers to each command, on a server without authentication.
use socks5_impl.Prelude.{ℕ, ◌≡◌, refl, ap, ◌∙◌, true, List, [], ◌++◌, none, length, arith}
use socks5_impl.Error.{Error, IoError}
use socks5_impl.Stream.{ok, err, Act, convert, as_error, Conn, pure}
use socks5_impl.Stream.Delivery.{IsOpen}
use socks5_impl.Protocol.Command.{Command}
use socks5_impl.Protocol.Reply.{Reply, succeeded, host_unreachable, command_not_supported}
use socks5_impl.Protocol.Address
use socks5_impl.Protocol.Address.{Address, unspecified, IsAddress, IsWritable}
use socks5_impl.Protocol.Request
use socks5_impl.Protocol.Response
use socks5_impl.Protocol.Handshake.AuthMethod.{no_auth}
use socks5_impl.Protocol.Handshake.Request as HandshakeRequest
use socks5_impl.Server.Auth.{no_auth_executor}
use socks5_impl.Server.Connection.{client_connection, authenticate_on, send_reply}
use socks5_impl.Server.Connection.Laws.{
  method_bytes, authenticate_answers, wait_request_on_reads, send_reply_sends,
}
use socks5_impl.Client.Init.Steps.{told}
use socks5_impl.Example.Relay.{Sockets, Event, handle_s5_upd_associate}
use socks5_impl.Example.Handle.Whole.{handle_whole}
use socks5_impl.Example.Handle.{Os, handle, serve, dial, relay_to, admitted}

-- A reply with the unspecified address.
abbrev pub reply_bytes : Reply → List ℕ
reply_bytes reply = Response.write_to_buf (Response.new reply unspecified) []

pub length-reply_bytes : (reply : Reply) → length (reply_bytes reply) ≡ 10
unfolding Response.write_to_buf Address.write_to_buf unspecified
length-reply_bytes reply = refl

pub replies :
    (reply : Reply) (c : Conn)
    → IsOpen 10 c.out
    → as_error (send_reply reply unspecified) c ≡ (ok tt, told (reply_bytes reply) c)
replies reply c o = ap convert (
    send_reply_sends (Response.new reply unspecified) c
      (o.0, omega (arith, length-reply_bytes reply, o.1)))

-- What a client sends, and the connection once its request has been read.
abbrev pub asking : HandshakeRequest.Request → Request.Request → List ℕ → List ℕ
asking offer req rest =
    HandshakeRequest.write_to_buf offer [] ++ (Request.write_to_buf req [] ++ rest)

abbrev pub asked : List ℕ → Conn → Conn
asked rest c = told (method_bytes no_auth) (record c { input = rest })

module _ (os : Os) (associate : Act Conn Error (Unit {0})) (offer : HandshakeRequest.Request)
    (req : Request.Request) (rest : List ℕ) (c : Conn) (w : HandshakeRequest.IsWritable offer)
    (has : HandshakeRequest.evaluate_method offer no_auth ≡ true) (ha : IsAddress req.address)
    (wa : IsWritable req.address) (sent : c.input ≡ asking offer req rest)
    (o : IsOpen 12 c.out) where
  authenticates : authenticate_on no_auth_executor c ≡ (
    ok tt,
    told (method_bytes no_auth) (record c { input = Request.write_to_buf req [] ++ rest }),
  )
  unfolding no_auth_executor
  authenticates = rw has at (
      authenticate_answers no_auth_executor offer (Request.write_to_buf req [] ++ rest) c w sent
        (o.0, omega (arith, o.1)))

  handle_serves :
      handle os associate (λ u. none) no_auth_executor c
      ≡ serve os associate (client_connection req.command req.address (asked rest c)) (asked rest c)
  unfolding handle admitted
  handle_serves =
      let waiting : Conn =
        told (method_bytes no_auth) (record c { input = Request.write_to_buf req [] ++ rest }) in
      rw (authenticates, wait_request_on_reads req rest waiting ha wa refl)

  room : IsOpen 10 (asked rest c).out
  room = (o.0, omega (arith, o.1))

  -- On a server without authentication, over a connection that takes the answers and on which a
  -- client has sent a list with that method and a request with a well-formed and writable
  -- address: a client that asks for BIND is told that the command is not supported, and its
  -- connection is shut down.
  handle_refuses :
      req.command ≡ Command.bind
      → handle os associate (λ u. none) no_auth_executor c
        ≡ as_error os.shutdown (told (reply_bytes command_not_supported) (asked rest c))
  unfolding serve client_connection
  handle_refuses command =
      handle_serves ∙ rw (command, replies command_not_supported (asked rest c) room)

  -- On a server without authentication, over a connection that takes the answers and on which a
  -- client has sent a list with that method and a request with a well-formed and writable
  -- address: a client that asks for CONNECT to an address that can be reached is told so, and,
  -- where the trace of the two peers does not fail, its connection is joined to the target,
  -- with all that it sent behind its request still to be read.
  handle_connect :
      (target : Conn)
      → req.command ≡ Command.connect
      → dial os req.address ≡ ok target
      → os.trace_peers (told (reply_bytes succeeded) (asked rest c)) target ≡ ok tt
      → handle os associate (λ u. none) no_auth_executor c
        ≡ as_error (os.copy_bidirectional target) (told (reply_bytes succeeded) (asked rest c))
  unfolding serve client_connection relay_to
  handle_connect target command reached traced =
      handle_serves ∙ rw (command, reached, replies succeeded (asked rest c) room, traced)

  -- On a server without authentication, over a connection that takes the answers and on which a
  -- client has sent a list with that method and a request with a well-formed and writable
  -- address: a client that asks for CONNECT to an address that cannot be reached is told so,
  -- and its connection is shut down.
  pub handle_unreachable :
      (e : IoError)
      → req.command ≡ Command.connect
      → dial os req.address ≡ err e
      → handle os associate (λ u. none) no_auth_executor c
        ≡ as_error os.shutdown (told (reply_bytes host_unreachable) (asked rest c))
  unfolding serve client_connection relay_to
  handle_unreachable e command failed =
      handle_serves ∙ rw (command, failed, replies host_unreachable (asked rest c) room)

  -- A client that asks for an association is handed to the relay, after the choice of the method.
  handle_associates :
      req.command ≡ Command.udp_associate
      → handle os associate (λ u. none) no_auth_executor c ≡ associate (asked rest c)
  unfolding serve client_connection
  handle_associates command = handle_serves ∙ rw command

module _ (os : Os) (sockets : Sockets) (events : List Event) (offer : HandshakeRequest.Request)
    (req : Request.Request) (rest : List ℕ) (c : Conn) where
  -- The same with the relay in its place.
  pub handle_whole_associates :
      HandshakeRequest.IsWritable offer
      → HandshakeRequest.evaluate_method offer no_auth ≡ true
      → IsAddress req.address
      → IsWritable req.address
      → c.input ≡ asking offer req rest
      → IsOpen 12 c.out
      → req.command ≡ Command.udp_associate
      → handle_whole os sockets events (λ u. none) no_auth_executor c
        ≡ handle_s5_upd_associate sockets events (asked rest c)
  unfolding handle_whole admitted client_connection
  handle_whole_associates w has ha wa sent o command =
      let waiting : Conn =
        told (method_bytes no_auth) (record c { input = Request.write_to_buf req [] ++ rest }) in
      rw (
        authenticates os (pure tt) offer req rest c w has ha wa sent o,
        wait_request_on_reads req rest waiting ha wa refl,
        command,
      )

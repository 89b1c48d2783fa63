-- ===== src/Server/Connection.antt =====
-- src/server/connection/: from an accepted stream to a command that waits for its replies.
--
-- A handler takes the stream it owns and gives it back in its result; where the source returns an
-- error alone, the stream is dropped with the handler's `self`.
pub mod Laws
pub mod Life
pub mod Closing
pub mod Options
pub mod Polls
use socks5_impl.Prelude.{ℕ, Bool, true, false, if◌then◌else◌, Option, some, none}
use socks5_impl.Error.{Error, IoError, io_error, text, unsupported}
use socks5_impl.Stream.{
  Result, ok, err, Act, ◌>>=◌, ◌>>◌, pure, raise, Conn, receive, emit, as_error,
}
use socks5_impl.Protocol.Operation.{write_to_async_stream}
use socks5_impl.Protocol.Handshake.AuthMethod.{AuthMethod, no_acceptable_methods}
use socks5_impl.Protocol.Handshake.Request as HandshakeRequest
use socks5_impl.Protocol.Handshake.Response as HandshakeResponse
use socks5_impl.Protocol.Handshake.Response.{handshake_response_operation}
use socks5_impl.Protocol.Command.{Command}
use socks5_impl.Protocol.Reply.{Reply}
use socks5_impl.Protocol.Address.{Address}
use socks5_impl.Protocol.Request
use socks5_impl.Protocol.Request.{Request}
use socks5_impl.Protocol.Response
use socks5_impl.Protocol.Response.{response_operation}
use socks5_impl.Server.Auth.{AuthExecutor}

pub record IncomingConnection (O : Type 0) : Type 0 where
  pub stream : Conn
  pub auth : AuthExecutor O

pub record Authenticated : Type 0 where
  pub stream : Conn

unfoldable pub evaluate_request :
    {O : Type 0} → AuthExecutor O → HandshakeRequest.Request → Option AuthMethod
evaluate_request auth req =
    let method = auth.auth_method in
    if HandshakeRequest.evaluate_method req method then some method else none

-- Run the executor: what it returns is a value here, also if it is an error.
abbrev pub execute : {O : Type 0} → AuthExecutor O → Act Conn IoError O
execute auth c = let (output, c') = auth.execute c in (ok output, c')

-- The two branches of `authenticate`, on what `evaluate_request` returned.
unfoldable pub answer : {O : Type 0} → AuthExecutor O → Option AuthMethod → Act Conn IoError O
answer auth (some method) = do
  emit (write_to_async_stream (HandshakeResponse.new method))
  execute auth
answer auth none = do
  emit (write_to_async_stream (HandshakeResponse.new no_acceptable_methods))
  raise (io_error unsupported (text "No available handshake method provided by client"))

unfoldable pub authenticate_on : {O : Type 0} → AuthExecutor O → Act Conn IoError O
unfolding evaluate_request answer
authenticate_on auth = do
  request ← receive HandshakeRequest.retrieve_from_async_stream
  answer auth (evaluate_request auth request)

abbrev pub authenticated :
    {O : Type 0} → Result IoError O × Conn → Result IoError (Authenticated × O)
authenticated (ok output, c) = ok (record { stream = c }, output)
authenticated (err e, c) = err e

unfoldable pub authenticate :
    {O : Type 0} → IncomingConnection O → Result IoError (Authenticated × O)
unfolding authenticate_on
authenticate conn = authenticated (authenticate_on conn.auth conn.stream)

-- The marker types of the three commands.
pub data NeedReply : Type 0 where
  need_reply ready : NeedReply

pub data NeedReplies : Type 0 where
  need_first_reply need_second_reply ready : NeedReplies

pub record Connect (state : NeedReply) : Type 0 where
  pub stream : Conn

pub record UdpAssociate (state : NeedReply) : Type 0 where
  pub stream : Conn

pub record Bind (state : NeedReplies) : Type 0 where
  pub stream : Conn

pub data ClientConnection : Type 0 where
  udp_associate : UdpAssociate need_reply → Address → ClientConnection
  bind : Bind need_first_reply → Address → ClientConnection
  connect : Connect need_reply → Address → ClientConnection

unfoldable pub client_connection : Command → Address → Conn → ClientConnection
client_connection Command.udp_associate address c = udp_associate (record { stream = c }) address
client_connection Command.bind address c = bind (record { stream = c }) address
client_connection Command.connect address c = connect (record { stream = c }) address

abbrev pub requested : Result Error Request × Conn → Result Error ClientConnection × Conn
requested (ok req, c) = (ok (client_connection req.command req.address c), c)
requested (err e, c) = (err e, c)

-- The call, with the stream as it is left also by an error.
unfoldable pub wait_request_on : Act Conn Error ClientConnection
unfolding client_connection
wait_request_on c = requested (as_error (receive Request.retrieve_from_async_stream) c)

unfoldable pub wait_request : Authenticated → Result Error ClientConnection
unfolding wait_request_on
wait_request conn = (wait_request_on conn.stream).0

-- What every `reply` writes.
unfoldable pub send_reply : Reply → Address → Act Conn IoError (Unit {0})
send_reply reply addr = emit (write_to_async_stream (Response.new reply addr))

abbrev pub moved : {T : Type 0} → (Conn → T) → Result IoError (Unit {0}) × Conn → Result IoError T
moved f (ok u, c) = ok (f c)
moved f (err e, c) = err e

unfoldable pub connect_reply : Connect need_reply → Reply → Address → Result IoError (Connect ready)
connect_reply conn reply addr =
    moved (λ c. record { stream = c }) (send_reply reply addr conn.stream)

unfoldable pub associate_reply :
    {state : NeedReply} → UdpAssociate state → Reply → Address → Result IoError (UdpAssociate ready)
associate_reply conn reply addr =
    moved (λ c. record { stream = c }) (send_reply reply addr conn.stream)

unfoldable pub bind_first_reply :
    Bind need_first_reply → Reply → Address → Result IoError (Bind need_second_reply)
bind_first_reply conn reply addr =
    moved (λ c. record { stream = c }) (send_reply reply addr conn.stream)

-- The second reply hands the stream back with an error.
abbrev pub moved_or_back :
    {T : Type 0} → (Conn → T) → Result IoError (Unit {0}) × Conn → Result (IoError × Conn) T
moved_or_back f (ok u, c) = ok (f c)
moved_or_back f (err e, c) = err (e, c)

unfoldable pub bind_second_reply :
    Bind need_second_reply → Reply → Address → Result (IoError × Conn) (Bind ready)
bind_second_reply conn reply addr =
    moved_or_back (λ c. record { stream = c }) (send_reply reply addr conn.stream)

-- ===== src/Example/Demo.antt =====
-- examples/demo-server.rs: the dialogue of the demo server with its one client.
pub mod Laws
use socks5_impl.Prelude.{
  ℕ, ◌≡◌, ◌∙◌, Bool, true, false, if◌then◌else◌, List, [], ◌++◌, length, ◌+◌, ◌≤◌, arith,
}
use socks5_impl.Error.{IoError, io_error, text, unsupported}
use socks5_impl.Stream.{Result, ok, err, Act, ◌>>=◌, ◌>>◌, pure, raise, Conn, receive, emit}
use socks5_impl.Protocol.Operation.{write_to_async_stream}
use socks5_impl.Protocol.Address.{unspecified}
use socks5_impl.Protocol.Reply.{general_failure}
use socks5_impl.Protocol.Request
use socks5_impl.Protocol.Response
use socks5_impl.Protocol.Response.{response_operation}
use socks5_impl.Protocol.Handshake.AuthMethod.{no_auth, no_acceptable_methods}
use socks5_impl.Protocol.Handshake.Request as HandshakeRequest
use socks5_impl.Protocol.Handshake.Response as HandshakeResponse
use socks5_impl.Protocol.Handshake.Response.{handshake_response_operation}

-- `let _ = ..await;`
abbrev pub ignoring : Act Conn IoError (Unit {0}) → Act Conn IoError (Unit {0})
ignoring action c = (ok tt, (action c).1)

module _ (shutdown : Act Conn IoError (Unit {0})) where
  -- `match Request::retrieve_from_async_stream(&mut stream).await`
  abbrev pub on_request : Result IoError Request.Request × Conn → Result IoError (Unit {0}) × Conn
  on_request (ok req, c) = (ok tt, c)
  on_request (err e, c) =
      (emit (write_to_async_stream (Response.new general_failure unspecified))
          >> (ignoring shutdown >> raise e))
        c

  abbrev pub accepting : Bool → Act Conn IoError (Unit {0})
  accepting true = do
    emit (write_to_async_stream (HandshakeResponse.new no_auth))
    λ c. on_request (receive Request.retrieve_from_async_stream c)
  accepting false = do
    emit (write_to_async_stream (HandshakeResponse.new no_acceptable_methods))
    ignoring shutdown
    raise (io_error unsupported (text "No available handshake method provided by client"))

  -- `main`, on the stream that is accepted.
  unfoldable pub dialogue : Act Conn IoError (Unit {0})
  dialogue = do
    request ← receive HandshakeRequest.retrieve_from_async_stream
    accepting (HandshakeRequest.evaluate_method request no_auth)

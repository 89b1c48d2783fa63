-- ===== src/Example/Demo/Laws.antt =====
-- examples/demo-server.rs: what the client is told when its request cannot be read.
use socks5_impl.Prelude.{ℕ, ◌≡◌, true, List, [], ◌++◌, arith}
use socks5_impl.Error.{IoError}
use socks5_impl.Stream.{err, Act, Conn}
use socks5_impl.Stream.Delivery.{IsOpen, write_all_open}
use socks5_impl.Protocol.Operation.{write_to_async_stream}
use socks5_impl.Protocol.Reply.{general_failure}
use socks5_impl.Protocol.Version
use socks5_impl.Protocol.Request
use socks5_impl.Protocol.Handshake.AuthMethod.{no_auth}
use socks5_impl.Protocol.Handshake.Request as HandshakeRequest
use socks5_impl.Protocol.Handshake.Request.Contract.{handshake_request_operation-Lawful}
use socks5_impl.Protocol.Handshake.Response as HandshakeResponse
use socks5_impl.Server.Connection.Laws.{method_bytes}
use socks5_impl.Client.Init.Steps.{told}
use socks5_impl.Example.Handle.Answers.{reply_bytes, length-reply_bytes}
use socks5_impl.Example.Demo.{dialogue}

-- A client whose list has no authentication, and then bytes that are refused as a request, over a
-- connection that takes the two answers: it is told the method and a general failure, the
-- connection is shut down, whether or not that works, and the result is the reader's error.
dialogue_refused :
    (shutdown : Act Conn IoError (Unit {0})) (offer : HandshakeRequest.Request)
    (bytes left : List ℕ) (e : IoError) (c : Conn)
    → HandshakeRequest.IsWritable offer
    → HandshakeRequest.evaluate_method offer no_auth ≡ true
    → Request.retrieve_from_async_stream bytes ≡ (err e, left)
    → c.input ≡ HandshakeRequest.write_to_buf offer [] ++ bytes
    → IsOpen 12 c.out
    → dialogue shutdown c ≡ (
      err e,
      (shutdown (
          told
            (reply_bytes general_failure)
            (told (method_bytes no_auth) (record c { input = left })))).1,
    )
unfolding dialogue write_to_async_stream HandshakeResponse.write_to_buf Version.to_u8
dialogue_refused shutdown offer bytes left e c w has refused sent o = rw (
  sent,
  handshake_request_operation-Lawful.async_agrees,
  handshake_request_operation-Lawful.reads_back offer bytes tt w,
  has,
  write_all_open (method_bytes no_auth) c.out (o.0, omega (arith, o.1)),
  refused,
  write_all_open (reply_bytes general_failure) (told (method_bytes no_auth) c).out
      (o.0, omega (arith, length-reply_bytes general_failure, o.1)),
)

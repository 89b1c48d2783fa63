-- ===== src/Example/Handle.antt =====
-- examples/s5-server.rs: `handle`, what the example server does with a connection.
--
-- A function of a connection gives back the connection as it is when the handler drops it. What the
-- operating system and tokio do is the argument `os`.
pub mod Laws
pub mod Answers
pub mod Whole
use Prim.Native.String.{String}
use socks5_impl.Prelude.{ℕ, Bool, true, false, if◌then◌else◌, List, Option, some, none}
use socks5_impl.Error.{Error, IoError, io, string}
use socks5_impl.Net.{SocketAddr}
use socks5_impl.Stream.{Result, ok, err, Act, ◌>>=◌, ◌>>◌, pure, raise, lift, as_error, Conn}
use socks5_impl.Protocol.Reply.{succeeded, host_unreachable, command_not_supported}
use socks5_impl.Protocol.Address.{Address, socket_address, domain_address, unspecified}
use socks5_impl.Server.Auth.{AuthExecutor}
use socks5_impl.Server.Connection.{
  ClientConnection, udp_associate, bind, connect, authenticate_on, wait_request_on, send_reply,
}

pub record Os : Type 0 where
  -- `TcpStream::connect`, to a domain or to an address
  pub connect_domain : List ℕ → ℕ → Result IoError Conn
  pub connect_addr : SocketAddr → Result IoError Conn
  -- the two calls of `peer_addr` for the trace, where it is on
  pub trace_peers : Conn → Conn → Result IoError (Unit {0})
  pub copy_bidirectional : Conn → Act Conn IoError (Unit {0})
  pub shutdown : Act Conn IoError (Unit {0})
  -- `err.to_string()`
  pub describe : IoError → String

-- What `downcast_ref::<std::io::Result<bool>>()` finds, and what `handle` makes of it: `true` to go
-- on, and `false` to return `Ok(())`.
unfoldable pub admitted : (IoError → String) → Option (Result IoError Bool) → Result Error Bool
admitted describe none = ok true
admitted describe (some (ok res)) = ok res
admitted describe (some (err e)) = err (string (describe e))

module _ (os : Os) where
  unfoldable pub dial : Address → Result IoError Conn
  dial (domain_address domain port) = os.connect_domain domain port
  dial (socket_address addr) = os.connect_addr addr

  unfoldable pub relay_to : Result IoError Conn → Act Conn Error (Unit {0})
  relay_to (ok target) = do
    as_error (send_reply succeeded unspecified)
    as_error (λ conn. lift (os.trace_peers conn target) conn)
    as_error (os.copy_bidirectional target)
  relay_to (err e) = do as_error (send_reply host_unreachable unspecified); as_error os.shutdown

  -- `match conn.wait_request().await?`, with the handler of UDP ASSOCIATE as an argument.
  unfoldable pub serve : Act Conn Error (Unit {0}) → ClientConnection → Act Conn Error (Unit {0})
  unfolding dial relay_to
  serve associate (udp_associate conn address) = associate
  serve associate (bind conn address) = do
    as_error (send_reply command_not_supported unspecified)
    as_error os.shutdown
  serve associate (connect conn addr) = relay_to (dial addr)

  unfoldable pub handle :
      {O : Type 0}
      → Act Conn Error (Unit {0})
      → (O → Option (Result IoError Bool))
      → AuthExecutor O
      → Act Conn Error (Unit {0})
  unfolding serve admitted
  handle associate downcast auth = do
    res ← as_error (authenticate_on auth)
    go_on ← lift (admitted os.describe (downcast res))
    if go_on then (wait_request_on >>= serve associate) else pure tt

-- ===== src/Server/Auth.antt =====
-- src/server/auth.rs
pub mod Laws
use socks5_impl.Prelude.{ℕ, Bool, true, false, if◌then◌else◌}
use socks5_impl.Error.{IoError, io_error, text, other}
use socks5_impl.Stream.{Result, ok, err, Act, ◌>>=◌, ◌>>◌, pure, raise, Conn, receive, emit}
use socks5_impl.Protocol.Operation.{write_to_async_stream}
use socks5_impl.Protocol.Handshake.AuthMethod.{AuthMethod, no_auth, user_pass}
use socks5_impl.Protocol.Password.UserKey.{UserKey, key_eq}
use socks5_impl.Protocol.Password.Status
use socks5_impl.Protocol.Password.Request
use socks5_impl.Protocol.Password.Response
use socks5_impl.Protocol.Password.Response.{password_response_operation}

-- The trait: `execute` runs on the connection and returns what its `Output` says, an error or not.
pub record AuthExecutor (O : Type 0) : Type 0 where
  pub auth_method : AuthMethod
  pub execute : Conn → O × Conn

unfoldable pub no_auth_executor : AuthExecutor (Unit {0})
no_auth_executor = record { auth_method = no_auth; execute = λ c. (tt, c) }

-- `if is_equal { Ok(true) } else { Err(..) }`
unfoldable pub verdict : Bool → Act Conn IoError Bool
verdict is_equal =
    if is_equal
    then pure true
    else raise (io_error other (text "username or password is incorrect"))

-- `UserKeyAuth::execute`
unfoldable pub check_user_key : UserKey → Act Conn IoError Bool
unfolding verdict
check_user_key user_key = do
  req ← receive Request.retrieve_from_async_stream
  let is_equal : Bool = key_eq req.user_key user_key
  emit (write_to_async_stream (Response.new (if is_equal then Status.succeeded else Status.failed)))
  verdict is_equal

unfoldable pub user_key_auth : UserKey → AuthExecutor (Result IoError Bool)
user_key_auth user_key = record { auth_method = user_pass; execute = check_user_key user_key }

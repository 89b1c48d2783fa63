-- ===== src/Client/Init.antt =====
-- src/client/mod.rs: the dialogue of the client, up to the reply to its command.
pub mod Steps
pub mod Laws
use socks5_impl.Prelude.{ℕ, List, [], ◌∷◌, ◌++◌, Option, none, some}
use socks5_impl.Error.{Error, invalid_auth_method}
use socks5_impl.Stream.{
  Result, ok, err, Act, ◌>>=◌, ◌>>◌, pure, raise, as_error, flush, Conn, receive, emit,
}
use socks5_impl.Protocol.Command.{Command}
use socks5_impl.Protocol.Address.{Address}
use socks5_impl.Protocol.Handshake.AuthMethod
use socks5_impl.Protocol.Handshake.AuthMethod.{AuthMethod, no_auth, user_pass}
use socks5_impl.Protocol.Password.UserKey.{UserKey}
use socks5_impl.Client.Reader.{read_auth_version, read_auth_status, read_selection_msg, read_final}
use socks5_impl.Client.Writer.{write_auth_version, write_string, write_selection_msg, write_final}

unfoldable pub username_password_auth : UserKey → Act Conn Error (Unit {0})
username_password_auth auth = do
  emit write_auth_version
  emit (write_string auth.username)
  emit (write_string auth.password)
  emit (as_error flush)
  receive read_auth_version
  receive read_auth_status

-- `Vec::with_capacity(2)` and the two pushes.
unfoldable pub offered : Option UserKey → List AuthMethod
offered none = no_auth ∷ []
offered (some key) = no_auth ∷ user_pass ∷ []

-- `match method`: the method that the server chose, with the credentials at hand.
unfoldable pub comply : AuthMethod → Option UserKey → Act Conn Error (Unit {0})
unfolding username_password_auth
comply no_auth auth = pure tt
comply user_pass (some key) = username_password_auth key
comply user_pass none = raise (invalid_auth_method (AuthMethod.to_u8 user_pass))
comply method auth = raise (invalid_auth_method (AuthMethod.to_u8 method))

unfoldable pub init : Command → Address → Option UserKey → Act Conn Error Address
unfolding offered comply
init command addr auth = do
  emit (write_selection_msg (offered auth))
  emit (as_error flush)
  method ← receive read_selection_msg
  comply method auth
  emit (write_final command addr)
  receive read_final

unfoldable pub connect : Address → Option UserKey → Act Conn Error Address
unfolding init
connect addr auth = init Command.connect addr auth

pub record SocksListener : Type 0 where
  pub stream : Conn
  pub proxy_addr : Address

abbrev pub listening : Result Error Address × Conn → Result Error SocksListener
listening (ok addr, c) = ok (record { stream = c; proxy_addr = addr })
listening (err e, c) = err e

-- `SocksListener::bind`
unfoldable pub bind : Conn → Address → Option UserKey → Result Error SocksListener
unfolding init
bind stream addr auth = listening (init Command.bind addr auth stream)

abbrev pub accepted : Result Error Address × Conn → Result Error (Conn × Address)
accepted (ok addr, c) = ok (c, addr)
accepted (err e, c) = err e

-- `SocksListener::accept`
unfoldable pub accept : SocksListener → Result Error (Conn × Address)
accept listener = accepted (receive read_final listener.stream)

-- ===== src/Server/Connection/Life/Ready.antt =====
-- src/server/connection/{connect,bind}.rs: what a connection that is ready has sent.
use socks5_impl.Prelude.{ℕ, ◌≡◌, Bool, true, false, List, ◌++◌}
use socks5_impl.Protocol.Response
use socks5_impl.Protocol.Response.{Response}
use socks5_impl.Stream.{Conn}
use socks5_impl.Server.Connection.Life.{
  Stage, connecting, connected, associating, associated, binding, listening, bound,
}

-- The replies that a connection still has to send.
abbrev pub due : Stage → ℕ
due (connecting c) = 1
due (connected c) = 0
due (associating c) = 1
due (associated c) = 0
due (binding c) = 2
due (listening c) = 1
due (bound c) = 0

abbrev pub is_association : Stage → Bool
is_association (associating c) = true
is_association (associated c) = true
is_association s = false

-- What went out on a connection, and that nothing was read from it.
abbrev pub Said : Conn → List ℕ → Conn → Type 0
Said c bs d = (d.out.sent ≡ c.out.sent ++ bs) × (d.input ≡ c.input)

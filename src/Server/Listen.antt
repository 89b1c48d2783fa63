-- ===== src/Server/Listen.antt =====
-- src/server/mod.rs: `Server`.
--
-- The sockets of the operating system, `S` before they listen and `L` then, are arguments.
use socks5_impl.Prelude.{ℕ, Bool, true, if◌then◌else◌}
use socks5_impl.Error.{IoError}
use socks5_impl.Net.{SocketAddr, is_ipv4}
use socks5_impl.Stream.{Result, ok, err, Act, ◌>>◌, Conn}
use socks5_impl.Server.Auth.{AuthExecutor}
use socks5_impl.Server.Connection.{IncomingConnection}

pub record Tcp (S L : Type 0) : Type 0 where
  pub new_v4 : Result IoError S
  pub new_v6 : Result IoError S
  pub set_reuseaddr : Bool → Act S IoError (Unit {0})
  pub bind_to : SocketAddr → Act S IoError (Unit {0})
  pub listen : ℕ → S → Result IoError L
  pub local_addr : L → Result IoError SocketAddr

pub record Server (L O : Type 0) : Type 0 where
  pub listener : L
  pub auth : AuthExecutor O

unfoldable pub new : {L O : Type 0} → L → AuthExecutor O → Server L O
new listener auth = record { listener = listener; auth = auth }

abbrev pub listening :
    {L O : Type 0} → AuthExecutor O → Result IoError L → Result IoError (Server L O)
listening auth (ok listener) = ok (new listener auth)
listening auth (err e) = err e

module _ {S L : Type 0} (tcp : Tcp S L) where
  abbrev pub socket_for : SocketAddr → Result IoError S
  socket_for addr = if is_ipv4 addr then tcp.new_v4 else tcp.new_v6

  abbrev pub prepare : SocketAddr → Act S IoError (Unit {0})
  prepare addr = tcp.set_reuseaddr true >> tcp.bind_to addr

  module _ {O : Type 0} where
    abbrev pub ready : AuthExecutor O → Result IoError (Unit {0}) × S → Result IoError (Server L O)
    ready auth (ok u, socket) = listening auth (tcp.listen 1024 socket)
    ready auth (err e, socket) = err e

    abbrev pub prepared :
        SocketAddr → AuthExecutor O → Result IoError S → Result IoError (Server L O)
    prepared addr auth (ok socket) = ready auth (prepare addr socket)
    prepared addr auth (err e) = err e

    -- `Server::bind`
    unfoldable pub bind : SocketAddr → AuthExecutor O → Result IoError (Server L O)
    unfolding new
    bind addr auth = prepared addr auth (socket_for addr)

    unfoldable pub local_addr : Server L O → Result IoError SocketAddr
    local_addr server = tcp.local_addr server.listener

abbrev pub Accepted : Type 0
Accepted = Result IoError (Conn × SocketAddr)

-- `accept`, on what the listener's `accept` returned; and `poll_accept`, once it is ready.
unfoldable pub accept :
    {L O : Type 0} → Server L O → Accepted → Result IoError (IncomingConnection O × SocketAddr)
accept server (ok (stream, addr)) = ok (record { stream = stream; auth = server.auth }, addr)
accept server (err e) = err e

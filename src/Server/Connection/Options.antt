-- ===== src/Server/Connection/Options.antt =====
-- src/server/connection/: the addresses, the shutdown and the options of a connection's socket.
--
-- The methods hand a call on to tokio's `TcpStream`, whose methods are the parameter `tcp`: they
-- run on the state `K` of the host's sockets and take the handle of one. A duration is a number of
-- nanoseconds.
pub mod Laws
mod Tests
use socks5_impl.Prelude.{ℕ, Bool, Option, List, [], ◌∷◌}
use socks5_impl.Error.{IoError}
use socks5_impl.Net.{SocketAddr}
use socks5_impl.Stream.{Result, Act, Conn}
use socks5_impl.Server.Connection.{
  IncomingConnection, Authenticated, NeedReply, NeedReplies, Connect, UdpAssociate, Bind,
  need_first_reply, need_second_reply,
}

-- The methods of a `T`.
pub record Options (K : Type 0) (T : Type 0) : Type 0 where
  pub local_addr : T → Act K IoError SocketAddr
  pub peer_addr : T → Act K IoError SocketAddr
  pub shutdown : T → Act K IoError (Unit {0})
  pub linger : T → Act K IoError (Option ℕ)
  pub set_linger : T → Option ℕ → Act K IoError (Unit {0})
  pub nodelay : T → Act K IoError Bool
  pub set_nodelay : T → Bool → Act K IoError (Unit {0})
  pub ttl : T → Act K IoError ℕ
  pub set_ttl : T → ℕ → Act K IoError (Unit {0})

-- `From` for `TcpStream`, of a connection in any state.
unfoldable pub connect_stream : {state : NeedReply} → Connect state → Conn
connect_stream conn = conn.stream

unfoldable pub associate_stream : {state : NeedReply} → UdpAssociate state → Conn
associate_stream conn = conn.stream

unfoldable pub bind_stream : {state : NeedReplies} → Bind state → Conn
bind_stream conn = conn.stream

unfoldable pub incoming_stream : {O : Type 0} → IncomingConnection O → Conn
incoming_stream conn = conn.stream

unfoldable pub authenticated_stream : Authenticated → Conn
authenticated_stream conn = conn.stream

-- `Deref` and `DerefMut`, of a connection that is ready.
unfoldable pub connect_deref : Connect NeedReply.ready → Conn
connect_deref conn = conn.stream

unfoldable pub associate_deref : UdpAssociate NeedReply.ready → Conn
associate_deref conn = conn.stream

unfoldable pub bind_deref : Bind NeedReplies.ready → Conn
bind_deref conn = conn.stream

module _ {K : Type 0} (tcp : Options K ℕ) where
  unfoldable pub incoming_connection : {O : Type 0} → Options K (IncomingConnection O)
  incoming_connection = record {
    local_addr = λ conn. tcp.local_addr conn.stream.handle;
    peer_addr = λ conn. tcp.peer_addr conn.stream.handle;
    shutdown = λ conn. tcp.shutdown conn.stream.handle;
    linger = λ conn. tcp.linger conn.stream.handle;
    set_linger = λ conn dur. tcp.set_linger conn.stream.handle dur;
    nodelay = λ conn. tcp.nodelay conn.stream.handle;
    set_nodelay = λ conn nodelay. tcp.set_nodelay conn.stream.handle nodelay;
    ttl = λ conn. tcp.ttl conn.stream.handle;
    set_ttl = λ conn ttl. tcp.set_ttl conn.stream.handle ttl;
  }

  unfoldable pub authenticated_connection : Options K Authenticated
  authenticated_connection = record {
    shutdown = λ conn. tcp.shutdown conn.stream.handle;
    local_addr = λ conn. tcp.local_addr conn.stream.handle;
    peer_addr = λ conn. tcp.peer_addr conn.stream.handle;
    linger = λ conn. tcp.linger conn.stream.handle;
    set_linger = λ conn dur. tcp.set_linger conn.stream.handle dur;
    nodelay = λ conn. tcp.nodelay conn.stream.handle;
    set_nodelay = λ conn nodelay. tcp.set_nodelay conn.stream.handle nodelay;
    ttl = λ conn. tcp.ttl conn.stream.handle;
    set_ttl = λ conn ttl. tcp.set_ttl conn.stream.handle ttl;
  }

  unfoldable pub udp_associate : {state : NeedReply} → Options K (UdpAssociate state)
  udp_associate = record {
    shutdown = λ conn. tcp.shutdown conn.stream.handle;
    local_addr = λ conn. tcp.local_addr conn.stream.handle;
    peer_addr = λ conn. tcp.peer_addr conn.stream.handle;
    linger = λ conn. tcp.linger conn.stream.handle;
    set_linger = λ conn dur. tcp.set_linger conn.stream.handle dur;
    nodelay = λ conn. tcp.nodelay conn.stream.handle;
    set_nodelay = λ conn nodelay. tcp.set_nodelay conn.stream.handle nodelay;
    ttl = λ conn. tcp.ttl conn.stream.handle;
    set_ttl = λ conn ttl. tcp.set_ttl conn.stream.handle ttl;
  }

  unfoldable pub bind_first : Options K (Bind need_first_reply)
  bind_first = record {
    shutdown = λ conn. tcp.shutdown conn.stream.handle;
    local_addr = λ conn. tcp.local_addr conn.stream.handle;
    peer_addr = λ conn. tcp.peer_addr conn.stream.handle;
    linger = λ conn. tcp.linger conn.stream.handle;
    set_linger = λ conn dur. tcp.set_linger conn.stream.handle dur;
    nodelay = λ conn. tcp.nodelay conn.stream.handle;
    set_nodelay = λ conn nodelay. tcp.set_nodelay conn.stream.handle nodelay;
    ttl = λ conn. tcp.ttl conn.stream.handle;
    set_ttl = λ conn ttl. tcp.set_ttl conn.stream.handle ttl;
  }

  unfoldable pub bind_second : Options K (Bind need_second_reply)
  bind_second = record {
    shutdown = λ conn. tcp.shutdown conn.stream.handle;
    local_addr = λ conn. tcp.local_addr conn.stream.handle;
    peer_addr = λ conn. tcp.peer_addr conn.stream.handle;
    linger = λ conn. tcp.linger conn.stream.handle;
    set_linger = λ conn dur. tcp.set_linger conn.stream.handle dur;
    nodelay = λ conn. tcp.nodelay conn.stream.handle;
    set_nodelay = λ conn nodelay. tcp.set_nodelay conn.stream.handle nodelay;
    ttl = λ conn. tcp.ttl conn.stream.handle;
    set_ttl = λ conn ttl. tcp.set_ttl conn.stream.handle ttl;
  }

  -- `Connect` has no options of its own before it is a stream.
  unfoldable pub connect_local_addr : {state : NeedReply} → Connect state → Act K IoError SocketAddr
  connect_local_addr conn = tcp.local_addr conn.stream.handle

  unfoldable pub connect_peer_addr : {state : NeedReply} → Connect state → Act K IoError SocketAddr
  connect_peer_addr conn = tcp.peer_addr conn.stream.handle

  unfoldable pub connect_shutdown : {state : NeedReply} → Connect state → Act K IoError (Unit {0})
  connect_shutdown conn = tcp.shutdown conn.stream.handle

-- Whatever holds the stream of a connection: one of its types, or the stream itself, once it is
-- ready or was converted.
pub data Held (O : Type 0) : Type 0 where
  incoming : IncomingConnection O → Held O
  authenticated : Authenticated → Held O
  associating : {state : NeedReply} → UdpAssociate state → Held O
  binding : Bind need_first_reply → Held O
  listening : Bind need_second_reply → Held O
  plain : Conn → Held O

-- A call of a setter.
pub data Setting : Type 0 where
  linger : Option ℕ → Setting
  nodelay : Bool → Setting
  ttl : ℕ → Setting

abbrev pub set_option : {K T : Type 0} → Options K T → T → Setting → Act K IoError (Unit {0})
set_option methods conn (linger dur) = methods.set_linger conn dur
set_option methods conn (nodelay on) = methods.set_nodelay conn on
set_option methods conn (ttl n) = methods.set_ttl conn n

module _ {K : Type 0} (tcp : Options K ℕ) {O : Type 0} where
  unfoldable pub set_held : Held O → Setting → Act K IoError (Unit {0})
  unfolding incoming_connection authenticated_connection udp_associate bind_first bind_second
  set_held (incoming conn) = set_option (incoming_connection tcp) conn
  set_held (authenticated conn) = set_option (authenticated_connection tcp) conn
  set_held (associating conn) = set_option (udp_associate tcp) conn
  set_held (binding conn) = set_option (bind_first tcp) conn
  set_held (listening conn) = set_option (bind_second tcp) conn
  set_held (plain conn) = set_option tcp conn.handle

  -- One call after the other, with what each returns.
  unfoldable pub set_all : List (Held O × Setting) → K → List (Result IoError (Unit {0})) × K
  set_all [] k = ([], k)
  set_all ((conn, x) ∷ calls) k =
      let (r, k') = set_held conn x k in let (rs, k'') = set_all calls k' in (r ∷ rs, k'')

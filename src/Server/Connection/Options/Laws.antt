-- ===== src/Server/Connection/Options/Laws.antt =====
-- src/server/connection/: the options that are in force after any calls of the setters.
use socks5_impl.Prelude.{ℕ, ◌≡◌, ◌≢◌, Bool, true, false, Option, List, [], ◌∷◌, ◌==◌}
use socks5_impl.Error.{IoError}
use socks5_impl.Net.{SocketAddr}
use socks5_impl.Stream.{Result, ok, err, Conn}
use socks5_impl.Server.Connection.Options.{
  Options, Held, incoming, authenticated, associating, binding, listening, plain, Setting,
  incoming_connection, authenticated_connection, udp_associate, bind_first, bind_second, linger,
  nodelay, ttl, set_option,
}

-- What the getters of a socket and of a connection return.
pub record View : Type 0 where
  pub local_addr : Result IoError SocketAddr
  pub peer_addr : Result IoError SocketAddr
  pub linger : Result IoError (Option ℕ)
  pub nodelay : Result IoError Bool
  pub ttl : Result IoError ℕ

abbrev pub view : {K T : Type 0} → Options K T → T → K → View
view methods conn k = record {
  local_addr = (methods.local_addr conn k).0;
  peer_addr = (methods.peer_addr conn k).0;
  linger = (methods.linger conn k).0;
  nodelay = (methods.nodelay conn k).0;
  ttl = (methods.ttl conn k).0;
}

-- A host may keep a time to linger with less precision than it was given, as whole seconds.
abbrev pub changed : (Option ℕ → Option ℕ) → Setting → View → View
changed kept (linger dur) v = record v { linger = ok (kept dur) }
changed kept (nodelay on) v = record v { nodelay = ok on }
changed kept (ttl n) v = record v { ttl = ok n }

-- What a host documents: a getter returns the value that was set last, a time to linger as far as the host
-- keeps it; a setter that fails changes nothing; and a setter changes no other option, no address and
-- no other socket.
pub record Remembers {K : Type 0} (tcp : Options K ℕ) (kept : Option ℕ → Option ℕ) : Type 0 where
  pub set_is_read :
      (h : ℕ) (x : Setting) (k k' : K)
      → set_option tcp h x k ≡ (ok tt, k')
      → view tcp h k' ≡ changed kept x (view tcp h k)
  pub failure_keeps :
      (h : ℕ) (x : Setting) (e : IoError) (k k' : K)
      → set_option tcp h x k ≡ (err e, k')
      → view tcp h k' ≡ view tcp h k
  pub other_kept :
      (h h' : ℕ) (x : Setting) (k : K)
      → h ≢ h'
      → view tcp h' (set_option tcp h x k).1 ≡ view tcp h' k

abbrev pub stream_held : {O : Type 0} → Held O → Conn
stream_held (incoming conn) = conn.stream
stream_held (authenticated conn) = conn.stream
stream_held (associating conn) = conn.stream
stream_held (binding conn) = conn.stream
stream_held (listening conn) = conn.stream
stream_held (plain conn) = conn

-- What the getters of a connection return, each by the methods of its own type.
pub view_held : {K O : Type 0} → Options K ℕ → Held O → K → View
unfolding incoming_connection authenticated_connection udp_associate bind_first bind_second
view_held tcp (incoming conn) = view (incoming_connection tcp) conn
view_held tcp (authenticated conn) = view (authenticated_connection tcp) conn
view_held tcp (associating conn) = view (udp_associate tcp) conn
view_held tcp (binding conn) = view (bind_first tcp) conn
view_held tcp (listening conn) = view (bind_second tcp) conn
view_held tcp (plain conn) = view tcp conn.handle

-- The view of the socket `h` after calls that returned `rs`: the calls on its connections that succeeded
-- change it, in their order.
abbrev pub changed_if :
    (Option ℕ → Option ℕ) → Bool → Result IoError (Unit {0}) → Setting → View → View
changed_if kept true (ok u) x v = changed kept x v
changed_if kept true (err e) x v = v
changed_if kept false r x v = v

abbrev pub in_force :
    {O : Type 0}
    → (Option ℕ → Option ℕ)
    → ℕ
    → List (Held O × Setting)
    → List (Result IoError (Unit {0}))
    → View
    → View
in_force kept h [] rs v = v
in_force kept h (call ∷ calls) [] v = v
in_force kept h ((conn, x) ∷ calls) (r ∷ rs) v =
    in_force kept h calls rs (changed_if kept ((stream_held conn).handle == h) r x v)

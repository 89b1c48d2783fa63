-- ===== src/Samples/Hosts.antt =====
-- The system and the listener on which the tests run the example server.
use socks5_impl.Prelude.{Option, none, some, [], ◌∷◌}
use socks5_impl.Error.{Error, IoError, io_error, text, other}
use socks5_impl.Net.{SocketAddr}
use socks5_impl.Stream.{ok, err, Act, Conn}
use socks5_impl.Server.Listen.{Tcp}
use socks5_impl.Client.Init.Steps.{told}
use socks5_impl.Example.Handle.{Os}
use socks5_impl.Samples.{here, fresh}

abbrev pub refused : IoError
refused = io_error other (text "connection refused")

-- A system where names can be reached and addresses cannot.
abbrev pub host : Os
host = record {
  connect_domain = λ name port. ok (fresh (8 ∷ 9 ∷ []));
  connect_addr = λ addr. err refused;
  trace_peers = λ conn target. ok tt;
  copy_bidirectional = λ target conn. (ok tt, told target.input conn);
  shutdown = λ conn. (ok tt, conn);
  describe = λ e. "refused";
}

abbrev pub no_association : Act Conn Error (Unit {0})
no_association c = (ok tt, c)

-- A listener that is its address.
abbrev pub tcp : Tcp (Option SocketAddr) SocketAddr
tcp = record {
  new_v4 = ok none;
  new_v6 = err refused;
  set_reuseaddr = λ reuse s. (ok tt, s);
  bind_to = λ addr s. (ok tt, some addr);
  listen = λ backlog s. ok here;
  local_addr = λ l. ok l;
}

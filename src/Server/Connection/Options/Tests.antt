-- ===== src/Server/Connection/Options/Tests.antt =====
-- src/server/connection/: the options and the sockets on a concrete host.
use socks5_impl.Prelude.{
  ℕ, zero, suc, ◌≡◌, refl, Bool, true, false, ==_iff, Option, none, some, ◌/◌, ◌*◌, List, [], ◌∷◌,
  ◌==◌, if◌then◌else◌,
}
use socks5_impl.Error.{IoError, io_error, text, other}
use socks5_impl.Stream.{Result, ok, err}
use socks5_impl.Server.Auth.{no_auth_executor}
use socks5_impl.Server.Connection.{IncomingConnection, Connect, NeedReply}
use socks5_impl.Server.Connection.Options.{
  Options, Held, incoming, plain, Setting, ttl, nodelay, set_all, set_held,
}
use socks5_impl.Server.Connection.Options.Laws.{view}
use socks5_impl.Samples.{client, relay, fresh}

-- The options of one socket, and a host that knows them by handle.
record Settings : Type 0 where
  linger : Option ℕ
  nodelay : Bool
  ttl : ℕ

abbrev Host : Type 0
Host = ℕ → Settings

abbrev put : ℕ → Settings → Host → Host
put h s k i = if h == i then s else k i

-- It refuses a time to live of zero.
abbrev set_ttl : ℕ → ℕ → Host → Result IoError (Unit {0}) × Host
set_ttl h zero k = (err (io_error other (text "invalid argument")), k)
set_ttl h (suc n) k = (ok tt, put h (record (k h) { ttl = suc n }) k)

-- It keeps a time to linger as whole seconds.
abbrev whole_seconds : Option ℕ → Option ℕ
whole_seconds none = none
whole_seconds (some n) = some ((n / 1000000000) * 1000000000)

abbrev host : Options Host ℕ
host = record {
  local_addr = λ h k. (ok relay, k);
  peer_addr = λ h k. (ok client, k);
  shutdown = λ h k. (ok tt, k);
  linger = λ h k. (ok (k h).linger, k);
  set_linger = λ h dur k. (ok tt, put h (record (k h) { linger = whole_seconds dur }) k);
  nodelay = λ h k. (ok (k h).nodelay, k);
  set_nodelay = λ h on k. (ok tt, put h (record (k h) { nodelay = on }) k);
  ttl = λ h k. (ok (k h).ttl, k);
  set_ttl = set_ttl;
}

==_self : (h : ℕ) → (h == h) ≡ true
==_self h = (==_iff h h).1 refl

put_self : (h : ℕ) (s : Settings) (k : Host) → put h s k h ≡ s
put_self h s k = rw (==_self h)

-- A connection as it comes in, and the same socket when its request was answered.
abbrev newcomer : IncomingConnection (Unit {0})
newcomer = record { stream = fresh []; auth = no_auth_executor }

abbrev served : Connect NeedReply.ready
served = record { stream = fresh (9 ∷ []) }

-- Its time to live is set as it comes in, then refused, then its other options are set on the stream.
abbrev calls : List (Held (Unit {0}) × Setting)
calls =
    (incoming newcomer, ttl 64)
    ∷ (incoming newcomer, ttl 0)
    ∷ (plain served.stream, nodelay true)
    ∷ (plain served.stream, Setting.linger (some 2500000000))
    ∷ []

abbrev booted : Host
booted i = record { linger = none; nodelay = false; ttl = 128 }

-- The call that fails leaves what the first one set.
calls_are_seen : view host 3 (set_all host calls booted).1 ≡ record {
  local_addr = ok relay;
  peer_addr = ok client;
  linger = ok (some 2000000000);
  nodelay = ok true;
  ttl = ok 64;
}
unfolding set_all set_held
calls_are_seen = refl

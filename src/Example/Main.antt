-- ===== src/Example/Main.antt =====
-- examples/s5-server.rs: `main` and `main_loop`.
--
-- What the listener accepts is a list of turns; at its end the loop is still waiting. A task that is
-- spawned runs on a connection of its own, and its result is logged at most: it is kept here next to
-- the connection that it was given.
pub mod Laws
pub mod Stopping
use socks5_impl.Prelude.{
  ℕ, Bool, true, false, ◌&&◌, if◌then◌else◌, List, [], ◌∷◌, Option, none, some,
}
use socks5_impl.Error.{Error, IoError, io}
use socks5_impl.Net.{SocketAddr}
use socks5_impl.Stream.{Result, ok, err, Act, Conn}
use socks5_impl.Protocol.Password.UserKey.{UserKey}
use socks5_impl.Server.Auth.{AuthExecutor, no_auth_executor, user_key_auth}
use socks5_impl.Server.Connection.{IncomingConnection}
use socks5_impl.Server.Listen.{Tcp, Server, Accepted, accept, bind}
use socks5_impl.Example.Handle.{Os, handle}

-- A connection or an error, whether the flag is set by then, and the UDP association of the task.
pub record Turn : Type 0 where
  pub accepted : Accepted
  pub exiting : Bool
  pub associate : Act Conn Error (Unit {0})

pub record Task : Type 0 where
  pub stream : Conn
  pub ended : Result Error (Unit {0}) × Conn

-- What `main` returns if it does, and the tasks in the order of their start.
abbrev pub Run : Type 0
Run = Option (Result Error (Unit {0})) × List Task

abbrev pub spawning : Task → Run → Run
spawning t (res, ts) = (res, t ∷ ts)

-- `password.unwrap_or_default()`
abbrev pub or_default : Option (List ℕ) → List ℕ
or_default none = []
or_default (some password) = password

module _ {S L : Type 0} (os : Os) (tcp : Tcp S L) where
  module _ {O : Type 0} (downcast : O → Option (Result IoError Bool)) (has_flag : Bool) where
    -- `tokio::spawn(async move { handle(conn).await .. })`
    abbrev pub spawn : Act Conn Error (Unit {0}) → IncomingConnection O → Task
    spawn associate conn = record {
      stream = conn.stream;
      ended = handle os associate downcast conn.auth conn.stream;
    }

    -- The body of `while let Ok((conn, _)) = server.accept().await`.
    abbrev pub turn :
        Bool
        → Act Conn Error (Unit {0})
        → Run
        → Result IoError (IncomingConnection O × SocketAddr)
        → Run
    turn exiting associate rest (err e) = (some (ok tt), [])
    turn exiting associate rest (ok (conn, addr)) =
        if has_flag && exiting then (some (ok tt), []) else spawning (spawn associate conn) rest

    unfoldable pub serving : Server L O → List Turn → Run
    serving server [] = (none, [])
    serving server (t ∷ ts) =
        turn t.exiting t.associate (serving server ts) (accept server t.accepted)

    abbrev pub bound_or : List Turn → Result IoError (Server L O) → Run
    bound_or turns (ok server) = serving server turns
    bound_or turns (err e) = (some (err (io e)), [])

    unfoldable pub main_loop : AuthExecutor O → SocketAddr → List Turn → Run
    unfolding serving
    main_loop auth listen_addr turns = bound_or turns (bind tcp listen_addr auth)

  -- `main`, from the options on.
  unfoldable pub main : Option (List ℕ) → Option (List ℕ) → SocketAddr → List Turn → Run
  unfolding main_loop
  main (some username) password listen_addr turns =
      main_loop some true
        (user_key_auth (record { username = username; password = or_default password })) listen_addr
        turns
  main none password listen_addr turns =
      main_loop (λ u. none) true no_auth_executor listen_addr turns

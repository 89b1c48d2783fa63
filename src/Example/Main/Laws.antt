-- ===== src/Example/Main/Laws.antt =====
-- examples/s5-server.rs: whom the server serves, and until when.
use mathlib.Core.Path.{subst}
use socks5_impl.Prelude.{
  ℕ, ◌≡◌, refl, sym, ap, ◌∙◌, Bool, true, false, List, [], ◌∷◌, ◌++◌, map, All, All-map, inl, inr,
  ◌⊎◌, Option, some,
}
use socks5_impl.Error.{Error, IoError}
use socks5_impl.Net.{SocketAddr}
use socks5_impl.Stream.{Result, ok, err, Act, Conn}
use socks5_impl.Protocol.Password.UserKey.{UserKey}
use socks5_impl.Server.Auth.{AuthExecutor, user_key_auth}
use socks5_impl.Server.Connection.{IncomingConnection}
use socks5_impl.Server.Listen.{
  Tcp, Server, Accepted, accept, bind, new, listening, ready, prepare, prepared, socket_for,
}
use socks5_impl.Example.Handle.{Os, handle}
use socks5_impl.Example.Handle.Laws.{Passed, handle_authenticates}
use socks5_impl.Example.Main.{
  Turn, Task, Run, spawning, spawn, turn, serving, bound_or, main_loop, or_default, main,
}

listening-auth :
    {L O : Type 0} (auth : AuthExecutor O) (r : Result IoError L) (server : Server L O)
    → listening auth r ≡ ok server
    → server.auth ≡ auth
unfolding new
listening-auth auth (ok listener) server h =
    let same : new listener auth ≡ server = cc in ap (λ (s : Server _ _). s.auth) (sym same)
listening-auth auth (err e) server h = cc

module _ {S L : Type 0} (tcp : Tcp S L) where
  ready-auth :
      {O : Type 0} (auth : AuthExecutor O) (r : Result IoError (Unit {0}) × S) (server : Server L O)
      → ready tcp auth r ≡ ok server
      → server.auth ≡ auth
  ready-auth auth (ok u, socket) server h = listening-auth auth (tcp.listen 1024 socket) server h
  ready-auth auth (err e, socket) server h = cc

  prepared-auth :
      {O : Type 0} (addr : SocketAddr) (auth : AuthExecutor O) (r : Result IoError S)
      (server : Server L O)
      → prepared tcp addr auth r ≡ ok server
      → server.auth ≡ auth
  prepared-auth addr auth (ok socket) server h = ready-auth auth (prepare tcp addr socket) server h
  prepared-auth addr auth (err e) server h = cc

  pub bind-auth :
      {O : Type 0} (addr : SocketAddr) (auth : AuthExecutor O) (server : Server L O)
      → bind tcp addr auth ≡ ok server
      → server.auth ≡ auth
  unfolding bind
  bind-auth addr auth server h = prepared-auth addr auth (socket_for tcp addr) server h

module _ {S L : Type 0} (os : Os) (tcp : Tcp S L) where
  -- A connection that is accepted, and what its task does on UDP ASSOCIATE.
  pub record Client : Type 0 where
    pub stream : Conn
    pub addr : SocketAddr
    pub associate : Act Conn Error (Unit {0})

  abbrev pub turn_of : Client → Turn
  turn_of c = record { accepted = ok (c.stream, c.addr); exiting = false; associate = c.associate }

  -- `accept` has failed, or the flag is set.
  abbrev pub IsLast : Turn → Type 0
  IsLast t = ((e : IoError) × (t.accepted ≡ err e)) ⊎ (t.exiting ≡ true)

  module _ {O : Type 0} (downcast : O → Option (Result IoError Bool)) where
    abbrev pub task_of : AuthExecutor O → Client → Task
    task_of auth c =
        spawn os tcp downcast true c.associate (record { stream = c.stream; auth = auth })

    stopped :
        (associate : Act Conn Error (Unit {0})) (rest : Run)
        (r : Result IoError (IncomingConnection O × SocketAddr))
        → turn os tcp downcast true true associate rest r ≡ (some (ok tt), [])
    stopped associate rest (ok (conn, addr)) = refl
    stopped associate rest (err e) = refl

    stops :
        (t : Turn) (server : Server L O) (rest : Run)
        → IsLast t
        → turn os tcp downcast true t.exiting t.associate rest (accept server t.accepted)
          ≡ (some (ok tt), [])
    unfolding accept
    stops t server rest (inl (e, h)) =
        ap
          (λ (a : Accepted). turn os tcp downcast true t.exiting t.associate rest (accept server a))
          h
    stops t server rest (inr h) = rw h (stopped t.associate rest (accept server t.accepted))

    serving-turns :
        (cs : List Client) (last : Turn) (later : List Turn) (server : Server L O)
        → IsLast last
        → serving os tcp downcast true server (map turn_of cs ++ (last ∷ later))
          ≡ (some (ok tt), map (task_of server.auth) cs)
    unfolding serving accept
    serving-turns [] last later server h = stops last server _ h
    serving-turns (c ∷ cs) last later server h =
        ap (spawning (task_of server.auth c)) (serving-turns cs last later server h)

    -- Once the listener is bound, `main_loop` runs one task for each connection that is accepted, in
    -- their order and with the executor that it was given, until `accept` fails or the flag is set; then it returns
    -- with success, and of what comes later nothing is served.
    pub main_loop_serves :
        (cs : List Client) (last : Turn) (later : List Turn) (auth : AuthExecutor O)
        (listen_addr : SocketAddr) (server : Server L O)
        → IsLast last
        → bind tcp listen_addr auth ≡ ok server
        → main_loop os tcp downcast true auth listen_addr (map turn_of cs ++ (last ∷ later))
          ≡ (some (ok tt), map (task_of auth) cs)
    unfolding main_loop
    main_loop_serves cs last later auth listen_addr server h bound =
        rw bound
          (serving-turns cs last later server h ∙ rw (bind-auth tcp listen_addr auth server bound))

    -- Every task runs with the executor of the server.
    IsTask : AuthExecutor O → Task → Type 0
    IsTask auth t = (c : Client) × (t ≡ task_of auth c)

    turn-All :
        (exiting : Bool) (associate : Act Conn Error (Unit {0})) (server : Server L O) (rest : Run)
        (accepted : Accepted)
        → All (IsTask server.auth) rest.1
        → All
            (IsTask server.auth)
            (turn os tcp downcast true exiting associate rest (accept server accepted)).1
    unfolding accept IsTask
    turn-All exiting associate server rest (err e) h = tt
    turn-All true associate server rest (ok (stream, addr)) h = tt
    turn-All false associate server rest (ok (stream, addr)) h =
        ((record { stream = stream; addr = addr; associate = associate }, refl), h)

    serving-All :
        (server : Server L O) (ts : List Turn)
        → All (IsTask server.auth) (serving os tcp downcast true server ts).1
    unfolding serving
    serving-All server [] = tt
    serving-All server (t ∷ ts) =
        turn-All t.exiting t.associate server _ t.accepted (serving-All server ts)

    bound_or-All :
        (ts : List Turn) (auth : AuthExecutor O) (r : Result IoError (Server L O))
        → ((server : Server L O) → r ≡ ok server → server.auth ≡ auth)
        → All (IsTask auth) (bound_or os tcp downcast true ts r).1
    bound_or-All ts auth (err e) h = tt
    bound_or-All ts auth (ok server) h =
        subst (λ (a : AuthExecutor O). All (IsTask a) (serving os tcp downcast true server ts).1)
          (h server refl) (serving-All server ts)

    main_loop-All :
        (ts : List Turn) (auth : AuthExecutor O) (listen_addr : SocketAddr)
        → All (IsTask auth) (main_loop os tcp downcast true auth listen_addr ts).1
    unfolding main_loop
    main_loop-All ts auth listen_addr =
        bound_or-All ts auth (bind tcp listen_addr auth) (bind-auth tcp listen_addr auth)

  -- The task has failed, or its client has sent the password method and then `key`.
  pub IsServed : UserKey → Task → Type 0
  IsServed key t = ((e : Error) × (t.ended.0 ≡ err e)) ⊎ Passed key t.stream.input

  ended-IsServed :
      (key : UserKey) (c : Client) (r : Result Error (Unit {0}) × Conn)
      → handle os c.associate some (user_key_auth key) c.stream ≡ r
      → ((e : Error) × (r.0 ≡ err e)) ⊎ Passed key c.stream.input
  ended-IsServed key c (ok tt, c') h = inr (handle_authenticates os c.associate key c.stream c' h)
  ended-IsServed key c (err e, c') h = inl (e, refl)

  task-IsServed : (key : UserKey) (t : Task) → IsTask some (user_key_auth key) t → IsServed key t
  unfolding IsTask IsServed
  task-IsServed key t (c, e) = subst (IsServed key) (sym e) (ended-IsServed key c _ refl)

  -- Whatever the clients send: where the server is started with a user name, each of its tasks fails,
  -- or is one of a client that has sent the password method and then exactly the user name and the
  -- password of the options, an empty one where there is none.
  pub main_authenticates :
      (username : List ℕ) (password : Option (List ℕ)) (listen_addr : SocketAddr) (ts : List Turn)
      → All
          (IsServed (record { username = username; password = or_default password }))
          (main os tcp (some username) password listen_addr ts).1
  unfolding main
  main_authenticates username password listen_addr ts =
      let key : UserKey = record { username = username; password = or_default password } in
      All-map (task-IsServed key) _ (main_loop-All some ts (user_key_auth key) listen_addr)

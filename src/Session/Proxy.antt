-- ===== src/Session/Proxy.antt =====
-- The client of src/client/mod.rs and examples/s5-server.rs: from `main` with a user and a password to
-- the point where the client's connection is joined to its target.
mod Tests
use mathlib.Core.List.{map-append}
use socks5_impl.Prelude.{
  ℕ, ◌+◌, ◌≡◌, refl, ap, ◌∙◌, true, List, [], ◌∷◌, ◌++◌, map, length, some, arith,
}
use socks5_impl.Error.{Error, IoError}
use socks5_impl.Net.{SocketAddr}
use socks5_impl.Stream.{Result, ok, Act, as_error, Conn}
use socks5_impl.Stream.Delivery.{IsOpen}
use socks5_impl.Protocol.Command
use socks5_impl.Protocol.Reply.{succeeded}
use socks5_impl.Protocol.Address.{Address, unspecified, IsAddress, IsWritable}
use socks5_impl.Protocol.Request
use socks5_impl.Protocol.Password.UserKey.{UserKey, IsUserKey, IsWritableKey, key_eq_refl}
use socks5_impl.Protocol.Handshake.AuthMethod.{user_pass}
use socks5_impl.Server.Auth.Laws.{status_bytes}
use socks5_impl.Server.Auth.{user_key_auth, verdict}
use socks5_impl.Server.Listen.{Tcp, Server, bind}
use socks5_impl.Server.Connection.{authenticate_on, client_connection}
use socks5_impl.Server.Connection.Laws.{wait_request_on_reads, method_bytes}
use socks5_impl.Client.Init.{init}
use socks5_impl.Client.Init.Steps.{told, credentials}
use socks5_impl.Client.Init.Laws.{hello, ask}
use socks5_impl.Example.Handle.{Os, handle, serve, dial, relay_to, admitted}
use socks5_impl.Example.Handle.Answers.{reply_bytes, length-reply_bytes, replies}
use socks5_impl.Example.Main.{Turn, Task, main}
use socks5_impl.Example.Main.Laws.{Client, turn_of, task_of, IsLast, main_loop_serves}
use socks5_impl.Session.{
  client_says, server_says, checked, says-parts, serves_credentials_on, Ends, session_completes,
}

-- The server's end when the client has been told that its target is reached.
abbrev pub joined : List ℕ → Conn → Conn
joined more server = told (reply_bytes succeeded) (record (checked true [] server) { input = more })

unspecified_fits : IsAddress unspecified × IsWritable unspecified
unfolding unspecified
unspecified_fits = (omega arith, tt)

module _ (os : Os) (addr : Address) (key : UserKey) (more_c more_s : List ℕ) (client server : Conn)
    (ends : Ends
      (server_says unspecified)
      (client_says Command.connect addr key)
      more_c
      more_s
      client
      server)
    (ha : IsAddress addr) (wa : IsWritable addr) (hk : IsUserKey key) (wk : IsWritableKey key) where
  lets_in :
      authenticate_on (user_key_auth key) server
      ≡ (ok (ok true), checked true (ask Command.connect addr ++ more_s) server)
  unfolding verdict
  lets_in = rw (key_eq_refl key) at (
      serves_credentials_on key key (ask Command.connect addr ++ more_s) server hk wk
        (ends.server_hears ∙ says-parts Command.connect addr key more_s)
        (ends.server_open.0, omega (arith, ends.server_open.1)))

  joins :
      (associate : Act Conn Error (Unit {0})) (target : Conn)
      → dial os addr ≡ ok target
      → os.trace_peers (joined more_s server) target ≡ ok tt
      → handle os associate some (user_key_auth key) server
        ≡ as_error (os.copy_bidirectional target) (joined more_s server)
  unfolding handle admitted serve client_connection relay_to
  joins associate target reached traced = rw (
    lets_in,
    wait_request_on_reads (Request.new Command.connect addr) more_s
        (checked true (ask Command.connect addr ++ more_s) server) ha wa refl,
    reached,
    replies succeeded (record (checked true [] server) { input = more_s })
        (ends.server_open.0, omega (arith, ends.server_open.1, length-reply_bytes succeeded)),
    traced,
  )

  -- What the example server and a client of the library come to, over a connection on which each hears what
  -- the other says with room to say it: the server runs with the client's user and password, its listener can be bound, the
  -- address of the client is well-formed, writable and can be reached, the credentials are UTF-8 and writable, and
  -- the trace of the two peers does not fail. Whatever other clients the server accepts before its
  -- last turn, and whatever comes after that, the task of this client joins its connection to the target, with all that it sent behind its request
  -- still to be read and with exactly what the client heard sent; the client's `init` returns
  -- the unspecified address, has sent exactly what the server heard, and leaves what follows unread.
  pub proxy_connects :
      {S L : Type 0} (tcp : Tcp S L) (listen_addr peer : SocketAddr) (listener : Server L _)
      (associate : Act Conn Error (Unit {0})) (target : Conn) (before after : List (Client os tcp))
      (last : Turn) (later : List Turn)
      → bind tcp listen_addr (user_key_auth key) ≡ ok listener
      → IsLast os tcp last
      → dial os addr ≡ ok target
      → os.trace_peers (joined more_s server) target ≡ ok tt
      → (main os tcp (some key.username) (some key.password) listen_addr (
            map
              (turn_of os tcp)
              (before ++ (record { stream = server; addr = peer; associate = associate } ∷ after))
            ++ (last ∷ later))
          ≡ (
            some (ok tt),
            map (task_of os tcp some (user_key_auth key)) before
                ++ (record {
                  stream = server;
                  ended = as_error (os.copy_bidirectional target) (joined more_s server);
                }
                    ∷ map (task_of os tcp some (user_key_auth key)) after),
          ))
        × ((joined more_s server).input ≡ more_s)
        × ((joined more_s server).out.sent ≡ server_says unspecified)
        × (c : Conn) × (init Command.connect addr (some key) client ≡ (ok unspecified, c))
        × (c.input ≡ more_c)
        × (c.out.sent ≡ client_says Command.connect addr key)
  unfolding main
  proxy_connects tcp listen_addr peer listener associate target before after last later bound
        is_last reached traced =
      let me : Client os tcp = record { stream = server; addr = peer; associate = associate } in
      let tasks = task_of os tcp some (user_key_auth key) in
      let (c, said, left, sent) =
        (session_completes Command.connect addr key unspecified more_c more_s client server ha wa hk
          wk unspecified_fits.0 unspecified_fits.1 ends).0 in
      (
        main_loop_serves os tcp some (before ++ (me ∷ after)) last later (user_key_auth key)
              listen_addr listener is_last bound
            ∙ ap (λ (ts : List Task). (some (ok tt), ts))
                (map-append tasks before (me ∷ after)
                  ∙ ap
                      (λ (r : Result Error (Unit {0}) × Conn).
                        map tasks before
                        ++ (record { stream = server; ended = r } ∷ map tasks after))
                      (joins associate target reached traced)),
        refl,
        ap
            (λ (bs : List ℕ).
              ((bs ++ method_bytes user_pass) ++ status_bytes true) ++ reply_bytes succeeded)
            ends.server_fresh,
        c,
        said,
        left,
        sent,
      )

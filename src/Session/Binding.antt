-- ===== src/Session/Binding.antt =====
-- The client of src/client/mod.rs and the server of src/server/connection/bind.rs on the two ends of a
-- BIND: the server's two replies, and the client's `bind` and `accept`.
mod Tests
use socks5_impl.Prelude.{
  true, ℕ, ◌+◌, ◌≤◌, ◌≡◌, refl, ap, ◌∙◌, List, [], ◌∷◌, ◌++◌, length, arith, some, append_assoc,
  length-append,
}
use socks5_impl.Error.{Error}
use socks5_impl.Stream.{Result, ok, err, Conn}
use socks5_impl.Stream.Delivery.{IsOpen, IsReady}
use socks5_impl.Protocol.Command
use socks5_impl.Protocol.Reply.{succeeded}
use socks5_impl.Protocol.Address.{Address, IsAddress, IsWritable}
use socks5_impl.Protocol.Request
use socks5_impl.Protocol.Response
use socks5_impl.Protocol.Handshake.AuthMethod.{user_pass}
use socks5_impl.Protocol.Password.UserKey.{UserKey, IsUserKey, IsWritableKey}
use socks5_impl.Server.Auth.{user_key_auth}
use socks5_impl.Server.Auth.Laws.{status_bytes}
use socks5_impl.Server.Connection.{
  Authenticated, ClientConnection, NeedReplies, Bind, need_first_reply, need_second_reply,
  authenticate, wait_request, client_connection, bind_first_reply, bind_second_reply, moved,
  moved_or_back,
}
use socks5_impl.Server.Connection.Laws.{method_bytes, wait_request_on_reads, send_reply_sends}
use socks5_impl.Client.Init.{SocksListener, bind, listening, accept, accepted, init}
use socks5_impl.Client.Init.Steps.{told, credentials}
use socks5_impl.Client.Init.Laws.{hello, ask, answer, init_user_pass}
use socks5_impl.Client.Reader.Laws.{read_final-succeeded}
use socks5_impl.Session.{client_says, server_says, checked, says-parts, admits}

-- Each end has said nothing and will hear what the other says, with `more` behind it.
pub record Meets (addr : Address) (key : UserKey) (at peer : Address) (more_c more_s : List ℕ)
    (client server : Conn) : Type 0 where
  pub client_hears : client.input ≡ server_says at ++ (answer peer ++ more_c)
  pub server_hears : server.input ≡ client_says Command.bind addr key ++ more_s
  pub client_fresh : client.out.sent ≡ []
  pub server_fresh : server.out.sent ≡ []
  pub client_ready : IsReady (length (client_says Command.bind addr key)) client.out
  pub server_open : IsOpen (4 + length (answer at) + length (answer peer)) server.out

-- The server's connection before, between and after its replies.
abbrev pub asked : List ℕ → Conn → Conn
asked more_s server = record (checked true [] server) { input = more_s }

abbrev pub replied : Address → List ℕ → Conn → Conn
replied at more_s server = told (answer at) (asked more_s server)

abbrev pub replied_twice : Address → Address → List ℕ → Conn → Conn
replied_twice at peer more_s server = told (answer peer) (replied at more_s server)

-- The client's connection when its request is out, and what it has left to read.
abbrev pub bound_on : Address → UserKey → List ℕ → Conn → Conn
bound_on addr key left client =
    told (ask Command.bind addr)
      (told (credentials key) (told (hello (some key)) (record client { input = left })))

module _ (addr : Address) (key : UserKey) (at peer : Address) (more_c more_s : List ℕ)
    (client server : Conn) (meets : Meets addr key at peer more_c more_s client server) where
  client_binds :
      IsWritable addr
      → IsWritableKey key
      → IsAddress at
      → IsWritable at
      → bind client addr (some key)
        ≡ ok (record { stream = bound_on addr key (answer peer ++ more_c) client; proxy_addr = at })
  unfolding bind
  client_binds wa wk h w = ap listening (
      init_user_pass Command.bind addr at key (answer peer ++ more_c) client wa wk h w
        (meets.client_hears)
        (
          meets.client_ready.0,
          omega (
            arith,
            meets.client_ready.1,
            length-append (hello (some key)) (credentials key ++ ask Command.bind addr),
            length-append (credentials key) (ask Command.bind addr),
          ),
        ))

  client_accepts :
      IsAddress peer
      → IsWritable peer
      → accept
          (record { stream = bound_on addr key (answer peer ++ more_c) client; proxy_addr = at })
        ≡ ok (bound_on addr key more_c client, peer)
  unfolding accept
  client_accepts h w = rw (read_final-succeeded peer more_c h w)

  server_waits :
      IsAddress addr
      → IsWritable addr
      → wait_request (record { stream = checked true (ask Command.bind addr ++ more_s) server })
        ≡ ok (ClientConnection.bind (record { stream = asked more_s server }) addr)
  unfolding wait_request client_connection
  server_waits h w =
      ap (λ (r : Result Error ClientConnection × Conn). r.0)
        (wait_request_on_reads (Request.new Command.bind addr) more_s _ h w refl)

  first_reply :
      bind_first_reply (record { stream = asked more_s server }) succeeded at
      ≡ ok (record { stream = replied at more_s server })
  unfolding bind_first_reply
  first_reply = ap (moved (λ c. record { stream = c })) (
      send_reply_sends (Response.new succeeded at) (asked more_s server)
        (meets.server_open.0, omega (arith, meets.server_open.1)))

  second_reply :
      bind_second_reply (record { stream = replied at more_s server }) succeeded peer
      ≡ ok (record { stream = replied_twice at peer more_s server })
  unfolding bind_second_reply
  second_reply = ap (moved_or_back (λ c. record { stream = c })) (
      send_reply_sends (Response.new succeeded peer) (replied at more_s server)
        (meets.server_open.0, omega (arith, meets.server_open.1)))

  -- What the calls of a BIND come to, between a client and a server with the same credentials that each
  -- hear what the other says and have room to say it, where the addresses and the credentials are
  -- well-formed and writable: the server gets a BIND of the client's address and its two replies go out; the client's `bind` returns
  -- the address of the first and its `accept` the address of the second; each end has sent exactly
  -- what the other was given to hear, and what stands behind the dialogue is left unread.
  pub bind_completes :
      IsAddress addr
      → IsWritable addr
      → IsUserKey key
      → IsWritableKey key
      → IsAddress at
      → IsWritable at
      → IsAddress peer
      → IsWritable peer
      → (authenticate (record { stream = server; auth = user_key_auth key })
          ≡ ok (record { stream = checked true (ask Command.bind addr ++ more_s) server }, ok true))
        × (wait_request (record { stream = checked true (ask Command.bind addr ++ more_s) server })
            ≡ ok (ClientConnection.bind (record { stream = asked more_s server }) addr))
        × (bind_first_reply (record { stream = asked more_s server }) succeeded at
            ≡ ok (record { stream = replied at more_s server }))
        × (bind_second_reply (record { stream = replied at more_s server }) succeeded peer
            ≡ ok (record { stream = replied_twice at peer more_s server }))
        × (bind client addr (some key)
            ≡ ok (record {
              stream = bound_on addr key (answer peer ++ more_c) client;
              proxy_addr = at;
            }))
        × (accept (record {
          stream = bound_on addr key (answer peer ++ more_c) client;
          proxy_addr = at;
        })
            ≡ ok (bound_on addr key more_c client, peer))
        × ((replied_twice at peer more_s server).out.sent ≡ server_says at ++ answer peer)
        × ((bound_on addr key more_c client).out.sent ≡ client_says Command.bind addr key)
        × ((replied_twice at peer more_s server).input ≡ more_s)
        × ((bound_on addr key more_c client).input ≡ more_c)
  bind_completes ha wa hk wk hb wb hp wp = (
    admits key (ask Command.bind addr ++ more_s) server hk wk
        (meets.server_hears ∙ says-parts Command.bind addr key more_s)
        (meets.server_open.0, omega (arith, meets.server_open.1)),
    server_waits ha wa,
    first_reply,
    second_reply,
    client_binds wa wk hb wb,
    client_accepts hp wp,
    ap
        (λ (bs : List ℕ).
          (((bs ++ method_bytes user_pass) ++ status_bytes true) ++ answer at) ++ answer peer)
        meets.server_fresh,
    rw meets.client_fresh
        (append_assoc (hello (some key)) (credentials key) (ask Command.bind addr)),
    refl,
    refl,
  )

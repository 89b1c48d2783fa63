-- ===== src/Session.antt =====
-- The client of src/client/mod.rs and the server of src/server/ on the two ends of a connection:
-- each reads what the other has sent.
mod Datagrams
mod Refusal
pub mod Transfer
mod Association
mod Binding
mod Proxy
mod Tests
use socks5_impl.Prelude.{
  ℕ, ◌+◌, ◌≤◌, ◌≡◌, refl, ap, ◌∙◌, Bool, true, false, List, [], ◌∷◌, ◌++◌, length, arith, some,
  if◌then◌else◌, append_assoc, length-append,
}
use socks5_impl.Error.{Error, IoError}
use socks5_impl.Stream.{Result, ok, err, Conn, Sink}
use socks5_impl.Stream.Delivery.{sending, IsOpen, IsReady}
use socks5_impl.Protocol.Command.{Command}
use socks5_impl.Protocol.Reply.{succeeded}
use socks5_impl.Protocol.Address.{Address, IsAddress, IsWritable}
use socks5_impl.Protocol.Request
use socks5_impl.Protocol.Response
use socks5_impl.Protocol.Handshake.AuthMethod.{AuthMethod, no_auth, user_pass, method_eq}
use socks5_impl.Protocol.Handshake.Request as HandshakeRequest
use socks5_impl.Protocol.Password.UserKey.{UserKey, IsUserKey, IsWritableKey, key_eq, key_eq_refl}
use socks5_impl.Protocol.Password.Request as PasswordRequest
use socks5_impl.Server.Auth.{AuthExecutor, user_key_auth, check_user_key, verdict}
use socks5_impl.Server.Auth.Laws.{check_user_key_answers, status_bytes, outcome}
use socks5_impl.Server.Connection.{
  IncomingConnection, Authenticated, authenticate, authenticate_on, authenticated, execute,
  ClientConnection, wait_request, send_reply,
}
use socks5_impl.Server.Connection.Laws.{
  IsFor, authenticate_answers, wait_request_dispatches, send_reply_sends, method_bytes,
}
use socks5_impl.Client.Init.{init, offered}
use socks5_impl.Client.Init.Steps.{told, credentials}
use socks5_impl.Client.Init.Laws.{hello, ask, answer, init_user_pass}

-- The server's end after the sub-negotiation, with the client's last message still to be read.
abbrev pub checked : Bool → List ℕ → Conn → Conn
checked passed rest c = record c {
  input = rest;
  out = sending (status_bytes passed) (sending (method_bytes user_pass) c.out);
}

offers_password :
    (key : UserKey)
    → HandshakeRequest.evaluate_method (HandshakeRequest.new (offered (some key))) user_pass ≡ true
unfolding HandshakeRequest.evaluate_method HandshakeRequest.any_method method_eq offered
offers_password key = refl

offer_fits :
    (key : UserKey) → HandshakeRequest.IsWritable (HandshakeRequest.new (offered (some key)))
unfolding offered
offer_fits key = (omega arith, (tt, (tt, tt)))

-- A server with the password method, on the client's offer and writable credentials, over a
-- connection that takes its two answers: it chooses the method, tells the client whether the
-- credentials are the configured ones, and its executor returns `Ok(true)` or an error accordingly.
pub serves_credentials_on :
    (key own : UserKey) (rest : List ℕ) (c : Conn)
    → IsUserKey key
    → IsWritableKey key
    → c.input ≡ hello (some key) ++ (credentials key ++ rest)
    → IsOpen 4 c.out
    → authenticate_on (user_key_auth own) c
      ≡ (ok (outcome (key_eq key own)), checked (key_eq key own) rest c)
unfolding user_key_auth
serves_credentials_on key own rest c u w e (b, room) =
    (rw (offers_password key) at (
      authenticate_answers (user_key_auth own) (HandshakeRequest.new (offered (some key)))
        (credentials key ++ rest) c (offer_fits key) e (b, omega arith)))
    ∙ ap (λ (r : Result IoError Bool × Conn). (ok r.0, r.1))
        (check_user_key_answers own (PasswordRequest.new key.username key.password) rest _ u w refl
          (b, omega arith))

pub serves_credentials :
    (key own : UserKey) (rest : List ℕ) (c : Conn)
    → IsUserKey key
    → IsWritableKey key
    → c.input ≡ hello (some key) ++ (credentials key ++ rest)
    → IsOpen 4 c.out
    → authenticate (record { stream = c; auth = user_key_auth own })
      ≡ ok (record { stream = checked (key_eq key own) rest c }, outcome (key_eq key own))
unfolding authenticate
serves_credentials key own rest c u w e o =
    ap authenticated (serves_credentials_on key own rest c u w e o)

-- The two ends at the start, each with the bytes that the other will have sent and `more` behind
-- them, and nothing sent or held back yet.
pub record Ends (to_client to_server more_c more_s : List ℕ) (client server : Conn) : Type 0 where
  pub client_hears : client.input ≡ to_client ++ more_c
  pub server_hears : server.input ≡ to_server ++ more_s
  pub client_fresh : client.out.sent ≡ []
  pub server_fresh : server.out.sent ≡ []
  pub client_ready : IsReady (length to_server) client.out
  pub server_open : IsOpen (length to_client) server.out

-- What each end says in the dialogue of a password and a granted command.
abbrev pub client_says : Command → Address → UserKey → List ℕ
client_says command addr key = hello (some key) ++ (credentials key ++ ask command addr)

abbrev pub server_says : Address → List ℕ
server_says bound = method_bytes user_pass ++ (status_bytes true ++ answer bound)

-- The server's calls: authenticate, wait for the request, reply that it succeeded. The connection
-- that waits for its reply is one for the command and the address of the client.
abbrev pub Granted : Command → Address → UserKey → Address → List ℕ → Conn → Conn → Type 0
Granted command addr key bound more server last =
    (waiting : Authenticated) × (next : ClientConnection) × (asked : Conn) × (authenticate
        (record { stream = server; auth = user_key_auth key })
      ≡ ok (waiting, ok true))
    × (wait_request waiting ≡ ok next)
    × IsFor command addr asked next
    × (send_reply succeeded bound asked ≡ (ok tt, last))
    × (last.input ≡ more)
    × (last.out.sent ≡ server_says bound)

pub says-parts :
    (command : Command) (addr : Address) (key : UserKey) (more : List ℕ)
    → client_says command addr key ++ more
      ≡ hello (some key) ++ (credentials key ++ (ask command addr ++ more))
says-parts command addr key more =
    append_assoc (hello (some key)) (credentials key ++ ask command addr) more
    ∙ ap (λ (bs : List ℕ). hello (some key) ++ bs)
        (append_assoc (credentials key) (ask command addr) more)

-- A server with the credentials of the client lets it in.
pub admits :
    (key : UserKey) (rest : List ℕ) (c : Conn)
    → IsUserKey key
    → IsWritableKey key
    → c.input ≡ hello (some key) ++ (credentials key ++ rest)
    → IsOpen 4 c.out
    → authenticate (record { stream = c; auth = user_key_auth key })
      ≡ ok (record { stream = checked true rest c }, ok true)
unfolding verdict
admits key rest c hk wk heard o =
    rw (key_eq_refl key) at (serves_credentials key key rest c hk wk heard o)

module _ (command : Command) (addr : Address) (key : UserKey) (bound : Address)
    (more_c more_s : List ℕ) (client server : Conn)
    (ends : Ends
      (server_says bound)
      (client_says command addr key)
      more_c
      more_s
      client
      server) where
  client_part :
      IsWritable addr
      → IsWritableKey key
      → IsAddress bound
      → IsWritable bound
      → (c : Conn) × (init command addr (some key) client ≡ (ok bound, c))
        × (c.input ≡ more_c)
        × (c.out.sent ≡ client_says command addr key)
  client_part wa wk hb wb = (
    _,
    init_user_pass command addr bound key more_c client wa wk hb wb ends.client_hears (
      ends.client_ready.0,
      omega (
        arith,
        ends.client_ready.1,
        length-append (hello (some key)) (credentials key ++ ask command addr),
        length-append (credentials key) (ask command addr),
      ),
    ),
    refl,
    rw ends.client_fresh (append_assoc (hello (some key)) (credentials key) (ask command addr)),
  )

  server_part :
      IsAddress addr
      → IsWritable addr
      → IsUserKey key
      → IsWritableKey key
      → (s : Conn) × Granted command addr key bound more_s server s
  server_part ha wa hk wk =
      let waiting : Conn = checked true (ask command addr ++ more_s) server in
      let asked : Conn = record waiting { input = more_s } in
      let last : Conn = told (answer bound) asked in
      let (next, requests, serves) =
        wait_request_dispatches (Request.new command addr) more_s (record { stream = waiting }) ha
          wa refl in
      (
        last,
        (
          record { stream = waiting },
          next,
          asked,
          admits key (ask command addr ++ more_s) server hk wk
              (ends.server_hears ∙ says-parts command addr key more_s)
              (ends.server_open.0, omega (arith, ends.server_open.1)),
          requests,
          serves,
          send_reply_sends (Response.new succeeded bound) asked
              (ends.server_open.0, omega (arith, ends.server_open.1)),
          refl,
          ap
              (λ (bs : List ℕ).
                ((bs ++ method_bytes user_pass) ++ status_bytes true) ++ answer bound)
              ends.server_fresh,
        ),
      )

-- A client and a server with the same credentials, each hearing what the other says and with room
-- to say it, where the addresses and the credentials are well-formed and writable: the client's call
-- returns the address that the server bound, the server gets exactly the command and the
-- address that the client asked for, each has sent exactly what the other was given to hear, and
-- what stands behind the dialogue is left unread at both ends.
pub session_completes :
    (command : Command) (addr : Address) (key : UserKey) (bound : Address) (more_c more_s : List ℕ)
    (client server : Conn)
    → IsAddress addr
    → IsWritable addr
    → IsUserKey key
    → IsWritableKey key
    → IsAddress bound
    → IsWritable bound
    → Ends (server_says bound) (client_says command addr key) more_c more_s client server
    → ((c : Conn) × (init command addr (some key) client ≡ (ok bound, c))
        × (c.input ≡ more_c)
        × (c.out.sent ≡ client_says command addr key))
      × ((s : Conn) × Granted command addr key bound more_s server s)
session_completes command addr key bound more_c more_s client server ha wa hk wk hb wb ends = (
  client_part command addr key bound more_c more_s client server ends wa wk hb wb,
  server_part command addr key bound more_c more_s client server ends ha wa hk wk,
)

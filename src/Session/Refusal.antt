-- ===== src/Session/Refusal.antt =====
-- The client of src/client/mod.rs and the server of src/server/ where the credentials differ.
use socks5_impl.Prelude.{
  ℕ, ◌≡◌, ◌≢◌, refl, ap, ◌∙◌, false, Bool-cases, inl, inr, List, ◌++◌, arith, some, append_assoc,
  length-append,
}
use socks5_impl.Error.{invalid_auth_status}
use socks5_impl.Stream.{ok, err, Conn}
use socks5_impl.Protocol.Command.{Command}
use socks5_impl.Protocol.Address.{Address}
use socks5_impl.Protocol.Handshake.AuthMethod.{user_pass}
use socks5_impl.Protocol.Password.UserKey.{UserKey, IsUserKey, IsWritableKey, key_eq, key_eq→eq}
use socks5_impl.Server.Auth.{user_key_auth}
use socks5_impl.Server.Auth.Laws.{status_bytes, outcome}
use socks5_impl.Server.Connection.{Authenticated, authenticate}
use socks5_impl.Server.Connection.Laws.{method_bytes}
use socks5_impl.Client.Init.{init}
use socks5_impl.Client.Init.Steps.{credentials}
use socks5_impl.Client.Init.Laws.{hello, init_refused}
use socks5_impl.Session.{Ends, checked, serves_credentials}

-- What each end says in the dialogue of wrong credentials.
abbrev pub client_offers : UserKey → List ℕ
client_offers key = hello (some key) ++ credentials key

abbrev pub server_refuses : List ℕ
server_refuses = method_bytes user_pass ++ status_bytes false

differs : (key own : UserKey) → key ≢ own → key_eq key own ≡ false
differs key own h = elim (Bool-cases (key_eq key own)) [
  | inl same ↦ absurd (h (key_eq→eq key own same))
  | inr other ↦ other
]

-- The server's call returns the connection, with the error as the output of the check.
abbrev pub Refused : UserKey → List ℕ → Conn → Type 0
Refused own more server =
    (waiting : Authenticated) × (authenticate (record { stream = server; auth = user_key_auth own })
      ≡ ok (waiting, outcome false))
    × (waiting.stream.input ≡ more)
    × (waiting.stream.out.sent ≡ server_refuses)

-- A client and a server with different credentials, each hearing what the other says and with room
-- to say it, where the client's are well-formed and writable: the client's call fails with the
-- status of a refusal and its request is not sent; the server's check has an error as its output;
-- and each has sent exactly what the other was given to hear.
pub session_refuses :
    (command : Command) (addr : Address) (key own : UserKey) (more_c more_s : List ℕ)
    (client server : Conn)
    → IsUserKey key
    → IsWritableKey key
    → key ≢ own
    → Ends server_refuses (client_offers key) more_c more_s client server
    → ((c : Conn) × (init command addr (some key) client ≡ (err (invalid_auth_status 0xff), c))
        × (c.input ≡ more_c)
        × (c.out.sent ≡ client_offers key))
      × Refused own more_s server
session_refuses command addr key own more_c more_s client server hk wk other ends = (
  (
    _,
    init_refused command addr key more_c client wk ends.client_hears (
      ends.client_ready.0,
      omega (arith, ends.client_ready.1, length-append (hello (some key)) (credentials key)),
    ),
    refl,
    ap (λ (bs : List ℕ). (bs ++ hello (some key)) ++ credentials key) ends.client_fresh,
  ),
  (
    record { stream = checked false more_s server },
    rw (differs key own other) at (
        serves_credentials key own more_s server hk wk
          (ends.server_hears ∙ append_assoc (hello (some key)) (credentials key) more_s)
          (ends.server_open.0, omega (arith, ends.server_open.1))),
    refl,
    ap (λ (bs : List ℕ). (bs ++ method_bytes user_pass) ++ status_bytes false) ends.server_fresh,
  ),
)

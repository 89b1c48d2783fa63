-- ===== src/Session/Binding/Tests.antt =====
-- A BIND between two concrete ends.
use socks5_impl.Prelude.{true, ◌≡◌, refl, [], ◌∷◌, ◌++◌, some, arith}
use socks5_impl.Stream.{ok, Conn}
use socks5_impl.Protocol.Address
use socks5_impl.Protocol.Address.{Address, socket_address, IsAddress}
use socks5_impl.Protocol.Command
use socks5_impl.Protocol.Reply.{succeeded}
use socks5_impl.Protocol.Request
use socks5_impl.Protocol.Response
use socks5_impl.Protocol.Handshake.Request as HandshakeRequest
use socks5_impl.Protocol.Password.Request as PasswordRequest
use socks5_impl.Server.Auth.{user_key_auth}
use socks5_impl.Server.Connection.{
  ClientConnection, authenticate, wait_request, bind_first_reply, bind_second_reply,
}
use socks5_impl.Client.Init.{bind, accept, offered}
use socks5_impl.Client.Init.Laws.{ask, answer}
use socks5_impl.Session.{client_says, server_says, checked}
use socks5_impl.Session.Binding.{Meets, asked, replied, replied_twice, bound_on, bind_completes}
use socks5_impl.Samples.{
  site, site-IsAddress, site-IsWritable, bound, bound-IsAddress, me, me-IsUserKey, me-IsWritableKey,
  client, fresh,
}

-- The peer that will connect.
abbrev peer : Address
peer = socket_address client

peer-IsAddress : IsAddress peer
peer-IsAddress = omega arith

abbrev binder : Conn
binder = fresh (server_says bound ++ (answer peer ++ (9 ∷ [])))

abbrev server : Conn
server = fresh (client_says Command.bind site me ++ (8 ∷ []))

meets : Meets site me bound peer (9 ∷ []) (8 ∷ []) binder server
unfolding Address.write_to_buf Request.write_to_buf HandshakeRequest.write_to_buf
    PasswordRequest.write_to_buf Response.write_to_buf offered
meets = record {
  client_hears = refl;
  server_hears = refl;
  client_fresh = refl;
  server_fresh = refl;
  client_ready = (refl, omega arith);
  server_open = (refl, omega arith);
}

bind_completes_example :
    (authenticate (record { stream = server; auth = user_key_auth me })
      ≡ ok (record { stream = checked true (ask Command.bind site ++ (8 ∷ [])) server }, ok true))
    × (wait_request (record { stream = checked true (ask Command.bind site ++ (8 ∷ [])) server })
        ≡ ok (ClientConnection.bind (record { stream = asked (8 ∷ []) server }) site))
    × (bind_first_reply (record { stream = asked (8 ∷ []) server }) succeeded bound
        ≡ ok (record { stream = replied bound (8 ∷ []) server }))
    × (bind_second_reply (record { stream = replied bound (8 ∷ []) server }) succeeded peer
        ≡ ok (record { stream = replied_twice bound peer (8 ∷ []) server }))
    × (bind binder site (some me)
        ≡ ok (record {
          stream = bound_on site me (answer peer ++ (9 ∷ [])) binder;
          proxy_addr = bound;
        }))
    × (accept (record {
      stream = bound_on site me (answer peer ++ (9 ∷ [])) binder;
      proxy_addr = bound;
    })
        ≡ ok (bound_on site me (9 ∷ []) binder, peer))
    × ((replied_twice bound peer (8 ∷ []) server).out.sent ≡ server_says bound ++ answer peer)
    × ((bound_on site me (9 ∷ []) binder).out.sent ≡ client_says Command.bind site me)
    × ((replied_twice bound peer (8 ∷ []) server).input ≡ 8 ∷ [])
    × ((bound_on site me (9 ∷ []) binder).input ≡ 9 ∷ [])
bind_completes_example =
    bind_completes site me bound peer (9 ∷ []) (8 ∷ []) binder server meets site-IsAddress
      site-IsWritable me-IsUserKey me-IsWritableKey bound-IsAddress tt peer-IsAddress tt

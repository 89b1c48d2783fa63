-- ===== src/Session/Proxy/Tests.antt =====
-- The example server and a client that knows its password, on a concrete network.
use socks5_impl.Prelude.{◌≡◌, refl, [], ◌∷◌, ◌++◌, map, some, inr, true, arith}
use socks5_impl.Stream.{ok, as_error, Conn}
use socks5_impl.Protocol.Address
use socks5_impl.Protocol.Address.{unspecified}
use socks5_impl.Protocol.Command
use socks5_impl.Protocol.Request
use socks5_impl.Protocol.Response
use socks5_impl.Protocol.Handshake.Request as HandshakeRequest
use socks5_impl.Protocol.Password.Request as PasswordRequest
use socks5_impl.Server.Auth.{user_key_auth}
use socks5_impl.Server.Listen.{bind, new}
use socks5_impl.Client.Init.{init, offered}
use socks5_impl.Example.Handle.{dial}
use socks5_impl.Example.Main.{Turn, main}
use socks5_impl.Example.Main.Laws.{Client, turn_of, task_of}
use socks5_impl.Session.{client_says, server_says, Ends}
use socks5_impl.Session.Proxy.{joined, proxy_connects}
use socks5_impl.Samples.Hosts.{host, no_association, tcp}
use socks5_impl.Samples.{
  here, client, site, site-IsAddress, site-IsWritable, me, me-IsUserKey, me-IsWritableKey, fresh,
}

abbrev user : Conn
user = fresh (server_says unspecified ++ [])

abbrev server : Conn
server = fresh (client_says Command.connect site me ++ (7 ∷ []))

meet : Ends (server_says unspecified) (client_says Command.connect site me) [] (7 ∷ []) user server
unfolding Address.write_to_buf Request.write_to_buf HandshakeRequest.write_to_buf
    PasswordRequest.write_to_buf Response.write_to_buf offered unspecified
meet = record {
  client_hears = refl;
  server_hears = refl;
  client_fresh = refl;
  server_fresh = refl;
  client_ready = (refl, omega arith);
  server_open = (refl, omega arith);
}

-- One that says nothing, and the turn at which the flag is set.
abbrev silent : Client host tcp
silent = record { stream = fresh []; addr = client; associate = no_association }

abbrev exiting_turn : Turn
exiting_turn = record {
  accepted = ok (fresh [], client);
  exiting = true;
  associate = no_association;
}

bound_here : bind tcp here (user_key_auth me) ≡ ok (new here (user_key_auth me))
unfolding bind new
bound_here = refl

reached : dial host site ≡ ok (fresh (8 ∷ 9 ∷ []))
unfolding dial
reached = refl

proxy_connects_example :
    (main host tcp (some me.username) (some me.password) here (
        map (turn_of host tcp) (
          (silent ∷ [])
          ++ (record { stream = server; addr = client; associate = no_association } ∷ []))
        ++ (exiting_turn ∷ []))
      ≡ (
        some (ok tt),
        map (task_of host tcp some (user_key_auth me)) (silent ∷ [])
            ++ (record {
              stream = server;
              ended =
                  as_error (host.copy_bidirectional (fresh (8 ∷ 9 ∷ []))) (joined (7 ∷ []) server);
            }
                ∷ map (task_of host tcp some (user_key_auth me)) []),
      ))
    × ((joined (7 ∷ []) server).input ≡ 7 ∷ [])
    × ((joined (7 ∷ []) server).out.sent ≡ server_says unspecified)
    × (c : Conn) × (init Command.connect site (some me) user ≡ (ok unspecified, c))
    × (c.input ≡ [])
    × (c.out.sent ≡ client_says Command.connect site me)
proxy_connects_example =
    proxy_connects host site me [] (7 ∷ []) user server meet site-IsAddress site-IsWritable
      me-IsUserKey me-IsWritableKey tcp here client (new here (user_key_auth me)) no_association
      (fresh (8 ∷ 9 ∷ [])) (silent ∷ []) [] exiting_turn [] bound_here (inr refl) reached refl

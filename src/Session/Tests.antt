-- ===== src/Session/Tests.antt =====
-- The two ends on concrete credentials, commands and addresses.
use socks5_impl.Prelude.{ℕ, ◌+◌, ◌≤◌, ◌≡◌, refl, List, [], ◌∷◌, ◌++◌, length, arith, some}
use socks5_impl.Stream.{ok, err, Conn}
use socks5_impl.Protocol.Address
use socks5_impl.Protocol.Address.{Address}
use socks5_impl.Protocol.Command
use socks5_impl.Protocol.Udp
use socks5_impl.Protocol.Request
use socks5_impl.Protocol.Response
use socks5_impl.Protocol.Password.UserKey.{UserKey}
use socks5_impl.Protocol.Handshake.Request as HandshakeRequest
use socks5_impl.Protocol.Password.Request as PasswordRequest
use socks5_impl.Server.Udp as Associated
use socks5_impl.Server.Udp.{datagram, packet}
use socks5_impl.Client.Init.{init, offered}
use socks5_impl.Client.Datagram.{build_socks5_udp_datagram, recv_from, arrived}
use socks5_impl.Session.{client_says, server_says, Granted, Ends, session_completes}
use socks5_impl.Error.{invalid_auth_status}
use socks5_impl.Session.Refusal.{client_offers, server_refuses, Refused, session_refuses}
use socks5_impl.Session.Datagrams.{client_to_server, server_to_client}
use socks5_impl.Protocol.Address.{socket_address}
use socks5_impl.Protocol.Address.Convert.{to_socket_addrs}
use socks5_impl.Client.Datagram.{elapsed}
use socks5_impl.Client.Udp.{UdpClientImpl, returns, transfer_data}
use socks5_impl.Example.Relay as Relaying
use socks5_impl.Example.Relay.{Sockets, incoming, feedback, closed, fresh_relay, buf_size}
use socks5_impl.Session.Transfer.{hearing, transfer_data_relayed}
use socks5_impl.Samples.Relayed.{remote, sockets, sockets-IsWilling}
use socks5_impl.Samples.{
  std, site, site-IsAddress, site-IsWritable, relay, bound, bound-IsAddress, me, me-IsUserKey,
  me-IsWritableKey, fresh,
}

abbrev client : Conn
client = fresh (server_says bound ++ [])

abbrev server : Conn
server = fresh (client_says Command.connect site me ++ [])

meet : Ends (server_says bound) (client_says Command.connect site me) [] [] client server
unfolding Address.write_to_buf Request.write_to_buf HandshakeRequest.write_to_buf
    PasswordRequest.write_to_buf Response.write_to_buf offered
meet = record {
  client_hears = refl;
  server_hears = refl;
  client_fresh = refl;
  server_fresh = refl;
  client_ready = (refl, omega arith);
  server_open = (refl, omega arith);
}

session_completes_example :
    ((c : Conn) × (init Command.connect site (some me) client ≡ (ok bound, c))
      × (c.input ≡ [])
      × (c.out.sent ≡ client_says Command.connect site me))
    × ((s : Conn) × Granted Command.connect site me bound [] server s)
session_completes_example =
    session_completes Command.connect site me bound [] [] client server site-IsAddress
      site-IsWritable me-IsUserKey me-IsWritableKey bound-IsAddress tt meet

abbrev other : UserKey
other = record me { password = [] }

abbrev ping : List ℕ
ping = 0x70 ∷ 0x69 ∷ 0x6e ∷ 0x67 ∷ []

ping_fits : Udp.len (Udp.new 0 site) + length ping ≤ 1500
unfolding Udp.len Address.len
ping_fits = omega arith

client_to_server_example :
    (bytes : List ℕ) × (build_socks5_udp_datagram ping site ≡ ok bytes)
    × (Associated.recv_from 1500 (datagram bytes relay ∷ [])
        ≡ (some (ok (record { pkt = ping; frag = 0; address = site; src_addr = relay })), []))
client_to_server_example =
    client_to_server ping site relay 1500 [] site-IsAddress site-IsWritable ping_fits

server_to_client_example :
    recv_from (arrived (packet ping 0 site)) ≡ ok (record { read = 4; address = site; buf = ping })
server_to_client_example = server_to_client ping site site-IsAddress site-IsWritable ping_fits

abbrev refused_client : Conn
refused_client = fresh (server_refuses ++ [])

abbrev refusing_server : Conn
refusing_server = fresh (client_offers me ++ [])

collide : Ends server_refuses (client_offers me) [] [] refused_client refusing_server
unfolding HandshakeRequest.write_to_buf PasswordRequest.write_to_buf offered
collide = record {
  client_hears = refl;
  server_hears = refl;
  client_fresh = refl;
  server_fresh = refl;
  client_ready = (refl, omega arith);
  server_open = (refl, omega arith);
}

session_refuses_example :
    ((c : Conn) × (init Command.connect site (some me) refused_client
        ≡ (err (invalid_auth_status 0xff), c))
      × (c.input ≡ [])
      × (c.out.sent ≡ client_offers me))
    × Refused other [] refusing_server
session_refuses_example =
    session_refuses Command.connect site me other [] [] refused_client refusing_server me-IsUserKey
      me-IsWritableKey (λ e. cc) collide

-- A client of `a.io:443`.
abbrev asking : UdpClientImpl
asking = record {
  client = record {
    socket = record {
      local_addr = ok relay;
      connect = λ addr. ok tt;
      send = λ bs. ok (length bs);
      recv = elapsed;
    };
    peer = relay;
    proxy_addr = bound;
    stream = fresh [];
  };
  server_addr = site;
}

site_found : to_socket_addrs std site ≡ ok (relay ∷ [])
unfolding to_socket_addrs
site_found = refl

ping_relayed : Udp.len (Udp.new 0 site) + length ping ≤ buf_size
unfolding Udp.len Address.len buf_size Udp.max_serialized_len
ping_relayed = omega arith

abbrev pong : List ℕ
pong = 0x70 ∷ 0x6f ∷ 0x6e ∷ 0x67 ∷ []

pong_fits : Udp.len (Udp.new 0 (socket_address remote)) + length pong ≤ 1500
unfolding Udp.len Address.len
pong_fits = omega arith

transfer_data_relayed_example :
    (there back : List ℕ) × (build_socks5_udp_datagram ping site ≡ ok there)
    × (Relaying.relay sockets
          (incoming (datagram there relay) ∷ feedback pong remote ∷ closed ∷ [])
          (fresh_relay sockets)
        ≡ (
          some (ok tt),
          record {
            incoming_addr = relay;
            dispatched = (ping, relay) ∷ [];
            answered = (back, relay) ∷ [];
          },
        ))
    × (transfer_data (hearing back asking) ping ≡ returns (ok pong))
transfer_data_relayed_example =
    transfer_data_relayed sockets asking ping pong relay relay remote [] [] (fresh_relay sockets)
      sockets-IsWilling site-IsAddress site-IsWritable site_found ping_relayed refl (omega arith) tt
      pong_fits

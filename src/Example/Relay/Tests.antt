-- ===== src/Example/Relay/Tests.antt =====
-- examples/s5-server.rs: the relay of an association on concrete datagrams.
use socks5_impl.Prelude.{◌≤◌, ◌≡◌, refl, [], ◌∷◌, ◌++◌, map, some, length, arith, inl, inr, ◌⊎◌}
use socks5_impl.Error.{string}
use socks5_impl.Net.{SocketAddr}
use socks5_impl.Stream.{ok, err}
use socks5_impl.Stream.Delivery.{IsOpen}
use socks5_impl.Protocol.Reply.{succeeded}
use socks5_impl.Protocol.Address
use socks5_impl.Protocol.Address.{Address, socket_address, domain_address}
use socks5_impl.Protocol.Response
use socks5_impl.Protocol.Udp
use socks5_impl.Server.Udp.{datagram, packet}
use socks5_impl.Client.Init.Steps.{told}
use socks5_impl.Example.Relay.{
  Sockets, Event, incoming, feedback, closed, Relay, zero_addr, fresh_relay,
  handle_s5_upd_associate, buf_size,
}
use socks5_impl.Example.Relay as Relaying
use socks5_impl.Example.Relay.Laws.{event_of, requests, responses, last_client, relay_fragment}
use socks5_impl.Example.Relay.Safety.{Trusts, relay-Trusts}
use socks5_impl.Example.Relay.Association.{announced, associate_serves}
use socks5_impl.Samples.Relayed.{listening, sockets, sockets-IsWilling, moves, moves-IsPossible}
use socks5_impl.Samples.{here, client, site, site-IsAddress, site-IsWritable, fresh}

announcement_fits : IsOpen (length (announced succeeded (socket_address listening))) (fresh []).out
unfolding Response.write_to_buf Address.write_to_buf
announcement_fits = (refl, omega arith)

associate_serves_example :
    handle_s5_upd_associate sockets (map event_of moves ++ (closed ∷ [])) (fresh []) ≡ (
      some (ok tt),
      told (announced succeeded (socket_address listening)) (fresh []),
      record {
        incoming_addr = last_client zero_addr moves;
        dispatched = requests moves;
        answered = responses zero_addr moves;
      },
    )
associate_serves_example =
    associate_serves sockets moves [] (fresh []) _ here listening sockets-IsWilling moves-IsPossible
      refl refl refl announcement_fits refl

-- The second of three fragments.
fragment_fits : Udp.len (Udp.new 2 site) ≤ buf_size
unfolding buf_size Udp.len Address.len Udp.max_serialized_len
fragment_fits = omega arith

relay_fragment_example :
    Relaying.relay sockets
      (incoming (datagram (packet (1 ∷ []) 2 site) client) ∷ closed ∷ [])
      (fresh_relay sockets)
    ≡ (some (err (string "[UDP] packet fragment is not supported")), fresh_relay sockets)
relay_fragment_example =
    relay_fragment sockets (1 ∷ []) 2 site client (closed ∷ []) (fresh_relay sockets) (omega arith)
      site-IsAddress site-IsWritable fragment_fits

-- The client's address, and the one before there is a client.
abbrev Known : SocketAddr → Type 0
Known addr = (addr ≡ client) ⊎ (addr ≡ zero_addr)

relay-Trusts_example :
    Trusts Known (Relaying.relay sockets (map event_of moves) (fresh_relay sockets)).1
relay-Trusts_example =
    relay-Trusts sockets Known (map event_of moves) (fresh_relay sockets) (inl refl, (tt, tt))
      (record { client = inr refl; answers = tt })

-- ===== src/Session/Association/Tests.antt =====
-- The two ends of an association on concrete addresses.
use socks5_impl.Prelude.{◌≡◌, refl, [], ◌∷◌, ◌++◌, map, some, none, length, arith}
use socks5_impl.Error.{IoError, io_error, text, other}
use socks5_impl.Stream.{ok, err, Conn}
use socks5_impl.Protocol.Address
use socks5_impl.Protocol.Address.{socket_address}
use socks5_impl.Protocol.Reply.{succeeded}
use socks5_impl.Protocol.Request
use socks5_impl.Protocol.Response
use socks5_impl.Protocol.Handshake.AuthMethod.{no_auth}
use socks5_impl.Protocol.Handshake.Request as HandshakeRequest
use socks5_impl.Server.Auth.{no_auth_executor}
use socks5_impl.Server.Connection.Laws.{method_bytes}
use socks5_impl.Client.Init.{offered}
use socks5_impl.Client.Init.Steps.{told}
use socks5_impl.Client.Init.Laws.{hello}
use socks5_impl.Client.Datagram.{elapsed}
use socks5_impl.Client.Udp.{UdpSocket, Network, datagram}
use socks5_impl.Client.Udp.Laws.{wanted, associated_on}
use socks5_impl.Example.Handle.Whole.{handle_whole}
use socks5_impl.Example.Handle.{Os}
use socks5_impl.Example.Relay.{closed, zero_addr}
use socks5_impl.Example.Relay.Laws.{event_of, requests, responses, last_client}
use socks5_impl.Example.Relay.Association.{announced}
use socks5_impl.Session.Association.{Joined, announcing, association_completes}
use socks5_impl.Samples.Relayed.{listening, sockets, sockets-IsWilling, moves, moves-IsPossible}
use socks5_impl.Samples.{std, here, client, site, fresh}

abbrev refused : IoError
refused = io_error other (text "connection refused")

-- A system where names can be reached and addresses cannot.
abbrev host : Os
host = record {
  connect_domain = λ name port. ok (fresh (8 ∷ 9 ∷ []));
  connect_addr = λ addr. err refused;
  trace_peers = λ conn target. ok tt;
  copy_bidirectional = λ target conn. (ok tt, told target.input conn);
  shutdown = λ conn. (ok tt, conn);
  describe = λ e. "refused";
}

-- A socket that sends everything and hears nothing.
abbrev socket : UdpSocket
socket = record {
  local_addr = ok client;
  connect = λ addr. ok tt;
  send = λ bs. ok (length bs);
  recv = elapsed;
}

abbrev client_end : Conn
client_end = fresh (method_bytes no_auth ++ announced succeeded (socket_address listening))

abbrev server_end : Conn
server_end = fresh (hello none ++ wanted client)

abbrev network : Network
network = record { std = std; connect_tcp = λ addr. ok client_end; bind_udp = λ addr. ok socket }

joined : Joined client listening client_end server_end
unfolding HandshakeRequest.write_to_buf Request.write_to_buf Response.write_to_buf
    Address.write_to_buf offered
joined = record {
  client_hears = refl;
  server_hears = refl;
  client_fresh = refl;
  server_fresh = refl;
  client_ready = (refl, omega arith);
  server_open = (refl, omega arith);
}

association_completes_example :
    (handle_whole host sockets
        (map event_of moves ++ (closed ∷ []))
        (λ u. none)
        no_auth_executor
        server_end
      ≡ (
        some (ok tt),
        announcing listening server_end,
        record {
          incoming_addr = last_client zero_addr moves;
          dispatched = requests moves;
          answered = responses zero_addr moves;
        },
      ))
    × (datagram network here site none
        ≡ ok (record {
          client = record {
            socket = socket;
            peer = listening;
            proxy_addr = socket_address listening;
            stream = associated_on client none [] client_end;
          };
          server_addr = site;
        }))
    × ((associated_on client none [] client_end).out.sent ≡ server_end.input)
    × ((announcing listening server_end).out.sent ≡ client_end.input)
association_completes_example =
    association_completes client listening client_end server_end joined host sockets network socket
      here here site moves [] (announcing listening server_end) (omega arith) tt
      (record { reads_v4 = refl; reads_v6 = refl }) refl refl refl refl sockets-IsWilling
      moves-IsPossible refl refl refl refl

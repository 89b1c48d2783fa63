-- ===== src/Samples/Relayed.antt =====
-- The sockets and datagrams on which the tests run the relay of examples/s5-server.rs.
use socks5_impl.Prelude.{refl, List, [], ◌∷◌, All, length, arith}
use socks5_impl.Net.{SocketAddr, v4}
use socks5_impl.Stream.{ok}
use socks5_impl.Protocol.Address
use socks5_impl.Protocol.Address.{Address, socket_address, domain_address}
use socks5_impl.Protocol.Address.Convert.{to_socket_addrs}
use socks5_impl.Protocol.Udp
use socks5_impl.Example.Relay.{Sockets, buf_size}
use socks5_impl.Example.Relay.Laws.{Move, request, response, IsPossible, IsWilling}
use socks5_impl.Samples.{here, client, std, site, site-IsAddress, site-IsWritable, relay}

-- A port that the server listens on, and a target that answers.
abbrev pub listening : SocketAddr
listening = v4 (10 ∷ 0 ∷ 0 ∷ 9 ∷ []) 40000

abbrev pub remote : SocketAddr
remote = v4 (10 ∷ 0 ∷ 0 ∷ 8 ∷ []) 53

abbrev pub sockets : Sockets
sockets = record {
  std = std;
  local_addr = λ conn. ok here;
  bind_listener = λ addr. ok listening;
  bind_dispatcher = ok tt;
  dispatch = λ bs to. ok (length bs);
  answer = λ bs to. ok (length bs);
  shutdown = λ conn. (ok tt, conn);
}

pub sockets-IsWilling : IsWilling sockets
sockets-IsWilling = record { dispatches = λ bs to. (_, refl); answers = λ bs to. (_, refl) }

abbrev pub moves : List Move
moves = request (1 ∷ 2 ∷ []) site relay client ∷ response (3 ∷ []) remote ∷ []

pub moves-IsPossible : All (IsPossible sockets) moves
unfolding buf_size Udp.len Address.len Udp.max_serialized_len to_socket_addrs
moves-IsPossible = ((site-IsAddress, site-IsWritable, omega arith, ([], refl)), ((omega arith), tt))

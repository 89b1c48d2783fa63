-- ===== src/Example/Query.antt =====
-- examples/dns-query.rs: `dns_query_from_server`, with its four ways to the server.
pub mod Laws
pub mod Program
mod Tests
use Prim.Native.String.{String}
use socks5_impl.Prelude.{
  ℕ, Bool, true, false, ◌&&◌, if◌then◌else◌, List, [], ◌∷◌, Option, none, some, take,
}
use socks5_impl.Error.{Error, IoError, io, error_of_elapsed}
use socks5_impl.Net.{SocketAddr}
use socks5_impl.Stream.{Result, ok, err, Act, ◌>>=◌, ◌>>◌, as_error, write_all, flush, Conn, emit}
use socks5_impl.Protocol.Address.Convert.{address_of_socket_addr}
use socks5_impl.Protocol.Password.UserKey.{UserKey}
use socks5_impl.Client.Init.{connect}
use socks5_impl.Client.Datagram.{Reception, elapsed, failed, arrived}
use socks5_impl.Client.Udp.{
  Network, UdpSocket, UdpClientImpl, any_addr, datagram, Outcome, returns, panics, transfer_data,
}

pub record CmdOpt : Type 0 where
  pub remote_dns_server : SocketAddr
  pub domain : List ℕ
  pub via_proxy : Bool
  pub proxy_addr : Option SocketAddr
  pub username : Option (List ℕ)
  pub password : Option (List ℕ)
  pub tcp : Bool

pub record Hosts : Type 0 where
  pub net : Network
  -- `TcpStream::connect`, to the server itself
  pub connect_server : SocketAddr → Result IoError Conn
  -- one `read` within the time limit
  pub read : Conn → Reception
  -- `send_to` of the socket that is bound without a proxy
  pub send_to : List ℕ → SocketAddr → Result IoError ℕ

abbrev pub is_none : Option SocketAddr → Bool
is_none none = true
is_none (some a) = false

unfoldable pub validate : CmdOpt → Result String (Unit {0})
validate opt =
    if opt.via_proxy && is_none opt.proxy_addr
    then err "proxy_addr is required when via_proxy is true"
    else ok tt

abbrev pub user_key : Option (List ℕ) → Option (List ℕ) → Option UserKey
user_key (some username) (some password) =
    some (record { username = username; password = password })
user_key username password = none

-- `timeout(..).await??` and `buf.truncate(n)`, with the buffer of 1500 bytes.
abbrev pub answered : Reception → Result Error (List ℕ)
answered elapsed = err error_of_elapsed
answered (failed e) = err (io e)
answered (arrived bs) = ok (take 1500 bs)

-- `write_all` and `flush`
unfoldable pub ask : List ℕ → Act Conn Error (Unit {0})
ask msg_buf = emit (as_error (write_all msg_buf)) >> emit (as_error flush)

module _ (hosts : Hosts) (opt : CmdOpt) (msg_buf : List ℕ) where
  abbrev pub key : Option UserKey
  key = user_key opt.username opt.password

  abbrev pub heard : Result Error (Unit {0}) × Conn → Outcome
  heard (ok u, c) = returns (answered (hosts.read c))
  heard (err e, c) = returns (err e)

  abbrev pub exchange : Act Conn Error (Unit {0}) → Result IoError Conn → Outcome
  exchange dialogue (ok c) = heard (dialogue c)
  exchange dialogue (err e) = returns (err (io e))

  abbrev pub through : Act Conn Error (Unit {0})
  through = do addr ← connect (address_of_socket_addr opt.remote_dns_server) key; ask msg_buf

  -- `(true, true)`, on the proxy that is there, or not: `unwrap`
  unfoldable pub tcp_proxy : Option SocketAddr → Outcome
  unfolding ask
  tcp_proxy (some proxy) = exchange through (hosts.net.connect_tcp proxy)
  tcp_proxy none = panics

  abbrev pub transferring : Result Error UdpClientImpl → Outcome
  transferring (ok client) = transfer_data client msg_buf
  transferring (err e) = returns (err e)

  -- `(false, true)`
  unfoldable pub udp_proxy : Option SocketAddr → Outcome
  udp_proxy (some proxy) =
      transferring (datagram hosts.net proxy (address_of_socket_addr opt.remote_dns_server) key)
  udp_proxy none = panics

  abbrev pub asked : Reception → Result IoError ℕ → Outcome
  asked reply (ok n) = returns (answered reply)
  asked reply (err e) = returns (err (io e))

  abbrev pub on_socket : Result IoError UdpSocket → Outcome
  on_socket (ok client) = asked client.recv (hosts.send_to msg_buf opt.remote_dns_server)
  on_socket (err e) = returns (err (io e))

  -- `match (opt.tcp, opt.via_proxy)`
  abbrev pub way : Bool → Bool → Outcome
  way true true = tcp_proxy opt.proxy_addr
  way true false = exchange (ask msg_buf) (hosts.connect_server opt.remote_dns_server)
  way false true = udp_proxy opt.proxy_addr
  way false false = on_socket (hosts.net.bind_udp (any_addr opt.remote_dns_server))

  unfoldable pub dns_query_from_server : Outcome
  unfolding tcp_proxy udp_proxy ask
  dns_query_from_server = way opt.tcp opt.via_proxy

-- ===== src/Client/Udp.antt =====
-- src/client/mod.rs: `SocksDatagram` from the association to the transfer of data.
--
-- The sockets, their addresses and the resolver are arguments. A failed `assert_eq!` is an outcome.
pub mod Laws
use socks5_impl.Prelude.{
  ℕ, ◌==◌, Bool, true, false, if◌then◌else◌, List, [], ◌∷◌, length, Option, some, none,
}
use socks5_impl.Error.{Error, IoError, io, addr_parse_error}
use socks5_impl.Net.{SocketAddr, is_ipv4}
use socks5_impl.Stream.{Result, ok, err, Act, ◌>>=◌, ◌>>◌, pure, lift, as_error, Conn}
use socks5_impl.Protocol.Command
use socks5_impl.Protocol.Address.{Address}
use socks5_impl.Protocol.Address.Convert.{Std, to_socket_addrs, address_of_socket_addr, first_addr}
use socks5_impl.Protocol.Password.UserKey.{UserKey}
use socks5_impl.Client.Init.{init}
use socks5_impl.Client.Datagram.{Datagram, Reception, build_socks5_udp_datagram, recv_from, send_to}

-- `tokio::net::UdpSocket`, with what it receives within the time limit once it has sent.
pub record UdpSocket : Type 0 where
  pub local_addr : Result IoError SocketAddr
  pub connect : SocketAddr → Result IoError (Unit {0})
  pub send : List ℕ → Result IoError ℕ
  pub recv : Reception

pub record Network : Type 0 where
  pub std : Std
  pub connect_tcp : SocketAddr → Result IoError Conn
  -- `UdpSocket::bind`, to the text of an address
  pub bind_udp : List ℕ → Result IoError UdpSocket

-- The socket is connected to `peer`.
pub record SocksDatagram : Type 0 where
  pub socket : UdpSocket
  pub peer : SocketAddr
  pub proxy_addr : Address
  pub stream : Conn

-- `"0.0.0.0:0"` and `"[::]:0"`
abbrev pub any_v4 : List ℕ
any_v4 = b'0' ∷ b'.' ∷ b'0' ∷ b'.' ∷ b'0' ∷ b'.' ∷ b'0' ∷ b':' ∷ b'0' ∷ []

abbrev pub any_v6 : List ℕ
any_v6 = b'[' ∷ b':' ∷ b':' ∷ b']' ∷ b':' ∷ b'0' ∷ []

abbrev pub any_addr : SocketAddr → List ℕ
any_addr addr = if is_ipv4 addr then any_v4 else any_v6

-- `addr.parse::<SocketAddr>()`
abbrev pub parsed : Option SocketAddr → Result Error SocketAddr
parsed (some addr) = ok addr
parsed none = err addr_parse_error

unfoldable pub associate : Std → UdpSocket → Option UserKey → Act Conn Error (SocketAddr × Address)
unfolding init
associate std socket auth = do
  here ← as_error (lift socket.local_addr)
  addr ← lift (parsed (std.parse_socket_addr (any_addr here)))
  proxy_addr ← init Command.udp_associate (address_of_socket_addr addr) auth
  peer ← lift (first_addr "InvalidAddress" (to_socket_addrs std proxy_addr))
  as_error (lift (socket.connect peer))
  pure (peer, proxy_addr)

abbrev pub associated :
    UdpSocket → Result Error (SocketAddr × Address) × Conn → Result Error SocksDatagram
associated socket (ok (peer, proxy_addr), c) =
    ok (record { socket = socket; peer = peer; proxy_addr = proxy_addr; stream = c })
associated socket (err e, c) = err e

-- `SocksDatagram::udp_associate`
unfoldable pub udp_associate : Std → Conn → UdpSocket → Option UserKey → Result Error SocksDatagram
unfolding associate
udp_associate std stream socket auth = associated socket (associate std socket auth stream)

-- The socket, and the stream with it.
unfoldable pub get_ref : SocksDatagram → UdpSocket
get_ref d = d.socket

unfoldable pub into_parts : SocksDatagram → Conn × UdpSocket
into_parts d = (d.stream, d.socket)

pub record UdpClientTrait (C : Type 0) : Type 0 where
  pub send_to : C → List ℕ → Address → Result Error ℕ
  pub recv_from : C → Result Error Datagram

-- `impl UdpClientTrait for SocksUdpClient`
unfoldable pub socks_udp_client : UdpClientTrait SocksDatagram
socks_udp_client = record {
  send_to = λ client buf addr. send_to client.socket.send buf addr;
  recv_from = λ client. recv_from client.socket.recv;
}

abbrev pub with_socket :
    Std → Conn → Option UserKey → Result IoError UdpSocket → Result Error SocksDatagram
with_socket std proxy auth (ok client) = udp_associate std proxy client auth
with_socket std proxy auth (err e) = err (io e)

abbrev pub with_proxy :
    Network → SocketAddr → Option UserKey → Result IoError Conn → Result Error SocksDatagram
with_proxy net proxy_addr auth (ok proxy) =
    with_socket net.std proxy auth (net.bind_udp (any_addr proxy_addr))
with_proxy net proxy_addr auth (err e) = err (io e)

unfoldable pub create_udp_client :
    Network → SocketAddr → Option UserKey → Result Error SocksDatagram
create_udp_client net proxy_addr auth = with_proxy net proxy_addr auth (net.connect_tcp proxy_addr)

pub record UdpClientImpl : Type 0 where
  pub client : SocksDatagram
  pub server_addr : Address

abbrev pub with_server : Address → Result Error SocksDatagram → Result Error UdpClientImpl
with_server server_addr (ok client) = ok (record { client = client; server_addr = server_addr })
with_server server_addr (err e) = err e

-- `UdpClientImpl::datagram`
unfoldable pub datagram :
    Network → SocketAddr → Address → Option UserKey → Result Error UdpClientImpl
unfolding create_udp_client
datagram net proxy_addr udp_server_addr auth =
    with_server udp_server_addr (create_udp_client net proxy_addr auth)

pub data Outcome : Type 0 where
  returns : Result Error (List ℕ) → Outcome
  panics : Outcome

abbrev pub buf_of : Result Error Datagram → Result Error (List ℕ)
buf_of (ok d) = ok d.buf
buf_of (err e) = err e

-- After `send_to`: the datagram once more, the assertion, and what comes back.
abbrev pub compared : UdpSocket → ℕ → Result Error (List ℕ) → Outcome
compared socket len (ok bytes) =
    if len == length bytes then returns (buf_of (recv_from socket.recv)) else panics
compared socket len (err e) = returns (err e)

abbrev pub transferred : UdpClientImpl → List ℕ → Result Error ℕ → Outcome
transferred c data_bytes (ok len) =
    compared c.client.socket len (build_socks5_udp_datagram data_bytes c.server_addr)
transferred c data_bytes (err e) = returns (err e)

unfoldable pub transfer_data : UdpClientImpl → List ℕ → Outcome
unfolding build_socks5_udp_datagram
transfer_data c data_bytes =
    transferred c data_bytes (send_to c.client.socket.send data_bytes c.server_addr)

-- ===== src/Server/Udp/Shared.antt =====
-- src/server/connection/associate.rs: `AssociatedUdpSocket` among tasks that share it.
--
-- While a call waits, datagrams arrive and other tasks set the size of the receiving buffer: the
-- interleaving is a list. A round of the loop loads the size when it starts, so that the buffer of a
-- round is an argument beside the size that is stored.
pub mod Laws
mod Tests
use socks5_impl.Prelude.{ℕ, List, [], ◌∷◌, Option, some, none, take, drop}
use socks5_impl.Error.{IoError}
use socks5_impl.Net.{SocketAddr}
use socks5_impl.Stream.{Result, ok, err, Act}
use socks5_impl.Protocol.Address.{Address}
use socks5_impl.Protocol.Udp
use socks5_impl.Protocol.Udp.{UdpHeader}
use socks5_impl.Server.Udp.{Arrival, datagram, failure, Received}

-- `socket` is the handle of the UDP socket.
pub record AssociatedUdpSocket : Type 0 where
  pub socket : ℕ
  pub buf_size : ℕ

unfoldable pub from_socket : ℕ × ℕ → AssociatedUdpSocket
from_socket (socket, size) = record { socket = socket; buf_size = size }

-- `From<AssociatedUdpSocket> for UdpSocket`, `AsRef` and `AsMut`.
unfoldable pub into_socket : AssociatedUdpSocket → ℕ
into_socket s = s.socket

unfoldable pub get_max_packet_size : AssociatedUdpSocket → ℕ
get_max_packet_size s = s.buf_size

unfoldable pub set_max_packet_size : AssociatedUdpSocket → ℕ → AssociatedUdpSocket
set_max_packet_size s size = record s { buf_size = size }

-- `connect`, which tokio's does: an argument that runs on the host's sockets.
unfoldable pub connect :
    {K : Type 0}
    → (ℕ → SocketAddr → Act K IoError (Unit {0}))
    → AssociatedUdpSocket
    → SocketAddr
    → Act K IoError (Unit {0})
connect tokio s addr = tokio s.socket addr

pub data Happening : Type 0 where
  arrives : Arrival → Happening
  sets : ℕ → Happening

-- The result of a call, unless it is waiting still; the socket; and what has not happened yet.
abbrev pub Waited : Type 0
Waited = Option (Result IoError Received) × AssociatedUdpSocket × List Happening

-- `return Ok(..)` with the packet behind the header, or another round.
abbrev pub returned :
    List ℕ
    → SocketAddr
    → AssociatedUdpSocket
    → List Happening
    → Waited
    → Result IoError UdpHeader × List ℕ
    → Waited
returned pkt src s rest again (ok header, _) = (
  some (
      ok (record {
        pkt = drop (Udp.len header) pkt;
        frag = header.frag;
        address = header.address;
        src_addr = src;
      })),
  s,
  rest,
)
returned pkt src s rest again (err e, _) = again

-- The rounds of `recv_from`, the first with a buffer of the size `buf`.
unfoldable pub receiving : ℕ → AssociatedUdpSocket → List Happening → Waited
unfolding get_max_packet_size set_max_packet_size
receiving buf s [] = (none, s, [])
receiving buf s (sets size ∷ rest) = receiving buf (set_max_packet_size s size) rest
receiving buf s (arrives (failure e) ∷ rest) = (some (err e), s, rest)
receiving buf s (arrives (datagram bs src) ∷ rest) =
    let again = receiving (get_max_packet_size s) s rest in
    let pkt : List ℕ = take buf bs in
    returned pkt src s rest again (Udp.retrieve_from_async_stream pkt)

unfoldable pub recv_from_shared : AssociatedUdpSocket → List Happening → Waited
unfolding receiving
recv_from_shared s events = receiving (get_max_packet_size s) s events

-- `recv`, on a socket that is connected: without the source.
pub record Relayed : Type 0 where
  pub pkt : List ℕ
  pub frag : ℕ
  pub address : Address

abbrev pub without_source : Option (Result IoError Received) → Option (Result IoError Relayed)
without_source none = none
without_source (some (err e)) = some (err e)
without_source (some (ok r)) =
    some (ok (record { pkt = r.pkt; frag = r.frag; address = r.address }))

unfoldable pub recv_shared : AssociatedUdpSocket → List Happening → Option (Result IoError Relayed)
unfolding recv_from_shared
recv_shared s events = without_source (recv_from_shared s events).0

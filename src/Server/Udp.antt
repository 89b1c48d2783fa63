-- ===== src/Server/Udp.antt =====
-- src/server/connection/associate.rs: `AssociatedUdpSocket`.
--
-- What a socket receives is a list of arrivals; at its end a call is still waiting. The size of the
-- receiving buffer is the argument `size`, which no other task sets while a call waits; in `Shared`,
-- others do.
pub mod Laws
pub mod Shared
use socks5_impl.Prelude.{ℕ, ◌+◌, ◌-◌, List, [], ◌∷◌, ◌++◌, Option, some, none, length, take, drop}
use socks5_impl.Error.{IoError}
use socks5_impl.Net.{SocketAddr}
use socks5_impl.Stream.{Result, ok, err}
use socks5_impl.Protocol.Address.{Address}
use socks5_impl.Protocol.Udp
use socks5_impl.Protocol.Udp.{UdpHeader}

-- A datagram with its source, or an error of the socket.
pub data Arrival : Type 0 where
  datagram : List ℕ → SocketAddr → Arrival
  failure : IoError → Arrival

pub record Received : Type 0 where
  pub pkt : List ℕ
  pub frag : ℕ
  pub address : Address
  pub src_addr : SocketAddr

abbrev pub Recv : Type 0
Recv = Option (Result IoError Received) × List Arrival

-- `if let Ok(header) = .. { return .. }`, and the next round otherwise.
abbrev pub deliver :
    List ℕ → SocketAddr → List Arrival → Recv → Result IoError UdpHeader × List ℕ → Recv
deliver pkt src rest again (ok header, _) = (
  some (
      ok (record {
        pkt = drop (Udp.len header) pkt;
        frag = header.frag;
        address = header.address;
        src_addr = src;
      })),
  rest,
)
deliver pkt src rest again (err e, _) = again

-- `recv_from`, and `recv`, which leaves the source out. The socket cuts a datagram at the buffer.
unfoldable pub recv_from : ℕ → List Arrival → Recv
recv_from size [] = (none, [])
recv_from size (failure e ∷ rest) = (some (err e), rest)
recv_from size (datagram bs src ∷ rest) =
    let again = recv_from size rest in
    let pkt : List ℕ = take size bs in
    deliver pkt src rest again (Udp.retrieve_from_async_stream pkt)

-- The bytes that `send` and `send_to` hand to the socket.
unfoldable pub packet : List ℕ → ℕ → Address → List ℕ
packet pkt frag from_addr = Udp.write_to_buf (Udp.new frag from_addr) [] ++ pkt

-- `.map(|len| len - header.len())`
abbrev pub less_header : ℕ → Result IoError ℕ → Result IoError ℕ
less_header n (ok len) = ok (len - n)
less_header n (err e) = err e

-- `send`, with the socket's own `send` as an argument; `send_to` hands on its target as well.
unfoldable pub send : (List ℕ → Result IoError ℕ) → List ℕ → ℕ → Address → Result IoError ℕ
unfolding packet
send socket pkt frag from_addr =
    less_header (Udp.len (Udp.new frag from_addr)) (socket (packet pkt frag from_addr))

unfoldable pub send_to :
    (List ℕ → SocketAddr → Result IoError ℕ) → List ℕ → ℕ → Address → SocketAddr → Result IoError ℕ
unfolding packet
send_to socket pkt frag from_addr to_addr =
    less_header (Udp.len (Udp.new frag from_addr)) (socket (packet pkt frag from_addr) to_addr)

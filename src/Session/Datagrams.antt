-- ===== src/Session/Datagrams.antt =====
-- The datagrams of src/client/mod.rs and those of src/server/connection/associate.rs, each read by
-- the other end.
use socks5_impl.Prelude.{
  ℕ, ◌+◌, ◌≤◌, ◌≡◌, ap, ◌∙◌, List, [], ◌∷◌, some, length, length-append, take_all, arith,
}
use socks5_impl.Net.{SocketAddr}
use socks5_impl.Stream.{ok}
use socks5_impl.Protocol.Address.{Address, IsAddress, IsWritable}
use socks5_impl.Protocol.Udp
use socks5_impl.Protocol.Udp.Contract.{measures}
use socks5_impl.Server.Udp as Associated
use socks5_impl.Server.Udp.{Arrival, datagram, packet}
use socks5_impl.Server.Udp.Laws.{recv_from-packet_whole}
use socks5_impl.Client.Datagram.{
  build_socks5_udp_datagram, parse_socks5_udp_response, recv_from, arrived, udp_mtu,
}
use socks5_impl.Client.Datagram.Laws.{build-packet, parse-packet}

-- A datagram that the client builds for a well-formed and writable address reaches the associated
-- socket, where the buffer has room for it: the payload, unfragmented, with the target's address
-- and the source of the packet.
pub client_to_server :
    (buf : List ℕ) (addr : Address) (src : SocketAddr) (size : ℕ) (rest : List Arrival)
    → IsAddress addr
    → IsWritable addr
    → Udp.len (Udp.new 0 addr) + length buf ≤ size
    → (bytes : List ℕ) × (build_socks5_udp_datagram buf addr ≡ ok bytes)
      × (Associated.recv_from size (datagram bytes src ∷ rest)
          ≡ (some (ok (record { pkt = buf; frag = 0; address = addr; src_addr = src })), rest))
client_to_server buf addr src size rest h w room = (
  packet buf 0 addr,
  (build-packet buf addr h w).0,
  recv_from-packet_whole buf 0 addr src size rest h w room,
)

packet_size :
    (pkt : List ℕ) (addr : Address)
    → IsAddress addr
    → length (packet pkt 0 addr) ≡ Udp.len (Udp.new 0 addr) + length pkt
unfolding packet
packet_size pkt addr h =
    omega
      (arith, length-append (Udp.write_to_buf (Udp.new 0 addr) []) pkt, measures (Udp.new 0 addr) h)

-- A datagram that the associated socket sends, unfragmented and for a well-formed and writable
-- address, reaches the client, where it has at most 1500 bytes with its header: the payload, with
-- the address that the server named.
pub server_to_client :
    (pkt : List ℕ) (addr : Address)
    → IsAddress addr
    → IsWritable addr
    → Udp.len (Udp.new 0 addr) + length pkt ≤ udp_mtu
    → recv_from (arrived (packet pkt 0 addr))
      ≡ ok (record { read = length pkt; address = addr; buf = pkt })
unfolding recv_from
server_to_client pkt addr h w room =
    ap parse_socks5_udp_response
      (take_all udp_mtu (packet pkt 0 addr) (rw (packet_size pkt addr h) room))
    ∙ parse-packet pkt addr h w

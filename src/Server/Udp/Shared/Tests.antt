-- ===== src/Server/Udp/Shared/Tests.antt =====
-- src/server/connection/associate.rs: a shared socket on concrete datagrams.
use socks5_impl.Prelude.{◌-◌, ◌≤◌, ◌≡◌, refl, List, [], ◌∷◌, ◌++◌, some, take, arith}
use socks5_impl.Stream.{ok, read_exact}
use socks5_impl.Protocol.Address
use socks5_impl.Protocol.Udp
use socks5_impl.Server.Udp.{datagram, packet}
use socks5_impl.Server.Udp.Shared.{
  AssociatedUdpSocket, Happening, arrives, sets, recv_from_shared, set_max_packet_size,
}
use socks5_impl.Server.Udp.Shared.Laws.{AllJunk, recv_delivers}
use socks5_impl.Samples.{site, site-IsAddress, site-IsWritable, relay}

-- The socket 4 with a buffer of two bytes. The size that is set while the first round waits is that of the second.
abbrev small : AssociatedUdpSocket
small = record { socket = 4; buf_size = 2 }

abbrev before : List Happening
before = sets 14 ∷ arrives (datagram (0 ∷ 0 ∷ 2 ∷ 1 ∷ []) relay) ∷ sets 1 ∷ []

before-AllJunk : AllJunk 2 2 before
unfolding Udp.retrieve_from_stream read_exact
before-AllJunk = ((_, [], refl), tt)

header_fits : Udp.len (Udp.new 2 site) ≤ 14
unfolding Udp.len Address.len
header_fits = omega arith

recv_delivers_example :
    recv_from_shared small
      (before ++ (arrives (datagram (packet (1 ∷ 2 ∷ 3 ∷ []) 2 site) relay) ∷ sets 9 ∷ []))
    ≡ (
      some (
          ok (record {
            pkt = take (14 - Udp.len (Udp.new 2 site)) (1 ∷ 2 ∷ 3 ∷ []);
            frag = 2;
            address = site;
            src_addr = relay;
          })),
      set_max_packet_size small 1,
      sets 9 ∷ [],
    )
recv_delivers_example =
    recv_delivers small before (sets 9 ∷ []) (1 ∷ 2 ∷ 3 ∷ []) 2 site relay before-AllJunk
      site-IsAddress site-IsWritable header_fits

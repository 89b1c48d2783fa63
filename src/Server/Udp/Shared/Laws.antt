-- ===== src/Server/Udp/Shared/Laws.antt =====
-- src/server/connection/associate.rs: what a call receives while others set the size of the buffer.
use socks5_impl.Prelude.{
  ℕ, ◌-◌, ◌≤◌, ◌≡◌, refl, sym, List, [], ◌∷◌, ◌++◌, map, some, take, drop-append_length,
}
use socks5_impl.Error.{IoError}
use socks5_impl.Net.{SocketAddr}
use socks5_impl.Stream.{Result, ok, err}
use socks5_impl.Protocol.Address.{Address, IsAddress, IsWritable}
use socks5_impl.Protocol.Udp
use socks5_impl.Protocol.Udp.{UdpHeader}
use socks5_impl.Protocol.Udp.Contract.{udp_header_operation-Lawful, measures}
use socks5_impl.Server.Udp.{Arrival, datagram, failure, Recv, deliver, packet, recv_from}
use socks5_impl.Server.Udp.Laws.{IsJunk, take-packet}
use socks5_impl.Server.Udp.Shared.{
  AssociatedUdpSocket, Happening, arrives, sets, Waited, returned, receiving, recv_from_shared,
  set_max_packet_size, from_socket, into_socket, get_max_packet_size,
}

-- The buffer of the round, and the socket, after so many happenings.
abbrev pub buffer_after : ℕ → ℕ → List Happening → ℕ
buffer_after buf size [] = buf
buffer_after buf size (sets n ∷ rest) = buffer_after buf n rest
buffer_after buf size (arrives a ∷ rest) = buffer_after size size rest

abbrev pub size_after : ℕ → List Happening → ℕ
size_after size [] = size
size_after size (sets n ∷ rest) = size_after n rest
size_after size (arrives a ∷ rest) = size_after size rest

-- No datagram among them has a header that can be read in the buffer of its round.
abbrev pub AllJunk : ℕ → ℕ → List Happening → Type 0
AllJunk buf size [] = Unit {0}
AllJunk buf size (sets n ∷ rest) = AllJunk buf n rest
AllJunk buf size (arrives a ∷ rest) = IsJunk buf a × AllJunk size size rest

receiving-junk :
    (buf : ℕ) (s : AssociatedUdpSocket) (before after : List Happening)
    → AllJunk buf s.buf_size before
    → receiving buf s (before ++ after)
      ≡ receiving
          (buffer_after buf s.buf_size before)
          (set_max_packet_size s (size_after s.buf_size before))
          after
unfolding receiving
receiving-junk buf s [] after h = refl
receiving-junk buf s (sets n ∷ before) after h =
    receiving-junk buf (set_max_packet_size s n) before after h
receiving-junk buf s (arrives (failure e) ∷ before) after h = absurd h.0
receiving-junk buf s (arrives (datagram bs src) ∷ before) after ((e, left, bad), h) =
    rw (udp_header_operation-Lawful.async_agrees, bad) (receiving-junk s.buf_size s before after h)

-- A call that waits while other tasks set the size of the buffer and datagrams without a readable header
-- arrive, however many and in whatever order, returns the first packet that another associated socket
-- sent, if the buffer of that round has room for its header and its address is well formed and writable. That buffer has the size that
-- was stored when the round started, not one that was set since; of the payload it keeps what fits. What was set last stays stored.
pub recv_delivers :
    (s : AssociatedUdpSocket) (before after : List Happening) (pkt : List ℕ) (frag : ℕ)
    (addr : Address) (src : SocketAddr)
    → AllJunk s.buf_size s.buf_size before
    → IsAddress addr
    → IsWritable addr
    → Udp.len (Udp.new frag addr) ≤ buffer_after s.buf_size s.buf_size before
    → recv_from_shared s (before ++ arrives (datagram (packet pkt frag addr) src) ∷ after) ≡ (
      some (
          ok (record {
            pkt =
                take (buffer_after s.buf_size s.buf_size before - Udp.len (Udp.new frag addr)) pkt;
            frag = frag;
            address = addr;
            src_addr = src;
          })),
      set_max_packet_size s (size_after s.buf_size before),
      after,
    )
unfolding recv_from_shared packet
recv_delivers s before after pkt frag addr src junk h w room =
    let header : UdpHeader = Udp.new frag addr in
    rw (
      receiving-junk s.buf_size s before (arrives (datagram (packet pkt frag addr) src) ∷ after)
          junk,
      take-packet pkt header (buffer_after s.buf_size s.buf_size before) h room,
      udp_header_operation-Lawful.async_agrees,
      udp_header_operation-Lawful.reads_back header _ h w,
      drop-append_length (Udp.write_to_buf header []) _ (Udp.len header) (sym (measures header h)),
    )

abbrev unshared : AssociatedUdpSocket → Recv → Waited
unshared s (r, rest) = (r, s, map arrives rest)

returned-eq-deliver :
    (pkt : List ℕ) (src : SocketAddr) (s : AssociatedUdpSocket) (rest : List Arrival) (again : Recv)
    (r : Result IoError UdpHeader × List ℕ)
    → returned pkt src s (map arrives rest) (unshared s again) r
      ≡ unshared s (deliver pkt src rest again r)
returned-eq-deliver pkt src s rest again (ok header, left) = refl
returned-eq-deliver pkt src s rest again (err e, left) = refl

-- As long as no other task sets the size of the buffer, a call is the loop that has the stored size as its argument:
-- it returns the same, leaves the same arrivals, and leaves the socket as it was.
recv_from_shared-quiet :
    (s : AssociatedUdpSocket) (arrivals : List Arrival)
    → recv_from_shared s (map arrives arrivals)
      ≡ ((recv_from s.buf_size arrivals).0, s, map arrives (recv_from s.buf_size arrivals).1)
unfolding recv_from_shared recv_from get_max_packet_size
recv_from_shared-quiet s [] = refl
recv_from_shared-quiet s (failure e ∷ rest) = refl
recv_from_shared-quiet s (datagram bs src ∷ rest) = rw (recv_from_shared-quiet s rest) (
    returned-eq-deliver (take s.buf_size bs) src s rest (recv_from s.buf_size rest)
      (Udp.retrieve_from_async_stream (take s.buf_size bs)))

-- A socket that is wrapped with a size has that size, and what is set is read; the socket inside stays
-- the same.
wrapped :
    (socket size n : ℕ)
    → (into_socket (set_max_packet_size (from_socket (socket, size)) n) ≡ socket)
      × (get_max_packet_size (from_socket (socket, size)) ≡ size)
      × (get_max_packet_size (set_max_packet_size (from_socket (socket, size)) n) ≡ n)
unfolding into_socket from_socket get_max_packet_size set_max_packet_size
wrapped socket size n = (refl, refl, refl)

-- ===== src/Server/Udp/Laws.antt =====
-- src/server/connection/associate.rs: what is received and sent.
use socks5_impl.Prelude.{
  ◌+◌, take_all, ℕ, ◌-◌, ◌≤◌, ◌≡◌, refl, sym, ap, List, [], ◌∷◌, ◌++◌, some, length, length-append,
  take, take-append_past, drop-append_length, All, arith,
}
use socks5_impl.Error.{IoError}
use socks5_impl.Net.{SocketAddr}
use socks5_impl.Stream.{Result, ok, err}
use socks5_impl.Protocol.Address.{Address, IsAddress, IsWritable}
use socks5_impl.Protocol.Udp
use socks5_impl.Protocol.Udp.{UdpHeader}
use socks5_impl.Protocol.Udp.Contract.{udp_header_operation-Lawful, measures}
use socks5_impl.Server.Udp.{Arrival, datagram, failure, recv_from, packet, send, send_to}

-- A packet that is cut at the buffer, where the buffer has room for the header.
pub take-packet :
    (pkt : List ℕ) (header : UdpHeader) (size : ℕ)
    → Udp.IsUdpHeader header
    → Udp.len header ≤ size
    → take size (Udp.write_to_buf header [] ++ pkt)
      ≡ Udp.write_to_buf header [] ++ take (size - Udp.len header) pkt
take-packet pkt header size h room =
    rw (← measures header h)
      (take-append_past (Udp.write_to_buf header []) pkt size (omega (arith, measures header h)))

-- A packet that another associated socket sent, with a writable address, is received with its fragment number, its address
-- and its source, if the buffer has room for its header; of the payload the buffer keeps what fits.
pub recv_from-packet :
    (pkt : List ℕ) (frag : ℕ) (addr : Address) (src : SocketAddr) (size : ℕ) (rest : List Arrival)
    → IsAddress addr
    → IsWritable addr
    → Udp.len (Udp.new frag addr) ≤ size
    → recv_from size (datagram (packet pkt frag addr) src ∷ rest) ≡ (
      some (
          ok (record {
            pkt = take (size - Udp.len (Udp.new frag addr)) pkt;
            frag = frag;
            address = addr;
            src_addr = src;
          })),
      rest,
    )
unfolding recv_from packet
recv_from-packet pkt frag addr src size rest h w room =
    let header : UdpHeader = Udp.new frag addr in
    rw (
      take-packet pkt header size h room,
      udp_header_operation-Lawful.async_agrees,
      udp_header_operation-Lawful.reads_back header _ h w,
      drop-append_length (Udp.write_to_buf header []) _ (Udp.len header) (sym (measures header h)),
    )

-- Where the buffer has room for all of it, so does the payload.
pub recv_from-packet_whole :
    (pkt : List ℕ) (frag : ℕ) (addr : Address) (src : SocketAddr) (size : ℕ) (rest : List Arrival)
    → IsAddress addr
    → IsWritable addr
    → Udp.len (Udp.new frag addr) + length pkt ≤ size
    → recv_from size (datagram (packet pkt frag addr) src ∷ rest)
      ≡ (some (ok (record { pkt = pkt; frag = frag; address = addr; src_addr = src })), rest)
recv_from-packet_whole pkt frag addr src size rest h w room =
    rw (take_all (size - Udp.len (Udp.new frag addr)) pkt (omega arith)) at
      (recv_from-packet pkt frag addr src size rest h w (omega arith))

pub send_to-eq-ok :
    (socket : List ℕ → SocketAddr → Result IoError ℕ) (pkt : List ℕ) (frag : ℕ) (addr : Address)
    (to : SocketAddr) (n : ℕ)
    → socket (packet pkt frag addr) to ≡ ok n
    → send_to socket pkt frag addr to ≡ ok (n - Udp.len (Udp.new frag addr))
unfolding send_to
send_to-eq-ok socket pkt frag addr to n e = rw e

-- A datagram whose header cannot be read.
abbrev pub IsJunk : ℕ → Arrival → Type 0
IsJunk size (datagram bs src) =
    (e : IoError) × (left : List ℕ) × (Udp.retrieve_from_stream (take size bs) ≡ (err e, left))
IsJunk size (failure e) = ⊥

-- Datagrams without a readable header are passed over, however many there are.
recv_from-junk :
    (size : ℕ) (junk rest : List Arrival)
    → All (IsJunk size) junk
    → recv_from size (junk ++ rest) ≡ recv_from size rest
unfolding recv_from
recv_from-junk size [] rest h = refl
recv_from-junk size (datagram bs src ∷ junk) rest ((e, left, bad), h) =
    rw (udp_header_operation-Lawful.async_agrees, bad) (recv_from-junk size junk rest h)
recv_from-junk size (failure e ∷ junk) rest h = absurd h.0

-- A socket that sends a datagram whole, or not at all.
abbrev pub SendsWhole : (List ℕ → Result IoError ℕ) → Type 0
SendsWhole socket = (bs : List ℕ) (n : ℕ) → socket bs ≡ ok n → n ≡ length bs

-- Through a socket that sends a datagram whole or not at all, for a well-formed address, a `send`
-- that succeeds reports the length of the payload, and the subtraction of the header's length
-- does not go below zero.
pub send_reports :
    (socket : List ℕ → Result IoError ℕ) (pkt : List ℕ) (frag : ℕ) (addr : Address) (n : ℕ)
    → SendsWhole socket
    → IsAddress addr
    → socket (packet pkt frag addr) ≡ ok n
    → (send socket pkt frag addr ≡ ok (length pkt)) × (Udp.len (Udp.new frag addr) ≤ n)
unfolding send
send_reports socket pkt frag addr n whole h e =
    let header : UdpHeader = Udp.new frag addr in
    let size : n ≡ length (Udp.write_to_buf header [] ++ pkt) = unfold packet in whole _ n e in
    let parts = length-append (Udp.write_to_buf header []) pkt in
    (rw e (ap ok (omega (arith, measures header h))), omega (arith, measures header h))

-- ===== src/Session/Transfer.antt =====
-- src/client/mod.rs: a transfer of data, and examples/s5-server.rs: the relay that it goes through.
use socks5_impl.Prelude.{
  ℕ, ◌+◌, ◌≤◌, ◌≡◌, refl, true, ◌==◌, List, [], ◌∷◌, ◌++◌, length, some, arith,
}
use socks5_impl.Net.{SocketAddr}
use socks5_impl.Stream.{ok}
use socks5_impl.Protocol.Udp
use socks5_impl.Protocol.Address.{Address, IsAddress, IsWritable, socket_address}
use socks5_impl.Protocol.Address.Convert.{to_socket_addrs}
use socks5_impl.Server.Udp.{packet, datagram}
use socks5_impl.Client.Datagram.{arrived, build_socks5_udp_datagram, send_to, udp_mtu}
use socks5_impl.Client.Datagram.Laws.{build-packet}
use socks5_impl.Client.Udp.{UdpClientImpl, returns, transfer_data}
use socks5_impl.Session.Datagrams.{server_to_client}
use socks5_impl.Example.Relay.{Sockets, Event, incoming, feedback, closed, Relay, buf_size, relay}
use socks5_impl.Example.Relay.Laws.{IsWilling, request, response, relay_serves}

-- `transfer_data`, on a socket that sends a datagram whole, for a target that is well-formed and
-- writable: if what comes back is a packet of the server's socket of at most 1500 bytes, unfragmented
-- and for a well-formed and writable address, the call returns its payload, and does not panic.
pub transfer_data_returns :
    (c : UdpClientImpl) (question reply : List ℕ) (from : Address)
    → IsAddress c.server_addr
    → IsWritable c.server_addr
    → c.client.socket.send (packet question 0 c.server_addr)
      ≡ ok (length (packet question 0 c.server_addr))
    → IsAddress from
    → IsWritable from
    → Udp.len (Udp.new 0 from) + length reply ≤ udp_mtu
    → c.client.socket.recv ≡ arrived (packet reply 0 from)
    → transfer_data c question ≡ returns (ok reply)
unfolding transfer_data send_to
transfer_data_returns c question reply from h w whole hf wf fits heard =
    let (built, _) = build-packet question c.server_addr h w in
    let same : (length (packet question 0 c.server_addr)
          == length (packet question 0 c.server_addr))
        ≡ true =
      ground arith in
    rw (built, whole, built, same, heard, server_to_client reply from hf wf fits)

-- The client with a socket that will receive `bs`.
abbrev pub hearing : List ℕ → UdpClientImpl → UdpClientImpl
hearing bs c = record c {
  client = record c.client { socket = record c.client.socket { recv = arrived bs } };
}

-- A transfer of data through the relay of the example server: where the target and the address
-- of `remote` are well-formed and writable, the target resolves to `dst`, the sizes fit, the
-- relay's sockets take every datagram and the client's sends it whole, the relay sends the
-- question alone to `dst`, and what it answers to the source of the client's datagram is a
-- packet on which the client's call returns the reply of `remote`.
pub transfer_data_relayed :
    (os : Sockets) (c : UdpClientImpl) (question reply : List ℕ) (dst src remote : SocketAddr)
    (others : List SocketAddr) (later : List Event) (s : Relay)
    → IsWilling os
    → IsAddress c.server_addr
    → IsWritable c.server_addr
    → to_socket_addrs os.std c.server_addr ≡ ok (dst ∷ others)
    → Udp.len (Udp.new 0 c.server_addr) + length question ≤ buf_size
    → c.client.socket.send (packet question 0 c.server_addr)
      ≡ ok (length (packet question 0 c.server_addr))
    → IsAddress (socket_address remote)
    → IsWritable (socket_address remote)
    → Udp.len (Udp.new 0 (socket_address remote)) + length reply ≤ udp_mtu
    → (there back : List ℕ) × (build_socks5_udp_datagram question c.server_addr ≡ ok there)
      × (relay os (incoming (datagram there src) ∷ feedback reply remote ∷ closed ∷ later) s ≡ (
        some (ok tt),
        record {
          incoming_addr = src;
          dispatched = s.dispatched ++ ((question, dst) ∷ []);
          answered = s.answered ++ ((back, src) ∷ []);
        },
      ))
      × (transfer_data (hearing back c) question ≡ returns (ok reply))
transfer_data_relayed os c question reply dst src remote others later s willing h w found fits whole
      hr wr fits_back =
    (
      packet question 0 c.server_addr,
      packet reply 0 (socket_address remote),
      (build-packet question c.server_addr h w).0,
      relay_serves os willing (request question c.server_addr dst src ∷ response reply remote ∷ [])
          later s ((h, w, fits, (others, found)), (omega (arith, fits_back), tt)),
      transfer_data_returns (hearing (packet reply 0 (socket_address remote)) c) question reply
          (socket_address remote) h w whole hr wr fits_back refl,
    )

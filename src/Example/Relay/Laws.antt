-- ===== src/Example/Relay/Laws.antt =====
-- examples/s5-server.rs: what the relay of an association forwards.
use socks5_impl.Prelude.{
  ℕ, ◌+◌, ◌≤◌, ◌≡◌, ◌≢◌, refl, ap, ◌∙◌, false, ◌==◌, List, [], ◌∷◌, ◌++◌, map, none, some, All,
  append-nil, append_assoc, length, take_all, arith,
}
use socks5_impl.Error.{string}
use socks5_impl.Net.{SocketAddr}
use socks5_impl.Stream.{ok, err}
use socks5_impl.Protocol.Address.{Address, socket_address, IsAddress, IsWritable}
use socks5_impl.Protocol.Address.Convert.{to_socket_addrs, address_of_socket_addr}
use socks5_impl.Protocol.Udp
use socks5_impl.Server.Udp.{datagram, packet}
use socks5_impl.Server.Udp.Laws.{recv_from-packet, recv_from-packet_whole, send_to-eq-ok}
use socks5_impl.Example.Relay.{
  Sockets, Event, incoming, feedback, closed, Relay, buf_size, max_udp_relay_packet_size, forward,
  feed_back, round, next_round, relay,
}

-- What the relay has to do, without sockets and buffers: a client at `src` asks for `pkt` to be sent
-- to `addr`, which resolves to `dst`; or `remote` has answered with `bytes`.
pub data Move : Type 0 where
  request : List ℕ → Address → SocketAddr → SocketAddr → Move
  response : List ℕ → SocketAddr → Move

abbrev pub event_of : Move → Event
event_of (request pkt addr dst src) = incoming (datagram (packet pkt 0 addr) src)
event_of (response bytes remote) = feedback bytes remote

-- The payloads go to their targets.
abbrev pub requests : List Move → List (List ℕ × SocketAddr)
requests [] = []
requests (request pkt addr dst src ∷ ms) = (pkt, dst) ∷ requests ms
requests (response bytes remote ∷ ms) = requests ms

-- The answers go, under a header, to the client that was heard last.
abbrev pub responses : SocketAddr → List Move → List (List ℕ × SocketAddr)
responses client [] = []
responses client (request pkt addr dst src ∷ ms) = responses src ms
responses client (response bytes remote ∷ ms) =
    (packet bytes 0 (socket_address remote), client) ∷ responses client ms

abbrev pub last_client : SocketAddr → List Move → SocketAddr
last_client client [] = client
last_client client (request pkt addr dst src ∷ ms) = last_client src ms
last_client client (response bytes remote ∷ ms) = last_client client ms

-- The sizes fit, and the name of the target is resolved.
abbrev pub IsPossible : Sockets → Move → Type 0
IsPossible os (request pkt addr dst src) =
    IsAddress addr
    × IsWritable addr
    × (Udp.len (Udp.new 0 addr) + length pkt ≤ buf_size)
    × ((others : List SocketAddr) × (to_socket_addrs os.std addr ≡ ok (dst ∷ others)))
IsPossible os (response bytes remote) = length bytes ≤ max_udp_relay_packet_size

-- Sockets that take every datagram.
pub record IsWilling (os : Sockets) : Type 0 where
  pub dispatches : (bs : List ℕ) (to : SocketAddr) → (n : ℕ) × (os.dispatch bs to ≡ ok n)
  pub answers : (bs : List ℕ) (to : SocketAddr) → (n : ℕ) × (os.answer bs to ≡ ok n)

-- The relay after a move.
abbrev after_move : Move → Relay → Relay
after_move (request pkt addr dst src) s = record s {
  incoming_addr = src;
  dispatched = s.dispatched ++ ((pkt, dst) ∷ []);
}
after_move (response bytes remote) s = record s {
  answered = s.answered ++ ((packet bytes 0 (socket_address remote), s.incoming_addr) ∷ []);
}

module _ (os : Sockets) (willing : IsWilling os) where
  round-move :
      (m : Move) (s : Relay) → IsPossible os m → round os (event_of m) s ≡ (none, after_move m s)
  unfolding round forward feed_back address_of_socket_addr
  round-move (request pkt addr dst src) s (h, w, fits, (others, found)) =
      let (n, sent) = willing.dispatches pkt dst in
      rw (recv_from-packet_whole pkt 0 addr src buf_size [] h w fits, found, sent)
  round-move (response bytes remote) s h =
      let (n, sent) = willing.answers (packet bytes 0 (socket_address remote)) s.incoming_addr in
      rw (
        take_all max_udp_relay_packet_size bytes h,
        send_to-eq-ok os.answer bytes 0 (socket_address remote) s.incoming_addr n sent,
      )

  round-closed : (s : Relay) → round os closed s ≡ (some (ok tt), s)
  unfolding round
  round-closed s = refl

  -- On sockets that take every datagram, where the sizes fit and the names are resolved, the relay does
  -- what the moves ask for: each payload goes to its target, each answer, under a header with its
  -- source, to the client that was heard last, both in their order. When the client closes its
  -- connection the loop ends with success, whatever would come next.
  pub relay_serves :
      (ms : List Move) (later : List Event) (s : Relay)
      → All (IsPossible os) ms
      → relay os (map event_of ms ++ (closed ∷ later)) s ≡ (
        some (ok tt),
        record {
          incoming_addr = last_client s.incoming_addr ms;
          dispatched = s.dispatched ++ requests ms;
          answered = s.answered ++ responses s.incoming_addr ms;
        },
      )
  unfolding relay
  relay_serves [] later s h =
      ap (next_round os (relay os later)) (round-closed s)
      ∙ rw (append-nil s.dispatched, append-nil s.answered)
  relay_serves (request pkt addr dst src ∷ ms) later s (h, hs) =
      ap (next_round os (relay os (map event_of ms ++ (closed ∷ later))))
        (round-move (request pkt addr dst src) s h)
      ∙ relay_serves ms later (after_move (request pkt addr dst src) s) hs
      ∙ rw (append_assoc s.dispatched ((pkt, dst) ∷ []) (requests ms))
  relay_serves (response bytes remote ∷ ms) later s (h, hs) =
      ap (next_round os (relay os (map event_of ms ++ (closed ∷ later))))
        (round-move (response bytes remote) s h)
      ∙ relay_serves ms later (after_move (response bytes remote) s) hs
      ∙ rw (
          append_assoc s.answered ((packet bytes 0 (socket_address remote), s.incoming_addr) ∷ [])
            (responses s.incoming_addr ms))

module _ (os : Sockets) where
  -- A datagram that is marked as a fragment, with a well-formed and writable address and a
  -- header that fits in the buffer, ends the relay with an error, and nothing is sent for it.
  pub relay_fragment :
      (pkt : List ℕ) (frag : ℕ) (addr : Address) (src : SocketAddr) (later : List Event) (s : Relay)
      → frag ≢ 0
      → IsAddress addr
      → IsWritable addr
      → Udp.len (Udp.new frag addr) ≤ buf_size
      → relay os (incoming (datagram (packet pkt frag addr) src) ∷ later) s
        ≡ (some (err (string "[UDP] packet fragment is not supported")), s)
  unfolding relay round forward
  relay_fragment pkt frag addr src later s other h w fits =
      let differs : (frag == 0) ≡ false = ground arith in
      rw (recv_from-packet pkt frag addr src buf_size [] h w fits, differs)

-- ===== src/Example/Relay/Safety.antt =====
-- examples/s5-server.rs: to whom the relay of an association answers.
use socks5_impl.Prelude.{
  Bool, true, false, if◌then◌else◌, ℕ, ◌==◌, Bool-cases, inl, inr, List, [], ◌∷◌, none, some, All,
  All-append, take,
}
use socks5_impl.Error.{Error, IoError}
use socks5_impl.Net.{SocketAddr}
use socks5_impl.Stream.{Result, ok, err}
use socks5_impl.Protocol.Address.{Address}
use socks5_impl.Protocol.Address.Convert.{address_of_socket_addr}
use socks5_impl.Protocol.Udp
use socks5_impl.Server.Udp as Associated
use socks5_impl.Server.Udp.{Arrival, datagram, failure, Received, Recv, deliver}
use socks5_impl.Example.Relay.{
  Sockets, max_udp_relay_packet_size, Event, incoming, feedback, feedback_failed, incoming_cut,
  feedback_cut, forward_cut, received_cut, closed, Relay, Round, buf_size, break_on_error,
  dispatching, dispatch_to, forward, received, answering, feed_back, round, next_round, relay,
}

-- The client that the relay answers to, and all that it has answered to, satisfy `P`.
pub record Trusts (P : SocketAddr → Type 0) (s : Relay) : Type 0 where
  pub client : P s.incoming_addr
  pub answers : All (λ (o : List ℕ × SocketAddr). P o.1) s.answered

-- A datagram that came in has a source that satisfies `P`.
abbrev pub IsFrom : (SocketAddr → Type 0) → Event → Type 0
IsFrom P (incoming (datagram bs src)) = P src
IsFrom P (incoming_cut noted (datagram bs src)) = P src
IsFrom P e = Unit {0}

module _ (os : Sockets) (P : SocketAddr → Type 0) where
  dispatching-Trusts :
      (pkt : List ℕ) (dst : SocketAddr) (s : Relay) (r : Result IoError ℕ)
      → Trusts P s
      → Trusts P (dispatching os pkt dst s r).1
  dispatching-Trusts pkt dst s (ok n) h = record { client = h.client; answers = h.answers }
  dispatching-Trusts pkt dst s (err e) h = h

  dispatch_to-Trusts :
      (pkt : List ℕ) (dst : Result Error SocketAddr) (s : Relay)
      → Trusts P s
      → Trusts P (dispatch_to os pkt dst s).1
  dispatch_to-Trusts pkt (ok dst) s h = dispatching-Trusts pkt dst s (os.dispatch pkt dst) h
  dispatch_to-Trusts pkt (err e) s h = h

  forward-Trusts :
      (r : Received) (s : Relay) → P r.src_addr → Trusts P s → Trusts P (forward os r s).1
  unfolding forward
  forward-Trusts r s p h = elim (Bool-cases (r.frag == 0)) [
    | inl whole ↦
        rw whole (dispatch_to-Trusts r.pkt _ _ (record { client = p; answers = h.answers }))
    | inr part ↦ rw part h
  ]

  noted-Trusts :
      (noted : Bool) (src : SocketAddr) (s : Relay)
      → P src
      → Trusts P s
      → Trusts P (if noted then record s { incoming_addr = src } else s)
  noted-Trusts true src s p h = record { client = p; answers = h.answers }
  noted-Trusts false src s p h = h

  break-Trusts :
      (r : Result Error (Unit {0}) × Relay) → Trusts P r.1 → Trusts P (break_on_error r).1
  break-Trusts (ok u, s) h = h
  break-Trusts (err e, s) h = h

  deliver-Trusts :
      (pkt : List ℕ) (src : SocketAddr) (s : Relay) (x : Result IoError Udp.UdpHeader × List ℕ)
      → P src
      → Trusts P s
      → Trusts P (received os (deliver pkt src [] (none, []) x).0 s).1
  deliver-Trusts pkt src s (ok header, left) p h = break-Trusts _ (forward-Trusts _ s p h)
  deliver-Trusts pkt src s (err e, left) p h = h

  forward_cut-Trusts :
      (noted : Bool) (r : Received) (s : Relay)
      → P r.src_addr
      → Trusts P s
      → Trusts P (forward_cut os noted r s).1
  unfolding forward_cut
  forward_cut-Trusts noted r s p h = elim (Bool-cases (r.frag == 0)) [
    | inl whole ↦ rw whole (noted-Trusts noted r.src_addr s p h)
    | inr part ↦ rw part h
  ]

  deliver_cut-Trusts :
      (noted : Bool) (pkt : List ℕ) (src : SocketAddr) (s : Relay)
      (x : Result IoError Udp.UdpHeader × List ℕ)
      → P src
      → Trusts P s
      → Trusts P (received_cut os noted (deliver pkt src [] (none, []) x).0 s).1
  deliver_cut-Trusts noted pkt src s (ok header, left) p h = forward_cut-Trusts noted _ s p h
  deliver_cut-Trusts noted pkt src s (err e, left) p h = h

  answering-Trusts :
      (bytes : List ℕ) (from : Address) (s : Relay) (r : Result IoError ℕ)
      → Trusts P s
      → Trusts P (answering os bytes from s.incoming_addr s r).1
  answering-Trusts bytes from s (ok n) h = record {
    client = h.client;
    answers = All-append _ s.answered _ h.answers (h.client, tt);
  }
  answering-Trusts bytes from s (err e) h = h

  round-Trusts : (e : Event) (s : Relay) → IsFrom P e → Trusts P s → Trusts P (round os e s).1
  unfolding round Associated.recv_from feed_back
  round-Trusts (incoming (datagram bs src)) s p h =
      deliver-Trusts (take buf_size bs) src s (Udp.retrieve_from_async_stream (take buf_size bs)) p
        h
  round-Trusts (incoming (failure e)) s p h = h
  round-Trusts (feedback bs remote) s p h =
      break-Trusts _
        (answering-Trusts (take max_udp_relay_packet_size bs) (address_of_socket_addr remote) s _ h)
  round-Trusts (feedback_failed e) s p h = h
  round-Trusts (incoming_cut noted (datagram bs src)) s p h =
      deliver_cut-Trusts noted (take buf_size bs) src s
        (Udp.retrieve_from_async_stream (take buf_size bs)) p h
  round-Trusts (incoming_cut noted (failure e)) s p h = h
  round-Trusts (feedback_cut bs remote) s p h = h
  round-Trusts closed s p h = h

  next_round-Trusts :
      (again : Relay → Round) (r : Round)
      → ((s : Relay) → Trusts P s → Trusts P (again s).1)
      → Trusts P r.1
      → Trusts P (next_round os again r).1
  next_round-Trusts again (none, s) keep h = keep s h
  next_round-Trusts again (some res, s) keep h = h

  -- Whatever happens, the relay only answers to addresses that datagrams have come in from: if these
  -- and the one that it starts with satisfy a predicate, so do all addresses that it answers to.
  pub relay-Trusts :
      (events : List Event) (s : Relay)
      → All (IsFrom P) events
      → Trusts P s
      → Trusts P (relay os events s).1
  unfolding relay
  relay-Trusts [] s hs h = h
  relay-Trusts (e ∷ events) s (p, ps) h =
      next_round-Trusts _ (round os e s) (λ t ht. relay-Trusts events t ps ht)
        (round-Trusts e s p h)

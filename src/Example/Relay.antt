-- ===== src/Example/Relay.antt =====
-- examples/s5-server.rs: `handle_s5_upd_associate`, the relay of an association.
--
-- What `select!` finds ready, round by round, is a list of events; at its end the loop is still
-- waiting. The body of a branch, once its socket has delivered, is one step, or is cut off.
pub mod Laws
pub mod Association
pub mod Safety
mod Tests
use socks5_impl.Prelude.{
  ℕ, ◌-◌, ◌==◌, Bool, true, false, if◌then◌else◌, List, [], ◌∷◌, ◌++◌, Option, none, some, take,
}
use socks5_impl.Error.{Error, IoError, io, string}
use socks5_impl.Net.{SocketAddr, v4, v6, v6_from}
use socks5_impl.Stream.{Result, ok, err, Act, ◌>>=◌, ◌>>◌, pure, raise, lift, as_error, Conn}
use socks5_impl.Protocol.Reply.{succeeded, general_failure}
use socks5_impl.Protocol.Address.{Address, socket_address, unspecified}
use socks5_impl.Protocol.Address.Convert.{Std, to_socket_addrs, address_of_socket_addr, first_addr}
use socks5_impl.Protocol.Udp
use socks5_impl.Server.Connection.{send_reply}
use socks5_impl.Server.Udp as Associated
use socks5_impl.Server.Udp.{Arrival, Received, Recv, packet}

pub record Sockets : Type 0 where
  pub std : Std
  -- `associate.local_addr()`
  pub local_addr : Conn → Result IoError SocketAddr
  -- `UdpSocket::bind` and the address that it bound
  pub bind_listener : SocketAddr → Result IoError SocketAddr
  -- `UdpSocket::bind(zero_addr)`
  pub bind_dispatcher : Result IoError (Unit {0})
  -- `send_to` of the two sockets
  pub dispatch : List ℕ → SocketAddr → Result IoError ℕ
  pub answer : List ℕ → SocketAddr → Result IoError ℕ
  pub shutdown : Act Conn IoError (Unit {0})

pub data Event : Type 0 where
  -- at the listening socket
  incoming : Arrival → Event
  -- at the dispatching socket
  feedback : List ℕ → SocketAddr → Event
  feedback_failed : IoError → Event
  -- the same, when another branch is ready first and drops the one that has received: before or after
  -- it has noted the client
  incoming_cut : Bool → Arrival → Event
  feedback_cut : List ℕ → SocketAddr → Event
  -- `wait_until_closed` returned
  closed : Event

-- The address to answer to, and what the two sockets have sent so far.
pub record Relay : Type 0 where
  pub incoming_addr : SocketAddr
  pub dispatched : List (List ℕ × SocketAddr)
  pub answered : List (List ℕ × SocketAddr)

abbrev pub max_udp_relay_packet_size : ℕ
max_udp_relay_packet_size = 1500

unfoldable pub buf_size : ℕ
unfolding Udp.max_serialized_len
buf_size = max_udp_relay_packet_size - Udp.max_serialized_len

abbrev pub zero_addr : SocketAddr
zero_addr = v4 (0 ∷ 0 ∷ 0 ∷ 0 ∷ []) 0

-- Whether the loop breaks, and with what.
abbrev pub Round : Type 0
Round = Option (Result Error (Unit {0})) × Relay

abbrev pub break_on_error : Result Error (Unit {0}) × Relay → Round
break_on_error (ok u, s) = (none, s)
break_on_error (err e, s) = (some (err e), s)

module _ (os : Sockets) where
  abbrev pub dispatching :
      List ℕ → SocketAddr → Relay → Result IoError ℕ → Result Error (Unit {0}) × Relay
  dispatching pkt dst s (ok n) =
      (ok tt, record s { dispatched = s.dispatched ++ ((pkt, dst) ∷ []) })
  dispatching pkt dst s (err e) = (err (io e), s)

  abbrev pub dispatch_to : List ℕ → Result Error SocketAddr → Act Relay Error (Unit {0})
  dispatch_to pkt (ok dst) s = dispatching pkt dst s (os.dispatch pkt dst)
  dispatch_to pkt (err e) s = (err e, s)

  -- The first branch, on what `recv_from` returned.
  unfoldable pub forward : Received → Act Relay Error (Unit {0})
  forward r s =
      if r.frag == 0
      then dispatch_to r.pkt (first_addr "Invalid address" (to_socket_addrs os.std r.address))
          (record s { incoming_addr = r.src_addr })
      else (err (string "[UDP] packet fragment is not supported"), s)

  -- A datagram without a header leaves `recv_from` waiting, and the loop with it.
  abbrev pub received : Option (Result IoError Received) → Relay → Round
  received none s = (none, s)
  received (some (err e)) s = (some (err (io e)), s)
  received (some (ok r)) s = break_on_error (forward r s)

  -- The first branch, dropped once it waits; on a fragment it does not wait.
  unfoldable pub forward_cut : Bool → Received → Relay → Round
  forward_cut noted r s =
      if r.frag == 0
      then (none, if noted then record s { incoming_addr = r.src_addr } else s)
      else (some (err (string "[UDP] packet fragment is not supported")), s)

  abbrev pub received_cut : Bool → Option (Result IoError Received) → Relay → Round
  received_cut noted none s = (none, s)
  received_cut noted (some (err e)) s = (some (err (io e)), s)
  received_cut noted (some (ok r)) s = forward_cut noted r s

  abbrev pub answering :
      List ℕ → Address → SocketAddr → Relay → Result IoError ℕ → Result Error (Unit {0}) × Relay
  answering bytes from to s (ok n) =
      (ok tt, record s { answered = s.answered ++ ((packet bytes 0 from, to) ∷ []) })
  answering bytes from to s (err e) = (err (io e), s)

  abbrev pub answer_to : List ℕ → Address → SocketAddr → Act Relay Error (Unit {0})
  answer_to bytes from to s =
      answering bytes from to s (Associated.send_to os.answer bytes 0 from to)

  -- The second branch, with its buffer of 1500 bytes.
  unfoldable pub feed_back : List ℕ → SocketAddr → Act Relay Error (Unit {0})
  feed_back bs remote s =
      answer_to (take max_udp_relay_packet_size bs) (address_of_socket_addr remote) s.incoming_addr
        s

  unfoldable pub round : Event → Relay → Round
  unfolding forward forward_cut feed_back
  round (incoming arrival) s = received (Associated.recv_from buf_size (arrival ∷ [])).0 s
  round (feedback bs remote) s = break_on_error (feed_back bs remote s)
  round (feedback_failed e) s = (some (err (io e)), s)
  round (incoming_cut noted arrival) s =
      received_cut noted (Associated.recv_from buf_size (arrival ∷ [])).0 s
  round (feedback_cut bs remote) s = (none, s)
  round closed s = (some (ok tt), s)

  abbrev pub next_round : (Relay → Round) → Round → Round
  next_round again (none, s) = again s
  next_round again (some res, s) = (some res, s)

  unfoldable pub relay : List Event → Relay → Round
  relay [] s = (none, s)
  relay (e ∷ es) s = next_round (relay es) (round e s)

  -- `SocketAddr::from((listen_ip, 0))`
  abbrev pub any_port : SocketAddr → SocketAddr
  any_port (v4 ip port) = v4 ip 0
  any_port (v6 ip port flowinfo scope) = v6_from ip 0

  abbrev pub fresh_relay : Relay
  fresh_relay = record { incoming_addr = zero_addr; dispatched = []; answered = [] }

  -- Where the association stands: still waiting, or over with a result.
  abbrev pub Association : Type 0
  Association = Option (Result Error (Unit {0})) × Conn × Relay

  -- `reply_listener.shutdown().await?; res`
  abbrev pub shut : Round → Conn → Association
  shut (none, s) c = (none, c, s)
  shut (some res, s) c = let (r, c') = (as_error os.shutdown >> lift res) c in (some r, c', s)

  -- The loop runs if the listener is announced and the dispatching socket bound.
  abbrev pub opened : List Event → Result Error (Unit {0}) × Conn → Association
  opened events (ok u, c) = shut (relay events fresh_relay) c
  opened events (err e, c) = (some (err e), c, fresh_relay)

  unfoldable pub listen : List Event → Result IoError SocketAddr → Conn → Association
  listen events (ok listen_addr) c = opened events (
      (as_error (send_reply succeeded (address_of_socket_addr listen_addr))
          >> as_error (lift os.bind_dispatcher))
        c)
  listen events (err e) c =
      let (r, c') =
        (as_error (send_reply general_failure unspecified)
            >> (as_error os.shutdown >> raise (io e)))
          c in
      (some r, c', fresh_relay)

  abbrev pub local : List Event → Conn → Result IoError SocketAddr → Association
  local events c (ok addr) = listen events (os.bind_listener (any_port addr)) c
  local events c (err e) = (some (err (io e)), c, fresh_relay)

  unfoldable pub handle_s5_upd_associate : List Event → Conn → Association
  unfolding listen relay
  handle_s5_upd_associate events c = local events c (os.local_addr c)

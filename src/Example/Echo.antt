-- ===== src/Example/Echo.antt =====
-- examples/echo-server.rs: the echo of a TCP connection and of a UDP socket.
--
-- What the sockets deliver is a list; at its end the loop is still waiting. What they take is an
-- argument, and what they have taken is part of the result.
pub mod Laws
use socks5_impl.Prelude.{ℕ, zero, suc, List, [], ◌∷◌, ◌++◌, Option, none, some, take}
use socks5_impl.Error.{IoError, io_error, text, timed_out}
use socks5_impl.Net.{SocketAddr}
use socks5_impl.Stream.{Result, ok, err}

abbrev pub buf_size : ℕ
buf_size = 1024

-- What a read within the time limit comes to; no bytes are the end of the stream.
pub data Read : Type 0 where
  elapsed : Read
  failed : IoError → Read
  got : List ℕ → Read

-- `Elapsed` becomes an `io::Error`.
abbrev pub deadline : IoError
deadline = io_error timed_out (text "deadline has elapsed")

module _ (write : List ℕ → Result IoError ℕ) where
  abbrev pub Tcp : Type 0
  Tcp = Option (Result IoError (Unit {0})) × List ℕ

  -- `socket.write` takes the first `amt` bytes; the others are not written again.
  abbrev pub written : (List ℕ → Tcp) → List ℕ → List ℕ → Result IoError ℕ → Tcp
  written again bs out (ok amt) = again (out ++ take amt bs)
  written again bs out (err e) = (some (err e), out)

  -- The block of the task for one connection.
  unfoldable pub echo_tcp : List Read → List ℕ → Tcp
  echo_tcp [] out = (none, out)
  echo_tcp (elapsed ∷ rs) out = (some (err deadline), out)
  echo_tcp (failed e ∷ rs) out = (some (err e), out)
  echo_tcp (got [] ∷ rs) out = (some (ok tt), out)
  echo_tcp (got (b ∷ bs) ∷ rs) out = written (echo_tcp rs) (b ∷ bs) out (write (b ∷ bs))

module _ (send : List ℕ → SocketAddr → Result IoError ℕ) where
  abbrev pub Sent : Type 0
  Sent = List (List ℕ × SocketAddr)

  abbrev pub Udp : Type 0
  Udp = Option (Result IoError (Unit {0})) × Sent

  abbrev pub sending : List ℕ → SocketAddr → (Sent → Udp) → Sent → Result IoError ℕ → Udp
  sending bs peer next out (ok amt) = next (out ++ ((bs, peer) ∷ []))
  sending bs peer next out (err e) = (some (err e), out)

  -- `if let Some((size, peer)) = to_send { .. }`
  abbrev pub flushed : Option (List ℕ × SocketAddr) → (Sent → Udp) → Sent → Udp
  flushed none next out = next out
  flushed (some (bs, peer)) next out = sending bs peer next out (send bs peer)

  -- The loop of `udp_main`: what is to be sent goes out before the next datagram is waited for.
  unfoldable pub echo_udp :
      List (Result IoError (List ℕ × SocketAddr)) → Option (List ℕ × SocketAddr) → Sent → Udp
  echo_udp [] to_send out = flushed to_send (λ o. (none, o)) out
  echo_udp (ok (bs, peer) ∷ rs) to_send out =
      flushed to_send (echo_udp rs (some (take buf_size bs, peer))) out
  echo_udp (err e ∷ rs) to_send out = flushed to_send (λ o. (some (err e), o)) out

-- `CmdOpt`; a number of seconds.
pub record CmdOpt : Type 0 where
  pub listen_addr : SocketAddr
  pub tcp_timeout : ℕ

-- A connection that is accepted: what it takes, and what it delivers within the time limit.
pub record Peer : Type 0 where
  pub write : List ℕ → Result IoError ℕ
  pub reads : List Read

-- A socket that is bound: its address, and what it delivers.
pub record Bound (A : Type 0) : Type 0 where
  pub local_addr : Result IoError SocketAddr
  pub delivers : List A

-- What the loop returns if it does, and what each task of it comes to.
abbrev pub Served : Type 0
Served = Option (Result IoError (Unit {0})) × List (Option (Result IoError (Unit {0})) × List ℕ)

abbrev pub spawned : Option (Result IoError (Unit {0})) × List ℕ → Served → Served
spawned task (res, tasks) = (res, task ∷ tasks)

-- The accept loop of `tcp_main`.
unfoldable pub accepting : List (Result IoError Peer) → Served
accepting [] = (none, [])
accepting (err e ∷ rest) = (some (err e), [])
accepting (ok peer ∷ rest) = spawned (echo_tcp peer.write peer.reads []) (accepting rest)

-- The line of the log has the address of the listener, and its `?` returns: the log is on, as it is by
-- default.
abbrev pub listening : List (Result IoError Peer) → Result IoError SocketAddr → Served
listening peers (ok addr) = accepting peers
listening peers (err e) = (some (err e), [])

unfoldable pub tcp_main : Result IoError (Bound (Result IoError Peer)) → Served
unfolding accepting
tcp_main (ok listener) = listening listener.delivers listener.local_addr
tcp_main (err e) = (some (err e), [])

module _ (send : List ℕ → SocketAddr → Result IoError ℕ) where
  abbrev pub echoing :
      List (Result IoError (List ℕ × SocketAddr)) → Result IoError SocketAddr → Udp send
  echoing rs (ok addr) = echo_udp send rs none []
  echoing rs (err e) = (some (err e), [])

  unfoldable pub udp_main : Result IoError (Bound (Result IoError (List ℕ × SocketAddr))) → Udp send
  unfolding echo_udp
  udp_main (ok socket) = echoing socket.delivers socket.local_addr
  udp_main (err e) = (some (err e), [])

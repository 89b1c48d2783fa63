-- ===== src/Server/Connection/Polls.antt =====
-- src/server/connection/: `AsyncRead` and `AsyncWrite` of a connection that is ready.
--
-- The polls of tokio's `TcpStream` are the parameter `tcp`. A poll runs on a stream and leaves one.
use socks5_impl.Prelude.{ℕ, zero, suc, ◌≡◌, refl, Bool, List, ◌∷◌}
use socks5_impl.Error.{IoError}
use socks5_impl.Stream.{Result, Conn}
use socks5_impl.Server.Connection.{NeedReply, NeedReplies, Connect, UdpAssociate, Bind}

pub data Poll (A : Type 0) : Type 0 where
  done : A → Poll A
  pending : Poll A

abbrev pub Polled : Type 0 → Type 0 → Type 0
Polled T A = Poll (Result IoError A) × T

-- A read into a buffer with so many bytes left gives what it has put there.
pub record AsyncStream (T : Type 0) : Type 0 where
  pub poll_read : T → ℕ → Polled T (List ℕ)
  pub poll_write : T → List ℕ → Polled T ℕ
  pub poll_flush : T → Polled T (Unit {0})
  pub poll_shutdown : T → Polled T (Unit {0})

pub record VectoredStream (T : Type 0) : Type 0 where
  pub poll_write_vectored : T → List (List ℕ) → Polled T ℕ
  pub is_write_vectored : T → Bool

-- `Pin::new(&mut self.stream)`: the stream is polled in its place.
abbrev pub in_place : {T A : Type 0} → (Conn → T) → Polled Conn A → Polled T A
in_place back (r, c) = (r, back c)

module _ (tcp : AsyncStream Conn) where
  unfoldable pub connect_polls : AsyncStream (Connect NeedReply.ready)
  connect_polls = record {
    poll_read = λ conn buf. in_place (λ c. record { stream = c }) (tcp.poll_read conn.stream buf);
    poll_write = λ conn buf. in_place (λ c. record { stream = c }) (tcp.poll_write conn.stream buf);
    poll_flush = λ conn. in_place (λ c. record { stream = c }) (tcp.poll_flush conn.stream);
    poll_shutdown = λ conn. in_place (λ c. record { stream = c }) (tcp.poll_shutdown conn.stream);
  }

  unfoldable pub associate_polls : AsyncStream (UdpAssociate NeedReply.ready)
  associate_polls = record {
    poll_read = λ conn buf. in_place (λ c. record { stream = c }) (tcp.poll_read conn.stream buf);
    poll_write = λ conn buf. in_place (λ c. record { stream = c }) (tcp.poll_write conn.stream buf);
    poll_flush = λ conn. in_place (λ c. record { stream = c }) (tcp.poll_flush conn.stream);
    poll_shutdown = λ conn. in_place (λ c. record { stream = c }) (tcp.poll_shutdown conn.stream);
  }

  unfoldable pub bind_polls : AsyncStream (Bind NeedReplies.ready)
  bind_polls = record {
    poll_read = λ conn buf. in_place (λ c. record { stream = c }) (tcp.poll_read conn.stream buf);
    poll_write = λ conn buf. in_place (λ c. record { stream = c }) (tcp.poll_write conn.stream buf);
    poll_flush = λ conn. in_place (λ c. record { stream = c }) (tcp.poll_flush conn.stream);
    poll_shutdown = λ conn. in_place (λ c. record { stream = c }) (tcp.poll_shutdown conn.stream);
  }

-- `Connect` also hands on the writes from several buffers.
unfoldable pub connect_vectored : VectoredStream Conn → VectoredStream (Connect NeedReply.ready)
connect_vectored tcp = record {
  poll_write_vectored =
      λ conn bufs. in_place (λ c. record { stream = c }) (tcp.poll_write_vectored conn.stream bufs);
  is_write_vectored = λ conn. tcp.is_write_vectored conn.stream;
}

-- A poll, and what it returns.
pub data Call : Type 0 where
  read : ℕ → Call
  write : List ℕ → Call
  flush shutdown : Call

pub data Answer : Type 0 where
  got : Poll (Result IoError (List ℕ)) → Answer
  took : Poll (Result IoError ℕ) → Answer
  finished : Poll (Result IoError (Unit {0})) → Answer

abbrev pub outcome : {T A : Type 0} → (Poll (Result IoError A) → Answer) → Polled T A → Answer × T
outcome f (r, s) = (f r, s)

abbrev pub poll : {T : Type 0} → AsyncStream T → Call → T → Answer × T
poll polls (read n) s = outcome got (polls.poll_read s n)
poll polls (write bs) s = outcome took (polls.poll_write s bs)
poll polls flush s = outcome finished (polls.poll_flush s)
poll polls shutdown s = outcome finished (polls.poll_shutdown s)

-- A task that polls: the next call may depend on every answer so far.
abbrev pub Task : Type 0
Task = List Answer → Call

pub run : {T : Type 0} → AsyncStream T → Task → ℕ → List Answer → T → List Answer × T
run polls task zero seen s = (seen, s)
run polls task (suc n) seen s =
    let (a, s') = poll polls (task seen) s in run polls task n (a ∷ seen) s'

-- Polls that act on the stream inside.
abbrev Forwards : {T : Type 0} → AsyncStream Conn → AsyncStream T → (Conn → T) → Type 0
Forwards tcp polls back =
    (call : Call) (c : Conn)
    → poll polls call (back c) ≡ ((poll tcp call c).0, back (poll tcp call c).1)

run-Forwards :
    {T : Type 0} (tcp : AsyncStream Conn) (polls : AsyncStream T) (back : Conn → T)
    → Forwards tcp polls back
    → (task : Task) (n : ℕ) (seen : List Answer) (c : Conn)
    → run polls task n seen (back c) ≡ ((run tcp task n seen c).0, back (run tcp task n seen c).1)
unfolding run
run-Forwards tcp polls back forwards task zero seen c = refl
run-Forwards tcp polls back forwards task (suc n) seen c = rw (forwards (task seen) c) (
    run-Forwards tcp polls back forwards task n ((poll tcp (task seen) c).0 ∷ seen)
      (poll tcp (task seen) c).1)

connect-Forwards :
    (tcp : AsyncStream Conn) → Forwards tcp (connect_polls tcp) (λ c. record { stream = c })
unfolding connect_polls
connect-Forwards tcp (read n) c = refl
connect-Forwards tcp (write bs) c = refl
connect-Forwards tcp flush c = refl
connect-Forwards tcp shutdown c = refl

associate-Forwards :
    (tcp : AsyncStream Conn) → Forwards tcp (associate_polls tcp) (λ c. record { stream = c })
unfolding associate_polls
associate-Forwards tcp (read n) c = refl
associate-Forwards tcp (write bs) c = refl
associate-Forwards tcp flush c = refl
associate-Forwards tcp shutdown c = refl

bind-Forwards :
    (tcp : AsyncStream Conn) → Forwards tcp (bind_polls tcp) (λ c. record { stream = c })
unfolding bind_polls
bind-Forwards tcp (read n) c = refl
bind-Forwards tcp (write bs) c = refl
bind-Forwards tcp flush c = refl
bind-Forwards tcp shutdown c = refl

-- A task that polls a connection that is ready, of any of the three types, whatever it does with the answers,
-- gets the answers that it would get from the stream itself, and leaves that stream inside.
polls_agree :
    (tcp : AsyncStream Conn) (task : Task) (n : ℕ) (seen : List Answer) (c : Conn)
    → (run (connect_polls tcp) task n seen (record { stream = c })
        ≡ ((run tcp task n seen c).0, record { stream = (run tcp task n seen c).1 }))
      × (run (associate_polls tcp) task n seen (record { stream = c })
          ≡ ((run tcp task n seen c).0, record { stream = (run tcp task n seen c).1 }))
      × (run (bind_polls tcp) task n seen (record { stream = c })
          ≡ ((run tcp task n seen c).0, record { stream = (run tcp task n seen c).1 }))
polls_agree tcp task n seen c = (
  run-Forwards tcp (connect_polls tcp) _ (connect-Forwards tcp) task n seen c,
  run-Forwards tcp (associate_polls tcp) _ (associate-Forwards tcp) task n seen c,
  run-Forwards tcp (bind_polls tcp) _ (bind-Forwards tcp) task n seen c,
)

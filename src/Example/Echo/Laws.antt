-- ===== src/Example/Echo/Laws.antt =====
-- examples/echo-server.rs: what comes back.
use socks5_impl.Prelude.{
  ℕ, ◌≡◌, refl, ap, ◌∙◌, List, [], ◌∷◌, ◌++◌, map, append-nil, append_assoc, none, some, length,
  take, take_all, arith,
}
use socks5_impl.Error.{IoError}
use socks5_impl.Net.{SocketAddr}
use socks5_impl.Stream.{Result, ok, err}
use socks5_impl.Example.Echo.{
  Read, got, buf_size, echo_tcp, echo_udp, flushed, Sent, Udp, Peer, spawned, tcp_main,
}

-- The bytes that the client has sent.
abbrev pub concat : List (List ℕ) → List ℕ
concat [] = []
concat (bs ∷ rest) = bs ++ concat rest

abbrev got_some : ℕ × List ℕ → Read
got_some (b, bs) = got (b ∷ bs)

abbrev pub chunk : ℕ × List ℕ → List ℕ
chunk (b, bs) = b ∷ bs

-- On a socket that takes what it is given whole, a client that sends some bytes, however they are cut
-- into reads, and closes its end gets these bytes back, and the task ends with success.
echo_tcp_returns :
    (write : List ℕ → Result IoError ℕ) (cs : List (ℕ × List ℕ)) (later : List Read) (out : List ℕ)
    → ((bs : List ℕ) → write bs ≡ ok (length bs))
    → echo_tcp write (map (λ (c : ℕ × List ℕ). got (chunk c)) cs ++ (got [] ∷ later)) out
      ≡ (some (ok tt), out ++ concat (map chunk cs))
unfolding echo_tcp
echo_tcp_returns write [] later out whole = rw append-nil
echo_tcp_returns write ((b, bs) ∷ cs) later out whole = rw (whole (b ∷ bs)) (
    ap
      (λ (k : List ℕ).
        echo_tcp write (map (λ (c : ℕ × List ℕ). got (chunk c)) cs ++ (got [] ∷ later)) (out ++ k))
      (take_all (length (b ∷ bs)) (b ∷ bs) (omega arith))
    ∙ echo_tcp_returns write cs later (out ++ (b ∷ bs)) whole
    ∙ rw (append_assoc out (b ∷ bs) (concat (map chunk cs))))

-- A datagram as it is sent back: cut at the size of the buffer.
abbrev pub cut : List ℕ × SocketAddr → List ℕ × SocketAddr
cut (bs, peer) = (take buf_size bs, peer)

module _ (send : List ℕ → SocketAddr → Result IoError ℕ)
    (takes : (bs : List ℕ) (peer : SocketAddr) → (n : ℕ) × (send bs peer ≡ ok n)) where
  flushed-some :
      (bs : List ℕ) (peer : SocketAddr) (next : Sent send → Udp send) (out : Sent send)
      → flushed send (some (bs, peer)) next out ≡ next (out ++ ((bs, peer) ∷ []))
  flushed-some bs peer next out = let (n, sent) = takes bs peer in rw sent

  echo_udp-some :
      (ds : List (List ℕ × SocketAddr)) (d : List ℕ × SocketAddr) (out : Sent send)
      → echo_udp send (map (λ (x : List ℕ × SocketAddr). ok x) ds) (some d) out
        ≡ (none, out ++ (d ∷ map cut ds))
  unfolding echo_udp
  echo_udp-some [] (bs, peer) out = flushed-some bs peer (λ o. (none, o)) out
  echo_udp-some ((bs', peer') ∷ ds) (bs, peer) out =
      flushed-some bs peer
        (echo_udp send (map (λ (x : List ℕ × SocketAddr). ok x) ds)
          (some (take buf_size bs', peer')))
        out
      ∙ echo_udp-some ds (take buf_size bs', peer') (out ++ ((bs, peer) ∷ []))
      ∙ rw (append_assoc out ((bs, peer) ∷ []) (map cut ((bs', peer') ∷ ds)))

  -- On a socket that takes every datagram, each datagram that has come in is sent back to its peer, cut
  -- at 1024 bytes, in the order of their arrival, the last one too, and the loop waits for the next.
  echo_udp_returns :
      (ds : List (List ℕ × SocketAddr))
      → echo_udp send (map (λ (x : List ℕ × SocketAddr). ok x) ds) none [] ≡ (none, map cut ds)
  unfolding echo_udp
  echo_udp_returns [] = refl
  echo_udp_returns (d ∷ ds) = echo_udp-some ds (cut d) []

-- A client that sends these chunks and closes, over a connection that takes what it is given whole.
pub record Caller : Type 0 where
  pub write : List ℕ → Result IoError ℕ
  pub chunks : List (ℕ × List ℕ)
  pub whole : (bs : List ℕ) → write bs ≡ ok (length bs)

abbrev pub peer_of : Caller → Peer
peer_of c = record {
  write = c.write;
  reads = map (λ (k : ℕ × List ℕ). got (chunk k)) c.chunks ++ (got [] ∷ []);
}

-- On a listener that is bound and has an address, every client that is accepted before `accept` fails gets back what it has
-- sent, whatever the others do, and the loop returns the error of `accept`.
tcp_main_serves :
    (at : SocketAddr) (callers : List Caller) (e : IoError) (later : List (Result IoError Peer))
    → tcp_main (
        ok (record {
          local_addr = ok at;
          delivers = map (λ (c : Caller). ok (peer_of c)) callers ++ (err e ∷ later);
        }))
      ≡ (some (err e), map (λ (c : Caller). (some (ok tt), concat (map chunk c.chunks))) callers)
unfolding tcp_main
tcp_main_serves at [] e later = refl
tcp_main_serves at (c ∷ callers) e later =
    rw (echo_tcp_returns c.write c.chunks [] [] c.whole) (
      ap (spawned (some (ok tt), concat (map chunk c.chunks))) (tcp_main_serves at callers e later))

-- ===== src/Example/DemoClient/Laws.antt =====
-- examples/demo-client.rs: what goes out and what is printed.
use socks5_impl.Prelude.{ℕ, ◌+◌, ◌≡◌, ap, ◌∙◌, List, ◌++◌, length, none, append-nil, arith}
use socks5_impl.Error.{Error, IoError}
use socks5_impl.Stream.{Result, ok, Conn, as_error, write_all, flush, transmit, ◌>>◌, emit, pure}
use socks5_impl.Stream.Laws.{bind-ok}
use socks5_impl.Stream.Delivery.{IsReady}
use socks5_impl.Protocol.Command
use socks5_impl.Protocol.Address.{Address, IsAddress, IsWritable}
use socks5_impl.Protocol.Handshake.AuthMethod.{no_auth}
use socks5_impl.Client.Init.{connect}
use socks5_impl.Client.Init.Steps.{told}
use socks5_impl.Client.Init.Laws.{hello, ask, answer, chosen, init_no_auth}
use socks5_impl.Example.DemoClient.{google, req, fetch, response, answer_of}

-- The connection when the request is out.
abbrev pub queried : List ℕ → Conn → Conn
queried rest c =
    told req (told (ask Command.connect google) (told (hello none) (record c { input = rest })))

abbrev said : Conn → Address → Result Error Address × Conn
said c addr = (ok addr, c)

sends :
    (bs : List ℕ) (addr : Address) (c : Conn)
    → IsReady (length bs) c.out
    → (emit (as_error (write_all bs)) >> (emit (as_error flush) >> pure addr)) c
      ≡ said (told bs c) addr
unfolding write_all flush transmit
sends bs addr c h = ground (arith, append-nil (c.out.sent ++ bs))

-- With a proxy that chooses no authentication and grants the connection, on a stream that takes the three
-- messages, the client sends its offer, its request for the web server and the text of the query, in
-- this order and nothing else, and prints the address that the proxy bound and the first 1024 bytes of what a
-- read then delivers, or fails with its error.
fetch_asks :
    (read : Conn → Result IoError (List ℕ)) (bound : Address) (rest : List ℕ) (c : Conn)
    → IsAddress bound
    → IsWritable bound
    → c.input ≡ chosen no_auth ++ (answer bound ++ rest)
    → IsReady (length (hello none) + length (ask Command.connect google) + length req) c.out
    → fetch read (ok c) ≡ answer_of read bound (read (queried rest c))
unfolding fetch connect
fetch_asks read bound rest c h w e (p, room) = ap (response read) (
    bind-ok (connect google none) _ c
      (init_no_auth Command.connect google bound none rest c (omega arith) h w e (p, omega arith))
    ∙ sends req bound _ (p, omega arith))

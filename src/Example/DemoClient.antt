-- ===== src/Example/DemoClient.antt =====
-- examples/demo-client.rs: `main`, a request to a web server through the proxy.
pub mod Laws
use socks5_impl.Prelude.{ℕ, List, [], ◌∷◌, none, take}
use socks5_impl.Error.{Error, IoError, io}
use socks5_impl.Stream.{
  Result, ok, err, Act, ◌>>=◌, ◌>>◌, pure, as_error, write_all, flush, Conn, emit,
}
use socks5_impl.Protocol.Address.{Address, domain_address}
use socks5_impl.Client.Init.{connect}

-- `("google.com", 80)`
abbrev pub google : Address
google =
    domain_address (0x67 ∷ 0x6f ∷ 0x6f ∷ 0x67 ∷ 0x6c ∷ 0x65 ∷ 0x2e ∷ 0x63 ∷ 0x6f ∷ 0x6d ∷ []) 80

-- `GET / HTTP/1.0`, `Host: google.com`
abbrev pub req : List ℕ
req =
    0x47 ∷ 0x45 ∷ 0x54 ∷ 0x20 ∷ 0x2f ∷ 0x20 ∷ 0x48 ∷ 0x54 ∷ 0x54 ∷ 0x50 ∷ 0x2f ∷ 0x31 ∷ 0x2e ∷ 0x30
    ∷ 0x0d ∷ 0x0a ∷ 0x48 ∷ 0x6f ∷ 0x73 ∷ 0x74 ∷ 0x3a ∷ 0x20 ∷ 0x67 ∷ 0x6f ∷ 0x6f ∷ 0x67 ∷ 0x6c
    ∷ 0x65 ∷ 0x2e ∷ 0x63 ∷ 0x6f ∷ 0x6d ∷ 0x0d ∷ 0x0a ∷ 0x0d ∷ 0x0a ∷ []

unfoldable pub request : Act Conn Error Address
request = do
  addr ← connect google none
  emit (as_error (write_all req))
  emit (as_error flush)
  pure addr

-- One `read` of a buffer of 1024 bytes.
module _ (read : Conn → Result IoError (List ℕ)) where
  abbrev pub answer_of : Address → Result IoError (List ℕ) → Result Error (Address × List ℕ)
  answer_of addr (ok bs) = ok (addr, take 1024 bs)
  answer_of addr (err e) = err (io e)

  abbrev pub response : Result Error Address × Conn → Result Error (Address × List ℕ)
  response (ok addr, c) = answer_of addr (read c)
  response (err e, c) = err e

  -- On what `TcpStream::connect` returned: the address and the bytes that are printed.
  unfoldable pub fetch : Result IoError Conn → Result Error (Address × List ℕ)
  unfolding request
  fetch (ok stream) = response (request stream)
  fetch (err e) = err (io e)

-- ===== src/Protocol/Handshake/Request/Contract.antt =====
-- src/protocol/handshake/request.rs: the contract of a message.
use socks5_impl.Prelude.{
  ℕ, ◌%◌, ◌≡◌, refl, List, [], ◌∷◌, ◌++◌, map, length, length-map, append_assoc, arith, All,
}
use socks5_impl.Stream.{ok, read_exact, read_u8}
use socks5_impl.Stream.Laws.{read_exact-append, after_congr, read_u8-eq}
use socks5_impl.Stream.Framing.{Streams, streams_rules}
use socks5_impl.Protocol.Operation.{Lawful}
use socks5_impl.Protocol.Version
use socks5_impl.Protocol.Version.{require_v5, require_v5-Streams}
use socks5_impl.Protocol.Handshake.AuthMethod
use socks5_impl.Protocol.Handshake.AuthMethod.{AuthMethod, IsCanonical, from_u8-to_u8}
use socks5_impl.Protocol.Handshake.Request.{
  Request, retrieve_from_stream, retrieve_from_async_stream, write_to_buf, len,
  handshake_request_operation, IsWritable,
}

appends : (x : Request) (buf : List ℕ) → write_to_buf x buf ≡ buf ++ write_to_buf x []
unfolding write_to_buf
appends x buf = simp append_assoc

measures : (x : Request) → Unit {0} → length (write_to_buf x []) ≡ len x
unfolding write_to_buf len
measures x h = omega (arith, length-map AuthMethod.to_u8 x.methods)

from_u8-to_u8-All :
    (ms : List AuthMethod)
    → All IsCanonical ms
    → map AuthMethod.from_u8 (map AuthMethod.to_u8 ms) ≡ ms
from_u8-to_u8-All [] h = refl
from_u8-to_u8-All (m ∷ ms) h = rw (from_u8-to_u8 m h.0, from_u8-to_u8-All ms h.1)

reads_back :
    (x : Request) (rest : List ℕ)
    → Unit {0}
    → IsWritable x
    → retrieve_from_stream (write_to_buf x [] ++ rest) ≡ (ok x, rest)
unfolding write_to_buf retrieve_from_stream read_exact Version.to_u8 Version.try_from require_v5
reads_back x rest h w =
    let fits : length x.methods % 256 ≡ length (map AuthMethod.to_u8 x.methods) =
      omega (arith, length-map AuthMethod.to_u8 x.methods) in
    rw (
      read_exact-append (length x.methods % 256) (map AuthMethod.to_u8 x.methods) rest fits,
      from_u8-to_u8-All x.methods w.1,
    )

async_agrees : (bs : List ℕ) → retrieve_from_async_stream bs ≡ retrieve_from_stream bs
unfolding retrieve_from_stream retrieve_from_async_stream read_exact read_u8
async_agrees [] = refl
async_agrees (b ∷ bs) =
    after_congr (Version.try_from b, bs) _ _
      λ version s. after_congr (require_v5 version s) _ _ λ _ t. read_u8-eq _ t

streams : Streams retrieve_from_stream
unfolding retrieve_from_stream
streams = search (streams_rules, require_v5-Streams) depth 14

-- A list of at most 255 methods, each numbered as its kind says, is read back from the front of any
-- input; the bytes are `len` many and appended; both readers agree on every input, and they leave
-- what follows alone.
pub handshake_request_operation-Lawful :
    Lawful handshake_request_operation (λ _. Unit {0}) IsWritable
handshake_request_operation-Lawful = record {
  appends = appends;
  measures = measures;
  reads_back = reads_back;
  async_agrees = async_agrees;
  streams = streams;
}

-- ===== src/Protocol/Request/Contract.antt =====
-- src/protocol/request.rs: the contract of a message.
use socks5_impl.Prelude.{ℕ, ◌≡◌, refl, List, [], ◌∷◌, ◌++◌, length, append_assoc, arith}
use socks5_impl.Stream.{ok, ◌>>=◌, read_exact, read_u8}
use socks5_impl.Stream.Framing.{Streams, streams_rules}
use socks5_impl.Protocol.Operation.{Lawful}
use socks5_impl.Protocol.Version
use socks5_impl.Protocol.Version.{Version, v4, v5, require_v5, require_v5-Streams, Version-IsCode}
use socks5_impl.Protocol.Command.{Command-IsCode}
use socks5_impl.Protocol.Address.Encode.{
  write_to_buf-append, length-write_to_buf, async-eq, retrieve-write,
}
use socks5_impl.Protocol.Address.Decode.{retrieve-Streams}
use socks5_impl.Protocol.Request.{
  Request, retrieve_from_stream, retrieve_from_async_stream, write_to_buf, len, request_operation,
  IsRequest, IsWritableRequest,
}

appends : (x : Request) (buf : List ℕ) → write_to_buf x buf ≡ buf ++ write_to_buf x []
unfolding write_to_buf
appends x buf = simp (write_to_buf-append x.address, append_assoc)

measures : (x : Request) → IsRequest x → length (write_to_buf x []) ≡ len x
unfolding write_to_buf len
measures x h = rw (write_to_buf-append x.address) (omega (arith, length-write_to_buf x.address h))

reads_back :
    (x : Request) (rest : List ℕ)
    → IsRequest x
    → IsWritableRequest x
    → retrieve_from_stream (write_to_buf x [] ++ rest) ≡ (ok x, rest)
unfolding write_to_buf retrieve_from_stream read_exact Version.to_u8 Version.try_from require_v5
reads_back x rest h w = rw (
  write_to_buf-append x.address,
  Command-IsCode.decodes x.command,
  retrieve-write x.address rest h w,
)

async_agrees : (bs : List ℕ) → retrieve_from_async_stream bs ≡ retrieve_from_stream bs
unfolding retrieve_from_stream retrieve_from_async_stream read_exact read_u8
async_agrees [] = refl
async_agrees (b ∷ bs) = rw (async-eq, ◌>>=◌)

streams : Streams retrieve_from_stream
unfolding retrieve_from_stream
streams = search (streams_rules, retrieve-Streams, require_v5-Streams) depth 14

-- A request appends its bytes, `len` of them; one with a writable address is read back from the
-- front of any input; both readers agree on every input, and they leave what follows alone.
pub request_operation-Lawful : Lawful request_operation IsRequest IsWritableRequest
request_operation-Lawful = record {
  appends = appends;
  measures = measures;
  reads_back = reads_back;
  async_agrees = async_agrees;
  streams = streams;
}

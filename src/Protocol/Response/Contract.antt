-- ===== src/Protocol/Response/Contract.antt =====
-- src/protocol/response.rs: the contract of a message.
use socks5_impl.Prelude.{ℕ, ◌≡◌, refl, List, [], ◌∷◌, ◌++◌, length, append_assoc, arith}
use socks5_impl.Stream.{ok, ◌>>=◌, read_exact, read_u8}
use socks5_impl.Stream.Framing.{Streams, streams_rules}
use socks5_impl.Protocol.Operation.{Lawful}
use socks5_impl.Protocol.Version
use socks5_impl.Protocol.Version.{Version, v4, v5, require_v5, require_v5-Streams, Version-IsCode}
use socks5_impl.Protocol.Reply.{Reply-IsCode}
use socks5_impl.Protocol.Address.Encode.{
  write_to_buf-append, length-write_to_buf, async-eq, retrieve-write,
}
use socks5_impl.Protocol.Address.Decode.{retrieve-Streams}
use socks5_impl.Protocol.Response.{
  Response, retrieve_from_stream, retrieve_from_async_stream, write_to_buf, len, response_operation,
  IsResponse, IsWritableResponse,
}

appends : (x : Response) (buf : List ℕ) → write_to_buf x buf ≡ buf ++ write_to_buf x []
unfolding write_to_buf
appends x buf = simp (write_to_buf-append x.address, append_assoc)

measures : (x : Response) → IsResponse x → length (write_to_buf x []) ≡ len x
unfolding write_to_buf len
measures x h = rw (write_to_buf-append x.address) (omega (arith, length-write_to_buf x.address h))

reads_back :
    (x : Response) (rest : List ℕ)
    → IsResponse x
    → IsWritableResponse x
    → retrieve_from_stream (write_to_buf x [] ++ rest) ≡ (ok x, rest)
unfolding write_to_buf retrieve_from_stream read_exact Version.to_u8 Version.try_from require_v5
reads_back x rest h w =
    rw (
      write_to_buf-append x.address,
      Reply-IsCode.decodes x.reply,
      retrieve-write x.address rest h w,
    )

async_agrees : (bs : List ℕ) → retrieve_from_async_stream bs ≡ retrieve_from_stream bs
unfolding retrieve_from_stream retrieve_from_async_stream read_exact read_u8
async_agrees [] = refl
async_agrees (b ∷ bs) = rw (async-eq, ◌>>=◌)

streams : Streams retrieve_from_stream
unfolding retrieve_from_stream
streams = search (streams_rules, retrieve-Streams, require_v5-Streams) depth 14

-- A response appends its bytes, `len` of them; one with a writable address is read back from the
-- front of any input; both readers agree on every input, and they leave what follows alone.
pub response_operation-Lawful : Lawful response_operation IsResponse IsWritableResponse
response_operation-Lawful = record {
  appends = appends;
  measures = measures;
  reads_back = reads_back;
  async_agrees = async_agrees;
  streams = streams;
}

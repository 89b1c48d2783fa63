-- ===== src/Protocol/Udp/Contract.antt =====
-- src/protocol/udp.rs: the contract of a message.
use socks5_impl.Prelude.{ℕ, ◌≤◌, ◌≡◌, List, [], ◌++◌, length, append_assoc, arith}
use socks5_impl.Stream.{ok, ◌>>=◌, read_exact}
use socks5_impl.Stream.Framing.{Streams, streams_rules}
use socks5_impl.Protocol.Operation.{Lawful}
use socks5_impl.Protocol.Address.Encode.{
  write_to_buf-append, length-write_to_buf, async-eq, retrieve-write,
}
use socks5_impl.Protocol.Address.Decode.{retrieve-Streams}
use socks5_impl.Protocol.Address.Contract.{length-write_le}
use socks5_impl.Protocol.Udp.{
  UdpHeader, retrieve_from_stream, retrieve_from_async_stream, write_to_buf, len,
  udp_header_operation, IsUdpHeader, IsWritableHeader, max_serialized_len,
}

appends : (x : UdpHeader) (buf : List ℕ) → write_to_buf x buf ≡ buf ++ write_to_buf x []
unfolding write_to_buf
appends x buf = simp (write_to_buf-append x.address, append_assoc)

pub measures : (x : UdpHeader) → IsUdpHeader x → length (write_to_buf x []) ≡ len x
unfolding write_to_buf len
measures x h = rw (write_to_buf-append x.address) (omega (arith, length-write_to_buf x.address h))

reads_back :
    (x : UdpHeader) (rest : List ℕ)
    → IsUdpHeader x
    → IsWritableHeader x
    → retrieve_from_stream (write_to_buf x [] ++ rest) ≡ (ok x, rest)
unfolding write_to_buf retrieve_from_stream read_exact
reads_back x rest h w = rw (write_to_buf-append x.address, retrieve-write x.address rest h w)

async_agrees : (bs : List ℕ) → retrieve_from_async_stream bs ≡ retrieve_from_stream bs
unfolding retrieve_from_stream retrieve_from_async_stream
async_agrees bs = rw (async-eq, ◌>>=◌)

streams : Streams retrieve_from_stream
unfolding retrieve_from_stream
streams = search (streams_rules, retrieve-Streams) depth 14

-- A UDP header appends its bytes, `len` of them; one with a writable address is read back from the
-- front of any packet; both readers agree on every input, and they leave the payload alone.
pub udp_header_operation-Lawful : Lawful udp_header_operation IsUdpHeader IsWritableHeader
udp_header_operation-Lawful = record {
  appends = appends;
  measures = measures;
  reads_back = reads_back;
  async_agrees = async_agrees;
  streams = streams;
}

-- A writable header is no longer than `max_serialized_len`.
length-header_le :
    (x : UdpHeader)
    → IsUdpHeader x
    → IsWritableHeader x
    → length (write_to_buf x []) ≤ max_serialized_len
unfolding write_to_buf max_serialized_len
length-header_le x h w =
    rw (write_to_buf-append x.address) (omega (arith, length-write_le x.address h w))

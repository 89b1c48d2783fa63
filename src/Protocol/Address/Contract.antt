-- ===== src/Protocol/Address/Contract.antt =====
-- src/protocol/address.rs: `Address` and the contract of a message.
use socks5_impl.Prelude.{
  ℕ, ◌≤◌, ◌≡◌, ◌↔◌, List, [], ◌++◌, length, All, All-append, IsByte, to_be_bytes, arith,
}
use socks5_impl.Net.{v4, v6}
use socks5_impl.Stream.{ok}
use socks5_impl.Protocol.Operation.{Lawful}
use socks5_impl.Protocol.AddressType
use socks5_impl.Protocol.Address.{
  Address, socket_address, domain_address, write_to_buf, len, retrieve_from_stream,
  address_operation, IsAddress, IsWritable, max_serialized_len,
}
use socks5_impl.Protocol.Address.Encode.{
  write_to_buf-append, length-write_to_buf, retrieve_from_async_stream-eq, retrieve-write,
}
use socks5_impl.Protocol.Address.Decode.{retrieve-Streams, retrieve-Took}

-- `Address` appends its bytes, `len` of them; a writable one is read back from the front of any
-- input; both readers agree on every input, and they leave what follows alone.
pub address_operation-Lawful : Lawful address_operation IsAddress IsWritable
address_operation-Lawful = record {
  appends = write_to_buf-append;
  measures = length-write_to_buf;
  reads_back = retrieve-write;
  async_agrees = retrieve_from_async_stream-eq;
  streams = retrieve-Streams;
}

pub write_to_buf-IsByte : (x : Address) → IsAddress x → All IsByte (write_to_buf x [])
unfolding write_to_buf AddressType.to_u8
write_to_buf-IsByte (socket_address (v4 ip port)) (l, b, p) =
    (omega arith, All-append IsByte ip (to_be_bytes port) b (omega arith))
write_to_buf-IsByte (socket_address (v6 ip port flowinfo scope)) (l, b, p) =
    (omega arith, All-append IsByte ip (to_be_bytes port) b (omega arith))
write_to_buf-IsByte (domain_address name port) (u, b, p) =
    (omega arith, (omega arith, All-append IsByte name (to_be_bytes port) b (omega arith)))

-- A well-formed address is read back from its encoding exactly when it is writable: a domain of
-- at most 255 bytes, or a socket address without flow label and scope.
pub retrieve-write_iff :
    (x : Address) (rest : List ℕ)
    → IsAddress x
    → All IsByte rest
    → (retrieve_from_stream (write_to_buf x [] ++ rest) ≡ (ok x, rest)) ↔ IsWritable x
retrieve-write_iff x rest h b = (
  λ e.
      (retrieve-Took _ rest x
        (All-append IsByte (write_to_buf x []) rest (write_to_buf-IsByte x h) b) e).2,
  retrieve-write x rest h,
)

-- A writable address is no longer than `max_serialized_len`.
pub length-write_le :
    (x : Address) → IsAddress x → IsWritable x → length (write_to_buf x []) ≤ max_serialized_len
unfolding max_serialized_len len
length-write_le (socket_address (v4 ip port)) h w =
    omega (arith, length-write_to_buf (socket_address (v4 ip port)) h)
length-write_le (socket_address (v6 ip port flowinfo scope)) h w =
    omega (arith, length-write_to_buf (socket_address (v6 ip port flowinfo scope)) h)
length-write_le (domain_address name port) h w =
    omega (arith, length-write_to_buf (domain_address name port) h)

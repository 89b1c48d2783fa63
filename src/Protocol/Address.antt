-- ===== src/Protocol/Address.antt =====
-- src/protocol/address.rs: `Address`, read from and written to streams. A domain is the list of
-- its bytes.
pub mod Encode
pub mod Decode
pub mod Contract
pub mod Convert
pub mod Text
use socks5_impl.Prelude.{
  ℕ, zero, suc, ◌+◌, ◌≤◌, Bool, true, false, List, [], ◌∷◌, ◌++◌, ◌≡◌, if◌then◌else◌, length, take,
  get_or, All, IsByte, IsU16, as_u8, from_be_bytes,
}
use socks5_impl.Error.{IoError, io_error, text, invalid_data}
use socks5_impl.Net.{SocketAddr, v4, v6, v6_from, port_of, IsSocketAddr}
use socks5_impl.Stream.{Result, ok, err, Reader, ◌>>=◌, pure, raise, lift, read_exact, read_u8}
use socks5_impl.Stream.Utf8.{is_utf8}
use socks5_impl.Protocol.Operation.{put_u8, put_slice, put_u16, ◌▹◌, StreamOperation}
use socks5_impl.Protocol.AddressType
use socks5_impl.Protocol.AddressType.{AddressType, ipv4, domain, ipv6}

pub data Address : Type 0 where
  socket_address : SocketAddr → Address
  domain_address : List ℕ → ℕ → Address

unfoldable pub unspecified : Address
unspecified = socket_address (v4 (0 ∷ 0 ∷ 0 ∷ 0 ∷ []) 0)

unfoldable pub get_type : Address → AddressType
get_type (socket_address (v4 ip port)) = ipv4
get_type (socket_address (v6 ip port flowinfo scope)) = ipv6
get_type (domain_address name port) = domain

unfoldable pub port : Address → ℕ
port (socket_address addr) = port_of addr
port (domain_address name p) = p

unfoldable pub max_serialized_len : ℕ
max_serialized_len = 1 + 1 + 255 + 2

-- `String::from_utf8(buf)`, with the error of the address.
unfoldable pub from_utf8 : List ℕ → Reader (List ℕ)
from_utf8 buf =
    if is_utf8 buf
    then pure buf
    else raise (io_error invalid_data (text "Invalid address encoding: {err}"))

unfoldable pub retrieve_body : AddressType → Reader Address
unfolding from_utf8
retrieve_body ipv4 = do
  buf ← read_exact 6
  let addr : List ℕ = get_or buf 0 0 ∷ get_or buf 1 0 ∷ get_or buf 2 0 ∷ get_or buf 3 0 ∷ []
  pure (socket_address (v4 addr (from_be_bytes (get_or buf 4 0) (get_or buf 5 0))))
retrieve_body domain = do
  head ← read_exact 1
  let len : ℕ = get_or head 0 0
  buf ← read_exact (len + 2)
  let port : ℕ = from_be_bytes (get_or buf len 0) (get_or buf (len + 1) 0)
  addr ← from_utf8 (take len buf)
  pure (domain_address addr port)
retrieve_body ipv6 = do
  buf ← read_exact 18
  let port : ℕ = from_be_bytes (get_or buf 16 0) (get_or buf 17 0)
  pure (socket_address (v6_from (take 16 buf) port))

unfoldable pub retrieve_from_stream : Reader Address
unfolding retrieve_body
retrieve_from_stream = do
  atyp ← read_exact 1
  kind ← lift (AddressType.try_from (get_or atyp 0 0))
  retrieve_body kind

unfoldable pub retrieve_async_body : AddressType → Reader Address
unfolding from_utf8
retrieve_async_body ipv4 = do
  addr_bytes ← read_exact 4
  buf ← read_exact 2
  pure (socket_address (v4 addr_bytes (from_be_bytes (get_or buf 0 0) (get_or buf 1 0))))
retrieve_async_body domain = do
  len ← read_u8
  buf ← read_exact (len + 2)
  let port : ℕ = from_be_bytes (get_or buf len 0) (get_or buf (len + 1) 0)
  addr ← from_utf8 (take len buf)
  pure (domain_address addr port)
retrieve_async_body ipv6 = do
  addr_bytes ← read_exact 16
  buf ← read_exact 2
  pure (socket_address (v6_from addr_bytes (from_be_bytes (get_or buf 0 0) (get_or buf 1 0))))

unfoldable pub retrieve_from_async_stream : Reader Address
unfolding retrieve_async_body
retrieve_from_async_stream = do
  atyp ← read_u8
  kind ← lift (AddressType.try_from atyp)
  retrieve_async_body kind

unfoldable pub write_to_buf : Address → List ℕ → List ℕ
write_to_buf (socket_address (v4 ip port)) buf =
    buf ▹ put_u8 (AddressType.to_u8 ipv4) ▹ put_slice ip ▹ put_u16 port
write_to_buf (socket_address (v6 ip port flowinfo scope)) buf =
    buf ▹ put_u8 (AddressType.to_u8 ipv6) ▹ put_slice ip ▹ put_u16 port
write_to_buf (domain_address name port) buf =
    buf
    ▹ put_u8 (AddressType.to_u8 domain)
    ▹ put_u8 (as_u8 (length name))
    ▹ put_slice name
    ▹ put_u16 port

unfoldable pub len : Address → ℕ
len (socket_address (v4 ip port)) = 1 + 4 + 2
len (socket_address (v6 ip port flowinfo scope)) = 1 + 16 + 2
len (domain_address name port) = 1 + 1 + length name + 2

instance abbrev pub address_operation : StreamOperation Address
address_operation = record {
  retrieve_from_stream = retrieve_from_stream;
  retrieve_from_async_stream = retrieve_from_async_stream;
  write_to_buf = write_to_buf;
  len = len;
}

-- What the types of the source give: sizes of octets and ports, and that a string is UTF-8.
abbrev pub IsAddress : Address → Type 0
IsAddress (socket_address a) = IsSocketAddr a
IsAddress (domain_address name port) = (is_utf8 name ≡ true) × All IsByte name × IsU16 port

-- What the wire format can carry: a domain of at most 255 bytes; no flow label and no scope.
abbrev pub IsWritable : Address → Type 0
IsWritable (socket_address (v4 ip port)) = Unit {0}
IsWritable (socket_address (v6 ip port flowinfo scope)) = (flowinfo ≡ 0) × (scope ≡ 0)
IsWritable (domain_address name port) = length name ≤ 255

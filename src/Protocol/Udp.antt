-- ===== src/Protocol/Udp.antt =====
-- src/protocol/udp.rs
pub mod Contract
pub mod Accepted
use socks5_impl.Prelude.{ℕ, ◌+◌, List, [], ◌∷◌, get_or}
use socks5_impl.Stream.{Reader, ◌>>=◌, pure, read_exact}
use socks5_impl.Protocol.Operation.{put_u8, put_slice, ◌▹◌, StreamOperation}
use socks5_impl.Protocol.Address
use socks5_impl.Protocol.Address.{Address, IsAddress, IsWritable}

pub record UdpHeader : Type 0 where
  pub frag : ℕ
  pub address : Address

abbrev pub new : ℕ → Address → UdpHeader
new frag address = record { frag = frag; address = address }

unfoldable pub max_serialized_len : ℕ
unfolding Address.max_serialized_len
max_serialized_len = 3 + Address.max_serialized_len

unfoldable pub retrieve_from_stream : Reader UdpHeader
retrieve_from_stream = do
  buf ← read_exact 3
  let frag : ℕ = get_or buf 2 0
  address ← Address.retrieve_from_stream
  pure (record { frag = frag; address = address })

unfoldable pub retrieve_from_async_stream : Reader UdpHeader
retrieve_from_async_stream = do
  buf ← read_exact 3
  let frag : ℕ = get_or buf 2 0
  address ← Address.retrieve_from_async_stream
  pure (record { frag = frag; address = address })

unfoldable pub write_to_buf : UdpHeader → List ℕ → List ℕ
write_to_buf x buf =
    Address.write_to_buf x.address (buf ▹ put_slice (0x00 ∷ 0x00 ∷ []) ▹ put_u8 x.frag)

unfoldable pub len : UdpHeader → ℕ
len x = 3 + Address.len x.address

instance abbrev pub udp_header_operation : StreamOperation UdpHeader
udp_header_operation = record {
  retrieve_from_stream = retrieve_from_stream;
  retrieve_from_async_stream = retrieve_from_async_stream;
  write_to_buf = write_to_buf;
  len = len;
}

abbrev pub IsUdpHeader : UdpHeader → Type 0
IsUdpHeader x = IsAddress x.address

abbrev pub IsWritableHeader : UdpHeader → Type 0
IsWritableHeader x = IsWritable x.address

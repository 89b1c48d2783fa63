-- ===== src/Protocol/Request.antt =====
-- src/protocol/request.rs
pub mod Contract
pub mod Accepted
use socks5_impl.Prelude.{ℕ, ◌+◌, List, [], ◌∷◌, get_or}
use socks5_impl.Stream.{Reader, ◌>>=◌, ◌>>◌, pure, lift, read_exact, read_u8}
use socks5_impl.Protocol.Operation.{put_u8, ◌▹◌, StreamOperation}
use socks5_impl.Protocol.Version
use socks5_impl.Protocol.Version.{v5, require_v5}
use socks5_impl.Protocol.Command
use socks5_impl.Protocol.Command.{Command}
use socks5_impl.Protocol.Address
use socks5_impl.Protocol.Address.{Address, IsAddress, IsWritable}

pub record Request : Type 0 where
  pub command : Command
  pub address : Address

abbrev pub new : Command → Address → Request
new command address = record { command = command; address = address }

unfoldable pub retrieve_from_stream : Reader Request
retrieve_from_stream = do
  ver ← read_exact 1
  version ← lift (Version.try_from (get_or ver 0 0))
  require_v5 version
  buf ← read_exact 2
  command ← lift (Command.try_from (get_or buf 0 0))
  address ← Address.retrieve_from_stream
  pure (record { command = command; address = address })

unfoldable pub retrieve_from_async_stream : Reader Request
retrieve_from_async_stream = do
  ver ← read_u8
  version ← lift (Version.try_from ver)
  require_v5 version
  buf ← read_exact 2
  command ← lift (Command.try_from (get_or buf 0 0))
  address ← Address.retrieve_from_async_stream
  pure (record { command = command; address = address })

unfoldable pub write_to_buf : Request → List ℕ → List ℕ
write_to_buf x buf =
    Address.write_to_buf x.address
      (buf ▹ put_u8 (Version.to_u8 v5) ▹ put_u8 (Command.to_u8 x.command) ▹ put_u8 0x00)

unfoldable pub len : Request → ℕ
len x = 3 + Address.len x.address

instance abbrev pub request_operation : StreamOperation Request
request_operation = record {
  retrieve_from_stream = retrieve_from_stream;
  retrieve_from_async_stream = retrieve_from_async_stream;
  write_to_buf = write_to_buf;
  len = len;
}

abbrev pub IsRequest : Request → Type 0
IsRequest x = IsAddress x.address

abbrev pub IsWritableRequest : Request → Type 0
IsWritableRequest x = IsWritable x.address

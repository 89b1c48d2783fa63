-- ===== src/Protocol/Password/Response.antt =====
-- src/protocol/handshake/password_method/response.rs
pub mod Contract
use socks5_impl.Prelude.{ℕ, List, [], ◌∷◌, get_or}
use socks5_impl.Stream.{Reader, ◌>>=◌, ◌>>◌, pure, lift, read_exact, read_u8}
use socks5_impl.Protocol.Operation.{put_u8, ◌▹◌, StreamOperation}
use socks5_impl.Protocol.Password.UserKey.{subnegotiation_version, require_subnegotiation}
use socks5_impl.Protocol.Password.Status
use socks5_impl.Protocol.Password.Status.{Status}

pub record Response : Type 0 where
  pub status : Status

abbrev pub new : Status → Response
new status = record { status = status }

unfoldable pub retrieve_from_stream : Reader Response
retrieve_from_stream = do
  ver ← read_exact 1
  require_subnegotiation (get_or ver 0 0)
  head ← read_exact 1
  status ← lift (Status.try_from (get_or head 0 0))
  pure (record { status = status })

unfoldable pub retrieve_from_async_stream : Reader Response
retrieve_from_async_stream = do
  ver ← read_u8
  require_subnegotiation ver
  head ← read_u8
  status ← lift (Status.try_from head)
  pure (record { status = status })

unfoldable pub write_to_buf : Response → List ℕ → List ℕ
write_to_buf x buf = buf ▹ put_u8 subnegotiation_version ▹ put_u8 (Status.to_u8 x.status)

unfoldable pub len : Response → ℕ
len x = 2

instance abbrev pub password_response_operation : StreamOperation Response
password_response_operation = record {
  retrieve_from_stream = retrieve_from_stream;
  retrieve_from_async_stream = retrieve_from_async_stream;
  write_to_buf = write_to_buf;
  len = len;
}

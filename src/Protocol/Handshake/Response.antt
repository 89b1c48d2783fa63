-- ===== src/Protocol/Handshake/Response.antt =====
-- src/protocol/handshake/response.rs
pub mod Contract
use socks5_impl.Prelude.{ℕ, List, [], ◌∷◌, get_or}
use socks5_impl.Stream.{Reader, ◌>>=◌, ◌>>◌, pure, lift, read_exact, read_u8}
use socks5_impl.Protocol.Operation.{put_u8, ◌▹◌, StreamOperation}
use socks5_impl.Protocol.Version
use socks5_impl.Protocol.Version.{v5, require_v5}
use socks5_impl.Protocol.Handshake.AuthMethod
use socks5_impl.Protocol.Handshake.AuthMethod.{AuthMethod, IsCanonical}

pub record Response : Type 0 where
  pub method : AuthMethod

abbrev pub new : AuthMethod → Response
new method = record { method = method }

unfoldable pub retrieve_from_stream : Reader Response
retrieve_from_stream = do
  ver ← read_exact 1
  version ← lift (Version.try_from (get_or ver 0 0))
  require_v5 version
  method ← read_exact 1
  pure (record { method = AuthMethod.from_u8 (get_or method 0 0) })

unfoldable pub retrieve_from_async_stream : Reader Response
retrieve_from_async_stream = do
  ver ← read_u8
  version ← lift (Version.try_from ver)
  require_v5 version
  method ← read_u8
  pure (record { method = AuthMethod.from_u8 method })

unfoldable pub write_to_buf : Response → List ℕ → List ℕ
write_to_buf x buf = buf ▹ put_u8 (Version.to_u8 v5) ▹ put_u8 (AuthMethod.to_u8 x.method)

unfoldable pub len : Response → ℕ
len x = 2

instance abbrev pub handshake_response_operation : StreamOperation Response
handshake_response_operation = record {
  retrieve_from_stream = retrieve_from_stream;
  retrieve_from_async_stream = retrieve_from_async_stream;
  write_to_buf = write_to_buf;
  len = len;
}

abbrev pub IsWritable : Response → Type 0
IsWritable x = IsCanonical x.method

-- ===== src/Protocol/Handshake/Request.antt =====
-- src/protocol/handshake/request.rs
pub mod Contract
pub mod Accepted
use socks5_impl.Prelude.{
  ℕ, ◌+◌, ◌≤◌, Bool, ◌||◌, false, List, [], ◌∷◌, get_or, map, length, as_u8, All,
}
use socks5_impl.Stream.{Reader, ◌>>=◌, ◌>>◌, pure, lift, read_exact, read_u8}
use socks5_impl.Protocol.Operation.{put_u8, put_slice, ◌▹◌, StreamOperation}
use socks5_impl.Protocol.Version
use socks5_impl.Protocol.Version.{v5, require_v5}
use socks5_impl.Protocol.Handshake.AuthMethod
use socks5_impl.Protocol.Handshake.AuthMethod.{AuthMethod, method_eq, IsCanonical}

pub record Request : Type 0 where
  pub methods : List AuthMethod

abbrev pub new : List AuthMethod → Request
new methods = record { methods = methods }

-- `iter().any(|&m| m == server_method)`
unfoldable pub any_method : AuthMethod → List AuthMethod → Bool
any_method server_method [] = false
any_method server_method (m ∷ ms) = method_eq m server_method || any_method server_method ms

unfoldable pub evaluate_method : Request → AuthMethod → Bool
evaluate_method x server_method = any_method server_method x.methods

unfoldable pub retrieve_from_stream : Reader Request
retrieve_from_stream = do
  ver ← read_exact 1
  version ← lift (Version.try_from (get_or ver 0 0))
  require_v5 version
  head ← read_exact 1
  let mlen : ℕ = get_or head 0 0
  methods ← read_exact mlen
  pure (record { methods = map AuthMethod.from_u8 methods })

unfoldable pub retrieve_from_async_stream : Reader Request
retrieve_from_async_stream = do
  ver ← read_u8
  version ← lift (Version.try_from ver)
  require_v5 version
  mlen ← read_u8
  methods ← read_exact mlen
  pure (record { methods = map AuthMethod.from_u8 methods })

unfoldable pub write_to_buf : Request → List ℕ → List ℕ
write_to_buf x buf =
    buf
    ▹ put_u8 (Version.to_u8 v5)
    ▹ put_u8 (as_u8 (length x.methods))
    ▹ put_slice (map AuthMethod.to_u8 x.methods)

unfoldable pub len : Request → ℕ
len x = 2 + length x.methods

instance abbrev pub handshake_request_operation : StreamOperation Request
handshake_request_operation = record {
  retrieve_from_stream = retrieve_from_stream;
  retrieve_from_async_stream = retrieve_from_async_stream;
  write_to_buf = write_to_buf;
  len = len;
}

-- At most 255 methods, each numbered as its kind says.
abbrev pub IsWritable : Request → Type 0
IsWritable x = (length x.methods ≤ 255) × All IsCanonical x.methods
